-- ===== src/Models.antt =====
-- agent-runner/src/models.rs and pipeline.rs: requests, their validation, and the prompts.
use dog_bot.Common.{
  ℕ, Bool, false, not, Option, none, some, List, [], ◌∷◌, ◌++◌, is_empty, any, unwrap_or,
  if◌then◌else◌, String, ◌>>=◌,
}
use dog_bot.Common.Text.{Text, text, text_eq}
use dog_bot.Common.Text.Trim.{trim}
use dog_bot.Common.Text.Split.{starts_with, strip_prefix, join}
use dog_bot.Common.Int.{ℤ}
use dog_bot.Common.Result.{Result, ok, err}
use dog_bot.Json.{Value, null, str, array, object, Items, nil, cons, end, field}

pub record MentionRef : Type 0 where
  pub ref_id : Text
  pub actor_id : Text
  pub display : Text

pub record SystemPromptContext : Type 0 where
  pub platform : Text
  pub platform_account : Text

abbrev pub new_line : Text
new_line = 10 ∷ []

unfoldable pub render_system : SystemPromptContext → Text
render_system c =
    text "Current platform: "
    ++ (c.platform
        ++ (new_line
            ++ (text "Current platform account: "
                ++ (c.platform_account
                    ++ (new_line
                        ++ (new_line
                            ++ (text
                                  "Before replying, read and follow /state/claude-prompt/CLAUDE.md to initialize the conversation."
                                ++ (new_line
                                    ++ (text
                                          "Before composing any DogBot reply body or dogbot-action block, MUST read and follow /state/claude-prompt/skills/reply-format/SKILL.md."
                                        ++ (new_line
                                            ++ (text
                                                  "Reply using plain text plus optional ```dogbot-action``` JSON blocks only."
                                                ++ (new_line
                                                    ++ (text
                                                          "Do not use Markdown in outbound social-platform messages."
                                                        ++ (new_line
                                                            ++ (text
                                                            "Do not emit QQ, WeChat, or other platform-private syntax directly."
                                                            ++ (new_line
                                                            ++ text
                                                            "When sending media, only reference files that already exist under /workspace."))))))))))))))))

pub record TurnPromptContext : Type 0 where
  pub conversation : Text
  pub actor : Text
  pub trigger_message_id : Option Text
  pub trigger_reply_to_message_id : Option Text
  pub trigger_summary : Text
  pub mention_refs : List MentionRef
  pub reply_excerpt : Option Text

-- An `Option<String>` in `json!`.
abbrev pub optional_str : Option Text → Value
optional_str none = null
optional_str (some s) = str s

abbrev pub mention_values : List MentionRef → Items
mention_values [] = nil
mention_values (m ∷ ms) =
    cons
      (object (
        field (text "ref_id") (str m.ref_id)
          (field (text "actor_id") (str m.actor_id) (field (text "display") (str m.display) end))))
      (mention_values ms)

-- The context of the turn; `print` is the JSON printer of the library.
unfoldable pub render_turn : (Value → Text) → TurnPromptContext → Text
render_turn print c =
    text "Turn context (JSON):"
    ++ (new_line
        ++ print (
            object (
              field (text "conversation") (str c.conversation) (
                field (text "actor") (str c.actor) (
                  field (text "trigger_message_id") (optional_str c.trigger_message_id) (
                    field (text "trigger_reply_to_message_id")
                      (optional_str c.trigger_reply_to_message_id)
                      (field (text "trigger_summary") (str c.trigger_summary) (
                        field (text "mention_refs") (array (mention_values c.mention_refs))
                          (field (text "reply_excerpt") (optional_str c.reply_excerpt) end)))))))))

unfoldable pub render_with_user_prompt : (Value → Text) → TurnPromptContext → Text → Text
unfolding render_turn trim
render_with_user_prompt print c user_prompt =
    render_turn print c
    ++ (new_line ++ (new_line ++ (text "User prompt:" ++ (new_line ++ trim user_prompt))))

pub record RunRequest : Type 0 where
  pub platform : Text
  pub platform_account_id : Text
  pub conversation_id : Text
  pub session_id : Text
  pub user_id : Text
  pub chat_type : Text
  pub cwd : Text
  pub prompt : Text
  pub trigger_summary : Option Text
  pub trigger_message_id : Option Text
  pub trigger_reply_to_message_id : Option Text
  pub mention_refs : List MentionRef
  pub reply_excerpt : Option Text
  pub timeout_secs : Option ℕ

pub record ValidatedRunRequest : Type 0 where
  pub cwd : Text
  pub prompt : Text
  pub system_prompt : Text

-- The trimmed text, if it is not empty: `normalized_optional_text` on a value, and `trim_to_option`
-- of env_helpers.rs.
unfoldable pub trim_to_option : Text → Option Text
unfolding trim
trim_to_option s = if is_empty (trim s) then none else some (trim s)

abbrev pub normalized_optional_text : Option Text → Option Text
normalized_optional_text value = value >>= trim_to_option

abbrev pub allowed_prefixes : List Text
allowed_prefixes = text "/workspace" ∷ text "/state" ∷ []

unfoldable pub validate_cwd : Text → Result Text Text
unfolding strip_prefix join
validate_cwd cwd =
    if is_empty cwd
    then err (text "cwd must be provided")
    else if not (starts_with (text "/") cwd)
    then err (text "cwd " ++ (cwd ++ text " must be absolute"))
    else if any (λ allowed. text_eq cwd allowed) allowed_prefixes
    then ok cwd
    else err (
        text "cwd "
        ++ (cwd
            ++ (text " is not an approved root; allowed values are "
                ++ join (text ", ") allowed_prefixes)))

-- The context of the turn that `validate` renders.
abbrev pub turn_of : RunRequest → TurnPromptContext
turn_of r = record {
  conversation = r.conversation_id;
  actor = r.user_id;
  trigger_message_id = normalized_optional_text r.trigger_message_id;
  trigger_reply_to_message_id = normalized_optional_text r.trigger_reply_to_message_id;
  trigger_summary = unwrap_or (normalized_optional_text r.trigger_summary) (trim r.prompt);
  mention_refs = r.mention_refs;
  reply_excerpt = normalized_optional_text r.reply_excerpt;
}

abbrev pub validate_with :
    (Value → Text) → RunRequest → Result Text Text → Result Text ValidatedRunRequest
validate_with print r (err e) = err e
validate_with print r (ok cwd) = ok (record {
  cwd = cwd;
  prompt = render_with_user_prompt print (turn_of r) r.prompt;
  system_prompt =
      render_system (record { platform = r.platform; platform_account = r.platform_account_id });
})

-- `RunRequest::validate`.
unfoldable pub validate : (Value → Text) → RunRequest → Result Text ValidatedRunRequest
unfolding validate_cwd render_with_user_prompt render_system trim_to_option
validate print r = validate_with print r (validate_cwd r.cwd)

pub record RunResponse : Type 0 where
  pub status : Text
  pub stdout : Text
  pub stderr : Text
  pub exit_code : ℤ
  pub timed_out : Bool
  pub duration_ms : ℕ

pub record ErrorResponse : Type 0 where
  pub status : Text
  pub error_code : Text
  pub message : Text
  pub timed_out : Bool

-- The literals of the code all have this status and have not timed out.
abbrev pub error_with : String → Text → ErrorResponse
error_with code message = record {
  status = text "error";
  error_code = text code;
  message = message;
  timed_out = false;
}

pub record MessageRequest : Type 0 where
  pub session_id : Text
  pub text : Text
  pub reply_to_message_id : Option Text
  pub mention_user_id : Option Text

pub record MessageResponse : Type 0 where
  pub status : Text
  pub message_id : Option Text

-- `MessageRequest::validate`.
unfoldable pub validate_message : MessageRequest → Result Text (Unit {0})
unfolding trim
validate_message r =
    if is_empty (trim r.session_id)
    then err (text "session_id must be provided")
    else if is_empty (trim r.text)
    then err (text "text must be provided")
    else ok tt
