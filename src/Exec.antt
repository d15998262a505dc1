-- ===== src/Exec.antt =====
-- agent-runner/src/exec.rs: the commands, the read grants and the sessions of a run, and the run
-- itself with its one retry.
pub mod Runner
pub mod Sessions
pub mod Reset
pub mod Load
pub mod Grants
pub mod Retry
pub mod Runtime
mod Tests
use dog_bot.Common.{
  ℕ, Bool, true, false, ◌&&◌, ◌||◌, Option, none, some, List, [], ◌∷◌, ◌++◌, any, map, is_empty,
  if◌then◌else◌, String,
}
use dog_bot.Common.Text.{Text, text, text_eq}
use dog_bot.Common.Text.Trim.{trim}
use dog_bot.Common.Text.Split.{contains, split_once}
use dog_bot.Common.Int.{ℤ}
use dog_bot.Models.{RunRequest, RunResponse, ErrorResponse, error_with}
use dog_bot.Config.{Settings}
use dog_bot.History.{HistoryReadGrant, HistoryReadGrantToken}
use dog_bot.SessionTables.{
  Tables, SessionRecord, SessionStoreError, postgres, worker_panicked, session_conflict, Action,
  pure, ◌>>=◌, ◌>>◌, Conversation,
}
use dog_bot.Sessions.{
  get_or_create_conversation_session, reset_conversation_session, validate_external_session_binding,
  bind_external_session_id,
}

abbrev pub with_duration : RunResponse → ℕ → RunResponse
with_duration response duration_ms = record response { duration_ms = duration_ms }

unfoldable pub looks_like_missing_session : Text → Bool
unfolding split_once
looks_like_missing_session s = contains (text "No conversation found with session ID:") s

unfoldable pub should_retry_with_fresh_session : RunResponse → Bool → Bool
unfolding looks_like_missing_session trim
should_retry_with_fresh_session response is_new_session =
    if is_new_session || response.timed_out
    then false
    else looks_like_missing_session (trim response.stdout)
      || looks_like_missing_session (trim response.stderr)

unfoldable pub build_claude_command : Text → Text → Text → Bool → List Text
build_claude_command prompt system_prompt claude_session_id is_new_session =
    (text "claude"
      ∷ text "--print"
      ∷ text "--dangerously-skip-permissions"
      ∷ text "--append-system-prompt"
      ∷ system_prompt
      ∷ text "--add-dir"
      ∷ text "/workspace"
      ∷ text "/state/claude-prompt"
      ∷ [])
    ++ (if is_new_session then text "--session-id" else text "--resume")
      ∷ claude_session_id
      ∷ prompt
      ∷ []

unfoldable pub is_admin_private_history_request : Settings → RunRequest → Bool
is_admin_private_history_request settings request =
    text_eq request.chat_type (text "private")
    && any (λ actor_id. text_eq actor_id request.user_id) settings.admin_actor_ids

abbrev pub push_unique : List Text → Text → List Text
push_unique values value =
    if is_empty value || any (λ existing. text_eq existing value) values
    then values
    else values ++ value ∷ []

unfoldable pub push_unique_trimmed : List Text → Text → List Text
unfolding trim
push_unique_trimmed values value = push_unique values (trim value)

abbrev pub push_configured : List Text → Option Text → List Text
push_configured values none = values
push_configured values (some account) = push_unique_trimmed values account

unfoldable pub admin_history_platform_accounts : Settings → RunRequest → List Text
unfolding push_unique_trimmed
admin_history_platform_accounts settings request =
    push_configured
      (push_configured (push_unique_trimmed [] request.platform_account_id)
        settings.platform_qq_account_id)
      settings.platform_wechatpadpro_account_id

abbrev pub admin_grant : RunRequest → ℤ → Text → HistoryReadGrant
admin_grant request ttl_secs platform_account = record {
  platform_account = platform_account;
  conversation_id = none;
  actor_id = request.user_id;
  is_admin = true;
  ttl_secs = ttl_secs;
}

abbrev pub own_grant : RunRequest → ℤ → HistoryReadGrant
own_grant request ttl_secs = record {
  platform_account = request.platform_account_id;
  conversation_id = some request.conversation_id;
  actor_id = request.user_id;
  is_admin = false;
  ttl_secs = ttl_secs;
}

unfoldable pub history_read_grants_for_request : Settings → RunRequest → List HistoryReadGrant
unfolding is_admin_private_history_request admin_history_platform_accounts
history_read_grants_for_request settings request =
    if is_admin_private_history_request settings request
    then map (admin_grant request settings.history_run_token_ttl_secs)
        (admin_history_platform_accounts settings request)
    else own_grant request settings.history_run_token_ttl_secs ∷ []

unfoldable pub history_exec_env : HistoryReadGrantToken → List Text
history_exec_env t =
    (text "DOGBOT_HISTORY_DATABASE_URL=" ++ t.database_url)
    ∷ (text "DOGBOT_HISTORY_RUN_TOKEN=" ++ t.token)
    ∷ (text "PGOPTIONS=-c dogbot.run_token=" ++ (t.token ++ text " -c statement_timeout=5000"))
    ∷ []

-- `Display`; `driver` is the message of the database driver.
abbrev pub session_error_text : Text → SessionStoreError → Text
session_error_text driver postgres = driver
session_error_text driver worker_panicked = text "postgres worker thread panicked"
session_error_text driver (session_conflict external platform conversation user) =
    text "external session_id "
    ++ (external
        ++ (text " already belongs to platform="
            ++ (platform
                ++ (text ", conversation_id=" ++ (conversation ++ (text ", user_id=" ++ user))))))

abbrev pub session_error_code : SessionStoreError → String
session_error_code postgres = "session_store_failed"
session_error_code worker_panicked = "session_store_failed"
session_error_code (session_conflict external platform conversation user) = "session_conflict"

abbrev pub map_session_store_error : Text → SessionStoreError → ErrorResponse
map_session_store_error driver e = error_with (session_error_code e) (session_error_text driver e)

abbrev pub conversation_of : RunRequest → Conversation
conversation_of request = record {
  platform = request.platform;
  platform_account = request.platform_account_id;
  conversation_id = request.conversation_id;
}

-- `if !request.session_id.trim().is_empty()`.
abbrev pub when_external : RunRequest → Action (Unit {0}) → Action (Unit {0})
when_external request action = if is_empty (trim request.session_id) then pure tt else action

unfoldable pub load_runtime_session : ℤ → Text → RunRequest → Action SessionRecord
load_runtime_session now uuid request = do
  when_external request
      (validate_external_session_binding request.session_id (conversation_of request))
  session ← get_or_create_conversation_session now uuid (conversation_of request)
  when_external request (bind_external_session_id request.session_id (conversation_of request))
  pure session

unfoldable pub reset_runtime_session : ℤ → Text → RunRequest → Action SessionRecord
reset_runtime_session now uuid request = do
  when_external request
      (validate_external_session_binding request.session_id (conversation_of request))
  session ← reset_conversation_session now uuid (conversation_of request)
  when_external request (bind_external_session_id request.session_id (conversation_of request))
  pure session
