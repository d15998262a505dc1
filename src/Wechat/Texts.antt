-- ===== src/Wechat/Texts.antt =====
-- agent-runner/src/platforms/wechatpadpro.rs: mentions, and the payload of a text.
use dog_bot.Common.{
  Bool, false, not, ◌&&◌, Option, none, some, List, [], ◌∷◌, ◌++◌, map, is_empty, unwrap_or,
  or_else, keep_if, map_some, if◌then◌else◌,
}
use dog_bot.Common.Text.{Text, text}
use dog_bot.Common.Text.Trim.{trim, trim_start_matches, is_whitespace}
use dog_bot.Common.Text.Split.{splitn, nth, join, strip_prefix}
use dog_bot.Common.Int.{pos}
use dog_bot.Json.{Value, str, array, object, field, end, nil, cons, integer, list_value}
use dog_bot.Platform.{DeliveryContext}
use dog_bot.Wechat.Extract.{
  not_empty, unwrap_event, extract_sender, extract_sender_name, extract_group_id, is_group_event,
}
use dog_bot.Wechat.{is_at}

pub record MentionTarget : Type 0 where
  pub actor_id : Text
  pub display : Option Text

abbrev pub ends_with_whitespace : Text → Bool
ends_with_whitespace [] = false
ends_with_whitespace (c ∷ []) = is_whitespace c
ends_with_whitespace (c ∷ d ∷ s) = ends_with_whitespace (d ∷ s)

unfoldable pub normalize_wechat_target_id : Text → Text
unfolding strip_prefix
normalize_wechat_target_id value = unwrap_or (strip_prefix (text "wechatpadpro:user:") value) value

unfoldable pub render_mention_text : MentionTarget → Text
unfolding trim trim_start_matches
render_mention_text target =
    b'@'
    ∷ trim_start_matches is_at
        (unwrap_or (keep_if not_empty (map_some trim target.display)) target.actor_id)

abbrev pub mention_ids : List MentionTarget → List Value
mention_ids [] = []
mention_ids (m ∷ mentions) = str m.actor_id ∷ mention_ids mentions

abbrev pub mention_prefix : List MentionTarget → Text
mention_prefix mentions = join (text " ") (map render_mention_text mentions)

abbrev pub prefixed : Text → Text → Text
prefixed prefix content =
    if is_empty (trim content) then prefix else prefix ++ (b' ' ∷ trim content)

unfoldable pub build_text_payload : Text → Text → Bool → List MentionTarget → Value
unfolding render_mention_text join trim
build_text_payload target content is_group mentions =
    let item =
      if is_group && not (is_empty mentions)
      then field (text "MsgType") (integer (pos 1)) (
          field (text "ToUserName") (str target) (
            field (text "TextContent") (str (prefixed (mention_prefix mentions) content))
              (field (text "AtWxIDList") (array (list_value (mention_ids mentions))) end)))
      else field (text "MsgType") (integer (pos 1))
          (field (text "ToUserName") (str target) (field (text "TextContent") (str content) end)) in
    object (field (text "MsgItem") (array (cons (object item) nil)) end)

abbrev pub mention_targets_for_reply : Option MentionTarget → List MentionTarget
mention_targets_for_reply none = []
mention_targets_for_reply (some target) =
    if is_empty (trim target.actor_id) then [] else target ∷ []

unfoldable pub compile_text_reply : Value → Text → Value
unfolding unwrap_event is_group_event extract_group_id extract_sender extract_sender_name
    build_text_payload trim
compile_text_reply payload content =
    let event = unwrap_event payload in
    let is_group = is_group_event event in
    build_text_payload
      (if is_group then unwrap_or (extract_group_id event) [] else extract_sender event) content
      is_group
      (mention_targets_for_reply (
        some (record {
          actor_id = extract_sender event;
          display = keep_if not_empty (some (extract_sender_name event));
        })))

abbrev pub context_display : DeliveryContext → Option Text
context_display context = or_else context.target_display_name (
    keep_if not_empty
      (map_some (λ payload. extract_sender_name (unwrap_event payload)) context.native_event))

unfoldable pub default_group_mention_from_context : DeliveryContext → Option MentionTarget
unfolding normalize_wechat_target_id trim unwrap_event extract_sender_name
default_group_mention_from_context context =
    map_some (λ actor_id. record { actor_id = actor_id; display = context_display context })
      (keep_if not_empty
        (map_some (λ value. trim (normalize_wechat_target_id value)) context.target_actor_id))

abbrev pub target_of : DeliveryContext → Text
target_of context = unwrap_or (nth 2 (splitn 3 b':' context.conversation_id)) []
