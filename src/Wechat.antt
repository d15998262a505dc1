-- ===== src/Wechat.antt =====
-- agent-runner/src/platforms/wechatpadpro.rs: what the adapter reads from an event of the webhook.
pub mod Texts
pub mod Extract
pub mod Compile
pub mod Send
pub mod Mentions
pub mod Attachments
pub mod Isolation
pub mod Origin
mod Tests
use dog_bot.Common.{
  ℕ, Bool, not, ◌||◌, Option, none, some, List, [], ◌∷◌, ◌++◌, any, is_empty, unwrap_or, map_some,
  ◌==◌, if◌then◌else◌,
}
use dog_bot.Common.Text.{Text, text, text_eq}
use dog_bot.Common.Text.Trim.{trim, trim_start_matches, is_whitespace}
use dog_bot.Common.Text.Split.{starts_with, strip_prefix}
use dog_bot.Common.Int.{ℤ}
use dog_bot.Json.{Value}
use dog_bot.Protocol.{text_part, CanonicalEvent, message_event}
use dog_bot.Wechat.Extract.{
  extract_content, extract_group_id, extract_message_id, extract_reply_to, extract_sender,
  extract_timestamp, is_text_event, unwrap_event,
}

-- `splitn(2, char::is_whitespace)`: what stands before the first white space, and what stands behind it, if there is any.
unfoldable pub split_word : Text → Text × Option Text
unfolding is_whitespace
split_word [] = ([], none)
split_word (c ∷ s) =
    let rest = split_word s in if is_whitespace c then ([], some s) else (c ∷ rest.0, rest.1)

abbrev pub is_at : ℕ → Bool
is_at c = c == b'@'

abbrev pub names_one : List Text → Text → Bool
names_one mention_names word =
    any (λ name. text_eq name (trim_start_matches is_at word)) mention_names

unfoldable pub strip_leading_mention : Text → List Text → Text
unfolding trim split_word trim_start_matches strip_prefix text_eq
strip_leading_mention content mention_names =
    let trimmed = trim content in
    if not (starts_with (text "@") trimmed) || is_empty mention_names
    then trimmed
    else if not (names_one mention_names (split_word trimmed).0)
    then trimmed
    else trim (unwrap_or (split_word trimmed).1 [])

abbrev pub conversation_of : Value → Text
conversation_of event = elim (extract_group_id event) [
  | some room_id ↦ text "wechatpadpro:group:" ++ room_id
  | none ↦ text "wechatpadpro:private:" ++ extract_sender event
]

abbrev pub webhook_event : ℤ → Value → Value → Text → List Text → Text → CanonicalEvent
webhook_event now payload event platform_account mention_names message_id =
    let content = extract_content event in
    let normalized = strip_leading_mention content mention_names in
    record {
      platform = text "wechatpadpro";
      platform_account = platform_account;
      conversation = conversation_of event;
      actor = text "wechatpadpro:user:" ++ extract_sender event;
      event_id = text "wechatpadpro:event:" ++ message_id;
      timestamp_epoch_secs = extract_timestamp now event;
      kind = message_event (record {
        message_id = message_id;
        reply_to = extract_reply_to event;
        parts = text_part normalized ∷ [];
        mentions = if text_eq normalized content then [] else platform_account ∷ [];
        native_metadata = event;
      });
      raw_native_payload = payload;
    }

unfoldable pub decode_webhook_event : ℤ → Value → Text → List Text → Option CanonicalEvent
unfolding unwrap_event is_text_event extract_message_id extract_content extract_sender
    extract_group_id extract_timestamp extract_reply_to strip_leading_mention
decode_webhook_event now payload platform_account mention_names =
    let event = unwrap_event payload in
    if is_text_event event
    then map_some (webhook_event now payload event platform_account mention_names)
        (extract_message_id event)
    else none
