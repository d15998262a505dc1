-- ===== src/Trigger/Tests.antt =====
-- A group message that mentions the bot and asks for the status.
use dog_bot.Common.{◌≡◌, refl, not, ◌&&◌, ◌||◌, none, List, [], ◌∷◌}
use dog_bot.Common.Text.{text}
use dog_bot.Common.Text.Blank.{is_blank}
use dog_bot.Common.Int.{pos}
use dog_bot.Json.{null}
use dog_bot.Protocol.{
  MessagePart, text_part, mention, CanonicalMessage, CanonicalEvent, message_event,
  project_plain_text,
}
use dog_bot.Trigger.{mentions_bot, should_trigger_run}
use dog_bot.Trigger.Decisions.{in_scope, should_trigger_run_message}

abbrev lead : List MessagePart
lead = mention (text "bot") (text "@bot") ∷ text_part (text " ") ∷ []

abbrev status_message : CanonicalMessage
status_message = record {
  message_id = text "m";
  reply_to = none;
  parts =
      mention (text "bot") (text "@bot")
      ∷ text_part (text " ")
      ∷ text_part (text " /agent-status")
      ∷ [];
  mentions = text "bot" ∷ [];
  native_metadata = null;
}

abbrev status_event : CanonicalEvent
status_event = record {
  platform = text "qq";
  platform_account = text "bot";
  conversation = text "qq:group:1";
  actor = text "user";
  event_id = text "e";
  timestamp_epoch_secs = pos 1;
  kind = message_event status_message;
  raw_native_payload = null;
}

should_trigger_run_message_example : should_trigger_run status_event ≡ (
    (in_scope (text "private") status_event && not (is_blank (project_plain_text status_message)))
    || (in_scope (text "group") status_event && mentions_bot status_message (text "bot")))
should_trigger_run_message_example = should_trigger_run_message status_event status_message refl
