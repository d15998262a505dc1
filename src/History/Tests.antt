-- ===== src/History/Tests.antt =====
-- One message that is stored, and stored again after an edit; names and passwords in SQL.
use dog_bot.Common.{◌≡◌, refl, some, false, ◌++◌, map_some, ◌>>=◌, none, [], ◌∷◌, keep}
use dog_bot.Common.Text.{Text, text, text_eq}
use dog_bot.Common.Text.Split.{split_once, strip_prefix}
use dog_bot.Common.Int.{pos}
use dog_bot.Json.{Value, null}
use dog_bot.Protocol.{text_part, CanonicalMessage, CanonicalEvent, message_event}
use dog_bot.History.{
  HistoryTables, insert_canonical_event, purge_expired, is_recent, agent_read_messages,
}
use dog_bot.History.Access.{purge_expired-agent_read}
use dog_bot.History.Roles.{
  quote_literal, quote_identifier, reader_role_block, reader_role_statement,
}
use dog_bot.History.Quoting.{read_token, read_token-quote, reader_role_statement_whole}

abbrev print : Value → Text
print v = text "null"

abbrev said : Text → CanonicalMessage
said t = record {
  message_id = text "m1";
  reply_to = none;
  parts = text_part t ∷ [];
  mentions = [];
  native_metadata = null;
}

abbrev stored_event : Text → CanonicalEvent
stored_event t = record {
  platform = text "qq";
  platform_account = text "bot";
  conversation = text "qq:group:1";
  actor = text "user";
  event_id = text "e";
  timestamp_epoch_secs = pos 100;
  kind = message_event (said t);
  raw_native_payload = null;
}

abbrev empty_tables : HistoryTables
empty_tables = record { history_messages = []; history_read_grants = [] }

abbrev one_message : HistoryTables
one_message = insert_canonical_event print (stored_event (text "hi")) empty_tables

purge_expired-agent_read_example :
    agent_read_messages
      (λ t. t)
      (text "token")
      (pos 999999)
      (purge_expired (pos 999999) (pos 1) one_message)
    ≡ keep
        (is_recent (pos 999999) (pos 1))
        (agent_read_messages (λ t. t) (text "token") (pos 999999) one_message)
purge_expired-agent_read_example =
    purge_expired-agent_read (λ t. t) (text "token") (pos 999999) (pos 1) one_message

read_token-quote_example :
    (read_token 39 (quote_literal (text "o'b") ++ text ";") ≡ some (text "o'b", text ";"))
    × (read_token b'"' (quote_identifier (text "o'b") ++ text ";") ≡ some (text "o'b", text ";"))
unfolding strip_prefix
read_token-quote_example = read_token-quote (text "o'b") (text ";") refl refl

quoted : quote_literal (text "o'b") ≡ text "'o''b'"
unfolding quote_literal
quoted = refl

reader_role_statement_whole_example :
    (strip_prefix (text "DO $$") (reader_role_statement (text "reader") (text "p'w"))
      >>= split_once (text "$$"))
    ≡ some (reader_role_block (text "reader") (text "p'w"), text ";")
reader_role_statement_whole_example =
    reader_role_statement_whole (text "reader") (text "p'w") refl refl

-- With two dollar signs in the password the block ends inside it.
cut_by_password :
    map_some
      (λ r. text_eq r.1 (text ";"))
      (strip_prefix (text "DO $$") (reader_role_statement (text "reader") (text "a$$b"))
        >>= split_once (text "$$"))
    ≡ some false
unfolding reader_role_statement split_once strip_prefix text_eq
cut_by_password = refl
