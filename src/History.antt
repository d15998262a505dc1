-- ===== src/History.antt =====
-- agent-runner/src/history/store.rs: the messages kept, the grants of read access, and the policy
-- of the schema that says which rows a run token reads. Times are epoch seconds. The serial ids,
-- `ingested_at` and a grant's `created_at` are left out; the child Queries has the errors of the
-- database.
pub mod Messages
pub mod Access
pub mod Roles
pub mod Quoting
pub mod Queries
pub mod Recent
mod Tests
use dog_bot.Common.{
  Bool, false, not, ◌&&◌, ◌||◌, Option, none, some, List, [], ◌∷◌, ◌++◌, any, keep, map,
  filter_some, unwrap_or, is_empty, if◌then◌else◌, ◌>>=◌,
}
use dog_bot.Common.Int.{ℤ, ltℤ, ◌+ℤ◌, opposite, scale}
use dog_bot.Common.Text.{Text, text, text_eq}
use dog_bot.Common.Text.Trim.{trim}
use dog_bot.Common.Text.Split.{splitn, nth, join}
use dog_bot.Json.{Value, member, as_str}
use dog_bot.Protocol.{
  MessagePart, text_part, mention, image, file, voice, video, sticker, quote, CanonicalMessage,
  CanonicalEvent, EventKind, message_event, reaction_added, reaction_removed,
}

pub record HistoryReadGrant : Type 0 where
  pub platform_account : Text
  pub conversation_id : Option Text
  pub actor_id : Text
  pub is_admin : Bool
  pub ttl_secs : ℤ

pub record HistoryReadGrantToken : Type 0 where
  pub token : Text
  pub database_url : Text

-- A row of `history_messages`.
pub record MessageRow : Type 0 where
  pub platform : Text
  pub platform_account : Text
  pub conversation_id : Text
  pub chat_type : Text
  pub message_id : Text
  pub actor_id : Text
  pub actor_display : Option Text
  pub plain_text : Text
  pub reply_to_message_id : Option Text
  pub created_at : ℤ
  pub raw : Text

-- A row of `history_read_grants`.
pub record GrantRow : Type 0 where
  pub token_hash : Text
  pub platform_account : Text
  pub conversation_id : Option Text
  pub actor_id : Text
  pub is_admin : Bool
  pub expires_at : ℤ

-- The tables of `history_schema_sql`.
pub record HistoryTables : Type 0 where
  pub history_messages : List MessageRow
  pub history_read_grants : List GrantRow

abbrev pub grant_row : Text → ℤ → HistoryReadGrant → GrantRow
grant_row token_hash now g = record {
  token_hash = token_hash;
  platform_account = g.platform_account;
  conversation_id = g.conversation_id;
  actor_id = g.actor_id;
  is_admin = g.is_admin;
  expires_at = now +ℤ g.ttl_secs;
}

-- `digest` is SHA-256; the rows all carry the hash of the one token.
unfoldable pub create_read_grants :
    (Text → Text)
    → ℤ
    → Text
    → Text
    → List HistoryReadGrant
    → HistoryTables
    → HistoryReadGrantToken × HistoryTables
create_read_grants digest now token reader_database_url grants db = (
  record { token = token; database_url = reader_database_url },
  record db {
    history_read_grants = db.history_read_grants ++ map (grant_row (digest token) now) grants;
  },
)

abbrev pub text_of_part : MessagePart → Option Text
text_of_part (text_part t) = some t
text_of_part (mention actor display) = none
text_of_part (image a) = none
text_of_part (file a) = none
text_of_part (voice a) = none
text_of_part (video a) = none
text_of_part (sticker a) = none
text_of_part (quote id excerpt) = none

-- Unlike `project_plain_text`, without the mentions.
unfoldable pub storage_plain_text : CanonicalMessage → Text
unfolding join
storage_plain_text m = join [] (filter_some text_of_part m.parts)

unfoldable pub conversation_scope : Text → Option Text
unfolding splitn
conversation_scope conversation = nth 1 (splitn 3 b':' conversation)

-- The columns of the unique index.
unfoldable pub is_message : Text → Text → Text → MessageRow → Bool
is_message account conversation id row =
    text_eq row.platform_account account
    && (text_eq row.conversation_id conversation && text_eq row.message_id id)

-- `ON CONFLICT ... DO UPDATE`: the platform and the chat type of the row stay.
abbrev pub overwrite : MessageRow → MessageRow → MessageRow
overwrite old excluded = record old {
  actor_id = excluded.actor_id;
  actor_display = excluded.actor_display;
  plain_text = excluded.plain_text;
  reply_to_message_id = excluded.reply_to_message_id;
  created_at = excluded.created_at;
  raw = excluded.raw;
}

unfoldable pub upsert_message : MessageRow → List MessageRow → List MessageRow
unfolding is_message
upsert_message new [] = new ∷ []
upsert_message new (row ∷ rows) =
    let rest = upsert_message new rows in
    if is_message new.platform_account new.conversation_id new.message_id row
    then overwrite row new ∷ rows
    else row ∷ rest

-- `print` is the JSON printer of the library.
abbrev pub message_row : (Value → Text) → CanonicalEvent → CanonicalMessage → Text → MessageRow
message_row print e m stored = record {
  platform = e.platform;
  platform_account = e.platform_account;
  conversation_id = e.conversation;
  chat_type = unwrap_or (conversation_scope e.conversation) (text "unknown");
  message_id = m.message_id;
  actor_id = e.actor;
  actor_display = member (text "sender_display") m.native_metadata >>= as_str;
  plain_text = stored;
  reply_to_message_id = m.reply_to;
  created_at = e.timestamp_epoch_secs;
  raw = print e.raw_native_payload;
}

abbrev pub insert_message :
    (Value → Text) → CanonicalEvent → CanonicalMessage → Text → HistoryTables → HistoryTables
insert_message print e m stored db = if is_empty stored then db else record db {
  history_messages = upsert_message (message_row print e m stored) db.history_messages;
}

abbrev pub insert_of_kind :
    (Value → Text) → CanonicalEvent → EventKind → HistoryTables → HistoryTables
insert_of_kind print e (message_event m) db =
    insert_message print e m (trim (storage_plain_text m)) db
insert_of_kind print e (reaction_added target emoji) db = db
insert_of_kind print e (reaction_removed target emoji) db = db

unfoldable pub insert_canonical_event :
    (Value → Text) → CanonicalEvent → HistoryTables → HistoryTables
unfolding storage_plain_text conversation_scope upsert_message trim
insert_canonical_event print e db = insert_of_kind print e e.kind db

-- What `purge_expired` keeps.
abbrev pub is_live : ℤ → GrantRow → Bool
is_live now g = ltℤ now g.expires_at

abbrev pub is_recent : ℤ → ℤ → MessageRow → Bool
is_recent now retention_days row =
    not (ltℤ row.created_at (now +ℤ opposite (scale 86400 retention_days)))

unfoldable pub purge_expired : ℤ → ℤ → HistoryTables → HistoryTables
purge_expired now retention_days db = record {
  history_messages = keep (is_recent now retention_days) db.history_messages;
  history_read_grants = keep (is_live now) db.history_read_grants;
}

-- A comparison with NULL is not true.
abbrev pub is_value : Option Text → Text → Bool
is_value none s = false
is_value (some t) s = text_eq t s

unfoldable pub grants_row : Text → ℤ → Text → Text → GrantRow → Bool
grants_row token_hash now account conversation g =
    text_eq g.token_hash token_hash
    && (ltℤ now g.expires_at
        && (text_eq g.platform_account account
            && (g.is_admin || is_value g.conversation_id conversation)))

unfoldable pub dogbot_can_read_history_row :
    (Text → Text) → Text → ℤ → Text → Text → HistoryTables → Bool
unfolding grants_row
dogbot_can_read_history_row digest run_token now account conversation db =
    any (grants_row (digest run_token) now account conversation) db.history_read_grants

-- The rows of `agent_read.messages` under the policy of the table.
unfoldable pub agent_read_messages : (Text → Text) → Text → ℤ → HistoryTables → List MessageRow
unfolding dogbot_can_read_history_row
agent_read_messages digest run_token now db =
    keep
      (λ row.
        dogbot_can_read_history_row digest run_token now row.platform_account row.conversation_id
          db)
      db.history_messages
