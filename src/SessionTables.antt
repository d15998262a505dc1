-- ===== src/SessionTables.antt =====
-- agent-runner/src/session_store.rs: the two tables as maps by their primary keys, and the single
-- statements on them. The statements commit one by one, so what was written before an error stays,
-- and other clients act before every statement. Modelled are runs in which the database answers.
use dog_bot.Common.{Bool, true, false, ◌&&◌, Option, none, some, List, [], ◌∷◌, ◌++◌, if◌then◌else◌}
use dog_bot.Common.Text.{Text, text, text_eq}
use dog_bot.Common.Int.{ℤ}
use dog_bot.Common.Result.{Result, ok, err}
use dog_bot.HashMap.{HashMap, get, insert, contains_key}

-- A row of `runner_sessions`, without its key.
pub record SessionRow : Type 0 where
  pub claude_session_id : Text
  pub platform : Text
  pub platform_account : Text
  pub conversation_id : Text
  pub created_at_epoch_secs : ℤ
  pub last_used_at_epoch_secs : ℤ

-- `session_schema_sql`.
pub record Tables : Type 0 where
  pub runner_sessions : HashMap SessionRow
  pub runner_session_aliases : HashMap Text

pub record SessionRecord : Type 0 where
  pub session_key : Text
  pub external_session_id : Text
  pub claude_session_id : Text
  pub platform : Text
  pub platform_account : Text
  pub conversation_id : Text
  pub user_id : Text
  pub created_at_epoch_secs : ℤ
  pub last_used_at_epoch_secs : ℤ
  pub is_new : Bool

pub data SessionStoreError : Type 0 where
  postgres : SessionStoreError
  worker_panicked : SessionStoreError
  session_conflict : Text → Text → Text → Text → SessionStoreError

-- The database: the tables, and what the other clients do to them before each of the next statements; at its end they do nothing more.
pub record Database : Type 0 where
  pub tables : Tables
  pub others : List (Tables → Tables)

abbrev pub Action : Type 0 → Type 0
Action A = Database → Result SessionStoreError A × Database

-- The others have their turn.
abbrev pub interfered : List (Tables → Tables) → Tables → Database
interfered [] t = record { tables = t; others = [] }
interfered (f ∷ fs) t = record { tables = f t; others = fs }

abbrev pub executed : {A : Type 0} → (Tables → Result SessionStoreError A × Tables) → Action A
executed run db = let r = run db.tables in (r.0, record db { tables = r.1 })

-- A statement commits by itself.
abbrev pub statement : {A : Type 0} → (Tables → Result SessionStoreError A × Tables) → Action A
statement run db = executed run (interfered db.others db.tables)

abbrev pub pure : {A : Type 0} → A → Action A
pure a db = (ok a, db)

abbrev pub fail : {A : Type 0} → SessionStoreError → Action A
fail e db = (err e, db)

abbrev pub continue : {A B : Type 0} → Result SessionStoreError A → (A → Action B) → Action B
continue (ok a) f db = f a db
continue (err e) f db = (err e, db)

infixl 5 ◌>>=◌ ◌>>◌
abbrev pub ◌>>=◌ : {A B : Type 0} → Action A → (A → Action B) → Action B
◌>>=◌ m f db = let r = m db in continue r.0 f r.1

abbrev pub ◌>>◌ : {B : Type 0} → Action (Unit {0}) → Action B → Action B
m >> k = m >>= λ _. k

-- The identity of a conversation.
pub record Conversation : Type 0 where
  pub platform : Text
  pub platform_account : Text
  pub conversation_id : Text

unfoldable pub conversation_session_key : Conversation → Text
conversation_session_key c =
    text "conversation::"
    ++ (c.platform ++ (text "::" ++ (c.platform_account ++ (text "::" ++ c.conversation_id))))

abbrev pub build_session_record : Text → Text → SessionRow → Bool → SessionRecord
build_session_record key external row is_new = record {
  session_key = key;
  external_session_id = external;
  claude_session_id = row.claude_session_id;
  platform = row.platform;
  platform_account = row.platform_account;
  conversation_id = row.conversation_id;
  user_id = [];
  created_at_epoch_secs = row.created_at_epoch_secs;
  last_used_at_epoch_secs = row.last_used_at_epoch_secs;
  is_new = is_new;
}

abbrev pub fetched : Text → Text → Option SessionRow → Option SessionRecord
fetched key external none = none
fetched key external (some row) = some (build_session_record key external row false)

unfoldable pub fetch_session : Text → Text → Action (Option SessionRecord)
fetch_session key external =
    statement λ db. (ok (fetched key external (get key db.runner_sessions)), db)

unfoldable pub lookup_session_alias : Text → Action (Option Text)
lookup_session_alias external = statement λ db. (ok (get external db.runner_session_aliases), db)

-- `ON CONFLICT DO UPDATE`; the foreign key refuses an alias of a session that is not there.
unfoldable pub upsert_session_alias : Text → Text → Action (Unit {0})
upsert_session_alias external key = statement λ db.
    if contains_key key db.runner_sessions
    then (
      ok tt,
      record db { runner_session_aliases = insert external key db.runner_session_aliases },
    )
    else (err postgres, db)

unfoldable pub ensure_session_identity : SessionRecord → Conversation → Action (Unit {0})
ensure_session_identity r c =
    if text_eq r.platform c.platform
      && (text_eq r.platform_account c.platform_account
          && text_eq r.conversation_id c.conversation_id)
    then pure tt
    else fail (session_conflict r.external_session_id r.platform r.conversation_id r.user_id)

-- `UPDATE runner_sessions SET ... WHERE session_key = $`: no row, no change.
abbrev pub update_row : Text → (SessionRow → SessionRow) → HashMap SessionRow → HashMap SessionRow
update_row key change rows = elim (get key rows) [
  | none ↦ rows
  | some row ↦ insert key (change row) rows
]

unfoldable pub touch : Text → ℤ → Action (Unit {0})
touch key now = statement λ db. (
  ok tt,
  record db {
    runner_sessions =
        update_row key (λ row. record row { last_used_at_epoch_secs = now }) db.runner_sessions;
  },
)

-- `INSERT ... ON CONFLICT(session_key) DO NOTHING`, with whether a row was inserted.
unfoldable pub insert_session : Text → SessionRow → Action Bool
insert_session key row = statement λ db.
    if contains_key key db.runner_sessions
    then (ok false, db)
    else (ok true, record db { runner_sessions = insert key row db.runner_sessions })

abbrev pub new_row : Text → Conversation → ℤ → SessionRow
new_row uuid c now = record {
  claude_session_id = uuid;
  platform = c.platform;
  platform_account = c.platform_account;
  conversation_id = c.conversation_id;
  created_at_epoch_secs = now;
  last_used_at_epoch_secs = now;
}
