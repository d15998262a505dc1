-- ===== src/History/Roles.antt =====
-- agent-runner/src/history/store.rs: opening the store, its schema, and the role with which a run
-- reads it. `batch_execute` of the database client and the URL parser are parameters.
use dog_bot.Common.{Option, none, some, [], ◌∷◌, ◌++◌}
use dog_bot.Common.Text.{Text, text}
use dog_bot.Common.Text.Split.{replace_char, join}
use dog_bot.Common.Int.{ℤ}
use dog_bot.Common.Result.{Result, ok, err, map_err, ok_or, ◌>>=◌}
use dog_bot.Config.{Settings}

unfoldable pub quote_identifier : Text → Text
unfolding replace_char
quote_identifier value = text "\"" ++ (replace_char b'"' (text "\"\"") value ++ text "\"")

unfoldable pub quote_literal : Text → Text
unfolding replace_char
quote_literal value = text "'" ++ (replace_char 39 (text "''") value ++ text "'")

-- The text between the two `$$` of the block that `ensure_reader_role` sends.
unfoldable pub reader_role_block : Text → Text → Text
unfolding quote_identifier quote_literal
reader_role_block reader_role reader_password =
    let reader_role_ident = quote_identifier reader_role in
    let reader_role_literal = quote_literal reader_role in
    let reader_password_literal = quote_literal reader_password in
    text "\n         BEGIN\n             IF NOT EXISTS (SELECT 1 FROM pg_roles WHERE rolname = "
    ++ (reader_role_literal
        ++ (text ") THEN\n                 CREATE ROLE "
            ++ (reader_role_ident
                ++ (text "\n                     WITH LOGIN PASSWORD "
                    ++ (reader_password_literal
                        ++ (text
                              "\n                     NOSUPERUSER NOCREATEDB NOCREATEROLE NOINHERIT;\n             ELSE\n                 ALTER ROLE "
                            ++ (reader_role_ident
                                ++ (text "\n                     WITH LOGIN PASSWORD "
                                    ++ (reader_password_literal
                                        ++ text
                                            "\n                     NOSUPERUSER NOCREATEDB NOCREATEROLE NOINHERIT;\n             END IF;\n         END\n         ")))))))))

unfoldable pub reader_role_statement : Text → Text → Text
unfolding reader_role_block
reader_role_statement reader_role reader_password =
    text "DO $$" ++ (reader_role_block reader_role reader_password ++ text "$$;")

unfoldable pub reader_access_statement : Text → Text
unfolding quote_identifier
reader_access_statement role =
    let reader_role = quote_identifier role in
    text "GRANT USAGE ON SCHEMA agent_read TO "
    ++ (reader_role
        ++ (text ";\n         GRANT SELECT ON agent_read.messages TO "
            ++ (reader_role
                ++ (text
                      ";\n         GRANT SELECT (\n             id,\n             platform,\n             platform_account,\n             conversation_id,\n             chat_type,\n             message_id,\n             actor_id,\n             actor_display,\n             plain_text,\n             reply_to_message_id,\n             created_at\n         ) ON history_messages TO "
                    ++ (reader_role ++ text ";")))))

unfoldable pub history_schema_sql : Text
unfolding join
history_schema_sql = join [] (
    text "\nCREATE EXTENSION IF NOT EXISTS pgcrypto;\n\n"
    ∷ text
        "CREATE TABLE IF NOT EXISTS history_messages (\n    id bigserial PRIMARY KEY,\n    platform text NOT NULL,\n    platform_account text NOT NULL,\n    conversation_id text NOT NULL,\n    chat_type text NOT NULL,\n    message_id text NOT NULL,\n    actor_id text NOT NULL,\n    actor_display text,\n    plain_text text NOT NULL,\n    reply_to_message_id text,\n    created_at timestamptz NOT NULL,\n    ingested_at timestamptz NOT NULL DEFAULT now(),\n    raw jsonb\n);\n\n"
    ∷ text
        "CREATE UNIQUE INDEX IF NOT EXISTS history_messages_unique_msg_idx\n    ON history_messages (platform_account, conversation_id, message_id);\n\n"
    ∷ text
        "CREATE INDEX IF NOT EXISTS history_messages_conversation_time_idx\n    ON history_messages (platform_account, conversation_id, created_at DESC);\n\n"
    ∷ text
        "CREATE INDEX IF NOT EXISTS history_messages_actor_time_idx\n    ON history_messages (platform_account, actor_id, created_at DESC);\n\n"
    ∷ text
        "CREATE INDEX IF NOT EXISTS history_messages_platform_account_idx\n    ON history_messages (platform_account);\n\n"
    ∷ text
        "CREATE TABLE IF NOT EXISTS history_read_grants (\n    id bigserial PRIMARY KEY,\n    token_hash bytea NOT NULL,\n    platform_account text NOT NULL,\n    conversation_id text,\n    actor_id text NOT NULL,\n    is_admin boolean NOT NULL DEFAULT false,\n    expires_at timestamptz NOT NULL,\n    created_at timestamptz NOT NULL DEFAULT now()\n);\n\n"
    ∷ text
        "CREATE INDEX IF NOT EXISTS history_read_grants_token_idx\n    ON history_read_grants (token_hash);\n\n"
    ∷ text
        "CREATE INDEX IF NOT EXISTS history_read_grants_expiry_idx\n    ON history_read_grants (expires_at);\n\n"
    ∷ text
        "CREATE INDEX IF NOT EXISTS history_read_grants_platform_account_idx\n    ON history_read_grants (platform_account);\n\n"
    ∷ text
        "CREATE OR REPLACE FUNCTION dogbot_can_read_history_row(\n    row_platform_account text,\n    row_conversation_id text\n)\nRETURNS boolean\nLANGUAGE sql\nSTABLE\nSECURITY DEFINER\nSET search_path = pg_catalog, public\nAS $$\n    SELECT EXISTS (\n        SELECT 1\n        FROM history_read_grants g\n        WHERE g.token_hash = digest(\n            current_setting('dogbot.run_token', true),\n            'sha256'\n        )\n          AND g.expires_at > now()\n          AND g.platform_account = row_platform_account\n          AND (\n              g.is_admin\n              OR g.conversation_id = row_conversation_id\n          )\n    );\n$$;\n\n"
    ∷ text
        "ALTER TABLE history_messages ENABLE ROW LEVEL SECURITY;\nALTER TABLE history_messages FORCE ROW LEVEL SECURITY;\n\n"
    ∷ text
        "DROP POLICY IF EXISTS history_messages_agent_read ON history_messages;\nCREATE POLICY history_messages_agent_read\nON history_messages\nFOR SELECT\nUSING (dogbot_can_read_history_row(platform_account, conversation_id));\n\n"
    ∷ text "CREATE SCHEMA IF NOT EXISTS agent_read;\n\n"
    ∷ text
        "CREATE OR REPLACE VIEW agent_read.messages\nWITH (security_barrier = true, security_invoker = true)\nAS\nSELECT\n    id,\n    platform,\n    platform_account,\n    conversation_id,\n    chat_type,\n    message_id,\n    actor_id,\n    actor_display,\n    plain_text,\n    reply_to_message_id,\n    created_at\nFROM history_messages;\n"
    ∷ [])

pub data HistoryStoreError : Type 0 where
  postgres : Text → HistoryStoreError
  invalid_database_url : Text → HistoryStoreError
  worker_panicked : HistoryStoreError

-- The methods of the URL library.
pub record UrlLibrary (U : Type 0) : Type 0 where
  pub parse : Text → Result Text U
  pub set_username : Text → U → Option U
  pub set_password : Text → U → Option U
  pub print : U → Text

unfoldable pub reader_database_url :
    {U : Type 0} → UrlLibrary U → Settings → Result HistoryStoreError Text
reader_database_url lib settings = elim settings.postgres_agent_reader_database_url [
  | some url ↦ ok url
  | none ↦ do
    url ← map_err invalid_database_url (lib.parse settings.database_url)
    url' ←
        ok_or (invalid_database_url (text "invalid reader username"))
          (lib.set_username settings.postgres_agent_reader_user url)
    url'' ←
        ok_or (invalid_database_url (text "invalid reader password"))
          (lib.set_password settings.postgres_agent_reader_password url')
    ok (lib.print url'')
]

pub record HistoryStore : Type 0 where
  pub database_url : Text
  pub reader_database_url : Text
  pub reader_role : Text
  pub reader_password : Text
  pub retention_days : ℤ

unfoldable pub open_store :
    {U : Type 0} → UrlLibrary U → Settings → Result HistoryStoreError HistoryStore
unfolding reader_database_url
open_store lib settings = do
  url ← reader_database_url lib settings
  ok (record {
    database_url = settings.database_url;
    reader_database_url = url;
    reader_role = settings.postgres_agent_reader_user;
    reader_password = settings.postgres_agent_reader_password;
    retention_days = settings.history_retention_days;
  })

-- What the store does with a client of the database whose state is `W`.
abbrev Batch : Type 0 → Type 0
Batch W = W → Result HistoryStoreError (Unit {0}) × W

-- The second runs if the first did not fail.
abbrev and_then :
    {W : Type 0}
    → Batch W
    → Result HistoryStoreError (Unit {0}) × W
    → Result HistoryStoreError (Unit {0}) × W
and_then next (ok u, w) = next w
and_then next (err e, w) = (err e, w)

module _ {W : Type 0} (batch_execute : Text → Batch W) where
  unfoldable pub ensure_reader_role : Text → Text → W → Result HistoryStoreError (Unit {0}) × W
  unfolding reader_role_statement
  ensure_reader_role reader_role reader_password w =
      batch_execute (reader_role_statement reader_role reader_password) w

  unfoldable pub grant_reader_access : Text → W → Result HistoryStoreError (Unit {0}) × W
  unfolding reader_access_statement
  grant_reader_access reader_role w = batch_execute (reader_access_statement reader_role) w

  unfoldable pub initialize_schema : HistoryStore → W → Result HistoryStoreError (Unit {0}) × W
  unfolding history_schema_sql ensure_reader_role grant_reader_access
  initialize_schema store w = and_then (grant_reader_access store.reader_role) (
      and_then (ensure_reader_role store.reader_role store.reader_password)
        (batch_execute history_schema_sql w))
