-- ===== src/History/Queries.antt =====
-- agent-runner/src/history/store.rs: the calls of the database, which may fail, the queries of one
-- conversation, and the methods that no longer do anything. A `failure` is what the thread, the
-- connection or the statement answers when one of them fails; no row is changed then.
use dog_bot.Common.{
  ℕ, zero, suc, Bool, true, false, not, ◌&&◌, Option, none, some, List, [], ◌∷◌, length, keep, map,
  is_empty, ltb, if◌then◌else◌, ◌^◌,
}
use dog_bot.Common.Int.{ℤ, pos, ltℤ}
use dog_bot.Common.Text.{Text, text_eq}
use dog_bot.Common.Text.Trim.{trim}
use dog_bot.Common.Result.{Result, ok, err}
use dog_bot.Json.{Value}
use dog_bot.Protocol.{CanonicalEvent, EventKind, message_event, reaction_added, reaction_removed}
use dog_bot.History.{
  HistoryReadGrant, HistoryReadGrantToken, MessageRow, HistoryTables, storage_plain_text,
  insert_canonical_event, create_read_grants, purge_expired,
}
use dog_bot.History.Roles.{HistoryStoreError}

abbrev pub run_with_client :
    {A : Type 0}
    → Option HistoryStoreError
    → (HistoryTables → Result HistoryStoreError A × HistoryTables)
    → HistoryTables
    → Result HistoryStoreError A × HistoryTables
run_with_client none f db = f db
run_with_client (some failure) f db = (err failure, db)

-- Whether an event has a text to store; without one, no client is started.
abbrev pub has_text : EventKind → Bool
has_text (message_event m) = not (is_empty (trim (storage_plain_text m)))
has_text (reaction_added target emoji) = false
has_text (reaction_removed target emoji) = false

unfoldable pub try_insert_canonical_event :
    Option HistoryStoreError
    → (Value → Text)
    → CanonicalEvent
    → HistoryTables
    → Result HistoryStoreError (Unit {0}) × HistoryTables
unfolding insert_canonical_event
try_insert_canonical_event failure print e db =
    if has_text e.kind
    then run_with_client failure (λ tables. (ok tt, insert_canonical_event print e tables)) db
    else (ok tt, db)

abbrev pub ingest_enabled : Text → Text → Result HistoryStoreError Bool
ingest_enabled platform_account conversation_id = ok true

abbrev pub upsert_ingest_state : Text → Text → Bool → ℤ → Result HistoryStoreError (Unit {0})
upsert_ingest_state platform_account conversation_id enabled retention_days = ok tt

-- The rows of one conversation.
abbrev pub is_of_chat : Text → Text → MessageRow → Bool
is_of_chat account conversation row =
    text_eq row.platform_account account && text_eq row.conversation_id conversation

abbrev pub message_count :
    Option HistoryStoreError
    → Text
    → Text
    → HistoryTables
    → Result HistoryStoreError ℕ × HistoryTables
message_count failure account conversation =
    run_with_client failure
      λ db. (ok (length (keep (is_of_chat account conversation) db.history_messages)), db)

-- `ORDER BY created_at DESC, id DESC`: the table has the rows by their ids, so that a row goes behind all rows of its time.
unfoldable pub insert_older : MessageRow → List MessageRow → List MessageRow
insert_older old [] = old ∷ []
insert_older old (row ∷ rows) =
    let rest = insert_older old rows in
    if ltℤ row.created_at old.created_at then old ∷ row ∷ rows else row ∷ rest

unfoldable pub newest_first : List MessageRow → List MessageRow
unfolding insert_older
newest_first [] = []
newest_first (row ∷ rows) = insert_older row (newest_first rows)

-- `LIMIT`.
unfoldable pub first_rows : ℕ → List MessageRow → List MessageRow
first_rows zero rows = []
first_rows (suc n) [] = []
first_rows (suc n) (row ∷ rows) = row ∷ first_rows n rows

abbrev pub columns : MessageRow → Text × Text × Bool
columns row = (row.message_id, row.plain_text, false)

-- From 2^63 on, `limit as i64` is negative, which the database refuses.
unfoldable pub recent_rows :
    Option HistoryStoreError
    → HistoryStoreError
    → Text
    → Text
    → ℕ
    → HistoryTables
    → Result HistoryStoreError (List (Text × Text × Bool)) × HistoryTables
unfolding newest_first first_rows
recent_rows failure refused account conversation limit = run_with_client failure λ db. (
  if ltb limit (2 ^ 63)
      then ok (
          map columns (
            first_rows limit
              (newest_first (keep (is_of_chat account conversation) db.history_messages))))
      else err refused,
  db,
)

-- `create_read_grants` of one grant.
abbrev pub create_read_grant :
    (Text → Text)
    → ℤ
    → Text
    → Text
    → HistoryReadGrant
    → HistoryTables
    → HistoryReadGrantToken × HistoryTables
create_read_grant digest now token url grant = create_read_grants digest now token url (grant ∷ [])

abbrev pub delete_expired_messages : ℤ → ℤ → HistoryTables → HistoryTables
delete_expired_messages now retention_days = purge_expired now retention_days

abbrev pub asset_count : Result HistoryStoreError ℤ
asset_count = ok (pos 0)

abbrev pub delete_orphaned_assets : Result HistoryStoreError (Unit {0})
delete_orphaned_assets = ok tt

-- `history::cleanup::purge_expired_history`, where the database answers.
abbrev pub purge_expired_history : ℤ → ℤ → HistoryTables → HistoryTables
purge_expired_history now retention_days db = delete_expired_messages now retention_days db
