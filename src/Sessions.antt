-- ===== src/Sessions.antt =====
-- agent-runner/src/session_store.rs: each method as an action on the tables; the clock and the UUID
-- are arguments.
pub mod Identity
pub mod Rely
pub mod Found
pub mod Stable
pub mod Bind
mod Tests
use dog_bot.Common.{Bool, true, false, Option, none, some, [], if◌then◌else◌}
use dog_bot.Common.Text.{Text, text_eq}
use dog_bot.Common.Int.{ℤ}
use dog_bot.Common.Result.{ok}
use dog_bot.SessionTables.{
  Action, Conversation, SessionRecord, SessionStoreError, statement, build_session_record,
  conversation_session_key, ensure_session_identity, fail, fetch_session, insert_session,
  lookup_session_alias, new_row, pure, session_conflict, touch, update_row, upsert_session_alias,
  worker_panicked, ◌>>=◌, ◌>>◌,
}

-- The branch for a session that exists: checked, touched and returned.
abbrev pub use_existing : Text → Conversation → ℤ → SessionRecord → Action SessionRecord
use_existing key c now r = do
  ensure_session_identity r c
  touch key now
  pure (record r { last_used_at_epoch_secs = now })

-- `expect` on a missing row ends the worker thread.
abbrev pub expect_existing : Text → Conversation → ℤ → Option SessionRecord → Action SessionRecord
expect_existing key c now none = fail worker_panicked
expect_existing key c now (some r) = use_existing key c now r

abbrev pub after_insert : Text → Conversation → ℤ → Text → Text → Bool → Action SessionRecord
after_insert key c now uuid external true =
    pure (build_session_record key external (new_row uuid c now) true)
after_insert key c now uuid external false = do
  found ← fetch_session key external
  expect_existing key c now found

abbrev pub create_session : Text → Conversation → ℤ → Text → Text → Action SessionRecord
create_session key c now uuid external =
    insert_session key (new_row uuid c now) >>= after_insert key c now uuid external

abbrev pub get_or_create_found :
    Text → Conversation → ℤ → Text → Text → Option SessionRecord → Action SessionRecord
get_or_create_found key c now uuid external (some r) = use_existing key c now r
get_or_create_found key c now uuid external none = create_session key c now uuid external

unfoldable pub get_or_create_by_key : Text → Conversation → ℤ → Text → Text → Action SessionRecord
unfolding fetch_session ensure_session_identity touch insert_session
get_or_create_by_key key c now uuid external =
    fetch_session key external >>= get_or_create_found key c now uuid external

unfoldable pub get_or_create_conversation_session : ℤ → Text → Conversation → Action SessionRecord
unfolding get_or_create_by_key
get_or_create_conversation_session now uuid c =
    let key = conversation_session_key c in get_or_create_by_key key c now uuid key

-- The error for a session that should exist and does not.
abbrev pub missing_session : Text → Conversation → SessionStoreError
missing_session external c = session_conflict external c.platform c.conversation_id []

-- The `UPDATE` that gives the session a new Claude session.
unfoldable pub rotate : Text → Text → ℤ → Action (Unit {0})
rotate key uuid now = statement λ db. (
  ok tt,
  record db {
    runner_sessions =
        update_row key
          (λ row. record row {
            claude_session_id = uuid;
            created_at_epoch_secs = now;
            last_used_at_epoch_secs = now;
          })
          db.runner_sessions;
  },
)

abbrev pub reset_found :
    Text → Conversation → ℤ → Text → Text → Option SessionRecord → Action SessionRecord
reset_found key c now uuid external none = fail (missing_session external c)
reset_found key c now uuid external (some existing) = do
  ensure_session_identity existing c
  rotate key uuid now
  pure (build_session_record key external (new_row uuid c now) true)

unfoldable pub reset_by_key : Text → Conversation → ℤ → Text → Text → Action SessionRecord
unfolding fetch_session ensure_session_identity rotate
reset_by_key key c now uuid external =
    fetch_session key external >>= reset_found key c now uuid external

unfoldable pub reset_conversation_session : ℤ → Text → Conversation → Action SessionRecord
unfolding reset_by_key
reset_conversation_session now uuid c =
    let key = conversation_session_key c in reset_by_key key c now uuid key

-- The session that an alias of another conversation names.
abbrev pub refuse_other : Text → Conversation → Option SessionRecord → Action (Unit {0})
refuse_other external c none = fail (missing_session external c)
refuse_other external c (some e) =
    fail (session_conflict external e.platform e.conversation_id e.user_id)

abbrev pub check_alias : Text → Conversation → Option Text → Action (Unit {0})
check_alias external c none = pure tt
check_alias external c (some key) =
    if text_eq key (conversation_session_key c)
    then pure tt
    else fetch_session key external >>= refuse_other external c

unfoldable pub validate_external_session_binding : Text → Conversation → Action (Unit {0})
unfolding lookup_session_alias fetch_session
validate_external_session_binding external c =
    lookup_session_alias external >>= check_alias external c

unfoldable pub get_or_create_bound_session : ℤ → Text → Text → Conversation → Action SessionRecord
unfolding validate_external_session_binding get_or_create_by_key upsert_session_alias
get_or_create_bound_session now uuid external c = do
  validate_external_session_binding external c
  r ← get_or_create_by_key (conversation_session_key c) c now uuid external
  upsert_session_alias external (conversation_session_key c)
  pure r

abbrev pub bind_found : Text → Conversation → Option SessionRecord → Action (Unit {0})
bind_found external c none = fail (missing_session external c)
bind_found external c (some r) = do
  ensure_session_identity r c
  upsert_session_alias external (conversation_session_key c)

unfoldable pub bind_external_session_id : Text → Conversation → Action (Unit {0})
unfolding validate_external_session_binding fetch_session ensure_session_identity
    upsert_session_alias
bind_external_session_id external c = do
  validate_external_session_binding external c
  found ← fetch_session (conversation_session_key c) external
  bind_found external c found

abbrev pub get_by_alias : Text → Option Text → Action (Option SessionRecord)
get_by_alias external (some key) = fetch_session key external
get_by_alias external none = fetch_session external external

unfoldable pub get_session : Text → Action (Option SessionRecord)
unfolding lookup_session_alias fetch_session
get_session external = lookup_session_alias external >>= get_by_alias external

unfoldable pub reset_bound_session : ℤ → Text → Text → Conversation → Action SessionRecord
unfolding reset_by_key upsert_session_alias
reset_bound_session now uuid external c = do
  r ← reset_by_key (conversation_session_key c) c now uuid external
  upsert_session_alias external (conversation_session_key c)
  pure r
