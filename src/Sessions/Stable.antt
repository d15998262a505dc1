-- ===== src/Sessions/Stable.antt =====
-- What `get_or_create` returns and leaves in the table, and that it is the same at every call until a reset.
use dog_bot.Common.{false, All, ◌≡◌, refl, subst, arith}
use dog_bot.Common.Text.{Text}
use dog_bot.Common.Int.{ℤ}
use dog_bot.Common.Result.{Result, ok, err}
use dog_bot.SessionTables.{
  Database, SessionRecord, SessionStoreError, Conversation, conversation_session_key,
}
use dog_bot.Sessions.{get_or_create_conversation_session}
use dog_bot.Sessions.Rely.{EndsIn}
use dog_bot.Sessions.Identity.{Holds, IsOf, KeepsSession}
use dog_bot.Sessions.Found.{Again, get_or_create_by_key-Delivered, get_or_create_by_key-Again}

-- What a successful call returns is a record of the conversation, and the row of its key is that of
-- the conversation with the Claude session that was returned.
abbrev pub Delivers :
    Text → Conversation → Result SessionStoreError SessionRecord × Database → Type 0
Delivers key c (err e, db) = Unit
Delivers key c (ok r, db) = IsOf key c r × Holds key c r.claude_session_id db.tables

module _ (now : ℤ) (uuid : Text) (c : Conversation) (db : Database)
    (kept : All (KeepsSession (conversation_session_key c)) db.others) where
  pub delivered :
      EndsIn
        (KeepsSession (conversation_session_key c))
        (λ _. Unit {0})
        (λ r t.
          IsOf (conversation_session_key c) c r
          × Holds (conversation_session_key c) c r.claude_session_id t)
        (get_or_create_conversation_session now uuid c db)
  unfolding get_or_create_conversation_session
  delivered =
      (get_or_create_by_key-Delivered (KeepsSession (conversation_session_key c))
          (conversation_session_key c) (λ f k. k) c now uuid (conversation_session_key c)).after
        db kept tt

-- While other clients act before every statement, but neither remove the row of the conversation nor give it another conversation or another Claude session, a session that `get_or_create_conversation_session` returns is one of the conversation asked for, and its row is in the table: a key that two conversations share is refused to the second. Others may put the row there first.
pub get_or_create_conversation_session-Delivers :
    (now : ℤ) (uuid : Text) (c : Conversation) (db : Database)
    → All (KeepsSession (conversation_session_key c)) db.others
    → Delivers (conversation_session_key c) c (get_or_create_conversation_session now uuid c db)
get_or_create_conversation_session-Delivers now uuid c db kept =
    go (get_or_create_conversation_session now uuid c db) (delivered now uuid c db kept)
  where
    go :
        (r : Result SessionStoreError SessionRecord × Database)
        → EndsIn
            (KeepsSession (conversation_session_key c))
            (λ _. Unit {0})
            (λ r t.
              IsOf (conversation_session_key c) c r
              × Holds (conversation_session_key c) c r.claude_session_id t)
            r
        → Delivers (conversation_session_key c) c r
    go (ok r, db') o = o.0
    go (err e, db') o = tt

-- Once a session was returned for a conversation, the next call of `get_or_create_conversation_session` returns the same Claude session, not as a new one, with the time of that call, also while other clients act before every statement of both calls, but neither remove the row of the conversation nor give it another conversation or another Claude session.
pub same_session_again :
    (now now' : ℤ) (uuid uuid' : Text) (c : Conversation) (db : Database) (r : SessionRecord)
    → All (KeepsSession (conversation_session_key c)) db.others
    → (get_or_create_conversation_session now uuid c db).0 ≡ ok r
    → (s : SessionRecord) × ((get_or_create_conversation_session now' uuid' c
          (get_or_create_conversation_session now uuid c db).1).0
        ≡ ok s)
      × (s.claude_session_id ≡ r.claude_session_id)
      × (s.is_new ≡ false)
      × (s.last_used_at_epoch_secs ≡ now')
unfolding get_or_create_conversation_session
same_session_again now now' uuid uuid' c db r kept h =
    first (get_or_create_conversation_session now uuid c db) (delivered now uuid c db kept) h
  where
    second :
        (o : Result SessionStoreError SessionRecord × Database)
        → EndsIn
            (KeepsSession (conversation_session_key c))
            (λ _. ⊥)
            (Again
              (KeepsSession (conversation_session_key c))
              (conversation_session_key c)
              (λ f k. k)
              c
              now'
              r.claude_session_id)
            o
        → (s : SessionRecord) × (o.0 ≡ ok s)
          × (s.claude_session_id ≡ r.claude_session_id)
          × (s.is_new ≡ false)
          × (s.last_used_at_epoch_secs ≡ now')
    second (ok s, db') ((i, held, id, new, time), os) = (s, refl, id, new, time)
    second (err e, db') (x, os) = absurd x

    first :
        (o : Result SessionStoreError SessionRecord × Database)
        → EndsIn
            (KeepsSession (conversation_session_key c))
            (λ _. Unit {0})
            (λ r t.
              IsOf (conversation_session_key c) c r
              × Holds (conversation_session_key c) c r.claude_session_id t)
            o
        → o.0 ≡ ok r
        → (s : SessionRecord) × ((get_or_create_conversation_session now' uuid' c o.1).0 ≡ ok s)
          × (s.claude_session_id ≡ r.claude_session_id)
          × (s.is_new ≡ false)
          × (s.last_used_at_epoch_secs ≡ now')
    first (err e, db') o e' = cc
    first (ok q, db') ((i, held), os) e' =
        let same : q ≡ r = ground (arith, e') in
        second (get_or_create_conversation_session now' uuid' c db') (
          (get_or_create_by_key-Again (KeepsSession (conversation_session_key c))
              (conversation_session_key c) (λ f k. k) c r.claude_session_id now' uuid'
              (conversation_session_key c)).after
            db' os
            (subst
              (λ (p : SessionRecord).
                Holds (conversation_session_key c) c p.claude_session_id db'.tables)
              same held))
