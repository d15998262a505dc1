-- ===== src/Sessions/Found.antt =====
-- What `get_or_create` returns and leaves in the table while other clients act before every statement.
use dog_bot.Common.{
  Bool, true, false, if◌then◌else◌, Option, none, some, is_some, ◌≡◌, refl, ◌∙◌, arith,
}
use dog_bot.Common.Text.{Text}
use dog_bot.Common.Int.{ℤ}
use dog_bot.Common.Result.{ok}
use dog_bot.HashMap.{get, insert, contains_key}
use dog_bot.HashMap.Laws.{get-insert_self}
use dog_bot.SessionTables.{
  SessionRow, Tables, SessionRecord, Conversation, build_session_record, fetch_session, touch,
  insert_session, new_row, update_row, worker_panicked,
}
use dog_bot.Sessions.{
  use_existing, expect_existing, after_insert, get_or_create_found, get_or_create_by_key,
}
use dog_bot.Sessions.Rely.{
  Post, Ensures, pure-Ensures, fail-Ensures, bind-Ensures, weaken, statement-Ensures, assume,
}
use dog_bot.Sessions.Identity.{
  Holds, IsOf, KeepsSession, SameConversation, Seen, seen_same, renamed, get-update_row,
  fetch_session-Ensures, ensure_session_identity-Ensures, Holds-Stable,
}

module _ (R : (Tables → Tables) → Type 0) (key : Text)
    (keeps : (f : Tables → Tables) → R f → KeepsSession key f) where
  touch-Ensures :
      (c : Conversation) (id : Text) (now : ℤ) {E : Tables → Type 0}
      → Ensures R (Holds key c id) E (touch key now) (λ _. Holds key c id)
  unfolding touch
  touch-Ensures c id now =
      statement-Ensures R
        (λ db. (
          ok tt,
          record db {
            runner_sessions =
                update_row key (λ row. record row { last_used_at_epoch_secs = now })
                  db.runner_sessions;
          },
        ))
        (Holds-Stable R key keeps c id)
        λ t (row, e, i, p, a, n). (
          record row { last_used_at_epoch_secs = now },
          get-update_row key (λ row. record row { last_used_at_epoch_secs = now }) row
              t.runner_sessions e,
          i,
          p,
          a,
          n,
        )

  -- The session that was found, with the time of the call.
  abbrev pub Again : Conversation → ℤ → Text → SessionRecord → Tables → Type 0
  Again c now id s t =
      IsOf key c s
      × Holds key c s.claude_session_id t
      × (s.claude_session_id ≡ id)
      × (s.is_new ≡ false)
      × (s.last_used_at_epoch_secs ≡ now)

  use_existing-Ensures :
      (r : SessionRecord) (c : Conversation) (now : ℤ) {E : Tables → Type 0}
      → ((t : Tables) → Seen key (some r) t → ¬ SameConversation r c → E t)
      → Ensures R (Seen key (some r)) E (use_existing key c now r) (Again c now r.claude_session_id)
  use_existing-Ensures r c now {E} differs =
      bind-Ensures R (ensure_session_identity-Ensures R r c differs) λ _.
        assume R (SameConversation r c × (r.session_key ≡ key) × (r.is_new ≡ false)) _
          (λ t (same, (k, new, h)). (same, k, new))
          λ (same, k, new).
            weaken R (λ t (_, (_, _, h)). renamed key r c r.claude_session_id t same h) (λ t e. e)
              (λ s t q. q)
              (bind-Ensures R (touch-Ensures c r.claude_session_id now)
                λ _. pure-Ensures R _ (λ t h. ((k, same.0, same.1, same.2), h, refl, new, refl)))

  abbrev pub Delivered : Conversation → SessionRecord → Tables → Type 0
  Delivered c s t = IsOf key c s × Holds key c s.claude_session_id t

  insert_session-Ensures :
      (c : Conversation) (now : ℤ) (uuid : Text)
      → Ensures R
          (λ _. Unit {0})
          (λ _. Unit {0})
          (insert_session key (new_row uuid c now))
          (λ b t. b ≡ true → Holds key c uuid t)
  unfolding insert_session
  insert_session-Ensures c now uuid =
      statement-Ensures R
        (λ db. if contains_key key db.runner_sessions then (ok false, db) else (
          ok true,
          record db { runner_sessions = insert key (new_row uuid c now) db.runner_sessions },
        ))
        (λ f r t u. tt) (λ t u. inserted t (get key t.runner_sessions))
    where
      inserted :
          (t : Tables) (o : Option SessionRow)
          → Post R
              (λ _. Unit {0})
              (λ b t. b ≡ true → Holds key c uuid t)
              (if is_some o then (ok false, t) else (
                ok true,
                record t { runner_sessions = insert key (new_row uuid c now) t.runner_sessions },
              ))
      inserted t (some row) = λ h. absurd (ground (arith, h))
      inserted t none = λ h. (
        new_row uuid c now,
        get-insert_self key (new_row uuid c now) t.runner_sessions,
        refl,
        refl,
        refl,
        refl,
      )

  existing-Delivered :
      (r : SessionRecord) (c : Conversation) (now : ℤ)
      → Ensures R (Seen key (some r)) (λ _. Unit {0}) (use_existing key c now r) (Delivered c)
  existing-Delivered r c now =
      weaken R (λ t p. p) (λ t e. e) (λ s t (i, h, same, new, time). (i, h))
        (use_existing-Ensures r c now {E = λ _. Unit {0}} (λ t p n. tt))

  expect_existing-Delivered :
      (c : Conversation) (now : ℤ) (o : Option SessionRecord)
      → Ensures R (Seen key o) (λ _. Unit {0}) (expect_existing key c now o) (Delivered c)
  expect_existing-Delivered c now none = fail-Ensures R worker_panicked (λ t p. tt)
  expect_existing-Delivered c now (some r) = existing-Delivered r c now

  after_insert-Delivered :
      (c : Conversation) (now : ℤ) (uuid external : Text) (b : Bool)
      → Ensures R
          (λ t. b ≡ true → Holds key c uuid t)
          (λ _. Unit {0})
          (after_insert key c now uuid external b)
          (Delivered c)
  after_insert-Delivered c now uuid external true =
      pure-Ensures R (build_session_record key external (new_row uuid c now) true)
        (λ t h. ((refl, refl, refl, refl), h refl))
  after_insert-Delivered c now uuid external false =
      bind-Ensures R {m = fetch_session key external} {f = expect_existing key c now}
        (weaken R {P = λ _. Unit {0}} (λ t h. tt) (λ t e. e) (λ o t q. q.0)
          (fetch_session-Ensures R key external {E = λ _. Unit {0}} (λ f r t u. tt)))
        (λ o. expect_existing-Delivered c now o)

  get_or_create_found-Delivered :
      (c : Conversation) (now : ℤ) (uuid external : Text) (o : Option SessionRecord)
      → Ensures R
          (Seen key o)
          (λ _. Unit {0})
          (get_or_create_found key c now uuid external o)
          (Delivered c)
  get_or_create_found-Delivered c now uuid external (some r) = existing-Delivered r c now
  get_or_create_found-Delivered c now uuid external none =
      bind-Ensures R {m = insert_session key (new_row uuid c now)}
        {f = after_insert key c now uuid external}
        (weaken R {P = λ _. Unit {0}} (λ t h. tt) (λ t e. e) (λ b t q. q)
          (insert_session-Ensures c now uuid))
        (λ b. after_insert-Delivered c now uuid external b)

  -- A session that is returned is one of the conversation asked for, and its row is in the table.
  pub get_or_create_by_key-Delivered :
      (c : Conversation) (now : ℤ) (uuid external : Text)
      → Ensures R
          (λ _. Unit {0})
          (λ _. Unit {0})
          (get_or_create_by_key key c now uuid external)
          (Delivered c)
  unfolding get_or_create_by_key
  get_or_create_by_key-Delivered c now uuid external =
      bind-Ensures R {m = fetch_session key external}
        {f = get_or_create_found key c now uuid external}
        (weaken R (λ t h. h) (λ t e. e) (λ o t q. q.0)
          (fetch_session-Ensures R key external {P = λ _. Unit {0}} {E = λ _. Unit {0}}
            (λ f r t u. tt)))
        (λ o. get_or_create_found-Delivered c now uuid external o)

  get_or_create_found-Again :
      (c : Conversation) (id : Text) (now : ℤ) (uuid external : Text) (o : Option SessionRecord)
      → Ensures R
          (λ t. Seen key o t × Holds key c id t)
          (λ _. ⊥)
          (get_or_create_found key c now uuid external o)
          (Again c now id)
  get_or_create_found-Again c id now uuid external none =
      assume R ⊥ _ (λ t (n, h). ground (arith, n, h)) (λ x. absurd x)
  get_or_create_found-Again c id now uuid external (some r) =
      assume R ((r.claude_session_id ≡ id) × SameConversation r c) (use_existing key c now r)
        (λ t (s, h). seen_same key r c id t s.2 h)
        λ (same_id, same).
          weaken R (λ t p. p.0) (λ t e. e)
            (λ s t (i, h, j, new, time). (i, h, j ∙ same_id, new, time))
            (use_existing-Ensures r c now {E = λ _. ⊥} (λ t p n. absurd (n same)))

  -- With a row of the conversation the call succeeds, with the Claude session of the row.
  pub get_or_create_by_key-Again :
      (c : Conversation) (id : Text) (now : ℤ) (uuid external : Text)
      → Ensures R
          (Holds key c id)
          (λ _. ⊥)
          (get_or_create_by_key key c now uuid external)
          (Again c now id)
  unfolding get_or_create_by_key
  get_or_create_by_key-Again c id now uuid external =
      bind-Ensures R {m = fetch_session key external}
        {f = get_or_create_found key c now uuid external}
        (fetch_session-Ensures R key external (Holds-Stable R key keeps c id))
        (λ o. get_or_create_found-Again c id now uuid external o)
