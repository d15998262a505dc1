-- ===== src/Exec/Sessions.antt =====
-- The session of a run that is reset, while other clients act before every statement.
use dog_bot.Common.{true, false, Option, none, some, is_empty, ◌≡◌, refl, arith}
use dog_bot.Common.Text.{Text}
use dog_bot.Common.Text.Trim.{trim}
use dog_bot.Common.Int.{ℤ}
use dog_bot.Common.Result.{ok}
use dog_bot.HashMap.{get}
use dog_bot.SessionTables.{
  SessionRow, Tables, SessionRecord, pure, ◌>>=◌, Conversation, conversation_session_key,
  build_session_record, fetch_session, ensure_session_identity, new_row, update_row,
}
use dog_bot.Sessions.{missing_session, rotate, reset_found, reset_by_key, bind_external_session_id}
use dog_bot.Sessions.Rely.{
  Stable, Ensures, pure-Ensures, fail-Ensures, bind-Ensures, weaken, statement-Ensures, if-Ensures,
  assume,
}
use dog_bot.Sessions.Identity.{
  Holds, IsOf, KeepsSession, SameConversation, Seen, renamed, get-update_row, fetch_session-Ensures,
  ensure_session_identity-Ensures, Holds-Stable,
}
use dog_bot.Sessions.Bind.{IsFree, bind_external_session_id-Ensures}
use dog_bot.Models.{RunRequest}
use dog_bot.Exec.{conversation_of, when_external}

-- The request has an id of its own.
abbrev pub HasExternal : RunRequest → Type 0
HasExternal request = is_empty (trim request.session_id) ≡ false

-- The id of the request, if it has one, is bound to the conversation.
abbrev pub IsBound : RunRequest → Tables → Type 0
IsBound request db =
    HasExternal request
    → get request.session_id db.runner_session_aliases
      ≡ some (conversation_session_key (conversation_of request))

module _ (R : (Tables → Tables) → Type 0) (key : Text)
    (keeps : (f : Tables → Tables) → R f → KeepsSession key f) (P E F : Tables → Type 0)
    (stable : Stable R P) (steady : Stable R F) (fails : (t : Tables) → P t → E t)
    (frame : (t : Tables) → P t → F t)
    (unread : (t : Tables) (change : SessionRow → SessionRow)
      → F t
      → F (record t { runner_sessions = update_row key change t.runner_sessions }))
    (c : Conversation) (now : ℤ) (uuid : Text) where
  rotate-Ensures :
      (id : Text)
      → Ensures R
          (λ t. Holds key c id t × F t)
          E
          (rotate key uuid now)
          (λ _ t. Holds key c uuid t × F t)
  unfolding rotate
  rotate-Ensures id =
      statement-Ensures R
        (λ db. (ok tt, record db { runner_sessions = update_row key rotated db.runner_sessions }))
        (λ f r t (h, x). (Holds-Stable R key keeps c id f r t h, steady f r t x))
        λ t ((row, e, i, p, a, n), x). (
          (rotated row, get-update_row key rotated row t.runner_sessions e, refl, p, a, n),
          unread t rotated x,
        )
    where
      rotated : SessionRow → SessionRow
      rotated row = record row {
        claude_session_id = uuid;
        created_at_epoch_secs = now;
        last_used_at_epoch_secs = now;
      }

  -- A new session, with its row.
  abbrev pub Renewed : SessionRecord → Tables → Type 0
  Renewed r t =
      ((r.is_new ≡ true) × (r.claude_session_id ≡ uuid) × IsOf key c r) × (Holds key c uuid t × F t)

  reset_found-Ensures :
      (external : Text) (o : Option SessionRecord)
      → Ensures R (λ t. Seen key o t × P t) E (reset_found key c now uuid external o) Renewed
  reset_found-Ensures external none =
      fail-Ensures R (missing_session external c) (λ t (n, p). fails t p)
  reset_found-Ensures external (some r) =
      bind-Ensures R {m = ensure_session_identity r c}
        {f = λ _. rotate key uuid now >>= λ _.
          pure (build_session_record key external (new_row uuid c now) true)}
        (ensure_session_identity-Ensures R r c (λ t q n. fails t q.1))
        (λ _.
          assume R (SameConversation r c)
            (rotate key uuid now >>= λ _.
              pure (build_session_record key external (new_row uuid c now) true))
            (λ t q. q.0)
            (λ same.
              weaken R
                (λ t (i, (s, p)). (renamed key r c r.claude_session_id t same s.2, frame t p))
                (λ t e. e) (λ s t q. q)
                (bind-Ensures R {m = rotate key uuid now}
                  {f = λ _. pure (build_session_record key external (new_row uuid c now) true)}
                  (rotate-Ensures r.claude_session_id)
                  (λ _.
                    pure-Ensures R (build_session_record key external (new_row uuid c now) true)
                      (λ t h. ((refl, refl, (refl, refl, refl, refl)), h))))))

  -- A reset finds the row of the conversation and renews it, or fails before it has written.
  pub reset_by_key-Ensures :
      (external : Text) → Ensures R P E (reset_by_key key c now uuid external) Renewed
  unfolding reset_by_key
  reset_by_key-Ensures external =
      bind-Ensures R {m = fetch_session key external} {f = reset_found key c now uuid external}
        (fetch_session-Ensures R key external stable) (reset_found-Ensures external)

module _ (request : RunRequest) (R : (Tables → Tables) → Type 0)
    (keeps : (f : Tables → Tables)
      → R f
      → KeepsSession (conversation_session_key (conversation_of request)) f)
    (F E : Tables → Type 0) (steady : Stable R F) (steady_error : Stable R E)
    (taken : HasExternal request
      → (t : Tables) → F t
      → ¬ IsFree request.session_id (conversation_of request) t
      → E t)
    (id : Text) where
  -- The last step of a run's session: the id of the request is bound, or there is none.
  pub IsBound-Ensures :
      Ensures R
        (λ t.
          Holds (conversation_session_key (conversation_of request)) (conversation_of request) id t
          × F t)
        E
        (when_external request
          (bind_external_session_id request.session_id (conversation_of request)))
        (λ _ t.
          IsBound request t
          × Holds
              (conversation_session_key (conversation_of request))
              (conversation_of request)
              id
              t)
  IsBound-Ensures =
      if-Ensures R {m = pure tt}
        {m' = bind_external_session_id request.session_id (conversation_of request)}
        (is_empty (trim request.session_id))
        (λ blank. pure-Ensures R tt (λ t (h, x). ((λ given. ground (arith, given, blank)), h)))
        (λ given.
          weaken R (λ t p. p) (λ t e. e) (λ u t (b, h). ((λ g. b), h))
            (bind_external_session_id-Ensures R request.session_id (conversation_of request)
              (λ t.
                Holds (conversation_session_key (conversation_of request)) (conversation_of request)
                  id t
                × F t)
              E
              (λ f r t (h, x). (
                Holds-Stable R (conversation_session_key (conversation_of request)) keeps
                    (conversation_of request) id f r t h,
                steady f r t x,
              ))
              steady_error (λ t p n. taken given t p.1 n) keeps id (λ t p. p.0)))
