-- ===== src/Exec/Load.antt =====
-- What a run gets from `load_runtime_session`, while other clients act before every statement.
use dog_bot.Common.{All, is_empty}
use dog_bot.Common.Text.{Text}
use dog_bot.Common.Text.Trim.{trim}
use dog_bot.Common.Int.{ℤ}
use dog_bot.Common.Result.{Result, ok, err}
use dog_bot.SessionTables.{
  Tables, Database, SessionRecord, SessionStoreError, pure, ◌>>=◌, conversation_session_key,
}
use dog_bot.Sessions.{
  validate_external_session_binding, get_or_create_conversation_session, bind_external_session_id,
}
use dog_bot.Sessions.Rely.{EndsIn, Ensures, pure-Ensures, bind-Ensures, weaken, if-Ensures, assume}
use dog_bot.Sessions.Identity.{Holds, IsOf, KeepsSession}
use dog_bot.Sessions.Found.{get_or_create_by_key-Delivered}
use dog_bot.Sessions.Bind.{validate_external_session_binding-Ensures}
use dog_bot.Sessions.Stable.{Delivers}
use dog_bot.Models.{RunRequest}
use dog_bot.Exec.{conversation_of, when_external, load_runtime_session}
use dog_bot.Exec.Sessions.{IsBound, IsBound-Ensures}

abbrev pub Loads : RunRequest → Result SessionStoreError SessionRecord × Database → Type 0
Loads request (err e, db') = Unit
Loads request (ok r, db') =
    Delivers (conversation_session_key (conversation_of request)) (conversation_of request)
      (ok r, db')
    × IsBound request db'.tables

module _ (now : ℤ) (uuid : Text) (request : RunRequest) where
  abbrev Loaded : SessionRecord → Tables → Type 0
  Loaded r t =
      (IsOf (conversation_session_key (conversation_of request)) (conversation_of request) r
        × Holds (conversation_session_key (conversation_of request)) (conversation_of request)
            r.claude_session_id t)
      × IsBound request t

  abbrev Others : (Tables → Tables) → Type 0
  Others = KeepsSession (conversation_session_key (conversation_of request))

  bound_session :
      (session : SessionRecord)
      → Ensures Others
          (λ t.
            IsOf
              (conversation_session_key (conversation_of request))
              (conversation_of request)
              session
            × Holds
                (conversation_session_key (conversation_of request))
                (conversation_of request)
                session.claude_session_id
                t)
          (λ _. Unit {0})
          (when_external request
              (bind_external_session_id request.session_id (conversation_of request))
            >>= λ _. pure session)
          Loaded
  bound_session session =
      assume Others
        (IsOf (conversation_session_key (conversation_of request)) (conversation_of request)
          session)
        (when_external request
            (bind_external_session_id request.session_id (conversation_of request))
          >>= λ _. pure session)
        (λ t p. p.0)
        (λ i.
          weaken Others (λ t p. (p.1, tt)) (λ t e. e) (λ r t q. q)
            (bind-Ensures Others
              {m = when_external request
                (bind_external_session_id request.session_id (conversation_of request))}
              {f = λ _. pure session}
              (IsBound-Ensures request Others (λ f k. k) (λ _. Unit {0}) (λ _. Unit {0})
                (λ f r t u. tt) (λ f r t u. tt) (λ g t u n. tt) session.claude_session_id)
              (λ _. pure-Ensures Others session (λ t (b, h). ((i, h), b)))))

  checked :
      Ensures Others
        (λ _. Unit {0})
        (λ _. Unit {0})
        (when_external request
          (validate_external_session_binding request.session_id (conversation_of request)))
        (λ _ _. Unit {0})
  checked =
      if-Ensures Others {m = pure tt}
        {m' = validate_external_session_binding request.session_id (conversation_of request)}
        (is_empty (trim request.session_id)) (λ blank. pure-Ensures Others tt (λ t u. tt))
        (λ given.
          weaken Others (λ t u. u) (λ t e. e) (λ u t q. tt)
            (validate_external_session_binding-Ensures Others request.session_id
              (conversation_of request) (λ _. Unit {0}) (λ _. Unit {0}) (λ f r t u. tt)
              (λ f r t u. tt) (λ t u n. tt)))

  load_runtime_session-Ensures :
      Ensures Others (λ _. Unit {0}) (λ _. Unit {0}) (load_runtime_session now uuid request) Loaded
  unfolding load_runtime_session get_or_create_conversation_session
  load_runtime_session-Ensures =
      bind-Ensures Others
        {m = when_external request
          (validate_external_session_binding request.session_id (conversation_of request))}
        {f = λ _.
          get_or_create_conversation_session now uuid (conversation_of request) >>= λ session.
          when_external request
            (bind_external_session_id request.session_id (conversation_of request))
          >>= λ _. pure session}
        checked
        (λ _.
          bind-Ensures Others
            {m = get_or_create_conversation_session now uuid (conversation_of request)}
            {f = λ session.
              when_external request
                (bind_external_session_id request.session_id (conversation_of request))
              >>= λ _. pure session}
            (get_or_create_by_key-Delivered Others
              (conversation_session_key (conversation_of request)) (λ f k. k)
              (conversation_of request) now uuid
              (conversation_session_key (conversation_of request)))
            bound_session)

-- While other clients act before every statement, but neither remove the row of the conversation nor give it another conversation or another Claude session, a session that `load_runtime_session` returns is one of the request's conversation, with its row in the table, and an external id of the request is bound to that conversation. What others do to the external ids does not matter.
pub load_runtime_session-Loads :
    (now : ℤ) (uuid : Text) (request : RunRequest) (db : Database)
    → All (KeepsSession (conversation_session_key (conversation_of request))) db.others
    → Loads request (load_runtime_session now uuid request db)
load_runtime_session-Loads now uuid request db kept =
    go (load_runtime_session now uuid request db)
      ((load_runtime_session-Ensures now uuid request).after db kept tt)
  where
    go :
        (r : Result SessionStoreError SessionRecord × Database)
        → EndsIn
            (KeepsSession (conversation_session_key (conversation_of request)))
            (λ _. Unit {0})
            (Loaded now uuid request)
            r
        → Loads request r
    go (ok r, db') o = o.0
    go (err e, db') o = tt
