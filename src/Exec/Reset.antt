-- ===== src/Exec/Reset.antt =====
-- What `reset_runtime_session` does to the session of a run, while other clients act before every statement.
use dog_bot.Common.{true, List, [], ◌∷◌, ◌≡◌, ◌⊎◌}
use dog_bot.Common.Text.{Text}
use dog_bot.Common.Int.{ℤ}
use dog_bot.Common.Result.{Result, ok, err}
use dog_bot.SessionTables.{
  Tables, Database, SessionRecord, SessionStoreError, conversation_session_key,
}
use dog_bot.Sessions.Rely.{ByOthers}
use dog_bot.Sessions.Identity.{Holds, IsOf, KeepsSession}
use dog_bot.Sessions.Bind.{IsFree, KeepsFree}
use dog_bot.Models.{RunRequest}
use dog_bot.Exec.{conversation_of}
use dog_bot.Exec.Sessions.{HasExternal, IsBound}

-- One of the list.
abbrev pub IsAmong : List (Tables → Tables) → (Tables → Tables) → Type 0
IsAmong [] f = ⊥
IsAmong (g ∷ gs) f = (f ≡ g) ⊎ IsAmong gs f

-- What other clients do leaves the conversation its row and its Claude session, and gives the id of the request to no other conversation.
abbrev pub Respects : RunRequest → (Tables → Tables) → Type 0
Respects request f =
    KeepsSession (conversation_session_key (conversation_of request)) f
    × KeepsFree request.session_id (conversation_of request) f

-- Either the tables are as the other clients alone have made them, or a new session has taken the place of the old one.
abbrev pub Renews :
    ℤ → Text → RunRequest → Database → Result SessionStoreError SessionRecord × Database → Type 0
Renews now uuid request db (err e, db') = ByOthers (IsAmong db.others) db.tables db'.tables
Renews now uuid request db (ok r, db') =
    (r.is_new ≡ true)
    × (r.claude_session_id ≡ uuid)
    × IsOf (conversation_session_key (conversation_of request)) (conversation_of request) r
    × Holds (conversation_session_key (conversation_of request)) (conversation_of request) uuid
        db'.tables
    × IsBound request db'.tables

module _ (now : ℤ) (uuid : Text) (request : RunRequest) (others : List (Tables → Tables))
    (before : Tables) where
  abbrev Others : (Tables → Tables) → Type 0
  Others f = Respects request f × IsAmong others f

  -- The id of the request, if it has one, is bound to no other conversation.
  abbrev Allowed : Tables → Type 0
  Allowed t = HasExternal request → IsFree request.session_id (conversation_of request) t

  abbrev Unwritten : Tables → Type 0
  Unwritten = ByOthers (IsAmong others) before

  abbrev Renewal : SessionRecord → Tables → Type 0
  Renewal r t =
      ((r.is_new ≡ true)
        × (r.claude_session_id ≡ uuid)
        × IsOf (conversation_session_key (conversation_of request)) (conversation_of request) r)
      × (Holds (conversation_session_key (conversation_of request)) (conversation_of request) uuid t
          × IsBound request t)
