-- ===== src/Sessions/Tests.antt =====
-- A conversation that gets its first session while another client wants one too.
use dog_bot.Common.{◌≡◌, refl, false, [], ◌∷◌, All, if◌then◌else◌}
use dog_bot.Common.Text.{Text, text, text_eq}
use dog_bot.Common.Int.{pos}
use dog_bot.Common.Result.{ok}
use dog_bot.HashMap.{get, insert, contains_key}
use dog_bot.SessionTables.{
  Tables, Database, SessionRecord, Conversation, conversation_session_key, build_session_record,
  new_row,
}
use dog_bot.Sessions.{get_or_create_conversation_session}
use dog_bot.Sessions.Identity.{KeepsSession}
use dog_bot.Sessions.Stable.{
  Delivers, get_or_create_conversation_session-Delivers, same_session_again,
}

abbrev group : Conversation
group = record { platform = text "qq"; platform_account = text "bot"; conversation_id = text "g" }

abbrev group_key : Text
group_key = conversation_session_key group

-- Another client puts the row there, if there is none: `INSERT ... ON CONFLICT DO NOTHING`.
abbrev racing : Tables → Tables
racing t = record t {
  runner_sessions =
      if contains_key group_key t.runner_sessions
      then t.runner_sessions
      else insert group_key (new_row (text "u0") group (pos 4)) t.runner_sessions;
}

racing_keeps : KeepsSession group_key racing
racing_keeps c id t (row, e, i, p, a, n) = (row, rw (e, e) refl, i, p, a, n)

-- It acts between the `SELECT` and the `INSERT`, and once more later.
abbrev raced : Database
raced = record {
  tables = record { runner_sessions = []; runner_session_aliases = [] };
  others = (λ t. t) ∷ racing ∷ (λ t. t) ∷ racing ∷ racing ∷ [];
}

raced_keeps : All (KeepsSession group_key) raced.others
raced_keeps =
    ((λ c id t h. h), (racing_keeps, ((λ c id t h. h), (racing_keeps, (racing_keeps, tt)))))

abbrev found_session : SessionRecord
found_session =
    build_session_record group_key group_key
      (record (new_row (text "u0") group (pos 4)) { last_used_at_epoch_secs = pos 5 }) false

get_or_create_conversation_session-Delivers_example :
    Delivers group_key group (get_or_create_conversation_session (pos 5) (text "u1") group raced)
get_or_create_conversation_session-Delivers_example =
    get_or_create_conversation_session-Delivers (pos 5) (text "u1") group raced raced_keeps

same_session_again_example :
    (s : SessionRecord) × ((get_or_create_conversation_session
        (pos 9)
        (text "u2")
        group
        (get_or_create_conversation_session (pos 5) (text "u1") group raced).1).0
      ≡ ok s)
    × (s.claude_session_id ≡ text "u0")
    × (s.is_new ≡ false)
    × (s.last_used_at_epoch_secs ≡ pos 9)
unfolding get_or_create_conversation_session get insert text_eq conversation_session_key
same_session_again_example =
    same_session_again (pos 5) (pos 9) (text "u1") (text "u2") group raced found_session raced_keeps
      refl
