-- ===== src/Server/Tests.antt =====
-- An identifier, a long output, and calls that come too soon.
use dog_bot.Common.{◌≡◌, none, refl, List, [], ◌∷◌}
use dog_bot.Common.Text.{Text, text, text_eq}
use dog_bot.Common.Int.{pos}
use dog_bot.Common.Result.{ok, err}
use dog_bot.Json.{Value}
use dog_bot.Models.{RunRequest, error_with}
use dog_bot.History.Roles.{HistoryStore}
use dog_bot.Server.Endpoints.{Clocks, Housekeeping, Runner, run}
use dog_bot.Server.Direct.{RunsChecked, run-RunsChecked}

abbrev request : RunRequest
request = record {
  platform = text "qq";
  platform_account_id = text " bot ";
  conversation_id = text "qq:group:1";
  session_id = [];
  user_id = text "user";
  chat_type = text "group";
  cwd = text "/workspace";
  prompt = text "hi";
  trigger_summary = none;
  trigger_message_id = none;
  trigger_reply_to_message_id = none;
  mention_refs = [];
  reply_excerpt = none;
  timeout_secs = none;
}

abbrev print : Value → Text
print v = text "{}"

-- The accounts for which it was called are the state.
abbrev log : Runner (List Text)
log r validated called = (err (error_with "run_failed" []), r.platform_account_id ∷ called)

abbrev kept : Housekeeping
kept = (none, record { history_messages = []; history_read_grants = [] })

abbrev clocks : Clocks
clocks = record { instant = 0; epoch = pos 1 }

abbrev store : HistoryStore
store = record {
  database_url = [];
  reader_database_url = [];
  reader_role = [];
  reader_password = [];
  retention_days = pos 30;
}

run_called : (run print store clocks log (ok request) (kept, [])).2 ≡ text "bot" ∷ []
unfolding run text_eq
run_called = refl

run-RunsChecked_example :
    RunsChecked print log [] (run print store clocks log (ok request) (kept, [])).2
run-RunsChecked_example = run-RunsChecked print log store clocks (ok request) kept []
