-- ===== src/Runs/Tests.antt =====
-- Three submitted runs on one slot: one active, and two queued of two conversations.
use dog_bot.Common.{◌≤◌, ◌≡◌, refl, none, some, [], ◌∷◌, ◌++◌, map, keep, All, total, length}
use dog_bot.Common.Text.{Text, text, text_eq}
use dog_bot.Common.Int.{pos}
use dog_bot.HashMap.{get, insert, len, weigh}
use dog_bot.Json.{null}
use dog_bot.Protocol.{CanonicalEvent, reaction_added_event}
use dog_bot.Models.{RunRequest, ValidatedRunRequest}
use dog_bot.Scheduler.{completed, admit, finish}
use dog_bot.Runs.{
  ScheduledRun, RunSchedulerInner, new_runs, conversation_key_for_request, scheduled_run, submit,
  complete,
}
use dog_bot.Runs.Valid.{IsConsistent, run_of_key, complete-IsConsistent}
use dog_bot.Runs.Identity.{complete_spawns_stored}
use dog_bot.Runs.Waiting.{of_conversation, waiting_runs}
use dog_bot.Runs.Order.{Recorded, initially_none, submitting, Recorded-InOrder}
use dog_bot.Runs.Serial.{Reach, initially, next, submits, Reach-IsConsistent, Reach-serial}

abbrev event : CanonicalEvent
event =
    reaction_added_event (text "qq") (text "bot") (text "qq:group:1") (text "user") (text "e")
      (pos 1) (text "m") (text "ok") null

abbrev request : Text → RunRequest
request conversation = record {
  platform = text "qq";
  platform_account_id = text "bot";
  conversation_id = conversation;
  session_id = [];
  user_id = text "user";
  chat_type = text "group";
  cwd = text "/workspace";
  prompt = text "hi";
  trigger_summary = none;
  trigger_message_id = none;
  trigger_reply_to_message_id = none;
  mention_refs = [];
  reply_excerpt = none;
  timeout_secs = none;
}

abbrev validated : ValidatedRunRequest
validated = record { cwd = text "/workspace"; prompt = text "hi"; system_prompt = [] }

abbrev first : ScheduledRun
first = scheduled_run (text "1") event (request (text "a")) validated

abbrev second : ScheduledRun
second = scheduled_run (text "2") event (request (text "a")) validated

abbrev other : ScheduledRun
other = scheduled_run (text "3") event (request (text "b")) validated

abbrev one : RunSchedulerInner
one = (submit first (new_runs 1 5)).0

abbrev two : RunSchedulerInner
two = (submit second one).0

abbrev three : RunSchedulerInner
three = (submit other two).0

three-Reach : Reach 1 5 three
unfolding submit admit new_runs conversation_key_for_request get insert weigh text_eq
three-Reach =
    next (next (next initially (submits first refl)) (submits second refl)) (submits other refl)

Reach-serial_example :
    (length three.active ≤ three.state.max_concurrent)
    × (total (run_of_key first.summary.conversation_key) three.active ≤ 1)
    × (length three.active ≡ len three.state.running)
Reach-serial_example = Reach-serial first.summary.conversation_key three-Reach

complete_spawns_stored_example :
    (map (λ (r : ScheduledRun). r.summary) (complete [] first [] completed none three).1
      ≡ (finish first.summary.conversation_key completed none three.state).1)
    × All
        (λ (r : ScheduledRun). get r.summary.task_id three.queued_payloads ≡ some r)
        (complete [] first [] completed none three).1
    × ((complete [] first [] completed none three).0.active
        ≡ [] ++ (complete [] first [] completed none three).1)
unfolding submit admit new_runs conversation_key_for_request get insert weigh text_eq
complete_spawns_stored_example = complete_spawns_stored [] first [] completed none three-Reach refl

three-Recorded : Recorded 1 5 (first ∷ second ∷ other ∷ []) (first ∷ []) three
unfolding submit admit new_runs conversation_key_for_request get insert weigh text_eq
three-Recorded =
    submitting other (submitting second (submitting first initially_none refl) refl) refl

Recorded-InOrder_example :
    keep (of_conversation second.summary.conversation_key) (first ∷ [])
      ++ waiting_runs second.summary.conversation_key three
    ≡ keep (of_conversation second.summary.conversation_key) (first ∷ second ∷ other ∷ [])
Recorded-InOrder_example = Recorded-InOrder second.summary.conversation_key three-Recorded

complete-IsConsistent_example : IsConsistent (complete [] first [] completed none three).0
unfolding submit admit new_runs conversation_key_for_request get insert weigh text_eq
complete-IsConsistent_example =
    complete-IsConsistent [] first [] completed none three (Reach-IsConsistent three-Reach) refl
