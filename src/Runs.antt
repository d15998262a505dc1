-- ===== src/Runs.antt =====
-- agent-runner/src/server.rs, `RunScheduler`: the scheduler together with the payloads of the
-- queued tasks and the tasks that were spawned. The mutex makes the two critical sections atomic,
-- so `submit` and the end of `run_task` are functions of the state.
pub mod Payloads
pub mod Valid
pub mod Serial
pub mod Identity
pub mod Waiting
pub mod Order
mod Tests
use dog_bot.Common.{ℕ, Option, none, some, List, [], ◌∷◌, ◌++◌, String}
use dog_bot.Common.Text.{Text, text}
use dog_bot.HashMap.{HashMap, get, insert, remove}
use dog_bot.Protocol.{CanonicalEvent}
use dog_bot.Models.{RunRequest, ValidatedRunRequest}
use dog_bot.Scheduler.{
  TaskSummary, Answer, start_now, queued_behind, queue_full, TerminalState, SchedulerState, new,
  admit, finish,
}

pub record ScheduledRun : Type 0 where
  pub event : CanonicalEvent
  pub request : RunRequest
  pub validated : ValidatedRunRequest
  pub summary : TaskSummary

-- `RunSchedulerInner`, and the spawned tasks that have not yet reached the end of `run_task`.
pub record RunSchedulerInner : Type 0 where
  pub state : SchedulerState
  pub queued_payloads : HashMap ScheduledRun
  pub active : List ScheduledRun

pub data ScheduleFeedback : Type 0 where
  started : ScheduleFeedback
  queued : ℕ → ScheduleFeedback
  full : ScheduleFeedback

-- `RunScheduler::new`.
unfoldable pub new_runs : ℕ → ℕ → RunSchedulerInner
unfolding new
new_runs concurrent depth = record {
  state = new concurrent depth;
  queued_payloads = [];
  active = [];
}

unfoldable pub conversation_key_for_request : RunRequest → Text
conversation_key_for_request r = r.platform_account_id ++ (text "::" ++ r.conversation_id)

-- The task of a request; the identifier is the UUID that `submit` draws.
abbrev pub scheduled_run : Text → CanonicalEvent → RunRequest → ValidatedRunRequest → ScheduledRun
scheduled_run task_id event request validated = record {
  event = event;
  request = request;
  validated = validated;
  summary = record {
    task_id = task_id;
    conversation_key = conversation_key_for_request request;
    actor_id = request.user_id;
    trigger_message_id = request.trigger_message_id;
  };
}

-- What `submit` does with the answer of `admit`; `spawn_task` adds to the active tasks.
abbrev pub on_answer :
    ScheduledRun
    → RunSchedulerInner
    → SchedulerState × Answer
    → RunSchedulerInner × ScheduleFeedback
on_answer run inner (s, start_now) =
    (record inner { state = s; active = inner.active ++ run ∷ [] }, started)
on_answer run inner (s, queued_behind n) = (
  record inner {
    state = s;
    queued_payloads = insert run.summary.task_id run inner.queued_payloads;
  },
  queued n,
)
on_answer run inner (s, queue_full) = (record inner { state = s }, full)

unfoldable pub submit : ScheduledRun → RunSchedulerInner → RunSchedulerInner × ScheduleFeedback
submit run inner = on_answer run inner (admit run.summary inner.state)

-- `filter_map(|summary| queued_payloads.remove(&summary.task_id))`.
unfoldable pub take_payloads :
    List TaskSummary → HashMap ScheduledRun → List ScheduledRun × HashMap ScheduledRun
take_payloads [] m = ([], m)
take_payloads (t ∷ ts) m = elim (get t.task_id m) [
  | none ↦ take_payloads ts m
  | some run ↦ let (runs, m') = take_payloads ts (remove t.task_id m) in (run ∷ runs, m')
]

-- The end of `run_task` for a task of the list `before ++ run ∷ after` of active ones: it is no
-- longer active, and the promoted tasks are spawned.
unfoldable pub complete :
    List ScheduledRun
    → ScheduledRun
    → List ScheduledRun
    → TerminalState
    → Option Text
    → RunSchedulerInner
    → RunSchedulerInner × List ScheduledRun
unfolding take_payloads
complete before run after terminal summary inner =
    let (s, promoted) = finish run.summary.conversation_key terminal summary inner.state in
    let (runs, payloads) = take_payloads promoted inner.queued_payloads in
    (record { state = s; queued_payloads = payloads; active = (before ++ after) ++ runs }, runs)
