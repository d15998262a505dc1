-- ===== src/Scheduler/History.antt =====
-- Histories of calls, from the empty scheduler.
use dog_bot.Common.{
  ℕ, ◌≡◌, inl, inr, refl, arith, true, false, Option, none, some, List, ltb, Bool-cases,
}
use dog_bot.Common.Text.{Text}
use dog_bot.HashMap.{get, weigh, len}
use dog_bot.Scheduler.{TaskSummary, TerminalState, SchedulerState, new, admit, finish}
use dog_bot.Scheduler.Invariant.{is_ready, IsValid}
use dog_bot.Scheduler.Finish.{finish-IsValid}
use dog_bot.Scheduler.Admit.{admit-IsValid}

-- `admit` is called with any task, `finish` only for a conversation that has a task running.
pub data Step (s : SchedulerState) : SchedulerState → Type 0 where
  admits : (task : TaskSummary) → Step s (admit task s).0
  finishes :
      (key : Text) (terminal : TerminalState) (summary : Option Text) (t : TaskSummary)
      → get key s.running ≡ some t
      → Step s (finish key terminal summary s).0

pub data Reach (concurrent depth : ℕ) : SchedulerState → Type 0 where
  initially : Reach concurrent depth (new concurrent depth)
  next : {s s' : SchedulerState} → Reach concurrent depth s → Step s s' → Reach concurrent depth s'

pub new-IsValid : (concurrent depth : ℕ) → IsValid (new concurrent depth)
unfolding new get weigh
new-IsValid concurrent depth = record {
  core = record {
    sound = record {
      positive = omega arith;
      within = omega arith;
      one_running = tt;
      one_queue = tt;
      running_keys = λ k t h. cc;
      queued_keys = λ k q h. cc;
      queued_full = λ k q h. cc;
      history = omega arith;
    };
    bounded = omega arith;
    unique = tt;
    listed = λ k. refl;
  };
  busy = λ h. refl;
}

Step-IsValid : {s s' : SchedulerState} → Step s s' → IsValid s → IsValid s'
Step-IsValid {s} (admits task) v = admit-IsValid task s v
Step-IsValid {s} (finishes key terminal summary t h) v = finish-IsValid key terminal summary s t h v

-- Every state that calls of `admit` and of `finish` for running conversations reach from a new scheduler is valid: at most `max_concurrent` conversations run and at most `max_queue_depth` tasks wait, each map has one entry per conversation and holds tasks of that conversation only, no empty queue is kept, the ready list names without repetition just the conversations that wait and do not run, no slot is free while it is not empty, and at most 16 terminal summaries are kept.
pub Reach-IsValid :
    {concurrent depth : ℕ} {s : SchedulerState} → Reach concurrent depth s → IsValid s
Reach-IsValid {concurrent} {depth} initially = new-IsValid concurrent depth
Reach-IsValid (next r st) = Step-IsValid st (Reach-IsValid r)

-- In a valid state a conversation waits with no task of its own running only while all slots are taken.
pub waits_for_slot :
    (s : SchedulerState) (k : Text) (q : List TaskSummary)
    → IsValid s
    → get k s.queued ≡ some q
    → get k s.running ≡ none
    → (len s.running ≡ s.max_concurrent) × (is_ready k s.ready_conversations ≡ true)
waits_for_slot s k q v h f =
    let listed : is_ready k s.ready_conversations ≡ true = ground (arith, v.core.listed k) in
    (
      elim (Bool-cases (ltb (len s.running) s.max_concurrent)) [
        | inl room ↦
            let none_ready : is_ready k s.ready_conversations ≡ false =
              rw (v.busy (ground arith)) refl in
            cc
        | inr full ↦ ground (arith, v.core.bounded)
      ],
      listed,
    )
