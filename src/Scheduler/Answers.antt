-- ===== src/Scheduler/Answers.antt =====
-- What the answers of `admit` and the snapshot say.
use dog_bot.Common.{
  ◌+◌, ◌≡◌, ◌⊎◌, inl, inr, refl, arith, true, false, ◌||◌, none, some, [], ◌∷◌, ◌++◌, ltb,
  if◌then◌else◌, is_some, length, length-append, Bool-cases, Option-cases,
}
use dog_bot.HashMap.{get, contains_key, len}
use dog_bot.HashMap.Laws.{get-insert_self}
use dog_bot.Scheduler.{
  TaskSummary, Answer, start_now, queued_behind, queue_full, SchedulerState, waiting_count,
  can_start_now, tasks_ahead_for, admit,
}
use dog_bot.Scheduler.Invariant.{IsValid}
use dog_bot.Scheduler.Admit.{length-enqueue, Admits, starts, refuses, waits, admit-Admits}
use dog_bot.Scheduler.Order.{line}

-- What an answer of `admit` promises of the state before and the state after.
abbrev pub Promises : TaskSummary → SchedulerState → SchedulerState → Answer → Type 0
Promises task s s' start_now =
    (get task.conversation_key s.running ≡ none)
    × (line task.conversation_key s ≡ [])
    × (get task.conversation_key s'.running ≡ some task)
    × (s'.queued ≡ s.queued)
Promises task s s' (queued_behind n) =
    (line task.conversation_key s' ≡ line task.conversation_key s ++ task ∷ [])
    × (s'.running ≡ s.running)
    × (waiting_count s' ≡ waiting_count s + 1)
    × (n ≡ (
        if contains_key task.conversation_key s.running
          || contains_key task.conversation_key s.queued
        then (if contains_key task.conversation_key s.running then 1 else 0)
          + length (line task.conversation_key s)
        else len s.running + waiting_count s))
Promises task s s' queue_full =
    (s' ≡ s)
    × (waiting_count s ≡ s.max_queue_depth)
    × ((len s.running ≡ s.max_concurrent) ⊎ (is_some (get task.conversation_key s.running) ≡ true))

not_started :
    (task : TaskSummary) (s : SchedulerState)
    → can_start_now s task.conversation_key ≡ false
    → IsValid s
    → (len s.running ≡ s.max_concurrent) ⊎ (is_some (get task.conversation_key s.running) ≡ true)
unfolding can_start_now
not_started task s h v = elim (Bool-cases (ltb (len s.running) s.max_concurrent)) [
  | inl room ↦ inr (ground (arith, v.busy, v.core.listed task.conversation_key))
  | inr full ↦ inl (ground (arith, v.core.bounded))
]

Admits-Promises :
    {task : TaskSummary} {s : SchedulerState} {r : SchedulerState × Answer}
    → Admits task s r
    → IsValid s
    → Promises task s r.0 r.1
Admits-Promises {task} {s} (starts now) v =
    unfold can_start_now in
    (
      ground (arith, Option-cases (get task.conversation_key s.running)),
      ground (
        arith,
        Option-cases (get task.conversation_key s.queued),
        v.core.sound.queued_full task.conversation_key,
      ),
      get-insert_self task.conversation_key task s.running,
      refl,
    )
Admits-Promises {task} {s} (refuses later full) v =
    (refl, omega (arith, v.core.sound.within), not_started task s later v)
Admits-Promises {task} {s} (waits later room) v = (
  ground (
    arith,
    get-insert_self task.conversation_key (line task.conversation_key s ++ task ∷ []) s.queued,
  ),
  refl,
  omega (arith, length-enqueue length task s.queued refl (λ q. length-append q (task ∷ []))),
  unfold tasks_ahead_for in ground (arith, Option-cases (get task.conversation_key s.queued)),
)

-- In a valid state, `admit` answers `start_now` only when no task of the conversation runs or waits, and the task then runs; `queued_behind n` only when the task is put at the end of its conversation's line, with `n` the tasks of a known conversation that are before it, or all tasks of an unknown one; and `queue_full` only when the queue is at its depth and the task can not start, with the state unchanged.
pub admit-Promises :
    (task : TaskSummary) (s : SchedulerState)
    → IsValid s
    → Promises task s (admit task s).0 (admit task s).1
admit-Promises task s v = Admits-Promises (admit-Admits task s) v
