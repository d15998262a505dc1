-- ===== src/Runs/Serial.antt =====
-- Histories of submissions and ends of tasks, in any order.
use dog_bot.Common.{
  ℕ, ◌≤◌, ◌≡◌, inl, inr, refl, ap, arith, Option, none, some, List, ◌∷◌, ◌++◌, ltb, length, total,
  Bool-cases,
}
use dog_bot.Common.Text.{Text, text_eq_iff}
use dog_bot.HashMap.{get, remove, weigh, len}
use dog_bot.HashMap.Laws.{get-remove, weigh_found, remove-IsDistinct, remove_absent, weigh-remove}
use dog_bot.Scheduler.{TaskSummary, TerminalState, SchedulerState}
use dog_bot.Scheduler.Invariant.{IsValid}
use dog_bot.Runs.{ScheduledRun, RunSchedulerInner, new_runs, submit, complete}
use dog_bot.Runs.Valid.{
  of_key, run_of_key, IsConsistent, new-IsConsistent, submit-IsConsistent, complete-IsConsistent,
}

-- A submission draws an identifier that no queued payload has; any spawned task may be the next to end, with any outcome.
pub data Step (inner : RunSchedulerInner) : RunSchedulerInner → Type 0 where
  submits :
      (run : ScheduledRun)
      → get run.summary.task_id inner.queued_payloads ≡ none
      → Step inner (submit run inner).0
  completes :
      (before : List ScheduledRun) (run : ScheduledRun) (after : List ScheduledRun)
      (terminal : TerminalState) (summary : Option Text)
      → inner.active ≡ before ++ run ∷ after
      → Step inner (complete before run after terminal summary inner).0

pub data Reach (concurrent depth : ℕ) : RunSchedulerInner → Type 0 where
  initially : Reach concurrent depth (new_runs concurrent depth)
  next :
      {inner inner' : RunSchedulerInner}
      → Reach concurrent depth inner
      → Step inner inner'
      → Reach concurrent depth inner'

Step-IsConsistent :
    {inner inner' : RunSchedulerInner}
    → Step inner inner'
    → IsConsistent inner
    → IsConsistent inner'
Step-IsConsistent {inner} (submits run fresh) v = submit-IsConsistent run inner fresh v
Step-IsConsistent {inner} (completes before run after terminal summary e) v =
    complete-IsConsistent before run after terminal summary inner v e

pub Reach-IsConsistent :
    {concurrent depth : ℕ} {inner : RunSchedulerInner}
    → Reach concurrent depth inner
    → IsConsistent inner
Reach-IsConsistent {concurrent} {depth} initially = new-IsConsistent concurrent depth
Reach-IsConsistent (next r st) = Step-IsConsistent st (Reach-IsConsistent r)

-- Other conversations' entries do not count for `key`.
others_weigh_zero :
    (s : SchedulerState) (key : Text) → IsValid s → weigh (of_key key) (remove key s.running) ≡ 0
others_weigh_zero s key v = elim (Bool-cases (ltb 0 (weigh (of_key key) (remove key s.running)))) [
  | inl some_left ↦
      let d = remove-IsDistinct key s.running v.core.sound.one_running in
      let (k, t, h, p) = weigh_found (of_key key) (remove key s.running) d (ground arith) in
      absurd (
        ground (
          arith,
          h,
          p,
          get-remove key k s.running,
          v.core.sound.running_keys k t,
          text_eq_iff t.conversation_key key,
          text_eq_iff key k,
        ))
  | inr none_left ↦ ground arith
]

one_entry : (s : SchedulerState) (key : Text) → IsValid s → weigh (of_key key) s.running ≤ 1
one_entry s key v = go (get key s.running) refl
  where
    go : (o : Option TaskSummary) → get key s.running ≡ o → weigh (of_key key) s.running ≤ 1
    go none e =
        omega (
          arith,
          others_weigh_zero s key v,
          ap (weigh (of_key key)) (remove_absent key s.running e),
        )
    go (some t) e = ground (
      arith,
      others_weigh_zero s key v,
      weigh-remove (of_key key) key t s.running v.core.sound.one_running e,
    )

-- However submissions and ends of tasks interleave, the spawned tasks that have not ended are at most `max_concurrent`, at most one of them belongs to any conversation, and as many are spawned as the scheduler counts as running.
pub Reach-serial :
    {concurrent depth : ℕ} {inner : RunSchedulerInner} (key : Text)
    → Reach concurrent depth inner
    → (length inner.active ≤ inner.state.max_concurrent)
      × (total (run_of_key key) inner.active ≤ 1)
      × (length inner.active ≡ len inner.state.running)
Reach-serial {inner = inner} key r =
    let v = Reach-IsConsistent r in
    (
      omega (arith, v.counted, v.scheduler.core.bounded),
      omega (arith, v.spawned key, one_entry inner.state key v.scheduler),
      v.counted,
    )
