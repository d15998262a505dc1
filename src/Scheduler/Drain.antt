-- ===== src/Scheduler/Drain.antt =====
-- A scheduler that admits no more: it runs empty, and never stalls.
use dog_bot.Common.{
  ℕ, suc, ◌+◌, ◌<◌, ◌≡◌, refl, ap, arith, inl, inr, ◌⊎◌, false, Option, some, List, ltb, length,
  total-one, Bool-cases, Option-cases,
}
use mathlib.Core.Path.{fun_ext}
use dog_bot.Common.Text.{Text}
use dog_bot.HashMap.{get, weigh, len}
use dog_bot.HashMap.Laws.{weigh_found, weigh_member}
use dog_bot.Scheduler.{TaskSummary, TerminalState, SchedulerState, waiting_count, finish}
use dog_bot.Scheduler.Invariant.{is_ready, IsValid}
use dog_bot.Scheduler.Finish.{finish-IsValid}
use dog_bot.Scheduler.Conserve.{load, load-finish}
use dog_bot.Scheduler.History.{Reach, Reach-IsValid}

-- The tasks that run or wait.
abbrev pub pending : SchedulerState → ℕ
pending s = len s.running + waiting_count s

pending-load : (s : SchedulerState) → load (λ _. 1) s ≡ pending s
pending-load s = ap (λ f. len s.running + weigh f s.queued) (fun_ext total-one)

-- The end of one running task takes one task off those that run or wait.
pending-finish :
    (key : Text) (terminal : TerminalState) (summary : Option Text) (s : SchedulerState)
    (t : TaskSummary)
    → get key s.running ≡ some t
    → IsValid s
    → pending (finish key terminal summary s).0 + 1 ≡ pending s
pending-finish key terminal summary s t h v = omega (
  arith,
  load-finish (λ _. 1) key terminal summary s t h v,
  pending-load s,
  pending-load (finish key terminal summary s).0,
)

-- `n` ends of running tasks, one after another, with nothing admitted between them.
pub data Finishes (s : SchedulerState) : ℕ → SchedulerState → Type 0 where
  start : Finishes s 0 s
  finishes :
      {n : ℕ} {s' : SchedulerState} (key : Text) (terminal : TerminalState) (summary : Option Text)
      (t : TaskSummary)
      → Finishes s n s'
      → get key s'.running ≡ some t
      → Finishes s (suc n) (finish key terminal summary s').0

Finishes-IsValid : {s s' : SchedulerState} {n : ℕ} → Finishes s n s' → IsValid s → IsValid s'
Finishes-IsValid start v = v
Finishes-IsValid {s} (finishes {n} {s'} key terminal summary t f h) v =
    finish-IsValid key terminal summary s' t h (Finishes-IsValid f v)

Finishes-pending :
    {s s' : SchedulerState} {n : ℕ} → Finishes s n s' → IsValid s → pending s' + n ≡ pending s
Finishes-pending start v = omega arith
Finishes-pending {s} (finishes {n} {s'} key terminal summary t f h) v =
    omega (
      arith,
      Finishes-pending f v,
      pending-finish key terminal summary s' t h (Finishes-IsValid f v),
    )

-- A conversation that waits while nothing runs would be ready, with a slot free.
not_stuck :
    (s : SchedulerState) (k : Text) (q : List TaskSummary)
    → IsValid s
    → len s.running ≡ 0
    → get k s.queued ≡ some q
    → ⊥
not_stuck s k q v h e =
    let room : len s.running < s.max_concurrent = omega (arith, v.core.sound.positive) in
    let unready : is_ready k s.ready_conversations ≡ false = rw (v.busy room) refl in
    elim (Option-cases (get k s.running)) [
      | inl f ↦ ground (arith, v.core.listed k, e, f, unready)
      | inr (t, f) ↦ omega (arith, weigh_member (λ _. 1) k t s.running f)
    ]

idle : (s : SchedulerState) → IsValid s → len s.running ≡ 0 → waiting_count s ≡ 0
idle s v h = elim (Bool-cases (ltb 0 (waiting_count s))) [
  | inl waits ↦
      let (k, q, e, p) = weigh_found length s.queued v.core.sound.one_queue (ground arith) in
      absurd (not_stuck s k q v h e)
  | inr no_wait ↦ ground arith
]

-- The scheduler never stalls and loses no task: where nothing more is admitted and `n` running tasks have ended one after another, either fewer have ended than ran or waited at first, and a task runs, or just as many have ended, and no task runs or waits.
pub Finishes-drains :
    {concurrent depth n : ℕ} {s s' : SchedulerState}
    → Reach concurrent depth s
    → Finishes s n s'
    → ((n < len s.running + waiting_count s) × (0 < len s'.running))
      ⊎ ((n ≡ len s.running + waiting_count s) × (len s'.running ≡ 0) × (waiting_count s' ≡ 0))
Finishes-drains {s = s} {s'} r f =
    let v = Reach-IsValid r in
    let count = Finishes-pending f v in
    elim (Bool-cases (ltb 0 (len s'.running))) [
      | inl runs ↦ inl (ground (arith, count), ground arith)
      | inr empty ↦
          let none_runs : len s'.running ≡ 0 = ground arith in
          let none_waits = idle s' (Finishes-IsValid f v) none_runs in
          inr (omega (arith, count), none_runs, none_waits)
    ]
