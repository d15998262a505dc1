-- ===== src/Runs/Identity.antt =====
-- Each promoted task is spawned with the payload that was stored for it.
use dog_bot.Common.{
  ℕ, ◌≡◌, refl, sym, ap, ◌∙◌, arith, Option, none, some, List, [], ◌∷◌, ◌++◌, map, All, total,
}
use dog_bot.Common.Text.{Text, text_eq_iff, text_eq_refl}
use dog_bot.HashMap.{HashMap, get, insert, remove}
use dog_bot.HashMap.Laws.{get-insert, get-remove, weigh_member}
use dog_bot.Scheduler.{TaskSummary, Answer, TerminalState, SchedulerState, new, finish}
use dog_bot.Scheduler.Admit.{Admits, starts, refuses, waits, admit-Admits}
use dog_bot.Scheduler.Carry.{QueuedAll, finish-Carries, enqueued-QueuedAll}
use dog_bot.Runs.{
  ScheduledRun, RunSchedulerInner, new_runs, on_answer, submit, take_payloads, complete,
}
use dog_bot.Runs.Payloads.{tag, Holds, Holds-head, Holds-tail, take_payloads-some}
use dog_bot.Runs.Valid.{IsConsistent, spawned_runs, promoted-Holds, complete-IsConsistent}
use dog_bot.Runs.Serial.{Reach, initially, next, Step, submits, completes, Reach-IsConsistent}

-- The payload of the task is in the map: a run with just this summary, under its identifier.
pub record Kept (m : HashMap ScheduledRun) (t : TaskSummary) : Type 0 where
  pub run : ScheduledRun
  pub stored : get t.task_id m ≡ some run
  pub own : run.summary ≡ t

abbrev pub Within : HashMap ScheduledRun → HashMap ScheduledRun → Type 0
Within m' m = (id : Text) (run : ScheduledRun) → get id m' ≡ some run → get id m ≡ some run

remove-Within : (id : Text) (m : HashMap ScheduledRun) → Within (remove id m) m
remove-Within id m j run h = ground (arith, h, get-remove id j m)

-- In a part of the map that still holds a payload for each task, each task has the one that it had.
Kept-Within :
    (ts : List TaskSummary) (m' m : HashMap ScheduledRun)
    → Within m' m
    → Holds ts m'
    → All (Kept m) ts
    → All (Kept m') ts
Kept-Within [] m' m w h k = tt
Kept-Within (t ∷ ts) m' m w h (k, ks) =
    let (run, e, _) = Holds-head t ts m' h in
    let same : k.run ≡ run = ground (arith, k.stored, w t.task_id run e) in
    (
      record {
        run = run;
        stored = e;
        own = ap (λ (r : ScheduledRun). r.summary) (sym same) ∙ k.own;
      },
      Kept-Within ts m' m w (record { enough = λ id key. omega (arith, h.enough id key) }) ks,
    )

Holds-rest :
    (t : TaskSummary) (ts : List TaskSummary) (m : HashMap ScheduledRun)
    → Holds (t ∷ ts) m
    → Holds ts (remove t.task_id m)
Holds-rest t ts m h = let (run, e, k) = Holds-head t ts m h in Holds-tail t ts m run h e k

-- The payloads taken for some tasks: theirs, in their order, each as it was stored.
pub record TakesOwn (ts : List TaskSummary) (m : HashMap ScheduledRun) : Type 0 where
  pub summaries : map (λ (r : ScheduledRun). r.summary) (take_payloads ts m).0 ≡ ts
  pub stored : All (λ (r : ScheduledRun). get r.summary.task_id m ≡ some r) (take_payloads ts m).0
  pub rest : Within (take_payloads ts m).1 m

All-Within :
    (runs : List ScheduledRun) (m' m : HashMap ScheduledRun)
    → Within m' m
    → All (λ (r : ScheduledRun). get r.summary.task_id m' ≡ some r) runs
    → All (λ (r : ScheduledRun). get r.summary.task_id m ≡ some r) runs
All-Within [] m' m w h = tt
All-Within (r ∷ runs) m' m w h = (w r.summary.task_id r h.0, All-Within runs m' m w h.1)

take_payloads-TakesOwn :
    (ts : List TaskSummary) (m : HashMap ScheduledRun)
    → Holds ts m
    → All (Kept m) ts
    → TakesOwn ts m
take_payloads-TakesOwn [] m h k =
    unfold take_payloads in record { summaries = refl; stored = tt; rest = λ id run e. e }
take_payloads-TakesOwn (t ∷ ts) m h (k, ks) =
    let m' = remove t.task_id m in
    let h' = Holds-rest t ts m h in
    let w = remove-Within t.task_id m in
    let ih = take_payloads-TakesOwn ts m' h' (Kept-Within ts m' m w h' ks) in
    let own : get k.run.summary.task_id m ≡ some k.run =
      ap (λ (u : TaskSummary). get u.task_id m) k.own ∙ k.stored in
    record {
      summaries = rw (take_payloads-some t ts m k.run k.stored, k.own, ih.summaries) refl;
      stored =
          rw (take_payloads-some t ts m k.run k.stored)
            (own, All-Within (take_payloads ts m').0 m' m w ih.stored);
      rest = λ id run e.
          w id run (ih.rest id run (rw (take_payloads-some t ts m k.run k.stored) at e));
    }

-- The payload of every queued task is kept.
abbrev pub AllKept : RunSchedulerInner → Type 0
AllKept inner = QueuedAll (Kept inner.queued_payloads) inner.state

pub Kept-insert :
    (id : Text) (run : ScheduledRun) (m : HashMap ScheduledRun) (ts : List TaskSummary)
    → get id m ≡ none
    → All (Kept m) ts
    → All (Kept (insert id run m)) ts
Kept-insert id run m [] fresh k = tt
Kept-insert id run m (t ∷ ts) fresh (k, ks) = (
  record {
    run = k.run;
    stored =
        ground (arith, k.stored, fresh, get-insert id t.task_id run m, text_eq_iff id t.task_id);
    own = k.own;
  },
  Kept-insert id run m ts fresh ks,
)

submit_cases :
    (run : ScheduledRun) (inner : RunSchedulerInner) {r : SchedulerState × Answer}
    → Admits run.summary inner.state r
    → get run.summary.task_id inner.queued_payloads ≡ none
    → AllKept inner
    → AllKept (on_answer run inner r).0
submit_cases run inner (starts now) fresh h = h
submit_cases run inner (refuses later full) fresh h = h
submit_cases run inner (waits later room) fresh h =
    let id = run.summary.task_id in
    let m = inner.queued_payloads in
    enqueued-QueuedAll (Kept (insert id run m)) run.summary inner.state
      (record {
        run = run;
        stored = ground (arith, get-insert id id run m, text_eq_refl id);
        own = refl;
      })
      (λ k q g. Kept-insert id run m q fresh (h k q g))

module _ (before : List ScheduledRun) (run : ScheduledRun) (after : List ScheduledRun)
    (terminal : TerminalState) (summary : Option Text) (inner : RunSchedulerInner)
    (v : IsConsistent inner) (h : AllKept inner) (e : inner.active ≡ before ++ run ∷ after) where
  pub promoted_own :
      TakesOwn
        (finish run.summary.conversation_key terminal summary inner.state).1
        inner.queued_payloads
  promoted_own =
      let (t, found) = spawned_runs before run after inner v e in
      take_payloads-TakesOwn (finish run.summary.conversation_key terminal summary inner.state).1
        inner.queued_payloads (promoted-Holds before run after terminal summary inner v e)
        (finish-Carries (Kept inner.queued_payloads) run.summary.conversation_key terminal summary
          inner.state t found v.scheduler h).1

  pub complete-AllKept : AllKept (complete before run after terminal summary inner).0
  unfolding complete
  complete-AllKept k q g =
      let (t, found) = spawned_runs before run after inner v e in
      let consistent = complete-IsConsistent before run after terminal summary inner v e in
      let rest = (complete before run after terminal summary inner).0 in
      Kept-Within q rest.queued_payloads inner.queued_payloads promoted_own.rest
        (record {
          enough = λ id key. omega (
            arith,
            consistent.payloads id key,
            weigh_member (total (tag id key)) k q rest.state.queued g,
          );
        })
        ((finish-Carries (Kept inner.queued_payloads) run.summary.conversation_key terminal summary
            inner.state t found v.scheduler h).0
          k q g)

pub Step-AllKept :
    {inner inner' : RunSchedulerInner}
    → Step inner inner'
    → IsConsistent inner
    → AllKept inner
    → AllKept inner'
unfolding submit
Step-AllKept {inner} (submits run fresh) v h =
    submit_cases run inner (admit-Admits run.summary inner.state) fresh h
Step-AllKept {inner} (completes before run after terminal summary e) v h =
    complete-AllKept before run after terminal summary inner v h e

pub Reach-AllKept :
    {concurrent depth : ℕ} {inner : RunSchedulerInner}
    → Reach concurrent depth inner
    → AllKept inner
unfolding new_runs new get
Reach-AllKept initially = λ k q e. cc
Reach-AllKept (next r st) = Step-AllKept st (Reach-IsConsistent r) (Reach-AllKept r)

-- However submissions and ends of tasks interleaved before, when a spawned task ends then just the tasks that the scheduler promotes are spawned, in its order, each as the run that was stored for it when it was submitted, and they join the tasks that are still active.
pub complete_spawns_stored :
    {concurrent depth : ℕ} {inner : RunSchedulerInner} (before : List ScheduledRun)
    (run : ScheduledRun) (after : List ScheduledRun) (terminal : TerminalState)
    (summary : Option Text)
    → Reach concurrent depth inner
    → inner.active ≡ before ++ run ∷ after
    → (map (λ (r : ScheduledRun). r.summary) (complete before run after terminal summary inner).1
        ≡ (finish run.summary.conversation_key terminal summary inner.state).1)
      × All
          (λ (r : ScheduledRun). get r.summary.task_id inner.queued_payloads ≡ some r)
          (complete before run after terminal summary inner).1
      × ((complete before run after terminal summary inner).0.active
          ≡ (before ++ after) ++ (complete before run after terminal summary inner).1)
unfolding complete
complete_spawns_stored {inner = inner} before run after terminal summary r e =
    let own =
      promoted_own before run after terminal summary inner (Reach-IsConsistent r) (Reach-AllKept r)
        e in
    (own.summaries, own.stored, refl)
