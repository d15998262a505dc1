-- ===== src/Runs/Order.antt =====
-- The order in which the runs of a conversation are spawned, over any history.
use dog_bot.Common.{
  ℕ, ◌≡◌, refl, sym, ap, ◌∙◌, Option, none, List, [], ◌∷◌, ◌++◌, keep, keep-append,
}
use mathlib.Core.List.{append_assoc, append-nil}
use dog_bot.Common.Text.{Text}
use dog_bot.HashMap.{get}
use dog_bot.Scheduler.{Answer, TerminalState, SchedulerState, new}
use dog_bot.Scheduler.Admit.{Admits, starts, refuses, waits, admit-Admits}
use dog_bot.Runs.{
  ScheduledRun, RunSchedulerInner, ScheduleFeedback, started, queued, full, new_runs, on_answer,
  submit, complete,
}
use dog_bot.Runs.Valid.{IsConsistent}
use dog_bot.Runs.Serial.{Reach, initially, next, submits, completes, Reach-IsConsistent}
use dog_bot.Runs.Identity.{AllKept, Reach-AllKept}
use dog_bot.Runs.Waiting.{
  of_conversation, waiting_runs, keeps_of, complete_in_order, started_first, waiting-enqueued,
}

-- What `submit` answered puts a run among the accepted ones, and among the spawned ones.
abbrev pub accepted : ScheduledRun → ScheduleFeedback → List ScheduledRun
accepted run started = run ∷ []
accepted run (queued n) = run ∷ []
accepted run full = []

abbrev pub spawned : ScheduledRun → ScheduleFeedback → List ScheduledRun
spawned run started = run ∷ []
spawned run (queued n) = []
spawned run full = []

-- A history with its two records: the runs that were accepted, and those that were spawned, by `submit` or at the end of another.
pub data Recorded (concurrent depth : ℕ)
    : List ScheduledRun → List ScheduledRun → RunSchedulerInner → Type 0 where
  initially_none : Recorded concurrent depth [] [] (new_runs concurrent depth)
  submitting :
      {taken begun : List ScheduledRun} {inner : RunSchedulerInner} (run : ScheduledRun)
      → Recorded concurrent depth taken begun inner
      → get run.summary.task_id inner.queued_payloads ≡ none
      → Recorded concurrent depth
          (taken ++ accepted run (submit run inner).1)
          (begun ++ spawned run (submit run inner).1)
          (submit run inner).0
  completing :
      {taken begun : List ScheduledRun} {inner : RunSchedulerInner} (before : List ScheduledRun)
      (run : ScheduledRun) (after : List ScheduledRun) (terminal : TerminalState)
      (summary : Option Text)
      → Recorded concurrent depth taken begun inner
      → inner.active ≡ before ++ run ∷ after
      → Recorded concurrent depth taken
          (begun ++ (complete before run after terminal summary inner).1)
          (complete before run after terminal summary inner).0

Recorded-Reach :
    {concurrent depth : ℕ} {taken begun : List ScheduledRun} {inner : RunSchedulerInner}
    → Recorded concurrent depth taken begun inner
    → Reach concurrent depth inner
Recorded-Reach initially_none = initially
Recorded-Reach (submitting run r fresh) = next (Recorded-Reach r) (submits run fresh)
Recorded-Reach (completing before run after terminal summary r e) =
    next (Recorded-Reach r) (completes before run after terminal summary e)

-- The runs of a conversation that were accepted are those that were spawned and then those that wait.
abbrev InOrder : Text → List ScheduledRun → List ScheduledRun → RunSchedulerInner → Type 0
InOrder k taken begun inner =
    keep (of_conversation k) begun ++ waiting_runs k inner ≡ keep (of_conversation k) taken

record_more :
    (k : Text) (begun more rest waiting : List ScheduledRun)
    → keeps_of k more ++ rest ≡ waiting
    → keeps_of k (begun ++ more) ++ rest ≡ keeps_of k begun ++ waiting
record_more k begun more rest waiting h =
    ap (λ l. l ++ rest) (keep-append (of_conversation k) begun more)
    ∙ (append_assoc (keeps_of k begun) (keeps_of k more) rest ∙ ap (λ l. keeps_of k begun ++ l) h)

taken_more :
    (k : Text) (taken begun more : List ScheduledRun) (inner : RunSchedulerInner)
    → InOrder k taken begun inner
    → keeps_of k begun ++ (waiting_runs k inner ++ keeps_of k more) ≡ keeps_of k (taken ++ more)
taken_more k taken begun more inner h =
    sym (append_assoc (keeps_of k begun) (waiting_runs k inner) (keeps_of k more))
    ∙ (ap (λ l. l ++ keeps_of k more) h ∙ sym (keep-append (of_conversation k) taken more))

submit-InOrder :
    (k : Text) (taken begun : List ScheduledRun) (run : ScheduledRun) (inner : RunSchedulerInner)
    {r : SchedulerState × Answer}
    → Admits run.summary inner.state r
    → IsConsistent inner
    → AllKept inner
    → get run.summary.task_id inner.queued_payloads ≡ none
    → InOrder k taken begun inner
    → InOrder k
        (taken ++ accepted run (on_answer run inner r).1)
        (begun ++ spawned run (on_answer run inner r).1)
        (on_answer run inner r).0
submit-InOrder k taken begun run inner (starts now) v h fresh o =
    record_more k begun (run ∷ []) (waiting_runs k inner)
      (waiting_runs k inner ++ keeps_of k (run ∷ [])) (started_first k run inner v.scheduler now)
    ∙ taken_more k taken begun (run ∷ []) inner o
submit-InOrder k taken begun run inner (refuses later at_depth) v h fresh o =
    rw (append-nil begun, append-nil taken) o
submit-InOrder k taken begun run inner (waits later room) v h fresh o =
    rw (append-nil begun, waiting-enqueued run inner h fresh k)
      (taken_more k taken begun (run ∷ []) inner o)

-- For every conversation, over any history of submissions and ends of runs: the runs that `submit` accepted are, in the order of their submission, those that were spawned so far, in the order of their spawning, and behind them those that wait. So no accepted run is lost, spawned twice or overtaken, and a run that was turned away is never spawned.
pub Recorded-InOrder :
    {concurrent depth : ℕ} {taken begun : List ScheduledRun} {inner : RunSchedulerInner} (k : Text)
    → Recorded concurrent depth taken begun inner
    → keep (of_conversation k) begun ++ waiting_runs k inner ≡ keep (of_conversation k) taken
unfolding submit new_runs new get
Recorded-InOrder k initially_none = refl
Recorded-InOrder k (submitting {taken} {begun} {inner} run r fresh) =
    let reach = Recorded-Reach r in
    submit-InOrder k taken begun run inner (admit-Admits run.summary inner.state)
      (Reach-IsConsistent reach) (Reach-AllKept reach) fresh (Recorded-InOrder k r)
Recorded-InOrder k (completing {taken} {begun} {inner} before run after terminal summary r e) =
    let reach = Recorded-Reach r in
    record_more k begun (complete before run after terminal summary inner).1
      (waiting_runs k (complete before run after terminal summary inner).0) (waiting_runs k inner)
      (complete_in_order before run after terminal summary inner (Reach-IsConsistent reach)
        (Reach-AllKept reach) e k)
    ∙ Recorded-InOrder k r
