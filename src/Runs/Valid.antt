-- ===== src/Runs/Valid.antt =====
-- The spawned tasks are those that the scheduler holds as running, and no payload is lost.
use dog_bot.Common.{
  ℕ, ◌<◌, ◌≡◌, refl, ap, subst, arith, Option, none, some, List, [], ◌∷◌, ◌++◌, if◌then◌else◌,
  length, total, length-append, total-append, length-map, total-one, Option-cases,
}
use dog_bot.Common.Text.{Text, text_eq, text_eq_iff, text_eq_refl}
use dog_bot.HashMap.{get, weigh, len}
use dog_bot.HashMap.Laws.{get-insert, weigh-insert_new, weigh_found}
use dog_bot.Scheduler.{
  TaskSummary, Answer, TerminalState, SchedulerState, new, finish, can_start_now,
}
use dog_bot.Scheduler.Invariant.{IsValid}
use dog_bot.Scheduler.Admit.{
  length-enqueue, Admits, starts, refuses, waits, admit-Admits, admit-IsValid,
}
use dog_bot.Scheduler.Finish.{finish-IsValid}
use dog_bot.Scheduler.Conserve.{load-finish}
use dog_bot.Scheduler.History.{new-IsValid}
use dog_bot.Runs.{
  ScheduledRun, RunSchedulerInner, new_runs, on_answer, submit, take_payloads, complete,
}
use dog_bot.Runs.Payloads.{tag, matches, run_keys, task_keys, Holds, take_payloads-Takes}

abbrev pub of_key : Text → TaskSummary → ℕ
of_key key t = if text_eq t.conversation_key key then 1 else 0

abbrev pub run_of_key : Text → ScheduledRun → ℕ
run_of_key key r = of_key key r.summary

pub record IsConsistent (inner : RunSchedulerInner) : Type 0 where
  pub scheduler : IsValid inner.state
  pub payloads :
      (id key : Text)
      → weigh (total (tag id key)) inner.state.queued ≡ matches key (get id inner.queued_payloads)
  pub spawned :
      (key : Text) → total (run_of_key key) inner.active ≡ weigh (of_key key) inner.state.running
  pub counted : length inner.active ≡ len inner.state.running

pub new-IsConsistent : (concurrent depth : ℕ) → IsConsistent (new_runs concurrent depth)
unfolding new_runs new get weigh
new-IsConsistent concurrent depth = record {
  scheduler = new-IsValid concurrent depth;
  payloads = λ id key. refl;
  spawned = λ key. refl;
  counted = refl;
}

submit_cases :
    (run : ScheduledRun) (inner : RunSchedulerInner) {r : SchedulerState × Answer}
    → Admits run.summary inner.state r
    → IsConsistent inner
    → get run.summary.task_id inner.queued_payloads ≡ none
    → IsValid r.0
    → IsConsistent (on_answer run inner r).0
submit_cases run inner (starts now) v fresh w =
    let free : get run.summary.conversation_key inner.state.running ≡ none =
      unfold can_start_now in
      ground (arith, Option-cases (get run.summary.conversation_key inner.state.running)) in
    record {
      scheduler = w;
      payloads = v.payloads;
      spawned = λ key. omega (
        arith,
        v.spawned key,
        total-append (run_of_key key) inner.active (run ∷ []),
        weigh-insert_new (of_key key) run.summary.conversation_key run.summary inner.state.running
            free,
      );
      counted = omega (
        arith,
        v.counted,
        length-append inner.active (run ∷ []),
        weigh-insert_new (λ _. 1) run.summary.conversation_key run.summary inner.state.running free,
      );
    }
submit_cases run inner (refuses later at_depth) v fresh w = record {
  scheduler = w;
  payloads = v.payloads;
  spawned = v.spawned;
  counted = v.counted;
}
submit_cases run inner (waits later room) v fresh w = record {
  scheduler = w;
  payloads = λ id key. ground (
    arith,
    v.payloads id key,
    fresh,
    length-enqueue (total (tag id key)) run.summary inner.state.queued refl
        (λ q. total-append (tag id key) q (run.summary ∷ [])),
    get-insert run.summary.task_id id run inner.queued_payloads,
    text_eq_iff run.summary.task_id id,
  );
  spawned = v.spawned;
  counted = v.counted;
}

-- `submit` of a task with an unused identifier keeps the state consistent.
pub submit-IsConsistent :
    (run : ScheduledRun) (inner : RunSchedulerInner)
    → get run.summary.task_id inner.queued_payloads ≡ none
    → IsConsistent inner
    → IsConsistent (submit run inner).0
unfolding submit
submit-IsConsistent run inner fresh v =
    submit_cases run inner (admit-Admits run.summary inner.state) v fresh
      (admit-IsValid run.summary inner.state v.scheduler)

-- A spawned task has an entry of its conversation in the running map.
pub spawned_runs :
    (before : List ScheduledRun) (run : ScheduledRun) (after : List ScheduledRun)
    (inner : RunSchedulerInner)
    → IsConsistent inner
    → inner.active ≡ before ++ run ∷ after
    → (t : TaskSummary) × (get run.summary.conversation_key inner.state.running ≡ some t)
spawned_runs before run after inner v e =
    let key = run.summary.conversation_key in
    let positive : 0 < weigh (of_key key) inner.state.running = ground (
      arith,
      v.spawned key,
      ap (total (run_of_key key)) e,
      total-append (run_of_key key) before (run ∷ after),
      text_eq_refl key,
    ) in
    let (k, t, h, p) =
      weigh_found (of_key key) inner.state.running v.scheduler.core.sound.one_running positive in
    let same : k ≡ key =
      ground
        (arith, p, text_eq_iff t.conversation_key key, v.scheduler.core.sound.running_keys k t h) in
    (t, subst (λ j. get j inner.state.running ≡ some t) same h)

total-of_key :
    (key : Text) (runs : List ScheduledRun) (ts : List TaskSummary)
    → run_keys runs ≡ task_keys ts
    → total (run_of_key key) runs ≡ total (of_key key) ts
total-of_key key [] [] e = refl
total-of_key key [] (t ∷ ts) e = cc
total-of_key key (r ∷ runs) [] e = cc
total-of_key key (r ∷ runs) (t ∷ ts) e = ground (arith, e, total-of_key key runs ts)

module _ (before : List ScheduledRun) (run : ScheduledRun) (after : List ScheduledRun)
    (terminal : TerminalState) (summary : Option Text) (inner : RunSchedulerInner)
    (v : IsConsistent inner) (e : inner.active ≡ before ++ run ∷ after) where
  pub promoted-Holds :
      Holds
        (finish run.summary.conversation_key terminal summary inner.state).1
        inner.queued_payloads
  promoted-Holds =
      let (t, h) = spawned_runs before run after inner v e in
      record {
        enough = λ id key. omega (
          arith,
          v.payloads id key,
          (load-finish (tag id key) run.summary.conversation_key terminal summary inner.state t h
              v.scheduler).1,
        );
      }

  -- When a spawned task ends, exactly the promoted tasks are spawned, each with its payload: as many, for the same conversations, in the same order.
  pub complete_spawns_promoted :
      run_keys (complete before run after terminal summary inner).1
      ≡ task_keys (finish run.summary.conversation_key terminal summary inner.state).1
  unfolding complete
  complete_spawns_promoted =
      (take_payloads-Takes (finish run.summary.conversation_key terminal summary inner.state).1
        inner.queued_payloads promoted-Holds).same_keys

  -- The end of a spawned task keeps the state consistent: the scheduler stays valid, each queued task has its one payload under its id and no other payload is kept, and as many tasks are spawned as run, for each conversation and in all.
  pub complete-IsConsistent : IsConsistent (complete before run after terminal summary inner).0
  unfolding complete
  complete-IsConsistent =
      let key0 = run.summary.conversation_key in
      let (t, h) = spawned_runs before run after inner v e in
      let r = finish key0 terminal summary inner.state in
      let takes = take_payloads-Takes r.1 inner.queued_payloads promoted-Holds in
      record {
        scheduler = finish-IsValid key0 terminal summary inner.state t h v.scheduler;
        payloads = λ id key. omega (
          arith,
          v.payloads id key,
          takes.rest id key,
          (load-finish (tag id key) key0 terminal summary inner.state t h v.scheduler).1,
        );
        spawned = λ key. ground (
          arith,
          v.spawned key,
          ap (total (run_of_key key)) e,
          total-append (run_of_key key) before (run ∷ after),
          total-append (run_of_key key) before after,
          total-append (run_of_key key) (before ++ after)
              (take_payloads r.1 inner.queued_payloads).0,
          total-of_key key (take_payloads r.1 inner.queued_payloads).0 r.1 takes.same_keys,
          load-finish (of_key key) key0 terminal summary inner.state t h v.scheduler,
          v.scheduler.core.sound.running_keys key0 t h,
        );
        counted = ground (
          arith,
          v.counted,
          ap length e,
          ap length takes.same_keys,
          length-append before (run ∷ after),
          length-append before after,
          length-append (before ++ after) (take_payloads r.1 inner.queued_payloads).0,
          length-map (λ (r : ScheduledRun). r.summary.conversation_key)
              (take_payloads r.1 inner.queued_payloads).0,
          length-map (λ (t : TaskSummary). t.conversation_key) r.1,
          total-one r.1,
          load-finish (λ _. 1) key0 terminal summary inner.state t h v.scheduler,
        );
      }
