-- ===== src/Runs/Waiting.antt =====
-- The runs that wait for a conversation, with their payloads.
use dog_bot.Common.{
  ◌≡◌, refl, sym, ap, ◌∙◌, arith, inl, inr, Bool, true, Option, none, some, List, [], ◌∷◌, ◌++◌,
  map, keep, filter_some, filter_some-some, All, if◌then◌else◌, Bool-cases, Option-cases,
}
use mathlib.Core.List.{append-nil}
use dog_bot.Common.Text.{Text, text_eq, text_eq_iff}
use dog_bot.HashMap.{HashMap, get, insert}
use dog_bot.HashMap.Laws.{get-insert, get-insert_self}
use dog_bot.Scheduler.{TaskSummary, TerminalState, SchedulerState, finish, can_start_now}
use dog_bot.Scheduler.Invariant.{IsValid}
use dog_bot.Scheduler.Admit.{enqueued}
use dog_bot.Scheduler.Order.{line, belongs, finish_in_order}
use dog_bot.Runs.{ScheduledRun, RunSchedulerInner, take_payloads, complete}
use dog_bot.Runs.Valid.{IsConsistent, spawned_runs}
use dog_bot.Runs.Identity.{Kept, AllKept, promoted_own, complete-AllKept}

abbrev pub of_conversation : Text → ScheduledRun → Bool
of_conversation k r = belongs k r.summary

-- The run that is stored for a task.
abbrev pub stored_run : HashMap ScheduledRun → TaskSummary → Option ScheduledRun
stored_run m t = get t.task_id m

-- The runs that wait for a conversation, oldest first.
abbrev pub waiting_runs : Text → RunSchedulerInner → List ScheduledRun
waiting_runs k inner = filter_some (stored_run inner.queued_payloads) (line k inner.state)

filter_some-append {ℓ} :
    {A B : Type ℓ} (f : A → Option B) (xs ys : List A)
    → filter_some f (xs ++ ys) ≡ filter_some f xs ++ filter_some f ys
filter_some-append f [] ys = refl
filter_some-append f (x ∷ xs) ys = ground (arith, filter_some-append f xs ys)

-- A part of the map that keeps the payloads of some tasks answers for them as the whole.
stored_runs_same :
    (m' m : HashMap ScheduledRun) (ts : List TaskSummary)
    → ((t : TaskSummary) → Kept m' t → stored_run m' t ≡ stored_run m t)
    → All (Kept m') ts
    → filter_some (stored_run m') ts ≡ filter_some (stored_run m) ts
stored_runs_same m' m [] w k = refl
stored_runs_same m' m (t ∷ ts) w (k, ks) = ground (arith, w t k, stored_runs_same m' m ts w ks)

-- The spawned runs of a conversation are those stored for its promoted tasks.
spawned_of :
    (k : Text) (m : HashMap ScheduledRun) (runs : List ScheduledRun)
    → All (λ (r : ScheduledRun). get r.summary.task_id m ≡ some r) runs
    → keep (of_conversation k) runs
      ≡ filter_some (stored_run m) (keep (belongs k) (map (λ (r : ScheduledRun). r.summary) runs))
spawned_of k m [] h = refl
spawned_of k m (r ∷ runs) h = elim (Bool-cases (of_conversation k r)) [
  | inl e ↦
      let others = keep (belongs k) (map (λ (r : ScheduledRun). r.summary) runs) in
      rw e (
        ap (λ l. r ∷ l) (spawned_of k m runs h.1)
        ∙ sym (filter_some-some (stored_run m) r.summary others r h.0))
  | inr e ↦ rw e (spawned_of k m runs h.1)
]

line-Kept :
    (k : Text) (inner : RunSchedulerInner)
    → AllKept inner
    → All (Kept inner.queued_payloads) (line k inner.state)
line-Kept k inner h = elim (Option-cases (get k inner.state.queued)) [
  | inl e ↦ rw e tt
  | inr (q, e) ↦ rw e (h k q e)
]

module _ (before : List ScheduledRun) (run : ScheduledRun) (after : List ScheduledRun)
    (terminal : TerminalState) (summary : Option Text) (inner : RunSchedulerInner)
    (v : IsConsistent inner) (h : AllKept inner) (e : inner.active ≡ before ++ run ∷ after) where
  abbrev pub ended : RunSchedulerInner × List ScheduledRun
  ended = complete before run after terminal summary inner

  ended_keeps :
      (k : Text)
      → waiting_runs k ended.0
        ≡ filter_some (stored_run inner.queued_payloads) (line k ended.0.state)
  unfolding complete
  ended_keeps k =
      stored_runs_same ended.0.queued_payloads inner.queued_payloads (line k ended.0.state)
        (λ t kept.
          kept.stored
          ∙ sym (
              (promoted_own before run after terminal summary inner v h e).rest t.task_id kept.run
                kept.stored))
        (line-Kept k ended.0 (complete-AllKept before run after terminal summary inner v h e))

  -- What is spawned of a conversation, and behind it what still waits, is what waited.
  pub complete_in_order :
      (k : Text) → keep (of_conversation k) ended.1 ++ waiting_runs k ended.0 ≡ waiting_runs k inner
  complete_in_order k =
      let own = promoted_own before run after terminal summary inner v h e in
      let (t, found) = spawned_runs before run after inner v e in
      let look = stored_run inner.queued_payloads in
      let r = finish run.summary.conversation_key terminal summary inner.state in
      let spawned : keep (of_conversation k) ended.1 ≡ filter_some look (keep (belongs k) r.1) =
        unfold complete in
        spawned_of k inner.queued_payloads (take_payloads r.1 inner.queued_payloads).0 own.stored
        ∙ ap (λ ts. filter_some look (keep (belongs k) ts)) own.summaries in
      let left : waiting_runs k ended.0 ≡ filter_some look (line k r.0) =
        unfold complete in ended_keeps k in
      rw (spawned, left)
        (sym (filter_some-append look (keep (belongs k) r.1) (line k r.0))
          ∙ ap (filter_some look) (
              finish_in_order run.summary.conversation_key terminal summary inner.state t k found
                v.scheduler))

abbrev pub keeps_of : Text → List ScheduledRun → List ScheduledRun
keeps_of k = keep (of_conversation k)

line-enqueued :
    (k : Text) (task : TaskSummary) (s : SchedulerState)
    → line k (enqueued task s)
      ≡ (if text_eq task.conversation_key k then line k s ++ task ∷ [] else line k s)
line-enqueued k task s = ground (
  arith,
  get-insert task.conversation_key k (line task.conversation_key s ++ task ∷ []) s.queued,
  text_eq_iff task.conversation_key k,
)

-- A conversation whose run starts at once has none that waits.
pub started_first :
    (k : Text) (run : ScheduledRun) (inner : RunSchedulerInner)
    → IsValid inner.state
    → can_start_now inner.state run.summary.conversation_key ≡ true
    → keeps_of k (run ∷ []) ++ waiting_runs k inner ≡ waiting_runs k inner ++ keeps_of k (run ∷ [])
unfolding can_start_now
started_first k run inner v now = elim (Bool-cases (of_conversation k run)) [
  | inl e ↦
      let same : run.summary.conversation_key ≡ k =
        (text_eq_iff run.summary.conversation_key k).0 e in
      rw (e, none_waits (get k inner.state.queued) refl same) refl
  | inr e ↦ rw e (sym (append-nil (waiting_runs k inner)))
]
  where
    none_waits :
        (o : Option (List TaskSummary))
        → get k inner.state.queued ≡ o
        → run.summary.conversation_key ≡ k
        → waiting_runs k inner ≡ []
    none_waits none f same = rw f refl
    none_waits (some []) f same = rw f refl
    none_waits (some (t ∷ q)) f same = absurd (ground (arith, now, f, same))

module _ (run : ScheduledRun) (inner : RunSchedulerInner) (h : AllKept inner)
    (fresh : get run.summary.task_id inner.queued_payloads ≡ none) where
  abbrev pub more_payloads : HashMap ScheduledRun
  more_payloads = insert run.summary.task_id run inner.queued_payloads

  old_waiting :
      (k : Text)
      → filter_some (stored_run more_payloads) (line k inner.state) ≡ waiting_runs k inner
  old_waiting k = sym (
      stored_runs_same inner.queued_payloads more_payloads (line k inner.state)
        (λ t kept. ground (
          arith,
          kept.stored,
          fresh,
          get-insert run.summary.task_id t.task_id run inner.queued_payloads,
          text_eq_iff run.summary.task_id t.task_id,
        ))
        (line-Kept k inner h))

  pub waiting-enqueued :
      (k : Text)
      → filter_some (stored_run more_payloads) (line k (enqueued run.summary inner.state))
        ≡ waiting_runs k inner ++ keeps_of k (run ∷ [])
  waiting-enqueued k = elim (Bool-cases (of_conversation k run)) [
    | inl e ↦
        let found : stored_run more_payloads run.summary ≡ some run =
          get-insert_self run.summary.task_id run inner.queued_payloads in
        rw (line-enqueued k run.summary inner.state, e)
          (filter_some-append (stored_run more_payloads) (line k inner.state) (run.summary ∷ [])
            ∙ rw
                (
                  old_waiting k,
                  filter_some-some (stored_run more_payloads) run.summary [] run found,
                )
                refl)
    | inr e ↦
        rw (line-enqueued k run.summary inner.state, e)
          (old_waiting k ∙ sym (append-nil (waiting_runs k inner)))
  ]
