-- ===== src/Scheduler/Carry.antt =====
-- What holds of every task that waits holds of those that `finish` promotes and of those it leaves.
use dog_bot.Common.{
  ◌≡◌, arith, inl, inr, Option, some, List, [], ◌∷◌, ◌++◌, is_empty, ltb, All, All-append,
  unwrap_or, Bool-cases, Option-cases,
}
use dog_bot.Common.Text.{Text, text_eq}
use dog_bot.HashMap.{get, len}
use dog_bot.HashMap.Laws.{get-insert}
use dog_bot.Scheduler.{
  TaskSummary, TerminalState, SchedulerState, fill, retire, promote_next, finish,
}
use dog_bot.Scheduler.Queue.{popped, get-popped, promote_next-none, promote_next-some}
use dog_bot.Scheduler.Invariant.{
  IsListed, IsPending, IsValid, promote_next-IsListed, head-IsPending, fill_full, fill_next,
}
use dog_bot.Scheduler.Finish.{retire_running, finish_split, retire-IsPending}
use dog_bot.Scheduler.Admit.{enqueued}

module _ (P : TaskSummary → Type 0) where
  abbrev pub QueuedAll : SchedulerState → Type 0
  QueuedAll s = (k : Text) (q : List TaskSummary) → get k s.queued ≡ some q → All P q

  abbrev pub Carries : SchedulerState × List TaskSummary → Type 0
  Carries (s, started) = QueuedAll s × All P started

  rest-QueuedAll :
      (key : Text) (t : TaskSummary) (rest : List TaskSummary) (s : SchedulerState)
      → QueuedAll s
      → get key s.queued ≡ some (t ∷ rest)
      → (k : Text) (q : List TaskSummary) → get k (popped key rest s.queued) ≡ some q
      → All P q
  rest-QueuedAll key t rest s h e k q g = elim (Bool-cases (text_eq key k)) [
    | inl same ↦
        let left : rest ≡ q =
          ground (arith, get-popped key rest s.queued k, same, g, Bool-cases (is_empty rest)) in
        rw (← left) (h key (t ∷ rest) e).1
    | inr other ↦ h k q (ground (arith, get-popped key rest s.queued k, other, g))
  ]

  promote_next-Carries :
      (key : Text) (ready : List Text) (s : SchedulerState)
      → IsPending key ready s
      → QueuedAll s
      → Carries (promote_next key s)
  promote_next-Carries key ready s p h = elim (Option-cases (get key s.queued)) [
    | inl e ↦ rw (promote_next-none key s e) (h, tt)
    | inr ([], e) ↦ cc (p.sound.queued_full key [] e)
    | inr (t ∷ rest, e) ↦
        rw (promote_next-some key s t rest e)
          (rest-QueuedAll key t rest s h e, ((h key (t ∷ rest) e).0, tt))
  ]

  fill-Carries :
      (ready : List Text) (s : SchedulerState)
      → IsListed ready s
      → QueuedAll s
      → Carries (fill ready s)
  fill-Carries [] s v h = unfold fill in (h, tt)
  fill-Carries (key ∷ ready) s v h = elim (Bool-cases (ltb (len s.running) s.max_concurrent)) [
    | inl room ↦
        let p = head-IsPending key ready s v (ground arith) in
        let first = promote_next-Carries key ready s p h in
        let rest =
          fill-Carries ready (promote_next key s).0 (promote_next-IsListed key ready s p) first.0 in
        rw (fill_next key ready s room p.free) (
          rest.0,
          All-append P (promote_next key s).1 (fill ready (promote_next key s).0).1 first.1 rest.1,
        )
    | inr full ↦ rw (fill_full key ready s full) (h, tt)
  ]

  pub finish-Carries :
      (key : Text) (terminal : TerminalState) (summary : Option Text) (s : SchedulerState)
      (t : TaskSummary)
      → get key s.running ≡ some t
      → IsValid s
      → QueuedAll s
      → Carries (finish key terminal summary s)
  finish-Carries key terminal summary s t e v h =
      let p = retire-IsPending key terminal summary s t e v in
      let r = retire key terminal summary s in
      let kept : QueuedAll r = rw (retire_running key terminal summary s t e) h in
      let first = promote_next-Carries key s.ready_conversations r p kept in
      let rest =
        fill-Carries s.ready_conversations (promote_next key r).0 (promote_next-IsListed key _ r p)
          first.0 in
      rw (finish_split key terminal summary s) (
        rest.0,
        All-append P (promote_next key r).1 (fill s.ready_conversations (promote_next key r).0).1
            first.1 rest.1,
      )

  pub enqueued-QueuedAll :
      (task : TaskSummary) (s : SchedulerState) → P task → QueuedAll s → QueuedAll (enqueued task s)
  enqueued-QueuedAll task s p h k q g =
      let key = task.conversation_key in
      let queue = unwrap_or (get key s.queued) [] in
      elim (Bool-cases (text_eq key k)) [
        | inl same ↦
            let longer : queue ++ task ∷ [] ≡ q =
              ground (arith, get-insert key k (queue ++ task ∷ []) s.queued, same, g) in
            rw (← longer) (All-append P queue (task ∷ []) (old key) (p, tt))
        | inr other ↦
            h k q (ground (arith, get-insert key k (queue ++ task ∷ []) s.queued, other, g))
      ]
    where
      old : (key : Text) → All P (unwrap_or (get key s.queued) [])
      old key = elim (Option-cases (get key s.queued)) [
        | inl e ↦ rw e tt
        | inr (waiting, e) ↦ rw e (h key waiting e)
      ]
