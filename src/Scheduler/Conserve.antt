-- ===== src/Scheduler/Conserve.antt =====
-- `finish` moves tasks from the queues to the running map, and loses or makes up none.
use dog_bot.Common.{
  ℕ, ◌+◌, ◌≡◌, inl, inr, refl, arith, Option, none, some, List, [], ◌∷◌, ltb, total, total-append,
  Bool-cases, Option-cases,
}
use dog_bot.Common.Text.{Text}
use dog_bot.HashMap.{get, weigh, len}
use dog_bot.HashMap.Laws.{weigh-insert_new, weigh-remove}
use dog_bot.Scheduler.{
  TaskSummary, Answer, start_now, queued_behind, queue_full, TerminalState, SchedulerState,
  can_start_now, admit, fill, retire, promote_next, finish,
}
use dog_bot.Scheduler.Queue.{weigh-popped, promote_next-none, promote_next-some}
use dog_bot.Scheduler.Invariant.{
  IsListed, IsPending, IsValid, promote_next-IsListed, head-IsPending, fill_full, fill_next,
}
use dog_bot.Scheduler.Finish.{retire_running, finish_split, retire-IsPending}
use dog_bot.Scheduler.Admit.{length-enqueue, Admits, starts, refuses, waits, admit-Admits}

module _ (w : TaskSummary → ℕ) where
  -- The weight of all tasks that run or wait. With `w` the test of one task, it counts that task.
  abbrev pub load : SchedulerState → ℕ
  load s = weigh w s.running + weigh (total w) s.queued

  promote_next-load :
      (key : Text) (ready : List Text) (s : SchedulerState)
      → IsPending key ready s
      → (load (promote_next key s).0 ≡ load s)
        × (weigh (total w) (promote_next key s).0.queued + total w (promote_next key s).1
            ≡ weigh (total w) s.queued)
  promote_next-load key ready s p = go (get key s.queued) refl
    where
      go :
          (o : Option (List TaskSummary))
          → get key s.queued ≡ o
          → (load (promote_next key s).0 ≡ load s)
            × (weigh (total w) (promote_next key s).0.queued + total w (promote_next key s).1
                ≡ weigh (total w) s.queued)
      go none e = rw (promote_next-none key s e) (omega arith)
      go (some []) e = cc (p.sound.queued_full key [] e)
      go (some (t ∷ rest)) e =
          let k : t.conversation_key ≡ key = (p.sound.queued_keys key (t ∷ rest) e).0 in
          rw (promote_next-some key s t rest e) (
            omega (
              arith,
              weigh-insert_new w t.conversation_key t s.running (rw k p.free),
              weigh-popped key rest s.queued (total w) (t ∷ rest) refl p.sound.one_queue e,
            ))

  fill-load :
      (ready : List Text) (s : SchedulerState)
      → IsListed ready s
      → (load (fill ready s).0 ≡ load s)
        × (weigh (total w) (fill ready s).0.queued + total w (fill ready s).1
            ≡ weigh (total w) s.queued)
  fill-load [] s v = unfold fill in omega arith
  fill-load (key ∷ ready) s v = elim (Bool-cases (ltb (len s.running) s.max_concurrent)) [
    | inl room ↦
        let p = head-IsPending key ready s v (ground arith) in
        rw (fill_next key ready s room p.free) (
          omega (
            arith,
            promote_next-load key ready s p,
            fill-load ready (promote_next key s).0 (promote_next-IsListed key ready s p),
            total-append w (promote_next key s).1 (fill ready (promote_next key s).0).1,
          ))
    | inr full ↦ rw (fill_full key ready s full) (omega arith)
  ]

  retire-load :
      (key : Text) (terminal : TerminalState) (summary : Option Text) (s : SchedulerState)
      (t : TaskSummary)
      → get key s.running ≡ some t
      → IsValid s
      → (load (retire key terminal summary s) + w t ≡ load s)
        × (weigh (total w) (retire key terminal summary s).queued ≡ weigh (total w) s.queued)
  retire-load key terminal summary s t h v =
      rw (retire_running key terminal summary s t h)
        (omega (arith, weigh-remove w key t s.running v.core.sound.one_running h))

  -- When the task `t` that runs for `key` finishes, the weight of the tasks that run or wait falls by that of `t`, and what the queues lose is what is promoted.
  pub load-finish :
      (key : Text) (terminal : TerminalState) (summary : Option Text) (s : SchedulerState)
      (t : TaskSummary)
      → get key s.running ≡ some t
      → IsValid s
      → (load (finish key terminal summary s).0 + w t ≡ load s)
        × (weigh (total w) (finish key terminal summary s).0.queued
              + total w (finish key terminal summary s).1
            ≡ weigh (total w) s.queued)
  load-finish key terminal summary s t h v =
      let p = retire-IsPending key terminal summary s t h v in
      rw (finish_split key terminal summary s) (
        omega (
          arith,
          retire-load key terminal summary s t h v,
          promote_next-load key s.ready_conversations _ p,
          fill-load s.ready_conversations _ (promote_next-IsListed key _ _ p),
          total-append w (promote_next key (retire key terminal summary s)).1
              (fill s.ready_conversations (promote_next key (retire key terminal summary s)).0).1,
        ))

  -- The weight that a call of `admit` adds: that of the task, unless the queue is full.
  abbrev pub admitted : TaskSummary → Answer → ℕ
  admitted task start_now = w task
  admitted task (queued_behind n) = w task
  admitted task queue_full = 0

  Admits-load :
      {task : TaskSummary} {s : SchedulerState} {r : SchedulerState × Answer}
      → Admits task s r
      → IsValid s
      → load r.0 ≡ load s + admitted task r.1
  Admits-load {task} {s} (starts now) v = omega (
    arith,
    weigh-insert_new w task.conversation_key task s.running (
        unfold can_start_now in ground (arith, Option-cases (get task.conversation_key s.running))),
  )
  Admits-load (refuses later full) v = omega arith
  Admits-load {task} {s} (waits later room) v =
      omega (arith, length-enqueue (total w) task s.queued refl (λ q. total-append w q (task ∷ [])))

  -- A task that is admitted is added once, and one that is refused is not added.
  pub load-admit :
      (task : TaskSummary) (s : SchedulerState)
      → IsValid s
      → load (admit task s).0 ≡ load s + admitted task (admit task s).1
  load-admit task s v = Admits-load (admit-Admits task s) v
