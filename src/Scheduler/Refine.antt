-- ===== src/Scheduler/Refine.antt =====
-- The scheduler as one queue for each conversation: the task that runs, and behind it those that wait.
use dog_bot.Common.{
  ◌≡◌, inl, inr, refl, ap, ◌∙◌, arith, Bool, true, false, Option, none, some, List, [], ◌∷◌, ◌++◌,
  drop_front, is_empty, ltb, if◌then◌else◌, unwrap_or, Bool-cases, Option-cases,
}
use dog_bot.Common.Text.{Text, text_eq, text_eq_iff}
use dog_bot.HashMap.{get, insert, len}
use dog_bot.HashMap.Laws.{get-insert, get-remove}
use dog_bot.Scheduler.{
  TaskSummary, TerminalState, SchedulerState, Answer, start_now, queued_behind, queue_full, admit,
  fill, retire, promote_next, finish, can_start_now,
}
use dog_bot.Scheduler.Queue.{get-popped, promote_next-none, promote_next-some}
use dog_bot.Scheduler.Invariant.{
  IsListed, IsPending, IsValid, promote_next-IsListed, head-IsPending, fill_full, fill_next,
}
use dog_bot.Scheduler.Finish.{retire_running, finish_split, retire-IsPending}
use dog_bot.Scheduler.Admit.{Admits, starts, waits, refuses, enqueued, admit-Admits}
use dog_bot.Scheduler.Order.{line}
use dog_bot.Scheduler.History.{Step, admits, finishes}

-- The task that runs, if one does, in front of those that wait.
abbrev pub with_running : Option TaskSummary → List TaskSummary → List TaskSummary
with_running none waiting = waiting
with_running (some t) waiting = t ∷ waiting

abbrev pub view : SchedulerState → Text → List TaskSummary
view s k = with_running (get k s.running) (line k s)

-- What a call does to the queues: a task that is accepted or turned away, or the end of the task in front of a queue.
pub data Label : Type 0 where
  arrives : TaskSummary → Bool → Label
  ends : Text → Label

-- The abstract scheduler: a queue for each conversation. A task that is accepted joins the end of its own queue, one that is turned away changes nothing, and a task that ends leaves the front of its queue.
pub data FifoStep (before after : Text → List TaskSummary) : Label → Type 0 where
  join :
      (t : TaskSummary)
      → ((k : Text)
          → after k ≡ (if text_eq t.conversation_key k then before k ++ t ∷ [] else before k))
      → FifoStep before after (arrives t true)
  refuse :
      (t : TaskSummary)
      → ((k : Text) → after k ≡ before k)
      → FifoStep before after (arrives t false)
  leave :
      (key : Text)
      → is_empty (before key) ≡ false
      → ((k : Text) → after k ≡ (if text_eq key k then drop_front (before k) else before k))
      → FifoStep before after (ends key)

view-promote_next :
    (key : Text) (ready : List Text) (s : SchedulerState) (k : Text)
    → IsPending key ready s
    → view (promote_next key s).0 k ≡ view s k
view-promote_next key ready s k p = go (get key s.queued) refl
  where
    go :
        (o : Option (List TaskSummary))
        → get key s.queued ≡ o
        → view (promote_next key s).0 k ≡ view s k
    go none e = rw (promote_next-none key s e) refl
    go (some []) e = cc (p.sound.queued_full key [] e)
    go (some (t ∷ rest)) e =
        let h : t.conversation_key ≡ key = (p.sound.queued_keys key (t ∷ rest) e).0 in
        rw (promote_next-some key s t rest e) (
          ground (
            arith,
            e,
            h,
            p.free,
            get-popped key rest s.queued k,
            get-insert t.conversation_key k t s.running,
            text_eq_iff key k,
            text_eq_iff t.conversation_key k,
          ))

view-fill :
    (k : Text) (ready : List Text) (s : SchedulerState)
    → IsListed ready s
    → view (fill ready s).0 k ≡ view s k
view-fill k [] s v = unfold fill in refl
view-fill k (key ∷ ready) s v = elim (Bool-cases (ltb (len s.running) s.max_concurrent)) [
  | inl room ↦
      let p = head-IsPending key ready s v (ground arith) in
      rw (fill_next key ready s room p.free) (
        view-fill k ready (promote_next key s).0 (promote_next-IsListed key ready s p)
        ∙ view-promote_next key ready s k p)
  | inr full ↦ rw (fill_full key ready s full) refl
]

view-retire :
    (key : Text) (terminal : TerminalState) (summary : Option Text) (s : SchedulerState)
    (t : TaskSummary) (k : Text)
    → get key s.running ≡ some t
    → view (retire key terminal summary s) k
      ≡ (if text_eq key k then drop_front (view s k) else view s k)
view-retire key terminal summary s t k h =
    rw (retire_running key terminal summary s t h)
      (ground (arith, h, get-remove key k s.running, text_eq_iff key k))

view-finish :
    (key : Text) (terminal : TerminalState) (summary : Option Text) (s : SchedulerState)
    (t : TaskSummary) (k : Text)
    → get key s.running ≡ some t
    → IsValid s
    → view (finish key terminal summary s).0 k
      ≡ (if text_eq key k then drop_front (view s k) else view s k)
view-finish key terminal summary s t k h v =
    let p = retire-IsPending key terminal summary s t h v in
    let r = retire key terminal summary s in
    rw (finish_split key terminal summary s) (
      view-fill k s.ready_conversations (promote_next key r).0 (promote_next-IsListed key _ r p)
      ∙ (view-promote_next key s.ready_conversations r k p
          ∙ view-retire key terminal summary s t k h))

abbrev pub is_accepted : Answer → Bool
is_accepted start_now = true
is_accepted (queued_behind n) = true
is_accepted queue_full = false

abbrev pub label : {s s' : SchedulerState} → Step s s' → Label
label {s} (admits task) = arrives task (is_accepted (admit task s).1)
label (finishes key terminal summary t h) = ends key

-- A task starts at once only where nothing of its conversation runs or waits.
start_view :
    (task : TaskSummary) (s : SchedulerState) (k : Text)
    → IsValid s
    → can_start_now s task.conversation_key ≡ true
    → view (record s { running = insert task.conversation_key task s.running }) k
      ≡ (if text_eq task.conversation_key k then view s k ++ task ∷ [] else view s k)
unfolding can_start_now
start_view task s k v h = go (get task.conversation_key s.queued) refl
  where
    go :
        (o : Option (List TaskSummary))
        → get task.conversation_key s.queued ≡ o
        → view (record s { running = insert task.conversation_key task s.running }) k
          ≡ (if text_eq task.conversation_key k then view s k ++ task ∷ [] else view s k)
    go none e = ground (
      arith,
      e,
      h,
      get-insert task.conversation_key k task s.running,
      Option-cases (get task.conversation_key s.running),
      text_eq_iff task.conversation_key k,
    )
    go (some []) e = cc (v.core.sound.queued_full task.conversation_key [] e)
    go (some (t ∷ q)) e = absurd (ground (arith, e, h))

with_running-append :
    (o : Option TaskSummary) (q : List TaskSummary) (t : TaskSummary)
    → with_running o (q ++ t ∷ []) ≡ with_running o q ++ t ∷ []
with_running-append none q t = refl
with_running-append (some u) q t = refl

wait_view :
    (task : TaskSummary) (s : SchedulerState) (k : Text)
    → view (enqueued task s) k
      ≡ (if text_eq task.conversation_key k then view s k ++ task ∷ [] else view s k)
wait_view task s k =
    ap (λ o. with_running (get k s.running) (unwrap_or o []))
      (get-insert task.conversation_key k (line task.conversation_key s ++ task ∷ []) s.queued)
    ∙ elim (Bool-cases (text_eq task.conversation_key k)) [
      | inl e ↦
          let same : task.conversation_key ≡ k = (text_eq_iff task.conversation_key k).0 e in
          rw e (
            ap (λ j. with_running (get k s.running) (line j s ++ task ∷ [])) same
            ∙ with_running-append (get k s.running) (line k s) task)
      | inr e ↦ rw e refl
    ]

Admits-FifoStep :
    {task : TaskSummary} {s : SchedulerState} {r : SchedulerState × Answer}
    → Admits task s r
    → IsValid s
    → FifoStep (view s) (view r.0) (arrives task (is_accepted r.1))
Admits-FifoStep {task} {s} (starts h) v = join task (λ k. start_view task s k v h)
Admits-FifoStep {task} {s} (refuses h full) v = refuse task (λ k. refl)
Admits-FifoStep {task} {s} (waits h room) v = join task (λ k. wait_view task s k)

-- The scheduler refines one first-in-first-out queue for each conversation, with the running task in front: a task that `admit` accepts joins the end of the queue of its conversation and no other changes, a task that it turns away changes none, and `finish` takes the front of the queue of its conversation and leaves every other as it is, whatever it promotes.
pub Step-FifoStep :
    {s s' : SchedulerState} (st : Step s s') → IsValid s → FifoStep (view s) (view s') (label st)
Step-FifoStep {s} (admits task) v = Admits-FifoStep (admit-Admits task s) v
Step-FifoStep {s} (finishes key terminal summary t h) v =
    leave key (rw h refl) (λ k. view-finish key terminal summary s t k h v)
