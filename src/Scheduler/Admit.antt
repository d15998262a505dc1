-- ===== src/Scheduler/Admit.antt =====
-- `admit` keeps the invariant, and what its answer says.
use dog_bot.Common.{
  ℕ, ◌+◌, ◌≤◌, ◌<◌, ◌≡◌, inl, inr, refl, subst, arith, true, false, not, ◌&&◌, ◌||◌, Option, none,
  some, List, [], ◌∷◌, ◌++◌, leb, if◌then◌else◌, unwrap_or, length, is_empty, All, All-append,
  length-append, Bool-cases, Option-cases,
}
use dog_bot.Common.Text.{Text, text_eq, text_eq_iff}
use dog_bot.HashMap.{HashMap, get, insert, contains_key, weigh, len}
use dog_bot.HashMap.Laws.{get-insert, insert-IsDistinct, weigh-insert_new, weigh-insert_old}
use dog_bot.Scheduler.{
  TaskSummary, Answer, start_now, queued_behind, queue_full, SchedulerState, queue_is_empty,
  waiting_count, can_start_now, tasks_ahead_for, push_ready_conversation, enqueue, admit,
}
use dog_bot.Scheduler.Invariant.{is_ready, IsUnique, IsSound, IsValid}

is_ready-append :
    (k j : Text) (ready : List Text)
    → is_ready k (ready ++ j ∷ []) ≡ (is_ready k ready || text_eq j k)
is_ready-append k j [] = ground arith
is_ready-append k j (i ∷ ready) = ground (arith, is_ready-append k j ready)

append-IsUnique :
    (j : Text) (ready : List Text)
    → is_ready j ready ≡ false
    → IsUnique ready
    → IsUnique (ready ++ j ∷ [])
append-IsUnique j [] h u = (refl, tt)
append-IsUnique j (i ∷ ready) h u = (
  ground (arith, is_ready-append i j ready, u.0, text_eq_iff i j, text_eq_iff j i),
  append-IsUnique j ready (ground arith) u.1,
)

start-IsSound :
    (task : TaskSummary) (s : SchedulerState)
    → IsSound s
    → IsSound (record s { running = insert task.conversation_key task s.running })
start-IsSound task s v = record {
  positive = v.positive;
  within = v.within;
  one_running = insert-IsDistinct task.conversation_key task s.running v.one_running;
  one_queue = v.one_queue;
  running_keys = λ k u e. ground (
    arith,
    get-insert task.conversation_key k task s.running,
    v.running_keys k u,
    text_eq_iff task.conversation_key k,
  );
  queued_keys = v.queued_keys;
  queued_full = v.queued_full;
  history = v.history;
}

start-IsValid :
    (task : TaskSummary) (s : SchedulerState)
    → can_start_now s task.conversation_key ≡ true
    → IsValid s
    → IsValid (record s { running = insert task.conversation_key task s.running })
unfolding can_start_now
start-IsValid task s h v =
    let key = task.conversation_key in
    let free : get key s.running ≡ none = ground (arith, Option-cases (get key s.running)) in
    let room : len s.running < s.max_concurrent = ground arith in
    record {
      core = record {
        sound = start-IsSound task s v.core.sound;
        bounded = omega (arith, weigh-insert_new (λ _. 1) key task s.running free, room);
        unique = v.core.unique;
        listed = λ k. ground (
          arith,
          v.core.listed k,
          v.busy room,
          get-insert key k task s.running,
          text_eq_iff key k,
        );
      };
      busy = λ _. v.busy room;
    }

-- The state after a task was queued.
abbrev pub enqueued : TaskSummary → SchedulerState → SchedulerState
enqueued task s =
    let key = task.conversation_key in
    record s {
      queued = enqueue task s.queued;
      ready_conversations =
          if queue_is_empty true key s.queued && not (contains_key key s.running)
          then push_ready_conversation key s.ready_conversations
          else s.ready_conversations;
    }

pub length-enqueue :
    (f : List TaskSummary → ℕ) (task : TaskSummary) (queued : HashMap (List TaskSummary))
    → f [] ≡ 0
    → ((q : List TaskSummary) → f (q ++ task ∷ []) ≡ f q + f (task ∷ []))
    → weigh f (enqueue task queued) ≡ weigh f queued + f (task ∷ [])
length-enqueue f task queued z step = go (get task.conversation_key queued) refl
  where
    go :
        (o : Option (List TaskSummary))
        → get task.conversation_key queued ≡ o
        → weigh f (enqueue task queued) ≡ weigh f queued + f (task ∷ [])
    go none e = rw e (weigh-insert_new f task.conversation_key (task ∷ []) queued e)
    go (some q) e = rw e (
        omega (arith, weigh-insert_old f task.conversation_key (q ++ task ∷ []) q queued e, step q))

-- The old queue of the task's conversation, empty if there was none.
abbrev old_queue : TaskSummary → SchedulerState → List TaskSummary
old_queue task s = unwrap_or (get task.conversation_key s.queued) []

old_queue_keys :
    (task : TaskSummary) (s : SchedulerState)
    → IsSound s
    → All (λ t. t.conversation_key ≡ task.conversation_key) (old_queue task s)
old_queue_keys task s v = go (get task.conversation_key s.queued) refl
  where
    go :
        (o : Option (List TaskSummary))
        → get task.conversation_key s.queued ≡ o
        → All (λ t. t.conversation_key ≡ task.conversation_key) (unwrap_or o [])
    go none e = tt
    go (some q) e = v.queued_keys task.conversation_key q e

enqueue_keys :
    (task : TaskSummary) (s : SchedulerState) (k : Text) (q : List TaskSummary)
    → IsSound s
    → get k (enqueue task s.queued) ≡ some q
    → All (λ t. t.conversation_key ≡ k) q
enqueue_keys task s k q v h = elim (Bool-cases (text_eq task.conversation_key k)) [
  | inl same ↦
      let e : task.conversation_key ≡ k = (text_eq_iff task.conversation_key k).0 same in
      let new : old_queue task s ++ task ∷ [] ≡ q = ground (
        arith,
        h,
        same,
        get-insert task.conversation_key k (old_queue task s ++ task ∷ []) s.queued,
      ) in
      subst (λ xs. All (λ t. t.conversation_key ≡ k) xs) new
        (subst (λ j. All (λ t. t.conversation_key ≡ j) (old_queue task s ++ task ∷ [])) e
          (All-append (λ t. t.conversation_key ≡ task.conversation_key) (old_queue task s)
            (task ∷ []) (old_queue_keys task s v) (refl, tt)))
  | inr other ↦ v.queued_keys k q (
      ground (
        arith,
        h,
        other,
        get-insert task.conversation_key k (old_queue task s ++ task ∷ []) s.queued,
      ))
]

is_empty-append : (q : List TaskSummary) (task : TaskSummary) → is_empty (q ++ task ∷ []) ≡ false
is_empty-append [] task = refl
is_empty-append (x ∷ q) task = refl

enqueued-IsSound :
    (task : TaskSummary) (s : SchedulerState)
    → waiting_count s < s.max_queue_depth
    → IsSound s
    → IsSound (enqueued task s)
enqueued-IsSound task s h v = record {
  positive = v.positive;
  within =
      omega (arith, length-enqueue length task s.queued refl (λ q. length-append q (task ∷ [])), h);
  one_running = v.one_running;
  one_queue = insert-IsDistinct task.conversation_key _ s.queued v.one_queue;
  running_keys = v.running_keys;
  queued_keys = λ k q e. enqueue_keys task s k q v e;
  queued_full = λ k q e. ground (
    arith,
    e,
    get-insert task.conversation_key k (old_queue task s ++ task ∷ []) s.queued,
    v.queued_full k q,
    is_empty-append (old_queue task s) task,
  );
  history = v.history;
}

enqueued-IsValid :
    (task : TaskSummary) (s : SchedulerState)
    → can_start_now s task.conversation_key ≡ false
    → waiting_count s < s.max_queue_depth
    → IsValid s
    → IsValid (enqueued task s)
unfolding can_start_now push_ready_conversation
enqueued-IsValid task s h w v =
    let key = task.conversation_key in
    let ready = s.ready_conversations in
    record {
      core = record {
        sound = enqueued-IsSound task s w v.core.sound;
        bounded = v.core.bounded;
        unique = ground (arith, v.core.unique, append-IsUnique key ready);
        listed = λ k. ground (
          arith,
          v.core.listed k,
          v.core.listed key,
          is_ready-append k key ready,
          get-insert key k (unwrap_or (get key s.queued) [] ++ task ∷ []) s.queued,
          text_eq_iff key k,
        );
      };
      busy = λ room. ground (arith, v.busy room, v.core.listed key, v.core.sound.queued_full key);
    }

-- The three branches of `admit`, each with its test.
pub data Admits (task : TaskSummary) (s : SchedulerState) : SchedulerState × Answer → Type 0 where
  starts :
      can_start_now s task.conversation_key ≡ true
      → Admits task s
          (record s { running = insert task.conversation_key task s.running }, start_now)
  refuses :
      can_start_now s task.conversation_key ≡ false
      → s.max_queue_depth ≤ waiting_count s
      → Admits task s (s, queue_full)
  waits :
      can_start_now s task.conversation_key ≡ false
      → waiting_count s < s.max_queue_depth
      → Admits task s (enqueued task s, queued_behind (tasks_ahead_for s task.conversation_key))

pub admit-Admits : (task : TaskSummary) (s : SchedulerState) → Admits task s (admit task s)
unfolding admit
admit-Admits task s = elim (Bool-cases (can_start_now s task.conversation_key)) [
  | inl now ↦ rw now (starts now)
  | inr later ↦ elim (Bool-cases (leb s.max_queue_depth (waiting_count s))) [
    | inl full ↦ rw (later, full) (refuses later (ground arith))
    | inr room ↦ rw (later, room) (waits later (ground arith))
  ]
]

Admits-IsValid :
    {task : TaskSummary} {s : SchedulerState} {r : SchedulerState × Answer}
    → Admits task s r
    → IsValid s
    → IsValid r.0
Admits-IsValid {task} {s} (starts now) v = start-IsValid task s now v
Admits-IsValid (refuses later full) v = v
Admits-IsValid {task} {s} (waits later room) v = enqueued-IsValid task s later room v

pub admit-IsValid : (task : TaskSummary) (s : SchedulerState) → IsValid s → IsValid (admit task s).0
admit-IsValid task s v = Admits-IsValid (admit-Admits task s) v
