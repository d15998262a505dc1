-- ===== src/Scheduler/Invariant.antt =====
-- What holds of the scheduler between calls, and that `admit` and `finish` keep it.
use dog_bot.Common.{
  ◌≤◌, ◌<◌, ◌≡◌, inl, inr, refl, arith, Bool, true, false, not, ◌&&◌, Option, none, some, List, [],
  ◌∷◌, ◌++◌, ltb, length, is_empty, any, All, Bool-cases, Option-cases,
}
use dog_bot.Common.Text.{Text, text_eq, text_eq_iff, text_eq_refl}
use dog_bot.HashMap.{get, insert, contains_key, len, IsDistinct}
use dog_bot.HashMap.Laws.{get-insert, insert-IsDistinct, weigh-insert_new}
use dog_bot.Scheduler.{
  TaskSummary, SchedulerState, terminal_history_capacity, waiting_count, fill, promote_next,
}
use dog_bot.Scheduler.Queue.{
  popped, get-popped, popped-IsDistinct, weigh-popped, promote_next-none, promote_next-some,
}

abbrev pub is_ready : Text → List Text → Bool
is_ready key ready = any (λ k. text_eq k key) ready

abbrev pub IsUnique : List Text → Type 0
IsUnique [] = Unit
IsUnique (k ∷ ready) = (is_ready k ready ≡ false) × IsUnique ready

-- The part of the invariant that does not speak of the ready list.
pub record IsSound (s : SchedulerState) : Type 0 where
  pub positive : 1 ≤ s.max_concurrent
  pub within : waiting_count s ≤ s.max_queue_depth
  pub one_running : IsDistinct s.running
  pub one_queue : IsDistinct s.queued
  pub running_keys :
      (k : Text) (t : TaskSummary) → get k s.running ≡ some t → t.conversation_key ≡ k
  pub queued_keys :
      (k : Text) (q : List TaskSummary)
      → get k s.queued ≡ some q
      → All (λ t. t.conversation_key ≡ k) q
  pub queued_full : (k : Text) (q : List TaskSummary) → get k s.queued ≡ some q → is_empty q ≡ false
  pub history : length s.recent_terminal ≤ terminal_history_capacity

-- With `ready` for the ready list: it holds just the conversations that wait and do not run.
pub record IsListed (ready : List Text) (s : SchedulerState) : Type 0 where
  pub sound : IsSound s
  pub bounded : len s.running ≤ s.max_concurrent
  pub unique : IsUnique ready
  pub listed :
      (k : Text) → is_ready k ready ≡ (contains_key k s.queued && not (contains_key k s.running))

-- The same while the slot of `key` is free and its queue has not been looked at yet.
pub record IsPending (key : Text) (ready : List Text) (s : SchedulerState) : Type 0 where
  pub sound : IsSound s
  pub room : len s.running < s.max_concurrent
  pub free : get key s.running ≡ none
  pub unique : IsUnique ready
  pub listed :
      (k : Text)
      → is_ready k ready
        ≡ (contains_key k s.queued && not (contains_key k s.running) && not (text_eq key k))

-- Between calls, no slot is free while a conversation waits.
pub record IsValid (s : SchedulerState) : Type 0 where
  pub core : IsListed s.ready_conversations s
  pub busy : len s.running < s.max_concurrent → s.ready_conversations ≡ []

promote_some-IsSound :
    (key : Text) (s : SchedulerState) (t : TaskSummary) (rest : List TaskSummary)
    → IsSound s
    → get key s.running ≡ none
    → get key s.queued ≡ some (t ∷ rest)
    → IsSound (record s {
      queued = popped key rest s.queued;
      running = insert t.conversation_key t s.running;
    })
promote_some-IsSound key s t rest v f h = record {
  positive = v.positive;
  within =
      omega (arith, weigh-popped key rest s.queued length (t ∷ rest) refl v.one_queue h, v.within);
  one_running = insert-IsDistinct t.conversation_key t s.running v.one_running;
  one_queue = popped-IsDistinct key rest s.queued v.one_queue;
  running_keys = λ k u e. ground (
    arith,
    get-insert t.conversation_key k t s.running,
    v.running_keys k u,
    text_eq_iff t.conversation_key k,
  );
  queued_keys = λ k q e. ground (
    arith,
    get-popped key rest s.queued k,
    v.queued_keys k q,
    v.queued_keys key (t ∷ rest) h,
    text_eq_iff key k,
  );
  queued_full =
      λ k q e. ground (arith, get-popped key rest s.queued k, v.queued_full k q, text_eq_iff key k);
  history = v.history;
}

promote_some-IsListed :
    (key : Text) (ready : List Text) (s : SchedulerState) (t : TaskSummary)
    (rest : List TaskSummary)
    → IsPending key ready s
    → get key s.queued ≡ some (t ∷ rest)
    → IsListed ready (record s {
      queued = popped key rest s.queued;
      running = insert t.conversation_key t s.running;
    })
promote_some-IsListed key ready s t rest p h =
    let e : t.conversation_key ≡ key = (p.sound.queued_keys key (t ∷ rest) h).0 in
    record {
      sound = promote_some-IsSound key s t rest p.sound p.free h;
      bounded =
          omega
            (arith, weigh-insert_new (λ _. 1) t.conversation_key t s.running (rw e p.free), p.room);
      unique = p.unique;
      listed = λ k. ground (
        arith,
        p.listed k,
        get-popped key rest s.queued k,
        get-insert t.conversation_key k t s.running,
        e,
        text_eq_iff key k,
        text_eq_iff t.conversation_key k,
      );
    }

pub promote_none-IsListed :
    (key : Text) (ready : List Text) (s : SchedulerState)
    → IsPending key ready s
    → get key s.queued ≡ none
    → IsListed ready s
promote_none-IsListed key ready s p h = record {
  sound = p.sound;
  bounded = omega (arith, p.room);
  unique = p.unique;
  listed = λ k. ground (arith, p.listed k, text_eq_iff key k);
}

-- Taking the next task of the conversation whose slot is free restores the invariant.
pub promote_next-IsListed :
    (key : Text) (ready : List Text) (s : SchedulerState)
    → IsPending key ready s
    → IsListed ready (promote_next key s).0
promote_next-IsListed key ready s p = go (get key s.queued) refl
  where
    go :
        (o : Option (List TaskSummary))
        → get key s.queued ≡ o
        → IsListed ready (promote_next key s).0
    go none e = rw (promote_next-none key s e) (promote_none-IsListed key ready s p e)
    go (some []) e = cc (p.sound.queued_full key [] e)
    go (some (t ∷ rest)) e =
        rw (promote_next-some key s t rest e) (promote_some-IsListed key ready s t rest p e)

set_ready-IsListed :
    (ready : List Text) (s : SchedulerState)
    → IsListed ready s
    → IsListed ready (record s { ready_conversations = ready })
set_ready-IsListed ready s v = record {
  sound = record {
    positive = v.sound.positive;
    within = v.sound.within;
    one_running = v.sound.one_running;
    one_queue = v.sound.one_queue;
    running_keys = v.sound.running_keys;
    queued_keys = v.sound.queued_keys;
    queued_full = v.sound.queued_full;
    history = v.sound.history;
  };
  bounded = v.bounded;
  unique = v.unique;
  listed = v.listed;
}

-- The head of the ready list waits in a queue and has no task running.
pub head-IsPending :
    (key : Text) (ready : List Text) (s : SchedulerState)
    → IsListed (key ∷ ready) s
    → len s.running < s.max_concurrent
    → IsPending key ready s
head-IsPending key ready s v room = record {
  sound = v.sound;
  room = room;
  free = ground (arith, v.listed key, text_eq_refl key, Option-cases (get key s.running));
  unique = v.unique.1;
  listed = λ k. ground (arith, v.listed k, v.unique.0, text_eq_iff key k);
}

module _ (key : Text) (ready : List Text) (s : SchedulerState) where
  pub fill_full :
      ltb (len s.running) s.max_concurrent ≡ false
      → fill (key ∷ ready) s ≡ (record s { ready_conversations = key ∷ ready }, [])
  unfolding fill
  fill_full h = rw (h, fill)

  pub fill_skip :
      (t : TaskSummary)
      → ltb (len s.running) s.max_concurrent ≡ true
      → get key s.running ≡ some t
      → fill (key ∷ ready) s ≡ fill ready s
  unfolding fill
  fill_skip t h g = rw (h, g, fill)

  pub fill_next :
      ltb (len s.running) s.max_concurrent ≡ true
      → get key s.running ≡ none
      → fill (key ∷ ready) s ≡ (
        (fill ready (promote_next key s).0).0,
        (promote_next key s).1 ++ (fill ready (promote_next key s).0).1,
      )
  unfolding fill
  fill_next h g = rw (h, g, fill)

pub fill-IsValid :
    (ready : List Text) (s : SchedulerState) → IsListed ready s → IsValid (fill ready s).0
fill-IsValid [] s v = unfold fill in record { core = set_ready-IsListed [] s v; busy = λ h. refl }
fill-IsValid (key ∷ ready) s v = elim (Bool-cases (ltb (len s.running) s.max_concurrent)) [
  | inl room ↦
      let p = head-IsPending key ready s v (ground arith) in
      rw (fill_next key ready s room p.free)
        (fill-IsValid ready (promote_next key s).0 (promote_next-IsListed key ready s p))
  | inr full ↦
      rw (fill_full key ready s full)
        (record { core = set_ready-IsListed (key ∷ ready) s v; busy = λ h. absurd (ground arith) })
]
