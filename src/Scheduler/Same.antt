-- ===== src/Scheduler/Same.antt =====
-- States of which the maps have the same entries, in whatever order: what they count, and the promotion
-- of a task.
use dog_bot.Common.{◌≡◌, refl, sym, ◌∙◌, arith, inl, inr, List, [], ◌∷◌, length, Option-cases}
use dog_bot.Common.Text.{Text}
use dog_bot.HashMap.{HashMap, get, insert, remove, len, IsDistinct}
use dog_bot.HashMap.Laws.{insert-IsDistinct, remove-IsDistinct}
use dog_bot.HashMap.Same.{SameMap, insert-SameMap, remove-SameMap, weigh-SameMap}
use dog_bot.Scheduler.{
  TaskSummary, SchedulerState, waiting_count, can_start_now, tasks_ahead_for, promote_next,
}
use dog_bot.Scheduler.Queue.{
  popped, get-popped, popped-IsDistinct, promote_next-none, promote_next-empty, promote_next-some,
}
use dog_bot.Scheduler.Sorting.{IsKeyed, insert-IsKeyed}

pub record Same (s s' : SchedulerState) : Type 0 where
  pub concurrent : s.max_concurrent ≡ s'.max_concurrent
  pub depth : s.max_queue_depth ≡ s'.max_queue_depth
  pub running : SameMap s.running s'.running
  pub queued : SameMap s.queued s'.queued
  pub ready : s.ready_conversations ≡ s'.ready_conversations
  pub recent : s.recent_terminal ≡ s'.recent_terminal

-- What the maps of a state always satisfy: one entry for a key, and each running task under its own
-- conversation.
pub record IsStored (s : SchedulerState) : Type 0 where
  pub one_running : IsDistinct s.running
  pub one_queue : IsDistinct s.queued
  pub keyed : IsKeyed s.running

-- The same state afterwards, and the same result.
abbrev pub SameResult {ℓ} : {A : Type ℓ} → SchedulerState × A → SchedulerState × A → Type ℓ
SameResult (s, a) (s', a') = Same s s' × (a ≡ a')

module _ (s s' : SchedulerState) (same : Same s s') (v : IsStored s) (v' : IsStored s') where
  pub waiting-Same : waiting_count s ≡ waiting_count s'
  waiting-Same = weigh-SameMap length s.queued s'.queued v.one_queue v'.one_queue same.queued

  pub len-Same : len s.running ≡ len s'.running
  len-Same = weigh-SameMap (λ _. 1) s.running s'.running v.one_running v'.one_running same.running

  pub can_start-Same : (key : Text) → can_start_now s key ≡ can_start_now s' key
  unfolding can_start_now
  can_start-Same key = ground (arith, len-Same, same.concurrent, same.running key, same.queued key)

  pub ahead-Same : (key : Text) → tasks_ahead_for s key ≡ tasks_ahead_for s' key
  unfolding tasks_ahead_for
  ahead-Same key = ground (arith, len-Same, waiting-Same, same.running key, same.queued key)

pub start-IsStored :
    (t : TaskSummary) (s : SchedulerState)
    → IsStored s
    → IsStored (record s { running = insert t.conversation_key t s.running })
start-IsStored t s v = record {
  one_running = insert-IsDistinct t.conversation_key t s.running v.one_running;
  one_queue = v.one_queue;
  keyed = insert-IsKeyed t s.running v.keyed;
}

pub set_queued-IsStored :
    (queued : HashMap (List TaskSummary)) (s : SchedulerState)
    → IsDistinct queued
    → IsStored s
    → IsStored (record s { queued = queued })
set_queued-IsStored queued s d v = record {
  one_running = v.one_running;
  one_queue = d;
  keyed = v.keyed;
}

pub promote_next-IsStored :
    (key : Text) (s : SchedulerState) → IsStored s → IsStored (promote_next key s).0
promote_next-IsStored key s v = elim (Option-cases (get key s.queued)) [
  | inl e ↦ rw (promote_next-none key s e) v
  | inr ([], e) ↦
      rw (promote_next-empty key s e)
        (set_queued-IsStored (remove key s.queued) s (remove-IsDistinct key s.queued v.one_queue) v)
  | inr (t ∷ rest, e) ↦ rw (promote_next-some key s t rest e) (
      start-IsStored t _ (
        set_queued-IsStored (popped key rest s.queued) s
          (popped-IsDistinct key rest s.queued v.one_queue) v))
]

popped-SameMap :
    (key : Text) (rest : List TaskSummary) (s s' : SchedulerState)
    → Same s s'
    → SameMap (popped key rest s.queued) (popped key rest s'.queued)
popped-SameMap key rest s s' same k =
    ground (arith, get-popped key rest s.queued k, get-popped key rest s'.queued k, same.queued k)

pub promote_next-Same :
    (key : Text) (s s' : SchedulerState)
    → Same s s'
    → SameResult (promote_next key s) (promote_next key s')
promote_next-Same key s s' same = elim (Option-cases (get key s.queued)) [
  | inl e ↦
      rw (promote_next-none key s e, promote_next-none key s' (sym (same.queued key) ∙ e))
        (same, refl)
  | inr ([], e) ↦
      rw (promote_next-empty key s e, promote_next-empty key s' (sym (same.queued key) ∙ e))
        (
          record {
            concurrent = same.concurrent;
            depth = same.depth;
            running = same.running;
            queued = remove-SameMap key s.queued s'.queued same.queued;
            ready = same.ready;
            recent = same.recent;
          },
          refl,
        )
  | inr (t ∷ rest, e) ↦
      rw
        (
          promote_next-some key s t rest e,
          promote_next-some key s' t rest (sym (same.queued key) ∙ e),
        )
        (
          record {
            concurrent = same.concurrent;
            depth = same.depth;
            running = insert-SameMap t.conversation_key t s.running s'.running same.running;
            queued = popped-SameMap key rest s s' same;
            ready = same.ready;
            recent = same.recent;
          },
          refl,
        )
]

pub set_ready-Same :
    (ready : List Text) (s s' : SchedulerState)
    → Same s s'
    → Same (record s { ready_conversations = ready }) (record s' { ready_conversations = ready })
set_ready-Same ready s s' same = record {
  concurrent = same.concurrent;
  depth = same.depth;
  running = same.running;
  queued = same.queued;
  ready = refl;
  recent = same.recent;
}

pub set_ready-IsStored :
    (ready : List Text) (s : SchedulerState)
    → IsStored s
    → IsStored (record s { ready_conversations = ready })
set_ready-IsStored ready s v = record {
  one_running = v.one_running;
  one_queue = v.one_queue;
  keyed = v.keyed;
}
