-- ===== src/Scheduler/Snapshot.antt =====
-- The snapshot lists the running tasks in the order of their conversation keys.
use dog_bot.Common.{◌≡◌, inl, inr, refl, sym, arith, true, List, [], ◌∷◌, length, Bool-cases}
use dog_bot.Common.Text.{text_leb, text_leb_total}
use dog_bot.HashMap.{HashMap, weigh, len, values}
use dog_bot.Scheduler.{
  TaskSummary, SchedulerState, waiting_count, insert_sorted, sort_by_key, snapshot,
}
use mathlib.Core.List.{Perm}
use mathlib.Core.List.Perm

-- Neighbours are in order.
abbrev pub IsSorted : List TaskSummary → Type 0
IsSorted [] = Unit
IsSorted (t ∷ []) = Unit
IsSorted (t ∷ u ∷ us) = (text_leb t.conversation_key u.conversation_key ≡ true) × IsSorted (u ∷ us)

insert_sorted-IsSorted :
    (t : TaskSummary) (us : List TaskSummary) → IsSorted us → IsSorted (insert_sorted t us)
unfolding insert_sorted
insert_sorted-IsSorted t [] h = tt
insert_sorted-IsSorted t (u ∷ []) h =
    ground (arith, text_leb_total t.conversation_key u.conversation_key)
insert_sorted-IsSorted t (u ∷ v ∷ us) h = ground (
  arith,
  text_leb_total t.conversation_key u.conversation_key,
  text_leb_total t.conversation_key v.conversation_key,
  insert_sorted-IsSorted t (v ∷ us),
)

sort_by_key-IsSorted : (ts : List TaskSummary) → IsSorted (sort_by_key ts)
unfolding sort_by_key
sort_by_key-IsSorted [] = tt
sort_by_key-IsSorted (t ∷ ts) = insert_sorted-IsSorted t (sort_by_key ts) (sort_by_key-IsSorted ts)

insert_sorted-perm : (t : TaskSummary) (us : List TaskSummary) → Perm (insert_sorted t us) (t ∷ us)
unfolding insert_sorted
insert_sorted-perm t [] = Perm.refl (t ∷ [])
insert_sorted-perm t (u ∷ us) = elim (Bool-cases (text_leb t.conversation_key u.conversation_key)) [
  | inl h ↦ rw (h, insert_sorted) (Perm.refl (t ∷ u ∷ us))
  | inr h ↦
      rw (h, insert_sorted) (Perm.trans (Perm.cons u (insert_sorted-perm t us)) (Perm.swap t u us))
]

sort_by_key-perm : (ts : List TaskSummary) → Perm (sort_by_key ts) ts
unfolding sort_by_key
sort_by_key-perm [] = Perm.refl []
sort_by_key-perm (t ∷ ts) =
    Perm.trans (insert_sorted-perm t (sort_by_key ts)) (Perm.cons t (sort_by_key-perm ts))

length-values : (m : HashMap TaskSummary) → length (values m) ≡ len m
unfolding values weigh
length-values [] = refl
length-values ((k, t) ∷ m) = omega (arith, length-values m)

-- A snapshot lists each running task once, sorted by conversation key, and its counters are the number of running tasks, the number of waiting tasks and the limits.
pub snapshot_lem :
    (s : SchedulerState)
    → IsSorted (snapshot s).running
      × Perm (snapshot s).running (values s.running)
      × ((snapshot s).active_count ≡ length (values s.running))
      × ((snapshot s).waiting_count ≡ waiting_count s)
      × ((snapshot s).max_concurrent ≡ s.max_concurrent)
      × ((snapshot s).max_queue_depth ≡ s.max_queue_depth)
unfolding snapshot
snapshot_lem s = (
  sort_by_key-IsSorted (values s.running),
  sort_by_key-perm (values s.running),
  sym (length-values s.running),
  refl,
  refl,
  refl,
)
