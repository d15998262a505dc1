-- ===== src/Scheduler/Queue.antt =====
-- The deque of one conversation: what `pop_next_for_conversation` leaves in the map of queues.
use dog_bot.Common.{
  ℕ, ◌+◌, ◌≡◌, ◌⊎◌, inl, inr, arith, true, false, none, some, List, [], ◌∷◌, if◌then◌else◌,
  is_empty, Bool-cases,
}
use dog_bot.Common.Text.{Text, text_eq}
use dog_bot.HashMap.{HashMap, get, insert, remove, weigh, IsDistinct}
use dog_bot.HashMap.Laws.{
  get-insert, get-remove, get-insert_self, insert-IsDistinct, remove-IsDistinct, weigh-insert_old,
  weigh-remove,
}
use dog_bot.Scheduler.{
  TaskSummary, SchedulerState, drop_if_empty, pop_next_for_conversation, promote_next,
}

-- The queues after the first task of `key` was taken and `rest` is left.
abbrev pub popped :
    Text → List TaskSummary → HashMap (List TaskSummary) → HashMap (List TaskSummary)
popped key rest queued = drop_if_empty key (insert key rest queued)

module _ (key : Text) (rest : List TaskSummary) (queued : HashMap (List TaskSummary)) where
  popped_cases :
      ((is_empty rest ≡ true) × (popped key rest queued ≡ remove key (insert key rest queued)))
      ⊎ ((is_empty rest ≡ false) × (popped key rest queued ≡ insert key rest queued))
  popped_cases = elim (Bool-cases (is_empty rest)) [
    | inl e ↦ inl (e, ground (arith, get-insert_self key rest queued))
    | inr e ↦ inr (e, ground (arith, get-insert_self key rest queued))
  ]

  pub get-popped :
      (j : Text)
      → get j (popped key rest queued)
        ≡ (if text_eq key j then (if is_empty rest then none else some rest) else get j queued)
  get-popped j = elim popped_cases [
    | inl (e, p) ↦
        rw p
          (ground (arith, get-remove key j (insert key rest queued), get-insert key j rest queued))
    | inr (e, p) ↦ rw p (ground (arith, get-insert key j rest queued))
  ]

  pub popped-IsDistinct : IsDistinct queued → IsDistinct (popped key rest queued)
  popped-IsDistinct d = elim popped_cases [
    | inl (e, p) ↦ rw p (remove-IsDistinct key _ (insert-IsDistinct key rest queued d))
    | inr (e, p) ↦ rw p (insert-IsDistinct key rest queued d)
  ]

  pub weigh-popped :
      (f : List TaskSummary → ℕ) (old : List TaskSummary)
      → f [] ≡ 0
      → IsDistinct queued
      → get key queued ≡ some old
      → weigh f (popped key rest queued) + f old ≡ weigh f queued + f rest
  weigh-popped f old z d h = elim popped_cases [
    | inl (e, p) ↦ rw p (
        ground (
          arith,
          weigh-remove f key rest (insert key rest queued) (insert-IsDistinct key rest queued d)
              (get-insert_self key rest queued),
          weigh-insert_old f key rest old queued h,
        ))
    | inr (e, p) ↦ rw p (weigh-insert_old f key rest old queued h)
  ]

module _ (key : Text) (s : SchedulerState) where
  pub promote_next-none : get key s.queued ≡ none → promote_next key s ≡ (s, [])
  unfolding pop_next_for_conversation
  promote_next-none h = rw (h, pop_next_for_conversation)

  pub promote_next-empty :
      get key s.queued ≡ some []
      → promote_next key s ≡ (record s { queued = remove key s.queued }, [])
  unfolding pop_next_for_conversation
  promote_next-empty h =
      rw (h, pop_next_for_conversation, h) (λ i. (record s { queued = remove key s.queued }, []))

  pub promote_next-some :
      (t : TaskSummary) (rest : List TaskSummary)
      → get key s.queued ≡ some (t ∷ rest)
      → promote_next key s ≡ (
        record s {
          queued = popped key rest s.queued;
          running = insert t.conversation_key t s.running;
        },
        t ∷ [],
      )
  unfolding pop_next_for_conversation
  promote_next-some t rest h = rw (h, pop_next_for_conversation)
