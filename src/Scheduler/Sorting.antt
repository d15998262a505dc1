-- ===== src/Scheduler/Sorting.antt =====
-- Sorting by conversation key gives the same list for the same entries.
use dog_bot.Common.{
  ◌≡◌, ◌≢◌, inl, inr, refl, sym, ap, ◌∙◌, arith, true, some, List, [], ◌∷◌, ==_iff, Bool-cases,
}
use dog_bot.Common.Text.{Text, text_eq, text_eq_iff, text_leb, text_leb_total}
use dog_bot.HashMap.{HashMap, get, insert, remove, values, IsDistinct}
use dog_bot.HashMap.Laws.{get-insert, get-remove, remove-IsDistinct, remove_absent}
use dog_bot.HashMap.Same.{SameMap, get_first, rest-SameMap, empty-SameMap}
use dog_bot.Scheduler.{TaskSummary, insert_sorted, sort_by_key}

text_leb_antisym : (s t : Text) → text_leb s t ≡ true → text_leb t s ≡ true → s ≡ t
unfolding text_leb
text_leb_antisym [] [] h g = refl
text_leb_antisym [] (d ∷ t) h g = cc
text_leb_antisym (c ∷ s) [] h g = cc
text_leb_antisym (c ∷ s) (d ∷ t) h g = ground (arith, text_leb_antisym s t, ==_iff c d, ==_iff d c)

text_leb_trans : (s t u : Text) → text_leb s t ≡ true → text_leb t u ≡ true → text_leb s u ≡ true
unfolding text_leb
text_leb_trans [] t u h g = refl
text_leb_trans (c ∷ s) [] u h g = cc
text_leb_trans (c ∷ s) (d ∷ t) [] h g = cc
text_leb_trans (c ∷ s) (d ∷ t) (e ∷ u) h g =
    ground (arith, text_leb_trans s t u, ==_iff c d, ==_iff d e, ==_iff c e)

-- Two tasks of different conversations may be inserted in either order.
insert_sorted_comm :
    (t u : TaskSummary) (us : List TaskSummary)
    → t.conversation_key ≢ u.conversation_key
    → insert_sorted t (insert_sorted u us) ≡ insert_sorted u (insert_sorted t us)
unfolding insert_sorted
insert_sorted_comm t u [] d = ground (
  arith,
  d,
  text_leb_total t.conversation_key u.conversation_key,
  text_leb_antisym t.conversation_key u.conversation_key,
)
insert_sorted_comm t u (w ∷ us) d = ground (
  arith,
  d,
  insert_sorted_comm t u us d,
  text_leb_total t.conversation_key u.conversation_key,
  text_leb_antisym t.conversation_key u.conversation_key,
  text_leb_trans t.conversation_key u.conversation_key w.conversation_key,
  text_leb_trans u.conversation_key t.conversation_key w.conversation_key,
)

-- Each task stands under its own conversation.
abbrev pub IsKeyed : HashMap TaskSummary → Type 0
IsKeyed m = (k : Text) (t : TaskSummary) → get k m ≡ some t → t.conversation_key ≡ k

pub insert-IsKeyed :
    (t : TaskSummary) (m : HashMap TaskSummary)
    → IsKeyed m
    → IsKeyed (insert t.conversation_key t m)
insert-IsKeyed t m g k u h =
    ground (arith, get-insert t.conversation_key k t m, g k u, text_eq_iff t.conversation_key k)

pub remove-IsKeyed : (k : Text) (m : HashMap TaskSummary) → IsKeyed m → IsKeyed (remove k m)
remove-IsKeyed k m g j t h = ground (arith, get-remove k j m, g j t)

rest-IsKeyed :
    (k : Text) (t : TaskSummary) (m : HashMap TaskSummary)
    → IsDistinct ((k, t) ∷ m)
    → IsKeyed ((k, t) ∷ m)
    → (t.conversation_key ≡ k) × IsKeyed m
unfolding get
rest-IsKeyed k t m d g =
    (g k t (get_first k t m), λ j u h. ground (arith, d.0, h, g j u, text_eq_iff k j))

-- An entry of the map may as well be sorted in last.
sort-remove :
    (k : Text) (t : TaskSummary) (m : HashMap TaskSummary)
    → IsDistinct m
    → IsKeyed m
    → get k m ≡ some t
    → sort_by_key (values m) ≡ insert_sorted t (sort_by_key (values (remove k m)))
unfolding get remove values sort_by_key
sort-remove k t [] d g h = cc
sort-remove k t ((j, u) ∷ m) d g h = elim (Bool-cases (text_eq j k)) [
  | inl same ↦
      let away = remove_absent k m (ground (arith, d.0, text_eq_iff j k)) in
      rw (same, away) (ground (arith, same, h))
  | inr other ↦
      let h' : get k m ≡ some t = ground (arith, h, other) in
      let (first, rest) = rest-IsKeyed j u m d g in
      let differ : u.conversation_key ≢ t.conversation_key =
        ground (arith, first, rest k t h', text_eq_iff j k) in
      rw (other, sort-remove k t m d.1 rest h')
        (insert_sorted_comm u t (sort_by_key (values (remove k m))) differ)
]

pub sort-SameMap :
    (m m' : HashMap TaskSummary)
    → IsDistinct m
    → IsDistinct m'
    → IsKeyed m'
    → SameMap m m'
    → sort_by_key (values m) ≡ sort_by_key (values m')
unfolding values sort_by_key
sort-SameMap [] m' d d' g h = ap (λ n. sort_by_key (values n)) (sym (empty-SameMap m' h))
sort-SameMap ((k, t) ∷ m) m' d d' g h =
    let (found, rest) = rest-SameMap k t m m' d h in
    ap (insert_sorted t)
      (sort-SameMap m (remove k m') d.1 (remove-IsDistinct k m' d') (remove-IsKeyed k m' g) rest)
    ∙ sym (sort-remove k t m' d' g found)
