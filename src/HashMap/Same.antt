-- ===== src/HashMap/Same.antt =====
-- Two maps with the same entries, in whatever order.
use dog_bot.Common.{ℕ, ◌≡◌, refl, sym, ap, ◌∙◌, arith, [], ◌∷◌, some}
use dog_bot.Common.Text.{Text, text_eq_iff, text_eq_refl}
use dog_bot.HashMap.{HashMap, get, insert, remove, weigh, IsDistinct}
use dog_bot.HashMap.Laws.{get-insert, get-remove, remove-IsDistinct, weigh-remove}

module _ {ℓ} {V : Type ℓ} where
  abbrev pub SameMap : HashMap V → HashMap V → Type ℓ
  SameMap m m' = (k : Text) → get k m ≡ get k m'

  pub insert-SameMap :
      (k : Text) (v : V) (m m' : HashMap V) → SameMap m m' → SameMap (insert k v m) (insert k v m')
  insert-SameMap k v m m' h j = ground (arith, get-insert k j v m, get-insert k j v m', h j)

  pub remove-SameMap :
      (k : Text) (m m' : HashMap V) → SameMap m m' → SameMap (remove k m) (remove k m')
  remove-SameMap k m m' h j = ground (arith, get-remove k j m, get-remove k j m', h j)

  pub get_first : (k : Text) (v : V) (m : HashMap V) → get k ((k, v) ∷ m) ≡ some v
  unfolding get
  get_first k v m = rw (text_eq_refl k) refl

  -- Nothing is in the empty map.
  pub empty-SameMap : (m : HashMap V) → SameMap [] m → m ≡ []
  unfolding get
  empty-SameMap [] h = refl
  empty-SameMap ((k, v) ∷ m) h = cc (h k, get_first k v m)

  -- Without its first entry.
  pub rest-SameMap :
      (k : Text) (v : V) (m m' : HashMap V)
      → IsDistinct ((k, v) ∷ m)
      → SameMap ((k, v) ∷ m) m'
      → (get k m' ≡ some v) × SameMap m (remove k m')
  unfolding get
  rest-SameMap k v m m' d h = (
    sym (h k) ∙ get_first k v m,
    λ j. ground (arith, d.0, get-remove k j m', h j, text_eq_iff k j),
  )

  pub weigh-SameMap :
      (f : V → ℕ) (m m' : HashMap V)
      → IsDistinct m
      → IsDistinct m'
      → SameMap m m'
      → weigh f m ≡ weigh f m'
  unfolding weigh
  weigh-SameMap f [] m' d d' h = ap (weigh f) (sym (empty-SameMap m' h))
  weigh-SameMap f ((k, v) ∷ m) m' d d' h =
      let (found, rest) = rest-SameMap k v m m' d h in
      let fewer = weigh-SameMap f m (remove k m') d.1 (remove-IsDistinct k m' d') rest in
      omega (arith, fewer, weigh-remove f k v m' d' found)
