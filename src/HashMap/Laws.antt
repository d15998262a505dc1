-- ===== src/HashMap/Laws.antt =====
-- The laws of the map; the operations stay shut outside this file.
use dog_bot.Common.{
  ℕ, ◌+◌, ◌≡◌, refl, ap, [], ◌∷◌, none, some, if◌then◌else◌, arith, ◌≤◌, ◌<◌, ltb, Bool-cases, inl,
  inr,
}
use dog_bot.Common.Text.{Text, text_eq, text_eq_iff, text_eq_refl}
use dog_bot.HashMap.{HashMap, get, insert, remove, weigh, IsDistinct}

module _ {ℓ} {V : Type ℓ} where
  pub get-insert :
      (k j : Text) (v : V) (m : HashMap V)
      → get j (insert k v m) ≡ (if text_eq k j then some v else get j m)
  unfolding get insert
  get-insert k j v [] = refl
  get-insert k j v ((i, w) ∷ m) =
      ground (arith, text_eq_iff i k, text_eq_iff i j, text_eq_iff k j, get-insert k j v m)

  pub get-remove :
      (k j : Text) (m : HashMap V) → get j (remove k m) ≡ (if text_eq k j then none else get j m)
  unfolding get remove
  get-remove k j [] = ground arith
  get-remove k j ((i, w) ∷ m) =
      ground (arith, text_eq_iff i k, text_eq_iff i j, text_eq_iff k j, get-remove k j m)

  pub get-insert_self : (k : Text) (v : V) (m : HashMap V) → get k (insert k v m) ≡ some v
  get-insert_self k v m = simp (get-insert, text_eq_refl)

  pub get-remove_self : (k : Text) (m : HashMap V) → get k (remove k m) ≡ none
  get-remove_self k m = simp (get-remove, text_eq_refl)

  pub insert-IsDistinct :
      (k : Text) (v : V) (m : HashMap V) → IsDistinct m → IsDistinct (insert k v m)
  unfolding insert
  insert-IsDistinct k v [] d = unfold get in (refl, tt)
  insert-IsDistinct k v ((i, w) ∷ m) d =
      ground
        (arith, text_eq_iff i k, text_eq_iff k i, get-insert k i v m, insert-IsDistinct k v m d.1)

  pub remove-IsDistinct : (k : Text) (m : HashMap V) → IsDistinct m → IsDistinct (remove k m)
  unfolding remove
  remove-IsDistinct k [] d = d
  remove-IsDistinct k ((i, w) ∷ m) d =
      ground (arith, text_eq_iff i k, get-remove k i m, remove-IsDistinct k m d.1)

  pub remove_absent : (k : Text) (m : HashMap V) → get k m ≡ none → remove k m ≡ m
  unfolding get remove
  remove_absent k [] h = refl
  remove_absent k ((i, w) ∷ m) h = ground (arith, remove_absent k m)

module _ {ℓ} {V : Type ℓ} (f : V → ℕ) where
  pub weigh-insert_new :
      (k : Text) (v : V) (m : HashMap V) → get k m ≡ none → weigh f (insert k v m) ≡ weigh f m + f v
  unfolding get insert weigh
  weigh-insert_new k v [] h = omega arith
  weigh-insert_new k v ((i, w) ∷ m) h = ground (arith, weigh-insert_new k v m)

  pub weigh-insert_old :
      (k : Text) (v w : V) (m : HashMap V)
      → get k m ≡ some w
      → weigh f (insert k v m) + f w ≡ weigh f m + f v
  unfolding get insert weigh
  weigh-insert_old k v w [] h = cc
  weigh-insert_old k v w ((i, u) ∷ m) h = ground (arith, weigh-insert_old k v w m)

  pub weigh-remove :
      (k : Text) (w : V) (m : HashMap V)
      → IsDistinct m
      → get k m ≡ some w
      → weigh f (remove k m) + f w ≡ weigh f m
  unfolding get remove weigh
  weigh-remove k w [] d h = cc
  weigh-remove k w ((i, u) ∷ m) d h =
      ground (arith, weigh-remove k w m d.1, text_eq_iff i k, remove_absent k m)

  pub weigh-remove-none :
      (k : Text) (m : HashMap V) → get k m ≡ none → weigh f (remove k m) ≡ weigh f m
  weigh-remove-none k m h = ap (weigh f) (remove_absent k m h)

  pub weigh_member : (k : Text) (w : V) (m : HashMap V) → get k m ≡ some w → f w ≤ weigh f m
  unfolding get weigh
  weigh_member k w [] h = cc
  weigh_member k w ((i, u) ∷ m) h = ground (arith, weigh_member k w m)

pub ruleset map_laws = (get-insert, get-remove)

module _ {ℓ} {V : Type ℓ} (f : V → ℕ) where
  weigh_found_tail :
      (i : Text) (u : V) (m : HashMap V)
      → IsDistinct ((i, u) ∷ m)
      → (k : Text) × (v : V) × (get k m ≡ some v) × (0 < f v)
      → (k : Text) × (v : V) × (get k ((i, u) ∷ m) ≡ some v) × (0 < f v)
  unfolding get
  weigh_found_tail i u m d (k, v, e, h) = (k, v, ground (arith, text_eq_iff i k, d.0, e), h)

  -- A sum that is not zero has an entry that is not.
  pub weigh_found :
      (m : HashMap V)
      → IsDistinct m
      → 0 < weigh f m
      → (k : Text) × (v : V) × (get k m ≡ some v) × (0 < f v)
  unfolding weigh
  weigh_found [] d h = absurd (omega arith)
  weigh_found ((i, u) ∷ m) d h = elim (Bool-cases (ltb 0 (f u))) [
    | inl here ↦ (i, u, unfold get in ground (arith, text_eq_refl i), ground arith)
    | inr there ↦ weigh_found_tail i u m d (weigh_found m d.1 (ground arith))
  ]
