-- ===== src/HashMap.antt =====
-- `HashMap<String, V>` as an association list; the code never depends on the order of iteration.
pub mod Laws
pub mod Same
use dog_bot.Common.{ℕ, ◌+◌, Bool, List, [], ◌∷◌, Option, none, some, is_some, if◌then◌else◌, ◌≡◌}
use dog_bot.Common.Text.{Text, text_eq}

abbrev pub HashMap {ℓ} : Type ℓ → Type ℓ
HashMap V = List (Text × V)

module _ {ℓ} {V : Type ℓ} where
  unfoldable pub get : Text → HashMap V → Option V
  get k [] = none
  get k ((j, v) ∷ m) = if text_eq j k then some v else get k m

  unfoldable pub insert : Text → V → HashMap V → HashMap V
  insert k v [] = (k, v) ∷ []
  insert k v ((j, w) ∷ m) = if text_eq j k then (k, v) ∷ m else (j, w) ∷ insert k v m

  unfoldable pub remove : Text → HashMap V → HashMap V
  remove k [] = []
  remove k ((j, w) ∷ m) = let rest = remove k m in if text_eq j k then rest else (j, w) ∷ rest

  abbrev pub contains_key : Text → HashMap V → Bool
  contains_key k m = is_some (get k m)

  -- The sum over the values.
  unfoldable pub weigh : (V → ℕ) → HashMap V → ℕ
  weigh w [] = 0
  weigh w ((k, v) ∷ m) = w v + weigh w m

  abbrev pub len : HashMap V → ℕ
  len m = weigh (λ _. 1) m

  -- A key has one entry.
  abbrev pub IsDistinct : HashMap V → Type ℓ
  IsDistinct [] = Unit
  IsDistinct ((k, v) ∷ m) = (get k m ≡ none) × IsDistinct m

  unfoldable pub values : HashMap V → List V
  values [] = []
  values ((k, v) ∷ m) = v ∷ values m
