-- ===== src/Common/Text/Split.antt =====
-- Prefixes, searches and splits of `str`.
use Prim.Native.Nat.{ℕ, zero, suc, ◌+◌}
use mathlib.Core.Path.{◌≡◌, refl, ap}
use mathlib.Core.Bool.{Bool, ◌||◌}
use mathlib.Core.List.{List, [], ◌∷◌, ◌++◌}
use mathlib.Core.Option.{Option, none, some}
use native.Mathlib.Omega.{arith}
use dog_bot.Common.Tests.{◌==◌, if◌then◌else◌, is_some, map_some, Option-cases}
use dog_bot.Common.Lists.{is_empty, length, length-append}
use dog_bot.Common.Text.{Text, text_eq}

unfoldable pub strip_prefix : Text → Text → Option Text
strip_prefix [] s = some s
strip_prefix (p ∷ ps) [] = none
strip_prefix (p ∷ ps) (c ∷ s) = if p == c then strip_prefix ps s else none

abbrev pub starts_with : Text → Text → Bool
starts_with p s = is_some (strip_prefix p s)

unfoldable pub ends_with : Text → Text → Bool
ends_with p [] = text_eq p []
ends_with p (c ∷ s) = text_eq p (c ∷ s) || ends_with p s

-- `find(pat)` with the two slices around the match; also `split_once(pat)`.
unfoldable pub split_once : Text → Text → Option (Text × Text)
unfolding strip_prefix
split_once p [] = map_some (λ r. ([], r)) (strip_prefix p [])
split_once p (c ∷ s) = elim (strip_prefix p (c ∷ s)) [
  | some r ↦ some ([], r)
  | none ↦ map_some (λ ab. (c ∷ ab.0, ab.1)) (split_once p s)
]

abbrev pub contains : Text → Text → Bool
contains p s = is_some (split_once p s)

-- `splitn(n, sep)`.
unfoldable pub splitn : ℕ → ℕ → Text → List Text
unfolding split_once
splitn zero sep s = []
splitn (suc zero) sep s = s ∷ []
splitn (suc (suc n)) sep s = elim (split_once (sep ∷ []) s) [
  | none ↦ s ∷ []
  | some (a, b) ↦ a ∷ splitn (suc n) sep b
]

abbrev pub cons_head : ℕ → List Text → List Text
cons_head c [] = (c ∷ []) ∷ []
cons_head c (w ∷ ws) = (c ∷ w) ∷ ws

-- `split(sep)`, on one character.
unfoldable pub split : ℕ → Text → List Text
split sep [] = [] ∷ []
split sep (c ∷ s) = let rest = split sep s in if c == sep then [] ∷ rest else cons_head c rest

abbrev pub nth : ℕ → List Text → Option Text
nth n [] = none
nth zero (w ∷ ws) = some w
nth (suc n) (w ∷ ws) = nth n ws

unfoldable pub join : Text → List Text → Text
join sep [] = []
join sep (w ∷ []) = w
join sep (w ∷ v ∷ ws) = w ++ (sep ++ join sep (v ∷ ws))

-- `replace(pat, with)`, with a round for each match: more fuel than characters is enough.
unfoldable pub replace_rounds : ℕ → Text → Text → Text → Text
unfolding split_once
replace_rounds zero pat new s = s
replace_rounds (suc f) pat new s = elim (split_once pat s) [
  | none ↦ s
  | some (a, b) ↦ a ++ (new ++ replace_rounds f pat new b)
]

unfoldable pub replace : Text → Text → Text → Text
unfolding replace_rounds
replace pat new s = replace_rounds (suc (length s)) pat new s

-- `replace` of one character.
unfoldable pub replace_char : ℕ → Text → Text → Text
replace_char c new [] = []
replace_char c new (d ∷ s) = (if d == c then new else d ∷ []) ++ replace_char c new s

abbrev pub strip_cr : Text → Text
strip_cr [] = []
strip_cr (c ∷ []) = if c == 13 then [] else c ∷ []
strip_cr (c ∷ d ∷ s) = c ∷ strip_cr (d ∷ s)

-- What follows the last line feed is a line only if it is not empty.
abbrev pub end_lines : List Text → List Text
end_lines [] = []
end_lines (l ∷ []) = if is_empty l then [] else l ∷ []
end_lines (l ∷ m ∷ ls) = strip_cr l ∷ end_lines (m ∷ ls)

unfoldable pub lines : Text → List Text
unfolding split
lines s = end_lines (split 10 s)

pub strip_prefix-eq : (p s r : Text) → strip_prefix p s ≡ some r → s ≡ p ++ r
unfolding strip_prefix
strip_prefix-eq [] s r h = ground arith
strip_prefix-eq (p ∷ ps) [] r h = cc
strip_prefix-eq (p ∷ ps) (c ∷ s) r h = ground (arith, strip_prefix-eq ps s r)

pub strip_prefix-append : (p r : Text) → strip_prefix p (p ++ r) ≡ some r
unfolding strip_prefix
strip_prefix-append [] r = refl
strip_prefix-append (p ∷ ps) r = ground (arith, strip_prefix-append ps r)

-- The text before the match, the match and the text behind it make up the whole.
pub split_once-eq : (p s a b : Text) → split_once p s ≡ some (a, b) → s ≡ a ++ (p ++ b)
unfolding split_once
split_once-eq p [] a b h = ground (arith, Option-cases (strip_prefix p []), strip_prefix-eq p [] b)
split_once-eq p (c ∷ s) a b h =
    go (strip_prefix p (c ∷ s)) refl (split_once p s) refl (split_once-eq p s)
  where
    go :
        (o : Option Text)
        → strip_prefix p (c ∷ s) ≡ o
        → (q : Option (Text × Text)) → split_once p s ≡ q
        → ((x y : Text) → split_once p s ≡ some (x, y) → s ≡ x ++ (p ++ y))
        → c ∷ s ≡ a ++ (p ++ b)
    go (some r) e q e' ih =
        let ea : a ≡ [] = ground (arith, h, e) in
        let eb : b ≡ r = ground (arith, h, e) in rw (ea, eb) (strip_prefix-eq p (c ∷ s) r e)
    go none e none e' ih = ground (arith, h, e, e')
    go none e (some (x, y)) e' ih =
        let ea : a ≡ c ∷ x = ground (arith, h, e, e') in
        let eb : b ≡ y = ground (arith, h, e, e') in rw (ea, eb) (ap (λ t. c ∷ t) (ih x y e'))

pub length-split_once :
    (p s a b : Text) → split_once p s ≡ some (a, b) → length s ≡ length a + length p + length b
length-split_once p s a b h =
    omega (arith, ap length (split_once-eq p s a b h), length-append a (p ++ b), length-append p b)
