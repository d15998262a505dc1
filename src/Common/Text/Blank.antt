-- ===== src/Common/Text/Blank.antt =====
-- Blank text: what `trim` leaves of it, and concatenations of it.
use mathlib.Core.Path.{◌≡◌, refl, ◌∙◌}
use mathlib.Core.Bool.{Bool, ◌&&◌}
use mathlib.Core.List.{List, [], ◌∷◌, ◌++◌}
use native.Mathlib.Omega.{arith}
use Prim.Native.Nat.{ℕ}
use dog_bot.Common.Lists.{is_empty, all}
use dog_bot.Common.Text.{Text}
use dog_bot.Common.Text.Trim.{is_whitespace, trim_start_matches, trim_end_matches, trim_last, trim}
use dog_bot.Common.Text.Split.{join}

abbrev pub is_blank : Text → Bool
is_blank s = all is_whitespace s

module _ (p : ℕ → Bool) where
  is_empty-trim_last : (c : ℕ) (s : Text) → is_empty (trim_last p c s) ≡ (p c && is_empty s)
  is_empty-trim_last c [] = ground arith
  is_empty-trim_last c (d ∷ s) = ground arith

  is_empty-trim_end : (s : Text) → is_empty (trim_end_matches p s) ≡ all p s
  unfolding trim_end_matches
  is_empty-trim_end [] = refl
  is_empty-trim_end (c ∷ s) =
      ground (arith, is_empty-trim_last c (trim_end_matches p s), is_empty-trim_end s)

  all-trim_start : (s : Text) → all p (trim_start_matches p s) ≡ all p s
  unfolding trim_start_matches
  all-trim_start [] = refl
  all-trim_start (c ∷ s) = ground (arith, all-trim_start s)

pub is_empty-trim : (s : Text) → is_empty (trim s) ≡ is_blank s
unfolding trim
is_empty-trim s =
    is_empty-trim_end is_whitespace (trim_start_matches is_whitespace s)
    ∙ all-trim_start is_whitespace s

pub is_blank-append : (s t : Text) → is_blank (s ++ t) ≡ (is_blank s && is_blank t)
is_blank-append [] t = refl
is_blank-append (c ∷ s) t = ground (arith, is_blank-append s t)

pub is_blank-join : (ws : List Text) → is_blank (join [] ws) ≡ all is_blank ws
unfolding join
is_blank-join [] = refl
is_blank-join (w ∷ []) = ground arith
is_blank-join (w ∷ v ∷ ws) =
    ground (arith, is_blank-append w (join [] (v ∷ ws)), is_blank-join (v ∷ ws))
