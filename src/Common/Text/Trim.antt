-- ===== src/Common/Text/Trim.antt =====
-- Character classes of `char`, and `str::trim`.
use Prim.Native.Nat.{ℕ, ◌+◌}
use mathlib.Core.Path.{◌≡◌, refl}
use mathlib.Core.Bool.{Bool, false, ◌&&◌, ◌||◌}
use mathlib.Core.List.{[], ◌∷◌}
use native.Mathlib.Omega.{arith}
use dog_bot.Common.Tests.{ltb, leb, ◌==◌, if◌then◌else◌}
use dog_bot.Common.Text.{Text}

-- `char::is_whitespace`: the code points with the property White_Space.
unfoldable pub is_whitespace : ℕ → Bool
is_whitespace c =
    (leb 9 c && leb c 13)
    || (c == 0x20
        || (c == 0x85
            || (c == 0xa0
                || (c == 0x1680
                    || ((leb 0x2000 c && leb c 0x200a)
                        || (c == 0x2028
                            || (c == 0x2029 || (c == 0x202f || (c == 0x205f || c == 0x3000)))))))))

-- `char::is_control`: the general category Cc.
unfoldable pub is_control : ℕ → Bool
is_control c = ltb c 32 || (leb 127 c && leb c 159)

unfoldable pub is_ascii_digit : ℕ → Bool
is_ascii_digit c = leb b'0' c && leb c b'9'

unfoldable pub is_ascii_alphanumeric : ℕ → Bool
unfolding is_ascii_digit
is_ascii_alphanumeric c =
    is_ascii_digit c || ((leb b'a' c && leb c b'z') || (leb b'A' c && leb c b'Z'))

-- `to_ascii_lowercase`, on one character.
unfoldable pub to_ascii_lowercase : ℕ → ℕ
to_ascii_lowercase c = if leb b'A' c && leb c b'Z' then c + 32 else c

unfoldable pub trim_start_matches : (ℕ → Bool) → Text → Text
trim_start_matches p [] = []
trim_start_matches p (c ∷ s) = let rest = trim_start_matches p s in if p c then rest else c ∷ s

-- Drops `c` if nothing is left behind it and it matches.
abbrev pub trim_last : (ℕ → Bool) → ℕ → Text → Text
trim_last p c [] = if p c then [] else c ∷ []
trim_last p c (d ∷ s) = c ∷ d ∷ s

unfoldable pub trim_end_matches : (ℕ → Bool) → Text → Text
trim_end_matches p [] = []
trim_end_matches p (c ∷ s) = trim_last p c (trim_end_matches p s)

unfoldable pub trim : Text → Text
unfolding trim_start_matches trim_end_matches is_whitespace
trim s = trim_end_matches is_whitespace (trim_start_matches is_whitespace s)

-- No character at the front matches.
abbrev pub NoFront : (ℕ → Bool) → Text → Type 0
NoFront p [] = Unit
NoFront p (c ∷ s) = p c ≡ false

-- Nor at the end.
abbrev pub NoBack : (ℕ → Bool) → Text → Type 0
NoBack p [] = Unit
NoBack p (c ∷ []) = p c ≡ false
NoBack p (c ∷ d ∷ s) = NoBack p (d ∷ s)

module _ (p : ℕ → Bool) where
  trim_start_matches-NoFront : (s : Text) → NoFront p (trim_start_matches p s)
  unfolding trim_start_matches
  trim_start_matches-NoFront [] = tt
  trim_start_matches-NoFront (c ∷ s) = ground (arith, trim_start_matches-NoFront s)

  trim_last-NoBack : (c : ℕ) (s : Text) → NoBack p s → NoBack p (trim_last p c s)
  trim_last-NoBack c [] h = ground arith
  trim_last-NoBack c (d ∷ s) h = h

  trim_end_matches-NoBack : (s : Text) → NoBack p (trim_end_matches p s)
  unfolding trim_end_matches
  trim_end_matches-NoBack [] = tt
  trim_end_matches-NoBack (c ∷ s) =
      trim_last-NoBack c (trim_end_matches p s) (trim_end_matches-NoBack s)

  trim_last-NoFront : (c : ℕ) (s : Text) → p c ≡ false → NoFront p (trim_last p c s)
  trim_last-NoFront c [] h = ground arith
  trim_last-NoFront c (d ∷ s) h = h

  trim_end_matches-NoFront : (s : Text) → NoFront p s → NoFront p (trim_end_matches p s)
  unfolding trim_end_matches
  trim_end_matches-NoFront [] h = tt
  trim_end_matches-NoFront (c ∷ s) h = trim_last-NoFront c (trim_end_matches p s) h

  trim_start_matches_done : (s : Text) → NoFront p s → trim_start_matches p s ≡ s
  unfolding trim_start_matches
  trim_start_matches_done [] h = refl
  trim_start_matches_done (c ∷ s) h = ground arith

  trim_end_matches_done : (s : Text) → NoBack p s → trim_end_matches p s ≡ s
  unfolding trim_end_matches
  trim_end_matches_done [] h = refl
  trim_end_matches_done (c ∷ []) h = ground arith
  trim_end_matches_done (c ∷ d ∷ s) h = rw (trim_end_matches_done (d ∷ s) h)

-- A trimmed text has no white space at its ends.
abbrev pub IsTrimmed : Text → Type 0
IsTrimmed s = NoFront is_whitespace s × NoBack is_whitespace s

pub trim-IsTrimmed : (s : Text) → IsTrimmed (trim s)
unfolding trim
trim-IsTrimmed s = (
  trim_end_matches-NoFront is_whitespace _ (trim_start_matches-NoFront is_whitespace s),
  trim_end_matches-NoBack is_whitespace (trim_start_matches is_whitespace s),
)

pub trim_done : (s : Text) → IsTrimmed s → trim s ≡ s
unfolding trim
trim_done s h =
    rw (trim_start_matches_done is_whitespace s h.0) (trim_end_matches_done is_whitespace s h.1)

pub trim_idem : (s : Text) → trim (trim s) ≡ trim s
trim_idem s = trim_done (trim s) (trim-IsTrimmed s)
