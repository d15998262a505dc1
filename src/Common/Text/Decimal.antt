-- ===== src/Common/Text/Decimal.antt =====
-- Decimal numbers: what `format!` prints of a `usize`, and `str::parse::<i64>`.
use Prim.Native.Nat.{ℕ, zero, suc, ◌+◌, ◌-◌, ◌*◌, ◌/◌, ◌%◌, ◌<◌}
use mathlib.Core.Path.{◌≡◌}
use mathlib.Core.Bool.{true}
use mathlib.Core.List.{[], ◌∷◌}
use mathlib.Core.Option.{Option, none, some}
use native.Mathlib.Omega.{arith}
use dog_bot.Common.Tests.{ltb, ◌==◌, if◌then◌else◌, map_some, Option-cases}
use dog_bot.Common.Text.{Text}
use dog_bot.Common.Text.Trim.{is_ascii_digit}
use dog_bot.Common.Int.{ℤ, pos, negsuc, fits_i64, negate}

-- A round for each digit; more fuel than the number is enough.
unfoldable pub digits_rounds : ℕ → ℕ → Text → Text
digits_rounds zero n acc = acc
digits_rounds (suc f) n acc =
    let more = digits_rounds f (n / 10) ((b'0' + n % 10) ∷ acc) in
    if ltb n 10 then (b'0' + n) ∷ acc else more

unfoldable pub show_ℕ : ℕ → Text
unfolding digits_rounds
show_ℕ n = digits_rounds (suc n) n []

-- The value of the digits, with `none` at any other character.
unfoldable pub parse_digits : ℕ → Text → Option ℕ
unfolding is_ascii_digit
parse_digits n [] = some n
parse_digits n (c ∷ s) =
    let rest = parse_digits (n * 10 + (c - b'0')) s in if is_ascii_digit c then rest else none

-- At least one digit.
abbrev pub parse_unsigned : Text → Option ℕ
parse_unsigned [] = none
parse_unsigned (c ∷ s) = parse_digits 0 (c ∷ s)

abbrev pub check_i64 : Option ℤ → Option ℤ
check_i64 none = none
check_i64 (some n) = if fits_i64 n then some n else none

-- `i64::from_str`: an optional sign, at least one digit, nothing else, in range.
unfoldable pub parse_i64 : Text → Option ℤ
unfolding parse_digits
parse_i64 [] = none
parse_i64 (c ∷ s) =
    if c == b'-'
    then check_i64 (map_some negate (parse_unsigned s))
    else if c == b'+'
    then check_i64 (map_some pos (parse_unsigned s))
    else check_i64 (map_some pos (parse_unsigned (c ∷ s)))

pub parse_i64-fits : (o : Option ℤ) (n : ℤ) → check_i64 o ≡ some n → fits_i64 n ≡ true
parse_i64-fits none n h = cc
parse_i64-fits (some m) n h = ground arith

-- What `format!` prints of an `i64`.
unfoldable pub show_ℤ : ℤ → Text
unfolding show_ℕ
show_ℤ (pos n) = show_ℕ n
show_ℤ (negsuc n) = b'-' ∷ show_ℕ (suc n)

abbrev pub check_below : ℕ → Option ℕ → Option ℕ
check_below bound none = none
check_below bound (some n) = if ltb n bound then some n else none

-- `from_str` of an unsigned type with values below `bound`: an optional `+`, then digits.
unfoldable pub parse_below : ℕ → Text → Option ℕ
unfolding parse_digits
parse_below bound [] = none
parse_below bound (c ∷ s) =
    if c == b'+'
    then check_below bound (parse_unsigned s)
    else check_below bound (parse_unsigned (c ∷ s))

pub parse_below-lt : (bound : ℕ) (s : Text) (n : ℕ) → parse_below bound s ≡ some n → n < bound
unfolding parse_below
parse_below-lt bound [] n h = cc
parse_below-lt bound (c ∷ s) n h =
    ground (arith, Option-cases (parse_unsigned s), Option-cases (parse_unsigned (c ∷ s)))
