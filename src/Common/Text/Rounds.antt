-- ===== src/Common/Text/Rounds.antt =====
-- `replace` and the decimal printer have rounds enough, and what is printed is read back.
use Prim.Native.Nat.{ℕ, zero, suc, ◌+◌, ◌-◌, ◌*◌, ◌/◌, ◌%◌, ◌≤◌, ◌<◌}
use mathlib.Core.Path.{◌≡◌, refl, ap, ◌∙◌}
use mathlib.Core.Logic.{inl, inr}
use mathlib.Core.List.{[], ◌∷◌, ◌++◌}
use mathlib.Core.Option.{some}
use native.Mathlib.Omega.{arith}
use dog_bot.Common.Tests.{ltb, Option-cases, Bool-cases}
use dog_bot.Common.Lists.{length}
use dog_bot.Common.Text.{Text}
use dog_bot.Common.Text.Trim.{is_ascii_digit}
use dog_bot.Common.Text.Split.{split_once, length-split_once, replace_rounds, replace}
use dog_bot.Common.Text.Decimal.{digits_rounds, show_ℕ, parse_digits}

replace_rounds_lem :
    (pat new : Text) (f g : ℕ) (s : Text)
    → 0 < length pat
    → length s < f
    → length s < g
    → replace_rounds f pat new s ≡ replace_rounds g pat new s
unfolding replace_rounds
replace_rounds_lem pat new zero g s p h k = absurd (omega arith)
replace_rounds_lem pat new (suc f) zero s p h k = absurd (omega arith)
replace_rounds_lem pat new (suc f) (suc g) s p h k = elim (Option-cases (split_once pat s)) [
  | inl e ↦ rw (replace_rounds, e) refl
  | inr ((a, b), e) ↦
      let shorter = length-split_once pat s a b e in
      rw (replace_rounds, e)
        (ap (λ t. a ++ (new ++ t)) (replace_rounds_lem pat new f g b p (omega arith) (omega arith)))
]

-- The rounds of `replace` of a pattern that is not empty are enough.
pub replace_enough :
    (rounds : ℕ) (pat new s : Text)
    → 0 < length pat
    → length s < rounds
    → replace_rounds rounds pat new s ≡ replace pat new s
unfolding replace
replace_enough rounds pat new s p h =
    replace_rounds_lem pat new rounds (suc (length s)) s p h (omega arith)

parse_digit :
    (a d : ℕ) (s : Text) → d < 10 → parse_digits a ((b'0' + d) ∷ s) ≡ parse_digits (a * 10 + d) s
unfolding parse_digits is_ascii_digit
parse_digit a d s h =
    let same : a * 10 + ((b'0' + d) - b'0') ≡ a * 10 + d = omega arith in ground (arith, same)

parse_digits-rounds :
    (f n : ℕ) (acc : Text) → n < f → parse_digits 0 (digits_rounds f n acc) ≡ parse_digits n acc
unfolding digits_rounds
parse_digits-rounds zero n acc h = absurd (omega arith)
parse_digits-rounds (suc f) n acc h = elim (Bool-cases (ltb n 10)) [
  | inl e ↦
      let alone : 0 * 10 + n ≡ n = omega arith in
      rw (digits_rounds, e)
        (parse_digit 0 n acc (ground (arith, e)) ∙ ap (λ m. parse_digits m acc) alone)
  | inr e ↦
      let large : 10 ≤ n = ground (arith, e) in
      let whole : n / 10 * 10 + n % 10 ≡ n = omega arith in
      rw (digits_rounds, e)
        (parse_digits-rounds f (n / 10) ((b'0' + n % 10) ∷ acc) (omega arith)
          ∙ (parse_digit (n / 10) (n % 10) acc (omega arith) ∙ ap (λ m. parse_digits m acc) whole))
]

-- What the decimal printer writes of a number is read as that number.
pub parse_digits-show_ℕ : (n : ℕ) → parse_digits 0 (show_ℕ n) ≡ some n
unfolding show_ℕ parse_digits
parse_digits-show_ℕ n = parse_digits-rounds (suc n) n [] (omega arith)
