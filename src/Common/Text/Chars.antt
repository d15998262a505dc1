-- ===== src/Common/Text/Chars.antt =====
-- Texts in which no character satisfies a test, and the first match of a pattern.
use Prim.Native.Nat.{ℕ}
use mathlib.Core.Path.{◌≡◌, refl, ap, sym, ◌∙◌}
use mathlib.Core.Bool.{Bool, false}
use mathlib.Core.List.{List, [], ◌∷◌, ◌++◌}
use mathlib.Core.Option.{none, some}
use native.Mathlib.Omega.{arith}
use dog_bot.Common.Tests.{◌==◌, if◌then◌else◌}
use dog_bot.Common.Lists.{any, All, any-append}
use dog_bot.Common.Text.{Text}
use dog_bot.Common.Text.Split.{
  split_once, split_once-eq, strip_prefix, strip_prefix-append, join, replace_char,
}

pub replace_char_free :
    (c : ℕ) (new s : Text)
    → any (λ d. d == c) new ≡ false
    → any (λ d. d == c) (replace_char c new s) ≡ false
unfolding replace_char
replace_char_free c new [] h = refl
replace_char_free c new (d ∷ s) h =
    any-append (λ e. e == c) (if d == c then new else d ∷ []) (replace_char c new s)
    ∙ ground (arith, h, replace_char_free c new s h)

pub replace_char_keeps :
    (c e : ℕ) (new s : Text)
    → any (λ d. d == e) new ≡ false
    → any (λ d. d == e) s ≡ false
    → any (λ d. d == e) (replace_char c new s) ≡ false
unfolding replace_char
replace_char_keeps c e new [] h k = refl
replace_char_keeps c e new (d ∷ s) h k =
    any-append (λ x. x == e) (if d == c then new else d ∷ []) (replace_char c new s)
    ∙ ground (arith, h, k, replace_char_keeps c e new s h)

module _ (p : ℕ → Bool) where
  pub append_free : (s t : Text) → any p s ≡ false → any p t ≡ false → any p (s ++ t) ≡ false
  append_free s t h k = any-append p s t ∙ rw (h, k) refl

  pub free_parts : (s t : Text) → any p (s ++ t) ≡ false → (any p s ≡ false) × (any p t ≡ false)
  free_parts s t h = ground (arith, h, any-append p s t)

  pub split_once_free :
      (pat s a b : Text)
      → split_once pat s ≡ some (a, b)
      → any p s ≡ false
      → (any p a ≡ false) × (any p b ≡ false)
  split_once_free pat s a b e h =
      let whole : any p (a ++ (pat ++ b)) ≡ false =
        ap (any p) (sym (split_once-eq pat s a b e)) ∙ h in
      let (ha, rest) = free_parts a (pat ++ b) whole in (ha, (free_parts pat b rest).1)

  pub join_free :
      (sep : Text) (ws : List Text)
      → any p sep ≡ false
      → All (λ w. any p w ≡ false) ws
      → any p (join sep ws) ≡ false
  unfolding join
  join_free sep [] hs h = refl
  join_free sep (w ∷ []) hs h = h.0
  join_free sep (w ∷ v ∷ ws) hs h =
      append_free w (sep ++ join sep (v ∷ ws)) h.0
        (append_free sep (join sep (v ∷ ws)) hs (join_free sep (v ∷ ws) hs h.1))

-- A match at the front.
pub split_once_here : (p s r : Text) → strip_prefix p s ≡ some r → split_once p s ≡ some ([], r)
unfolding split_once
split_once_here p [] r h = rw h refl
split_once_here p (c ∷ s) r h = rw (split_once, h) refl

split_once_later :
    (p : Text) (c : ℕ) (s a b : Text)
    → strip_prefix p (c ∷ s) ≡ none
    → split_once p s ≡ some (a, b)
    → split_once p (c ∷ s) ≡ some (c ∷ a, b)
unfolding split_once
split_once_later p c s a b h k = rw (split_once, h, k) refl

differs : (c d : ℕ) (p s : Text) → (d == c) ≡ false → strip_prefix (c ∷ p) (d ∷ s) ≡ none
unfolding strip_prefix
differs c d p s h = let other : (c == d) ≡ false = ground (arith, h) in rw other refl

-- A text up to the first occurrence of a pattern whose first character it does not have.
pub split_once_first :
    (c : ℕ) (p s rest : Text)
    → any (λ d. d == c) s ≡ false
    → split_once (c ∷ p) (s ++ (c ∷ (p ++ rest))) ≡ some (s, rest)
split_once_first c p [] rest h =
    split_once_here (c ∷ p) (c ∷ (p ++ rest)) rest (strip_prefix-append (c ∷ p) rest)
split_once_first c p (d ∷ s) rest h =
    split_once_later (c ∷ p) d (s ++ (c ∷ (p ++ rest))) s rest
      (differs c d p (s ++ (c ∷ (p ++ rest))) (ground (arith, h)))
      (split_once_first c p s rest (ground (arith, h)))
