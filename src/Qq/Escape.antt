-- ===== src/Qq/Escape.antt =====
-- What `encode_qq_text` can make of a text: letters without brackets, and codes with a number.
use dog_bot.Common.{
  ℕ, true, false, Option, none, some, [], ◌∷◌, ◌++◌, length, is_empty, all, any, leb, ◌==◌, ◌≡◌,
  refl, sym, ◌∙◌, subst, arith, Bool-cases, inl, inr, ◌≢◌, all-append,
}
use mathlib.Core.List.{append_assoc, append-nil}
use dog_bot.Common.Text.{Text, text}
use dog_bot.Common.Text.Trim.{is_ascii_digit}
use dog_bot.Common.Text.Split.{replace_char}
use dog_bot.Common.Text.Chars.{replace_char_free, replace_char_keeps}
use dog_bot.Qq.{
  escape_cq_text, at_code, reply_code, EncodeState, end_digits, take_plain, encode_char,
  encode_loop, encode_qq_text,
}

abbrev pub IsDigits : Text → Type 0
IsDigits s = (is_empty s ≡ false) × (all is_ascii_digit s ≡ true)

-- A text in which every bracket is that of an `at` or a `reply` code with a numeric id.
pub data IsEncoded : Text → Type 0 where
  finished : IsEncoded []
  letter :
      (c : ℕ) (s : Text)
      → (c == b'[') ≡ false
      → (c == b']') ≡ false
      → IsEncoded s
      → IsEncoded (c ∷ s)
  at : (target s : Text) → IsDigits target → IsEncoded s → IsEncoded (at_code target ++ s)
  reply : (target s : Text) → IsDigits target → IsEncoded s → IsEncoded (reply_code target ++ s)

pub IsEncoded-append : (s t : Text) → IsEncoded s → IsEncoded t → IsEncoded (s ++ t)
IsEncoded-append _ t finished h = h
IsEncoded-append _ t (letter c s l r e) h = letter c (s ++ t) l r (IsEncoded-append s t e h)
IsEncoded-append _ t (at target s d e) h =
    subst IsEncoded (sym (append_assoc (at_code target) s t))
      (at target (s ++ t) d (IsEncoded-append s t e h))
IsEncoded-append _ t (reply target s d e) h =
    subst IsEncoded (sym (append_assoc (reply_code target) s t))
      (reply target (s ++ t) d (IsEncoded-append s t e h))

letters-IsEncoded :
    (s : Text) → any (λ c. c == b'[') s ≡ false → any (λ c. c == b']') s ≡ false → IsEncoded s
letters-IsEncoded [] l r = finished
letters-IsEncoded (c ∷ s) l r =
    letter c s (ground (arith, l)) (ground (arith, r))
      (letters-IsEncoded s (ground (arith, l)) (ground (arith, r)))

escape_cq_text-IsEncoded : (s : Text) → IsEncoded (escape_cq_text s)
unfolding escape_cq_text
escape_cq_text-IsEncoded s =
    let inner = replace_char b'[' (text "&#91;") (replace_char b'&' (text "&amp;") s) in
    letters-IsEncoded (escape_cq_text s)
      (replace_char_keeps b']' b'[' (text "&#93;") inner refl
        (replace_char_free b'[' (text "&#91;") (replace_char b'&' (text "&amp;") s) refl))
      (replace_char_free b']' (text "&#93;") inner refl)

pub code-IsEncoded : (target : Text) → IsDigits target → IsEncoded (at_code target)
code-IsEncoded target d = subst IsEncoded (append-nil (at_code target)) (at target [] d finished)

pub reply_code-IsEncoded : (target : Text) → IsDigits target → IsEncoded (reply_code target)
reply_code-IsEncoded target d =
    subst IsEncoded (append-nil (reply_code target)) (reply target [] d finished)

-- The digits behind an `@`, if the inner loop runs.
abbrev AreDigits : Option Text → Type 0
AreDigits none = Unit
AreDigits (some digits) = all is_ascii_digit digits ≡ true

record IsState (st : EncodeState) : Type 0 where
  encoded : IsEncoded st.output
  numeric : AreDigits st.digits

long-IsDigits :
    (digits : Text)
    → all is_ascii_digit digits ≡ true
    → leb 5 (length digits) ≡ true
    → IsDigits digits
long-IsDigits [] a h = (ground (arith, h), a)
long-IsDigits (c ∷ digits) a h = (refl, a)

end_digits-IsState :
    (st : EncodeState) (o : Option Text)
    → IsEncoded st.output
    → AreDigits o
    → IsEncoded (end_digits st o).output × (o ≢ none → (end_digits st o).digits ≡ none)
unfolding end_digits
end_digits-IsState st none e a = (e, λ h. absurd (h refl))
end_digits-IsState st (some digits) e a = elim (Bool-cases (leb 5 (length digits))) [
  | inl long ↦ rw long (
    IsEncoded-append st.output (escape_cq_text st.plain ++ at_code digits) e (
        IsEncoded-append (escape_cq_text st.plain) (at_code digits)
          (escape_cq_text-IsEncoded st.plain)
          (code-IsEncoded digits (long-IsDigits digits a long))),
    λ h. refl,
  )
  | inr short ↦ rw short (e, λ h. refl)
]

take_plain-IsState :
    (c : ℕ) (st : EncodeState) → IsEncoded st.output → st.digits ≡ none → IsState (take_plain c st)
take_plain-IsState c st e n = elim (Bool-cases (c == b'@')) [
  | inl starts ↦ rw starts (record { encoded = e; numeric = refl })
  | inr other ↦ rw other (record { encoded = e; numeric = rw n tt })
]

encode_char-IsState :
    (c : ℕ) (st : EncodeState) (o : Option Text)
    → st.digits ≡ o
    → IsState st
    → IsState (encode_char c st o)
unfolding encode_char
encode_char-IsState c st none n v = take_plain-IsState c st v.encoded n
encode_char-IsState c st (some digits) n v =
    let a : all is_ascii_digit digits ≡ true = subst AreDigits n v.numeric in
    elim (Bool-cases (is_ascii_digit c)) [
      | inl digit ↦ rw digit (record {
        encoded = v.encoded;
        numeric = all-append is_ascii_digit digits (c ∷ []) ∙ ground (arith, a, digit);
      })
      | inr other ↦
          let (e, ended) = end_digits-IsState st (some digits) v.encoded a in
          rw other (take_plain-IsState c (end_digits st (some digits)) e (ended (λ h. cc)))
    ]

encode_loop-IsEncoded :
    (st : EncodeState) (s : Text) → IsState st → IsEncoded (encode_loop st s).output
unfolding encode_loop
encode_loop-IsEncoded st [] v = (end_digits-IsState st st.digits v.encoded v.numeric).0
encode_loop-IsEncoded st (c ∷ s) v =
    encode_loop-IsEncoded (encode_char c st st.digits) s (encode_char-IsState c st st.digits refl v)

pub encode_qq_text-IsEncoded : (s : Text) → IsEncoded (encode_qq_text s)
unfolding encode_qq_text
encode_qq_text-IsEncoded s =
    let st = encode_loop (record { output = []; plain = []; digits = none }) s in
    IsEncoded-append st.output (escape_cq_text st.plain)
      (encode_loop-IsEncoded (record { output = []; plain = []; digits = none }) s
        (record { encoded = finished; numeric = tt }))
      (escape_cq_text-IsEncoded st.plain)
