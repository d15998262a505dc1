-- ===== src/Qq/Rounds.antt =====
-- The two loops over a raw message of NapCat end, since each round takes a code off it.
use dog_bot.Common.{
  ℕ, zero, suc, ◌<◌, some, ◌∷◌, ◌++◌, length, ◌≡◌, refl, ap, inl, inr, Option-cases, arith,
}
use dog_bot.Common.Text.{Text, text}
use dog_bot.Common.Text.Split.{split_once, length-split_once}
use dog_bot.Qq.Receive.{
  reply_open, at_open, strip_tokens, strip_reply_tokens, plain_part, at_part, raw_parts,
  parse_raw_message_parts,
}

-- What is left behind a code is shorter.
code_shorter :
    (open_code remaining before after id rest : Text)
    → split_once open_code remaining ≡ some (before, after)
    → split_once (text "]") after ≡ some (id, rest)
    → length rest < length remaining
code_shorter open_code remaining before after id rest e e' = omega (
  arith,
  length-split_once open_code remaining before after e,
  length-split_once (text "]") after id rest e',
)

strip_tokens_rounds :
    (f g : ℕ) (remaining : Text)
    → length remaining < f
    → length remaining < g
    → strip_tokens f remaining ≡ strip_tokens g remaining
unfolding strip_tokens
strip_tokens_rounds zero g remaining h k = absurd (omega arith)
strip_tokens_rounds (suc f) zero remaining h k = absurd (omega arith)
strip_tokens_rounds (suc f) (suc g) remaining h k =
    elim (Option-cases (split_once reply_open remaining)) [
      | inl e ↦ rw (strip_tokens, e) refl
      | inr ((before, after), e) ↦ elim (Option-cases (split_once (text "]") after)) [
        | inl e' ↦ rw (strip_tokens, e, e') refl
        | inr ((id, rest), e') ↦
            let shorter = code_shorter reply_open remaining before after id rest e e' in
            rw (strip_tokens, e, e')
              (ap (λ t. before ++ t) (strip_tokens_rounds f g rest (omega arith) (omega arith)))
      ]
    ]

-- The loop of `strip_reply_tokens` ends: any number of rounds above the number of characters gives the same text.
pub strip_tokens_enough :
    (rounds : ℕ) (remaining : Text)
    → length remaining < rounds
    → strip_tokens rounds remaining ≡ strip_reply_tokens remaining
unfolding strip_reply_tokens
strip_tokens_enough rounds remaining h =
    strip_tokens_rounds rounds (suc (length remaining)) remaining h (omega arith)

module _ (platform_account bot_uin : Text) where
  raw_parts_rounds :
      (f g : ℕ) (remaining : Text)
      → length remaining < f
      → length remaining < g
      → raw_parts f platform_account bot_uin remaining
        ≡ raw_parts g platform_account bot_uin remaining
  unfolding raw_parts
  raw_parts_rounds zero g remaining h k = absurd (omega arith)
  raw_parts_rounds (suc f) zero remaining h k = absurd (omega arith)
  raw_parts_rounds (suc f) (suc g) remaining h k =
      elim (Option-cases (split_once at_open remaining)) [
        | inl e ↦ rw (raw_parts, e) refl
        | inr ((before, after), e) ↦ elim (Option-cases (split_once (text "]") after)) [
          | inl e' ↦ rw (raw_parts, e, e') refl
          | inr ((qq, rest), e') ↦
              let shorter = code_shorter at_open remaining before after qq rest e e' in
              rw (raw_parts, e, e')
                (ap (λ ps. plain_part before ++ (at_part platform_account bot_uin qq ∷ ps))
                  (raw_parts_rounds f g rest (omega arith) (omega arith)))
        ]
      ]

-- The loop of `parse_raw_message_parts` ends: any number of rounds above the number of characters gives the same parts.
pub raw_parts_enough :
    (rounds : ℕ) (platform_account bot_uin raw_message : Text)
    → length raw_message < rounds
    → raw_parts rounds platform_account bot_uin raw_message
      ≡ parse_raw_message_parts raw_message platform_account bot_uin
unfolding parse_raw_message_parts
raw_parts_enough rounds platform_account bot_uin raw_message h =
    raw_parts_rounds platform_account bot_uin rounds (suc (length raw_message)) raw_message h
      (omega arith)
