-- ===== src/Normalizer/Rounds.antt =====
-- The loops of the normalizer end: each round takes characters away, so no result depends on the number of rounds once there are more of them than characters.
use dog_bot.Common.{
  inl, inr, Option-cases, ap, ◌++◌, ℕ, zero, suc, ◌≤◌, ◌<◌, Bool, Option, some, [], ◌∷◌, length,
  ◌≡◌, refl, arith,
}
use dog_bot.Common.Text.{Text, text}
use dog_bot.Common.Text.Trim.{trim, trim_start_matches, is_whitespace}
use dog_bot.Common.Text.Split.{split_once, length-split_once}
use dog_bot.Normalizer.Actions.{ActionBlock}
use dog_bot.Normalizer.Degrade.{replace_links}
use dog_bot.Normalizer.{Normalizing, apply_block, fence, fence_end, push_body, collect}

length-trim_start_matches : (p : ℕ → Bool) (s : Text) → length (trim_start_matches p s) ≤ length s
unfolding trim_start_matches
length-trim_start_matches p [] = omega arith
length-trim_start_matches p (c ∷ s) = ground (arith, length-trim_start_matches p s)

-- What is left behind a block is shorter.
block_shorter :
    (remaining before block json_block rest : Text)
    → split_once fence remaining ≡ some (before, block)
    → split_once fence_end (trim_start_matches is_whitespace block) ≡ some (json_block, rest)
    → length rest < length remaining
block_shorter remaining before block json_block rest e e' = omega (
  arith,
  length-split_once fence remaining before block e,
  length-trim_start_matches is_whitespace block,
  length-split_once fence_end (trim_start_matches is_whitespace block) json_block rest e',
)

module _ (parse_block : Text → Option ActionBlock) where
  collect_rounds :
      (f g : ℕ) (remaining : Text) (st : Normalizing)
      → length remaining < f
      → length remaining < g
      → collect parse_block f remaining st ≡ collect parse_block g remaining st
  unfolding collect
  collect_rounds zero g remaining st h k = absurd (omega arith)
  collect_rounds (suc f) zero remaining st h k = absurd (omega arith)
  collect_rounds (suc f) (suc g) remaining st h k =
      elim (Option-cases (split_once fence remaining)) [
        | inl e ↦ rw (collect, e) refl
        | inr ((before, block), e) ↦
            elim (Option-cases (split_once fence_end (trim_start_matches is_whitespace block))) [
              | inl e' ↦ rw (collect, e, e') refl
              | inr ((json_block, rest), e') ↦
                  let shorter = block_shorter remaining before block json_block rest e e' in
                  rw (collect, e, e')
                    (collect_rounds f g rest
                      (apply_block (push_body before st) (parse_block (trim json_block)))
                      (omega arith) (omega arith))
            ]
      ]

-- The loop of `normalize_agent_output` ends within as many rounds as there are characters and one more: any number of rounds above that gives the same result.
pub collect_enough :
    (parse_block : Text → Option ActionBlock) (rounds : ℕ) (remaining : Text) (st : Normalizing)
    → length remaining < rounds
    → collect parse_block rounds remaining st
      ≡ collect parse_block (suc (length remaining)) remaining st
collect_enough parse_block rounds remaining st h =
    collect_rounds parse_block rounds (suc (length remaining)) remaining st h (omega arith)

-- A link that was replaced is behind what remains.
link_shorter :
    (rest before candidate label url_candidate url rest' : Text)
    → split_once (text "[") rest ≡ some (before, candidate)
    → split_once (text "](") candidate ≡ some (label, url_candidate)
    → split_once (text ")") url_candidate ≡ some (url, rest')
    → length rest' < length rest
link_shorter rest before candidate label url_candidate url rest' e e' e'' = omega (
  arith,
  length-split_once (text "[") rest before candidate e,
  length-split_once (text "](") candidate label url_candidate e',
  length-split_once (text ")") url_candidate url rest' e'',
)

replace_links_rounds :
    (f g : ℕ) (rest : Text)
    → length rest < f
    → length rest < g
    → replace_links f rest ≡ replace_links g rest
unfolding replace_links
replace_links_rounds zero g rest h k = absurd (omega arith)
replace_links_rounds (suc f) zero rest h k = absurd (omega arith)
replace_links_rounds (suc f) (suc g) rest h k = elim (Option-cases (split_once (text "[") rest)) [
  | inl e ↦ rw (replace_links, e) refl
  | inr ((before, candidate), e) ↦ elim (Option-cases (split_once (text "](") candidate)) [
    | inl e' ↦ rw (replace_links, e, e') refl
    | inr ((label, url_candidate), e') ↦ elim (Option-cases (split_once (text ")") url_candidate)) [
      | inl e'' ↦ rw (replace_links, e, e', e'') refl
      | inr ((url, rest'), e'') ↦
          let shorter = link_shorter rest before candidate label url_candidate url rest' e e' e'' in
          rw (replace_links, e, e', e'')
            (ap (λ t. before ++ (label ++ (text ": " ++ (url ++ t))))
              (replace_links_rounds f g rest' (omega arith) (omega arith)))
    ]
  ]
]

-- The loop of `replace_markdown_links` ends as well: any number of rounds above the number of characters gives the same text.
pub replace_links_enough :
    (rounds : ℕ) (rest : Text)
    → length rest < rounds
    → replace_links rounds rest ≡ replace_links (suc (length rest)) rest
replace_links_enough rounds rest h =
    replace_links_rounds rounds (suc (length rest)) rest h (omega arith)
