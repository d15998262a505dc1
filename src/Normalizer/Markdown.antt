-- ===== src/Normalizer/Markdown.antt =====
-- What `degrade_markdown` leaves of the marks of code.
use dog_bot.Common.{
  inl, inr, Option-cases, ℕ, zero, suc, Bool, false, List, [], ◌∷◌, ◌++◌, map, any, All, length,
  ◌==◌, ◌≡◌, refl,
}
use dog_bot.Common.Text.{Text, text}
use dog_bot.Common.Text.Split.{split_once, replace, replace_char, lines}
use dog_bot.Common.Text.Chars.{replace_char_free, append_free, split_once_free, join_free}
use dog_bot.Normalizer.Degrade.{
  replace_links, replace_markdown_links, without_heading, degrade_markdown_line, degrade_markdown,
}

module _ (p : ℕ → Bool) (colon : any p (text ": ") ≡ false) where
  linked :
      (before label url rest : Text)
      → any p before ≡ false
      → any p label ≡ false
      → any p url ≡ false
      → any p rest ≡ false
      → any p (before ++ (label ++ (text ": " ++ (url ++ rest)))) ≡ false
  linked before label url rest h k m n =
      append_free p before (label ++ (text ": " ++ (url ++ rest))) h (
        append_free p label (text ": " ++ (url ++ rest)) k
          (append_free p (text ": ") (url ++ rest) colon (append_free p url rest m n)))

  replace_links_free :
      (rounds : ℕ) (rest : Text) → any p rest ≡ false → any p (replace_links rounds rest) ≡ false
  unfolding replace_links
  replace_links_free zero rest h = h
  replace_links_free (suc rounds) rest h = elim (Option-cases (split_once (text "[") rest)) [
    | inl e ↦ rw (replace_links, e) h
    | inr ((before, candidate), e) ↦ elim (Option-cases (split_once (text "](") candidate)) [
      | inl e' ↦ rw (replace_links, e, e') h
      | inr ((label, url_candidate), e') ↦
          elim (Option-cases (split_once (text ")") url_candidate)) [
            | inl e'' ↦ rw (replace_links, e, e', e'') h
            | inr ((url, rest'), e'') ↦
                let (hb, hc) = split_once_free p (text "[") rest before candidate e h in
                let (hl, hu) = split_once_free p (text "](") candidate label url_candidate e' hc in
                let (hv, hr) = split_once_free p (text ")") url_candidate url rest' e'' hu in
                rw (replace_links, e, e', e'')
                  (linked before label url (replace_links rounds rest') hb hl hv
                    (replace_links_free rounds rest' hr))
          ]
    ]
  ]

abbrev pub backticks : Text → Bool
backticks s = any (λ c. c == b'`') s

degrade_markdown_line_free : (line : Text) → backticks (degrade_markdown_line line) ≡ false
unfolding degrade_markdown_line replace_markdown_links
degrade_markdown_line_free line =
    let bold = replace (text "**") [] (without_heading line) in
    replace_links_free (λ c. c == b'`') refl (suc (length (replace_char b'`' [] bold)))
      (replace_char b'`' [] bold) (replace_char_free b'`' [] bold refl)

lines_free : (ls : List Text) → All (λ w. backticks w ≡ false) (map degrade_markdown_line ls)
lines_free [] = tt
lines_free (l ∷ ls) = (degrade_markdown_line_free l, lines_free ls)

-- The text that `degrade_markdown` returns has no backtick, whatever its input.
pub degrade_markdown_plain : (input : Text) → any (λ c. c == b'`') (degrade_markdown input) ≡ false
unfolding degrade_markdown
degrade_markdown_plain input =
    join_free (λ c. c == b'`') (10 ∷ []) (map degrade_markdown_line (lines input)) refl
      (lines_free (lines input))
