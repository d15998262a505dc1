-- ===== src/Normalizer/Degrade.antt =====
-- agent-runner/src/normalizer.rs: Markdown becomes plain text.
use dog_bot.Common.{ℕ, zero, suc, none, some, [], ◌∷◌, ◌++◌, map, length, unwrap_or, or_else}
use dog_bot.Common.Text.{Text, text}
use dog_bot.Common.Text.Split.{split_once, replace, replace_char, lines, join, strip_prefix}

-- The loop of `replace_markdown_links`, in rounds as well; `output` is returned.
unfoldable pub replace_links : ℕ → Text → Text
unfolding split_once
replace_links zero rest = rest
replace_links (suc rounds) rest = elim (split_once (text "[") rest) [
  | none ↦ rest
  | some (before, candidate) ↦ elim (split_once (text "](") candidate) [
    | none ↦ rest
    | some (label, url_candidate) ↦ elim (split_once (text ")") url_candidate) [
      | none ↦ rest
      | some (url, rest') ↦ before ++ (label ++ (text ": " ++ (url ++ replace_links rounds rest')))
    ]
  ]
]

unfoldable pub replace_markdown_links : Text → Text
unfolding replace_links
replace_markdown_links input = replace_links (suc (length input)) input

abbrev pub without_heading : Text → Text
without_heading line =
    unwrap_or (or_else (strip_prefix (text "## ") line) (strip_prefix (text "# ") line)) line

unfoldable pub degrade_markdown_line : Text → Text
unfolding replace_markdown_links replace replace_char strip_prefix
degrade_markdown_line line =
    replace_markdown_links (replace_char b'`' [] (replace (text "**") [] (without_heading line)))

unfoldable pub degrade_markdown : Text → Text
unfolding degrade_markdown_line lines join
degrade_markdown input = join (10 ∷ []) (map degrade_markdown_line (lines input))
