-- ===== src/History/Quoting.antt =====
-- How the database reads what `quote_literal` and `quote_identifier` write, and the block that sets
-- up the role of the reader.
use dog_bot.Common.{
  ◌>>=◌, any-append, ℕ, Bool, true, false, Option, none, some, [], ◌∷◌, ◌++◌, any, map_some, ◌==◌,
  ==_iff, Bool-cases, inl, inr, ◌≡◌, refl, ap, ◌∙◌, arith,
}
use mathlib.Core.List.{append_assoc}
use dog_bot.Common.Text.{Text, text}
use dog_bot.Common.Text.Split.{
  split_once, replace_char, starts_with, strip_prefix, strip_prefix-append,
}
use dog_bot.Common.Text.Chars.{append_free, replace_char_keeps, split_once_first}
use dog_bot.History.Roles.{
  quote_identifier, quote_literal, reader_role_block, reader_role_statement,
}

-- A quoted token of SQL, behind its first quote: two quotes in a row stand for one, and a quote alone ends the token. Reads the value and what is left; `pending` says whether the last character was a quote.
abbrev read_quoted : ℕ → Bool → Text → Option (Text × Text)
read_quoted q false [] = none
read_quoted q true [] = some ([], [])
read_quoted q false (c ∷ s) = elim (c == q) [
  | true ↦ read_quoted q true s
  | false ↦ map_some (λ r. (c ∷ r.0, r.1)) (read_quoted q false s)
]
read_quoted q true (c ∷ s) = elim (c == q) [
  | true ↦ map_some (λ r. (q ∷ r.0, r.1)) (read_quoted q false s)
  | false ↦ some ([], c ∷ s)
]

-- A token with its first quote.
abbrev pub read_token : ℕ → Text → Option (Text × Text)
read_token q [] = none
read_token q (c ∷ s) = elim (c == q) [ true ↦ read_quoted q false s | false ↦ none ]

==_refl : (q : ℕ) → (q == q) ≡ true
==_refl q = (==_iff q q).1 refl

module _ (q : ℕ) where
  read_end :
      (rest : Text) → starts_with (q ∷ []) rest ≡ false → read_quoted q true rest ≡ some ([], rest)
  unfolding strip_prefix
  read_end [] h = refl
  read_end (d ∷ s) h =
      let other : (d == q) ≡ false = ground (arith, h) in rw (read_quoted, other) refl

  read_quote : (s : Text) → read_quoted q false (q ∷ s) ≡ read_quoted q true s
  read_quote s = rw (read_quoted, ==_refl q) refl

  read_pair :
      (s : Text)
      → read_quoted q false (q ∷ q ∷ s) ≡ map_some (λ r. (q ∷ r.0, r.1)) (read_quoted q false s)
  read_pair s = read_quote (q ∷ s) ∙ rw (read_quoted, ==_refl q) refl

  read_other :
      (c : ℕ) (s : Text)
      → (c == q) ≡ false
      → read_quoted q false (c ∷ s) ≡ map_some (λ r. (c ∷ r.0, r.1)) (read_quoted q false s)
  read_other c s e = rw (read_quoted, e) refl

  read_doubled :
      (value rest : Text)
      → starts_with (q ∷ []) rest ≡ false
      → read_quoted q false (replace_char q (q ∷ q ∷ []) value ++ (q ∷ rest)) ≡ some (value, rest)
  unfolding replace_char
  read_doubled [] rest h = read_quote rest ∙ read_end rest h
  read_doubled (c ∷ value) rest h =
      let tail = replace_char q (q ∷ q ∷ []) value ++ (q ∷ rest) in
      elim (Bool-cases (c == q)) [
        | inl e ↦
            let same : q ≡ c = ground (arith, e) in
            rw (replace_char, e)
              (read_pair tail
                ∙ rw (read_doubled value rest h) (ap (λ d. some (d ∷ value, rest)) same))
        | inr e ↦ rw (replace_char, e) (read_other c tail e ∙ rw (read_doubled value rest h) refl)
      ]

-- What the quoting functions write is read back: whatever the value is, a database that reads the literal or the identifier in front of a text that does not begin with its quote takes just the value from it and goes on behind it, so that no quote of the value ends the token.
pub read_token-quote :
    (value rest : Text)
    → starts_with (text "'") rest ≡ false
    → starts_with (text "\"") rest ≡ false
    → (read_token 39 (quote_literal value ++ rest) ≡ some (value, rest))
      × (read_token b'"' (quote_identifier value ++ rest) ≡ some (value, rest))
unfolding quote_literal quote_identifier
read_token-quote value rest h k = (
  ap (λ t. read_quoted 39 false t)
        (append_assoc (replace_char 39 (text "''") value) (text "'") rest)
      ∙ read_doubled 39 value rest h,
  ap (λ t. read_quoted b'"' false t)
        (append_assoc (replace_char b'"' (text "\"\"") value) (text "\"") rest)
      ∙ read_doubled b'"' value rest k,
)

abbrev has_dollar : Text → Bool
has_dollar s = any (λ d. d == b'$') s

quote_literal-free : (s : Text) → has_dollar s ≡ false → has_dollar (quote_literal s) ≡ false
unfolding quote_literal
quote_literal-free s h =
    append_free (λ d. d == b'$') (replace_char 39 (text "''") s) (text "'")
      (replace_char_keeps 39 b'$' (text "''") s refl h) refl

quote_identifier-free : (s : Text) → has_dollar s ≡ false → has_dollar (quote_identifier s) ≡ false
unfolding quote_identifier
quote_identifier-free s h =
    append_free (λ d. d == b'$') (replace_char b'"' (text "\"\"") s) (text "\"")
      (replace_char_keeps b'"' b'$' (text "\"\"") s refl h) refl

reader_role_block-free :
    (role password : Text)
    → has_dollar role ≡ false
    → has_dollar password ≡ false
    → has_dollar (reader_role_block role password) ≡ false
unfolding reader_role_block
reader_role_block-free role password h k =
    let literal = quote_literal-free role h in
    let ident = quote_identifier-free role h in
    let secret = quote_literal-free password k in simp (any-append, literal, ident, secret)

-- Where the name and the password of the reader have no dollar sign, the block of `ensure_reader_role` is read as a whole: the first `$$` behind the one that opens it is the one that closes it, and only the semicolon is behind that.
pub reader_role_statement_whole :
    (role password : Text)
    → any (λ d. d == b'$') role ≡ false
    → any (λ d. d == b'$') password ≡ false
    → (strip_prefix (text "DO $$") (reader_role_statement role password) >>= split_once (text "$$"))
      ≡ some (reader_role_block role password, text ";")
unfolding reader_role_statement
reader_role_statement_whole role password h k =
    rw (strip_prefix-append (text "DO $$") (reader_role_block role password ++ text "$$;")) (
      split_once_first b'$' (text "$") (reader_role_block role password) (text ";")
        (reader_role_block-free role password h k))
