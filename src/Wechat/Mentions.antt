-- ===== src/Wechat/Mentions.antt =====
-- How a message that begins with a name of the bot is read.
use dog_bot.Common.{
  ℕ, Bool, true, false, some, List, [], ◌∷◌, ◌++◌, any, is_empty, ◌≡◌, refl, sym, ap, ◌∙◌, arith,
}
use dog_bot.Common.Text.{Text, text, text_eq}
use dog_bot.Common.Text.Trim.{trim, trim_start_matches, is_whitespace, IsTrimmed, trim_done}
use dog_bot.Common.Text.Split.{starts_with, strip_prefix}
use dog_bot.Wechat.{split_word, is_at, names_one, strip_leading_mention}

split_word_first :
    (word rest : Text) (c : ℕ)
    → any is_whitespace word ≡ false
    → is_whitespace c ≡ true
    → split_word (word ++ (c ∷ rest)) ≡ (word, some rest)
unfolding split_word
split_word_first [] rest c h k = rw k refl
split_word_first (d ∷ word) rest c h k =
    ground (arith, h, split_word_first word rest c (ground (arith, h)) k)

abbrev pub is_at_front : Text → Bool
is_at_front [] = false
is_at_front (c ∷ s) = is_at c

bare : (name : Text) → is_at_front name ≡ false → trim_start_matches is_at name ≡ name
unfolding trim_start_matches
bare [] h = refl
bare (c ∷ name) h = rw h refl

unmarked : (name : Text) → is_at_front name ≡ false → trim_start_matches is_at (b'@' ∷ name) ≡ name
unfolding trim_start_matches
unmarked name h = bare name h

at_word : (name : Text) → any is_whitespace (b'@' ∷ name) ≡ any is_whitespace name
unfolding is_whitespace
at_word name = refl

starts_at : (s : Text) → starts_with (text "@") (b'@' ∷ s) ≡ true
unfolding strip_prefix
starts_at s = refl

some_name :
    (name : Text) (mention_names : List Text)
    → any (λ n. text_eq n name) mention_names ≡ true
    → is_empty mention_names ≡ false
some_name name [] h = sym h
some_name name (n ∷ mention_names) h = refl

strip_named :
    (content word rest : Text) (mention_names : List Text)
    → trim content ≡ content
    → starts_with (text "@") content ≡ true
    → is_empty mention_names ≡ false
    → split_word content ≡ (word, some rest)
    → names_one mention_names word ≡ true
    → strip_leading_mention content mention_names ≡ trim rest
unfolding strip_leading_mention
strip_named content word rest mention_names e starts some_one split named =
    rw (e, starts, some_one, split, named) refl

-- A message that is a name of the bot behind an `@`, a white space and more is read as what follows, trimmed; the name has no white space and no `@` in front.
pub strip_leading_mention_addressed :
    (name rest : Text) (c : ℕ) (mention_names : List Text)
    → any (λ n. text_eq n name) mention_names ≡ true
    → any is_whitespace name ≡ false
    → is_at_front name ≡ false
    → is_whitespace c ≡ true
    → IsTrimmed (b'@' ∷ (name ++ (c ∷ rest)))
    → strip_leading_mention (b'@' ∷ (name ++ (c ∷ rest))) mention_names ≡ trim rest
strip_leading_mention_addressed name rest c mention_names known word front space t =
    strip_named (b'@' ∷ (name ++ (c ∷ rest))) (b'@' ∷ name) rest mention_names
      (trim_done (b'@' ∷ (name ++ (c ∷ rest))) t) (starts_at (name ++ (c ∷ rest)))
      (some_name name mention_names known)
      (split_word_first (b'@' ∷ name) rest c (at_word name ∙ word) space)
      (ap (λ w. any (λ n. text_eq n w) mention_names) (unmarked name front) ∙ known)
