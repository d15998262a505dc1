-- ===== src/Qq/Reactions.antt =====
-- agent-runner/src/platforms/qq.rs: the ids of reactions, and the errors that NapCat reports of them.
use dog_bot.Common.{
  ℕ, zero, suc, ◌%◌, ◌||◌, Option, none, some, List, [], ◌∷◌, ◌++◌, all, is_empty, unwrap_or,
  or_else, map_some, ◌==◌, if◌then◌else◌,
}
use dog_bot.Common.Text.{Text, text, text_eq}
use dog_bot.Common.Text.Trim.{trim, is_ascii_digit}
use dog_bot.Common.Text.Decimal.{parse_i64, show_ℤ}
use dog_bot.Common.Int.{ℤ, pos, negsuc}
use dog_bot.Json.{Value, member, as_str, as_i64}

abbrev pub qq_reaction_emoji_ids : List (Text × Text)
qq_reaction_emoji_ids =
    (text "👍", text "128077")
    ∷ (text "🙏", text "128591")
    ∷ (text "🫡", text "129761")
    ∷ (text "😂", text "128514")
    ∷ (0x2764 ∷ [], text "10084")
    ∷ (text "👏", text "128079")
    ∷ []

abbrev pub id_of : Text → List (Text × Text) → Option Text
id_of emoji [] = none
id_of emoji ((candidate, id) ∷ rest) = if text_eq candidate emoji then some id else id_of emoji rest

-- The heart stands in the table as one character; `❤` and U+FE0F is matched as well.
unfoldable pub qq_supported_reaction_id : Text → Option Text
unfolding text_eq
qq_supported_reaction_id emoji =
    if text_eq emoji (0x2764 ∷ []) || text_eq emoji (0x2764 ∷ 0xfe0f ∷ [])
    then some (text "10084")
    else id_of emoji qq_reaction_emoji_ids

-- The first character that is no variation selector, modulo the length of the table.
unfoldable pub fallback_index : Text → ℕ
fallback_index [] = 0
fallback_index (c ∷ s) =
    let rest = fallback_index s in if c == 0xfe0e || c == 0xfe0f then rest else c % 6

-- The id at an index of the table.
unfoldable pub fallback_id : ℕ → List (Text × Text) → Option Text
fallback_id n [] = none
fallback_id zero ((emoji, id) ∷ rest) = some id
fallback_id (suc n) ((emoji, id) ∷ rest) = fallback_id n rest

-- An index outside the table, which is a panic in the code, gives the empty text here.
unfoldable pub qq_reaction_emoji_id : Text → Text
unfolding trim qq_supported_reaction_id fallback_index fallback_id is_ascii_digit
qq_reaction_emoji_id emoji =
    if all is_ascii_digit (trim emoji)
    then trim emoji
    else unwrap_or
        (or_else (qq_supported_reaction_id (trim emoji))
          (fallback_id (fallback_index (trim emoji)) qq_reaction_emoji_ids))
        []

abbrev pub i64_of : Value → Option ℤ
i64_of value = or_else (as_i64 value) (elim (as_str value) [ none ↦ none | some s ↦ parse_i64 s ])

-- `Value::pointer` on a path of two names.
abbrev pub pointer : Text → Text → Value → Option Value
pointer first second body = elim (member first body) [
  | none ↦ none
  | some inner ↦ member second inner
]

abbrev pub business_message : Option ℤ → Text → Option Text
business_message none err_msg =
    if is_empty err_msg
    then none
    else some (text "NapCat reaction request failed: errMsg=" ++ err_msg)
business_message (some (pos n)) err_msg =
    if n == 0 || n == 65002
    then none
    else some (
        text "NapCat reaction request failed: result="
        ++ (show_ℤ (pos n) ++ (text ", errMsg=" ++ err_msg)))
business_message (some (negsuc n)) err_msg = some (
    text "NapCat reaction request failed: result="
    ++ (show_ℤ (negsuc n) ++ (text ", errMsg=" ++ err_msg)))

abbrev pub then_some {ℓ} : {A B : Type ℓ} → Option A → (A → Option B) → Option B
then_some none f = none
then_some (some a) f = f a

unfoldable pub napcat_business_error : Value → Option Text
unfolding trim parse_i64 show_ℤ
napcat_business_error body =
    business_message (then_some (pointer (text "data") (text "result") body) i64_of)
      (unwrap_or (map_some trim (then_some (pointer (text "data") (text "errMsg") body) as_str)) [])
