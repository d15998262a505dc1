-- ===== src/Config/Variables.antt =====
-- agent-runner/src/env_helpers.rs, and how a variable of the environment is parsed. The environment
-- is a map; `usize` has 64 bits.
use dog_bot.Common.{
  ℕ, ◌^◌, not, Option, none, some, List, [], String, map, keep, unwrap_or, is_empty,
}
use dog_bot.Common.Text.{Text, text}
use dog_bot.Common.Text.Trim.{trim}
use dog_bot.Common.Text.Split.{split}
use dog_bot.Common.Text.Decimal.{parse_below}
use dog_bot.Common.Result.{Result, ok, err}
use dog_bot.HashMap.{HashMap, get}
use dog_bot.Models.{trim_to_option}

pub data ConfigError : Type 0 where
  invalid_int : Text → ConfigError
  missing_upstream : ConfigError

abbrev pub Env : Type 0
Env = HashMap Text

abbrev trim_option : Option Text → Option Text
trim_option none = none
trim_option (some value) = trim_to_option value

unfoldable pub optional_trimmed : Env → Text → Option Text
unfolding trim_to_option get
optional_trimmed env key = trim_option (get key env)

unfoldable pub string_or_default : Env → Text → Text → Text
unfolding optional_trimmed
string_or_default env key default = unwrap_or (optional_trimmed env key) default

abbrev pub parsed : {T : Type 0} → Text → Option T → Result ConfigError T
parsed key none = err (invalid_int key)
parsed key (some n) = ok n

abbrev pub parse_found :
    {T : Type 0} → (Text → Option T) → Text → T → Option Text → Result ConfigError T
parse_found parse key default none = ok default
parse_found parse key default (some raw) = parsed key (parse raw)

-- The raw value is parsed as it stands, without a `trim`.
unfoldable pub parse_or_default :
    {T : Type 0} → (Text → Option T) → Env → String → T → Result ConfigError T
unfolding get
parse_or_default parse env key default = parse_found parse (text key) default (get (text key) env)

abbrev pub parse_u64 : Text → Option ℕ
parse_u64 = parse_below (2 ^ 64)

abbrev pub parse_usize : Text → Option ℕ
parse_usize = parse_below (2 ^ 64)

abbrev pub parse_u16 : Text → Option ℕ
parse_u16 = parse_below (2 ^ 16)

-- The items between commas, trimmed, without empty ones.
abbrev pub comma_list : Option Text → List Text
comma_list none = []
comma_list (some value) = keep (λ item. not (is_empty item)) (map trim (split b',' value))
