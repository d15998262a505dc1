-- ===== src/Json.antt =====
-- `serde_json::Value` as the program sees it: its constructors, and the lookups that the code uses.
use dog_bot.Common.{Bool, Option, none, some, List, [], ◌∷◌, if◌then◌else◌}
use dog_bot.Common.Text.{Text, text_eq}
use dog_bot.Common.Text.Decimal.{show_ℤ}
use dog_bot.Common.Int.{ℤ}

-- Of a number the code uses what `to_string` prints and what `as_i64` answers, and nothing else.
pub record Number : Type 0 where
  pub shown : Text
  pub int : Option ℤ

mutual
  pub data Value : Type 0 where
    null : Value
    boolean : Bool → Value
    number : Number → Value
    str : Text → Value
    array : Items → Value
    object : Fields → Value

  pub data Items : Type 0 where
    nil : Items
    cons : Value → Items → Items

  -- `serde_json::Map`.
  pub data Fields : Type 0 where
    end : Fields
    field : Text → Value → Fields → Fields

unfoldable pub lookup : Text → Fields → Option Value
lookup key end = none
lookup key (field k v fs) = if text_eq k key then some v else lookup key fs

-- `Map::insert`.
unfoldable pub put : Text → Value → Fields → Fields
put key v end = field key v end
put key v (field k w fs) = if text_eq k key then field key v fs else field k w (put key v fs)

-- `Map::remove`.
unfoldable pub take_out : Text → Fields → Fields
take_out key end = end
take_out key (field k w fs) =
    let rest = take_out key fs in if text_eq k key then rest else field k w rest

-- `Value::get` with a string: only an object has members.
abbrev pub member : Text → Value → Option Value
member key (object fs) = lookup key fs
member key null = none
member key (boolean b) = none
member key (number n) = none
member key (str s) = none
member key (array xs) = none

abbrev pub as_str : Value → Option Text
as_str (str s) = some s
as_str null = none
as_str (boolean b) = none
as_str (number n) = none
as_str (array xs) = none
as_str (object fs) = none

abbrev pub as_i64 : Value → Option ℤ
as_i64 (number n) = n.int
as_i64 null = none
as_i64 (boolean b) = none
as_i64 (str s) = none
as_i64 (array xs) = none
as_i64 (object fs) = none

abbrev pub items : Items → List Value
items nil = []
items (cons x xs) = x ∷ items xs

abbrev pub as_array : Value → Option (List Value)
as_array (array xs) = some (items xs)
as_array null = none
as_array (boolean b) = none
as_array (number n) = none
as_array (str s) = none
as_array (object fs) = none

abbrev pub as_object : Value → Option Fields
as_object (object fs) = some fs
as_object null = none
as_object (boolean b) = none
as_object (number n) = none
as_object (str s) = none
as_object (array xs) = none

-- An integer in `json!`.
abbrev pub integer : ℤ → Value
integer n = number (record { shown = show_ℤ n; int = some n })

abbrev pub list_value : List Value → Items
list_value [] = nil
list_value (v ∷ vs) = cons v (list_value vs)
