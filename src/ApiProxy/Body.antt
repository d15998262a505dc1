-- ===== src/ApiProxy/Body.antt =====
-- agent-runner/src/api_proxy.rs: the rewriting of a request's payload.
use dog_bot.Common.{Bool, false, Option, none, some, if◌then◌else◌}
use dog_bot.Common.Text.{Text, text, text_eq}
use dog_bot.Json.{
  Value, null, boolean, number, str, array, object, Items, nil, cons, Fields, lookup, put, take_out,
  as_str,
}

abbrev pub is_custom : Option Value → Bool
is_custom none = false
is_custom (some v) = elim (as_str v) [ none ↦ false | some s ↦ text_eq s (text "custom") ]

unfoldable pub strip_tool : Value → Value
unfolding text_eq lookup take_out
strip_tool null = null
strip_tool (boolean b) = boolean b
strip_tool (number n) = number n
strip_tool (str s) = str s
strip_tool (array xs) = array xs
strip_tool (object fs) =
    object (if is_custom (lookup (text "type") fs) then take_out (text "type") fs else fs)

unfoldable pub strip_tools : Items → Items
unfolding strip_tool
strip_tools nil = nil
strip_tools (cons tool tools) = cons (strip_tool tool) (strip_tools tools)

abbrev pub strip_at : Fields → Option Value → Fields
strip_at fs none = fs
strip_at fs (some null) = fs
strip_at fs (some (boolean b)) = fs
strip_at fs (some (number n)) = fs
strip_at fs (some (str s)) = fs
strip_at fs (some (object gs)) = fs
strip_at fs (some (array tools)) = put (text "tools") (array (strip_tools tools)) fs

unfoldable pub strip_anthropic_custom_tool_types : Fields → Fields
unfolding strip_tools lookup put
strip_anthropic_custom_tool_types fs = strip_at fs (lookup (text "tools") fs)

-- The payload of a request for messages, with the model of the provider.
abbrev pub rewrite_payload : Text → Value → Value
rewrite_payload model null = null
rewrite_payload model (boolean b) = boolean b
rewrite_payload model (number n) = number n
rewrite_payload model (str s) = str s
rewrite_payload model (array xs) = array xs
rewrite_payload model (object fs) =
    object (strip_anthropic_custom_tool_types (put (text "model") (str model) fs))
