-- ===== src/Qq/Receive.antt =====
-- agent-runner/src/platforms/qq.rs: how an event of NapCat is decoded. The two loops over a raw
-- message take a number of rounds; more rounds than characters are enough.
use dog_bot.Common.{
  ℕ, zero, suc, Bool, true, false, not, ◌||◌, Option, none, some, List, [], ◌∷◌, ◌++◌, any,
  filter_some, is_empty, length, unwrap_or, or_else, keep_if, map_some, ◌>>=◌, if◌then◌else◌,
}
use dog_bot.Common.Text.{Text, text, text_eq}
use dog_bot.Common.Text.Split.{split_once, splitn, strip_prefix}
use dog_bot.Common.Int.{pos}
use dog_bot.Json.{Value, null, member, as_str, as_i64, as_array}
use dog_bot.Protocol.{
  MessagePart, text_part, mention, image, file, voice, video, sticker, quote, CanonicalEvent,
  message_event,
}
use dog_bot.Platform.{string_value, normalize_actor_id}

abbrev pub at_open : Text
at_open = text "[CQ:at,qq="

abbrev pub reply_open : Text
reply_open = text "[CQ:reply,id="

-- A mention of the bot itself is under the account of the platform.
abbrev pub at_part : Text → Text → Text → MessagePart
at_part platform_account bot_uin qq =
    mention
      (if text_eq qq bot_uin then platform_account else normalize_actor_id qq (text "qq:user:"))
      (b'@' ∷ qq)

abbrev pub part_of_type : Text → Text → Text → Value → Option MessagePart
part_of_type platform_account bot_uin segment_type content =
    if text_eq segment_type (text "text")
    then map_some text_part (member (text "text") content >>= as_str)
    else if text_eq segment_type (text "at")
    then map_some (at_part platform_account bot_uin) (member (text "qq") content >>= string_value)
    else none

-- `none` for a segment that is passed over.
unfoldable pub segment_part : Text → Text → Value → Option MessagePart
unfolding text_eq normalize_actor_id
segment_part platform_account bot_uin segment = do
  segment_type ← member (text "type") segment >>= as_str
  part_of_type platform_account bot_uin segment_type (unwrap_or (member (text "data") segment) null)

unfoldable pub parse_message_parts : Option Value → Text → Text → List MessagePart
unfolding segment_part
parse_message_parts message platform_account bot_uin =
    filter_some (segment_part platform_account bot_uin) (unwrap_or (message >>= as_array) [])

-- A token without an end breaks the loop, and then all that remained is pushed, also what was pushed before the token.
unfoldable pub strip_tokens : ℕ → Text → Text
unfolding split_once
strip_tokens zero remaining = remaining
strip_tokens (suc rounds) remaining = elim (split_once reply_open remaining) [
  | none ↦ remaining
  | some (before, after) ↦ elim (split_once (text "]") after) [
    | none ↦ before ++ remaining
    | some (id, rest) ↦ before ++ strip_tokens rounds rest
  ]
]

unfoldable pub strip_reply_tokens : Text → Text
unfolding strip_tokens
strip_reply_tokens value = strip_tokens (suc (length value)) value

abbrev pub plain_part : Text → List MessagePart
plain_part s = if is_empty s then [] else text_part s ∷ []

-- The loop breaks at a code without an end as well.
unfoldable pub raw_parts : ℕ → Text → Text → Text → List MessagePart
unfolding strip_reply_tokens split_once normalize_actor_id
raw_parts zero platform_account bot_uin remaining = plain_part (strip_reply_tokens remaining)
raw_parts (suc rounds) platform_account bot_uin remaining = elim (split_once at_open remaining) [
  | none ↦ plain_part (strip_reply_tokens remaining)
  | some (before, after) ↦ elim (split_once (text "]") after) [
    | none ↦ plain_part before ++ plain_part (strip_reply_tokens remaining)
    | some (qq, rest) ↦
        plain_part before
        ++ (at_part platform_account bot_uin qq ∷ raw_parts rounds platform_account bot_uin rest)
  ]
]

unfoldable pub parse_raw_message_parts : Text → Text → Text → List MessagePart
unfolding raw_parts
parse_raw_message_parts raw_message platform_account bot_uin =
    raw_parts (suc (length raw_message)) platform_account bot_uin raw_message

unfoldable pub extract_reply_from_raw_message : Text → Option Text
unfolding split_once
extract_reply_from_raw_message raw_message = do
  (before, after) ← split_once reply_open raw_message
  (id, rest) ← split_once (text "]") after
  some id

unfoldable pub segment_reply : Value → Option Text
unfolding text_eq
segment_reply segment = do
  segment_type ← member (text "type") segment >>= as_str
  _ ← keep_if (λ t. text_eq t (text "reply")) (some segment_type)
  content ← member (text "data") segment
  member (text "id") content >>= string_value

unfoldable pub first_reply : List Value → Option Text
unfolding segment_reply
first_reply [] = none
first_reply (segment ∷ segments) = or_else (segment_reply segment) (first_reply segments)

unfoldable pub parse_reply_to : Option Value → Text → Option Text
unfolding first_reply extract_reply_from_raw_message
parse_reply_to message raw_message =
    or_else (first_reply (unwrap_or (message >>= as_array) []))
      (extract_reply_from_raw_message raw_message)

abbrev pub three_parts : List Text → Option (Text × Text × Text)
three_parts [] = none
three_parts (platform ∷ []) = none
three_parts (platform ∷ scope ∷ []) = none
three_parts (platform ∷ scope ∷ target_id ∷ rest) = some (platform, scope, target_id)

unfoldable pub parse_conversation_id : Text → Option (Text × Text × Text)
unfolding splitn
parse_conversation_id value = three_parts (splitn 3 b':' value)

abbrev pub mentioned : MessagePart → Option Text
mentioned (mention actor_id display) = some actor_id
mentioned (text_part t) = none
mentioned (image a) = none
mentioned (file a) = none
mentioned (voice a) = none
mentioned (video a) = none
mentioned (sticker a) = none
mentioned (quote id excerpt) = none

abbrev pub is_mention : MessagePart → Bool
is_mention part = elim (mentioned part) [ none ↦ false | some actor_id ↦ true ]

-- The parts of the message, from the raw text if there is no mention among the segments.
unfoldable pub event_parts : Value → Text → Text → Text → List MessagePart
unfolding parse_message_parts parse_raw_message_parts
event_parts payload platform_account bot_uin raw_message =
    let parts = parse_message_parts (member (text "message") payload) platform_account bot_uin in
    let fallback = parse_raw_message_parts raw_message platform_account bot_uin in
    if is_empty parts || not (any is_mention parts)
    then if is_empty fallback then parts else fallback
    else parts

unfoldable pub conversation_of : Value → Text → Text → Option Text
unfolding text_eq
conversation_of payload message_type user_id =
    if text_eq message_type (text "group")
    then map_some (λ id. text "qq:group:" ++ id) (member (text "group_id") payload >>= string_value)
    else if text_eq message_type (text "private")
    then some (text "qq:private:" ++ user_id)
    else none

abbrev pub napcat_event : Value → Text → Text → Text → Text → CanonicalEvent
napcat_event payload platform_account user_id message_id conversation =
    let bot_uin = unwrap_or (strip_prefix (text "qq:bot_uin:") platform_account) [] in
    let raw_message = unwrap_or (member (text "raw_message") payload >>= as_str) [] in
    let parts = event_parts payload platform_account bot_uin raw_message in
    record {
      platform = text "qq";
      platform_account = platform_account;
      conversation = conversation;
      actor = text "qq:user:" ++ user_id;
      event_id = text "qq:event:" ++ message_id;
      timestamp_epoch_secs = unwrap_or (member (text "time") payload >>= as_i64) (pos 0);
      kind = message_event (record {
        message_id = message_id;
        reply_to = parse_reply_to (member (text "message") payload) raw_message;
        parts = parts;
        mentions = filter_some mentioned parts;
        native_metadata = payload;
      });
      raw_native_payload = payload;
    }

unfoldable pub decode_napcat_event : Value → Text → Option CanonicalEvent
unfolding text_eq event_parts parse_reply_to conversation_of strip_prefix
decode_napcat_event payload platform_account = do
  post_type ← member (text "post_type") payload >>= as_str
  _ ← keep_if (λ t. text_eq t (text "message")) (some post_type)
  message_type ← member (text "message_type") payload >>= as_str
  user_id ← member (text "user_id") payload >>= string_value
  message_id ← member (text "message_id") payload >>= string_value
  conversation ← conversation_of payload message_type user_id
  some (napcat_event payload platform_account user_id message_id conversation)
