-- ===== src/Wechat/Extract.antt =====
-- agent-runner/src/platforms/wechatpadpro.rs: what is looked up in an event of the webhook.
use dog_bot.Common.{
  ℕ, Bool, false, not, ◌&&◌, ◌||◌, Option, none, some, List, [], ◌∷◌, map, all, is_empty, is_some,
  unwrap_or, or_else, keep_if, map_some, ◌==◌, ◌>>=◌, if◌then◌else◌,
}
use dog_bot.Common.Text.{Text, text, text_eq}
use dog_bot.Common.Text.Trim.{trim, is_ascii_alphanumeric, to_ascii_lowercase}
use dog_bot.Common.Text.Split.{split_once, ends_with}
use dog_bot.Common.Int.{ℤ, pos, is_zero}
use dog_bot.Json.{
  Value, null, boolean, number, str, array, object, Fields, lookup, put, member, as_str, as_object,
}
use dog_bot.Platform.{string_value, integer_value}

abbrev pub merge_key : Value → Text → Fields → Fields
merge_key payload key merged =
    if is_some (lookup key merged)
    then merged
    else elim (member key payload) [ none ↦ merged | some value ↦ put key value merged ]

unfoldable pub merge_keys : Value → List Text → Fields → Fields
unfolding lookup put
merge_keys payload [] merged = merged
merge_keys payload (key ∷ keys) merged = merge_keys payload keys (merge_key payload key merged)

abbrev pub merge_top_level_metadata : Fields → Value → Fields
merge_top_level_metadata message payload =
    merge_keys payload
      (text "event_type" ∷ text "type" ∷ text "uuid" ∷ text "timestamp" ∷ text "signature" ∷ [])
      message

abbrev pub unwrap_data : Value → Option Fields → Value
unwrap_data payload none = payload
unwrap_data payload (some content) = elim (lookup (text "message") content >>= as_object) [
  | some message ↦ object (merge_top_level_metadata message payload)
  | none ↦ object content
]

unfoldable pub unwrap_event : Value → Value
unfolding merge_keys lookup
unwrap_event payload = elim (member (text "message") payload >>= as_object) [
  | some message ↦ object (merge_top_level_metadata message payload)
  | none ↦ unwrap_data payload (member (text "data") payload >>= as_object)
]

abbrev pub not_empty : Text → Bool
not_empty value = not (is_empty value)

-- The trimmed text under a key, if the test holds of it.
unfoldable pub text_at : (Text → Bool) → Value → Text → Option Text
unfolding lookup trim
text_at test event key = keep_if test (map_some trim (member key event >>= string_value))

-- The loops over keys: the first key with such a text.
unfoldable pub first_text : (Text → Bool) → Value → List Text → Option Text
unfolding text_at
first_text test event [] = none
first_text test event (key ∷ keys) = or_else (text_at test event key) (first_text test event keys)

abbrev pub raw_value : Value → Option Value
raw_value event = or_else (member (text "content") event) (
    or_else (member (text "Content") event)
      (or_else (member (text "text") event) (member (text "TextContent") event)))

unfoldable pub extract_raw_content : Value → Text
unfolding lookup trim
extract_raw_content event = trim (unwrap_or (raw_value event >>= as_str) [])

unfoldable pub is_sender_char : ℕ → Bool
unfolding is_ascii_alphanumeric
is_sender_char c = is_ascii_alphanumeric c || (c == b'_' || (c == b'@' || c == b'-'))

abbrev pub with_prefix : Text → Option (Text × Text) → Option Text × Text
with_prefix trimmed none = (none, trimmed)
with_prefix trimmed (some (sender, body)) =
    if is_empty sender || not (all is_sender_char sender)
    then (none, trimmed)
    else (some (trim sender), trim body)

unfoldable pub parse_transport_prefixed_content : Text → Option Text × Text
unfolding trim split_once is_sender_char
parse_transport_prefixed_content raw =
    with_prefix (trim raw) (split_once (b':' ∷ 10 ∷ []) (trim raw))

unfoldable pub extract_content : Value → Text
unfolding parse_transport_prefixed_content extract_raw_content
extract_content event = (parse_transport_prefixed_content (extract_raw_content event)).1

abbrev pub from_user : Value → Option Value
from_user event =
    or_else (member (text "fromUserName") event)
      (or_else (member (text "fromUsername") event) (member (text "FromUserName") event))

abbrev pub is_person : Text → Bool
is_person value = not (ends_with (text "@chatroom") value) && not (is_empty value)

unfoldable pub extract_sender : Value → Text
unfolding first_text parse_transport_prefixed_content extract_raw_content ends_with
extract_sender event =
    unwrap_or
      (or_else
        (first_text not_empty event (text "senderWxid" ∷ text "senderWxId" ∷ text "senderId" ∷ []))
        (or_else (parse_transport_prefixed_content (extract_raw_content event)).0
          (keep_if is_person (map_some trim (from_user event >>= string_value)))))
      []

unfoldable pub extract_group_id : Value → Option Text
unfolding first_text ends_with
extract_group_id event =
    or_else
      (first_text not_empty event (
        text "roomId"
        ∷ text "chatroomId"
        ∷ text "chatRoomName"
        ∷ text "fromChatRoom"
        ∷ text "fromGroup"
        ∷ []))
      (first_text (ends_with (text "@chatroom")) event (
        text "fromUserName"
        ∷ text "fromUsername"
        ∷ text "FromUserName"
        ∷ text "toUserName"
        ∷ text "toUsername"
        ∷ text "ToUserName"
        ∷ []))

abbrev pub is_yes : Text → Bool
is_yes value =
    text_eq value (text "1")
    || (text_eq value (text "true") || (text_eq value (text "yes") || text_eq value (text "on")))

abbrev pub group_flag : Value → Option Value → Bool
group_flag event none = is_some (extract_group_id event)
group_flag event (some (boolean b)) = b
group_flag event (some (number n)) = not (is_zero (unwrap_or n.int (pos 0)))
group_flag event (some (str s)) = is_yes (map to_ascii_lowercase (trim s))
group_flag event (some null) = false
group_flag event (some (array xs)) = false
group_flag event (some (object fs)) = false

unfoldable pub is_group_event : Value → Bool
unfolding extract_group_id lookup trim to_ascii_lowercase text_eq
is_group_event event = group_flag event (member (text "isGroup") event)

abbrev pub name_at : Value → Text → Option Text
name_at event key = keep_if not_empty (map_some trim (member key event >>= as_str))

unfoldable pub extract_sender_name : Value → Text
unfolding lookup trim
extract_sender_name event =
    unwrap_or
      (or_else (name_at event (text "senderNickName")) (
        or_else (name_at event (text "senderName")) (
          or_else (name_at event (text "fromNickname")) (
            or_else (name_at event (text "fromUserNickName"))
              (name_at event (text "senderNick"))))))
      []

abbrev pub message_type : Value → Option Text
message_type event = keep_if not_empty (
    map_some (λ value. map to_ascii_lowercase (trim value))
      (or_else (member (text "msgType") event) (member (text "MsgType") event) >>= string_value))

unfoldable pub is_text_event : Value → Bool
unfolding extract_content lookup trim to_ascii_lowercase text_eq
is_text_event event = elim (message_type event) [
  | some value ↦ text_eq value (text "1") || text_eq value (text "text")
  | none ↦ not_empty (extract_content event)
]

unfoldable pub extract_message_id : Value → Option Text
unfolding first_text
extract_message_id event =
    first_text not_empty event
      (text "msgId" ∷ text "MsgId" ∷ text "newMsgId" ∷ text "newmsgId" ∷ [])

unfoldable pub extract_reply_to : Value → Option Text
unfolding first_text
extract_reply_to event =
    first_text not_empty event
      (text "replyTo" ∷ text "quoteMsgId" ∷ text "replyMsgId" ∷ text "reply_to_msg_id" ∷ [])

abbrev pub time_at : Value → Text → Option ℤ
time_at event key = member key event >>= integer_value

-- `now` is the clock, in seconds.
unfoldable pub extract_timestamp : ℤ → Value → ℤ
unfolding integer_value lookup
extract_timestamp now event =
    unwrap_or
      (or_else (time_at event (text "createTime")) (
        or_else (time_at event (text "CreateTime"))
          (or_else (time_at event (text "timestamp")) (time_at event (text "time")))))
      now
