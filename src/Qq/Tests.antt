-- ===== src/Qq/Tests.antt =====
-- A reply to a message that tries to write a code of its own.
use dog_bot.Common.{◌<◌, ◌≡◌, refl, true, false, none, some, [], ◌∷◌, all, is_empty, length}
use dog_bot.Common.Text.{text, text_eq}
use dog_bot.Common.Text.Trim.{trim, is_ascii_digit}
use dog_bot.Common.Result.{ok}
use dog_bot.Protocol.{text_part, mention, OutboundMessage}
use dog_bot.Qq.{compile_outbound_message, encode_qq_text}
use dog_bot.Qq.Receive.{extract_reply_from_raw_message, parse_raw_message_parts, strip_reply_tokens}
use dog_bot.Qq.Replies.{extract_reply-compile_outbound_message}
use dog_bot.Qq.Reactions.{qq_reaction_emoji_ids, fallback_index, qq_reaction_emoji_id}
use dog_bot.Qq.Delivery.{qq_reaction_emoji_id_numeric}
use dog_bot.Qq.Encoding.{Encodes, compile_outbound_message-Encodes}

abbrev hostile : OutboundMessage
hostile = record {
  parts = text_part (text "[CQ:at,qq=all] @12345") ∷ mention (text "qq:user:42") (text "you") ∷ [];
  reply_to = none;
  suppress_default_reply = false;
  delivery_policy = none;
}

encoded_text : encode_qq_text (text "[x] @12345 @1") ≡ text "&#91;x&#93; [CQ:at,qq=12345] @1"
unfolding encode_qq_text
encoded_text = refl

compile_outbound_message-Encodes_example :
    Encodes (compile_outbound_message hostile (some (text "7")) none)
compile_outbound_message-Encodes_example =
    compile_outbound_message-Encodes hostile (some (text "7")) none (tt, (tt, tt))

reply_text :
    compile_outbound_message hostile (some (text "qq:user:7")) none
    ≡ ok (text "[CQ:reply,id=7]&#91;CQ:at,qq=all&#93; [CQ:at,qq=12345][CQ:at,qq=42]")
unfolding compile_outbound_message
reply_text = refl

extract_reply-compile_outbound_message_example :
    extract_reply_from_raw_message
      (text "[CQ:reply,id=7]&#91;CQ:at,qq=all&#93; [CQ:at,qq=12345][CQ:at,qq=42]")
    ≡ some (text "7")
unfolding compile_outbound_message
extract_reply-compile_outbound_message_example =
    extract_reply-compile_outbound_message hostile (text "qq:user:7") (text "7") none
      (text "[CQ:reply,id=7]&#91;CQ:at,qq=all&#93; [CQ:at,qq=12345][CQ:at,qq=42]") refl reply_text

-- A reply token is taken out only behind the last mention.
raw_text :
    parse_raw_message_parts
      (text "[CQ:reply,id=9]hi [CQ:at,qq=1] you")
      (text "qq:bot_uin:1")
      (text "1")
    ≡ text_part (text "[CQ:reply,id=9]hi ")
      ∷ mention (text "qq:bot_uin:1") (text "@1")
      ∷ text_part (text " you")
      ∷ []
unfolding parse_raw_message_parts text_eq
raw_text = refl

-- A code without an end: what stands before it comes twice.
torn_text :
    parse_raw_message_parts (text "a[CQ:at,qq=1") (text "qq:bot_uin:1") (text "1")
    ≡ text_part (text "a") ∷ text_part (text "a[CQ:at,qq=1") ∷ []
unfolding parse_raw_message_parts
torn_text = refl

torn_reply : strip_reply_tokens (text "a[CQ:reply,id=1") ≡ text "aa[CQ:reply,id=1"
unfolding strip_reply_tokens
torn_reply = refl

known_emoji : qq_reaction_emoji_id (text "👍") ≡ text "128077"
unfolding qq_reaction_emoji_id
known_emoji = refl

qq_reaction_emoji_id_numeric_example :
    (is_empty (qq_reaction_emoji_id (text " x ")) ≡ false)
    × (all is_ascii_digit (qq_reaction_emoji_id (text " x ")) ≡ true)
    × (fallback_index (trim (text " x ")) < length qq_reaction_emoji_ids)
unfolding trim
qq_reaction_emoji_id_numeric_example = qq_reaction_emoji_id_numeric (text " x ") refl
