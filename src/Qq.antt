-- ===== src/Qq.antt =====
-- agent-runner/src/platforms/qq.rs: how an outbound message becomes the text that NapCat is sent; the children `Receive` and `Send`
-- hold the rest of the file.
pub mod Reactions
pub mod Escape
pub mod Encoding
pub mod Receive
pub mod Replies
pub mod Send
pub mod Delivery
pub mod Isolation
pub mod Origin
pub mod Rounds
mod Tests
use dog_bot.Common.{
  ℕ, not, ◌||◌, Option, none, some, List, [], ◌∷◌, ◌++◌, length, is_empty, all, leb, ◌==◌,
  if◌then◌else◌, or_else, unwrap_or,
}
use dog_bot.Common.Text.{Text, text}
use dog_bot.Common.Text.Trim.{is_ascii_digit}
use dog_bot.Common.Text.Split.{strip_prefix, replace_char}
use dog_bot.Common.Result.{Result, ok, err, ◌>>=◌}
use dog_bot.Protocol.{
  AssetSource, workspace_path, managed_store, external_url, platform_native_handle, bridge_handle,
  AssetRef, MessagePart, text_part, mention, image, file, voice, video, sticker, quote,
  OutboundMessage,
}

abbrev pub checked_target : Text → Text → Result Text Text
checked_target value normalized =
    if is_empty normalized || not (all is_ascii_digit normalized)
    then err (text "invalid QQ target id: " ++ value)
    else ok normalized

unfoldable pub normalize_qq_target_id : Text → Result Text Text
unfolding strip_prefix is_ascii_digit
normalize_qq_target_id value = checked_target value (
    unwrap_or
      (or_else (strip_prefix (text "qq:user:") value) (strip_prefix (text "qq:bot_uin:") value))
      value)

unfoldable pub escape_cq_text : Text → Text
unfolding replace_char
escape_cq_text value =
    replace_char b']' (text "&#93;")
      (replace_char b'[' (text "&#91;") (replace_char b'&' (text "&amp;") value))

abbrev pub at_code : Text → Text
at_code target = text "[CQ:at,qq=" ++ (target ++ text "]")

abbrev pub reply_code : Text → Text
reply_code target = text "[CQ:reply,id=" ++ (target ++ text "]")

-- The variables of the loop of `encode_qq_text`; `digits` is there while its inner loop runs, behind an `@`.
pub record EncodeState : Type 0 where
  pub output : Text
  pub plain : Text
  pub digits : Option Text

-- What follows the inner loop.
unfoldable pub end_digits : EncodeState → Option Text → EncodeState
unfolding escape_cq_text
end_digits st none = st
end_digits st (some digits) =
    if leb 5 (length digits)
    then record {
      output = st.output ++ (escape_cq_text st.plain ++ at_code digits);
      plain = [];
      digits = none;
    }
    else record { output = st.output; plain = st.plain ++ (b'@' ∷ digits); digits = none }

abbrev pub take_plain : ℕ → EncodeState → EncodeState
take_plain c st =
    if c == b'@' then record st { digits = some [] } else record st { plain = st.plain ++ c ∷ [] }

-- One character: of the inner loop while it takes digits, or of the outer one.
unfoldable pub encode_char : ℕ → EncodeState → Option Text → EncodeState
unfolding end_digits is_ascii_digit
encode_char c st none = take_plain c st
encode_char c st (some digits) =
    if is_ascii_digit c
    then record st { digits = some (digits ++ c ∷ []) }
    else take_plain c (end_digits st (some digits))

unfoldable pub encode_loop : EncodeState → Text → EncodeState
unfolding encode_char
encode_loop st [] = end_digits st st.digits
encode_loop st (c ∷ s) = encode_loop (encode_char c st st.digits) s

unfoldable pub encode_qq_text : Text → Text
unfolding encode_loop escape_cq_text
encode_qq_text value =
    let st = encode_loop (record { output = []; plain = []; digits = none }) value in
    st.output ++ escape_cq_text st.plain

abbrev pub source_text : AssetSource → Text
source_text (workspace_path t) = t
source_text (managed_store t) = t
source_text (external_url t) = t
source_text (platform_native_handle t) = t
source_text (bridge_handle t) = t

abbrev pub qq_asset_reference : AssetRef → Text
qq_asset_reference asset = source_text asset.source

abbrev pub file_code : Text → AssetRef → Text
file_code kind asset =
    text "[CQ:" ++ (kind ++ (text ",file=" ++ (qq_asset_reference asset ++ text "]")))

unfoldable pub encode_part : MessagePart → Result Text Text
unfolding encode_qq_text normalize_qq_target_id
encode_part (text_part t) = ok (encode_qq_text t)
encode_part (mention actor_id display) = do
  target ← normalize_qq_target_id actor_id
  ok (at_code target)
encode_part (image asset) = ok (file_code (text "image") asset)
encode_part (file asset) = ok (file_code (text "file") asset)
encode_part (voice asset) = ok (file_code (text "record") asset)
encode_part (video asset) = ok (file_code (text "video") asset)
encode_part (sticker asset) = ok (file_code (text "image") asset)
encode_part (quote target_message_id excerpt) = do
  target ← normalize_qq_target_id target_message_id
  ok (reply_code target)

unfoldable pub encode_parts : List MessagePart → Result Text Text
unfolding encode_part
encode_parts [] = ok []
encode_parts (p ∷ parts) = do first ← encode_part p; rest ← encode_parts parts; ok (first ++ rest)

abbrev pub encode_reply : Option Text → Result Text Text
encode_reply none = ok []
encode_reply (some reply_to) = do target ← normalize_qq_target_id reply_to; ok (reply_code target)

abbrev pub encode_mention : Option Text → Result Text Text
encode_mention none = ok []
encode_mention (some mention_user_id) = do
  target ← normalize_qq_target_id mention_user_id
  ok (at_code target ++ text " ")

unfoldable pub compile_outbound_message :
    OutboundMessage → Option Text → Option Text → Result Text Text
unfolding encode_parts
compile_outbound_message message reply_to mention_user_id = do
  reply ← encode_reply reply_to
  mentioned ← encode_mention mention_user_id
  body ← encode_parts message.parts
  ok (reply ++ (mentioned ++ body))
