-- ===== src/Wechat/Compile.antt =====
-- agent-runner/src/platforms/wechatpadpro.rs: how a message becomes requests to WeChatPadPro. What `{:?}` prints of a source or a part is an argument, since the compiler derives it.
use dog_bot.Common.{
  Bool, true, not, ◌&&◌, Option, none, some, List, [], ◌∷◌, ◌++◌, keep, is_empty, keep_if,
  if◌then◌else◌,
}
use dog_bot.Common.Text.{Text, text, text_eq}
use dog_bot.Common.Text.Trim.{trim, is_whitespace}
use dog_bot.Common.Text.Split.{split, splitn}
use dog_bot.Common.Result.{Result, ok, err, ok_or, ◌>>=◌}
use dog_bot.Json.{Value, str, object, field, end}
use dog_bot.Protocol.{
  AssetSource, workspace_path, managed_store, external_url, platform_native_handle, bridge_handle,
  AssetRef, MessagePart, text_part, mention, image, file, voice, video, sticker, quote,
  OutboundMessage,
}
use dog_bot.Platform.{DeliveryContext, is_group_conversation}
use dog_bot.Wechat.Extract.{not_empty}
use dog_bot.Wechat.Texts.{
  MentionTarget, build_text_payload, default_group_mention_from_context, ends_with_whitespace,
  normalize_wechat_target_id, render_mention_text, target_of,
}

pub data OutboundRequest : Type 0 where
  text_request : Value → OutboundRequest
  file_request : Value → OutboundRequest

abbrev pub workspace_asset_path : (AssetSource → Text) → AssetSource → Result Text Text
workspace_asset_path debug (workspace_path path) = ok path
workspace_asset_path debug (managed_store value) =
    err (text "unsupported outbound WeChatPadPro asset source: " ++ debug (managed_store value))
workspace_asset_path debug (external_url value) =
    err (text "unsupported outbound WeChatPadPro asset source: " ++ debug (external_url value))
workspace_asset_path debug (platform_native_handle value) = err (
    text "unsupported outbound WeChatPadPro asset source: " ++ debug (platform_native_handle value))
workspace_asset_path debug (bridge_handle value) =
    err (text "unsupported outbound WeChatPadPro asset source: " ++ debug (bridge_handle value))

abbrev pub last_of : List Text → Option Text
last_of [] = none
last_of (w ∷ []) = some w
last_of (w ∷ v ∷ ws) = last_of (v ∷ ws)

-- `Path::file_name` on Unix: the last component, where empty ones and `.` do not count, unless it is `..`.
unfoldable pub file_name : Text → Option Text
unfolding split text_eq
file_name path =
    keep_if (λ w. not (text_eq w (text "..")))
      (last_of (keep (λ w. not (is_empty w) && not (text_eq w (text "."))) (split b'/' path)))

abbrev pub file_payload : Text → Text → Text → Text → Value
file_payload target path name file_type = object (
    field (text "toUserName") (str target) (
      field (text "filePath") (str path)
        (field (text "fileName") (str name) (field (text "fileType") (str file_type) end))))

-- The text that the loop has made of the parts, and the mentions in it.
pub record TextState : Type 0 where
  pub content : Text
  pub mentions : List MentionTarget

abbrev pub push_mention : TextState → MentionTarget → TextState
push_mention st target = record {
  content =
      st.content
      ++ ((if not (is_empty st.content) && not (ends_with_whitespace st.content)
            then text " "
            else [])
          ++ (render_mention_text target ++ text " "));
  mentions = st.mentions ++ target ∷ [];
}

abbrev pub mention_step : TextState → Text → Text → TextState
mention_step st actor display =
    if is_empty actor
    then st
    else push_mention st (record { actor_id = actor; display = some display })

abbrev pub unsupported_part : (MessagePart → Text) → MessagePart → Result Text TextState
unsupported_part debug part =
    err (text "unsupported outbound WeChatPadPro part in text message: " ++ debug part)

abbrev pub text_step : (MessagePart → Text) → TextState → MessagePart → Result Text TextState
text_step debug st (text_part t) = ok (record st { content = st.content ++ t })
text_step debug st (mention actor_id display) =
    ok (mention_step st (trim (normalize_wechat_target_id actor_id)) display)
text_step debug st (image a) = unsupported_part debug (image a)
text_step debug st (file a) = unsupported_part debug (file a)
text_step debug st (voice a) = unsupported_part debug (voice a)
text_step debug st (video a) = unsupported_part debug (video a)
text_step debug st (sticker a) = unsupported_part debug (sticker a)
text_step debug st (quote id excerpt) = unsupported_part debug (quote id excerpt)

unfoldable pub text_steps :
    (MessagePart → Text) → TextState → List MessagePart → Result Text TextState
unfolding trim normalize_wechat_target_id render_mention_text is_whitespace
text_steps debug st [] = ok st
text_steps debug st (part ∷ parts) = do st' ← text_step debug st part; text_steps debug st' parts

abbrev pub default_mentions : Bool → Option MentionTarget → List MentionTarget
default_mentions wanted none = []
default_mentions wanted (some target) = if wanted then target ∷ [] else []

abbrev pub text_payload : DeliveryContext → Bool → TextState → Option Value
text_payload context apply_default st =
    let is_group = is_group_conversation context.conversation_id in
    if is_empty (trim st.content)
    then none
    else some (
        build_text_payload (target_of context) (trim st.content) is_group (
          if apply_default && (is_group && is_empty st.mentions)
          then default_mentions true (default_group_mention_from_context context)
          else st.mentions))

abbrev pub push_text : List OutboundRequest → Option Value → List OutboundRequest
push_text requests none = requests
push_text requests (some payload) = requests ++ text_request payload ∷ []

-- The type under which a part is sent as a file, and its asset.
abbrev pub attachment : MessagePart → Option (Text × AssetRef)
attachment (image a) = some (text "image", a)
attachment (video a) = some (text "video", a)
attachment (file a) = some (text "file", a)
attachment (voice a) = some (text "file", a)
attachment (sticker a) = some (text "image", a)
attachment (text_part t) = none
attachment (mention actor display) = none
attachment (quote id excerpt) = none

abbrev pub take_text : List MessagePart → MessagePart → List MessagePart
take_text text_parts (text_part t) = text_parts ++ text_part t ∷ []
take_text text_parts (mention actor display) = text_parts ++ mention actor display ∷ []
take_text text_parts (image a) = text_parts
take_text text_parts (file a) = text_parts
take_text text_parts (voice a) = text_parts
take_text text_parts (video a) = text_parts
take_text text_parts (sticker a) = text_parts
take_text text_parts (quote id excerpt) = text_parts

abbrev pub not_none : List OutboundRequest → Result Text (List OutboundRequest)
not_none requests =
    if is_empty requests then err (text "empty outbound WeChatPadPro message") else ok requests

-- What `{:?}` prints.
pub record Debug : Type 0 where
  pub source : AssetSource → Text
  pub part : MessagePart → Text

module _ (debug : Debug) (context : DeliveryContext) (apply_default : Bool) where
  unfoldable pub compile_text_payload_from_parts : List MessagePart → Result Text (Option Value)
  unfolding text_steps splitn build_text_payload default_group_mention_from_context trim
      is_group_conversation
  compile_text_payload_from_parts parts = if is_empty parts then ok none else do
    st ← text_steps debug.part (record { content = []; mentions = [] }) parts
    ok (text_payload context apply_default st)

  unfoldable pub flush_text_request :
      List OutboundRequest → List MessagePart → Result Text (List OutboundRequest)
  unfolding compile_text_payload_from_parts
  flush_text_request requests text_parts = do
    payload ← compile_text_payload_from_parts text_parts
    ok (push_text requests payload)

  unfoldable pub compile_file_payload : Text → AssetRef → Result Text Value
  unfolding file_name splitn
  compile_file_payload file_type asset = do
    path ← workspace_asset_path debug.source asset.source
    name ←
        ok_or (text "asset path is missing a file name: " ++ path)
          (keep_if not_empty (file_name path))
    ok (file_payload (target_of context) path name file_type)

  unfoldable pub compile_parts :
      List OutboundRequest
      → List MessagePart
      → List MessagePart
      → Result Text (List OutboundRequest)
  unfolding flush_text_request compile_file_payload
  compile_parts requests text_parts [] = flush_text_request requests text_parts
  compile_parts requests text_parts (part ∷ parts) = elim (attachment part) [
    | none ↦ compile_parts requests (take_text text_parts part) parts
    | some (file_type, asset) ↦ do
      flushed ← flush_text_request requests text_parts
      payload ← compile_file_payload file_type asset
      compile_parts (flushed ++ file_request payload ∷ []) [] parts
  ]

  unfoldable pub compile_outbound_requests : OutboundMessage → Result Text (List OutboundRequest)
  unfolding compile_parts
  compile_outbound_requests message = do
    requests ← compile_parts [] [] message.parts
    not_none requests
