-- ===== src/Normalizer/Actions.antt =====
-- agent-runner/src/normalizer.rs: the directives and the actions of a block.
use dog_bot.Common.{
  Bool, true, false, not, Option, none, some, List, [], ◌∷◌, ◌++◌, is_empty, keep_if, map_some,
  ◌>>=◌, if◌then◌else◌,
}
use dog_bot.Common.Text.{Text, text, text_eq}
use dog_bot.Common.Text.Trim.{trim}
use dog_bot.Protocol.{
  AssetSource, workspace_path, managed_store, external_url, platform_native_handle, bridge_handle,
  AssetRef, MessagePart, text_part, image, file, voice, video, sticker, ReactionAction,
  OutboundMessage, OutboundAction, reaction_add, reaction_remove,
}
use dog_bot.Common.Result.{Result, ok, err}
use dog_bot.Json.{Value, null, boolean, number, str, array, object}
use dog_bot.Models.{trim_to_option}

pub data ReplyToDirective : Type 0 where
  missing : ReplyToDirective
  nothing : ReplyToDirective
  value : Text → ReplyToDirective

-- `Deserialize` of a member that is there; without it, the directive is the default, `missing`.
abbrev pub deserialize_reply_to : Value → Result Text ReplyToDirective
deserialize_reply_to null = ok nothing
deserialize_reply_to (str s) = ok (value s)
deserialize_reply_to (boolean b) = err (text "reply_to must be a string or null")
deserialize_reply_to (number n) = err (text "reply_to must be a string or null")
deserialize_reply_to (array xs) = err (text "reply_to must be a string or null")
deserialize_reply_to (object fs) = err (text "reply_to must be a string or null")

pub record MentionSpec : Type 0 where
  pub actor_id : Text
  pub display : Text

pub record ActionItem : Type 0 where
  pub action_type : Text
  pub target_message_id : Option Text
  pub emoji : Option Text
  pub reply_to : ReplyToDirective
  pub source_type : Option Text
  pub source_value : Option Text
  pub caption_text : Option Text

pub record ActionEnvelope : Type 0 where
  pub reply_to : ReplyToDirective
  pub mentions : List MentionSpec
  pub actions : List ActionItem

pub data ActionBlock : Type 0 where
  envelope : ActionEnvelope → ActionBlock
  single : ActionItem → ActionBlock

unfoldable pub parse_reply_to_directive : ReplyToDirective → Option (Option Text × Bool)
unfolding trim_to_option
parse_reply_to_directive missing = none
parse_reply_to_directive nothing = some (none, true)
parse_reply_to_directive (value v) =
    map_some (λ reply_to. (some reply_to, false)) (trim_to_option v)

unfoldable pub default_mime : Text → Text
unfolding text_eq
default_mime part_kind =
    if text_eq part_kind (text "image")
    then text "image/*"
    else if text_eq part_kind (text "file")
    then text "application/octet-stream"
    else if text_eq part_kind (text "voice")
    then text "audio/*"
    else if text_eq part_kind (text "video")
    then text "video/*"
    else if text_eq part_kind (text "sticker")
    then text "application/x-sticker"
    else text "application/octet-stream"

-- The kinds of part that an action sends: the word of the kind, and the constructor of its part.
abbrev pub PartKind : Type 0
PartKind = Text × (AssetRef → MessagePart)

unfoldable pub part_kind : Text → Option PartKind
unfolding text_eq
part_kind action_type =
    if text_eq action_type (text "send_image")
    then some (text "image", image)
    else if text_eq action_type (text "send_file")
    then some (text "file", file)
    else if text_eq action_type (text "send_voice")
    then some (text "voice", voice)
    else if text_eq action_type (text "send_video")
    then some (text "video", video)
    else if text_eq action_type (text "send_sticker")
    then some (text "sticker", sticker)
    else none

unfoldable pub source_kind : Text → Option (Text → AssetSource)
unfolding text_eq
source_kind source_type =
    if text_eq source_type (text "workspace_path")
    then some workspace_path
    else if text_eq source_type (text "stored_asset")
    then some managed_store
    else if text_eq source_type (text "remote_url")
    then some external_url
    else if text_eq source_type (text "platform_native_handle")
    then some platform_native_handle
    else if text_eq source_type (text "bridge_handle")
    then some bridge_handle
    else none

abbrev pub asset_for : Text → Text → (Text → AssetSource) → AssetRef
asset_for kind source_value source = record {
  asset_id = kind ++ (text ":" ++ source_value);
  kind = kind;
  mime = default_mime kind;
  size_bytes = 0;
  source = source source_value;
}

abbrev pub caption_parts : Option Text → List MessagePart
caption_parts none = []
caption_parts (some caption) = if is_empty (trim caption) then [] else text_part (trim caption) ∷ []

abbrev pub reply_of : Option (Option Text × Bool) → Option Text
reply_of none = none
reply_of (some (reply_to, suppress)) = reply_to

abbrev pub suppress_of : Option (Option Text × Bool) → Bool
suppress_of none = false
suppress_of (some (reply_to, suppress)) = suppress

abbrev pub media_message : ActionItem → PartKind → Text → (Text → AssetSource) → OutboundMessage
media_message item (kind, part) source_value source = record {
  parts = part (asset_for kind source_value source) ∷ caption_parts item.caption_text;
  reply_to = reply_of (parse_reply_to_directive item.reply_to);
  suppress_default_reply = suppress_of (parse_reply_to_directive item.reply_to);
  delivery_policy = none;
}

unfoldable pub media_action_to_message : ActionItem → Option OutboundMessage
unfolding part_kind source_kind parse_reply_to_directive default_mime trim
media_action_to_message item = do
  kind ← part_kind item.action_type
  source_type ← item.source_type
  source ← source_kind source_type
  source_value ← item.source_value
  some (media_message item kind source_value source)

-- The messages and the actions that the blocks have asked for so far.
abbrev pub Collected : Type 0
Collected = List OutboundMessage × List OutboundAction

abbrev pub given : Option Text → Option Text
given o = keep_if (λ value. not (is_empty value)) o

-- The reaction of an item, if it names a message and an emoji.
abbrev pub reaction_of : (ReactionAction → OutboundAction) → ActionItem → Option OutboundAction
reaction_of kind item = do
  target_message_id ← given item.target_message_id
  emoji ← given item.emoji
  some (kind (record { target_message_id = target_message_id; emoji = emoji }))

abbrev pub push_action : Collected → Option OutboundAction → Collected
push_action (messages, actions) none = (messages, actions)
push_action (messages, actions) (some action) = (messages, actions ++ action ∷ [])

abbrev pub push_message : Collected → Option OutboundMessage → Collected
push_message (messages, actions) none = (messages, actions)
push_message (messages, actions) (some message) = (messages ++ message ∷ [], actions)

unfoldable pub append_action_item : Collected → ActionItem → Collected
unfolding media_action_to_message text_eq
append_action_item st item =
    if text_eq item.action_type (text "reaction_add")
    then push_action st (reaction_of reaction_add item)
    else if text_eq item.action_type (text "reaction_remove")
    then push_action st (reaction_of reaction_remove item)
    else push_message st (media_action_to_message item)

unfoldable pub append_action_items : Collected → List ActionItem → Collected
unfolding append_action_item
append_action_items st [] = st
append_action_items st (item ∷ items) = append_action_items (append_action_item st item) items
