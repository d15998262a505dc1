-- ===== src/Protocol.antt =====
-- agent-runner/src/protocol: assets, messages, events and outbound plans.
use dog_bot.Common.{
  ℕ, Bool, false, Option, none, some, List, [], ◌∷◌, filter_some, or_else, if◌then◌else◌,
}
use dog_bot.Common.Text.{Text, text}
use dog_bot.Common.Text.Split.{join}
use dog_bot.Common.Int.{ℤ}
use dog_bot.Json.{Value}

pub data AssetSource : Type 0 where
  workspace_path managed_store external_url platform_native_handle bridge_handle :
      Text → AssetSource

pub record AssetRef : Type 0 where
  pub asset_id : Text
  pub kind : Text
  pub mime : Text
  pub size_bytes : ℕ
  pub source : AssetSource

pub data MessagePart : Type 0 where
  text_part : Text → MessagePart
  mention : Text → Text → MessagePart
  image file voice video sticker : AssetRef → MessagePart
  quote : Text → Text → MessagePart

pub record CanonicalMessage : Type 0 where
  pub message_id : Text
  pub reply_to : Option Text
  pub parts : List MessagePart
  pub mentions : List Text
  pub native_metadata : Value

-- The text of a part, and the display name of a mention.
abbrev pub projected : MessagePart → Option Text
projected (text_part t) = some t
projected (mention actor display) = some display
projected (image a) = none
projected (file a) = none
projected (voice a) = none
projected (video a) = none
projected (sticker a) = none
projected (quote id excerpt) = none

unfoldable pub project_plain_text : CanonicalMessage → Text
unfolding join
project_plain_text m = join [] (filter_some projected m.parts)

abbrev pub plain_text : CanonicalMessage → Text
plain_text m = project_plain_text m

pub data EventKind : Type 0 where
  message_event : CanonicalMessage → EventKind
  reaction_added reaction_removed : Text → Text → EventKind

pub record CanonicalEvent : Type 0 where
  pub platform : Text
  pub platform_account : Text
  pub conversation : Text
  pub actor : Text
  pub event_id : Text
  pub timestamp_epoch_secs : ℤ
  pub kind : EventKind
  pub raw_native_payload : Value

-- `CanonicalEvent::reaction_added`.
abbrev pub reaction_added_event :
    Text → Text → Text → Text → Text → ℤ → Text → Text → Value → CanonicalEvent
reaction_added_event platform account conversation actor id time target emoji raw = record {
  platform = platform;
  platform_account = account;
  conversation = conversation;
  actor = actor;
  event_id = id;
  timestamp_epoch_secs = time;
  kind = reaction_added target emoji;
  raw_native_payload = raw;
}

abbrev pub kind_of : EventKind → Text
kind_of (message_event m) = text "message"
kind_of (reaction_added t e) = text "reaction_added"
kind_of (reaction_removed t e) = text "reaction_removed"

abbrev pub kind_name : CanonicalEvent → Text
kind_name e = kind_of e.kind

abbrev pub message_in : EventKind → Option CanonicalMessage
message_in (message_event m) = some m
message_in (reaction_added t e) = none
message_in (reaction_removed t e) = none

-- `CanonicalEvent::message`.
abbrev pub message_of : CanonicalEvent → Option CanonicalMessage
message_of e = message_in e.kind

pub record ReactionAction : Type 0 where
  pub target_message_id : Text
  pub emoji : Text

pub record OutboundMessage : Type 0 where
  pub parts : List MessagePart
  pub reply_to : Option Text
  pub suppress_default_reply : Bool
  pub delivery_policy : Option Text

-- `OutboundMessage::text`.
abbrev pub text_message : Text → OutboundMessage
text_message t = record {
  parts = text_part t ∷ [];
  reply_to = none;
  suppress_default_reply = false;
  delivery_policy = none;
}

unfoldable pub effective_reply_to : OutboundMessage → Option Text → Option Text
effective_reply_to m default =
    or_else m.reply_to (if m.suppress_default_reply then none else default)

pub data OutboundAction : Type 0 where
  reaction_add reaction_remove : ReactionAction → OutboundAction

pub record OutboundPlan : Type 0 where
  pub messages : List OutboundMessage
  pub actions : List OutboundAction
  pub delivery_report_policy : Option Text
