-- ===== src/Platform.antt =====
-- agent-runner/src/platforms/mod.rs and common.rs, and dispatch.rs: what the adapters share, and the
-- check of a plan before it is sent.
pub mod Client
pub mod Dispatch
pub mod Registry
pub mod Posts
mod Tests
use dog_bot.Common.{
  Bool, false, not, Option, none, some, List, [], ◌∷◌, ◌++◌, is_empty, map_some, if◌then◌else◌,
}
use dog_bot.Common.Text.{Text, text, text_eq}
use dog_bot.Common.Text.Trim.{trim}
use dog_bot.Common.Text.Split.{split, nth, starts_with, strip_prefix}
use dog_bot.Common.Text.Decimal.{parse_i64}
use dog_bot.Common.Int.{ℤ}
use dog_bot.Common.Result.{Result, ok, err, ◌>>=◌}
use dog_bot.Json.{Value, null, boolean, number, str, array, object}
use dog_bot.Models.{RunResponse}
use dog_bot.Protocol.{
  AssetSource, workspace_path, managed_store, external_url, platform_native_handle, bridge_handle,
  AssetRef, MessagePart, text_part, mention, image, file, voice, video, sticker, quote,
  OutboundMessage, OutboundPlan, CanonicalMessage, CanonicalEvent, message_of,
}

abbrev pub string_value : Value → Option Text
string_value (str s) = some s
string_value (number n) = some n.shown
string_value null = none
string_value (boolean b) = none
string_value (array xs) = none
string_value (object fs) = none

unfoldable pub integer_value : Value → Option ℤ
unfolding parse_i64 trim
integer_value (number n) = n.int
integer_value (str s) = parse_i64 (trim s)
integer_value null = none
integer_value (boolean b) = none
integer_value (array xs) = none
integer_value (object fs) = none

unfoldable pub normalize_actor_id : Text → Text → Text
unfolding strip_prefix
normalize_actor_id value prefix = if starts_with prefix value then value else prefix ++ value

pub record DeliveryContext : Type 0 where
  pub platform : Text
  pub platform_account : Text
  pub conversation_id : Text
  pub target_actor_id : Option Text
  pub target_display_name : Option Text
  pub reply_to_message_id : Option Text
  pub native_event : Option Value

-- `conversation.split(':').nth(1) == Some("group")`.
unfoldable pub is_group_conversation : Text → Bool
unfolding split text_eq
is_group_conversation conversation = elim (nth 1 (split b':' conversation)) [
  | none ↦ false
  | some scope ↦ text_eq scope (text "group")
]

unfoldable pub delivery_context_from_event : CanonicalEvent → DeliveryContext
unfolding is_group_conversation
delivery_context_from_event e = record {
  platform = e.platform;
  platform_account = e.platform_account;
  conversation_id = e.conversation;
  target_actor_id = if is_group_conversation e.conversation then some e.actor else none;
  target_display_name = none;
  reply_to_message_id = map_some (λ (m : CanonicalMessage). m.message_id) (message_of e);
  native_event = some e.raw_native_payload;
}

unfoldable pub run_response_output : RunResponse → Text
unfolding trim
run_response_output r = if not (is_empty (trim r.stdout)) then trim r.stdout else trim r.stderr

-- The asset of a part that has one.
abbrev pub asset_of : MessagePart → Option AssetRef
asset_of (image a) = some a
asset_of (file a) = some a
asset_of (voice a) = some a
asset_of (video a) = some a
asset_of (sticker a) = some a
asset_of (text_part t) = none
asset_of (mention actor display) = none
asset_of (quote id excerpt) = none

unfoldable pub check_source : AssetSource → Result Text (Unit {0})
unfolding strip_prefix
check_source (workspace_path path) =
    if starts_with (text "/workspace/") path
    then ok tt
    else err (text "asset path must stay under /workspace: " ++ path)
check_source (managed_store value) = ok tt
check_source (external_url value) = ok tt
check_source (platform_native_handle value) = ok tt
check_source (bridge_handle value) = ok tt

abbrev pub check_asset : Option AssetRef → Result Text (Unit {0})
check_asset none = ok tt
check_asset (some asset) = check_source asset.source

unfoldable pub check_parts : List MessagePart → Result Text (Unit {0})
unfolding check_source
check_parts [] = ok tt
check_parts (p ∷ parts) = do _ ← check_asset (asset_of p); check_parts parts

unfoldable pub check_messages : List OutboundMessage → Result Text (Unit {0})
unfolding check_parts
check_messages [] = ok tt
check_messages (m ∷ messages) = do _ ← check_parts m.parts; check_messages messages

abbrev pub validate_workspace_assets : OutboundPlan → Result Text (Unit {0})
validate_workspace_assets plan = check_messages plan.messages

unfoldable pub dispatch_plan : OutboundPlan → Result Text (Unit {0})
unfolding check_messages
dispatch_plan plan = validate_workspace_assets plan
