-- ===== src/Trigger.antt =====
-- agent-runner/src/trigger_resolver.rs: which canonical events start a run or a status report.
pub mod Decisions
mod Tests
use dog_bot.Common.{
  Bool, true, false, not, ◌&&◌, Option, none, some, List, [], ◌∷◌, ◌++◌, any, is_empty,
  if◌then◌else◌, String,
}
use dog_bot.Common.Text.{Text, text, text_eq}
use dog_bot.Common.Text.Trim.{trim}
use dog_bot.Common.Text.Split.{splitn, nth}
use dog_bot.Protocol.{
  MessagePart, text_part, mention, image, file, voice, video, sticker, quote, CanonicalMessage,
  CanonicalEvent, EventKind, message_event, reaction_added, reaction_removed, project_plain_text,
}

pub data TriggerDecision : Type 0 where
  run status ignore : TriggerDecision

-- The second of at most three fields between colons.
unfoldable pub conversation_scope : Text → Option Text
unfolding splitn
conversation_scope conversation = nth 1 (splitn 3 b':' conversation)

-- The loop of `canonical_trigger_text`: `skipping` holds until something else than white space or a
-- mention of the bot was seen.
unfoldable pub trigger_loop : Text → Bool → Text → List MessagePart → Text
unfolding trim
trigger_loop account skipping projected [] = projected
trigger_loop account skipping projected (text_part t ∷ parts) =
    let skipped = trigger_loop account skipping projected parts in
    let taken = trigger_loop account false (projected ++ t) parts in
    if skipping && is_empty (trim t) then skipped else taken
trigger_loop account skipping projected (mention actor display ∷ parts) =
    let skipped = trigger_loop account skipping projected parts in
    let taken = trigger_loop account false (projected ++ display) parts in
    if skipping && text_eq actor account then skipped else taken
trigger_loop account skipping projected (image a ∷ parts) =
    trigger_loop account false projected parts
trigger_loop account skipping projected (file a ∷ parts) =
    trigger_loop account false projected parts
trigger_loop account skipping projected (voice a ∷ parts) =
    trigger_loop account false projected parts
trigger_loop account skipping projected (video a ∷ parts) =
    trigger_loop account false projected parts
trigger_loop account skipping projected (sticker a ∷ parts) =
    trigger_loop account false projected parts
trigger_loop account skipping projected (quote id excerpt ∷ parts) =
    trigger_loop account false projected parts

unfoldable pub canonical_trigger_text : CanonicalMessage → Text → Text
unfolding trigger_loop project_plain_text
canonical_trigger_text message account =
    let projected = trigger_loop account true [] message.parts in
    if is_empty (trim projected) then trim (project_plain_text message) else trim projected

-- The branch of a private conversation, on the normalised text.
abbrev pub resolve_private : Text → TriggerDecision
resolve_private normalized =
    if is_empty normalized
    then ignore
    else if text_eq normalized (text "/agent-status")
    then status
    else run

-- The branch of a group: `mentions_bot` first.
abbrev pub resolve_group : Bool → Text → TriggerDecision
resolve_group mentions_bot normalized =
    if not mentions_bot
    then ignore
    else if text_eq normalized (text "/agent-status")
    then status
    else run

-- `message.mentions` names the account.
abbrev pub mentions_bot : CanonicalMessage → Text → Bool
mentions_bot message account = any (λ m. text_eq m account) message.mentions

abbrev pub resolve_scope : Option Text → CanonicalMessage → Text → TriggerDecision
resolve_scope none message account = ignore
resolve_scope (some scope) message account =
    if text_eq scope (text "private")
    then resolve_private (canonical_trigger_text message account)
    else if text_eq scope (text "group")
    then resolve_group (mentions_bot message account) (canonical_trigger_text message account)
    else ignore

abbrev pub resolve_kind : EventKind → Text → Text → TriggerDecision
resolve_kind (message_event message) conversation account =
    resolve_scope (conversation_scope conversation) message account
resolve_kind (reaction_added target emoji) conversation account = ignore
resolve_kind (reaction_removed target emoji) conversation account = ignore

unfoldable pub resolve : CanonicalEvent → TriggerDecision
unfolding conversation_scope canonical_trigger_text
resolve event = resolve_kind event.kind event.conversation event.platform_account

abbrev pub triggers : TriggerDecision → Bool
triggers run = true
triggers status = true
triggers ignore = false

unfoldable pub should_trigger_run : CanonicalEvent → Bool
unfolding resolve
should_trigger_run event = triggers (resolve event)
