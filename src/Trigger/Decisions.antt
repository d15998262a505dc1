-- ===== src/Trigger/Decisions.antt =====
-- Which events trigger, and what the trigger text drops.
use dog_bot.Common.{
  Bool, true, false, not, ◌&&◌, ◌||◌, Option, none, some, List, [], ◌∷◌, ◌++◌, all, is_empty, All,
  filter_some, ◌≡◌, refl, ◌∙◌, arith, ◌↔◌,
}
use dog_bot.Common.Text.{Text, text, text_eq, text_eq_iff}
use dog_bot.Common.Text.Trim.{trim}
use dog_bot.Common.Text.Blank.{is_blank, is_empty-trim, is_blank-append, is_blank-join}
use dog_bot.Protocol.{
  MessagePart, text_part, mention, image, file, voice, video, sticker, quote, CanonicalMessage,
  CanonicalEvent, message_event, project_plain_text, projected,
}
use dog_bot.Trigger.{
  status, conversation_scope, trigger_loop, canonical_trigger_text, mentions_bot, resolve,
  should_trigger_run,
}

trigger_loop_blank :
    (account : Text) (skipping : Bool) (out : Text) (parts : List MessagePart)
    → is_blank out ≡ true
    → all is_blank (filter_some projected parts) ≡ true
    → is_blank (trigger_loop account skipping out parts) ≡ true
unfolding trigger_loop
trigger_loop_blank account skipping out [] h k = h
trigger_loop_blank account skipping out (text_part t ∷ parts) h k = ground (
  arith,
  is_blank-append out t,
  trigger_loop_blank account skipping out parts,
  trigger_loop_blank account false (out ++ t) parts,
)
trigger_loop_blank account skipping out (mention actor display ∷ parts) h k = ground (
  arith,
  is_blank-append out display,
  trigger_loop_blank account skipping out parts,
  trigger_loop_blank account false (out ++ display) parts,
)
trigger_loop_blank account skipping out (image a ∷ parts) h k =
    trigger_loop_blank account false out parts h k
trigger_loop_blank account skipping out (file a ∷ parts) h k =
    trigger_loop_blank account false out parts h k
trigger_loop_blank account skipping out (voice a ∷ parts) h k =
    trigger_loop_blank account false out parts h k
trigger_loop_blank account skipping out (video a ∷ parts) h k =
    trigger_loop_blank account false out parts h k
trigger_loop_blank account skipping out (sticker a ∷ parts) h k =
    trigger_loop_blank account false out parts h k
trigger_loop_blank account skipping out (quote i e ∷ parts) h k =
    trigger_loop_blank account false out parts h k

is_blank-project_plain_text :
    (m : CanonicalMessage)
    → is_blank (project_plain_text m) ≡ all is_blank (filter_some projected m.parts)
unfolding project_plain_text
is_blank-project_plain_text m = is_blank-join (filter_some projected m.parts)

-- The trigger text is empty just when the message has nothing but white space to show.
pub is_empty-canonical_trigger_text :
    (m : CanonicalMessage) (account : Text)
    → is_empty (canonical_trigger_text m account) ≡ is_blank (project_plain_text m)
unfolding canonical_trigger_text
is_empty-canonical_trigger_text m account = ground (
  arith,
  is_empty-trim (trigger_loop account true [] m.parts),
  is_empty-trim (project_plain_text m),
  is_blank-project_plain_text m,
  trigger_loop_blank account true [] m.parts refl,
)

abbrev pub in_scope : Text → CanonicalEvent → Bool
in_scope scope event = elim (conversation_scope event.conversation) [
  | none ↦ false
  | some found ↦ text_eq found scope
]

-- A message event triggers a run or a status report just when its conversation is private and its plain text is not blank, or its conversation is a group and the message mentions the bot's account.
pub should_trigger_run_message :
    (event : CanonicalEvent) (m : CanonicalMessage)
    → event.kind ≡ message_event m
    → should_trigger_run event ≡ (
        (in_scope (text "private") event && not (is_blank (project_plain_text m)))
        || (in_scope (text "group") event && mentions_bot m event.platform_account))
unfolding should_trigger_run resolve
should_trigger_run_message event m h = go (conversation_scope event.conversation) refl
  where
    go :
        (o : Option Text)
        → conversation_scope event.conversation ≡ o
        → should_trigger_run event ≡ (
            (in_scope (text "private") event && not (is_blank (project_plain_text m)))
            || (in_scope (text "group") event && mentions_bot m event.platform_account))
    go none e = ground (arith, h, e)
    go (some found) e = ground (
      arith,
      h,
      e,
      text_eq_iff found (text "private"),
      text_eq_iff found (text "group"),
      is_empty-canonical_trigger_text m event.platform_account,
    )

-- A status report is decided only for the text `/agent-status`, and a run never for it.
pub resolve_status_text :
    (event : CanonicalEvent) (m : CanonicalMessage)
    → event.kind ≡ message_event m
    → should_trigger_run event ≡ true
    → (resolve event ≡ status)
      ↔ (canonical_trigger_text m event.platform_account ≡ text "/agent-status")
unfolding should_trigger_run resolve
resolve_status_text event m h t =
    ground
      (arith, text_eq_iff (canonical_trigger_text m event.platform_account) (text "/agent-status"))

-- A part that the loop drops while it skips.
abbrev pub IsLead : Text → MessagePart → Type 0
IsLead account (text_part t) = is_blank t ≡ true
IsLead account (mention actor display) = actor ≡ account
IsLead account (image a) = ⊥
IsLead account (file a) = ⊥
IsLead account (voice a) = ⊥
IsLead account (video a) = ⊥
IsLead account (sticker a) = ⊥
IsLead account (quote i e) = ⊥

trigger_loop_lead :
    (account : Text) (p : MessagePart) (parts : List MessagePart)
    → IsLead account p
    → trigger_loop account true [] (p ∷ parts) ≡ trigger_loop account true [] parts
unfolding trigger_loop
trigger_loop_lead account (text_part t) parts h = ground (arith, is_empty-trim t)
trigger_loop_lead account (mention actor display) parts h =
    ground (arith, text_eq_iff actor account)
trigger_loop_lead account (image a) parts h = absurd h
trigger_loop_lead account (file a) parts h = absurd h
trigger_loop_lead account (voice a) parts h = absurd h
trigger_loop_lead account (video a) parts h = absurd h
trigger_loop_lead account (sticker a) parts h = absurd h
trigger_loop_lead account (quote i e) parts h = absurd h

trigger_loop_leads :
    (account : Text) (lead parts : List MessagePart)
    → All (IsLead account) lead
    → trigger_loop account true [] (lead ++ parts) ≡ trigger_loop account true [] parts
trigger_loop_leads account [] parts h = refl
trigger_loop_leads account (p ∷ lead) parts h =
    trigger_loop_lead account p (lead ++ parts) h.0 ∙ trigger_loop_leads account lead parts h.1

-- Mentions of the bot and blank texts at the front do not count: what follows them, a text `t` that is not blank, is the trigger text, trimmed.
pub canonical_trigger_text_skips :
    (m : CanonicalMessage) (account t : Text) (lead : List MessagePart)
    → m.parts ≡ lead ++ text_part t ∷ []
    → All (IsLead account) lead
    → is_blank t ≡ false
    → canonical_trigger_text m account ≡ trim t
unfolding canonical_trigger_text
canonical_trigger_text_skips m account t lead e h nb =
    let loop : trigger_loop account true [] (lead ++ text_part t ∷ []) ≡ t =
      trigger_loop_leads account lead (text_part t ∷ []) h
      ∙ (unfold trigger_loop in ground (arith, is_empty-trim t)) in
    rw (e, loop) (ground (arith, is_empty-trim t))
