-- ===== src/Server/Summaries.antt =====
-- agent-runner/src/server.rs: what is logged of an event and of a plan.
use dog_bot.Common.{
  ℕ, ◌+◌, is_some, List, [], ◌∷◌, length, unwrap_or, if◌then◌else◌, ◌≡◌, refl, ◌∙◌, arith,
}
use dog_bot.Common.Text.{Text, text}
use dog_bot.Common.Text.Split.{join}
use dog_bot.Common.Text.Decimal.{show_ℕ}
use dog_bot.Protocol.{
  MessagePart, text_part, mention, image, file, voice, video, sticker, quote, CanonicalEvent,
  EventKind, message_event, reaction_added, reaction_removed, OutboundMessage, OutboundAction,
  reaction_add, reaction_remove, OutboundPlan,
}

abbrev pub summarize_kind : EventKind → Text
summarize_kind (message_event m) = join [] (
    text "kind=message message_id="
    ∷ m.message_id
    ∷ text " reply_to="
    ∷ unwrap_or m.reply_to (text "-")
    ∷ text " parts="
    ∷ show_ℕ (length m.parts)
    ∷ text " mentions="
    ∷ show_ℕ (length m.mentions)
    ∷ [])
summarize_kind (reaction_added target_message_id emoji) = join [] (
    text "kind=reaction_added target_message_id=" ∷ target_message_id ∷ text " emoji=" ∷ emoji ∷ [])
summarize_kind (reaction_removed target_message_id emoji) = join [] (
    text "kind=reaction_removed target_message_id="
    ∷ target_message_id
    ∷ text " emoji="
    ∷ emoji
    ∷ [])

unfoldable pub summarize_event_for_log : CanonicalEvent → Text
unfolding join show_ℕ
summarize_event_for_log e = summarize_kind e.kind

-- The counters of the two loops.
pub record PlanCounts : Type 0 where
  pub replies : ℕ
  pub suppressed_replies : ℕ
  pub mentions : ℕ
  pub text_parts : ℕ
  pub media_parts : ℕ
  pub reaction_adds : ℕ
  pub reaction_removes : ℕ

abbrev media_more : PlanCounts → PlanCounts
media_more c = record c { media_parts = c.media_parts + 1 }

abbrev pub count_part : PlanCounts → MessagePart → PlanCounts
count_part c (text_part t) = record c { text_parts = c.text_parts + 1 }
count_part c (mention actor_id display) = record c { mentions = c.mentions + 1 }
count_part c (image a) = media_more c
count_part c (file a) = media_more c
count_part c (voice a) = media_more c
count_part c (video a) = media_more c
count_part c (sticker a) = media_more c
count_part c (quote id excerpt) = record c { replies = c.replies + 1 }

unfoldable pub count_parts : PlanCounts → List MessagePart → PlanCounts
count_parts c [] = c
count_parts c (part ∷ parts) = count_parts (count_part c part) parts

abbrev pub count_head : PlanCounts → OutboundMessage → PlanCounts
count_head c m = record c {
  replies = if is_some m.reply_to then c.replies + 1 else c.replies;
  suppressed_replies =
      if m.suppress_default_reply then c.suppressed_replies + 1 else c.suppressed_replies;
}

unfoldable pub count_messages : PlanCounts → List OutboundMessage → PlanCounts
unfolding count_parts
count_messages c [] = c
count_messages c (m ∷ messages) = count_messages (count_parts (count_head c m) m.parts) messages

abbrev pub count_action : PlanCounts → OutboundAction → PlanCounts
count_action c (reaction_add action) = record c { reaction_adds = c.reaction_adds + 1 }
count_action c (reaction_remove action) = record c { reaction_removes = c.reaction_removes + 1 }

unfoldable pub count_actions : PlanCounts → List OutboundAction → PlanCounts
count_actions c [] = c
count_actions c (action ∷ actions) = count_actions (count_action c action) actions

abbrev pub no_counts : PlanCounts
no_counts = record {
  replies = 0;
  suppressed_replies = 0;
  mentions = 0;
  text_parts = 0;
  media_parts = 0;
  reaction_adds = 0;
  reaction_removes = 0;
}

unfoldable pub plan_counts : OutboundPlan → PlanCounts
unfolding count_messages count_actions
plan_counts plan = count_actions (count_messages no_counts plan.messages) plan.actions

unfoldable pub summarize_plan_for_log : OutboundPlan → Text
unfolding plan_counts join show_ℕ
summarize_plan_for_log plan =
    let c = plan_counts plan in
    join [] (
      text "messages="
      ∷ show_ℕ (length plan.messages)
      ∷ text " actions="
      ∷ show_ℕ (length plan.actions)
      ∷ text " replies="
      ∷ show_ℕ c.replies
      ∷ text " suppress_default_replies="
      ∷ show_ℕ c.suppressed_replies
      ∷ text " mentions="
      ∷ show_ℕ c.mentions
      ∷ text " text_parts="
      ∷ show_ℕ c.text_parts
      ∷ text " media_parts="
      ∷ show_ℕ c.media_parts
      ∷ text " reaction_add="
      ∷ show_ℕ c.reaction_adds
      ∷ text " reaction_remove="
      ∷ show_ℕ c.reaction_removes
      ∷ [])

-- The parts of all messages, and one more for each message that names what it replies to.
abbrev pub countable : List OutboundMessage → ℕ
countable [] = 0
countable (m ∷ messages) =
    length m.parts + (if is_some m.reply_to then 1 else 0) + countable messages

abbrev counted : PlanCounts → ℕ
counted c = c.replies + c.mentions + c.text_parts + c.media_parts

counted-part : (c : PlanCounts) (part : MessagePart) → counted (count_part c part) ≡ counted c + 1
counted-part c (text_part t) = omega arith
counted-part c (mention actor_id display) = omega arith
counted-part c (image a) = omega arith
counted-part c (file a) = omega arith
counted-part c (voice a) = omega arith
counted-part c (video a) = omega arith
counted-part c (sticker a) = omega arith
counted-part c (quote id excerpt) = omega arith

counted-parts :
    (c : PlanCounts) (parts : List MessagePart)
    → counted (count_parts c parts) ≡ counted c + length parts
unfolding count_parts
counted-parts c [] = omega arith
counted-parts c (part ∷ parts) =
    omega (arith, counted-part c part, counted-parts (count_part c part) parts)

counted-messages :
    (c : PlanCounts) (messages : List OutboundMessage)
    → counted (count_messages c messages) ≡ counted c + countable messages
unfolding count_messages
counted-messages c [] = omega arith
counted-messages c (m ∷ messages) = ground (
  arith,
  counted-parts (count_head c m) m.parts,
  counted-messages (count_parts (count_head c m) m.parts) messages,
)

abbrev reaction_total : PlanCounts → ℕ
reaction_total c = c.reaction_adds + c.reaction_removes

counted-action :
    (c : PlanCounts) (action : OutboundAction)
    → (counted (count_action c action) ≡ counted c)
      × (reaction_total (count_action c action) ≡ reaction_total c + 1)
counted-action c (reaction_add action) = (refl, omega arith)
counted-action c (reaction_remove action) = (refl, omega arith)

counted-actions :
    (c : PlanCounts) (actions : List OutboundAction)
    → (counted (count_actions c actions) ≡ counted c)
      × (reaction_total (count_actions c actions) ≡ reaction_total c + length actions)
unfolding count_actions
counted-actions c [] = (refl, omega arith)
counted-actions c (action ∷ actions) =
    let (same, more) = counted-action c action in
    let (same', more') = counted-actions (count_action c action) actions in
    (omega (arith, same, same'), omega (arith, more, more'))

reaction_total-part :
    (c : PlanCounts) (part : MessagePart) → reaction_total (count_part c part) ≡ reaction_total c
reaction_total-part c (text_part t) = refl
reaction_total-part c (mention actor_id display) = refl
reaction_total-part c (image a) = refl
reaction_total-part c (file a) = refl
reaction_total-part c (voice a) = refl
reaction_total-part c (video a) = refl
reaction_total-part c (sticker a) = refl
reaction_total-part c (quote id excerpt) = refl

reaction_total-parts :
    (c : PlanCounts) (parts : List MessagePart)
    → reaction_total (count_parts c parts) ≡ reaction_total c
unfolding count_parts
reaction_total-parts c [] = refl
reaction_total-parts c (part ∷ parts) =
    reaction_total-parts (count_part c part) parts ∙ reaction_total-part c part

reaction_total-messages :
    (c : PlanCounts) (messages : List OutboundMessage)
    → reaction_total (count_messages c messages) ≡ reaction_total c
unfolding count_messages
reaction_total-messages c [] = refl
reaction_total-messages c (m ∷ messages) =
    reaction_total-messages (count_parts (count_head c m) m.parts) messages
    ∙ reaction_total-parts (count_head c m) m.parts

-- The summary of a plan counts each part, each reply and each reaction once.
pub plan_counts_once :
    (plan : OutboundPlan)
    → (counted (plan_counts plan) ≡ countable plan.messages)
      × (reaction_total (plan_counts plan) ≡ length plan.actions)
unfolding plan_counts
plan_counts_once plan =
    let (same, more) = counted-actions (count_messages no_counts plan.messages) plan.actions in
    (
      omega (arith, same, counted-messages no_counts plan.messages),
      omega (arith, more, reaction_total-messages no_counts plan.messages),
    )
