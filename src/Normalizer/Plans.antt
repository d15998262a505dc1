-- ===== src/Normalizer/Plans.antt =====
-- What a plan of the normalizer holds: messages that say something, and reactions that name their message and emoji.
use dog_bot.Common.{
  ℕ, zero, suc, Bool, false, ◌&&◌, Option, none, some, List, [], ◌∷◌, ◌++◌, map, All, All-append,
  length, is_empty, ◌>>=◌, if◌then◌else◌, ◌≡◌, refl, subst, arith, Bool-cases, inl, inr,
}
use dog_bot.Common.Text.{Text, text, text_eq}
use dog_bot.Common.Text.Trim.{trim, trim_start_matches, is_whitespace}
use dog_bot.Common.Text.Split.{split_once, replace}
use dog_bot.Protocol.{
  OutboundMessage, OutboundAction, reaction_add, reaction_remove, ReactionAction, OutboundPlan,
  text_part, AssetSource,
}
use dog_bot.Normalizer.Actions.{
  MentionSpec, ActionItem, ActionBlock, envelope, single, Collected, PartKind, part_kind,
  source_kind, media_message, media_action_to_message, reaction_of, push_action, push_message,
  given, append_action_item, append_action_items, parse_reply_to_directive,
}
use dog_bot.Normalizer.Degrade.{degrade_markdown}
use dog_bot.Normalizer.{
  Normalizing, with_directive, apply_block, fence, fence_end, push_body, collect, mention_part,
  plan_of, started, normalize_agent_output,
}

abbrev pub HasParts : OutboundMessage → Type 0
HasParts m = is_empty m.parts ≡ false

-- Both fields of the reaction are given.
abbrev pub Names : ReactionAction → Type 0
Names r = (is_empty r.target_message_id ≡ false) × (is_empty r.emoji ≡ false)

abbrev pub IsReaction : OutboundAction → Type 0
IsReaction (reaction_add r) = Names r
IsReaction (reaction_remove r) = Names r

record IsSendable (st : Collected) : Type 0 where
  said : All HasParts st.0
  named : All IsReaction st.1

push_action-IsSendable :
    (st : Collected) (o : Option OutboundAction)
    → ((a : OutboundAction) → o ≡ some a → IsReaction a)
    → IsSendable st
    → IsSendable (push_action st o)
push_action-IsSendable (messages, actions) none h v = v
push_action-IsSendable (messages, actions) (some a) h v = record {
  said = v.said;
  named = All-append IsReaction actions (a ∷ []) v.named (h a refl, tt);
}

push_message-IsSendable :
    (st : Collected) (o : Option OutboundMessage)
    → ((m : OutboundMessage) → o ≡ some m → HasParts m)
    → IsSendable st
    → IsSendable (push_message st o)
push_message-IsSendable (messages, actions) none h v = v
push_message-IsSendable (messages, actions) (some m) h v = record {
  said = All-append HasParts messages (m ∷ []) v.said (h m refl, tt);
  named = v.named;
}

given_lem : (o : Option Text) (v : Text) → given o ≡ some v → is_empty v ≡ false
given_lem none v h = cc
given_lem (some []) v h = cc
given_lem (some (c ∷ s)) v h = ground (arith, h)

reaction_of-Names :
    (kind : ReactionAction → OutboundAction)
    → ((r : ReactionAction) → Names r → IsReaction (kind r))
    → (item : ActionItem) (a : OutboundAction) → reaction_of kind item ≡ some a
    → IsReaction a
reaction_of-Names kind k item a h = go (given item.target_message_id) refl (given item.emoji) refl h
  where
    go :
        (o : Option Text)
        → given item.target_message_id ≡ o
        → (q : Option Text) → given item.emoji ≡ q
        → (o >>= λ t. q >>= λ e. some (kind (record { target_message_id = t; emoji = e }))) ≡ some a
        → IsReaction a
    go none e q e' g = cc
    go (some t) e none e' g = cc
    go (some t) e (some m) e' g =
        let same : kind (record { target_message_id = t; emoji = m }) ≡ a = cc in
        subst IsReaction same (
          k (record { target_message_id = t; emoji = m })
            (given_lem item.target_message_id t e, given_lem item.emoji m e'))

media_action_to_message-HasParts :
    (item : ActionItem) (m : OutboundMessage) → media_action_to_message item ≡ some m → HasParts m
unfolding media_action_to_message
media_action_to_message-HasParts item m h = go (part_kind item.action_type) item.source_type h
  where
    last :
        (kind : PartKind) (source : Text → AssetSource) (q : Option Text)
        → (q >>= λ v. some (media_message item kind v source)) ≡ some m
        → HasParts m
    last kind source none g = cc
    last kind source (some v) g =
        subst HasParts {x = media_message item kind v source} {y = m} (cc) refl

    next :
        (kind : PartKind) (o : Option (Text → AssetSource))
        → (o >>= λ source. item.source_value >>= λ v. some (media_message item kind v source))
          ≡ some m
        → HasParts m
    next kind none g = cc
    next kind (some source) g = last kind source item.source_value g

    go :
        (o : Option PartKind) (q : Option Text)
        → (o >>= λ kind. q >>= λ t. source_kind t >>= λ source.
            item.source_value >>= λ v. some (media_message item kind v source))
          ≡ some m
        → HasParts m
    go none q g = cc
    go (some kind) none g = cc
    go (some kind) (some t) g = next kind (source_kind t) g

append_action_item-IsSendable :
    (st : Collected) (item : ActionItem) → IsSendable st → IsSendable (append_action_item st item)
unfolding append_action_item
append_action_item-IsSendable st item v =
    elim (Bool-cases (text_eq item.action_type (text "reaction_add"))) [
      | inl e ↦ rw e (
          push_action-IsSendable st (reaction_of reaction_add item)
            (reaction_of-Names reaction_add (λ r h. h) item) v)
      | inr e ↦ rw e (elim (Bool-cases (text_eq item.action_type (text "reaction_remove"))) [
        | inl e' ↦ rw e' (
            push_action-IsSendable st (reaction_of reaction_remove item)
              (reaction_of-Names reaction_remove (λ r h. h) item) v)
        | inr e' ↦ rw e' (
            push_message-IsSendable st (media_action_to_message item)
              (media_action_to_message-HasParts item) v)
      ])
    ]

append_action_items-IsSendable :
    (st : Collected) (items : List ActionItem)
    → IsSendable st
    → IsSendable (append_action_items st items)
unfolding append_action_items
append_action_items-IsSendable st [] v = v
append_action_items-IsSendable st (item ∷ items) v =
    append_action_items-IsSendable (append_action_item st item) items
      (append_action_item-IsSendable st item v)

with_directive_collected :
    (st : Normalizing) (o : Option (Option Text × Bool))
    → (with_directive st o).collected ≡ st.collected
with_directive_collected st none = refl
with_directive_collected st (some (reply_to, suppress)) = refl

apply_block-IsSendable :
    (st : Normalizing) (o : Option ActionBlock)
    → IsSendable st.collected
    → IsSendable (apply_block st o).collected
unfolding apply_block
apply_block-IsSendable st none v = v
apply_block-IsSendable st (some (single item)) v =
    append_action_items-IsSendable st.collected (item ∷ []) v
apply_block-IsSendable st (some (envelope e)) v =
    append_action_items-IsSendable
      (with_directive st (parse_reply_to_directive e.reply_to)).collected e.actions
      (rw (with_directive_collected st (parse_reply_to_directive e.reply_to)) v)

module _ (parse_block : Text → Option ActionBlock) where
  collect-IsSendable :
      (rounds : ℕ) (remaining : Text) (st : Normalizing)
      → IsSendable st.collected
      → IsSendable (collect parse_block rounds remaining st).collected
  unfolding collect
  collect-IsSendable zero remaining st v = v
  collect-IsSendable (suc rounds) remaining st v =
      first (split_once fence remaining) refl (λ t st' w. collect-IsSendable rounds t st' w)
    where
      second :
          (before block : Text)
          → split_once fence remaining ≡ some (before, block)
          → (o : Option (Text × Text))
          → split_once fence_end (trim_start_matches is_whitespace block) ≡ o
          → ((t : Text) (st' : Normalizing)
              → IsSendable st'.collected
              → IsSendable (collect parse_block rounds t st').collected)
          → IsSendable (collect parse_block (suc rounds) remaining st).collected
      second before block e none e' ih = rw (collect, e, e') v
      second before block e (some (json_block, rest)) e' ih =
          rw (collect, e, e')
            (ih rest (apply_block (push_body before st) (parse_block (trim json_block)))
              (apply_block-IsSendable (push_body before st) (parse_block (trim json_block)) v))

      first :
          (o : Option (Text × Text))
          → split_once fence remaining ≡ o
          → ((t : Text) (st' : Normalizing)
              → IsSendable st'.collected
              → IsSendable (collect parse_block rounds t st').collected)
          → IsSendable (collect parse_block (suc rounds) remaining st).collected
      first none e ih = rw (collect, e) v
      first (some (before, block)) e ih =
          second before block e (split_once fence_end (trim_start_matches is_whitespace block)) refl
            ih

body_message-HasParts :
    (st : Normalizing) (body : Text) (mentions : List MentionSpec)
    → (is_empty body && is_empty mentions) ≡ false
    → is_empty (map mention_part mentions ++ (if is_empty body then [] else text_part body ∷ []))
      ≡ false
body_message-HasParts st body (m ∷ mentions) h = refl
body_message-HasParts st [] [] h = cc
body_message-HasParts st (c ∷ body) [] h = refl

abbrev pub IsSendablePlan : OutboundPlan → Type 0
IsSendablePlan plan = All HasParts plan.messages × All IsReaction plan.actions

plan_of-IsSendablePlan :
    (st : Normalizing) (body : Text) → IsSendable st.collected → IsSendablePlan (plan_of st body)
plan_of-IsSendablePlan st body v = elim (Bool-cases (is_empty body && is_empty st.body_mentions)) [
  | inl e ↦ rw e (v.said, v.named)
  | inr e ↦ rw e ((body_message-HasParts st body st.body_mentions e, v.said), v.named)
]

-- Whatever the agent writes and however its blocks are read, each message of the plan has a part, and each reaction of it names a message and an emoji that are not empty.
pub normalize_agent_output-IsSendablePlan :
    (parse_block : Text → Option ActionBlock) (output : Text)
    → IsSendablePlan (normalize_agent_output parse_block output)
unfolding normalize_agent_output
normalize_agent_output-IsSendablePlan parse_block output =
    let normalized = replace (13 ∷ 10 ∷ []) (10 ∷ []) output in
    let st = collect parse_block (suc (length normalized)) normalized started in
    plan_of-IsSendablePlan st (degrade_markdown (trim st.body)) (
      collect-IsSendable parse_block (suc (length normalized)) normalized started
        (record { said = tt; named = tt }))
