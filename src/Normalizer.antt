-- ===== src/Normalizer.antt =====
-- agent-runner/src/normalizer.rs: from the output of the agent to a plan. The JSON reader of a block
-- is derived from the types of the file by serde, so it is an argument: `none` for an error.
pub mod Degrade
pub mod Actions
pub mod Rounds
pub mod Plans
pub mod Markdown
mod Tests
use dog_bot.Common.{
  ℕ, zero, suc, Bool, false, ◌&&◌, Option, none, some, List, [], ◌∷◌, ◌++◌, map, is_empty, length,
  if◌then◌else◌, String,
}
use dog_bot.Common.Text.{Text, text}
use dog_bot.Common.Text.Trim.{trim, trim_start_matches, is_whitespace}
use dog_bot.Common.Text.Split.{split_once, replace}
use dog_bot.Protocol.{MessagePart, text_part, mention, OutboundMessage, OutboundPlan}
use dog_bot.Normalizer.Actions.{
  ActionBlock, Collected, MentionSpec, append_action_items, envelope, parse_reply_to_directive,
  single,
}
use dog_bot.Normalizer.Degrade.{degrade_markdown}

-- The variables of the loop of `normalize_agent_output`.
pub record Normalizing : Type 0 where
  pub body : Text
  pub body_reply_to : Option Text
  pub suppress_body_default_reply : Bool
  pub body_mentions : List MentionSpec
  pub collected : Collected

abbrev pub with_directive : Normalizing → Option (Option Text × Bool) → Normalizing
with_directive st none = st
with_directive st (some (reply_to, suppress)) = record st {
  body_reply_to = reply_to;
  suppress_body_default_reply = suppress;
}

unfoldable pub apply_block : Normalizing → Option ActionBlock → Normalizing
unfolding append_action_items parse_reply_to_directive
apply_block st none = st
apply_block st (some (single item)) = record st {
  collected = append_action_items st.collected (item ∷ []);
}
apply_block st (some (envelope e)) =
    let st' = with_directive st (parse_reply_to_directive e.reply_to) in
    record st' {
      body_mentions = st'.body_mentions ++ e.mentions;
      collected = append_action_items st'.collected e.actions;
    }

abbrev pub fence : Text
fence = text "```dogbot-action"

abbrev pub fence_end : Text
fence_end = 10 ∷ text "```"

abbrev pub push_body : Text → Normalizing → Normalizing
push_body s st = record st { body = st.body ++ s }

-- The loop, with a round for each block; more rounds than characters are enough. A block without an
-- end breaks the loop, and then all that remained is pushed, also what was pushed before the block.
unfoldable pub collect : (Text → Option ActionBlock) → ℕ → Text → Normalizing → Normalizing
unfolding split_once apply_block trim_start_matches trim
collect parse_block zero remaining st = push_body remaining st
collect parse_block (suc rounds) remaining st = elim (split_once fence remaining) [
  | none ↦ push_body remaining st
  | some (before, block) ↦ elim (split_once fence_end (trim_start_matches is_whitespace block)) [
    | none ↦ push_body remaining (push_body before st)
    | some (json_block, rest) ↦
        collect parse_block rounds rest
          (apply_block (push_body before st) (parse_block (trim json_block)))
  ]
]

abbrev pub mention_part : MentionSpec → MessagePart
mention_part m = mention m.actor_id m.display

abbrev pub body_message : Normalizing → Text → OutboundMessage
body_message st body = record {
  parts = map mention_part st.body_mentions ++ (if is_empty body then [] else text_part body ∷ []);
  reply_to = st.body_reply_to;
  suppress_default_reply = st.suppress_body_default_reply;
  delivery_policy = none;
}

abbrev pub plan_of : Normalizing → Text → OutboundPlan
plan_of st body = record {
  messages =
      if is_empty body && is_empty st.body_mentions
      then st.collected.0
      else body_message st body ∷ st.collected.0;
  actions = st.collected.1;
  delivery_report_policy = none;
}

abbrev pub started : Normalizing
started = record {
  body = [];
  body_reply_to = none;
  suppress_body_default_reply = false;
  body_mentions = [];
  collected = ([], []);
}

unfoldable pub normalize_agent_output : (Text → Option ActionBlock) → Text → OutboundPlan
unfolding collect degrade_markdown replace trim
normalize_agent_output parse_block output =
    let normalized = replace (13 ∷ 10 ∷ []) (10 ∷ []) output in
    let st = collect parse_block (suc (length normalized)) normalized started in
    plan_of st (degrade_markdown (trim st.body))
