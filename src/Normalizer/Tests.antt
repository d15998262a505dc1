-- ===== src/Normalizer/Tests.antt =====
-- An output with Markdown, an action block, and a reaction in it.
use dog_bot.Common.{Option, none, some, [], ◌∷◌, any, length, suc, false, ◌==◌, ◌≡◌, refl, arith}
use dog_bot.Common.Text.{Text, text}
use dog_bot.Protocol.{reaction_add}
use dog_bot.Normalizer.Actions.{ActionItem, missing, ActionBlock, single}
use dog_bot.Normalizer.Degrade.{degrade_markdown}
use dog_bot.Normalizer.{collect, started, normalize_agent_output}
use dog_bot.Normalizer.Rounds.{collect_enough}
use dog_bot.Normalizer.Plans.{IsSendablePlan, normalize_agent_output-IsSendablePlan}
use dog_bot.Normalizer.Markdown.{degrade_markdown_plain}

abbrev liked : ActionItem
liked = record {
  action_type = text "reaction_add";
  target_message_id = some (text "7");
  emoji = some (text "ok");
  reply_to = missing;
  source_type = none;
  source_value = none;
  caption_text = none;
}

abbrev parse_block : Text → Option ActionBlock
parse_block s = some (single liked)

abbrev output : Text
output = text "# Hi `you`\n```dogbot-action\n{}\n```\nsee [here](u)"

abbrev torn : Text
torn = text "a```dogbot-action {"

degraded : degrade_markdown (text "# Hi `you` see [here](u)") ≡ text "Hi you see here: u"
unfolding degrade_markdown
degraded = refl

collected :
    (normalize_agent_output parse_block output).actions
    ≡ reaction_add (record { target_message_id = text "7"; emoji = text "ok" }) ∷ []
unfolding normalize_agent_output
collected = refl

-- A block without an end: what stands before it comes twice.
torn_twice : (collect parse_block 100 torn started).body ≡ text "aa```dogbot-action {"
unfolding collect
torn_twice = refl

normalize_agent_output-IsSendablePlan_example :
    IsSendablePlan (normalize_agent_output parse_block output)
normalize_agent_output-IsSendablePlan_example =
    normalize_agent_output-IsSendablePlan parse_block output

collect_enough_example :
    collect parse_block 100 output started
    ≡ collect parse_block (suc (length output)) output started
collect_enough_example = collect_enough parse_block 100 output started (omega arith)

degrade_markdown_plain_example :
    any (λ c. c == b'`') (degrade_markdown (text "# Hi `you` see [here](u)")) ≡ false
degrade_markdown_plain_example = degrade_markdown_plain (text "# Hi `you` see [here](u)")
