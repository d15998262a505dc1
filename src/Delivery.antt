-- ===== src/Delivery.antt =====
-- agent-runner/src/server.rs: how a plan or a message is handed to an adapter, and what a task sends
-- before it ends. The registry is a parameter, and so are the runner and the messenger that tests
-- put in place of the registry: all of them act on a state of any type.
pub mod Outcomes
pub mod Sends
pub mod Isolation
pub mod Wechat
mod Tests
use dog_bot.Common.{
  ℕ, zero, suc, ◌%◌, false, not, Option, none, some, List, [], ◌∷◌, ◌++◌, is_empty, filter_some,
  map_some, if◌then◌else◌,
}
use dog_bot.Common.Text.{Text, text, text_eq}
use dog_bot.Common.Text.Split.{join}
use dog_bot.Common.Result.{Result, ok, err}
use dog_bot.Models.{
  RunRequest, ValidatedRunRequest, RunResponse, ErrorResponse, error_with, MessageRequest,
  MessageResponse,
}
use dog_bot.Protocol.{
  projected, text_part, CanonicalMessage, CanonicalEvent, message_of, OutboundMessage, text_message,
  reaction_add, OutboundPlan,
}
use dog_bot.SessionTables.{SessionRecord}
use dog_bot.Platform.{DeliveryContext, delivery_context_from_event, run_response_output}
use dog_bot.Platform.Client.{Sending}
use dog_bot.Platform.Registry.{PlatformAdapter, PlatformRegistry, get}
use dog_bot.Normalizer.Actions.{ActionBlock}
use dog_bot.Normalizer.{normalize_agent_output}
use dog_bot.Scheduler.{TerminalState, completed, failed}
use dog_bot.Runs.{ScheduledRun}
use dog_bot.Server.{short_terminal_summary}

unfoldable pub session_record_from_event : CanonicalEvent → SessionRecord
session_record_from_event e = record {
  session_key =
      text "conversation::"
      ++ (e.platform ++ (text "::" ++ (e.platform_account ++ (text "::" ++ e.conversation))));
  external_session_id = e.conversation;
  claude_session_id = [];
  platform = e.platform;
  platform_account = e.platform_account;
  conversation_id = e.conversation;
  user_id = [];
  created_at_epoch_secs = e.timestamp_epoch_secs;
  last_used_at_epoch_secs = e.timestamp_epoch_secs;
  is_new = false;
}

abbrev pub reactions : List Text
reactions = text "👍" ∷ text "🙏" ∷ text "🫡" ∷ text "😂" ∷ (0x2764 ∷ []) ∷ text "👏" ∷ []

abbrev pub reaction_at : ℕ → List Text → Text
reaction_at n [] = []
reaction_at n (r ∷ []) = r
reaction_at zero (r ∷ s ∷ rs) = r
reaction_at (suc n) (r ∷ s ∷ rs) = reaction_at n (s ∷ rs)

-- `hash` is the hash of `DefaultHasher`.
unfoldable pub random_start_reaction : (Text → ℕ) → Text → Text
random_start_reaction hash seed = reaction_at (hash seed % 6) reactions

abbrev pub reaction_plan : Text → CanonicalMessage → OutboundPlan
reaction_plan emoji m = record {
  messages = [];
  actions = reaction_add (record { target_message_id = m.message_id; emoji = emoji }) ∷ [];
  delivery_report_policy = none;
}

unfoldable pub start_reaction_plan : (Text → ℕ) → CanonicalEvent → Text → Option OutboundPlan
unfolding text_eq random_start_reaction
start_reaction_plan hash e task_id =
    if not (text_eq e.platform (text "qq"))
    then none
    else map_some (reaction_plan (random_start_reaction hash task_id)) (message_of e)

abbrev pub plan_saying : Text → OutboundPlan
plan_saying t = record {
  messages = text_message t ∷ [];
  actions = [];
  delivery_report_policy = none;
}

abbrev pub message_texts : List OutboundMessage → List Text
message_texts [] = []
message_texts (m ∷ ms) = filter_some projected m.parts ++ message_texts ms

abbrev pub override_request : CanonicalEvent → OutboundPlan → MessageRequest
override_request e plan = record {
  session_id = e.conversation;
  text = join [] (message_texts plan.messages);
  reply_to_message_id = none;
  mention_user_id = none;
}

abbrev pub unregistered : Text → ErrorResponse
unregistered platform =
    error_with "unsupported_platform" (text "platform is not registered: " ++ platform)

abbrev pub request_plan : MessageRequest → OutboundPlan
request_plan r = record {
  messages =
      (record {
        parts = text_part r.text ∷ [];
        reply_to = r.reply_to_message_id;
        suppress_default_reply = false;
        delivery_policy = none;
      })
      ∷ [];
  actions = [];
  delivery_report_policy = none;
}

abbrev pub request_context : MessageRequest → SessionRecord → DeliveryContext
request_context r session = record {
  platform = session.platform;
  platform_account = session.platform_account;
  conversation_id = session.conversation_id;
  target_actor_id = r.mention_user_id;
  target_display_name = none;
  reply_to_message_id = r.reply_to_message_id;
  native_event = none;
}

-- `Messenger`.
abbrev pub Messenger : Type 0 → Type 0
Messenger W = MessageRequest → SessionRecord → Sending W MessageResponse

abbrev pub no_message : MessageResponse
no_message = record { status = text "ok"; message_id = none }

-- How a task ends: its terminal state, and the summary that goes with it.
abbrev pub Outcome : Type 0
Outcome = TerminalState × Option Text

abbrev pub delivered_outcome : Text → Result ErrorResponse MessageResponse → Outcome
delivered_outcome output (ok response) = (completed, some (short_terminal_summary output))
delivered_outcome output (err error) = (failed, some error.message)

module _ {W : Type 0} (registry : PlatformRegistry W)
    (message_override : Option (Messenger W)) where
  abbrev pub deliver_by :
      Option (PlatformAdapter W) → CanonicalEvent → OutboundPlan → Sending W MessageResponse
  deliver_by none e plan w = (err (unregistered e.platform), w)
  deliver_by (some adapter) e plan w = adapter.send_plan (delivery_context_from_event e) plan w

  unfoldable pub deliver_plan_with : CanonicalEvent → OutboundPlan → Sending W MessageResponse
  unfolding get delivery_context_from_event session_record_from_event join
  deliver_plan_with e plan w = elim message_override [
    | some messenger ↦
        if is_empty plan.messages
        then (ok no_message, w)
        else messenger (override_request e plan) (session_record_from_event e) w
    | none ↦ deliver_by (get e.platform registry) e plan w
  ]

  unfoldable pub deliver_plan_for_event : CanonicalEvent → OutboundPlan → Sending W MessageResponse
  unfolding deliver_plan_with
  deliver_plan_for_event e plan = deliver_plan_with e plan

  -- An error is only logged.
  unfoldable pub deliver_plan_best_effort : CanonicalEvent → OutboundPlan → W → W
  unfolding deliver_plan_for_event
  deliver_plan_best_effort e plan w = (deliver_plan_for_event e plan w).1

  abbrev pub send_request_by :
      Option (PlatformAdapter W) → MessageRequest → SessionRecord → Sending W MessageResponse
  send_request_by none r session w = (err (unregistered session.platform), w)
  send_request_by (some adapter) r session w =
      adapter.send_plan (request_context r session) (request_plan r) w

  unfoldable pub deliver_message_request :
      MessageRequest → SessionRecord → Sending W MessageResponse
  unfolding get
  deliver_message_request r session w = elim message_override [
    | some messenger ↦ messenger r session w
    | none ↦ send_request_by (get session.platform registry) r session w
  ]

  abbrev pub send_reaction : CanonicalEvent → Option OutboundPlan → W → W
  send_reaction e none w = w
  send_reaction e (some plan) w = (deliver_plan_with e plan w).1

  -- An error of the delivery is only logged.
  unfoldable pub send_start_reaction_best_effort : (Text → ℕ) → ScheduledRun → W → W
  unfolding start_reaction_plan deliver_plan_with
  send_start_reaction_best_effort hash task w =
      send_reaction task.event (start_reaction_plan hash task.event task.summary.task_id) w

  abbrev pub deliver_output : (Text → Option ActionBlock) → CanonicalEvent → Text → W → Outcome × W
  deliver_output parse_block e output w =
      let r = deliver_plan_with e (normalize_agent_output parse_block output) w in
      (delivered_outcome output r.0, r.1)

  -- With the arms of `run_task` that name its terminal state.
  unfoldable pub deliver_run_response :
      (Text → Option ActionBlock) → CanonicalEvent → RunResponse → W → Outcome × W
  unfolding run_response_output normalize_agent_output deliver_plan_with short_terminal_summary
  deliver_run_response parse_block e response w =
      if is_empty (run_response_output response)
      then ((completed, some (text "runner produced empty output")), w)
      else deliver_output parse_block e (run_response_output response) w

  unfoldable pub deliver_error_best_effort : CanonicalEvent → ErrorResponse → W → W
  unfolding deliver_plan_with
  deliver_error_best_effort e error w =
      (deliver_plan_with e (plan_saying (text "执行失败：" ++ error.message)) w).1

  abbrev pub after_run :
      (Text → Option ActionBlock)
      → CanonicalEvent
      → Result ErrorResponse RunResponse × W
      → Outcome × W
  after_run parse_block e (ok response, w) = deliver_run_response parse_block e response w
  after_run parse_block e (err error, w) = (
    (failed, some (text "runner failed: " ++ error.message)),
    deliver_error_best_effort e error w,
  )

  -- `run_task` up to the lock at its end.
  unfoldable pub run_outcome :
      (Text → Option ActionBlock)
      → (Text → ℕ)
      → (RunRequest → ValidatedRunRequest → Sending W RunResponse)
      → ScheduledRun
      → W
      → Outcome × W
  unfolding send_start_reaction_best_effort deliver_run_response deliver_error_best_effort
  run_outcome parse_block hash runner task w =
      after_run parse_block task.event
        (runner task.request task.validated (send_start_reaction_best_effort hash task w))
