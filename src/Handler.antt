-- ===== src/Handler.antt =====
-- agent-runner/src/server.rs: what the server does with a canonical event, from the decision on it
-- to the feedback that is sent.
pub mod Plans
pub mod Requests
pub mod Events
pub mod Isolation
mod Tests
use dog_bot.Common.{
  ℕ, suc, Bool, true, false, Option, none, some, List, [], ◌∷◌, ◌++◌, map, length, is_empty,
  if◌then◌else◌, String,
}
use dog_bot.Common.Text.{Text, text, text_eq}
use dog_bot.Common.Text.Trim.{trim}
use dog_bot.Common.Text.Split.{join, starts_with}
use dog_bot.Common.Text.Decimal.{show_ℕ}
use dog_bot.Common.Result.{Result, ok, err}
use dog_bot.Common.Int.{ℤ, pos}
use dog_bot.Json.{Value}
use dog_bot.Protocol.{
  MessagePart, text_part, mention, image, file, voice, video, sticker, quote, CanonicalMessage,
  CanonicalEvent, message_of, project_plain_text, text_message, OutboundPlan,
}
use dog_bot.Models.{
  MentionRef, RunRequest, ValidatedRunRequest, RunResponse, ErrorResponse, error_with,
  MessageResponse, validate,
}
use dog_bot.Scheduler.{
  TaskSummary, TerminalState, completed, failed, TerminalSummary, SchedulerSnapshot, snapshot,
}
use dog_bot.Runs.{RunSchedulerInner, ScheduleFeedback, started, queued, full, scheduled_run, submit}
use dog_bot.Trigger.{TriggerDecision, ignore, run, status, resolve, conversation_scope}
use dog_bot.Platform.Registry.{PlatformRegistry}
use dog_bot.Delivery.{Messenger, deliver_plan_for_event, deliver_plan_best_effort}
use dog_bot.History.{HistoryTables}
use dog_bot.History.Roles.{HistoryStoreError}
use dog_bot.History.Queries.{ingest_enabled, upsert_ingest_state, try_insert_canonical_event}
use dog_bot.Handler.Plans.{
  build_run_request_from_event, status_outbound_plan, queue_wait_plan, queue_full_plan,
}

-- A response: its status code and its body.
pub data Body : Type 0 where
  accepted : Text → Body
  delivered : MessageResponse → Body
  refused : ErrorResponse → Body
  ran : RunResponse → Body

pub record Response : Type 0 where
  pub status_code : ℕ
  pub body : Body

abbrev pub accepted_response : String → Response
accepted_response word = record { status_code = 200; body = accepted (text word) }

-- The parts of `AppState` that the handler changes, and the world behind the adapters.
pub record App (W : Type 0) : Type 0 where
  pub runs : RunSchedulerInner
  pub history : HistoryTables
  pub world : W

abbrev pub default_history_retention_days : ℤ
default_history_retention_days = pos 180

-- `matches!(decision, TriggerDecision::Ignore)`.
abbrev pub is_ignore : TriggerDecision → Bool
is_ignore ignore = true
is_ignore status = false
is_ignore run = false

abbrev pub delivery_response : Result ErrorResponse MessageResponse → Response
delivery_response (ok response) = record { status_code = 200; body = delivered response }
delivery_response (err error) = record {
  status_code =
      if text_eq error.error_code (text "unsupported_platform")
      then 400
      else if starts_with (text "delivery_") error.error_code
      then 502
      else 500;
  body = refused error;
}

-- The messages that are kept are those of chats with the ingest on, which is all of them.
unfoldable pub ensure_history_ingest_state_for_trigger :
    CanonicalEvent → TriggerDecision → Result HistoryStoreError (Unit {0})
ensure_history_ingest_state_for_trigger e decision =
    if is_ignore decision then ok tt else elim (ingest_enabled e.platform_account e.conversation) [
      | err error ↦ err error
      | ok enabled ↦
          if enabled
          then ok tt
          else upsert_ingest_state e.platform_account e.conversation true
              default_history_retention_days
    ]

unfoldable pub mirror_history_event_if_enabled :
    Option HistoryStoreError
    → (Value → Text)
    → CanonicalEvent
    → HistoryTables
    → Result HistoryStoreError (Unit {0}) × HistoryTables
unfolding try_insert_canonical_event
mirror_history_event_if_enabled failure print e db =
    elim (ingest_enabled e.platform_account e.conversation) [
      | err error ↦ (err error, db)
      | ok enabled ↦ if enabled then try_insert_canonical_event failure print e db else (ok tt, db)
    ]

-- An error is only logged.
abbrev pub best_effort : {A : Type 0} → Result HistoryStoreError (Unit {0}) → A → A
best_effort (ok u) next = next
best_effort (err error) next = next

module _ {W : Type 0} (registry : PlatformRegistry W)
    (message_override : Option (Messenger W)) where
  abbrev pub feedback_response :
      CanonicalEvent → App W → RunSchedulerInner × ScheduleFeedback → Response × App W
  feedback_response e app (runs, started) =
      (accepted_response "accepted", record app { runs = runs })
  feedback_response e app (runs, queued tasks_ahead) = (
    accepted_response "queued",
    record app {
      runs = runs;
      world =
          deliver_plan_best_effort registry message_override e (queue_wait_plan tasks_ahead)
            app.world;
    },
  )
  feedback_response e app (runs, full) = (
    accepted_response "queue_full",
    record app {
      runs = runs;
      world = deliver_plan_best_effort registry message_override e queue_full_plan app.world;
    },
  )

  abbrev pub submit_validated :
      Text
      → CanonicalEvent
      → App W
      → RunRequest
      → Result Text ValidatedRunRequest
      → Response × App W
  submit_validated task_id e app request (err message) =
      (record { status_code = 400; body = refused (error_with "invalid_request" message) }, app)
  submit_validated task_id e app request (ok validated) =
      feedback_response e app (submit (scheduled_run task_id e request validated) app.runs)

  abbrev pub run_event :
      (Value → Text) → Text → CanonicalEvent → App W → Option RunRequest → Response × App W
  run_event print task_id e app none = (accepted_response "ignored", app)
  run_event print task_id e app (some request) =
      submit_validated task_id e app request (validate print request)

  abbrev pub decided :
      (Value → Text) → Text → CanonicalEvent → App W → TriggerDecision → Response × App W
  decided print task_id e app ignore = (accepted_response "ignored", app)
  decided print task_id e app status =
      let plan = status_outbound_plan (snapshot app.runs.state) in
      let (answer, world) = deliver_plan_for_event registry message_override e plan app.world in
      (delivery_response answer, record app { world = world })
  decided print task_id e app run = run_event print task_id e app (build_run_request_from_event e)

  -- `failure` is the error of the database, if it has one; `print` is the JSON printer and `task_id` the UUID that `submit` draws.
  unfoldable pub handle_canonical_event :
      Option HistoryStoreError → (Value → Text) → Text → CanonicalEvent → App W → Response × App W
  unfolding deliver_plan_for_event deliver_plan_best_effort mirror_history_event_if_enabled
      ensure_history_ingest_state_for_trigger resolve
  handle_canonical_event failure print task_id e app =
      let decision = resolve e in
      let (mirrored, history) = mirror_history_event_if_enabled failure print e app.history in
      best_effort (ensure_history_ingest_state_for_trigger e decision)
        (best_effort mirrored (decided print task_id e (record app { history = history }) decision))
