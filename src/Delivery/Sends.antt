-- ===== src/Delivery/Sends.antt =====
-- agent-runner/src/server.rs: what a task sends, where the adapter of its platform sends only requests
-- of one kind in the context of its event.
use dog_bot.Common.{ℕ, Option, none, some, is_empty, ◌≡◌, inl, inr, Bool-cases, Option-cases}
use dog_bot.Common.Text.{Text}
use dog_bot.Common.Result.{Result, ok, err}
use dog_bot.Json.{Value}
use dog_bot.Models.{RunRequest, ValidatedRunRequest, RunResponse, ErrorResponse}
use dog_bot.Protocol.{CanonicalEvent, OutboundPlan}
use dog_bot.Platform.{delivery_context_from_event, run_response_output}
use dog_bot.Platform.Client.{Post, Sending}
use dog_bot.Platform.Posts.{Posts, Sends, quiet}
use dog_bot.Platform.Registry.{PlatformAdapter, PlatformRegistry, get}
use dog_bot.Normalizer.Actions.{ActionBlock}
use dog_bot.Normalizer.{normalize_agent_output}
use dog_bot.Runs.{ScheduledRun}
use dog_bot.Delivery.{
  start_reaction_plan, deliver_plan_with, deliver_run_response, deliver_error_best_effort,
  send_start_reaction_best_effort, after_run, run_outcome,
}

module _ {W : Type 0} (registry : PlatformRegistry W) (post : Post W) (P : Text → Value → Type 0)
    (e : CanonicalEvent) (adapter : PlatformAdapter W)
    (found : get e.platform registry ≡ some adapter)
    (speaks : (plan : OutboundPlan)
      → Sends post P (adapter.send_plan (delivery_context_from_event e) plan)) where
  pub deliver-Sends : (plan : OutboundPlan) → Sends post P (deliver_plan_with registry none e plan)
  unfolding deliver_plan_with
  deliver-Sends plan w = rw found (speaks plan w)

  response-Posts :
      (parse_block : Text → Option ActionBlock) (response : RunResponse) (w : W)
      → Posts post P w (deliver_run_response registry none parse_block e response w).1
  unfolding deliver_run_response
  response-Posts parse_block response w =
      elim (Bool-cases (is_empty (run_response_output response))) [
        | inl no_output ↦ rw no_output (quiet w)
        | inr output ↦
            rw output
              (deliver-Sends (normalize_agent_output parse_block (run_response_output response)) w)
      ]

  after_run-Posts :
      (parse_block : Text → Option ActionBlock) (r : Result ErrorResponse RunResponse) (w : W)
      → Posts post P w (after_run registry none parse_block e (r, w)).1
  unfolding deliver_error_best_effort
  after_run-Posts parse_block (ok response) w = response-Posts parse_block response w
  after_run-Posts parse_block (err error) w = deliver-Sends _ w

module _ {W : Type 0} (registry : PlatformRegistry W) (post : Post W) (P : Text → Value → Type 0)
    (task : ScheduledRun) (adapter : PlatformAdapter W)
    (found : get task.event.platform registry ≡ some adapter)
    (speaks : (plan : OutboundPlan)
      → Sends post P (adapter.send_plan (delivery_context_from_event task.event) plan)) where
  start-Posts :
      (hash : Text → ℕ) (w : W)
      → Posts post P w (send_start_reaction_best_effort registry none hash task w)
  unfolding send_start_reaction_best_effort
  start-Posts hash w =
      elim (Option-cases (start_reaction_plan hash task.event task.summary.task_id)) [
        | inl e ↦ rw e (quiet w)
        | inr (plan, e) ↦
            rw e (deliver-Sends registry post P task.event adapter found speaks plan w)
      ]

  -- Before the run and after it, the task sends such requests only.
  pub task-Posts :
      (parse_block : Text → Option ActionBlock) (hash : Text → ℕ)
      (runner : RunRequest → ValidatedRunRequest → Sending W RunResponse) (w : W)
      → Posts post P w (send_start_reaction_best_effort registry none hash task w)
        × Posts post P
            (runner task.request task.validated
              (send_start_reaction_best_effort registry none hash task w)).1
            (run_outcome registry none parse_block hash runner task w).1
  unfolding run_outcome
  task-Posts parse_block hash runner w =
      let begun = send_start_reaction_best_effort registry none hash task w in
      let ran = runner task.request task.validated begun in
      (
        start-Posts hash w,
        after_run-Posts registry post P task.event adapter found speaks parse_block ran.0 ran.1,
      )
