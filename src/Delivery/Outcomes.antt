-- ===== src/Delivery/Outcomes.antt =====
-- How tasks end, whatever the platform answers.
use dog_bot.Common.{ℕ, false, Option, none, some, all, is_empty, ◌≡◌, refl, ap, ◌∙◌, arith}
use dog_bot.Common.Text.{Text, text}
use dog_bot.Common.Result.{Result, ok, err, is_ok}
use dog_bot.Models.{RunRequest, ValidatedRunRequest, RunResponse, ErrorResponse, MessageResponse}
use dog_bot.Protocol.{CanonicalEvent, OutboundMessage, OutboundPlan}
use dog_bot.Platform.{delivery_context_from_event, run_response_output}
use dog_bot.Platform.Client.{Sending}
use dog_bot.Platform.Dispatch.{part_allowed}
use dog_bot.Platform.Registry.{PlatformRegistry, get}
use dog_bot.Normalizer.Actions.{ActionBlock}
use dog_bot.Normalizer.{normalize_agent_output}
use dog_bot.Qq.Send.{QqPlatform}
use dog_bot.Qq.Delivery.{send_plan_refused}
use dog_bot.Adapters.{Platforms, qq_adapter}
use dog_bot.Scheduler.{failed}
use dog_bot.Runs.{ScheduledRun}
use dog_bot.Delivery.{
  deliver_plan_with, delivered_outcome, deliver_run_response, send_start_reaction_best_effort,
  run_outcome,
}

failed_delivery :
    (output : Text) (r : Result ErrorResponse MessageResponse)
    → is_ok r ≡ false
    → (delivered_outcome output r).0 ≡ failed
failed_delivery output (ok response) h = absurd (ground (arith, h))
failed_delivery output (err error) h = refl

module _ {W : Type 0} (libraries : Platforms W) (qq : QqPlatform) (registry : PlatformRegistry W)
    (registered : get (text "qq") registry ≡ some (qq_adapter libraries qq)) where
  refused_delivery :
      (e : CanonicalEvent) (plan : OutboundPlan) (w : W)
      → e.platform ≡ text "qq"
      → all (λ (m : OutboundMessage). all part_allowed m.parts) plan.messages ≡ false
      → (is_ok (deliver_plan_with registry none e plan w).0 ≡ false)
        × ((deliver_plan_with registry none e plan w).1 ≡ w)
  unfolding deliver_plan_with
  refused_delivery e plan w p h =
      let found : get e.platform registry ≡ some (qq_adapter libraries qq) =
        ap (λ k. get k registry) p ∙ registered in
      rw found (
        send_plan_refused libraries.qq_post libraries.print qq (delivery_context_from_event e) plan
          w h)

  -- Where the registry has the adapter of QQ, and a task of QQ ran with an output that is not empty and whose plan has an asset with a workspace path that does not begin with `/workspace/`, the task fails, and nothing of its output is sent: after the run the platform is as the run left it.
  pub run_outcome_refused :
      (parse_block : Text → Option ActionBlock) (hash : Text → ℕ)
      (runner : RunRequest → ValidatedRunRequest → Sending W RunResponse) (task : ScheduledRun)
      (response : RunResponse) (w w' : W)
      → task.event.platform ≡ text "qq"
      → runner task.request task.validated
          (send_start_reaction_best_effort registry none hash task w)
        ≡ (ok response, w')
      → is_empty (run_response_output response) ≡ false
      → all
          (λ (m : OutboundMessage). all part_allowed m.parts)
          (normalize_agent_output parse_block (run_response_output response)).messages
        ≡ false
      → ((run_outcome registry none parse_block hash runner task w).0.0 ≡ failed)
        × ((run_outcome registry none parse_block hash runner task w).1 ≡ w')
  unfolding run_outcome deliver_run_response
  run_outcome_refused parse_block hash runner task response w w' p ran output bad =
      let plan = normalize_agent_output parse_block (run_response_output response) in
      let (no_answer, same) = refused_delivery task.event plan w' p bad in
      rw (ran, output)
        (
          failed_delivery (run_response_output response)
              (deliver_plan_with registry none task.event plan w').0 no_answer,
          same,
        )
