-- ===== src/Handler/Isolation.antt =====
-- What the handler of an event sends, where the adapter of its platform sends only requests of one
-- kind in its context.
use dog_bot.Common.{Option, none, some, ◌≡◌, ap, ◌∙◌}
use dog_bot.Common.Text.{Text, text}
use dog_bot.Common.Result.{Result, ok, err}
use dog_bot.Json.{Value}
use dog_bot.Protocol.{CanonicalEvent, OutboundPlan}
use dog_bot.Models.{RunRequest, ValidatedRunRequest, validate}
use dog_bot.Platform.{delivery_context_from_event}
use dog_bot.Platform.Client.{Post}
use dog_bot.Platform.Posts.{Posts, Sends, quiet}
use dog_bot.Platform.Registry.{PlatformAdapter, PlatformRegistry, get}
use dog_bot.Qq.Receive.{decode_napcat_event}
use dog_bot.Qq.Send.{QqPlatform}
use dog_bot.Qq.Isolation.{Chat, Addressed, send_plan-ToChat}
use dog_bot.Qq.Origin.{ComesFrom, decode_napcat_event-chat}
use dog_bot.Adapters.{Platforms, qq_adapter}
use dog_bot.Runs.{RunSchedulerInner, ScheduleFeedback, started, queued, full, scheduled_run, submit}
use dog_bot.Trigger.{TriggerDecision, ignore, run, status, resolve}
use dog_bot.Delivery.{deliver_plan_for_event, deliver_plan_best_effort}
use dog_bot.Delivery.Sends.{deliver-Sends}
use dog_bot.Delivery.Isolation.{Speaks}
use dog_bot.History.Roles.{HistoryStoreError}
use dog_bot.Handler.Plans.{build_run_request_from_event}
use dog_bot.Handler.{
  App, feedback_response, submit_validated, run_event, decided, handle_canonical_event,
}
use dog_bot.Handler.Events.{mirrored, handled}

module _ {W : Type 0} (registry : PlatformRegistry W) (post : Post W) (P : Text → Value → Type 0)
    (failure : Option HistoryStoreError) (print : Value → Text) (task_id : Text)
    (e : CanonicalEvent) (adapter : PlatformAdapter W)
    (found : get e.platform registry ≡ some adapter)
    (speaks : (plan : OutboundPlan)
      → Sends post P (adapter.send_plan (delivery_context_from_event e) plan)) where
  plan-Posts :
      (plan : OutboundPlan) (w : W)
      → Posts post P w (deliver_plan_for_event registry none e plan w).1
  unfolding deliver_plan_for_event
  plan-Posts plan w = deliver-Sends registry post P e adapter found speaks plan w

  feedback-Posts :
      (app : App W) (r : RunSchedulerInner × ScheduleFeedback)
      → Posts post P app.world (feedback_response registry none e app r).1.world
  unfolding deliver_plan_best_effort
  feedback-Posts app (runs, started) = quiet app.world
  feedback-Posts app (runs, queued n) = plan-Posts _ app.world
  feedback-Posts app (runs, full) = plan-Posts _ app.world

  submit-Posts :
      (app : App W) (r : RunRequest) (v : Result Text ValidatedRunRequest)
      → Posts post P app.world (submit_validated registry none task_id e app r v).1.world
  submit-Posts app r (err message) = quiet app.world
  submit-Posts app r (ok valid) =
      feedback-Posts app (submit (scheduled_run task_id e r valid) app.runs)

  run_event-Posts :
      (app : App W) (o : Option RunRequest)
      → Posts post P app.world (run_event registry none print task_id e app o).1.world
  run_event-Posts app none = quiet app.world
  run_event-Posts app (some r) = submit-Posts app r (validate print r)

  decided-Posts :
      (app : App W) (d : TriggerDecision)
      → Posts post P app.world (decided registry none print task_id e app d).1.world
  decided-Posts app ignore = quiet app.world
  decided-Posts app status = plan-Posts _ app.world
  decided-Posts app run = run_event-Posts app (build_run_request_from_event e)

  handler-Posts :
      (app : App W)
      → Posts post P app.world
          (handle_canonical_event registry none failure print task_id e app).1.world
  handler-Posts app =
      rw (handled registry none failure print task_id e app)
        (decided-Posts (mirrored registry none failure print task_id e app) (resolve e))

-- What the handler of a QQ event sends, a status report, the place in the queue or the refusal, goes only to the chat that the event came from, whatever the database and the platform answer.
pub handle_canonical_event-Speaks :
    {W : Type 0} (libraries : Platforms W) (qq : QqPlatform) (registry : PlatformRegistry W)
    (registered : get (text "qq") registry ≡ some (qq_adapter libraries qq)) (chat : Chat)
    (failure : Option HistoryStoreError) (print : Value → Text) (task_id : Text)
    (e : CanonicalEvent) (payload : Value) (platform_account : Text) (app : App W)
    → ComesFrom chat payload
    → decode_napcat_event payload platform_account ≡ some e
    → Speaks libraries qq registry registered chat app.world
        (handle_canonical_event registry none failure print task_id e app).1.world
handle_canonical_event-Speaks libraries qq registry registered chat failure print task_id e payload
      platform_account app from h =
    let (p, c) = decode_napcat_event-chat chat payload platform_account e from h in
    handler-Posts registry libraries.qq_post (Addressed qq.base_url chat) failure print task_id e
      (qq_adapter libraries qq) (ap (λ k. get k registry) p ∙ registered)
      (λ plan.
        send_plan-ToChat libraries.qq_post libraries.print qq chat (delivery_context_from_event e)
          plan (unfold delivery_context_from_event in c))
      app
