-- ===== src/Handler/Events.antt =====
-- What an event does to the runs and what is sent for it.
use dog_bot.Common.{true, false, Option, none, some, ◌≡◌, refl, ◌∙◌}
use dog_bot.Common.Text.{Text}
use dog_bot.Common.Result.{Result, ok, err, is_ok}
use dog_bot.HashMap.{get}
use dog_bot.Json.{Value}
use dog_bot.Protocol.{CanonicalEvent}
use dog_bot.Models.{RunRequest, ValidatedRunRequest, validate}
use dog_bot.Runs.{RunSchedulerInner, ScheduleFeedback, started, queued, full, scheduled_run, submit}
use dog_bot.Runs.Valid.{IsConsistent, submit-IsConsistent}
use dog_bot.Trigger.{TriggerDecision, ignore, run, status, resolve, triggers, should_trigger_run}
use dog_bot.Platform.Registry.{PlatformRegistry}
use dog_bot.Delivery.{Messenger}
use dog_bot.History.Roles.{HistoryStoreError}
use dog_bot.Handler.Requests.{build_run_request_from_event-accepted}
use dog_bot.Handler.Plans.{build_run_request_from_event}
use dog_bot.Handler.{
  App, best_effort, mirror_history_event_if_enabled, feedback_response, submit_validated, run_event,
  decided, handle_canonical_event,
}

module _ {W : Type 0} (registry : PlatformRegistry W) (message_override : Option (Messenger W))
    (failure : Option HistoryStoreError) (print : Value → Text) (task_id : Text)
    (e : CanonicalEvent) where
  feedback_response-runs :
      (app : App W) (r : RunSchedulerInner × ScheduleFeedback)
      → (feedback_response registry message_override e app r).1.runs ≡ r.0
  feedback_response-runs app (runs, started) = refl
  feedback_response-runs app (runs, queued n) = refl
  feedback_response-runs app (runs, full) = refl

  run_event-IsConsistent :
      (app : App W) (o : Option RunRequest)
      → get task_id app.runs.queued_payloads ≡ none
      → IsConsistent app.runs
      → IsConsistent (run_event registry message_override print task_id e app o).1.runs
  run_event-IsConsistent app none fresh v = v
  run_event-IsConsistent app (some request) fresh v = validated (validate print request)
    where
      validated :
          (r : Result Text ValidatedRunRequest)
          → IsConsistent (submit_validated registry message_override task_id e app request r).1.runs
      validated (err message) = v
      validated (ok valid) =
          let task = scheduled_run task_id e request valid in
          rw (feedback_response-runs app (submit task app.runs))
            (submit-IsConsistent task app.runs fresh v)

  decided-IsConsistent :
      (app : App W) (d : TriggerDecision)
      → get task_id app.runs.queued_payloads ≡ none
      → IsConsistent app.runs
      → IsConsistent (decided registry message_override print task_id e app d).1.runs
  decided-IsConsistent app ignore fresh v = v
  decided-IsConsistent app status fresh v = v
  decided-IsConsistent app run fresh v =
      run_event-IsConsistent app (build_run_request_from_event e) fresh v

  -- The state once the event is in the history, or the database failed.
  abbrev pub mirrored : App W → App W
  mirrored app = record app {
    history = (mirror_history_event_if_enabled failure print e app.history).1;
  }

  best_effort_next :
      {A : Type 0} (r : Result HistoryStoreError (Unit {0})) (next : A) → best_effort r next ≡ next
  best_effort_next (ok u) next = refl
  best_effort_next (err error) next = refl

  pub handled :
      (app : App W)
      → handle_canonical_event registry message_override failure print task_id e app
        ≡ decided registry message_override print task_id e (mirrored app) (resolve e)
  unfolding handle_canonical_event
  handled app = best_effort_next _ _ ∙ best_effort_next _ _

  -- No event leaves the run scheduler inconsistent, whatever it is and whatever the database and the delivery answer, as long as the identifier drawn for its task is new.
  pub handle_canonical_event-IsConsistent :
      (app : App W)
      → get task_id app.runs.queued_payloads ≡ none
      → IsConsistent app.runs
      → IsConsistent
          (handle_canonical_event registry message_override failure print task_id e app).1.runs
  handle_canonical_event-IsConsistent app fresh v =
      rw (handled app) (decided-IsConsistent (mirrored app) (resolve e) fresh v)

  decided_untriggered :
      (app : App W) (d : TriggerDecision)
      → triggers d ≡ false
      → ((decided registry message_override print task_id e app d).1.runs ≡ app.runs)
        × ((decided registry message_override print task_id e app d).1.world ≡ app.world)
  decided_untriggered app ignore h = (refl, refl)
  decided_untriggered app status h = cc
  decided_untriggered app run h = cc

  -- An event that does not trigger starts and queues nothing and sends nothing.
  pub handle_canonical_event_untriggered :
      (app : App W)
      → should_trigger_run e ≡ false
      → ((handle_canonical_event registry message_override failure print task_id e app).1.runs
          ≡ app.runs)
        × ((handle_canonical_event registry message_override failure print task_id e app).1.world
            ≡ app.world)
  unfolding should_trigger_run
  handle_canonical_event_untriggered app h =
      rw (handled app) (decided_untriggered (mirrored app) (resolve e) h)

  submit_validated_accepted :
      (app : App W) (r : RunRequest) (v : Result Text ValidatedRunRequest)
      → is_ok v ≡ true
      → (valid : ValidatedRunRequest) × (v ≡ ok valid)
        × ((submit_validated registry message_override task_id e app r v).1.runs
            ≡ (submit (scheduled_run task_id e r valid) app.runs).0)
        × ((submit_validated registry message_override task_id e app r v).0.status_code ≡ 200)
  submit_validated_accepted app r (err message) h = cc
  submit_validated_accepted app r (ok valid) h = (
    valid,
    refl,
    feedback_response-runs app (submit (scheduled_run task_id e r valid) app.runs),
    feedback_response_code (submit (scheduled_run task_id e r valid) app.runs),
  )
    where
      feedback_response_code :
          (p : RunSchedulerInner × ScheduleFeedback)
          → (feedback_response registry message_override e app p).0.status_code ≡ 200
      feedback_response_code (runs, started) = refl
      feedback_response_code (runs, queued n) = refl
      feedback_response_code (runs, full) = refl

  -- An event that is to run has its request validated and submitted, and is answered with the code 200, also when the queue is full, and whatever the history database answers.
  pub handle_canonical_event_submits :
      (app : App W) (r : RunRequest)
      → resolve e ≡ run
      → build_run_request_from_event e ≡ some r
      → (valid : ValidatedRunRequest) × (validate print r ≡ ok valid)
        × ((handle_canonical_event registry message_override failure print task_id e app).1.runs
            ≡ (submit (scheduled_run task_id e r valid) app.runs).0)
        × ((handle_canonical_event registry message_override failure print task_id e
              app).0.status_code
            ≡ 200)
  handle_canonical_event_submits app r h b =
      rw (handled app, h, b)
        (submit_validated_accepted (mirrored app) r (validate print r)
          (build_run_request_from_event-accepted print e r b))
