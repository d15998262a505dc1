-- ===== src/Handler/Tests.antt =====
-- A private message that starts a run, and a reaction that does nothing.
use dog_bot.Common.{◌≡◌, refl, true, none, some, List, [], ◌∷◌}
use dog_bot.Common.Text.{Text, text, text_eq}
use dog_bot.Common.Int.{pos}
use dog_bot.Common.Result.{ok}
use dog_bot.HashMap.{get}
use dog_bot.Json.{Value, null, str, object, field, end, lookup}
use dog_bot.Protocol.{
  text_part, mention, CanonicalMessage, CanonicalEvent, message_event, reaction_added_event,
}
use dog_bot.Models.{ValidatedRunRequest, MessageRequest, validate}
use dog_bot.Runs.{new_runs, scheduled_run, submit}
use dog_bot.Runs.Valid.{IsConsistent, new-IsConsistent}
use dog_bot.Trigger.{resolve}
use dog_bot.Handler.Plans.{
  run_request, render_trigger_summary_with_refs, build_run_request_from_event, status_outbound_plan,
}
use dog_bot.Handler.{App, handle_canonical_event}
use dog_bot.Platform.Registry
use dog_bot.Platform.Registry.{PlatformRegistry, empty_registry, register}
use dog_bot.Platform.Client.{Post, answered}
use dog_bot.Qq.Receive.{event_parts, napcat_event, decode_napcat_event}
use dog_bot.Qq.Send.{QqPlatform, send_plan}
use dog_bot.Qq.Isolation.{private_chat}
use dog_bot.Adapters.{Platforms, qq_adapter}
use dog_bot.Delivery.Isolation.{Speaks}
use dog_bot.Handler.Isolation.{handle_canonical_event-Speaks}
use dog_bot.Delivery.{Messenger, no_message}
use dog_bot.History.Roles.{worker_panicked}
use dog_bot.Handler.Events.{handle_canonical_event-IsConsistent, handle_canonical_event_submits}

abbrev print : Value → Text
print v = text "{}"

abbrev asked : CanonicalMessage
asked = record {
  message_id = text "m";
  reply_to = none;
  parts =
      text_part (text "ask ")
      ∷ mention (text "bot") (text "@bot")
      ∷ mention (text "u2") (text "@two")
      ∷ [];
  mentions = [];
  native_metadata = null;
}

abbrev question : CanonicalEvent
question = record {
  platform = text "qq";
  platform_account = text "bot";
  conversation = text "qq:private:1";
  actor = text "u1";
  event_id = text "e";
  timestamp_epoch_secs = pos 1;
  kind = message_event asked;
  raw_native_payload = null;
}

abbrev liked : CanonicalEvent
liked =
    reaction_added_event (text "qq") (text "bot") (text "qq:private:1") (text "u1") (text "e2")
      (pos 2) (text "m") (text "ok") null

abbrev idle : App (List MessageRequest)
idle = record {
  runs = new_runs 1 5;
  history = record { history_messages = []; history_read_grants = [] };
  world = [];
}

-- The requests that were handed to it are the state.
abbrev messenger : Messenger (List MessageRequest)
messenger r session sent = (ok no_message, r ∷ sent)

-- The summary itself.
asked_summary : (render_trigger_summary_with_refs asked (text "bot")).0 ≡ text "ask @bot@two[#m1]"
unfolding render_trigger_summary_with_refs text_eq
asked_summary = refl

line_feed : text "\n" ≡ 10 ∷ []
line_feed = refl

handle_canonical_event-IsConsistent_example :
    IsConsistent
      (handle_canonical_event empty_registry
        (some messenger)
        none
        print
        (text "t1")
        question
        idle).1.runs
unfolding new_runs get
handle_canonical_event-IsConsistent_example =
    handle_canonical_event-IsConsistent empty_registry (some messenger) none print (text "t1")
      question idle refl (new-IsConsistent 1 5)

-- The database fails meanwhile.
handle_canonical_event_submits_example :
    (valid : ValidatedRunRequest) × (validate print (run_request question asked) ≡ ok valid)
    × ((handle_canonical_event empty_registry
          (some messenger)
          (some worker_panicked)
          print
          (text "t1")
          question
          idle).1.runs
        ≡ (submit
            (scheduled_run (text "t1") question (run_request question asked) valid)
            idle.runs).0)
    × ((handle_canonical_event empty_registry
          (some messenger)
          (some worker_panicked)
          print
          (text "t1")
          question
          idle).0.status_code
        ≡ 200)
unfolding resolve build_run_request_from_event text_eq
handle_canonical_event_submits_example =
    handle_canonical_event_submits empty_registry (some messenger) (some worker_panicked) print
      (text "t1") question idle (run_request question asked) refl refl

-- The URLs that were called.
abbrev log : Post (List Text)
log url sent called = (answered 200 (text "200 OK") (ok null), url ∷ called)

abbrev libraries : Platforms (List Text)
libraries = record {
  qq_post = log;
  wechat_post = λ key. log;
  print = print;
  debug = record { source = λ s. []; part = λ p. [] };
  header_value = λ s. true;
  now = pos 0;
}

abbrev qq : QqPlatform
qq = record { authorization = none; base_url = []; platform_account = text "qq:bot_uin:1" }

abbrev registry : PlatformRegistry (List Text)
registry = register (qq_adapter libraries qq) empty_registry

registered : Registry.get (text "qq") registry ≡ some (qq_adapter libraries qq)
unfolding Registry.get register text_eq
registered = refl

-- A private message that asks for the status.
abbrev status_payload : Value
status_payload = object (
    field (text "post_type") (str (text "message")) (
      field (text "message_type") (str (text "private")) (
        field (text "user_id") (str (text "42")) (
          field (text "message_id") (str (text "9"))
            (field (text "raw_message") (str (text "/agent-status")) end)))))

abbrev status_event : CanonicalEvent
status_event =
    napcat_event status_payload (text "qq:bot_uin:1") (text "42") (text "9") (text "qq:private:42")

abbrev quiet_app : App (List Text)
quiet_app = record {
  runs = new_runs 1 5;
  history = record { history_messages = []; history_read_grants = [] };
  world = [];
}

-- The report is sent.
reported :
    (handle_canonical_event registry none none print (text "t1") status_event quiet_app).1.world
    ≡ text "/send_private_msg" ∷ []
unfolding handle_canonical_event new_runs event_parts lookup send_plan status_outbound_plan register
reported = refl

handle_canonical_event-Speaks_example :
    Speaks libraries qq registry registered
      (private_chat (text "42"))
      []
      (handle_canonical_event registry none none print (text "t1") status_event quiet_app).1.world
unfolding decode_napcat_event text_eq lookup
handle_canonical_event-Speaks_example =
    handle_canonical_event-Speaks libraries qq registry registered (private_chat (text "42")) none
      print (text "t1") status_event status_payload (text "qq:bot_uin:1") quiet_app (refl, refl)
      refl
