-- ===== src/Handler/Plans.antt =====
-- agent-runner/src/server.rs: the request that is built from an event, and the plans of the feedback.
use dog_bot.Common.{
  ℕ, suc, Option, none, some, List, [], ◌∷◌, ◌++◌, map, length, is_empty, if◌then◌else◌,
}
use dog_bot.Common.Text.{Text, text, text_eq}
use dog_bot.Common.Text.Trim.{trim}
use dog_bot.Common.Text.Split.{join}
use dog_bot.Common.Text.Decimal.{show_ℕ}
use dog_bot.Protocol.{
  MessagePart, text_part, mention, image, file, voice, video, sticker, quote, CanonicalMessage,
  CanonicalEvent, message_of, project_plain_text, text_message, OutboundPlan,
}
use dog_bot.Models.{MentionRef, RunRequest}
use dog_bot.Scheduler.{
  TaskSummary, TerminalState, completed, failed, TerminalSummary, SchedulerSnapshot,
}
use dog_bot.Trigger.{conversation_scope}

-- The variables of the loop.
abbrev pub RefsState : Type 0
RefsState = Text × List MentionRef

abbrev pub numbered_ref : ℕ → Text → Text → MentionRef
numbered_ref n actor_id display = record {
  ref_id = text "m" ++ show_ℕ n;
  actor_id = actor_id;
  display = display;
}

unfoldable pub add_mention : Text → Text → Text → RefsState → RefsState
unfolding show_ℕ
add_mention platform_account actor_id display (summary, refs) =
    let added = numbered_ref (suc (length refs)) actor_id display in
    if text_eq actor_id platform_account
    then (summary ++ display, refs)
    else (summary ++ (display ++ (text "[#" ++ (added.ref_id ++ text "]"))), refs ++ added ∷ [])

abbrev pub add_part : Text → MessagePart → RefsState → RefsState
add_part account (text_part t) (summary, refs) = (summary ++ t, refs)
add_part account (mention actor_id display) st = add_mention account actor_id display st
add_part account (image a) st = st
add_part account (file a) st = st
add_part account (voice a) st = st
add_part account (video a) st = st
add_part account (sticker a) st = st
add_part account (quote id excerpt) st = st

unfoldable pub add_parts : Text → List MessagePart → RefsState → RefsState
unfolding add_mention
add_parts account [] st = st
add_parts account (p ∷ parts) st = add_parts account parts (add_part account p st)

unfoldable pub render_trigger_summary_with_refs : CanonicalMessage → Text → RefsState
unfolding add_parts trim project_plain_text
render_trigger_summary_with_refs m account =
    let (summary, refs) = add_parts account m.parts ([], []) in
    if is_empty (trim summary) then (trim (project_plain_text m), refs) else (trim summary, refs)

abbrev pub chat_type_of : Option Text → Text
chat_type_of none = text "unknown"
chat_type_of (some scope) =
    if text_eq scope (text "private")
    then text "private"
    else if text_eq scope (text "group")
    then text "group"
    else text "unknown"

abbrev pub run_request : CanonicalEvent → CanonicalMessage → RunRequest
run_request e m =
    let (trigger_summary, refs) = render_trigger_summary_with_refs m e.platform_account in
    record {
      platform = e.platform;
      platform_account_id = e.platform_account;
      conversation_id = e.conversation;
      session_id = e.conversation;
      user_id = e.actor;
      chat_type = chat_type_of (conversation_scope e.conversation);
      cwd = text "/workspace";
      prompt = trim (project_plain_text m);
      trigger_summary = some trigger_summary;
      trigger_message_id = some m.message_id;
      trigger_reply_to_message_id = m.reply_to;
      mention_refs = refs;
      reply_excerpt = none;
      timeout_secs = none;
    }

abbrev pub request_of : CanonicalEvent → Option CanonicalMessage → Option RunRequest
request_of e none = none
request_of e (some m) = some (run_request e m)

unfoldable pub build_run_request_from_event : CanonicalEvent → Option RunRequest
unfolding render_trigger_summary_with_refs
build_run_request_from_event e = request_of e (message_of e)

-- `{:?}` of the state.
abbrev pub state_name : TerminalState → Text
state_name completed = text "Completed"
state_name failed = text "Failed"

abbrev pub recent_text : List TerminalSummary → Text
recent_text [] = text "none"
recent_text (t ∷ []) = t.conversation_key ++ (text " " ++ state_name t.state)
recent_text (t ∷ u ∷ us) = recent_text (u ∷ us)

abbrev pub running_text : List TaskSummary → Text
running_text [] = text "none"
running_text (t ∷ ts) =
    join (text ", ") (map (λ t. t.conversation_key ++ (text " " ++ t.task_id)) (t ∷ ts))

abbrev pub plan_of_text : Text → OutboundPlan
plan_of_text t = record {
  messages = text_message t ∷ [];
  actions = [];
  delivery_report_policy = none;
}

unfoldable pub status_outbound_plan : SchedulerSnapshot → OutboundPlan
unfolding join show_ℕ
status_outbound_plan s = plan_of_text (
    text "agent-runner ok\nrunning: "
    ++ (show_ℕ s.active_count
        ++ (text "/"
            ++ (show_ℕ s.max_concurrent
                ++ (text "\nqueued: "
                    ++ (show_ℕ s.waiting_count
                        ++ (text "/"
                            ++ (show_ℕ s.max_queue_depth
                                ++ (text "\nrunning detail: "
                                    ++ (running_text s.running
                                        ++ (text "\nrecent: "
                                            ++ recent_text s.recent_terminal)))))))))))

unfoldable pub queue_wait_plan : ℕ → OutboundPlan
unfolding show_ℕ
queue_wait_plan tasks_ahead =
    plan_of_text (text "前面还有 " ++ (show_ℕ tasks_ahead ++ text " 个任务，轮到这条时我会给你一个反应。"))

abbrev pub queue_full_plan : OutboundPlan
queue_full_plan = plan_of_text (text "现在等待队列满了，稍后再发一次。")
