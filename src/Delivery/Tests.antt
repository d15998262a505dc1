-- ===== src/Delivery/Tests.antt =====
-- A task of QQ whose output asks for a file of the host.
use dog_bot.Common.{ℕ, true, false, Option, none, some, List, [], ◌∷◌, ◌≡◌, refl}
use dog_bot.Common.Text.{Text, text, text_eq}
use dog_bot.Common.Int.{pos}
use dog_bot.Common.Result.{ok}
use dog_bot.Json.{Value, null, str, object, field, end, lookup}
use dog_bot.Models.{RunRequest, ValidatedRunRequest, RunResponse}
use dog_bot.Protocol.{text_part, CanonicalEvent, message_event}
use dog_bot.Platform.{run_response_output}
use dog_bot.Platform.Client.{Post, Sending, answered}
use dog_bot.Platform.Registry.{PlatformRegistry, empty_registry, register, get}
use dog_bot.Normalizer.Actions.{ActionItem, missing, ActionBlock, single}
use dog_bot.Normalizer.{normalize_agent_output}
use dog_bot.Qq.Send.{QqPlatform, send_plan}
use dog_bot.Wechat.{webhook_event, decode_webhook_event}
use dog_bot.Wechat.Extract.{unwrap_event, extract_group_id}
use dog_bot.Wechat.Send.{WechatPadProPlatform}
use dog_bot.Wechat.Origin.{chat_of}
use dog_bot.Adapters.{Platforms, qq_adapter, wechat_adapter}
use dog_bot.Scheduler.{failed}
use dog_bot.Runs.{ScheduledRun, scheduled_run}
use dog_bot.Delivery.{send_start_reaction_best_effort, run_outcome}
use dog_bot.Qq.Receive.{napcat_event, decode_napcat_event}
use dog_bot.Qq.Isolation.{private_chat}
use dog_bot.Delivery.Wechat.{SpeaksTo, run_outcome-SpeaksTo}
use dog_bot.Delivery.Isolation.{Speaks, run_outcome-Speaks}
use dog_bot.Delivery.Outcomes.{run_outcome_refused}

-- The URLs that were called are the state.
abbrev log : Post (List Text)
log url payload called = (answered 200 (text "200 OK") (ok null), url ∷ called)

abbrev libraries : Platforms (List Text)
libraries = record {
  qq_post = log;
  wechat_post = λ key. log;
  print = λ v. [];
  debug = record { source = λ s. []; part = λ p. [] };
  header_value = λ s. true;
  now = pos 0;
}

abbrev qq : QqPlatform
qq = record { authorization = none; base_url = []; platform_account = text "qq:bot_uin:1" }

abbrev registry : PlatformRegistry (List Text)
registry = register (qq_adapter libraries qq) empty_registry

registered : get (text "qq") registry ≡ some (qq_adapter libraries qq)
unfolding get register text_eq
registered = refl

abbrev event : CanonicalEvent
event = record {
  platform = text "qq";
  platform_account = text "qq:bot_uin:1";
  conversation = text "qq:private:42";
  actor = text "qq:user:42";
  event_id = text "qq:event:9";
  timestamp_epoch_secs = pos 1;
  kind = message_event (record {
    message_id = text "9";
    reply_to = none;
    parts = text_part (text "hi") ∷ [];
    mentions = [];
    native_metadata = null;
  });
  raw_native_payload = null;
}

abbrev request : RunRequest
request = record {
  platform = text "qq";
  platform_account_id = text "qq:bot_uin:1";
  conversation_id = text "qq:private:42";
  session_id = [];
  user_id = text "qq:user:42";
  chat_type = text "private";
  cwd = text "/workspace";
  prompt = text "hi";
  trigger_summary = none;
  trigger_message_id = none;
  trigger_reply_to_message_id = none;
  mention_refs = [];
  reply_excerpt = none;
  timeout_secs = none;
}

abbrev validated : ValidatedRunRequest
validated = record { cwd = text "/workspace"; prompt = text "hi"; system_prompt = [] }

abbrev task : ScheduledRun
task = scheduled_run (text "1") event request validated

abbrev leaking : ActionItem
leaking = record {
  action_type = text "send_file";
  target_message_id = none;
  emoji = none;
  reply_to = missing;
  source_type = some (text "workspace_path");
  source_value = some (text "/etc/passwd");
  caption_text = none;
}

abbrev parse_block : Text → Option ActionBlock
parse_block s = some (single leaking)

abbrev hash : Text → ℕ
hash s = 0

abbrev response : RunResponse
response = record {
  status = text "ok";
  stdout = text "look\n```dogbot-action\n{}\n```";
  stderr = [];
  exit_code = pos 0;
  timed_out = false;
  duration_ms = 1;
}

abbrev runner : RunRequest → ValidatedRunRequest → Sending (List Text) RunResponse
runner r v w = (ok response, w)

run_outcome_refused_example :
    ((run_outcome registry none parse_block hash runner task []).0.0 ≡ failed)
    × ((run_outcome registry none parse_block hash runner task []).1
        ≡ text "/set_msg_emoji_like" ∷ [])
unfolding send_start_reaction_best_effort register run_response_output normalize_agent_output
    send_plan
run_outcome_refused_example =
    run_outcome_refused libraries qq registry registered parse_block hash runner task response []
      (text "/set_msg_emoji_like" ∷ []) refl refl refl refl

abbrev private_payload : Value
private_payload = object (
    field (text "post_type") (str (text "message")) (
      field (text "message_type") (str (text "private")) (
        field (text "user_id") (str (text "42")) (
          field (text "message_id") (str (text "9"))
            (field (text "raw_message") (str (text "hi")) end)))))

abbrev decoded_task : ScheduledRun
decoded_task = record task {
  event =
      napcat_event private_payload (text "qq:bot_uin:1") (text "42") (text "9")
        (text "qq:private:42");
}

run_outcome-Speaks_example :
    Speaks libraries qq registry registered
      (private_chat (text "42"))
      []
      (send_start_reaction_best_effort registry none hash decoded_task [])
    × Speaks libraries qq registry registered
        (private_chat (text "42"))
        (send_start_reaction_best_effort registry none hash decoded_task [])
        (run_outcome registry none parse_block hash runner decoded_task []).1
unfolding decode_napcat_event text_eq lookup
run_outcome-Speaks_example =
    run_outcome-Speaks libraries qq registry registered (private_chat (text "42")) parse_block hash
      runner decoded_task private_payload (text "qq:bot_uin:1") [] (refl, refl) refl

abbrev wechat : WechatPadProPlatform
wechat = record {
  base_url = [];
  account_key = some (text "k");
  platform_account = text "wechatpadpro:account:bot";
  mention_names = text "dog" ∷ [];
}

abbrev wechat_registry : PlatformRegistry (List Text)
wechat_registry = register (wechat_adapter libraries wechat) registry

wechat_registered :
    get (text "wechatpadpro") wechat_registry ≡ some (wechat_adapter libraries wechat)
unfolding get register text_eq
wechat_registered = refl

-- A message in a group that mentions the bot.
abbrev group_payload : Value
group_payload = object (
    field (text "msgId") (str (text "7")) (
      field (text "roomId") (str (text "r@chatroom")) (
        field (text "senderWxid") (str (text "w"))
          (field (text "content") (str (text "@dog hi")) end))))

abbrev wechat_task : ScheduledRun
wechat_task = record task {
  event =
      webhook_event (pos 0) group_payload (unwrap_event group_payload) wechat.platform_account
        wechat.mention_names (text "7");
}

wechat_task_decoded :
    decode_webhook_event (pos 0) group_payload wechat.platform_account wechat.mention_names
    ≡ some wechat_task.event
unfolding decode_webhook_event lookup text_eq
wechat_task_decoded = refl

group_named : chat_of (unwrap_event group_payload) ≡ text "r@chatroom"
unfolding unwrap_event lookup text_eq extract_group_id
group_named = refl

run_outcome-SpeaksTo_example :
    SpeaksTo libraries wechat wechat_registry wechat_registered
      (text "k")
      refl
      (chat_of (unwrap_event group_payload))
      []
      (send_start_reaction_best_effort wechat_registry none hash wechat_task [])
    × SpeaksTo libraries wechat wechat_registry wechat_registered
        (text "k")
        refl
        (chat_of (unwrap_event group_payload))
        (send_start_reaction_best_effort wechat_registry none hash wechat_task [])
        (run_outcome wechat_registry none parse_block hash runner wechat_task []).1
run_outcome-SpeaksTo_example =
    run_outcome-SpeaksTo libraries wechat wechat_registry wechat_registered (text "k") refl
      parse_block hash runner wechat_task group_payload [] wechat_task_decoded
