-- ===== src/Delivery/Wechat.antt =====
-- A task of WeChat speaks only to the chat that its event came from.
use dog_bot.Common.{ℕ, Option, none, some, ◌≡◌, ap, ◌∙◌}
use dog_bot.Common.Text.{Text, text}
use dog_bot.Json.{Value}
use dog_bot.Models.{RunRequest, ValidatedRunRequest, RunResponse}
use dog_bot.Platform.{delivery_context_from_event}
use dog_bot.Platform.Client.{Sending}
use dog_bot.Platform.Posts.{Posts}
use dog_bot.Platform.Registry.{PlatformRegistry, get}
use dog_bot.Normalizer.Actions.{ActionBlock}
use dog_bot.Wechat.{decode_webhook_event}
use dog_bot.Wechat.Extract.{unwrap_event}
use dog_bot.Wechat.Texts.{target_of}
use dog_bot.Wechat.Send.{WechatPadProPlatform}
use dog_bot.Wechat.Isolation.{Addressed, send_plan-ToTarget}
use dog_bot.Wechat.Origin.{chat_of, decode_webhook_event-chat}
use dog_bot.Adapters.{Platforms, wechat_adapter}
use dog_bot.Runs.{ScheduledRun}
use dog_bot.Delivery.Sends.{task-Posts}
use dog_bot.Delivery.{send_start_reaction_best_effort, run_outcome}

module _ {W : Type 0} (libraries : Platforms W) (wechat : WechatPadProPlatform)
    (registry : PlatformRegistry W)
    (registered : get (text "wechatpadpro") registry ≡ some (wechat_adapter libraries wechat))
    (key : Text) (keyed : wechat.account_key ≡ some key) where
  -- By requests with the account key to the chat, and by nothing else.
  abbrev pub SpeaksTo : Text → W → W → Type 0
  SpeaksTo chat = Posts (libraries.wechat_post key) (Addressed wechat.base_url chat)

  -- What a task of WeChat sends, before its run and after it, are only requests with the configured account key that name the group of its event as the receiver, or its sender where it has no group, whatever the agent writes, however the run ends and whatever the platform answers.
  pub run_outcome-SpeaksTo :
      (parse_block : Text → Option ActionBlock) (hash : Text → ℕ)
      (runner : RunRequest → ValidatedRunRequest → Sending W RunResponse) (task : ScheduledRun)
      (payload : Value) (w : W)
      → decode_webhook_event libraries.now payload wechat.platform_account wechat.mention_names
        ≡ some task.event
      → SpeaksTo
          (chat_of (unwrap_event payload))
          w
          (send_start_reaction_best_effort registry none hash task w)
        × SpeaksTo
            (chat_of (unwrap_event payload))
            (runner task.request task.validated
              (send_start_reaction_best_effort registry none hash task w)).1
            (run_outcome registry none parse_block hash runner task w).1
  run_outcome-SpeaksTo parse_block hash runner task payload w h =
      let (p, c) =
        decode_webhook_event-chat libraries.now payload wechat.platform_account wechat.mention_names
          task.event h in
      let context = delivery_context_from_event task.event in
      rw (← c) (
        task-Posts registry (libraries.wechat_post key)
          (Addressed wechat.base_url (target_of context)) task (wechat_adapter libraries wechat)
          (ap (λ k. get k registry) p ∙ registered)
          (λ plan.
            send_plan-ToTarget libraries.wechat_post libraries.print libraries.debug wechat key
              context plan keyed)
          parse_block hash runner w)
