-- ===== src/Delivery/Isolation.antt =====
-- A task of QQ speaks only to the chat that its event came from.
use dog_bot.Common.{ℕ, Option, none, some, ◌≡◌, ap, ◌∙◌}
use dog_bot.Common.Text.{Text, text}
use dog_bot.Json.{Value}
use dog_bot.Models.{RunRequest, ValidatedRunRequest, RunResponse}
use dog_bot.Platform.{delivery_context_from_event}
use dog_bot.Platform.Client.{Sending}
use dog_bot.Platform.Posts.{Posts}
use dog_bot.Platform.Registry.{PlatformRegistry, get}
use dog_bot.Normalizer.Actions.{ActionBlock}
use dog_bot.Qq.Receive.{decode_napcat_event}
use dog_bot.Qq.Send.{QqPlatform}
use dog_bot.Qq.Isolation.{Chat, Addressed, send_plan-ToChat}
use dog_bot.Qq.Origin.{ComesFrom, decode_napcat_event-chat}
use dog_bot.Adapters.{Platforms, qq_adapter}
use dog_bot.Runs.{ScheduledRun}
use dog_bot.Delivery.Sends.{task-Posts}
use dog_bot.Delivery.{send_start_reaction_best_effort, run_outcome}

module _ {W : Type 0} (libraries : Platforms W) (qq : QqPlatform) (registry : PlatformRegistry W)
    (registered : get (text "qq") registry ≡ some (qq_adapter libraries qq)) (chat : Chat) where
  -- By requests to the chat, and by nothing else.
  abbrev pub Speaks : W → W → Type 0
  Speaks = Posts libraries.qq_post (Addressed qq.base_url chat)

  -- What a task sends, before its run and after it, goes only to the chat that the message of its event came from, or is a reaction, whatever the agent writes, however the run ends and whatever the platform answers: no output of one chat reaches another.
  pub run_outcome-Speaks :
      (parse_block : Text → Option ActionBlock) (hash : Text → ℕ)
      (runner : RunRequest → ValidatedRunRequest → Sending W RunResponse) (task : ScheduledRun)
      (payload : Value) (platform_account : Text) (w : W)
      → ComesFrom chat payload
      → decode_napcat_event payload platform_account ≡ some task.event
      → Speaks w (send_start_reaction_best_effort registry none hash task w)
        × Speaks
            (runner task.request task.validated
              (send_start_reaction_best_effort registry none hash task w)).1
            (run_outcome registry none parse_block hash runner task w).1
  run_outcome-Speaks parse_block hash runner task payload platform_account w from h =
      let (p, c) = decode_napcat_event-chat chat payload platform_account task.event from h in
      let context = delivery_context_from_event task.event in
      task-Posts registry libraries.qq_post (Addressed qq.base_url chat) task
        (qq_adapter libraries qq) (ap (λ k. get k registry) p ∙ registered)
        (λ plan.
          send_plan-ToChat libraries.qq_post libraries.print qq chat context plan
            (unfold delivery_context_from_event in c))
        parse_block hash runner w
