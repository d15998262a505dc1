-- ===== src/Adapters.antt =====
-- agent-runner/src/platforms: the adapters of QQ and WeChat as values of the trait, and the registry that holds them.
use dog_bot.Common.{Bool, true, false, [], ◌∷◌}
use dog_bot.Common.Text.{Text, text}
use dog_bot.Common.Int.{ℤ}
use dog_bot.Common.Result.{Result, ok, ◌>>=◌}
use dog_bot.Json.{Value}
use dog_bot.Config.{Settings}
use dog_bot.Models.{ErrorResponse}
use dog_bot.Platform.Client.{Post}
use dog_bot.Platform.Registry.{PlatformAdapter, PlatformRegistry, empty_registry, register}
use dog_bot.Qq.Receive.{decode_napcat_event}
use dog_bot.Qq.Send as QqSend
use dog_bot.Qq.Send.{QqPlatform}
use dog_bot.Wechat.{decode_webhook_event}
use dog_bot.Wechat.Compile.{Debug}
use dog_bot.Wechat.Send as WechatSend
use dog_bot.Wechat.Send.{WechatPadProPlatform}

-- What the adapters take from libraries; `now` is the clock when an event is decoded.
pub record Platforms (W : Type 0) : Type 0 where
  pub qq_post : Post W
  pub wechat_post : Text → Post W
  pub print : Value → Text
  pub debug : Debug
  pub header_value : Text → Bool
  pub now : ℤ

module _ {W : Type 0} (libraries : Platforms W) where
  abbrev pub qq_adapter : QqPlatform → PlatformAdapter W
  qq_adapter qq = record {
    platform_id = text "qq";
    ingress_routes =
        (record { path = text "/v1/platforms/qq/napcat/events"; allow_head = false }) ∷ [];
    decode_event = λ payload. decode_napcat_event payload qq.platform_account;
    send_plan = QqSend.send_plan libraries.qq_post libraries.print qq;
  }

  abbrev pub wechat_adapter : WechatPadProPlatform → PlatformAdapter W
  wechat_adapter wechat = record {
    platform_id = text "wechatpadpro";
    ingress_routes =
        (record { path = text "/v1/platforms/wechatpadpro/events"; allow_head = true }) ∷ [];
    decode_event = λ payload.
        decode_webhook_event libraries.now payload wechat.platform_account wechat.mention_names;
    send_plan = WechatSend.send_plan libraries.wechat_post libraries.print libraries.debug wechat;
  }

  -- `PlatformRegistry::from_settings`.
  unfoldable pub registry_from_settings : Settings → Result ErrorResponse (PlatformRegistry W)
  unfolding register QqSend.from_settings WechatSend.from_settings
  registry_from_settings settings = do
    qq ← QqSend.from_settings libraries.header_value settings
    ok (
        register (wechat_adapter (WechatSend.from_settings settings))
          (register (qq_adapter qq) empty_registry))
