-- ===== src/Wechat/Send.antt =====
-- agent-runner/src/platforms/wechatpadpro.rs: the adapter, and the delivery of a plan. The HTTP client is a parameter: a request has the account key in its query.
use dog_bot.Common.{
  Bool, true, false, Option, none, some, List, [], ◌∷◌, ◌++◌, unwrap_or, or_else, ◌==◌, ◌&&◌,
  if◌then◌else◌,
}
use dog_bot.Common.Text.{Text, text}
use dog_bot.Common.Text.Trim.{trim_end_matches}
use dog_bot.Common.Int.{ℤ, pos, negsuc}
use dog_bot.Common.Result.{Result, ok, err, ok_or}
use dog_bot.Json.{Value, member, as_i64}
use dog_bot.Config.{Settings}
use dog_bot.Models.{ErrorResponse, error_with, MessageResponse}
use dog_bot.Protocol.{OutboundMessage, OutboundPlan}
use dog_bot.Platform.{string_value, DeliveryContext, dispatch_plan}
use dog_bot.Platform.Client.{
  Answer, unreachable, answered, is_success, Post, Sending, ◌>>=◌, give, planned,
}
use dog_bot.Wechat.Compile.{
  OutboundRequest, text_request, file_request, Debug, compile_outbound_requests,
}

pub record WechatPadProPlatform : Type 0 where
  pub base_url : Text
  pub account_key : Option Text
  pub platform_account : Text
  pub mention_names : List Text

-- `WeChatPadProPlatform::from_settings`, where the client is built.
unfoldable pub from_settings : Settings → WechatPadProPlatform
unfolding trim_end_matches
from_settings settings = record {
  base_url = trim_end_matches (λ c. c == b'/') settings.wechatpadpro_base_url;
  account_key = settings.wechatpadpro_account_key;
  platform_account =
      unwrap_or settings.platform_wechatpadpro_account_id (text "wechatpadpro:account:bot");
  mention_names = settings.platform_wechatpadpro_bot_mention_names;
}

abbrev pub endpoint : OutboundRequest → Text
endpoint (text_request payload) = text "/message/SendTextMessage"
endpoint (file_request payload) = text "/api/v1/message/sendFile"

abbrev pub operation : OutboundRequest → Text
operation (text_request payload) = text "SendTextMessage"
operation (file_request payload) = text "sendFile"

abbrev pub payload_of : OutboundRequest → Value
payload_of (text_request payload) = payload
payload_of (file_request payload) = payload

abbrev pub is_200 : Option ℤ → Bool
is_200 none = false
is_200 (some (pos n)) = n == 200
is_200 (some (negsuc n)) = false

abbrev pub then_some {ℓ} : {A B : Type ℓ} → Option A → (A → Option B) → Option B
then_some none f = none
then_some (some a) f = f a

abbrev pub body_of : (Value → Text) → Text → Answer → Result ErrorResponse Value
body_of print name (unreachable e) =
    err (error_with "delivery_unavailable" (text "failed to reach WeChatPadPro API: " ++ e))
body_of print name (answered code shown (err e)) = err (
    error_with "delivery_invalid_response"
      (text "WeChatPadPro " ++ (name ++ (text " returned non-JSON response: " ++ e))))
body_of print name (answered code shown (ok body)) =
    if is_success code && is_200 (then_some (member (text "Code") body) as_i64)
    then ok body
    else err (
        error_with "delivery_failed"
          (text "WeChatPadPro " ++ (name ++ (text " failed: " ++ print body))))

abbrev pub sent_message : Value → MessageResponse
sent_message body = record {
  status = text "ok";
  message_id =
      or_else
        (then_some (then_some (member (text "Data") body) (member (text "MsgId"))) string_value)
        (then_some (member (text "MsgId") body) string_value);
}

module _ {W : Type 0} (post : Text → Post W) (print : Value → Text) (debug : Debug)
    (wechat : WechatPadProPlatform) where
  abbrev pub call : Text → OutboundRequest → Sending W Value
  call account_key request w =
      let r = post account_key (wechat.base_url ++ endpoint request) (payload_of request) w in
      (body_of print (operation request) r.0, r.1)

  unfoldable pub send_request : Text → OutboundRequest → Sending W MessageResponse
  send_request account_key request = do
    body ← call account_key request
    give (ok (sent_message body))

  unfoldable pub send_requests :
      Text → MessageResponse → List OutboundRequest → Sending W MessageResponse
  unfolding send_request
  send_requests account_key last [] = give (ok last)
  send_requests account_key last (request ∷ requests) = do
    response ← send_request account_key request
    send_requests account_key response requests

  -- `first` is `index == 0`.
  unfoldable pub send_messages :
      Text
      → DeliveryContext
      → Bool
      → MessageResponse
      → List OutboundMessage
      → Sending W MessageResponse
  unfolding send_requests compile_outbound_requests
  send_messages account_key context first last [] = give (ok last)
  send_messages account_key context first last (message ∷ messages) = do
    requests ← planned (compile_outbound_requests debug context first message)
    response ← send_requests account_key last requests
    send_messages account_key context false response messages

  unfoldable pub send_plan : DeliveryContext → OutboundPlan → Sending W MessageResponse
  unfolding dispatch_plan send_messages
  send_plan context plan = do
    _ ← planned (dispatch_plan plan)
    account_key ← give (
        ok_or
          (error_with "delivery_unavailable" (text "WECHATPADPRO_ACCOUNT_KEY is not configured"))
          wechat.account_key)
    send_messages account_key context true (record { status = text "ok"; message_id = none })
        plan.messages
