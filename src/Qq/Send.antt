-- ===== src/Qq/Send.antt =====
-- agent-runner/src/platforms/qq.rs: the adapter, its requests to NapCat, and the delivery of a plan.
-- The HTTP client and the JSON printer are parameters.
use dog_bot.Common.{
  Bool, true, false, ◌||◌, Option, none, some, List, [], ◌∷◌, ◌++◌, unwrap_or, or_else, map_some,
  ◌==◌, if◌then◌else◌, String,
}
use dog_bot.Common.Text.{Text, text, text_eq}
use dog_bot.Common.Text.Trim.{trim_end_matches}
use dog_bot.Common.Text.Decimal.{parse_i64, show_ℤ}
use dog_bot.Common.Int.{ℤ, pos}
use dog_bot.Common.Result.{Result, ok, err, ok_or}
use dog_bot.Json.{Value, str, boolean, object, field, end, integer}
use dog_bot.Config.{Settings}
use dog_bot.Models.{ErrorResponse, error_with, MessageResponse}
use dog_bot.Protocol.{
  OutboundMessage, OutboundAction, reaction_add, reaction_remove, ReactionAction, OutboundPlan,
  effective_reply_to,
}
use dog_bot.Platform.{string_value, DeliveryContext, dispatch_plan}
use dog_bot.Platform.Client.{
  Answer, unreachable, answered, is_success, Post, Sending, ◌>>=◌, give, planned,
}
use dog_bot.Qq.{normalize_qq_target_id, compile_outbound_message}
use dog_bot.Qq.Receive.{parse_conversation_id}
use dog_bot.Qq.Reactions.{napcat_business_error, pointer, qq_reaction_emoji_id, then_some}

pub record QqPlatform : Type 0 where
  pub authorization : Option Text
  pub base_url : Text
  pub platform_account : Text

abbrev pub qq_account : Settings → Text
qq_account settings =
    unwrap_or
      (or_else settings.platform_qq_account_id
        (map_some (λ bot_id. text "qq:bot_uin:" ++ bot_id) settings.platform_qq_bot_id))
      (text "qq:bot_uin:123")

abbrev pub qq_with_header : Settings → Option Text → QqPlatform
qq_with_header settings authorization = record {
  authorization = authorization;
  base_url = trim_end_matches (λ c. c == b'/') settings.napcat_api_base_url;
  platform_account = qq_account settings;
}

abbrev pub qq_with_token : (Text → Bool) → Settings → Option Text → Result ErrorResponse QqPlatform
qq_with_token header_value settings none = ok (qq_with_header settings none)
qq_with_token header_value settings (some token) =
    if header_value (text "Bearer " ++ token)
    then ok (qq_with_header settings (some (text "Bearer " ++ token)))
    else err (error_with "internal_error" (text "invalid NAPCAT_ACCESS_TOKEN header value"))

-- `QqPlatform::from_settings`; `header_value` is whether `HeaderValue::from_str` takes a text.
unfoldable pub from_settings : (Text → Bool) → Settings → Result ErrorResponse QqPlatform
unfolding trim_end_matches
from_settings header_value settings =
    qq_with_token header_value settings settings.napcat_access_token

abbrev pub message_payload : String → Text → Text → Value
message_payload key target_id message = object (
    field (text key) (integer (unwrap_or (parse_i64 target_id) (pos 0)))
      (field (text "message") (str message) (field (text "auto_escape") (boolean false) end)))

-- The endpoint and the payload, for the scope of the conversation.
abbrev pub message_request : Text → Text → Text × Text × Text → Result ErrorResponse (Text × Value)
message_request conversation_id message (platform, scope, target_id) =
    if text_eq scope (text "private") || text_eq scope (text "FriendMessage")
    then ok (text "/send_private_msg", message_payload "user_id" target_id message)
    else if text_eq scope (text "group") || text_eq scope (text "GroupMessage")
    then ok (text "/send_group_msg", message_payload "group_id" target_id message)
    else err (
        error_with "unsupported_platform"
          (text "unsupported QQ conversation scope: " ++ conversation_id))

unfoldable pub request_of : Text → Text → Result ErrorResponse (Text × Value)
unfolding parse_conversation_id text_eq parse_i64 show_ℤ
request_of conversation_id message = elim (parse_conversation_id conversation_id) [
  | none ↦ err (error_with "internal_error" (text "invalid conversation_id in session store"))
  | some parts ↦ message_request conversation_id message parts
]

-- The body of an answer with a successful status, under the errors of the code.
abbrev pub body_of : (Value → Text) → Answer → Result ErrorResponse Value
body_of print (unreachable e) =
    err (error_with "delivery_unavailable" (text "failed to reach NapCat API: " ++ e))
body_of print (answered code shown (err e)) =
    err (error_with "delivery_invalid_response" (text "NapCat API returned invalid JSON: " ++ e))
body_of print (answered code shown (ok body)) =
    if is_success code
    then ok body
    else err (
        error_with "delivery_failed"
          (text "NapCat API returned " ++ (shown ++ (text ": " ++ print body))))

abbrev pub sent_message : Value → MessageResponse
sent_message body = record {
  status = text "ok";
  message_id = then_some (pointer (text "data") (text "message_id") body) string_value;
}

-- The target of a reaction as NapCat wants it.
unfoldable pub reaction_target : ReactionAction → Result ErrorResponse ℤ
unfolding normalize_qq_target_id parse_i64
reaction_target action = elim (normalize_qq_target_id action.target_message_id) [
  | err message ↦ err (error_with "delivery_invalid_plan" message)
  | ok target ↦
      ok_or (error_with "internal_error" (text "invalid QQ reaction target id")) (parse_i64 target)
]

abbrev pub reaction_payload : ℤ → Text → Value
reaction_payload message_id emoji_id = object (
    field (text "message_id") (integer message_id)
      (field (text "emoji_id") (str emoji_id) (field (text "set") (boolean true) end)))

abbrev pub accepted_reaction : Option Text → Result ErrorResponse (Unit {0})
accepted_reaction none = ok tt
accepted_reaction (some message) = err (error_with "delivery_failed" message)

module _ {W : Type 0} (post : Post W) (print : Value → Text) (qq : QqPlatform) where
  abbrev pub call : Text × Value → Sending W Value
  call (path, payload) w = let r = post (qq.base_url ++ path) payload w in (body_of print r.0, r.1)

  unfoldable pub send_encoded_message : Text → Text → Sending W MessageResponse
  unfolding request_of
  send_encoded_message conversation_id message = do
    request ← give (request_of conversation_id message)
    body ← call request
    give (ok (sent_message body))

  unfoldable pub send_reaction_add : ReactionAction → Sending W (Unit {0})
  unfolding reaction_target qq_reaction_emoji_id napcat_business_error show_ℤ
  send_reaction_add action = do
    message_id ← give (reaction_target action)
    body ← call (
      text "/set_msg_emoji_like",
      reaction_payload message_id (qq_reaction_emoji_id action.emoji),
    )
    give (accepted_reaction (napcat_business_error body))

  abbrev pub send_action : OutboundAction → Sending W (Unit {0})
  send_action (reaction_add action) = send_reaction_add action
  send_action (reaction_remove action) = give (ok tt)

  unfoldable pub send_actions : List OutboundAction → Sending W (Unit {0})
  unfolding send_reaction_add
  send_actions [] = give (ok tt)
  send_actions (action ∷ actions) = do _ ← send_action action; send_actions actions

  unfoldable pub send_message :
      Text → Option Text → Option Text → OutboundMessage → Sending W MessageResponse
  unfolding compile_outbound_message effective_reply_to send_encoded_message
  send_message conversation_id default_reply_to mention_user_id message = do
    encoded ← planned (
        compile_outbound_message message (effective_reply_to message default_reply_to)
          mention_user_id)
    send_encoded_message conversation_id encoded

  -- The messages behind the first answer nothing by default and mention no one.
  unfoldable pub send_messages :
      Text
      → Option Text
      → Option Text
      → MessageResponse
      → List OutboundMessage
      → Sending W MessageResponse
  unfolding send_message
  send_messages conversation_id default_reply_to mention_user_id last [] = give (ok last)
  send_messages conversation_id default_reply_to mention_user_id last (message ∷ messages) = do
    response ← send_message conversation_id default_reply_to mention_user_id message
    send_messages conversation_id none none response messages

  unfoldable pub send_plan : DeliveryContext → OutboundPlan → Sending W MessageResponse
  unfolding dispatch_plan send_actions send_messages
  send_plan context plan = do
    _ ← planned (dispatch_plan plan)
    _ ← send_actions plan.actions
    send_messages context.conversation_id context.reply_to_message_id context.target_actor_id
        (record { status = text "ok"; message_id = none }) plan.messages
