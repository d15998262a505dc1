-- ===== src/Qq/Isolation.antt =====
-- The chat that the requests of the QQ adapter go to.
use dog_bot.Common.{Option, none, some, List, [], ◌∷◌, ◌++◌, unwrap_or, ◌≡◌, refl}
use dog_bot.Common.Text.{Text, text}
use dog_bot.Common.Text.Decimal.{parse_i64}
use dog_bot.Common.Int.{ℤ, pos}
use dog_bot.Common.Result.{ok}
use dog_bot.Common.Text.{text_eq}
use dog_bot.Common.Text.Split.{splitn, split_once, strip_prefix}
use dog_bot.Qq.Receive.{parse_conversation_id}
use dog_bot.Json.{Value, member, integer, lookup}
use dog_bot.Models.{MessageResponse}
use dog_bot.Protocol.{
  OutboundMessage, OutboundAction, reaction_add, reaction_remove, ReactionAction, OutboundPlan,
}
use dog_bot.Platform.{DeliveryContext, dispatch_plan}
use dog_bot.Platform.Client.{Post, Sending, ◌>>=◌, give, planned}
use dog_bot.Platform.Posts.{quiet, posting, Sends, >>=-Sends}
use dog_bot.Qq.Reactions.{qq_reaction_emoji_id}
use dog_bot.Qq.Send.{
  reaction_target, reaction_payload, QqPlatform, message_payload, request_of, call,
  send_encoded_message, send_reaction_add, send_actions, send_message, send_messages, send_plan,
}

-- A chat of QQ, by the number of the group or of the user.
pub data Chat : Type 0 where
  group_chat private_chat : Text → Chat

abbrev pub conversation_id_of : Chat → Text
conversation_id_of (group_chat id) = text "qq:group:" ++ id
conversation_id_of (private_chat id) = text "qq:private:" ++ id

abbrev number_of : Text → ℤ
number_of id = unwrap_or (parse_i64 id) (pos 0)

-- A request to the chat, or a reaction to a message.
pub data Addressed (base_url : Text) : Chat → Text → Value → Type 0 where
  reaction :
      (chat : Chat) (url : Text) (body : Value)
      → url ≡ base_url ++ text "/set_msg_emoji_like"
      → Addressed base_url chat url body
  to_group :
      (id url : Text) (body : Value)
      → url ≡ base_url ++ text "/send_group_msg"
      → member (text "group_id") body ≡ some (integer (number_of id))
      → Addressed base_url (group_chat id) url body
  to_private :
      (id url : Text) (body : Value)
      → url ≡ base_url ++ text "/send_private_msg"
      → member (text "user_id") body ≡ some (integer (number_of id))
      → Addressed base_url (private_chat id) url body

request_of-group :
    (id message : Text)
    → request_of (text "qq:group:" ++ id) message
      ≡ ok (text "/send_group_msg", message_payload "group_id" id message)
unfolding request_of parse_conversation_id splitn split_once strip_prefix text_eq
request_of-group id message = refl

request_of-private :
    (id message : Text)
    → request_of (text "qq:private:" ++ id) message
      ≡ ok (text "/send_private_msg", message_payload "user_id" id message)
unfolding request_of parse_conversation_id splitn split_once strip_prefix text_eq
request_of-private id message = refl

module _ {W : Type 0} (post : Post W) (print : Value → Text) (qq : QqPlatform) where
  abbrev pub ToChat : {A : Type 0} → Chat → Sending W A → Type 0
  ToChat chat m = Sends post (Addressed qq.base_url chat) m

  encoded_by :
      (chat : Chat) (conversation message path : Text) (body : Value)
      → request_of conversation message ≡ ok (path, body)
      → Addressed qq.base_url chat (qq.base_url ++ path) body
      → ToChat chat (send_encoded_message post print qq conversation message)
  unfolding send_encoded_message
  encoded_by chat conversation message path body e h w =
      rw (send_encoded_message, e)
        (>>=-Sends post (Addressed qq.base_url chat) (call post print qq (path, body)) _
          (λ w'. posting (qq.base_url ++ path) body w' _ h (quiet _)) (λ answer w'. quiet w') w)

  encoded-ToChat :
      (chat : Chat) (message : Text)
      → ToChat chat (send_encoded_message post print qq (conversation_id_of chat) message)
  unfolding lookup text_eq
  encoded-ToChat (group_chat id) message =
      encoded_by (group_chat id) (text "qq:group:" ++ id) message (text "/send_group_msg")
        (message_payload "group_id" id message) (request_of-group id message)
        (to_group id _ _ refl refl)
  encoded-ToChat (private_chat id) message =
      encoded_by (private_chat id) (text "qq:private:" ++ id) message (text "/send_private_msg")
        (message_payload "user_id" id message) (request_of-private id message)
        (to_private id _ _ refl refl)

  module _ (chat : Chat) where
    abbrev bind :
        {A B : Type 0} (m : Sending W A) (f : A → Sending W B)
        → ToChat chat m
        → ((a : A) → ToChat chat (f a))
        → ToChat chat (m >>= f)
    bind = >>=-Sends post (Addressed qq.base_url chat)

    reaction-ToChat :
        (action : ReactionAction) → ToChat chat (send_reaction_add post print qq action)
    unfolding send_reaction_add
    reaction-ToChat action = bind (give (reaction_target action)) _ quiet λ message_id.
        let payload = reaction_payload message_id (qq_reaction_emoji_id action.emoji) in
        bind (call post print qq (text "/set_msg_emoji_like", payload)) _
          (λ w. posting _ payload w _ (reaction chat _ payload refl) (quiet _)) (λ body. quiet)

    actions-ToChat :
        (actions : List OutboundAction) → ToChat chat (send_actions post print qq actions)
    unfolding send_actions
    actions-ToChat [] = quiet
    actions-ToChat (reaction_add action ∷ actions) =
        bind (send_reaction_add post print qq action) _ (reaction-ToChat action)
          (λ done. actions-ToChat actions)
    actions-ToChat (reaction_remove action ∷ actions) = actions-ToChat actions

    messages-ToChat :
        (reply_to mention_user_id : Option Text) (last : MessageResponse)
        (messages : List OutboundMessage)
        → ToChat chat (
            send_messages post print qq
              (conversation_id_of chat)
              reply_to
              mention_user_id
              last
              messages)
    unfolding send_messages send_message
    messages-ToChat reply_to mention_user_id last [] = quiet
    messages-ToChat reply_to mention_user_id last (message ∷ messages) =
        bind _ _ (bind _ _ quiet (λ encoded. encoded-ToChat chat encoded))
          (λ response. messages-ToChat none none response messages)

    -- Every request that a plan makes goes to the chat of its context, or is a reaction.
    pub send_plan-ToChat :
        (context : DeliveryContext) (plan : OutboundPlan)
        → context.conversation_id ≡ conversation_id_of chat
        → ToChat chat (send_plan post print qq context plan)
    unfolding send_plan
    send_plan-ToChat context plan e = bind (planned (dispatch_plan plan)) _ quiet λ checked.
        bind (send_actions post print qq plan.actions) _ (actions-ToChat plan.actions) λ done.
          rw e (messages-ToChat context.reply_to_message_id context.target_actor_id _ plan.messages)
