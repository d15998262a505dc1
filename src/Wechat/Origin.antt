-- ===== src/Wechat/Origin.antt =====
-- The chat that an event of the webhook comes from.
use dog_bot.Common.{
  some, List, [], map_some, ◌++◌, ◌≡◌, refl, sym, ap, ◌∙◌, arith, inl, inr, unwrap_or, Bool-cases,
  Option-cases,
}
use dog_bot.Common.Int.{ℤ}
use dog_bot.Common.Text.{Text, text}
use dog_bot.Common.Text.Split.{splitn, split_once, nth}
use dog_bot.Json.{Value}
use dog_bot.Protocol.{CanonicalEvent}
use dog_bot.Platform.{delivery_context_from_event}
use dog_bot.Wechat.{conversation_of, webhook_event, decode_webhook_event}
use dog_bot.Wechat.Extract.{
  extract_group_id, extract_sender, extract_message_id, is_text_event, unwrap_event,
}
use dog_bot.Wechat.Texts.{target_of}

-- The group of the event, or its sender where it has none.
abbrev pub chat_of : Value → Text
chat_of event = unwrap_or (extract_group_id event) (extract_sender event)

target_of_group :
    (id : Text) → unwrap_or (nth 2 (splitn 3 b':' (text "wechatpadpro:group:" ++ id))) [] ≡ id
unfolding splitn split_once
target_of_group id = refl

target_of_private :
    (id : Text) → unwrap_or (nth 2 (splitn 3 b':' (text "wechatpadpro:private:" ++ id))) [] ≡ id
unfolding splitn split_once
target_of_private id = refl

target_of_conversation :
    (event : Value) → unwrap_or (nth 2 (splitn 3 b':' (conversation_of event))) [] ≡ chat_of event
target_of_conversation event = elim (Option-cases (extract_group_id event)) [
  | inl alone ↦ rw (conversation_of, alone) (target_of_private (extract_sender event))
  | inr (id, grouped) ↦ rw (conversation_of, grouped) (target_of_group id)
]

-- A decoded event belongs to WeChat, and what is sent in its context goes to the chat it came from.
pub decode_webhook_event-chat :
    (now : ℤ) (payload : Value) (platform_account : Text) (mention_names : List Text)
    (e : CanonicalEvent)
    → decode_webhook_event now payload platform_account mention_names ≡ some e
    → (e.platform ≡ text "wechatpadpro")
      × (target_of (delivery_context_from_event e) ≡ chat_of (unwrap_event payload))
unfolding decode_webhook_event delivery_context_from_event
decode_webhook_event-chat now payload platform_account mention_names e h =
    let event = unwrap_event payload in
    elim (Bool-cases (is_text_event event)) [
      | inr other ↦ cc (rw (decode_webhook_event, other) at h)
      | inl is_text ↦
          let found : map_some (webhook_event now payload event platform_account mention_names)
                (extract_message_id event)
              ≡ some e =
            rw (decode_webhook_event, is_text) at h in
          elim (Option-cases (extract_message_id event)) [
            | inl unnamed ↦ cc (found, unnamed)
            | inr (id, named) ↦
                let same : webhook_event now payload event platform_account mention_names id ≡ e =
                  ground (arith, found, named) in
                (
                  ap (λ (v : CanonicalEvent). v.platform) (sym same),
                  ap (λ (v : CanonicalEvent). unwrap_or (nth 2 (splitn 3 b':' v.conversation)) [])
                        (sym same)
                      ∙ target_of_conversation event,
                )
          ]
    ]
