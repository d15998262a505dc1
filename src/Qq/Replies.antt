-- ===== src/Qq/Replies.antt =====
-- What a decoded event says of the message that it answers and of the conversation it belongs to.
use dog_bot.Common.{
  Bool, true, false, Option, none, some, [], ◌∷◌, ◌++◌, any, all, keep_if, ◌>>=◌, if◌then◌else◌,
  ◌==◌, ◌≡◌, refl, sym, ap, ◌∙◌, subst, arith, >>=-eq-some, Bool-cases, inl, inr,
}
use mathlib.Core.List.{append_assoc}
use dog_bot.Common.Text.{Text, text, text_eq}
use dog_bot.Common.Text.Trim.{is_ascii_digit}
use dog_bot.Common.Text.Split.{split_once, strip_prefix-append}
use dog_bot.Common.Text.Chars.{split_once_here, split_once_first}
use dog_bot.Common.Result.{ok, >>=-eq-ok}
use dog_bot.Json.{Value, member, as_str}
use dog_bot.Protocol.{OutboundMessage, CanonicalEvent}
use dog_bot.Platform.{string_value, is_group_conversation, delivery_context_from_event}
use dog_bot.Qq.{
  normalize_qq_target_id, reply_code, encode_reply, encode_mention, encode_parts,
  compile_outbound_message,
}
use dog_bot.Qq.Escape.{IsDigits}
use dog_bot.Qq.Encoding.{Targets, normalize_qq_target_id-Targets}
use dog_bot.Qq.Receive.{
  reply_open, extract_reply_from_raw_message, conversation_of, napcat_event, decode_napcat_event,
}

digits_plain : (s : Text) → all is_ascii_digit s ≡ true → any (λ d. d == b']') s ≡ false
unfolding is_ascii_digit
digits_plain [] h = refl
digits_plain (c ∷ s) h = ground (arith, h, digits_plain s)

found_reply :
    (raw before after id rest : Text)
    → split_once reply_open raw ≡ some (before, after)
    → split_once (text "]") after ≡ some (id, rest)
    → extract_reply_from_raw_message raw ≡ some id
unfolding extract_reply_from_raw_message
found_reply raw before after id rest e e' = rw (e, e') refl

extract_reply_code :
    (target rest : Text)
    → all is_ascii_digit target ≡ true
    → extract_reply_from_raw_message (reply_code target ++ rest) ≡ some target
extract_reply_code target rest h =
    let after = target ++ (b']' ∷ rest) in
    let whole : reply_code target ++ rest ≡ reply_open ++ after =
      ap (λ t. reply_open ++ t) (append_assoc target (text "]") rest) in
    ap extract_reply_from_raw_message whole
    ∙ found_reply (reply_open ++ after) [] after target rest
        (split_once_here reply_open (reply_open ++ after) after
          (strip_prefix-append reply_open after))
        (split_once_first b']' [] target rest (digits_plain target h))

-- A reply survives the way out and back in: from the text that `compile_outbound_message` makes of a message with a reply, `extract_reply_from_raw_message` reads the id that the reply was normalized to.
pub extract_reply-compile_outbound_message :
    (m : OutboundMessage) (reply_to target : Text) (mention_user_id : Option Text) (sent : Text)
    → normalize_qq_target_id reply_to ≡ ok target
    → compile_outbound_message m (some reply_to) mention_user_id ≡ ok sent
    → extract_reply_from_raw_message sent ≡ some target
unfolding compile_outbound_message
extract_reply-compile_outbound_message m reply_to target mention_user_id sent e h =
    let (code, ea, h1) = >>=-eq-ok (encode_reply (some reply_to)) _ sent h in
    let (y, eb, h2) = >>=-eq-ok (encode_mention mention_user_id) _ sent h1 in
    let (z, ec, h3) = >>=-eq-ok (encode_parts m.parts) _ sent h2 in
    let quoted : reply_code target ≡ code = ground (arith, e, ea) in
    let same : reply_code target ++ (y ++ z) ≡ sent = ground (arith, quoted, h3) in
    let numeric : IsDigits target = subst Targets e (normalize_qq_target_id-Targets reply_to) in
    ap extract_reply_from_raw_message (sym same) ∙ extract_reply_code target (y ++ z) numeric.1

-- The kind of conversation.
scope_group : (id : Text) → is_group_conversation (text "qq:group:" ++ id) ≡ true
unfolding is_group_conversation
scope_group id = refl

scope_private : (id : Text) → is_group_conversation (text "qq:private:" ++ id) ≡ false
unfolding is_group_conversation
scope_private id = refl

conversation_of_scope :
    (payload : Value) (message_type user_id c : Text)
    → conversation_of payload message_type user_id ≡ some c
    → is_group_conversation c ≡ text_eq message_type (text "group")
unfolding conversation_of
conversation_of_scope payload message_type user_id c h =
    elim (Bool-cases (text_eq message_type (text "group"))) [
      | inl e ↦ group e (member (text "group_id") payload >>= string_value) refl
      | inr e ↦ other e (text_eq message_type (text "private")) refl
    ]
  where
    group :
        text_eq message_type (text "group") ≡ true
        → (o : Option Text) → (member (text "group_id") payload >>= string_value) ≡ o
        → is_group_conversation c ≡ text_eq message_type (text "group")
    group e none g = absurd (ground (arith, h, e, g))
    group e (some id) g =
        let same : text "qq:group:" ++ id ≡ c = ground (arith, h, e, g) in
        ap is_group_conversation (sym same) ∙ (scope_group id ∙ sym e)

    other :
        text_eq message_type (text "group") ≡ false
        → (b : Bool) → text_eq message_type (text "private") ≡ b
        → is_group_conversation c ≡ text_eq message_type (text "group")
    other e false g = absurd (ground (arith, h, e, g))
    other e true g =
        let same : text "qq:private:" ++ user_id ≡ c = ground (arith, h, e, g) in
        ap is_group_conversation (sym same) ∙ (scope_private user_id ∙ sym e)

-- A reply goes to the message that was decoded; of a group it mentions the sender, and of a private conversation no one: the scope that the delivery reads from the conversation is the `message_type` of the payload.
pub delivery_context-decode_napcat_event :
    (payload : Value) (platform_account message_type : Text) (e : CanonicalEvent)
    → (member (text "message_type") payload >>= as_str) ≡ some message_type
    → decode_napcat_event payload platform_account ≡ some e
    → ((delivery_context_from_event e).target_actor_id
        ≡ (if text_eq message_type (text "group") then some e.actor else none))
      × ((delivery_context_from_event e).reply_to_message_id
          ≡ (member (text "message_id") payload >>= string_value))
unfolding decode_napcat_event delivery_context_from_event
delivery_context-decode_napcat_event payload platform_account message_type e t h =
    let (post_type, e0, h0) = >>=-eq-some (member (text "post_type") payload >>= as_str) _ e h in
    let (kept, e1, h1) =
      >>=-eq-some (keep_if (λ p. text_eq p (text "message")) (some post_type)) _ e h0 in
    let (type, e2, h2) = >>=-eq-some (member (text "message_type") payload >>= as_str) _ e h1 in
    let (user_id, e3, h3) = >>=-eq-some (member (text "user_id") payload >>= string_value) _ e h2 in
    let (message_id, e4, h4) =
      >>=-eq-some (member (text "message_id") payload >>= string_value) _ e h3 in
    let (c, e5, h5) = >>=-eq-some (conversation_of payload type user_id) _ e h4 in
    let event = napcat_event payload platform_account user_id message_id c in
    let same : event ≡ e = cc in
    let types : type ≡ message_type = cc in
    let scope = conversation_of_scope payload type user_id c e5 in
    subst
      (λ v.
        ((delivery_context_from_event v).target_actor_id
          ≡ (if text_eq message_type (text "group") then some v.actor else none))
        × ((delivery_context_from_event v).reply_to_message_id
            ≡ (member (text "message_id") payload >>= string_value)))
      same
      (
        ap (λ b. if b then some event.actor else none)
            (scope ∙ ap (λ u. text_eq u (text "group")) types),
        sym e4,
      )
