-- ===== src/Qq/Origin.antt =====
-- The chat that an event of NapCat comes from.
use dog_bot.Common.{some, ◌++◌, keep_if, ◌>>=◌, ◌≡◌, sym, ap, ◌∙◌, >>=-eq-some}
use dog_bot.Common.Text.{Text, text, text_eq}
use dog_bot.Json.{Value, member, as_str}
use dog_bot.Protocol.{CanonicalEvent}
use dog_bot.Platform.{string_value}
use dog_bot.Qq.Receive.{conversation_of, napcat_event, decode_napcat_event}
use dog_bot.Qq.Isolation.{Chat, group_chat, private_chat, conversation_id_of}

-- The payload is of a message in the chat.
abbrev pub ComesFrom : Chat → Value → Type 0
ComesFrom (group_chat id) payload =
    ((member (text "message_type") payload >>= as_str) ≡ some (text "group"))
    × ((member (text "group_id") payload >>= string_value) ≡ some id)
ComesFrom (private_chat id) payload =
    ((member (text "message_type") payload >>= as_str) ≡ some (text "private"))
    × ((member (text "user_id") payload >>= string_value) ≡ some id)

conversation_of_chat :
    (chat : Chat) (payload : Value) (message_type user_id c : Text)
    → ComesFrom chat payload
    → (member (text "message_type") payload >>= as_str) ≡ some message_type
    → (member (text "user_id") payload >>= string_value) ≡ some user_id
    → conversation_of payload message_type user_id ≡ some c
    → c ≡ conversation_id_of chat
unfolding conversation_of text_eq
conversation_of_chat (group_chat id) payload message_type user_id c (g, i) t u h =
    let type : message_type ≡ text "group" = cc in
    let found : some (text "qq:group:" ++ id) ≡ some c = rw (type, i) at h in cc
conversation_of_chat (private_chat id) payload message_type user_id c (g, i) t u h =
    let type : message_type ≡ text "private" = cc in
    let user : user_id ≡ id = cc in
    let found : some (text "qq:private:" ++ id) ≡ some c = rw (type, user) at h in cc

-- A decoded event belongs to QQ, and its conversation is that of the chat it came from.
pub decode_napcat_event-chat :
    (chat : Chat) (payload : Value) (platform_account : Text) (e : CanonicalEvent)
    → ComesFrom chat payload
    → decode_napcat_event payload platform_account ≡ some e
    → (e.platform ≡ text "qq") × (e.conversation ≡ conversation_id_of chat)
unfolding decode_napcat_event
decode_napcat_event-chat chat payload platform_account e from h =
    let (post_type, e0, h0) = >>=-eq-some (member (text "post_type") payload >>= as_str) _ e h in
    let (kept, e1, h1) =
      >>=-eq-some (keep_if (λ p. text_eq p (text "message")) (some post_type)) _ e h0 in
    let (type, e2, h2) = >>=-eq-some (member (text "message_type") payload >>= as_str) _ e h1 in
    let (user_id, e3, h3) = >>=-eq-some (member (text "user_id") payload >>= string_value) _ e h2 in
    let (message_id, e4, h4) =
      >>=-eq-some (member (text "message_id") payload >>= string_value) _ e h3 in
    let (c, e5, h5) = >>=-eq-some (conversation_of payload type user_id) _ e h4 in
    let same : napcat_event payload platform_account user_id message_id c ≡ e = cc in
    let own = conversation_of_chat chat payload type user_id c from e2 e3 e5 in
    (
      ap (λ (v : CanonicalEvent). v.platform) (sym same),
      ap (λ (v : CanonicalEvent). v.conversation) (sym same) ∙ own,
    )
