-- ===== src/Qq/Encoding.antt =====
-- What the text that NapCat is sent can hold of its own codes.
use dog_bot.Common.{
  not, ◌||◌, Option, none, some, List, [], ◌∷◌, ◌++◌, is_empty, all, All, or_else, unwrap_or, refl,
  arith, Bool-cases, inl, inr,
}
use dog_bot.Common.Text.{Text, text}
use dog_bot.Common.Text.Trim.{is_ascii_digit}
use dog_bot.Common.Text.Split.{strip_prefix}
use dog_bot.Common.Result.{Result, ok, err, ◌>>=◌}
use dog_bot.Protocol.{
  MessagePart, text_part, mention, image, file, voice, video, sticker, quote, OutboundMessage,
}
use dog_bot.Qq.{
  checked_target, normalize_qq_target_id, at_code, reply_code, encode_part, encode_parts,
  encode_reply, encode_mention, compile_outbound_message,
}
use dog_bot.Qq.Escape.{
  IsDigits, IsEncoded, finished, letter, IsEncoded-append, code-IsEncoded, reply_code-IsEncoded,
  encode_qq_text-IsEncoded,
}

-- What holds of the text, if there is one.
abbrev pub Encodes : Result Text Text → Type 0
Encodes (ok s) = IsEncoded s
Encodes (err e) = Unit

abbrev pub Targets : Result Text Text → Type 0
Targets (ok target) = IsDigits target
Targets (err e) = Unit

pub normalize_qq_target_id-Targets : (value : Text) → Targets (normalize_qq_target_id value)
unfolding normalize_qq_target_id
normalize_qq_target_id-Targets value = checked (
    unwrap_or
      (or_else (strip_prefix (text "qq:user:") value) (strip_prefix (text "qq:bot_uin:") value))
      value)
  where
    checked : (normalized : Text) → Targets (checked_target value normalized)
    checked normalized =
        elim (Bool-cases (is_empty normalized || not (all is_ascii_digit normalized))) [
          | inl wrong ↦ rw wrong tt
          | inr right ↦ rw right (ground (arith, right))
        ]

-- The asset of a part is written into its code as it stands.
abbrev pub HasNoAsset : MessagePart → Type 0
HasNoAsset (text_part t) = Unit
HasNoAsset (mention actor display) = Unit
HasNoAsset (quote id excerpt) = Unit
HasNoAsset (image a) = ⊥
HasNoAsset (file a) = ⊥
HasNoAsset (voice a) = ⊥
HasNoAsset (video a) = ⊥
HasNoAsset (sticker a) = ⊥

coded :
    (code : Text → Text) (r : Result Text Text)
    → ((target : Text) → IsDigits target → IsEncoded (code target))
    → Targets r
    → Encodes (r >>= λ target. ok (code target))
coded code (ok target) h t = h target t
coded code (err e) h t = tt

joined :
    (r q : Result Text Text) → Encodes r → Encodes q → Encodes (r >>= λ a. q >>= λ b. ok (a ++ b))
joined (ok a) (ok b) h k = IsEncoded-append a b h k
joined (ok a) (err e) h k = tt
joined (err e) q h k = tt

encode_part-Encodes : (p : MessagePart) → HasNoAsset p → Encodes (encode_part p)
unfolding encode_part
encode_part-Encodes (text_part t) h = encode_qq_text-IsEncoded t
encode_part-Encodes (mention actor display) h =
    coded at_code (normalize_qq_target_id actor) code-IsEncoded
      (normalize_qq_target_id-Targets actor)
encode_part-Encodes (image a) h = absurd h
encode_part-Encodes (file a) h = absurd h
encode_part-Encodes (voice a) h = absurd h
encode_part-Encodes (video a) h = absurd h
encode_part-Encodes (sticker a) h = absurd h
encode_part-Encodes (quote id excerpt) h =
    coded reply_code (normalize_qq_target_id id) reply_code-IsEncoded
      (normalize_qq_target_id-Targets id)

encode_parts-Encodes :
    (parts : List MessagePart) → All HasNoAsset parts → Encodes (encode_parts parts)
unfolding encode_parts
encode_parts-Encodes [] h = finished
encode_parts-Encodes (p ∷ parts) h =
    joined (encode_part p) (encode_parts parts) (encode_part-Encodes p h.0)
      (encode_parts-Encodes parts h.1)

encode_reply-Encodes : (o : Option Text) → Encodes (encode_reply o)
encode_reply-Encodes none = finished
encode_reply-Encodes (some id) =
    coded reply_code (normalize_qq_target_id id) reply_code-IsEncoded
      (normalize_qq_target_id-Targets id)

encode_mention-Encodes : (o : Option Text) → Encodes (encode_mention o)
encode_mention-Encodes none = finished
encode_mention-Encodes (some id) =
    coded (λ target. at_code target ++ text " ") (normalize_qq_target_id id)
      (λ target d.
        IsEncoded-append (at_code target) (text " ") (code-IsEncoded target d)
          (letter b' ' [] refl refl finished))
      (normalize_qq_target_id-Targets id)

-- Nothing that a text, a mention or a quote holds can make up a code of the platform: in what `compile_outbound_message` sends for a message of such parts, every bracket is that of an `at` or a `reply` code whose id is a number.
pub compile_outbound_message-Encodes :
    (m : OutboundMessage) (reply_to mention_user_id : Option Text)
    → All HasNoAsset m.parts
    → Encodes (compile_outbound_message m reply_to mention_user_id)
unfolding compile_outbound_message
compile_outbound_message-Encodes m reply_to mention_user_id h =
    three (encode_reply reply_to) (encode_mention mention_user_id) (encode_parts m.parts)
      (encode_reply-Encodes reply_to) (encode_mention-Encodes mention_user_id)
      (encode_parts-Encodes m.parts h)
  where
    three :
        (a b c : Result Text Text)
        → Encodes a
        → Encodes b
        → Encodes c
        → Encodes (a >>= λ x. b >>= λ y. c >>= λ z. ok (x ++ (y ++ z)))
    three (err e) b c ha hb hc = tt
    three (ok x) (err e) c ha hb hc = tt
    three (ok x) (ok y) (err e) ha hb hc = tt
    three (ok x) (ok y) (ok z) ha hb hc =
        IsEncoded-append x (y ++ z) ha (IsEncoded-append y z hb hc)
