-- ===== src/Wechat/Tests.antt =====
-- A group message to the bot, and an answer with a picture between two texts.
use dog_bot.Common.{false, true, none, List, [], ◌∷◌, map, filter_some, is_empty, ◌≡◌, refl}
use dog_bot.Common.Text.{text, text_eq}
use dog_bot.Common.Text.Trim.{trim, is_whitespace}
use dog_bot.Common.Result.{ok}
use dog_bot.Protocol.{workspace_path, AssetRef, text_part, image, OutboundMessage}
use dog_bot.Platform.{DeliveryContext}
use dog_bot.Wechat.{strip_leading_mention}
use dog_bot.Wechat.Texts.{build_text_payload}
use dog_bot.Wechat.Compile.{
  Debug, OutboundRequest, text_request, file_request, file_payload, attachment,
  compile_outbound_requests,
}
use dog_bot.Wechat.Mentions.{strip_leading_mention_addressed}
use dog_bot.Wechat.Attachments.{file_of, compiled, files-compile_outbound_requests}

abbrev debug : Debug
debug = record { source = λ s. []; part = λ p. [] }

abbrev context : DeliveryContext
context = record {
  platform = text "wechatpadpro";
  platform_account = text "bot";
  conversation_id = text "wechatpadpro:private:w";
  target_actor_id = none;
  target_display_name = none;
  reply_to_message_id = none;
  native_event = none;
}

abbrev picture : AssetRef
picture = record {
  asset_id = text "image:/workspace/a.png";
  kind = text "image";
  mime = text "image/*";
  size_bytes = 0;
  source = workspace_path (text "/workspace/a.png");
}

abbrev answer : OutboundMessage
answer = record {
  parts = text_part (text "one") ∷ image picture ∷ text_part (text "two") ∷ [];
  reply_to = none;
  suppress_default_reply = false;
  delivery_policy = none;
}

abbrev requests : List OutboundRequest
requests =
    text_request (build_text_payload (text "w") (text "one") false [])
    ∷ file_request (file_payload (text "w") (text "/workspace/a.png") (text "a.png") (text "image"))
    ∷ text_request (build_text_payload (text "w") (text "two") false [])
    ∷ []

sent : compile_outbound_requests debug context true answer ≡ ok requests
unfolding compile_outbound_requests
sent = refl

files-compile_outbound_requests_example :
    (is_empty requests ≡ false)
    × (map (λ payload. ok payload) (filter_some file_of requests)
        ≡ map (compiled debug context true) (filter_some attachment answer.parts))
files-compile_outbound_requests_example =
    files-compile_outbound_requests debug context true answer requests sent

strip_leading_mention_addressed_example :
    strip_leading_mention (text "@dog sit  down") (text "cat" ∷ text "dog" ∷ [])
    ≡ trim (text "sit  down")
unfolding is_whitespace text_eq
strip_leading_mention_addressed_example =
    strip_leading_mention_addressed (text "dog") (text "sit  down") b' '
      (text "cat" ∷ text "dog" ∷ []) refl refl refl refl (refl, refl)
