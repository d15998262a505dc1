-- ===== src/Wechat/Attachments.antt =====
-- The files among the requests that a message becomes.
use dog_bot.Common.{
  inl, inr, Option-cases, Bool, false, Option, none, some, List, [], ◌∷◌, ◌++◌, map, filter_some,
  filter_some-none, filter_some-some, is_empty, ◌≡◌, refl, sym, ap, ◌∙◌, arith,
}
use mathlib.Core.List.{append_assoc, append-nil}
use dog_bot.Common.Text.{Text}
use dog_bot.Common.Result.{Result, ok, >>=-eq-ok}
use dog_bot.Json.{Value}
use dog_bot.Protocol.{AssetRef, MessagePart, OutboundMessage}
use dog_bot.Platform.{DeliveryContext}
use dog_bot.Wechat.Compile.{
  OutboundRequest, text_request, file_request, Debug, push_text, compile_text_payload_from_parts,
  flush_text_request, compile_file_payload, attachment, take_text, compile_parts, not_none,
  compile_outbound_requests,
}

abbrev pub file_of : OutboundRequest → Option Value
file_of (text_request payload) = none
file_of (file_request payload) = some payload

-- The files among the requests, as results.
abbrev files : List OutboundRequest → List (Result Text Value)
files requests = map (λ payload. ok payload) (filter_some file_of requests)

pub not_none-eq :
    (requests sent : List OutboundRequest)
    → not_none requests ≡ ok sent
    → (requests ≡ sent) × (is_empty sent ≡ false)
not_none-eq [] sent g = absurd (ground (arith, g))
not_none-eq (request ∷ requests) sent g =
    let same : request ∷ requests ≡ sent = ground (arith, g) in (same, ap is_empty (sym same))

files-append : (xs ys : List OutboundRequest) → files (xs ++ ys) ≡ files xs ++ files ys
files-append [] ys = refl
files-append (text_request payload ∷ xs) ys = files-append xs ys
files-append (file_request payload ∷ xs) ys = ap (λ l. ok payload ∷ l) (files-append xs ys)

files-push_text :
    (requests : List OutboundRequest) (o : Option Value)
    → files (push_text requests o) ≡ files requests
files-push_text requests none = refl
files-push_text requests (some payload) =
    files-append requests (text_request payload ∷ []) ∙ append-nil (files requests)

module _ (debug : Debug) (context : DeliveryContext) (apply_default : Bool) where
  abbrev pub compiled : Text × AssetRef → Result Text Value
  compiled (file_type, asset) = compile_file_payload debug context apply_default file_type asset

  abbrev attached : List MessagePart → List (Result Text Value)
  attached parts = map compiled (filter_some attachment parts)

  files-flush_text_request :
      (requests flushed : List OutboundRequest) (text_parts : List MessagePart)
      → flush_text_request debug context apply_default requests text_parts ≡ ok flushed
      → files flushed ≡ files requests
  unfolding flush_text_request
  files-flush_text_request requests flushed text_parts h =
      let (payload, e, g) =
        >>=-eq-ok (compile_text_payload_from_parts debug context apply_default text_parts) _ flushed
          h in
      let same : push_text requests payload ≡ flushed = ground (arith, g) in
      ap files (sym same) ∙ files-push_text requests payload

  -- What the files are after those of the flushed requests and one more.
  files-next :
      (requests flushed : List OutboundRequest) (payload : Value) (r : Result Text Value)
      (rest : List (Result Text Value))
      → files flushed ≡ files requests
      → r ≡ ok payload
      → files (flushed ++ file_request payload ∷ []) ++ rest ≡ files requests ++ (r ∷ rest)
  files-next requests flushed payload r rest same k =
      ap (λ l. l ++ rest) (files-append flushed (file_request payload ∷ []))
      ∙ (append_assoc (files flushed) (ok payload ∷ []) rest ∙ rw (same, k) refl)

  files-compile_parts :
      (requests : List OutboundRequest) (text_parts parts : List MessagePart)
      (sent : List OutboundRequest)
      → compile_parts debug context apply_default requests text_parts parts ≡ ok sent
      → files sent ≡ files requests ++ attached parts
  unfolding compile_parts
  files-compile_parts requests text_parts [] sent h =
      files-flush_text_request requests sent text_parts h ∙ sym (append-nil (files requests))
  files-compile_parts requests text_parts (part ∷ parts) sent h =
      elim (Option-cases (attachment part)) [
        | inl e ↦
            files-compile_parts requests (take_text text_parts part) parts sent
              (rw (compile_parts, e) at h)
            ∙ ap (λ l. files requests ++ map compiled l)
                (sym (filter_some-none attachment part parts e))
        | inr ((file_type, asset), e) ↦
            let (flushed, k, g) =
              >>=-eq-ok (flush_text_request debug context apply_default requests text_parts) _ sent
                (rw (compile_parts, e) at h) in
            let (payload, k', g') =
              >>=-eq-ok (compile_file_payload debug context apply_default file_type asset) _ sent
                g in
            files-compile_parts (flushed ++ file_request payload ∷ []) [] parts sent g'
            ∙ (files-next requests flushed payload
                  (compile_file_payload debug context apply_default file_type asset)
                  (attached parts) (files-flush_text_request requests flushed text_parts k) k'
                ∙ ap (λ l. files requests ++ map compiled l)
                    (sym (filter_some-some attachment part parts (file_type, asset) e)))
      ]

  -- Where a message is compiled, there is a request at least, and the files among the requests are those of the attachments of the message, each of them, in their order.
  pub files-compile_outbound_requests :
      (message : OutboundMessage) (sent : List OutboundRequest)
      → compile_outbound_requests debug context apply_default message ≡ ok sent
      → (is_empty sent ≡ false)
        × (map (λ payload. ok payload) (filter_some file_of sent)
            ≡ map compiled (filter_some attachment message.parts))
  unfolding compile_outbound_requests
  files-compile_outbound_requests message sent h =
      let (requests, k, g) =
        >>=-eq-ok (compile_parts debug context apply_default [] [] message.parts) not_none sent h in
      let (same, full) = not_none-eq requests sent g in
      (full, files-compile_parts [] [] message.parts sent (k ∙ ap (λ l. ok l) same))
