-- ===== src/Wechat/Isolation.antt =====
-- The chat that the requests of the WeChat adapter go to.
use dog_bot.Common.{
  Bool, true, false, not, ◌&&◌, inl, inr, Bool-cases, Option-cases, some, List, [], ◌∷◌, ◌++◌,
  is_empty, keep_if, All, All-append, ◌≡◌, refl, ap, subst, ◌∙◌, arith,
}
use dog_bot.Common.Text.{Text, text, text_eq}
use dog_bot.Common.Result.{Result, ok, err, ok_or, >>=-eq-ok}
use dog_bot.Json.{Value, str, array, cons, nil, member, lookup}
use dog_bot.Models.{MessageResponse}
use dog_bot.Protocol.{AssetRef, MessagePart, OutboundMessage, OutboundPlan}
use dog_bot.Platform.{DeliveryContext, dispatch_plan}
use dog_bot.Platform.Client.{Post, Sending, ◌>>=◌, planned}
use dog_bot.Platform.Posts.{quiet, posting, Sends, >>=-Sends}
use dog_bot.Common.Text.Trim.{trim}
use dog_bot.Wechat.Extract.{not_empty}
use dog_bot.Wechat.Attachments.{not_none-eq}
use dog_bot.Wechat.Texts.{MentionTarget, build_text_payload, target_of}
use dog_bot.Wechat.Compile.{
  OutboundRequest, text_request, file_request, Debug, TextState, text_payload, push_text, not_none,
  file_name, workspace_asset_path, attachment, take_text, text_steps, file_payload,
  compile_text_payload_from_parts, flush_text_request, compile_file_payload, compile_parts,
  compile_outbound_requests,
}
use dog_bot.Wechat.Send.{
  WechatPadProPlatform, endpoint, payload_of, call, send_request, send_requests, send_messages,
  send_plan,
}

-- What a request must have to go to the target.
pub data Addressed (base_url target : Text) : Text → Value → Type 0 where
  text_to :
      (url : Text) (body item : Value)
      → url ≡ base_url ++ text "/message/SendTextMessage"
      → member (text "MsgItem") body ≡ some (array (cons item nil))
      → member (text "ToUserName") item ≡ some (str target)
      → Addressed base_url target url body
  file_to :
      (url : Text) (body : Value)
      → url ≡ base_url ++ text "/api/v1/message/sendFile"
      → member (text "toUserName") body ≡ some (str target)
      → Addressed base_url target url body

module _ (base_url target : Text) where
  abbrev IsTo : OutboundRequest → Type 0
  IsTo request = Addressed base_url target (base_url ++ endpoint request) (payload_of request)

  text_payload-IsTo :
      (content : Text) (is_group : Bool) (mentions : List MentionTarget)
      → IsTo (text_request (build_text_payload target content is_group mentions))
  unfolding build_text_payload lookup text_eq
  text_payload-IsTo content is_group mentions =
      elim (Bool-cases (is_group && not (is_empty mentions))) [
        | inl many ↦ rw (build_text_payload, many) (text_to _ _ _ refl refl refl)
        | inr plain ↦ rw (build_text_payload, plain) (text_to _ _ _ refl refl refl)
      ]

  file_payload-IsTo :
      (path name file_type : Text) → IsTo (file_request (file_payload target path name file_type))
  unfolding lookup text_eq
  file_payload-IsTo path name file_type = file_to _ _ refl refl

-- Each request that a message is compiled to goes to the chat of the context.
module _ (base_url : Text) (debug : Debug) (context : DeliveryContext) (apply_default : Bool) where
  abbrev AllTo : List OutboundRequest → Type 0
  AllTo = All (IsTo base_url (target_of context))

  push_text-AllTo :
      (requests : List OutboundRequest) (st : TextState)
      → AllTo requests
      → AllTo (push_text requests (text_payload context apply_default st))
  push_text-AllTo requests st h = elim (Bool-cases (is_empty (trim st.content))) [
    | inl blank ↦ rw blank h
    | inr given ↦ rw given (
        All-append (IsTo base_url (target_of context)) requests _ h
          (text_payload-IsTo base_url (target_of context) _ _ _, tt))
  ]

  flush-AllTo :
      (requests flushed : List OutboundRequest) (text_parts : List MessagePart)
      → flush_text_request debug context apply_default requests text_parts ≡ ok flushed
      → AllTo requests
      → AllTo flushed
  unfolding flush_text_request compile_text_payload_from_parts
  flush-AllTo requests flushed [] e h =
      let same : requests ≡ flushed = ground (arith, e) in subst AllTo same h
  flush-AllTo requests flushed (part ∷ parts) e h =
      let (payload, k, g) =
        >>=-eq-ok (compile_text_payload_from_parts debug context apply_default (part ∷ parts)) _
          flushed e in
      let (st, k', g') =
        >>=-eq-ok (text_steps debug.part (record { content = []; mentions = [] }) (part ∷ parts)) _
          payload k in
      let made : text_payload context apply_default st ≡ payload = ground (arith, g') in
      let same : push_text requests payload ≡ flushed = ground (arith, g) in
      subst AllTo (ap (push_text requests) made ∙ same) (push_text-AllTo requests st h)

  file-IsTo :
      (file_type : Text) (asset : AssetRef) (payload : Value)
      → compile_file_payload debug context apply_default file_type asset ≡ ok payload
      → IsTo base_url (target_of context) (file_request payload)
  unfolding compile_file_payload
  file-IsTo file_type asset payload e =
      let (path, k, g) = >>=-eq-ok (workspace_asset_path debug.source asset.source) _ payload e in
      let missing = text "asset path is missing a file name: " ++ path in
      let (name, k', g') =
        >>=-eq-ok (ok_or missing (keep_if not_empty (file_name path)))
          (λ name. ok (file_payload (target_of context) path name file_type)) payload g in
      let made : file_payload (target_of context) path name file_type ≡ payload =
        ground (arith, g') in
      subst (λ v. IsTo base_url (target_of context) (file_request v)) made
        (file_payload-IsTo base_url (target_of context) path name file_type)

  parts-AllTo :
      (requests : List OutboundRequest) (text_parts parts : List MessagePart)
      (sent : List OutboundRequest)
      → compile_parts debug context apply_default requests text_parts parts ≡ ok sent
      → AllTo requests
      → AllTo sent
  unfolding compile_parts
  parts-AllTo requests text_parts [] sent e h = flush-AllTo requests sent text_parts e h
  parts-AllTo requests text_parts (part ∷ parts) sent e h = elim (Option-cases (attachment part)) [
    | inl none_there ↦
        parts-AllTo requests (take_text text_parts part) parts sent
          (rw (compile_parts, none_there) at e) h
    | inr ((file_type, asset), there) ↦
        let (flushed, k, g) =
          >>=-eq-ok (flush_text_request debug context apply_default requests text_parts) _ sent
            (rw (compile_parts, there) at e) in
        let (payload, k', g') =
          >>=-eq-ok (compile_file_payload debug context apply_default file_type asset) _ sent g in
        parts-AllTo (flushed ++ file_request payload ∷ []) [] parts sent g' (
          All-append (IsTo base_url (target_of context)) flushed _
            (flush-AllTo requests flushed text_parts k h)
            (file-IsTo file_type asset payload k', tt))
  ]

  pub compile-AllTo :
      (message : OutboundMessage) (sent : List OutboundRequest)
      → compile_outbound_requests debug context apply_default message ≡ ok sent
      → AllTo sent
  unfolding compile_outbound_requests
  compile-AllTo message sent e =
      let (requests, k, g) =
        >>=-eq-ok (compile_parts debug context apply_default [] [] message.parts) not_none sent e in
      subst AllTo (not_none-eq requests sent g).0 (parts-AllTo [] [] message.parts requests k tt)

module _ {W : Type 0} (post : Text → Post W) (print : Value → Text) (debug : Debug)
    (wechat : WechatPadProPlatform) (key : Text) (context : DeliveryContext) where
  abbrev ToTarget : {A : Type 0} → Sending W A → Type 0
  ToTarget m = Sends (post key) (Addressed wechat.base_url (target_of context)) m

  abbrev bind :
      {A B : Type 0} (m : Sending W A) (f : A → Sending W B)
      → ToTarget m
      → ((a : A) → ToTarget (f a))
      → ToTarget (m >>= f)
  bind = >>=-Sends (post key) (Addressed wechat.base_url (target_of context))

  -- A check first, that has an answer to go on with.
  check_first :
      {A B : Type 0} (r : Result Text A) (f : A → Sending W B)
      → ((a : A) → r ≡ ok a → ToTarget (f a))
      → ToTarget (planned r >>= f)
  check_first (ok a) f h w = h a refl w
  check_first (err e) f h w = quiet w

  requests-ToTarget :
      (last : MessageResponse) (requests : List OutboundRequest)
      → All (IsTo wechat.base_url (target_of context)) requests
      → ToTarget (send_requests post print debug wechat key last requests)
  unfolding send_requests send_request
  requests-ToTarget last [] h = quiet
  requests-ToTarget last (request ∷ requests) h =
      bind (send_request post print debug wechat key request) _
        (bind (call post print debug wechat key request) _ (λ w. posting _ _ w _ h.0 (quiet _))
          (λ body. quiet))
        (λ response. requests-ToTarget response requests h.1)

  messages-ToTarget :
      (first : Bool) (last : MessageResponse) (messages : List OutboundMessage)
      → ToTarget (send_messages post print debug wechat key context first last messages)
  unfolding send_messages
  messages-ToTarget first last [] = quiet
  messages-ToTarget first last (message ∷ messages) =
      check_first (compile_outbound_requests debug context first message) _ λ requests e.
        bind (send_requests post print debug wechat key last requests) _
          (requests-ToTarget last requests
            (compile-AllTo wechat.base_url debug context first message requests e))
          (λ response. messages-ToTarget false response messages)

  -- Every request that a plan makes has the account key of the adapter and goes to the chat of the context.
  pub send_plan-ToTarget :
      (plan : OutboundPlan)
      → wechat.account_key ≡ some key
      → ToTarget (send_plan post print debug wechat context plan)
  unfolding send_plan
  send_plan-ToTarget plan keyed =
      bind (planned (dispatch_plan plan)) _ quiet
        λ checked. rw keyed (messages-ToTarget true _ plan.messages)
