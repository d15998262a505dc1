-- ===== src/ApiProxy/Access.antt =====
-- Who reaches the upstream.
use dog_bot.Common.{
  Bool, true, false, ◌&&◌, ◌||◌, Option, none, some, [], ◌∷◌, ◌++◌, any, map_some, ◌≡◌, refl, ap,
  subst, sym, ◌∙◌, arith, Bool-cases, inl, inr,
}
use dog_bot.Common.Text.{Text, text, text_eq, text_eq_iff, text_eq_refl}
use dog_bot.Common.Text.Split.{strip_prefix, strip_prefix-eq}
use dog_bot.Config.Proxy.{ApiProxySettings}
use dog_bot.ApiProxy.{
  HeaderMap, HeaderValue, get, to_str, bearer, extract_inbound_token, is_authorized, Inbound,
  Libraries, says, proxy_request,
}

is_authorized_token :
    (headers : HeaderMap) (token : Text)
    → is_authorized headers token ≡ true
    → extract_inbound_token headers ≡ some token
unfolding is_authorized
is_authorized_token headers token h = go (extract_inbound_token headers) refl
  where
    go :
        (o : Option Text)
        → extract_inbound_token headers ≡ o
        → extract_inbound_token headers ≡ some token
    go none e = absurd (ground (arith, h, e))
    go (some t) e = ground (arith, h, e, text_eq_iff t token)

-- The header carries the token: an `x-api-key` that is the token, or an `authorization` that is the token or `Bearer `, a space and the token.
abbrev pub credential : Text → Text × HeaderValue → Bool
credential token (name, v) = elim v.shown [
  | none ↦ false
  | some s ↦
      (text_eq name (text "x-api-key") && text_eq s token)
      || (text_eq name (text "authorization")
          && (text_eq s token || text_eq s (text "Bearer " ++ token)))
]

module _ (token : Text) where
  carried :
      (n name : Text) (u v : HeaderValue)
      → n ≡ name
      → u ≡ v
      → credential token (name, v) ≡ true
      → credential token (n, u) ≡ true
  carried n name u v e f c =
      subst (λ m. credential token (m, u) ≡ true) (sym e)
        (subst (λ x. credential token (name, x) ≡ true) (sym f) c)

  credential-get :
      (name : Text) (headers : HeaderMap) (v : HeaderValue)
      → get name headers ≡ some v
      → credential token (name, v) ≡ true
      → any (credential token) headers ≡ true
  unfolding get
  credential-get name [] v h c = cc
  credential-get name ((n, u) ∷ headers) v h c = elim (Bool-cases (text_eq n name)) [
    | inl same ↦
        let e : u ≡ v = ground (arith, h, same) in
        rw (carried n name u v ((text_eq_iff n name).0 same) e c) refl
    | inr other ↦ ground (arith, credential-get name headers v (ground (arith, h, other)) c)
  ]

  credential-api_key :
      (v : HeaderValue) → v.shown ≡ some token → credential token (text "x-api-key", v) ≡ true
  credential-api_key v h = rw (h, text_eq_refl token, text_eq_refl (text "x-api-key")) refl

  credential-bearer :
      (v : HeaderValue) (s : Text)
      → v.shown ≡ some s
      → bearer s ≡ token
      → credential token (text "authorization", v) ≡ true
  credential-bearer v s h e = go (strip_prefix (text "Bearer ") s) refl
    where
      go :
          (o : Option Text)
          → strip_prefix (text "Bearer ") s ≡ o
          → credential token (text "authorization", v) ≡ true
      go none f =
          let same : s ≡ token = ground (arith, e, f) in
          ground (arith, h, same, text_eq_refl token, text_eq_refl (text "authorization"))
      go (some r) f =
          let same : r ≡ token = ground (arith, e, f) in
          let whole : s ≡ text "Bearer " ++ token =
            strip_prefix-eq _ s r f ∙ ap (λ t. text "Bearer " ++ t) same in
          ground (
            arith,
            h,
            whole,
            text_eq_refl (text "Bearer " ++ token),
            text_eq_refl (text "authorization"),
          )

  -- The token that the proxy reads stands in a header.
  credential-extract_inbound_token :
      (headers : HeaderMap)
      → extract_inbound_token headers ≡ some token
      → any (credential token) headers ≡ true
  unfolding extract_inbound_token
  credential-extract_inbound_token headers h = key (get (text "x-api-key") headers) refl
    where
      authorized :
          (o : Option HeaderValue)
          → get (text "authorization") headers ≡ o
          → map_some bearer (to_str o) ≡ some token
          → any (credential token) headers ≡ true
      authorized none e g = cc
      authorized (some v) e g = shown v.shown refl
        where
          shown : (o : Option Text) → v.shown ≡ o → any (credential token) headers ≡ true
          shown none f = absurd (ground (arith, g, f))
          shown (some s) f =
              credential-get (text "authorization") headers v e
                (credential-bearer v s f (ground (arith, g, f)))

      key :
          (o : Option HeaderValue)
          → get (text "x-api-key") headers ≡ o
          → any (credential token) headers ≡ true
      key none e = authorized (get (text "authorization") headers) refl (ground (arith, h, e))
      key (some v) e = shown v.shown refl
        where
          shown : (o : Option Text) → v.shown ≡ o → any (credential token) headers ≡ true
          shown none f =
              authorized (get (text "authorization") headers) refl (ground (arith, h, e, f))
          shown (some s) f =
              credential-get (text "x-api-key") headers v e
                (credential-api_key v (ground (arith, h, e, f)))

-- If no header of the request carries the token of the proxy, whatever else its headers are and however often they are repeated, it is answered 401 and nothing is sent to the upstream.
pub proxy_request_unauthorized :
    {W : Type 0} (lib : Libraries W) (settings : ApiProxySettings) (request : Inbound) (w : W)
    → any (credential settings.local_auth_token) request.headers ≡ false
    → proxy_request lib settings request w ≡ (some (says 401 (text "unauthorized")), w)
unfolding proxy_request
proxy_request_unauthorized lib settings request w h =
    elim (Bool-cases (is_authorized request.headers settings.local_auth_token)) [
      | inl e ↦ absurd (
          ground (
            arith,
            h,
            credential-extract_inbound_token settings.local_auth_token request.headers
                (is_authorized_token request.headers settings.local_auth_token e),
          ))
      | inr e ↦ rw e refl
    ]
