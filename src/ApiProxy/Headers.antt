-- ===== src/ApiProxy/Headers.antt =====
-- What the upstream is sent for headers.
use dog_bot.Common.{
  Bool, true, false, not, Option, none, some, List, [], ◌∷◌, ◌++◌, any, keep, unwrap_or, or_else,
  if◌then◌else◌, ◌≡◌, refl, sym, ap, ◌∙◌, arith,
}
use dog_bot.Common.Text.{Text, text, text_eq, text_eq_iff}
use dog_bot.Config.Proxy.{ProviderConfig}
use dog_bot.ApiProxy.{
  HeaderValue, HeaderMap, get, insert, is_dropped, copy_headers, auth_value, Libraries,
  build_upstream_headers,
}

get-append :
    (name : Text) (xs ys : HeaderMap) → get name (xs ++ ys) ≡ or_else (get name xs) (get name ys)
unfolding get
get-append name [] ys = refl
get-append name ((n, v) ∷ xs) ys = ground (arith, get-append name xs ys)

get-keep :
    (name other : Text) (headers : HeaderMap)
    → get name (keep (λ h. not (text_eq h.0 other)) headers)
      ≡ (if text_eq other name then none else get name headers)
unfolding get
get-keep name other [] = ground arith
get-keep name other ((n, v) ∷ headers) = ground (
  arith,
  text_eq_iff n other,
  text_eq_iff n name,
  text_eq_iff other name,
  get-keep name other headers,
)

get-insert :
    (name other : Text) (v : HeaderValue) (headers : HeaderMap)
    → get name (insert other v headers) ≡ (if text_eq other name then some v else get name headers)
unfolding insert get
get-insert name other v headers =
    get-append name (keep (λ h. not (text_eq h.0 other)) headers) ((other, v) ∷ [])
    ∙ (ap (λ o. or_else o (if text_eq other name then some v else none))
          (get-keep name other headers)
        ∙ last (text_eq other name) (get name headers))
  where
    last :
        (b : Bool) (o : Option HeaderValue)
        → or_else (if b then none else o) (if b then some v else none) ≡ (if b then some v else o)
    last true o = refl
    last false none = refl
    last false (some u) = refl

-- The last value under a name.
unfoldable pub last_value : Text → HeaderMap → Option HeaderValue
unfolding text_eq
last_value name [] = none
last_value name ((n, v) ∷ headers) =
    or_else (last_value name headers) (if text_eq n name then some v else none)

get-copy_headers :
    (name : Text) (headers inbound : HeaderMap)
    → get name (copy_headers headers inbound) ≡ (
        if is_dropped name
        then get name headers
        else or_else (last_value name inbound) (get name headers))
unfolding copy_headers last_value
get-copy_headers name headers [] = ground arith
get-copy_headers name headers ((n, v) ∷ inbound) =
    get-copy_headers name (if is_dropped n then headers else insert n v headers) inbound
    ∙ step (is_dropped n) refl (last_value name inbound)
  where
    step :
        (b : Bool)
        → is_dropped n ≡ b
        → (o : Option HeaderValue)
        → (if is_dropped name
            then get name (if b then headers else insert n v headers)
            else or_else o (get name (if b then headers else insert n v headers)))
          ≡ (if is_dropped name
              then get name headers
              else or_else (or_else o (if text_eq n name then some v else none)) (get name headers))
    step b e o = ground (arith, e, text_eq_iff n name, get-insert name n v headers)

-- The names of the client's own credential, host, length and connection.
abbrev pub withheld : List Text
withheld =
    text "authorization"
    ∷ text "x-api-key"
    ∷ text "host"
    ∷ text "content-length"
    ∷ text "connection"
    ∷ []

is_dropped-withheld : (name : Text) → is_dropped name ≡ any (λ n. text_eq name n) withheld
unfolding is_dropped
is_dropped-withheld name = ground arith

-- What the upstream reads under a name: the provider's credential under the name that is configured for it (`x-api-key` where that is not a name), nothing under the names of the client's own credential, host, length and connection, and under any other name the last value that the client sent.
pub get-build_upstream_headers :
    {W : Type 0} (lib : Libraries W) (provider : ProviderConfig) (inbound headers : HeaderMap)
    (value : HeaderValue) (name : Text)
    → lib.from_str (auth_value provider) ≡ some value
    → build_upstream_headers lib provider inbound ≡ some headers
    → get name headers ≡ (
        if text_eq
          (unwrap_or (lib.from_bytes provider.upstream_auth_header) (text "x-api-key"))
          name
        then some value
        else if any (λ n. text_eq name n) withheld
        then none
        else last_value name inbound)
unfolding build_upstream_headers get
get-build_upstream_headers lib provider inbound headers value name e h =
    let auth = unwrap_or (lib.from_bytes provider.upstream_auth_header) (text "x-api-key") in
    let same : insert auth value (copy_headers [] inbound) ≡ headers = cc in
    ap (get name) (sym same)
    ∙ (get-insert name auth value (copy_headers [] inbound)
        ∙ ap (λ o. if text_eq auth name then some value else o)
            (get-copy_headers name [] inbound
              ∙ (ap (λ o. if is_dropped name then none else o) (rest (last_value name inbound))
                  ∙ ap (λ b. if b then none else last_value name inbound)
                      (is_dropped-withheld name))))
  where
    rest : (o : Option HeaderValue) → or_else o (get name []) ≡ o
    rest none = refl
    rest (some v) = refl
