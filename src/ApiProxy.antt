-- ===== src/ApiProxy.antt =====
-- agent-runner/src/api_proxy.rs: the proxy before the upstream API. The HTTP client, the URL parser, the JSON library and the checks of header names and values are parameters; header names are in lower case, as in `HeaderMap`.
pub mod Body
pub mod Headers
pub mod Access
mod Tests
use dog_bot.Common.{
  ℕ, Bool, false, not, ◌&&◌, ◌||◌, Option, none, some, List, [], ◌∷◌, ◌++◌, is_empty, unwrap_or,
  map_some, keep, ◌==◌, if◌then◌else◌,
}
use dog_bot.Common.Text.{Text, text, text_eq}
use dog_bot.Common.Text.Trim.{trim_end_matches}
use dog_bot.Common.Text.Split.{strip_prefix, starts_with, split, nth}
use dog_bot.Common.Result.{Result, ok, err}
use dog_bot.Json.{Value}
use dog_bot.Config.Proxy.{ProviderConfig, ApiProxySettings}
use dog_bot.ApiProxy.Body.{rewrite_payload, strip_anthropic_custom_tool_types}

-- The bytes of a header's value, and what `to_str` makes of them.
pub record HeaderValue : Type 0 where
  pub bytes : List ℕ
  pub shown : Option Text

abbrev pub HeaderMap : Type 0
HeaderMap = List (Text × HeaderValue)

-- `HeaderMap::get`: the first value under the name.
unfoldable pub get : Text → HeaderMap → Option HeaderValue
unfolding text_eq
get name [] = none
get name ((n, v) ∷ headers) = if text_eq n name then some v else get name headers

-- `HeaderMap::insert`: the value replaces all that stand under the name.
unfoldable pub insert : Text → HeaderValue → HeaderMap → HeaderMap
unfolding text_eq
insert name v headers = keep (λ h. not (text_eq h.0 name)) headers ++ (name, v) ∷ []

abbrev pub to_str : Option HeaderValue → Option Text
to_str none = none
to_str (some v) = v.shown

abbrev pub bearer : Text → Text
bearer authorization = unwrap_or (strip_prefix (text "Bearer ") authorization) authorization

unfoldable pub extract_inbound_token : HeaderMap → Option Text
unfolding get strip_prefix
extract_inbound_token headers = elim (to_str (get (text "x-api-key") headers)) [
  | some value ↦ some value
  | none ↦ map_some bearer (to_str (get (text "authorization") headers))
]

unfoldable pub is_authorized : HeaderMap → Text → Bool
unfolding extract_inbound_token text_eq
is_authorized headers expected_token = elim (extract_inbound_token headers) [
  | none ↦ false
  | some token ↦ text_eq token expected_token
]

-- The headers that are not copied.
unfoldable pub is_dropped : Text → Bool
unfolding text_eq
is_dropped name =
    text_eq name (text "host")
    || (text_eq name (text "content-length")
        || (text_eq name (text "authorization")
            || (text_eq name (text "x-api-key") || text_eq name (text "connection"))))

-- The loop over the inbound headers; a repeated name comes up once for each of its values.
unfoldable pub copy_headers : HeaderMap → HeaderMap → HeaderMap
unfolding is_dropped insert
copy_headers headers [] = headers
copy_headers headers ((name, v) ∷ inbound) =
    copy_headers (if is_dropped name then headers else insert name v headers) inbound

abbrev pub auth_value : ProviderConfig → Text
auth_value provider = elim provider.upstream_auth_scheme [
  | none ↦ provider.upstream_token
  | some scheme ↦
      if is_empty scheme
      then provider.upstream_token
      else scheme ++ (b' ' ∷ provider.upstream_token)
]

abbrev pub is_json_text : Option Text → Bool
is_json_text none = false
is_json_text (some value) = starts_with (text "application/json") value

unfoldable pub is_json : HeaderMap → Bool
unfolding get strip_prefix
is_json headers = is_json_text (to_str (get (text "content-type") headers))

abbrev pub Bytes : Type 0
Bytes = List ℕ

-- A request as axum hands it over: `path_and_query` and `path` are those of its URI.
pub record Inbound : Type 0 where
  pub method : Text
  pub path_and_query : Option Text
  pub path : Text
  pub headers : HeaderMap
  pub body : Bytes

pub record Outbound : Type 0 where
  pub method : Text
  pub url : Text
  pub headers : HeaderMap
  pub body : Bytes

-- The answer of the upstream; its body is read after its head.
pub record Upstream : Type 0 where
  pub status_code : ℕ
  pub content_type : Option HeaderValue
  pub body : Result Text Bytes

pub data ProxyBody : Type 0 where
  said : Text → ProxyBody
  passed : Bytes → ProxyBody

pub record ProxyResponse : Type 0 where
  pub status_code : ℕ
  pub content_type : Option HeaderValue
  pub body : ProxyBody

abbrev pub says : ℕ → Text → ProxyResponse
says code message = record { status_code = code; content_type = none; body = said message }

-- What the proxy takes from libraries. `parse_url` answers the URL without path, query and fragment, as it is printed, and the path; `from_bytes` and `from_str` are those of header names and values.
pub record Libraries (W : Type 0) : Type 0 where
  pub parse_url : Text → Option (Text × Text)
  pub from_slice : Bytes → Option Value
  pub to_vec : Value → Option Bytes
  pub from_bytes : Text → Option Text
  pub from_str : Text → Option HeaderValue
  pub send : Outbound → W → Result Text Upstream × W

abbrev pub is_slash : ℕ → Bool
is_slash c = c == b'/'

abbrev pub joined : Text → Text → Text → Text
joined origin base_path request =
    let request_path = unwrap_or (nth 0 (split b'?' request)) request in
    let prefix =
      if not (is_empty base_path)
        && (not (text_eq base_path (text "/")) && starts_with base_path request_path)
      then []
      else base_path in
    origin ++ (prefix ++ request)

module _ {W : Type 0} (lib : Libraries W) where
  unfoldable pub join_upstream_url : Text → Text → Text
  unfolding trim_end_matches split strip_prefix text_eq
  join_upstream_url base_url request = elim (lib.parse_url base_url) [
    | none ↦ trim_end_matches is_slash base_url ++ request
    | some (printed, path) ↦
        joined (trim_end_matches is_slash printed) (trim_end_matches is_slash path) request
  ]

  -- `none` is the panic of `expect`.
  unfoldable pub build_upstream_headers : ProviderConfig → HeaderMap → Option HeaderMap
  unfolding copy_headers insert
  build_upstream_headers provider inbound =
      map_some
        (λ v.
          insert (unwrap_or (lib.from_bytes provider.upstream_auth_header) (text "x-api-key")) v
            (copy_headers [] inbound))
        (lib.from_str (auth_value provider))

  abbrev pub rewritten : Text → Bytes → Result Text Bytes
  rewritten model body = elim (lib.from_slice body) [
    | none ↦ err (text "invalid JSON request body")
    | some payload ↦ elim (lib.to_vec (rewrite_payload model payload)) [
      | none ↦ err (text "failed to serialize JSON request body")
      | some bytes ↦ ok bytes
    ]
  ]

  unfoldable pub rewrite_body_if_needed :
      ProviderConfig → Text → HeaderMap → Bytes → Result Text Bytes
  unfolding is_json text_eq strip_anthropic_custom_tool_types
  rewrite_body_if_needed provider path headers body = elim provider.model [
    | none ↦ ok body
    | some model ↦
        if not (text_eq path (text "/v1/messages")) || not (is_json headers)
        then ok body
        else rewritten model body
  ]

  abbrev pub response_of : Result Text Upstream → ProxyResponse
  response_of (err error) = says 502 (text "upstream request failed: " ++ error)
  response_of (ok response) = elim response.body [
    | err error ↦ says 502 (text "upstream response read failed: " ++ error)
    | ok bytes ↦ record {
      status_code = response.status_code;
      content_type = response.content_type;
      body = passed bytes;
    }
  ]

  abbrev pub outbound : ProviderConfig → Inbound → Bytes → HeaderMap → Outbound
  outbound provider request body headers = record {
    method = request.method;
    url = join_upstream_url provider.base_url (unwrap_or request.path_and_query (text "/"));
    headers = headers;
    body = body;
  }

  -- `none` for a panic, which answers nothing.
  abbrev pub forward :
      ProviderConfig → Inbound → W → Result Text Bytes → Option HeaderMap → Option ProxyResponse × W
  forward provider request w (err message) headers = (some (says 400 message), w)
  forward provider request w (ok body) none = (none, w)
  forward provider request w (ok body) (some headers) =
      let r = lib.send (outbound provider request body headers) w in (some (response_of r.0), r.1)

  unfoldable pub proxy_request : ApiProxySettings → Inbound → W → Option ProxyResponse × W
  unfolding is_authorized rewrite_body_if_needed build_upstream_headers join_upstream_url
  proxy_request settings request w =
      if is_authorized request.headers settings.local_auth_token
      then forward settings.upstream request w
          (rewrite_body_if_needed settings.upstream request.path request.headers request.body)
          (build_upstream_headers settings.upstream request.headers)
      else (some (says 401 (text "unauthorized")), w)
