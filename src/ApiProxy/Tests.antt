-- ===== src/ApiProxy/Tests.antt =====
-- A request without the token of the proxy, and the headers of one with it.
use dog_bot.Common.{any, none, some, List, [], ◌∷◌, false, if◌then◌else◌, ◌≡◌, refl}
use dog_bot.Common.Text.{Text, text, text_eq}
use dog_bot.Common.Result.{err}
use dog_bot.Json.{null}
use dog_bot.Config.Proxy.{ProviderConfig, ApiProxySettings}
use dog_bot.ApiProxy.{
  HeaderValue, HeaderMap, get, insert, copy_headers, Inbound, Outbound, Libraries, says,
  build_upstream_headers, proxy_request, join_upstream_url,
}
use dog_bot.ApiProxy.Headers.{withheld, last_value, get-build_upstream_headers}
use dog_bot.ApiProxy.Access.{credential, proxy_request_unauthorized}

abbrev header : Text → HeaderValue
header s = record { bytes = s; shown = some s }

-- The requests that were sent are the state; the upstream never answers.
abbrev lib : Libraries (List Outbound)
lib = record {
  parse_url = λ url. none;
  from_slice = λ body. some null;
  to_vec = λ v. some [];
  from_bytes = λ name. some name;
  from_str = λ value. some (header value);
  send = λ request sent. (err (text "down"), request ∷ sent);
}

abbrev provider : ProviderConfig
provider = record {
  base_url = text "https://up/";
  upstream_token = text "secret";
  upstream_auth_header = text "authorization";
  upstream_auth_scheme = some (text "Bearer");
  model = none;
}

abbrev settings : ApiProxySettings
settings = record { bind_addr = []; local_auth_token = text "local"; upstream = provider }

abbrev inbound : HeaderMap
inbound =
    (text "x-api-key", header (text "mine"))
    ∷ (text "accept", header (text "a"))
    ∷ (text "accept", header (text "b"))
    ∷ []

abbrev request : Inbound
request = record {
  method = text "POST";
  path_and_query = some (text "/v1/messages?x=1");
  path = text "/v1/messages";
  headers = inbound;
  body = [];
}

url : join_upstream_url lib (text "https://up/") (text "/v1") ≡ text "https://up/v1"
unfolding join_upstream_url
url = refl

other_token : any (credential settings.local_auth_token) inbound ≡ false
unfolding text_eq
other_token = refl

proxy_request_unauthorized_example :
    proxy_request lib settings request [] ≡ (some (says 401 (text "unauthorized")), [])
proxy_request_unauthorized_example = proxy_request_unauthorized lib settings request [] other_token

abbrev upstream_headers : HeaderMap
upstream_headers =
    insert (text "authorization") (header (text "Bearer secret")) (copy_headers [] inbound)

built : build_upstream_headers lib provider inbound ≡ some upstream_headers
unfolding build_upstream_headers
built = refl

-- The name of the client's own credential.
get-build_upstream_headers_example : get (text "x-api-key") upstream_headers ≡ (
    if text_eq (text "authorization") (text "x-api-key")
    then some (header (text "Bearer secret"))
    else if any (λ n. text_eq (text "x-api-key") n) withheld
    then none
    else last_value (text "x-api-key") inbound)
get-build_upstream_headers_example =
    get-build_upstream_headers lib provider inbound upstream_headers (header (text "Bearer secret"))
      (text "x-api-key") refl built
