-- ===== src/Config/Proxy.antt =====
-- agent-runner/src/api_proxy_config.rs: the settings of the API proxy.
use dog_bot.Common.{Option, none, some, unwrap_or}
use dog_bot.Common.Text.{Text, text}
use dog_bot.Common.Result.{Result, ok, err, ◌>>=◌}
use dog_bot.Config.Variables.{
  ConfigError, missing_upstream, Env, optional_trimmed, string_or_default,
}

pub record ProviderConfig : Type 0 where
  pub base_url : Text
  pub upstream_token : Text
  pub upstream_auth_header : Text
  pub upstream_auth_scheme : Option Text
  pub model : Option Text

pub record ApiProxySettings : Type 0 where
  pub bind_addr : Text
  pub local_auth_token : Text
  pub upstream : ProviderConfig

abbrev pub upstream_from :
    Env → Option Text → Option Text → Result ConfigError (Option ProviderConfig)
upstream_from env none none = ok none
upstream_from env (some url) none = err missing_upstream
upstream_from env none (some token) = err missing_upstream
upstream_from env (some url) (some token) = ok (
    some (record {
      base_url = url;
      upstream_token = token;
      upstream_auth_header =
          unwrap_or (optional_trimmed env (text "API_PROXY_UPSTREAM_AUTH_HEADER"))
            (text "x-api-key");
      upstream_auth_scheme = optional_trimmed env (text "API_PROXY_UPSTREAM_AUTH_SCHEME");
      model = optional_trimmed env (text "API_PROXY_UPSTREAM_MODEL");
    }))

unfoldable pub parse_upstream : Env → Result ConfigError (Option ProviderConfig)
unfolding optional_trimmed
parse_upstream env =
    upstream_from env (optional_trimmed env (text "API_PROXY_UPSTREAM_BASE_URL"))
      (optional_trimmed env (text "API_PROXY_UPSTREAM_TOKEN"))

abbrev pub with_upstream : Env → Option ProviderConfig → Option ApiProxySettings
with_upstream env none = none
with_upstream env (some upstream) = some (record {
  bind_addr = string_or_default env (text "API_PROXY_BIND_ADDR") (text "0.0.0.0:9000");
  local_auth_token =
      unwrap_or (optional_trimmed env (text "API_PROXY_AUTH_TOKEN")) (text "local-proxy-token");
  upstream = upstream;
})

unfoldable pub from_env_map_optional : Env → Result ConfigError (Option ApiProxySettings)
unfolding parse_upstream string_or_default
from_env_map_optional env = do upstream ← parse_upstream env; ok (with_upstream env upstream)

abbrev pub required : Option ApiProxySettings → Result ConfigError ApiProxySettings
required none = err missing_upstream
required (some settings) = ok settings

-- `ApiProxySettings::from_env_map`.
unfoldable pub proxy_from_env_map : Env → Result ConfigError ApiProxySettings
unfolding from_env_map_optional
proxy_from_env_map env = do found ← from_env_map_optional env; required found
