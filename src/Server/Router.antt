-- ===== src/Server/Router.antt =====
-- agent-runner/src/server.rs: the routes of the server.
use dog_bot.Common.{
  Bool, true, false, ◌&&◌, ◌||◌, none, some, List, [], ◌∷◌, ◌++◌, any, if◌then◌else◌, ◌≡◌, refl,
  subst, Option, arith,
}
use dog_bot.Common.Text.{Text, text, text_eq}
use dog_bot.Common.Result.{ok, >>=-eq-ok}
use dog_bot.Config.{Settings}
use dog_bot.Json.{Value, str, object, field, end}
use dog_bot.Platform.Registry.{IngressRoute, PlatformRegistry, empty_registry, register}
use dog_bot.Qq.Send as QqSend
use dog_bot.Wechat.Send as WechatSend
use dog_bot.Adapters.{Platforms, qq_adapter, wechat_adapter, registry_from_settings}

pub data Method : Type 0 where
  get head post : Method

-- The handler of a route, with the platform that its closure keeps.
pub data Endpoint : Type 0 where
  healthz run send_message : Endpoint
  probe_of event_of : Text → Endpoint

pub record Route : Type 0 where
  pub method : Method
  pub path : Text
  pub endpoint : Endpoint

abbrev pub health : Value
health = object (field (text "status") (str (text "ok")) end)

abbrev pub ingress : Text → IngressRoute → List Route
ingress platform_id route =
    (record { method = get; path = route.path; endpoint = probe_of platform_id })
      ∷ (if route.allow_head
          then (record { method = head; path = route.path; endpoint = probe_of platform_id }) ∷ []
          else [])
    ++ (record { method = post; path = route.path; endpoint = event_of platform_id }) ∷ []

abbrev pub ingresses : List (Text × IngressRoute) → List Route
ingresses [] = []
ingresses ((platform_id, route) ∷ routes) = ingress platform_id route ++ ingresses routes

unfoldable pub router : {W : Type 0} → PlatformRegistry W → List Route
router registry =
    (record { method = get; path = text "/healthz"; endpoint = healthz })
    ∷ (record { method = post; path = text "/v1/runs"; endpoint = run })
    ∷ (record { method = post; path = text "/v1/messages"; endpoint = send_message })
    ∷ ingresses registry.ingress_routes

abbrev pub method_eq : Method → Method → Bool
method_eq get get = true
method_eq get head = false
method_eq get post = false
method_eq head get = false
method_eq head head = true
method_eq head post = false
method_eq post get = false
method_eq post head = false
method_eq post post = true

-- `Router::route` panics on a method and a path that a route has already.
abbrev pub overlaps : List Route → Bool
overlaps [] = false
overlaps (r ∷ routes) =
    any (λ s. method_eq r.method s.method && text_eq r.path s.path) routes || overlaps routes

-- The handler that a request gets.
abbrev pub dispatch : Method → Text → List Route → Option Endpoint
dispatch method path [] = none
dispatch method path (r ∷ routes) =
    if method_eq r.method method && text_eq r.path path
    then some r.endpoint
    else dispatch method path routes

-- What holds of the routes of a registry whose platforms are QQ and WeChat.
abbrev pub IsRouted : List Route → Type 0
IsRouted routes =
    (overlaps routes ≡ false)
    × (dispatch post (text "/v1/platforms/qq/napcat/events") routes ≡ some (event_of (text "qq")))
    × (dispatch post (text "/v1/platforms/wechatpadpro/events") routes
        ≡ some (event_of (text "wechatpadpro")))

-- Where the registry is made of the settings, the router has no method and path twice, which would stop the server at its start, and each platform's events go to the handler with that platform's name.
pub registry_from_settings-IsRouted :
    {W : Type 0} (libraries : Platforms W) (settings : Settings) (registry : PlatformRegistry W)
    → registry_from_settings libraries settings ≡ ok registry
    → IsRouted (router registry)
unfolding registry_from_settings router register text_eq
registry_from_settings-IsRouted libraries settings registry h =
    let (qq, e, made) =
      >>=-eq-ok (QqSend.from_settings libraries.header_value settings) _ registry h in
    let same : register (wechat_adapter libraries (WechatSend.from_settings settings))
          (register (qq_adapter libraries qq) empty_registry)
        ≡ registry =
      ground (arith, made) in
    subst (λ r. IsRouted (router r)) same (refl, refl, refl)
