-- ===== src/Platform/Registry.antt =====
-- agent-runner/src/platforms/mod.rs: the trait of the adapters as a record, and their registry.
use dog_bot.Common.{Bool, Option, List, [], ◌∷◌, ◌++◌}
use dog_bot.Common.Text.{Text, text}
use dog_bot.HashMap
use dog_bot.HashMap.{HashMap}
use dog_bot.Json.{Value, str, object, field, end}
use dog_bot.Models.{MessageResponse}
use dog_bot.Protocol.{CanonicalEvent, OutboundPlan}
use dog_bot.Platform.{DeliveryContext}
use dog_bot.Platform.Client.{Sending}

pub record IngressRoute : Type 0 where
  pub path : Text
  pub allow_head : Bool

pub record PlatformAdapter (W : Type 0) : Type 0 where
  pub platform_id : Text
  pub ingress_routes : List IngressRoute
  pub decode_event : Value → Option CanonicalEvent
  pub send_plan : DeliveryContext → OutboundPlan → Sending W MessageResponse

-- The default of `probe_payload`, which no adapter overrides.
abbrev pub probe_payload : Value
probe_payload = object (field (text "status") (str (text "ok")) end)

pub record PlatformRegistry (W : Type 0) : Type 0 where
  pub adapters : HashMap (PlatformAdapter W)
  pub ingress_routes : List (Text × IngressRoute)

abbrev pub routes_of : Text → List IngressRoute → List (Text × IngressRoute)
routes_of platform_id [] = []
routes_of platform_id (route ∷ routes) = (platform_id, route) ∷ routes_of platform_id routes

module _ {W : Type 0} where
  abbrev pub empty_registry : PlatformRegistry W
  empty_registry = record { adapters = []; ingress_routes = [] }

  unfoldable pub register : PlatformAdapter W → PlatformRegistry W → PlatformRegistry W
  unfolding HashMap.insert
  register adapter registry = record {
    adapters = HashMap.insert adapter.platform_id adapter registry.adapters;
    ingress_routes =
        registry.ingress_routes ++ routes_of adapter.platform_id adapter.ingress_routes;
  }

  unfoldable pub get : Text → PlatformRegistry W → Option (PlatformAdapter W)
  unfolding HashMap.get
  get platform_id registry = HashMap.get platform_id registry.adapters

  -- The same for a platform that is not registered.
  abbrev pub platform_probe : Text → PlatformRegistry W → Value
  platform_probe platform_id registry = probe_payload
