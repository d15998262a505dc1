-- ===== src/Platform/Dispatch.antt =====
-- Which plans the check of `dispatch_plan` lets through.
use dog_bot.Common.{Bool, true, ◌&&◌, Option, none, some, List, [], ◌∷◌, all, ◌≡◌, ◌∙◌, refl, arith}
use dog_bot.Common.Text.{Text, text}
use dog_bot.Common.Text.Split.{starts_with}
use dog_bot.Common.Result.{Result, ok, err, is_ok, ◌>>=◌}
use dog_bot.Protocol.{
  AssetSource, workspace_path, managed_store, external_url, platform_native_handle, bridge_handle,
  AssetRef, MessagePart, OutboundMessage, OutboundPlan,
}
use dog_bot.Platform.{
  asset_of, check_source, check_asset, check_parts, check_messages, dispatch_plan,
}

abbrev pub source_allowed : AssetSource → Bool
source_allowed (workspace_path path) = starts_with (text "/workspace/") path
source_allowed (managed_store value) = true
source_allowed (external_url value) = true
source_allowed (platform_native_handle value) = true
source_allowed (bridge_handle value) = true

abbrev pub part_allowed : MessagePart → Bool
part_allowed p = elim (asset_of p) [ none ↦ true | some asset ↦ source_allowed asset.source ]

is_ok_then : (a b : Result Text (Unit {0})) → is_ok (a >>= λ _. b) ≡ (is_ok a && is_ok b)
is_ok_then (ok u) b = refl
is_ok_then (err e) b = refl

is_ok-check_source : (s : AssetSource) → is_ok (check_source s) ≡ source_allowed s
unfolding check_source
is_ok-check_source (workspace_path path) = ground arith
is_ok-check_source (managed_store value) = refl
is_ok-check_source (external_url value) = refl
is_ok-check_source (platform_native_handle value) = refl
is_ok-check_source (bridge_handle value) = refl

is_ok-check_part : (p : MessagePart) → is_ok (check_asset (asset_of p)) ≡ part_allowed p
is_ok-check_part p = go (asset_of p)
  where
    go :
        (o : Option AssetRef)
        → is_ok (check_asset o)
          ≡ (elim o [ none ↦ true | some asset ↦ source_allowed asset.source ])
    go none = refl
    go (some asset) = is_ok-check_source asset.source

is_ok-check_parts : (parts : List MessagePart) → is_ok (check_parts parts) ≡ all part_allowed parts
unfolding check_parts
is_ok-check_parts [] = refl
is_ok-check_parts (p ∷ parts) =
    is_ok_then (check_asset (asset_of p)) (check_parts parts)
    ∙ rw (is_ok-check_part p, is_ok-check_parts parts) refl

-- A plan is let through just when the path of each workspace asset of each of its messages begins with `/workspace/`.
pub is_ok-dispatch_plan :
    (plan : OutboundPlan)
    → is_ok (dispatch_plan plan)
      ≡ all (λ (m : OutboundMessage). all part_allowed m.parts) plan.messages
unfolding dispatch_plan check_messages
is_ok-dispatch_plan plan = go plan.messages
  where
    go :
        (ms : List OutboundMessage)
        → is_ok (check_messages ms) ≡ all (λ (m : OutboundMessage). all part_allowed m.parts) ms
    go [] = refl
    go (m ∷ ms) =
        is_ok_then (check_parts m.parts) (check_messages ms)
        ∙ rw (is_ok-check_parts m.parts, go ms) refl
