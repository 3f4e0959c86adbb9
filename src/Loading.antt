-- ===== src/Loading.antt =====
-- How the data plane verifies a compiled generation before it builds its tables
-- (internal/lib/transports/http/routing/load.go: LoadGeneration).
pub mod Taken
pub mod Verified
use krouter.Prelude.{
  ℕ, not, Option, none, some, List, [], ◌∷◌, ◌++◌, if◌then◌else◌, Str, codes, str_eq, Result, ok,
  err, ◌>>=◌, map_err,
}
use krouter.Compiled.{GatewayConfig, RouteConfig, Manifest, ObjectRef}
use krouter.Http.{lookup_str}
use krouter.Kube.{Object, text_at, label_gateway_uid, label_role}
use krouter.Netip.{Notation}
use krouter.Routing.Types.{GatewayTable}
use krouter.Routing.Backends.{Toolkit}
use krouter.Routing.Listeners.{BuildError}
use krouter.Routing.Build.{build_gateway_table}

-- `configwatcher.RawConfig`: both maps by name.
pub record RawConfig : Type 0 where
  pub config_maps : List (Str × Object)
  pub secrets : List (Str × Object)

-- The errors of `LoadGeneration`, by the object that they name.
pub data LoadError : Type 0 where
  missing_object : Str → LoadError
  unexpected_identity : Str → LoadError
  checksum_mismatch : Str → LoadError
  invalid_gateway_config : Str → LoadError
  invalid_attachment : Str → LoadError
  unexpected_role : Str → LoadError
  missing_secret : Str → LoadError
  secret_identity : Str → LoadError
  secret_checksum : Str → LoadError
  unknown_kind : Str → LoadError
  no_gateway_config : LoadError
  build_failed : BuildError → LoadError

-- What the loop of `LoadGeneration` has collected.
pub record Collected : Type 0 where
  pub gateway : Option GatewayConfig
  pub routes : List RouteConfig
  pub secret : Option Object

abbrev pub nothing_collected : Collected
nothing_collected = record { gateway = none; routes = []; secret = none }

-- What the loader takes from outside: the toolkit of the build, the notation of addresses, the
-- checksum of a Secret's data, and the JSON decoders.
pub record Codec : Type 0 where
  pub toolkit : Toolkit
  pub notation : Notation
  pub checksum_secret : List (Str × Str) → Str
  pub decode_gateway : Str → Option GatewayConfig
  pub decode_route : Str → Option RouteConfig
  pub decode_manifest : Str → Option Manifest

module _ (codec : Codec) where
  open codec use {toolkit, notation, checksum_secret, decode_gateway, decode_route}

  -- The `switch` on the role.
  unfoldable pub take_payload : Str → Str → Str → Collected → Result LoadError Collected
  take_payload name role payload c =
      if str_eq role (codes "gateway-config")
      then elim (decode_gateway payload) [
        | none ↦ err (invalid_gateway_config name)
        | some g ↦ ok (record c { gateway = some g })
      ]
      else if str_eq role (codes "attachment")
      then elim (decode_route payload) [
        | none ↦ err (invalid_attachment name)
        | some r ↦ ok (record c { routes = c.routes ++ r ∷ [] })
      ]
      else err (unexpected_role name)

  unfoldable pub take_config_map : Str → ObjectRef → Object → Collected → Result LoadError Collected
  unfolding text_at take_payload
  take_config_map uid ref cm c =
      let payload = text_at (codes "config.json") cm.data_of in
      if not (str_eq (text_at label_gateway_uid cm.labels) uid)
      then err (unexpected_identity ref.name)
      else if not (str_eq (toolkit.checksum_bytes payload) ref.checksum)
      then err (checksum_mismatch ref.name)
      else take_payload ref.name (text_at label_role cm.labels) payload c

  unfoldable pub take_secret : Str → ObjectRef → Object → Collected → Result LoadError Collected
  unfolding text_at
  take_secret uid ref obj c =
      if not (str_eq (text_at label_gateway_uid obj.labels) uid)
      then err (secret_identity ref.name)
      else if not (str_eq (checksum_secret obj.data_of) ref.checksum)
      then err (secret_checksum ref.name)
      else ok (record c { secret = some obj })

  -- The body of the loop.
  unfoldable pub take_object : Str → RawConfig → ObjectRef → Collected → Result LoadError Collected
  unfolding take_config_map take_secret
  take_object uid raw ref c =
      if str_eq ref.kind (codes "ConfigMap")
      then elim (lookup_str ref.name raw.config_maps) [
        | none ↦ err (missing_object ref.name)
        | some cm ↦ take_config_map uid ref cm c
      ]
      else if str_eq ref.kind (codes "Secret")
      then elim (lookup_str ref.name raw.secrets) [
        | none ↦ err (missing_secret ref.name)
        | some obj ↦ take_secret uid ref obj c
      ]
      else err (unknown_kind ref.kind)

  -- The loop over the objects of the manifest.
  unfoldable pub collect : Str → RawConfig → List ObjectRef → Collected → Result LoadError Collected
  unfolding take_object
  collect uid raw [] c = ok c
  collect uid raw (ref ∷ refs) c = take_object uid raw ref c >>= collect uid raw refs

  unfoldable pub finish :
      ℕ → Str → Option GatewayTable → Collected → Result LoadError (GatewayTable × ℕ)
  finish next generation previous c = elim c.gateway [
    | none ↦ err no_gateway_config
    | some g ↦
        map_err build_failed
          (build_gateway_table toolkit notation next generation g c.routes c.secret previous)
  ]

  -- `LoadGeneration`; the addresses from `next` on are free.
  unfoldable pub load_generation :
      ℕ → Manifest → RawConfig → Option GatewayTable → Result LoadError (GatewayTable × ℕ)
  unfolding collect finish
  load_generation next manifest raw previous =
      collect manifest.gateway_uid raw manifest.objects nothing_collected
      >>= finish next manifest.generation previous
