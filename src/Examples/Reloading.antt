-- ===== src/Examples/Reloading.antt =====
-- A snapshot with one manifest, its gateway configuration, an attachment and a Secret.
use krouter.Prelude.{
  ℕ, ◌≡◌, refl, ◌↔◌, none, some, [], ◌∷◌, if◌then◌else◌, is_empty, Str, codes, str_eq, Result, ok,
  err,
}
use krouter.Http.{lookup_str}
use krouter.Compiled.{Manifest, ObjectRef}
use krouter.Kube.{Object, text_at, label_gateway_uid, label_role}
use krouter.Routing.Types.{GatewayTable}
use krouter.ClientIp.{new_trust}
use krouter.Routing.Build.{build_gateway_table}
use krouter.Loading.{RawConfig, LoadError, Codec, load_generation}
use krouter.Loading.Verified.{IsLoaded, load_generation_iff}
use krouter.Reload.{Loader, rebuild}
use krouter.Reload.LastValid.{Outcome, IsManifest, rebuild-Outcome}
use krouter.Examples.Data.{sample_toolkit, sample_notation, compiled_route, compiled_gateway}

abbrev ref_to : Str → Str → Str → ObjectRef
ref_to kind name checksum = record { kind = kind; name = name; checksum = checksum }

abbrev manifest : Manifest
manifest = record {
  gateway_uid = codes "uid";
  generation = codes "g1";
  previous = [];
  objects =
      ref_to (codes "ConfigMap") (codes "cfg") (codes "cfg-text")
      ∷ ref_to (codes "ConfigMap") (codes "att") (codes "att-text")
      ∷ [];
}

abbrev codec : Codec
codec = record {
  toolkit = sample_toolkit;
  notation = sample_notation;
  checksum_secret = λ m. codes "sum";
  decode_gateway = λ s. some (record compiled_gateway { trusted_proxies = [] });
  decode_route = λ s. some compiled_route;
  decode_manifest = λ s. if is_empty s then none else some manifest;
}

abbrev config_map : Str → Str → Str → Object
config_map role key text = record {
  labels = (label_gateway_uid, codes "uid") ∷ (label_role, role) ∷ [];
  data_of = (key, text) ∷ [];
}

abbrev manifest_map : Object
manifest_map = config_map (codes "manifest") (codes "manifest.json") (codes "text")

abbrev gateway_map : Object
gateway_map = config_map (codes "gateway-config") (codes "config.json") (codes "cfg-text")

abbrev attachment_map : Object
attachment_map = config_map (codes "attachment") (codes "config.json") (codes "att-text")

abbrev snapshot : RawConfig
snapshot = record {
  config_maps =
      (codes "cfg", gateway_map) ∷ (codes "man", manifest_map) ∷ (codes "att", attachment_map) ∷ [];
  secrets = [];
}

abbrev fresh_loader : Loader
fresh_loader = record {
  applied = [];
  statuses = [];
  tables = record { by_port = []; backends = [] };
  next = 1;
}

abbrev taken : Result LoadError (GatewayTable × ℕ) → GatewayTable × ℕ
taken (ok out) = out
taken (err e) = (record { generation = []; by_port = []; namespaces = [] }, 0)

abbrev loaded : GatewayTable × ℕ
loaded = taken (load_generation codec 1 manifest snapshot none)

load_generation_iff_example :
    (load_generation codec 1 manifest snapshot none ≡ ok loaded)
    ↔ IsLoaded codec 1 manifest snapshot none loaded
load_generation_iff_example = load_generation_iff codec 1 manifest snapshot none loaded

-- The snapshot does load.
snapshot_loads : load_generation codec 1 manifest snapshot none ≡ ok loaded
unfolding load_generation str_eq build_gateway_table new_trust
snapshot_loads = refl

is_manifest : IsManifest (codes "uid") manifest_map
unfolding text_at lookup_str str_eq
is_manifest = (refl, refl)

not_gateway_map : ¬ IsManifest (codes "uid") gateway_map
unfolding text_at lookup_str str_eq
not_gateway_map h = cc

not_attachment_map : ¬ IsManifest (codes "uid") attachment_map
unfolding text_at lookup_str str_eq
not_attachment_map h = cc

-- The generation of the manifest is live already, at other addresses.
abbrev live_loader : Loader
live_loader = record {
  applied = (codes "uid", (taken (load_generation codec 50 manifest snapshot none)).0) ∷ [];
  statuses = [];
  tables = record { by_port = []; backends = [] };
  next = 90;
}

rebuild-Outcome_example :
    let next = rebuild codec snapshot live_loader in
    Outcome codec live_loader snapshot
      (codes "uid")
      manifest_map
      (lookup_str (codes "uid") next.applied)
      (lookup_str (codes "uid") next.statuses)
rebuild-Outcome_example =
    rebuild-Outcome codec snapshot live_loader (codes "uid") (codes "man") manifest_map
      ((codes "cfg", gateway_map) ∷ []) ((codes "att", attachment_map) ∷ []) (λ e. cc) refl
      is_manifest (not_gateway_map, tt) (not_attachment_map, tt)

-- The loader that has nothing yet.
first_round :
    let next = rebuild codec snapshot fresh_loader in
    Outcome codec fresh_loader snapshot
      (codes "uid")
      manifest_map
      (lookup_str (codes "uid") next.applied)
      (lookup_str (codes "uid") next.statuses)
first_round =
    rebuild-Outcome codec snapshot fresh_loader (codes "uid") (codes "man") manifest_map
      ((codes "cfg", gateway_map) ∷ []) ((codes "att", attachment_map) ∷ []) (λ e. cc) refl
      is_manifest (not_gateway_map, tt) (not_attachment_map, tt)
