-- ===== src/Loading/Taken.antt =====
-- What becomes of each object that a manifest lists (internal/lib/transports/http/routing/load.go).
use krouter.Prelude.{
  ◌≡◌, refl, ◌∙◌, subst, inl, inr, some, List, [], ◌∷◌, ◌++◌, arith, Bool-cases, Option-cases, Str,
  codes, str_eq, str_eq_iff, ok, err, >>=-eq-ok,
}
use krouter.Compiled.{GatewayConfig, RouteConfig, ObjectRef}
use krouter.Http.{lookup_str}
use krouter.Kube.{Object, text_at, label_gateway_uid, label_role}
use krouter.Loading.{
  RawConfig, LoadError, Collected, Codec, take_payload, take_config_map, take_secret, take_object,
  collect,
}

module _ (codec : Codec) (uid : Str) (raw : RawConfig) where
  open codec use {toolkit, checksum_secret, decode_gateway, decode_route}

  -- A ConfigMap of the snapshot under the name of the reference, with the gateway's label and the
  -- checksum of the reference.
  abbrev pub IsListedMap : ObjectRef → Object → Type 0
  IsListedMap ref cm =
      (ref.kind ≡ codes "ConfigMap")
      × (lookup_str ref.name raw.config_maps ≡ some cm)
      × (text_at label_gateway_uid cm.labels ≡ uid)
      × (toolkit.checksum_bytes (text_at (codes "config.json") cm.data_of) ≡ ref.checksum)

  -- What one verified object adds to what is collected.
  pub data Takes (ref : ObjectRef) (c : Collected) : Collected → Type 0 where
    takes_gateway :
        {d : Collected} (cm : Object) (g : GatewayConfig)
        → IsListedMap ref cm
        → text_at label_role cm.labels ≡ codes "gateway-config"
        → decode_gateway (text_at (codes "config.json") cm.data_of) ≡ some g
        → d ≡ record c { gateway = some g }
        → Takes ref c d
    takes_route :
        {d : Collected} (cm : Object) (r : RouteConfig)
        → IsListedMap ref cm
        → text_at label_role cm.labels ≡ codes "attachment"
        → decode_route (text_at (codes "config.json") cm.data_of) ≡ some r
        → d ≡ record c { routes = c.routes ++ r ∷ [] }
        → Takes ref c d
    takes_secret :
        {d : Collected} (obj : Object)
        → ref.kind ≡ codes "Secret"
        → lookup_str ref.name raw.secrets ≡ some obj
        → text_at label_gateway_uid obj.labels ≡ uid
        → checksum_secret obj.data_of ≡ ref.checksum
        → d ≡ record c { secret = some obj }
        → Takes ref c d

  -- The objects of a manifest, verified in order.
  pub data Collects : List ObjectRef → Collected → Collected → Type 0 where
    done : {c : Collected} → Collects [] c c
    step :
        {ref : ObjectRef} {refs : List ObjectRef} {c d e : Collected}
        → Takes ref c d
        → Collects refs d e
        → Collects (ref ∷ refs) c e

  take_payload-Takes :
      (ref : ObjectRef) (cm : Object) (c d : Collected)
      → IsListedMap ref cm
      → take_payload codec ref.name
          (text_at label_role cm.labels)
          (text_at (codes "config.json") cm.data_of)
          c
        ≡ ok d
      → Takes ref c d
  unfolding take_payload
  take_payload-Takes ref cm c d listed h =
      let role = text_at label_role cm.labels in
      let payload = text_at (codes "config.json") cm.data_of in
      elim (Bool-cases (str_eq role (codes "gateway-config"))) [
        | inl g ↦ elim (Option-cases (decode_gateway payload)) [
          | inl bad ↦
              let no_value : err (LoadError.invalid_gateway_config ref.name) ≡ ok d =
                rw (g, bad, take_payload) at h in
              cc
          | inr (config, good) ↦
              let value : ok (record c { gateway = some config }) ≡ ok d =
                rw (g, good, take_payload) at h in
              takes_gateway cm config listed ((str_eq_iff role (codes "gateway-config")).0 g) good
                (cc)
        ]
        | inr other ↦ elim (Bool-cases (str_eq role (codes "attachment"))) [
          | inr bad ↦
              let no_value : err (LoadError.unexpected_role ref.name) ≡ ok d =
                rw (other, bad, take_payload) at h in
              cc
          | inl a ↦ elim (Option-cases (decode_route payload)) [
            | inl bad ↦
                let no_value : err (LoadError.invalid_attachment ref.name) ≡ ok d =
                  rw (other, a, bad, take_payload) at h in
                cc
            | inr (route, good) ↦
                let value : ok (record c { routes = c.routes ++ route ∷ [] }) ≡ ok d =
                  rw (other, a, good, take_payload) at h in
                takes_route cm route listed ((str_eq_iff role (codes "attachment")).0 a) good (cc)
          ]
        ]
      ]

  take_config_map-Takes :
      (ref : ObjectRef) (cm : Object) (c d : Collected)
      → ref.kind ≡ codes "ConfigMap"
      → lookup_str ref.name raw.config_maps ≡ some cm
      → take_config_map codec uid ref cm c ≡ ok d
      → Takes ref c d
  unfolding take_config_map
  take_config_map-Takes ref cm c d kind found h =
      let owner = text_at label_gateway_uid cm.labels in
      let sum = toolkit.checksum_bytes (text_at (codes "config.json") cm.data_of) in
      take_payload-Takes ref cm c d
        (
          kind,
          found,
          (str_eq_iff owner uid).0 (ground arith),
          (str_eq_iff sum ref.checksum).0 (ground arith),
        )
        (ground arith)

  take_secret-Takes :
      (ref : ObjectRef) (obj : Object) (c d : Collected)
      → ref.kind ≡ codes "Secret"
      → lookup_str ref.name raw.secrets ≡ some obj
      → take_secret codec uid ref obj c ≡ ok d
      → Takes ref c d
  unfolding take_secret
  take_secret-Takes ref obj c d kind found h =
      let owner = text_at label_gateway_uid obj.labels in
      let sum = checksum_secret obj.data_of in
      takes_secret obj kind found ((str_eq_iff owner uid).0 (ground arith))
        ((str_eq_iff sum ref.checksum).0 (ground arith)) (ground arith)

  take_object-Takes :
      (ref : ObjectRef) (c d : Collected) → take_object codec uid raw ref c ≡ ok d → Takes ref c d
  unfolding take_object
  take_object-Takes ref c d h = elim (Bool-cases (str_eq ref.kind (codes "ConfigMap"))) [
    | inl m ↦ elim (Option-cases (lookup_str ref.name raw.config_maps)) [
      | inl missing ↦
          let no_value : err (LoadError.missing_object ref.name) ≡ ok d =
            rw (m, missing, take_object) at h in
          cc
      | inr (cm, found) ↦
          take_config_map-Takes ref cm c d ((str_eq_iff ref.kind (codes "ConfigMap")).0 m) found
            (rw (m, found, take_object) at h)
    ]
    | inr other ↦ elim (Bool-cases (str_eq ref.kind (codes "Secret"))) [
      | inr bad ↦
          let no_value : err (LoadError.unknown_kind ref.kind) ≡ ok d =
            rw (other, bad, take_object) at h in
          cc
      | inl s ↦ elim (Option-cases (lookup_str ref.name raw.secrets)) [
        | inl missing ↦
            let no_value : err (LoadError.missing_secret ref.name) ≡ ok d =
              rw (other, s, missing, take_object) at h in
            cc
        | inr (obj, found) ↦
            take_secret-Takes ref obj c d ((str_eq_iff ref.kind (codes "Secret")).0 s) found
              (rw (other, s, found, take_object) at h)
      ]
    ]
  ]

  listed-take_object :
      (ref : ObjectRef) (cm : Object) (c : Collected)
      → IsListedMap ref cm
      → take_object codec uid raw ref c
        ≡ take_payload codec ref.name
            (text_at label_role cm.labels)
            (text_at (codes "config.json") cm.data_of)
            c
  unfolding take_object take_config_map
  listed-take_object ref cm c (kind, found, mine, sum) =
      let m = (str_eq_iff ref.kind (codes "ConfigMap")).1 kind in
      let owner = (str_eq_iff (text_at label_gateway_uid cm.labels) uid).1 mine in
      let same =
        (str_eq_iff (toolkit.checksum_bytes (text_at (codes "config.json") cm.data_of))
            ref.checksum).1
          sum in
      rw (m, found, take_object, owner, same)

  Takes-take_object :
      (ref : ObjectRef) (c d : Collected) → Takes ref c d → take_object codec uid raw ref c ≡ ok d
  unfolding take_object take_secret take_payload str_eq
  Takes-take_object ref c d (takes_gateway cm g listed role decoded e) =
      let r = (str_eq_iff (text_at label_role cm.labels) (codes "gateway-config")).1 role in
      listed-take_object ref cm c listed ∙ rw (r, decoded, take_payload, e)
  Takes-take_object ref c d (takes_route cm route listed role decoded e) =
      listed-take_object ref cm c listed ∙ rw (role, decoded, take_payload, e)
  Takes-take_object ref c d (takes_secret obj kind found mine sum e) =
      let owner = (str_eq_iff (text_at label_gateway_uid obj.labels) uid).1 mine in
      let same = (str_eq_iff (checksum_secret obj.data_of) ref.checksum).1 sum in
      rw (kind, found, take_object, owner, same, e)

  pub collect-Collects :
      (refs : List ObjectRef) (c e : Collected)
      → collect codec uid raw refs c ≡ ok e
      → Collects refs c e
  unfolding collect
  collect-Collects [] c e h = let same : c ≡ e = cc in subst (Collects [] c) same done
  collect-Collects (ref ∷ refs) c e h =
      let (d, taken, rest) =
        >>=-eq-ok (take_object codec uid raw ref c) (collect codec uid raw refs) h in
      step (take_object-Takes ref c d taken) (collect-Collects refs d e rest)

  pub Collects-collect :
      {refs : List ObjectRef} {c e : Collected}
      → Collects refs c e
      → collect codec uid raw refs c ≡ ok e
  unfolding collect
  Collects-collect done = refl
  Collects-collect (step {ref = ref} {c = c} {d = d} taken rest) =
      rw (Takes-take_object ref c d taken) (Collects-collect rest)
