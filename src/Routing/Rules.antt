-- ===== src/Routing/Rules.antt =====
-- How a compiled rule becomes a runtime rule (build.go: the body of the loop over rules of
-- BuildGatewayTable, and buildAuthEnforcer).
pub mod Weights
pub mod Extensions
use krouter.Prelude.{
  ℕ, suc, ℤ, pos, ◌+ℤ◌, leb_ℤ, wrap_int64, mul_int64, Bool, true, false, not, ◌&&◌, ◌||◌, Option,
  none, some, List, [], ◌∷◌, ◌++◌, if◌then◌else◌, is_empty, Str, codes, str_eq,
}
use krouter.Compiled.{
  Auth, Cors, Percent, Filter, filter_of, Filters, no_filters, more_filters, Mirror, no_mirror,
  mirror_to, BackendRef, Backend, backend_of, Rule,
}
use krouter.Http.{lookup_str}
use krouter.Kube.{Object, auth_secret_key}
use krouter.Routing.Types.{Certificate, BackendTable, MirrorTable, RuleTable}
use krouter.Routing.Backends.{Toolkit, Store, build_backend}

-- What the loop changes besides the tables: the namespaces of accepted backends, and the store.
pub record Effects : Type 0 where
  pub namespaces : List Str
  pub store : Store

-- `table.namespaces[ns] = true` for a valid backend; the set is a list.
abbrev pub note_namespace : BackendRef → List Str → List Str
note_namespace ref namespaces = if ref.is_valid then ref.namespace ∷ namespaces else namespaces

-- The loop variables over the filters: `entry.cors` and `entry.mirrors`.
pub record Filtered : Type 0 where
  pub cors : Option Cors
  pub mirrors : List MirrorTable
  pub effects : Effects

-- A mirror without a percentage copies every request.
abbrev pub percent_of : Option Percent → Percent
percent_of none = record { numerator = 100; denominator = 1 }
percent_of (some p) = p

abbrev pub ref_of : Backend → BackendRef
ref_of (backend_of ref _) = ref

abbrev pub is_none {ℓ} : {A : Type ℓ} → Option A → Bool
is_none none = true
is_none (some a) = false

module _ (tk : Toolkit) where
  open tk use {is_waf_program, decode_auth, is_auth_usable}

  -- `buildAuthEnforcer`; `none` stands for its errors.
  unfoldable pub build_auth_enforcer : Str → Option Object → Option Auth
  build_auth_enforcer identity none = none
  build_auth_enforcer identity (some obj) =
      elim (lookup_str (auth_secret_key identity) obj.data_of) [
        | none ↦ none
        | some payload ↦ elim (decode_auth payload) [
          | none ↦ none
          | some config ↦ if is_auth_usable config then some config else none
        ]
      ]

  -- The engine of a rule with a program, and the enforcer of one with an extension.
  unfoldable pub waf_of : Str → Option Str
  waf_of program =
      if is_empty program then none else if is_waf_program program then some program else none

  unfoldable pub auth_of : Str → Option Object → Option Auth
  unfolding build_auth_enforcer
  auth_of identity secret = if is_empty identity then none else build_auth_enforcer identity secret

  module _ (cert : Option Certificate) (sum : Str) where
    -- A backend of a rule or of a mirror, and what building it changes.
    abbrev pub built_backend : Backend → Effects → BackendTable × Effects
    built_backend b e =
        let out = build_backend tk cert sum b e.store in
        (out.0, record { namespaces = note_namespace (ref_of b) e.namespaces; store = out.1 })

    abbrev pub add_mirror : Mirror → Option Percent → Filtered → Filtered
    add_mirror no_mirror percent f = f
    add_mirror (mirror_to b) percent f =
        let out = built_backend b f.effects in
        record f {
          mirrors = f.mirrors ++ record { backend = out.0; percent = percent_of percent } ∷ [];
          effects = out.1;
        }

    -- One round of the loop over the filters; the last CORS filter counts.
    unfoldable pub add_filter : Filter → Filtered → Filtered
    add_filter (filter_of kind details cors mirror percent) f =
        let f' = if str_eq kind (codes "CORS") then record f { cors = cors } else f in
        if str_eq kind (codes "RequestMirror") then add_mirror mirror percent f' else f'

    unfoldable pub add_filters : Filters → Filtered → Filtered
    unfolding add_filter
    add_filters no_filters f = f
    add_filters (more_filters filter filters) f = add_filters filters (add_filter filter f)

    -- The loop over the backends, with `entry.backends` and `entry.total`; a backend without a
    -- positive weight is left out.
    unfoldable pub add_backends :
        List Backend → List BackendTable → ℤ → Effects → List BackendTable × ℤ × Effects
    add_backends [] backends total e = (backends, total, e)
    add_backends (b ∷ bs) backends total e =
        let out = built_backend b e in
        let skipped = add_backends bs backends total e in
        let added =
          add_backends bs (backends ++ out.0 ∷ []) (wrap_int64 (total +ℤ (ref_of b).weight))
            out.1 in
        if leb_ℤ (ref_of b).weight (pos 0) then skipped else added

    -- The body of the loop over the rules. The counter of the rule is the first address that it
    -- takes.
    unfoldable pub build_rule : Option Object → Bool → Rule → Effects → RuleTable × Effects
    unfolding add_filters add_backends waf_of auth_of
    build_rule secret grpc rule e =
        let engine = waf_of rule.waf in
        let enforcer = auth_of rule.auth secret in
        let filtered = add_filters rule.filters (record {
          cors = none;
          mirrors = [];
          effects = record e { store = record e.store { next = suc e.store.next } };
        }) in
        let (backends, total, e') = add_backends rule.backends [] (pos 0) filtered.effects in
        (
          record {
            matches = rule.matches;
            filters = rule.filters;
            backends = backends;
            mirrors = filtered.mirrors;
            cors = filtered.cors;
            grpc = grpc;
            request_timeout = mul_int64 rule.request_timeout_millis 1000000;
            backend_timeout = mul_int64 rule.backend_timeout_millis 1000000;
            total = total;
            counter = e.store.next;
            limiter = rule.rate_limit;
            waf_engine = engine;
            auth_enforcer = enforcer;
            extensions_invalid =
                rule.extensions_invalid
                || ((not (is_empty rule.waf) && is_none engine)
                    || (not (is_empty rule.auth) && is_none enforcer));
          },
          e',
        )
