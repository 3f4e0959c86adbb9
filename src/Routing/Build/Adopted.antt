-- ===== src/Routing/Build/Adopted.antt =====
-- The transports of the tables, over the generations of a gateway.
use krouter.Prelude.{
  ℕ, ℤ, ◌≡◌, inl, inr, leb_ℤ, pos, wrap_int64, ◌+ℤ◌, str_eq, codes, Bool, Option, none, some, List,
  [], ◌∷◌, ◌++◌, All, All-append, Bool-cases, Str, ok,
}
use krouter.Compiled.{
  Percent, Filter, filter_of, Filters, no_filters, more_filters, Mirror, no_mirror, mirror_to,
  Backend, Rule, RouteConfig, GatewayConfig,
}
use krouter.Kube.{Object}
use krouter.Netip.{Notation}
use krouter.Routing.Types.{Certificate, BackendTable, GatewayTable}
use krouter.Routing.Backends.{Toolkit}
use krouter.Routing.Backends.Dialing.{sum_of, IsKeyed, HasOwnKey, build_backend-HasOwnKey}
use krouter.Routing.Backends.Adoption.{
  RuleHasOwnKeys, PreviousHasOwnKeys, previous_transports-IsKeyed,
}
use krouter.Routing.Rules.{
  Effects, Filtered, ref_of, built_backend, add_mirror, add_filter, add_filters, add_backends,
  build_rule,
}
use krouter.Routing.Build.{build_gateway_table}
use krouter.Routing.Build.Steps.{IsSumOf}
use krouter.Routing.Build.Invariant.{build_gateway_table-All}

module _ (tk : Toolkit) (cert : Option Certificate) (sum : Str) (same : sum ≡ sum_of tk cert) where
  abbrev FilteredKeyed : Filtered → Type 0
  FilteredKeyed f =
      All (λ m. HasOwnKey tk m.backend) f.mirrors × IsKeyed tk f.effects.store.transports

  add_mirror-keyed :
      (m : Mirror) (percent : Option Percent) (f : Filtered)
      → FilteredKeyed f
      → FilteredKeyed (add_mirror tk cert sum m percent f)
  add_mirror-keyed no_mirror percent f h = h
  add_mirror-keyed (mirror_to b) percent f h =
      let (own, keyed) = build_backend-HasOwnKey tk cert b sum f.effects.store same h.1 in
      (All-append (λ m. HasOwnKey tk m.backend) f.mirrors _ h.0 (own, tt), keyed)

  add_filter-keyed :
      (x : Filter) (f : Filtered) → FilteredKeyed f → FilteredKeyed (add_filter tk cert sum x f)
  unfolding add_filter
  add_filter-keyed (filter_of kind details cors mirror percent) f h =
      elim (Bool-cases (str_eq kind (codes "CORS"))) [
        | inl a ↦ elim (Bool-cases (str_eq kind (codes "RequestMirror"))) [
          | inl b ↦ rw (a, b) (add_mirror-keyed mirror percent (record f { cors = cors }) h)
          | inr b ↦ rw (a, b) h
        ]
        | inr a ↦ elim (Bool-cases (str_eq kind (codes "RequestMirror"))) [
          | inl b ↦ rw (a, b) (add_mirror-keyed mirror percent f h)
          | inr b ↦ rw (a, b) h
        ]
      ]

  add_filters-keyed :
      (xs : Filters) (f : Filtered) → FilteredKeyed f → FilteredKeyed (add_filters tk cert sum xs f)
  unfolding add_filters
  add_filters-keyed no_filters f h = h
  add_filters-keyed (more_filters x xs) f h =
      add_filters-keyed xs (add_filter tk cert sum x f) (add_filter-keyed x f h)

  add_backends-IsKeyed :
      (bs : List Backend) (acc : List BackendTable) (total : ℤ) (e : Effects)
      → All (HasOwnKey tk) acc
      → IsKeyed tk e.store.transports
      → let out = add_backends tk cert sum bs acc total e in
        All (HasOwnKey tk) out.0 × IsKeyed tk out.2.store.transports
  unfolding add_backends
  add_backends-IsKeyed [] acc total e own h = (own, h)
  add_backends-IsKeyed (b ∷ bs) acc total e own h =
      elim (Bool-cases (leb_ℤ (ref_of b).weight (pos 0))) [
        | inl skip ↦ rw skip (add_backends-IsKeyed bs acc total e own h)
        | inr keep ↦
            let out = built_backend tk cert sum b e in
            let (here, keyed) = build_backend-HasOwnKey tk cert b sum e.store same h in
            rw keep (
              add_backends-IsKeyed bs (acc ++ out.0 ∷ []) (wrap_int64 (total +ℤ (ref_of b).weight))
                out.1 (All-append (HasOwnKey tk) acc (out.0 ∷ []) own (here, tt)) keyed)
      ]

  build_rule-IsKeyed :
      (secret : Option Object) (grpc : Bool) (rule : Rule) (e : Effects)
      → IsKeyed tk e.store.transports
      → let out = build_rule tk cert sum secret grpc rule e in
        RuleHasOwnKeys tk out.0 × IsKeyed tk out.1.store.transports
  unfolding build_rule
  build_rule-IsKeyed secret grpc rule e h =
      let (mirrors, keyed) = add_filters-keyed rule.filters _ (tt, h) in
      let (backends, keyed') = add_backends-IsKeyed rule.backends [] (pos 0) _ tt keyed in
      ((backends, mirrors), keyed')

sum_of-IsSumOf :
    (tk : Toolkit) (cert : Option Certificate) (sum : Str)
    → IsSumOf tk cert sum
    → sum ≡ sum_of tk cert
sum_of-IsSumOf tk none sum h = h
sum_of-IsSumOf tk (some cert) sum h = h

every : (rules : List Rule) → All (λ _. Unit {0}) rules
every [] = tt
every (_ ∷ rules) = (tt, every rules)

everywhere : (routes : List RouteConfig) → All (λ route. All (λ _. Unit {0}) route.rules) routes
everywhere [] = tt
everywhere (route ∷ routes) = (every route.rules, everywhere routes)

-- If the backends and mirrors of the previous table of a gateway have transports whose own
-- configurations have the fingerprints that are their keys, then so have those of the table that is
-- built from it: what is adopted is never the transport of another configuration's fingerprint.
pub build_gateway_table-HasOwnKeys :
    (tk : Toolkit) (notation : Notation) (next : ℕ) (generation : Str) (g : GatewayConfig)
    (routes : List RouteConfig) (secret : Option Object) (previous : Option GatewayTable)
    (out : GatewayTable × ℕ)
    → PreviousHasOwnKeys tk previous
    → build_gateway_table tk notation next generation g routes secret previous ≡ ok out
    → PreviousHasOwnKeys tk (some out.0)
build_gateway_table-HasOwnKeys tk notation next generation g routes secret previous out own made =
    build_gateway_table-All tk secret (RuleHasOwnKeys tk) (λ _. Unit {0})
      (λ e. IsKeyed tk e.store.transports)
      (λ cert sum grpc rule e summed _ keyed.
        build_rule-IsKeyed tk cert sum (sum_of-IsSumOf tk cert sum summed) secret grpc rule e keyed)
      notation next generation g routes previous out (everywhere routes)
      (λ _ _. previous_transports-IsKeyed tk previous own) made
