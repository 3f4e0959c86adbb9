-- ===== src/Examples/Building.antt =====
-- The sample gateway compiled into tables, without and with a previous table.
use krouter.Prelude.{
  ℕ, pos, ◌≡◌, refl, inl, inr, ◌↔◌, false, none, some, List, [], ◌∷◌, arith, All, Any, Str, codes,
  str_eq, Result, ok, err,
}
use krouter.Http.{lookup_str}
use krouter.ClientIp.{new_trust}
use krouter.Routing.Types.{PortTable, GatewayTable, port_of, lookup_port}
use krouter.Routing.Backends.{build_backend}
use krouter.Routing.Backends.Dialing.{IsDialed, IsKeyed, build_backend-IsDialed}
use krouter.Routing.Backends.Adoption.{PreviousHasOwnKeys}
use krouter.Routing.Rules.{Effects, build_rule}
use krouter.Routing.Rules.Weights.{IsBalanced}
use krouter.Routing.Rules.Extensions.{Enforces, build_rule-Enforces}
use krouter.Routing.Listeners.{BuildError}
use krouter.Routing.Build.{build_gateway_table, merge_tables}
use krouter.Routing.Build.Steps.{AllRules}
use krouter.Routing.Build.Balanced.{build_gateway_table-IsBalanced}
use krouter.Routing.Build.Ports.{IsOrdered, build_gateway_table-IsOrdered}
use krouter.Routing.Build.Adopted.{build_gateway_table-HasOwnKeys}
use krouter.Routing.Build.Merge.{AreMaps, Serves, merge_tables-Serves_iff}
use krouter.Examples.Data.{
  sample_toolkit, sample_notation, compiled_rule, compiled_backend, compiled_route,
  compiled_gateway, sample_secret, sample_tls, sample_port,
}

abbrev start : Effects
start = record { namespaces = []; store = record { next = 1; transports = [] } }

build_rule-Enforces_example :
    (compiled_rule.extensions_invalid ≡ false)
    × Enforces sample_toolkit compiled_rule
        (some sample_secret)
        (build_rule sample_toolkit none [] (some sample_secret) false compiled_rule start).0
unfolding build_rule str_eq lookup_str
build_rule-Enforces_example =
    build_rule-Enforces sample_toolkit none [] (some sample_secret) false compiled_rule start refl

build_backend-IsDialed_example :
    let out =
      build_backend sample_toolkit none [] (compiled_backend (codes "a") (pos 1)) start.store in
    IsDialed sample_toolkit none [] (some sample_tls) out.0
    × IsKeyed sample_toolkit out.1.transports
build_backend-IsDialed_example =
    build_backend-IsDialed sample_toolkit none (compiled_backend (codes "a") (pos 1)) [] start.store
      refl tt

abbrev taken : Result BuildError (GatewayTable × ℕ) → GatewayTable × ℕ
taken (ok out) = out
taken (err e) = (record { generation = []; by_port = []; namespaces = [] }, 0)

abbrev built_tables : GatewayTable × ℕ
built_tables = taken (
    build_gateway_table sample_toolkit sample_notation 1 (codes "g1") compiled_gateway
      (compiled_route ∷ []) (some sample_secret) none)

tables_built :
    build_gateway_table sample_toolkit sample_notation 1
      (codes "g1")
      compiled_gateway
      (compiled_route ∷ [])
      (some sample_secret)
      none
    ≡ ok built_tables
unfolding build_gateway_table new_trust str_eq
tables_built = refl

build_gateway_table-IsBalanced_example : AllRules IsBalanced built_tables.0.by_port
build_gateway_table-IsBalanced_example =
    build_gateway_table-IsBalanced sample_toolkit sample_notation 1 (codes "g1") compiled_gateway
      (compiled_route ∷ []) (some sample_secret) none built_tables ((omega arith, tt), tt)
      tables_built

build_gateway_table-IsOrdered_example : All (λ p. IsOrdered p.1) built_tables.0.by_port
build_gateway_table-IsOrdered_example =
    build_gateway_table-IsOrdered sample_toolkit sample_notation 1 (codes "g1") compiled_gateway
      (compiled_route ∷ []) (some sample_secret) none built_tables tables_built

-- The next generation, built from the first.
abbrev rebuilt_tables : GatewayTable × ℕ
rebuilt_tables = taken (
    build_gateway_table sample_toolkit sample_notation built_tables.1 (codes "g2") compiled_gateway
      (compiled_route ∷ []) (some sample_secret) (some built_tables.0))

tables_rebuilt :
    build_gateway_table sample_toolkit sample_notation built_tables.1
      (codes "g2")
      compiled_gateway
      (compiled_route ∷ [])
      (some sample_secret)
      (some built_tables.0)
    ≡ ok rebuilt_tables
unfolding build_gateway_table new_trust str_eq
tables_rebuilt = refl

first_keys : PreviousHasOwnKeys sample_toolkit (some built_tables.0)
first_keys =
    build_gateway_table-HasOwnKeys sample_toolkit sample_notation 1 (codes "g1") compiled_gateway
      (compiled_route ∷ []) (some sample_secret) none built_tables tt tables_built

build_gateway_table-HasOwnKeys_example : PreviousHasOwnKeys sample_toolkit (some rebuilt_tables.0)
build_gateway_table-HasOwnKeys_example =
    build_gateway_table-HasOwnKeys sample_toolkit sample_notation built_tables.1 (codes "g2")
      compiled_gateway (compiled_route ∷ []) (some sample_secret) (some built_tables.0)
      rebuilt_tables first_keys tables_rebuilt

abbrev two_gateways : List (Str × GatewayTable)
two_gateways =
    (
      codes "x",
      record { generation = codes "1"; by_port = (pos 8080, sample_port) ∷ []; namespaces = [] },
    )
    ∷ (
      codes "y",
      record { generation = codes "1"; by_port = (pos 9090, sample_port) ∷ []; namespaces = [] },
    )
    ∷ []

one_table :
    (t u : PortTable)
    → Any (Serves (pos 8080) t) two_gateways
    → Any (Serves (pos 8080) u) two_gateways
    → t ≡ u
unfolding lookup_port
one_table t u (inl e) (inl f) = cc
one_table t u (inl e) (inr (inl f)) = absurd (ground (arith, f))
one_table t u (inl e) (inr (inr impossible)) = elim impossible [ ]
one_table t u (inr (inl e)) j = absurd (ground (arith, e))
one_table t u (inr (inr impossible)) j = elim impossible [ ]

two_maps : AreMaps two_gateways
unfolding lookup_port
two_maps = ((refl, tt), ((refl, tt), tt))

merge_tables-Serves_iff_example :
    (port_of (merge_tables two_gateways) (pos 8080) ≡ some sample_port)
    ↔ Any (Serves (pos 8080) sample_port) two_gateways
merge_tables-Serves_iff_example =
    merge_tables-Serves_iff two_gateways (pos 8080) sample_port two_maps one_table
