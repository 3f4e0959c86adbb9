-- ===== src/Routing/Build/Balanced.antt =====
-- The weights of the built rules, for every rule of the tables.
use krouter.Prelude.{ℕ, ◌^◌, ◌<◌, ◌≡◌, Option, List, All, Str, ok}
use krouter.Compiled.{Rule, RouteConfig, GatewayConfig}
use krouter.Kube.{Object}
use krouter.Netip.{Notation}
use krouter.Routing.Types.{GatewayTable}
use krouter.Routing.Backends.{Toolkit}
use krouter.Routing.Rules.Weights.{IsBalanced, sum_compiled, build_rule-IsBalanced}
use krouter.Routing.Build.{build_gateway_table}
use krouter.Routing.Build.Steps.{AllRules}
use krouter.Routing.Build.Invariant.{build_gateway_table-All}

-- The positive weights of the rule add up to less than 2^63.
abbrev pub HasRoom : Rule → Type 0
HasRoom rule = sum_compiled rule.backends < 2 ^ 63

-- In the tables that are built, every rule of every route, listener and port has backends without
-- negative weights, and a total that is the sum of their weights, provided that the positive weights
-- of each compiled rule add up to less than 2^63: what weighted round-robin relies on.
pub build_gateway_table-IsBalanced :
    (tk : Toolkit) (notation : Notation) (next : ℕ) (generation : Str) (g : GatewayConfig)
    (routes : List RouteConfig) (secret : Option Object) (previous : Option GatewayTable)
    (out : GatewayTable × ℕ)
    → All (λ route. All HasRoom route.rules) routes
    → build_gateway_table tk notation next generation g routes secret previous ≡ ok out
    → AllRules IsBalanced out.0.by_port
build_gateway_table-IsBalanced tk notation next generation g routes secret previous out room made =
    build_gateway_table-All tk secret IsBalanced HasRoom (λ _. Unit {0})
      (λ cert sum grpc rule e same h q.
        ((build_rule-IsBalanced tk cert sum secret grpc rule e h).1, tt))
      notation next generation g routes previous out room (λ _ _. tt) made
