-- ===== src/PortAllocator.antt =====
-- The allocation of internal listener ports (internal/lib/k8s/gatewayapi/ports.go). The bounds of the
-- range are not negative; a candidate becomes an int32 as in Go.
pub mod Search
pub mod Stable
use krouter.Prelude.{
  ℕ, zero, suc, ◌+◌, ◌-◌, ℤ, wrap_int32, eq_ℤ, Bool, true, false, ◌||◌, Option, none, some, List,
  [], ◌∷◌, ◌++◌, if◌then◌else◌, is_empty, Str, codes, Result, ok, err,
}
use krouter.Http.{lookup_str}
use krouter.Kube.{text_at, label_gateway_uid}
use krouter.Routing.L4.{decimal}

-- The fields of a Service that are read.
pub record Service : Type 0 where
  pub labels : List (Str × Str)
  pub annotations : List (Str × Str)

-- `portAllocator`; what is assigned later stands in front, so that a lookup finds it first.
pub record PortAllocator : Type 0 where
  pub min_port : ℕ
  pub max_port : ℕ
  pub used : ℤ → Bool
  pub assigned : List (Str × ℤ)

-- `a.used[port] = true`
abbrev pub mark : ℤ → (ℤ → Bool) → ℤ → Bool
mark port used other = eq_ℤ port other || used other

abbrev pub assign : Str → ℤ → PortAllocator → PortAllocator
assign key port a = record a { used = mark port a.used; assigned = (key, port) ∷ a.assigned }

abbrev pub port_map_annotation : Str
port_map_annotation = codes "krouter.link-society.com/port-map"

-- The inner loop of `newPortAllocator`.
unfoldable pub restore_ports : Str → List (Str × ℤ) → PortAllocator → PortAllocator
restore_ports uid [] a = a
restore_ports uid ((key, port) ∷ ports) a =
    restore_ports uid ports (assign (uid ++ (b'|' ∷ key)) port a)

-- The JSON decoder of an annotation is a parameter.
module _ (decode_ports : Str → Option (List (Str × ℤ))) where
  unfoldable pub restore_service : Service → PortAllocator → PortAllocator
  unfolding restore_ports
  restore_service svc a =
      let uid = text_at label_gateway_uid svc.labels in
      let raw = text_at port_map_annotation svc.annotations in
      if is_empty uid || is_empty raw
      then a
      else elim (decode_ports raw) [ none ↦ a | some ports ↦ restore_ports uid ports a ]

  unfoldable pub restore_services : List Service → PortAllocator → PortAllocator
  unfolding restore_service
  restore_services [] a = a
  restore_services (svc ∷ svcs) a = restore_services svcs (restore_service svc a)

  -- `newPortAllocator`
  unfoldable pub new_port_allocator : ℕ → ℕ → List Service → PortAllocator
  unfolding restore_services
  new_port_allocator min_port max_port svcs =
      restore_services svcs
        (record { min_port = min_port; max_port = max_port; used = λ _. false; assigned = [] })

-- The key of a listener group: "<uid>|<port>/<protocol>".
abbrev pub group_key : Str → ℤ → Str → Str
group_key uid port protocol = uid ++ (b'|' ∷ (decimal port ++ (b'/' ∷ protocol)))

-- The loop of `Allocate`, over `n` candidates from `candidate` on.
unfoldable pub search_port : ℕ → ℕ → (ℤ → Bool) → Option ℤ
search_port zero candidate used = none
search_port (suc n) candidate used =
    let rest = search_port n (suc candidate) used in
    if used (wrap_int32 candidate) then rest else some (wrap_int32 candidate)

-- The error of `Allocate`.
pub data PortError : Type 0 where
  exhausted : ℕ → ℕ → PortError

unfoldable pub take_port : Str → Option ℤ → PortAllocator → PortAllocator × Result PortError ℤ
take_port key none a = (a, err (exhausted a.min_port a.max_port))
take_port key (some port) a = (assign key port a, ok port)

-- What `Allocate` does once it has looked the key up.
unfoldable pub after_lookup : Str → PortAllocator → Option ℤ → PortAllocator × Result PortError ℤ
unfolding search_port take_port
after_lookup key a (some port) = (a, ok port)
after_lookup key a none =
    take_port key (search_port (suc a.max_port - a.min_port) a.min_port a.used) a

-- `Allocate`
unfoldable pub allocate : Str → ℤ → Str → PortAllocator → PortAllocator × Result PortError ℤ
unfolding after_lookup
allocate uid port protocol a =
    let key = group_key uid port protocol in after_lookup key a (lookup_str key a.assigned)
