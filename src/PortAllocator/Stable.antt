-- ===== src/PortAllocator/Stable.antt =====
-- What Allocate answers and what it keeps (internal/lib/k8s/gatewayapi/ports.go).
use krouter.Prelude.{
  ℕ, suc, ◌-◌, ◌≤◌, ℤ, wrap_int32, eq_ℤ, eq_ℤ_iff, ◌≡◌, ◌≢◌, refl, sym, ap, ◌∙◌, subst, inl, inr,
  ◌⊎◌, Bool, true, false, Option, none, some, arith, Bool-cases, Str, str_eq, str_eq_iff, Result,
  ok, err, ok-injective,
}
use krouter.Http.{lookup_str}
use krouter.PortAllocator.{
  PortAllocator, assign, mark, search_port, PortError, exhausted, take_port, after_lookup, allocate,
  group_key,
}
use krouter.PortAllocator.Search.{
  IsFirstFree, IsAllocation, some_none, search_port-found, search_port-none,
}

-- What `Allocate` answers for a group: its port if it has one, else the first free port of the
-- range, which becomes its port, or an error if every port of the range is in use.
pub data Outcome (key : Str) (a : PortAllocator) : PortAllocator → Result PortError ℤ → Type 0 where
  known :
      {b : PortAllocator} {r : Result PortError ℤ} (port : ℤ)
      → lookup_str key a.assigned ≡ some port
      → b ≡ a
      → r ≡ ok port
      → Outcome key a b r
  allotted :
      {b : PortAllocator} {r : Result PortError ℤ} (port : ℤ)
      → lookup_str key a.assigned ≡ none
      → IsFirstFree a port
      → b ≡ assign key port a
      → r ≡ ok port
      → Outcome key a b r
  refused :
      {b : PortAllocator} {r : Result PortError ℤ}
      → lookup_str key a.assigned ≡ none
      → ((d : ℕ) → a.min_port ≤ d → d ≤ a.max_port → a.used (wrap_int32 d) ≡ true)
      → b ≡ a
      → r ≡ err (exhausted a.min_port a.max_port)
      → Outcome key a b r

take_port-Outcome :
    (key : Str) (a : PortAllocator) (o : Option ℤ)
    → lookup_str key a.assigned ≡ none
    → search_port (suc a.max_port - a.min_port) a.min_port a.used ≡ o
    → let out = take_port key o a in Outcome key a out.0 out.1
unfolding take_port
take_port-Outcome key a none new e =
    refused new
      (λ d ge le.
        search_port-none (suc a.max_port - a.min_port) a.min_port a.used e d ge (omega arith))
      refl refl
take_port-Outcome key a (some p) new e =
    let (k, ge, lt, same, free, first) =
      search_port-found (suc a.max_port - a.min_port) a.min_port a.used p e in
    allotted p new
      (record {
        candidate = k;
        at_least = ge;
        at_most = omega arith;
        is_port = same;
        free = free;
        first = first;
      })
      refl refl

after_lookup-Outcome :
    (key : Str) (a : PortAllocator) (o : Option ℤ)
    → lookup_str key a.assigned ≡ o
    → let out = after_lookup key a o in Outcome key a out.0 out.1
unfolding after_lookup
after_lookup-Outcome key a (some p) e = known p e refl refl
after_lookup-Outcome key a none e =
    take_port-Outcome key a (search_port (suc a.max_port - a.min_port) a.min_port a.used) e refl

-- `Allocate` answers as the code means to: a group with a port keeps it and nothing changes; another
-- group gets the first free port of the range, which is then its own; and there is an error, with
-- nothing changed, only if every port of the range is in use.
pub allocate-Outcome :
    (uid : Str) (port : ℤ) (protocol : Str) (a : PortAllocator)
    → let out = allocate uid port protocol a in Outcome (group_key uid port protocol) a out.0 out.1
unfolding allocate
allocate-Outcome uid port protocol a =
    let key = group_key uid port protocol in
    after_lookup-Outcome key a (lookup_str key a.assigned) refl

assigned_cases :
    (key k : Str) (port p : ℤ) (a : PortAllocator)
    → lookup_str k (assign key port a).assigned ≡ some p
    → ((key ≡ k) × (port ≡ p)) ⊎ (lookup_str k a.assigned ≡ some p)
unfolding lookup_str
assigned_cases key k port p a h = elim (Bool-cases (str_eq key k)) [
  | inl same ↦ inl ((str_eq_iff key k).0 same, ground (arith, h, same))
  | inr other ↦ inr (ground (arith, h, other))
]

assign-lookup :
    (key : Str) (port : ℤ) (a : PortAllocator)
    → lookup_str key (assign key port a).assigned ≡ some port
unfolding lookup_str
assign-lookup key port a = rw ((str_eq_iff key key).1 refl) refl

assign-lookup_other :
    (key k : Str) (port p : ℤ) (a : PortAllocator)
    → lookup_str key a.assigned ≡ none
    → lookup_str k a.assigned ≡ some p
    → lookup_str k (assign key port a).assigned ≡ some p
unfolding lookup_str
assign-lookup_other key k port p a new old = elim (Bool-cases (str_eq key k)) [
  | inl same ↦
      let clash : lookup_str k a.assigned ≡ none =
        subst (λ x. lookup_str x a.assigned ≡ none) ((str_eq_iff key k).0 same) new in
      absurd (some_none p (sym old ∙ clash))
  | inr other ↦ rw other old
]

mark-holds : (port p : ℤ) (used : ℤ → Bool) → (port ≡ p) ⊎ (used p ≡ true) → mark port used p ≡ true
mark-holds port p used (inl same) = rw ((eq_ℤ_iff port p).1 same) refl
mark-holds port p used (inr busy) = elim (Bool-cases (eq_ℤ port p)) [
  | inl same ↦ rw same refl
  | inr other ↦ rw (other, busy) refl
]

busy_free : (a : PortAllocator) (p q : ℤ) → a.used p ≡ false → a.used q ≡ true → p ≢ q
busy_free a p q free busy same = ground (arith, ap a.used same, free, busy)

assign-IsAllocation :
    (key : Str) (port : ℤ) (a : PortAllocator)
    → IsAllocation a
    → a.used port ≡ false
    → IsAllocation (assign key port a)
assign-IsAllocation key port a h free = record {
  covered = λ k p e. elim (assigned_cases key k port p a e) [
    | inl (_, same) ↦ mark-holds port p a.used (inl same)
    | inr old ↦ mark-holds port p a.used (inr (h.covered k p old))
  ];
  apart = λ j k p e f. elim (assigned_cases key j port p a e) [
    | inl (at_j, same) ↦ elim (assigned_cases key k port p a f) [
      | inl (at_k, _) ↦ sym at_j ∙ at_k
      | inr old ↦ absurd (busy_free a port p free (h.covered k p old) same)
    ]
    | inr old ↦ elim (assigned_cases key k port p a f) [
      | inl (_, same) ↦ absurd (busy_free a port p free (h.covered j p old) same)
      | inr older ↦ h.apart j k p old older
    ]
  ];
}

-- What a call keeps, and what it gives.
abbrev pub IsKept : Str → PortAllocator → PortAllocator → Result PortError ℤ → Type 0
IsKept key a b r =
    IsAllocation b
    × ((k : Str) (p : ℤ) → lookup_str k a.assigned ≡ some p → lookup_str k b.assigned ≡ some p)
    × ((p : ℤ) → r ≡ ok p → lookup_str key b.assigned ≡ some p)

IsKept-of_Outcome :
    (key : Str) (a b : PortAllocator) (r : Result PortError ℤ)
    → IsAllocation a
    → Outcome key a b r
    → IsKept key a b r
IsKept-of_Outcome key a b r h (known port e same answer) =
    subst (λ x. IsKept key a x r) (sym same)
      (h, (λ k p old. old), (λ p given. e ∙ ap some (ok-injective (sym answer ∙ given))))
IsKept-of_Outcome key a b r h (allotted port new first same answer) =
    subst (λ x. IsKept key a x r) (sym same)
      (
        assign-IsAllocation key port a h first.free,
        (λ k p old. assign-lookup_other key k port p a new old),
        (λ p given. assign-lookup key port a ∙ ap some (ok-injective (sym answer ∙ given))),
      )
IsKept-of_Outcome key a b r h (refused new full same answer) =
    subst (λ x. IsKept key a x r) (sym same)
      (h, (λ k p old. old), (λ p given. absurd (ground (arith, answer, given))))

-- If every assigned port is in use and no two groups have one port, then so it is after `Allocate`;
-- every group keeps the port that it had; and the port that is answered is from then on that of the
-- group.
pub allocate-IsKept :
    (uid : Str) (port : ℤ) (protocol : Str) (a : PortAllocator)
    → IsAllocation a
    → let out = allocate uid port protocol a in IsKept (group_key uid port protocol) a out.0 out.1
allocate-IsKept uid port protocol a h =
    IsKept-of_Outcome (group_key uid port protocol) a (allocate uid port protocol a).0
      (allocate uid port protocol a).1 h (allocate-Outcome uid port protocol a)
