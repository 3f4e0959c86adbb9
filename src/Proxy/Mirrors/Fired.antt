-- ===== src/Proxy/Mirrors/Fired.antt =====
-- Where the copies of a request go.
use krouter.Prelude.{
  ℕ, ℤ, pos, rem_ℤ, true, suc, ap, ◌≢◌, ◌&&◌, filter_by, Option-cases, get_elem?, ◌<◌, leb, take,
  take-all, ◌≤◌, length, ◌≡◌, refl, sym, ◌∙◌, subst, ◌⊎◌, inl, inr, Bool, false, not, ◌||◌, Option,
  none, some, List, [], ◌∷◌, is_empty, All, All-imp, Any, arith, Bool-cases, Str,
}
use krouter.Routing.Types.{MirrorTable, BackendTable}
use krouter.Routing.Balance.{Counters, fetch_add}
use krouter.Routing.Endpoints.{
  Endpoint, EndpointsIndex, endpoints_of, index_endpoints, refused, picked, pick,
}
use krouter.Routing.Endpoints.Laws.{Lists}
use krouter.Routing.L4.Sound.{pick-Lists}
use krouter.Proxy.Serve.Selection.{Picked-cases}
use krouter.Proxy.Mirrors.{Copy, add_copy, fire_loop, fire_mirrors, write_all}
use krouter.Proxy.Mirrors.Capture.{concat, empty_buffer, write_all-IsWhole, false-true}

-- The copy is for a listed endpoint of a mirror whose TLS policy was not rejected, over its own TLS
-- transport if it has one, and it has this body.
abbrev pub IsCopyFor : EndpointsIndex → Option Str → List MirrorTable → Copy → Type 0
IsCopyFor idx body mirrors c =
    (c.body ≡ body)
    × Any
        (λ m.
          (m.backend.tls_invalid ≡ false)
          × (c.transport ≡ m.backend.tls_transport)
          × Lists (endpoints_of idx m.backend.namespace m.backend.name m.backend.port) c.endpoint)
        mirrors

add_copy-eq :
    (c : Copy) (o : Option (List Copy × Counters)) (copies : List Copy) (counters : Counters)
    → add_copy c o ≡ some (copies, counters)
    → (rest : List Copy) × (o ≡ some (rest, counters)) × (copies ≡ c ∷ rest)
add_copy-eq c none copies counters h = cc
add_copy-eq c (some (rest, later)) copies counters h = (rest, ground (arith, h), ground (arith, h))

module _ (idx : EndpointsIndex) (body : Option Str) where
  later_mirrors :
      (m : MirrorTable) (ms : List MirrorTable) (l : List Copy)
      → All (IsCopyFor idx body ms) l
      → All (IsCopyFor idx body (m ∷ ms)) l
  later_mirrors m ms l all =
      All-imp (IsCopyFor idx body ms) (IsCopyFor idx body (m ∷ ms)) l
        (λ c (same, from). (same, inr from)) all

  fire_loop-IsCopyFor :
      (counters : Counters) (ms : List MirrorTable) (copies : List Copy) (counters' : Counters)
      → fire_loop counters idx body ms ≡ some (copies, counters')
      → All (IsCopyFor idx body ms) copies
  unfolding fire_loop
  fire_loop-IsCopyFor counters [] copies counters' h =
      let none_fired : [] ≡ copies = ground (arith, h) in
      subst (All (IsCopyFor idx body [])) (none_fired) tt
  fire_loop-IsCopyFor counters (m ∷ ms) copies counters' h =
      elim (Bool-cases m.backend.tls_invalid) [
        | inl rejected ↦
            later_mirrors m ms copies
              (fire_loop-IsCopyFor counters ms copies counters' (ground (arith, h, rejected)))
        | inr accepted ↦ elim (Picked-cases (pick counters m.backend idx).0) [
          | inl bad ↦ absurd (ground (arith, h, accepted, bad))
          | inr (inl empty) ↦ later_mirrors m ms copies (
              fire_loop-IsCopyFor (pick counters m.backend idx).1 ms copies counters'
                (ground (arith, h, accepted, empty)))
          | inr (inr (endpoint, found)) ↦
              let c : Copy = record {
                endpoint = endpoint;
                transport = m.backend.tls_transport;
                body = body;
              } in
              let (rest, fired, same) =
                add_copy-eq c (fire_loop (pick counters m.backend idx).1 idx body ms) copies
                  counters' (ground (arith, h, accepted, found)) in
              subst (All (IsCopyFor idx body (m ∷ ms))) (sym same) (
                (refl, inl (accepted, refl, pick-Lists counters m.backend idx endpoint found)),
                later_mirrors m ms rest
                    (fire_loop-IsCopyFor (pick counters m.backend idx).1 ms rest counters' fired),
              )
        ]
      ]

-- The mirrors that can be sent a copy.
abbrev pub reachable : EndpointsIndex → List MirrorTable → List MirrorTable
reachable idx = filter_by (λ m.
    not m.backend.tls_invalid
    && not (is_empty (endpoints_of idx m.backend.namespace m.backend.name m.backend.port)))

index_endpoints-not_refused : (l : List Endpoint) (slot : ℤ) → index_endpoints l slot ≢ refused
index_endpoints-not_refused l (ℤ.pos n) h = elim (Option-cases (get_elem? l n)) [
  | inl missing ↦ ground (arith, h, missing)
  | inr (e, found) ↦ ground (arith, h, found)
]
index_endpoints-not_refused l (ℤ.negsuc n) h = cc

pick-refused :
    (counters : Counters) (b : BackendTable) (idx : EndpointsIndex)
    → (pick counters b idx).0 ≡ refused
    → is_empty (endpoints_of idx b.namespace b.name b.port) ≡ true
unfolding pick
pick-refused counters b idx h =
    elim (Bool-cases (is_empty (endpoints_of idx b.namespace b.name b.port))) [
      | inl none_left ↦ none_left
      | inr some_left ↦
          let endpoints = endpoints_of idx b.namespace b.name b.port in
          let found : index_endpoints endpoints
                (rem_ℤ (fetch_add counters b.counter).0 (pos (length endpoints)))
              ≡ refused =
            rw some_left at h in
          absurd (
            index_endpoints-not_refused endpoints
              (rem_ℤ (fetch_add counters b.counter).0 (pos (length endpoints))) found)
    ]

pick-picked :
    (counters : Counters) (b : BackendTable) (idx : EndpointsIndex) (e : Endpoint)
    → (pick counters b idx).0 ≡ picked e
    → is_empty (endpoints_of idx b.namespace b.name b.port) ≡ false
unfolding pick
pick-picked counters b idx e h =
    elim (Bool-cases (is_empty (endpoints_of idx b.namespace b.name b.port))) [
      | inl none_left ↦ let impossible : refused ≡ picked e = rw none_left at h in cc
      | inr some_left ↦ some_left
    ]

fire_loop-reachable :
    (idx : EndpointsIndex) (body : Option Str) (counters : Counters) (ms : List MirrorTable)
    (copies : List Copy) (counters' : Counters)
    → fire_loop counters idx body ms ≡ some (copies, counters')
    → length copies ≡ length (reachable idx ms)
unfolding fire_loop
fire_loop-reachable idx body counters [] copies counters' h =
    let none_fired : [] ≡ copies = ground (arith, h) in ap length (sym none_fired)
fire_loop-reachable idx body counters (m ∷ ms) copies counters' h =
    elim (Bool-cases m.backend.tls_invalid) [
      | inl rejected ↦
          rw rejected (
            fire_loop-reachable idx body counters ms copies counters' (ground (arith, h, rejected)))
      | inr accepted ↦ elim (Picked-cases (pick counters m.backend idx).0) [
        | inl bad ↦ absurd (ground (arith, h, accepted, bad))
        | inr (inl empty) ↦
            rw (accepted, pick-refused counters m.backend idx empty)
              (fire_loop-reachable idx body (pick counters m.backend idx).1 ms copies counters'
                (ground (arith, h, accepted, empty)))
        | inr (inr (endpoint, found)) ↦
            let c : Copy = record {
              endpoint = endpoint;
              transport = m.backend.tls_transport;
              body = body;
            } in
            let (rest, fired, same) =
              add_copy-eq c (fire_loop (pick counters m.backend idx).1 idx body ms) copies counters'
                (ground (arith, h, accepted, found)) in
            rw (accepted, pick-picked counters m.backend idx endpoint found)
              (ap length same
                ∙ ap suc (
                    fire_loop-reachable idx body (pick counters m.backend idx).1 ms rest counters'
                      fired))
      ]
    ]

-- Whether there are copies, by the pieces that were captured.
captured-reachable :
    (idx : EndpointsIndex) (limit : ℕ) (pieces : List Str) (made : Bool)
    (mirrors : List MirrorTable) (counters : Counters) (copies : List Copy) (counters' : Counters)
    → fire_mirrors counters idx (some (write_all (empty_buffer limit) pieces)) made mirrors
      ≡ some (copies, counters')
    → (made ≡ false)
      ⊎ (limit < length (concat pieces))
      ⊎ (length copies ≡ length (reachable idx mirrors))
unfolding fire_mirrors
captured-reachable idx limit pieces made [] counters copies counters' h =
    let none_fired : [] ≡ copies = ground (arith, h) in inr (inr (ap length (sym none_fired)))
captured-reachable idx limit pieces false (m ∷ ms) counters copies counters' h = inl refl
captured-reachable idx limit pieces true (m ∷ ms) counters copies counters' h =
    let kept = write_all (empty_buffer limit) pieces in
    let (fits, whole) = write_all-IsWhole limit pieces in
    elim (Bool-cases (leb (length (concat pieces)) limit)) [
      | inr beyond ↦ inr (inl (ground (arith, beyond)))
      | inl room ↦
          let clean : kept.overflowed ≡ false = fits.1 (ground (arith, room)) in
          inr (
            inr (
              fire_loop-reachable idx (some kept.buf) counters (m ∷ ms) copies counters'
                (ground (arith, h, clean))))
    ]

no_copies :
    (idx : EndpointsIndex) (body : Option Str) (mirrors : List MirrorTable) (copies : List Copy)
    {p : Type 0}
    → [] ≡ copies
    → All (IsCopyFor idx body mirrors) copies × ((copies ≡ []) ⊎ p)
no_copies idx body mirrors copies e = (subst (All (IsCopyFor idx body mirrors)) (e) tt, inl (sym e))

-- The copies, by the pieces that were captured.
captured-IsCopyFor :
    (idx : EndpointsIndex) (limit : ℕ) (pieces : List Str) (made : Bool)
    (mirrors : List MirrorTable) (counters : Counters) (copies : List Copy) (counters' : Counters)
    → fire_mirrors counters idx (some (write_all (empty_buffer limit) pieces)) made mirrors
      ≡ some (copies, counters')
    → All (IsCopyFor idx (some (concat pieces)) mirrors) copies
      × ((copies ≡ []) ⊎ (length (concat pieces) ≤ limit))
unfolding fire_mirrors
captured-IsCopyFor idx limit pieces made mirrors counters copies counters' h =
    let kept = write_all (empty_buffer limit) pieces in
    elim (Bool-cases (is_empty mirrors || not made)) [
      | inl idle ↦ no_copies idx (some (concat pieces)) mirrors copies (ground (arith, h, idle))
      | inr active ↦ elim (Bool-cases kept.overflowed) [
        | inl spilt ↦
            no_copies idx (some (concat pieces)) mirrors copies (ground (arith, h, active, spilt))
        | inr clean ↦
            let (fits, whole) = write_all-IsWhole limit pieces in
            let fired : fire_loop counters idx (some kept.buf) mirrors ≡ some (copies, counters') =
              ground (arith, h, active, clean) in
            (
              subst (λ (b : Str). All (IsCopyFor idx (some b) mirrors) copies)
                  (elim whole [
                    | inl spilt ↦ absurd (false-true (sym clean ∙ spilt))
                    | inr same ↦ same
                  ])
                  (fire_loop-IsCopyFor idx (some kept.buf) counters mirrors copies counters' fired),
              inr (fits.0 clean),
            )
      ]
    ]

-- Of a request body, given in the pieces in which it is read, the backend has had the first `n` read
-- by the time its response is done. Then each copy that is fired has exactly these pieces as its
-- body, which is all of the request's body only if all of it was read; and it is for a listed endpoint
-- of one of the mirrors, one whose TLS policy was not rejected, over that mirror's own TLS transport if
-- it has one. If what was read is beyond the limit, nothing is fired; otherwise, and if the outbound
-- request was made, there are as many copies as mirrors with a listed endpoint and a TLS policy that
-- was not rejected.
pub fire_mirrors-IsCopyFor :
    (idx : EndpointsIndex) (limit n : ℕ) (pieces : List Str) (made : Bool)
    (mirrors : List MirrorTable) (counters : Counters) (copies : List Copy) (counters' : Counters)
    → fire_mirrors counters idx (some (write_all (empty_buffer limit) (take n pieces))) made mirrors
      ≡ some (copies, counters')
    → All (IsCopyFor idx (some (concat (take n pieces))) mirrors) copies
      × ((n < length pieces) ⊎ All (IsCopyFor idx (some (concat pieces)) mirrors) copies)
      × ((copies ≡ []) ⊎ (length (concat (take n pieces)) ≤ limit))
      × ((made ≡ false)
          ⊎ (limit < length (concat (take n pieces)))
          ⊎ (length copies ≡ length (reachable idx mirrors)))
fire_mirrors-IsCopyFor idx limit n pieces made mirrors counters copies counters' h =
    let (all, fits) =
      captured-IsCopyFor idx limit (take n pieces) made mirrors counters copies counters' h in
    (
      all,
      elim (Bool-cases (leb (length pieces) n)) [
        | inl whole ↦ inr (
            subst (λ (l : List Str). All (IsCopyFor idx (some (concat l)) mirrors) copies)
              (take-all n pieces (ground (arith, whole))) all)
        | inr part ↦ inl (ground (arith, part))
      ],
      fits,
      captured-reachable idx limit (take n pieces) made mirrors counters copies counters' h,
    )
