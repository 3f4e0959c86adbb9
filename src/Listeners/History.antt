-- ===== src/Listeners/History.antt =====
-- The listeners after any sequence of messages.
use krouter.Prelude.{
  ℕ, suc, ℤ, eq_ℤ, ◌≢◌, ◌⊎◌, Any, Any-append_right, ◌≡◌, refl, sym, ap, ap₂, ◌∙◌, subst, inl, inr,
  Bool, true, false, Option, none, some, List, [], ◌∷◌, ◌++◌, arith, bool_eq, Bool-cases, All,
}
use krouter.Routing.Types.{PortSpec}
use krouter.Listeners.Maps.{lookup_at}
use krouter.Listeners.{
  tcp, udp, tls_passthrough, http, kind_of, all_children, worker_continue, worker_end, Child,
  Worker, same_spec, new_child, reconcile, stop_all, initial, Message, tables_of, done, do_work,
}
use krouter.Listeners.Round.Refined.{reconcile-Refines}
use krouter.Listeners.Round.{Served, served_at, started, next, IsConsistent, IsStopped}

-- The worker after a sequence of messages, of which it takes none after the end.
unfoldable pub run : List Message → Worker → Worker
unfolding do_work
run [] w = w
run (m ∷ ms) w =
    let (v, status) = do_work m w in elim status [ worker_continue ↦ run ms v | worker_end ↦ v ]

bool_eq-eq : (a b : Bool) → bool_eq a b ≡ true → a ≡ b
bool_eq-eq a b h = ground arith

same_spec-eq : (a b : PortSpec) → same_spec a b ≡ true → a ≡ b
unfolding same_spec
same_spec-eq a b h = ground (
  arith,
  bool_eq-eq a.tls b.tls,
  bool_eq-eq a.tcp b.tcp,
  bool_eq-eq a.udp b.udp,
  bool_eq-eq a.tls_passthrough b.tls_passthrough,
  bool_eq-eq a.proxy_protocol b.proxy_protocol,
)

same_spec_refl : (a : PortSpec) → same_spec a a ≡ true
unfolding same_spec
same_spec_refl a = ground arith

-- A server for a port, by what the spec says of the port: which protocol it speaks, and whether its
-- connections carry a preamble, which UDP has none of.
pub record IsServerFor (port : ℤ) (spec : PortSpec) (c : Child) : Type 0 where
  pub at_port : c.port ≡ port
  pub over_tcp : spec.tcp ≡ true → c.kind ≡ tcp
  pub over_udp : spec.tcp ≡ false → spec.udp ≡ true → c.kind ≡ udp
  pub over_tls :
      spec.tcp ≡ false → spec.udp ≡ false → spec.tls_passthrough ≡ true → c.kind ≡ tls_passthrough
  pub over_http :
      spec.tcp ≡ false → spec.udp ≡ false → spec.tls_passthrough ≡ false → c.kind ≡ http spec.tls
  pub asks_preamble : c.guarded ≡ true → (spec.proxy_protocol ≡ true) × (c.kind ≢ udp)
  pub asks_none : c.guarded ≡ false → (spec.proxy_protocol ≡ false) ⊎ (c.kind ≡ udp)

new_child-IsServerFor :
    (port : ℤ) (spec : PortSpec) (round : ℕ) → IsServerFor port spec (new_child port spec round)
unfolding new_child kind_of
new_child-IsServerFor port spec round = record {
  at_port = refl;
  over_tcp = λ a. ground arith;
  over_udp = λ a b. ground arith;
  over_tls = λ a b c. ground arith;
  over_http = λ a b c. ground arith;
  asks_preamble = λ a. (ground arith, λ e. ground arith);
  asks_none = λ a. ground arith;
}

-- The child at a port is a server for it.
abbrev pub IsServer : ℤ → Served → Type 0
IsServer port none = Unit
IsServer port (some (c, spec)) = IsServerFor port spec c

abbrev pub IsFaithful : Worker → Type 0
IsFaithful w = IsConsistent w × ((port : ℤ) → IsServer port (served_at w port))

started-IsServer :
    (port : ℤ) (spec : PortSpec) (b : Bool) (n : ℕ) → IsServer port (started port (some spec) b n)
started-IsServer port spec true n = new_child-IsServerFor port spec n
started-IsServer port spec false n = tt

next-IsServer :
    (port : ℤ) (wanted : Option PortSpec) (b : Bool) (n : ℕ) (s : Served)
    → IsServer port s
    → IsServer port (next port wanted b n s)
next-IsServer port none b n none h = tt
next-IsServer port none b n (some (c, old)) h = tt
next-IsServer port (some spec) b n none h = started-IsServer port spec b n
next-IsServer port (some spec) b n (some (c, old)) h = elim (Bool-cases (same_spec spec old)) [
  | inl same ↦ rw same h
  | inr differs ↦ rw differs (started-IsServer port spec b n)
]

do_work-IsFaithful : (m : Message) (w : Worker) → IsFaithful w → IsFaithful (do_work m w).0
unfolding do_work stop_all lookup_at
do_work-IsFaithful (tables_of ports binds) w (consistent, server) =
    let (refines, keeps, _) = reconcile-Refines binds ports w consistent in
    (
      keeps,
      (λ port. subst (IsServer port) (sym (refines port)) (
          next-IsServer port (lookup_at port ports) (binds port) (suc w.round) (served_at w port)
            (server port))),
    )
do_work-IsFaithful done w h = ((λ port. refl), (λ port. tt))

-- Whatever comes after the end, `stopAll` has emptied the maps.
run-IsFaithful : (ms : List Message) (w : Worker) → IsFaithful w → IsFaithful (run ms w)
unfolding run do_work
run-IsFaithful [] w h = h
run-IsFaithful (tables_of ports binds ∷ ms) w h =
    run-IsFaithful ms (reconcile binds ports w) (do_work-IsFaithful (tables_of ports binds) w h)
run-IsFaithful (done ∷ ms) w h = do_work-IsFaithful done w h

initial-IsFaithful : IsFaithful initial
unfolding lookup_at
initial-IsFaithful = ((λ port. refl), (λ port. tt))

-- The message brings tables, and is not the end.
abbrev pub BringsTables : Message → Type 0
BringsTables (tables_of ports binds) = Unit
BringsTables done = ⊥

run-append :
    (ms ns : List Message) (w : Worker) → All BringsTables ms → run (ms ++ ns) w ≡ run ns (run ms w)
unfolding run do_work
run-append [] ns w all = refl
run-append (tables_of ports binds ∷ ms) ns w (_, all) =
    run-append ms ns (reconcile binds ports w) all
run-append (done ∷ ms) ns w (impossible, all) = elim impossible [ ]

next-wanted :
    (port : ℤ) (spec : PortSpec) (n : ℕ) (s : Served)
    → (c : Child) × (next port (some spec) true n s ≡ some (c, spec))
next-wanted port spec n none = (new_child port spec n, refl)
next-wanted port spec n (some (c, old)) = elim (Bool-cases (same_spec spec old)) [
  | inl same ↦ (c, rw same (ap (λ (o : PortSpec). some (c, o)) (sym (same_spec-eq spec old same))))
  | inr differs ↦ (new_child port spec n, rw differs refl)
]

-- Whatever tables have come, starts that failed among them, and the end not among them: once tables
-- come that want a port that can be bound, it is served with its spec, by a server that is for that
-- port and of the protocol that the spec names - TCP, else UDP, else TLS passthrough, else HTTP with or
-- without TLS - and that asks for a preamble exactly if the spec does and it is no UDP server.
pub wanted_served :
    (ms : List Message) (ports : List (ℤ × PortSpec)) (binds : ℤ → Bool) (port : ℤ)
    (spec : PortSpec)
    → All BringsTables ms
    → lookup_at port ports ≡ some spec
    → binds port ≡ true
    → (c : Child) × (served_at (run (ms ++ tables_of ports binds ∷ []) initial) port
        ≡ some (c, spec))
      × IsServerFor port spec c
unfolding run do_work
wanted_served ms ports binds port spec tables wanted bound =
    let before = run ms initial in
    let (consistent, server) = run-IsFaithful ms initial initial-IsFaithful in
    let (refines, keeps, _) = reconcile-Refines binds ports before consistent in
    let (c, made) = next-wanted port spec (suc before.round) (served_at before port) in
    let last : served_at (reconcile binds ports before) port ≡ some (c, spec) =
      refines port
      ∙ ap₂
          (λ (o : Option PortSpec) (b : Bool).
            next port o b (suc before.round) (served_at before port))
          wanted bound
      ∙ made in
    let faithful = do_work-IsFaithful (tables_of ports binds) before (consistent, server) in
    (
      c,
      ap (λ (w : Worker). served_at w port)
            (run-append ms (tables_of ports binds ∷ []) initial tables)
          ∙ last,
      subst (IsServer port) last (faithful.1 port),
    )

all_children-all :
    (l : List (ℤ × Child)) (port : ℤ) (c : Child)
    → lookup_at port l ≡ some c
    → Any (λ d. d ≡ c) (all_children l)
unfolding lookup_at
all_children-all [] port c h = cc
all_children-all ((q, d) ∷ l) port c h = elim (Bool-cases (eq_ℤ q port)) [
  | inl same ↦ inl (ground (arith, h, same))
  | inr other ↦ inr (all_children-all l port c (ground (arith, h, other)))
]

-- At the end every child is stopped, and none is left; later messages are not taken.
pub run-done :
    (ms : List Message) (w : Worker) (port : ℤ) (c : Child)
    → lookup_at port w.children ≡ some c
    → IsStopped c (run (done ∷ ms) w) × ((run (done ∷ ms) w).children ≡ [])
unfolding run do_work stop_all
run-done ms w port c h = (
  Any-append_right (λ d. d ≡ c) w.stopped (all_children w.children)
      (all_children-all w.children port c h),
  refl,
)

-- The message wants the port with this spec.
abbrev pub Wants : ℤ → PortSpec → Message → Type 0
Wants port spec (tables_of ports binds) = lookup_at port ports ≡ some spec
Wants port spec done = ⊥

next-same :
    (port : ℤ) (spec : PortSpec) (b : Bool) (n : ℕ) (c : Child)
    → next port (some spec) b n (some (c, spec)) ≡ some (c, spec)
next-same port spec b n c = rw (same_spec_refl spec) refl

-- As long as every message wants a port with the spec that it is served with, the very same child goes
-- on serving it, whatever becomes of the other ports.
pub served_undisturbed :
    (ms : List Message) (w : Worker) (port : ℤ) (c : Child) (spec : PortSpec)
    → IsConsistent w
    → served_at w port ≡ some (c, spec)
    → All (Wants port spec) ms
    → served_at (run ms w) port ≡ some (c, spec)
unfolding run do_work
served_undisturbed [] w port c spec consistent here all = here
served_undisturbed (tables_of ports binds ∷ ms) w port c spec consistent here (wanted, all) =
    let (refines, keeps, _) = reconcile-Refines binds ports w consistent in
    served_undisturbed ms (reconcile binds ports w) port c spec keeps
      (refines port
        ∙ ap₂ (λ (o : Option PortSpec) (s : Served). next port o (binds port) (suc w.round) s)
            wanted here
        ∙ next-same port spec (binds port) (suc w.round) c)
      all
served_undisturbed (done ∷ ms) w port c spec consistent here (wanted, all) = elim wanted [ ]
