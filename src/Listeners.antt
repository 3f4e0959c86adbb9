-- ===== src/Listeners.antt =====
-- The supervisor of the listeners (internal/app/dataplane/listeners/worker.go). Whether a port can be
-- bound is an argument of each round. A child is told apart by its port and by the round that started
-- it.
pub mod Maps
pub mod Round
pub mod History
use krouter.Prelude.{
  ℕ, suc, ◌+◌, ℤ, Bool, true, false, not, ◌&&◌, ◌||◌, Option, none, some, is_some, List, [], ◌∷◌,
  ◌++◌, if◌then◌else◌, bool_eq,
}
use krouter.Routing.Types.{PortSpec}
use krouter.Listeners.Maps.{lookup_at, put_at, remove_at}

-- The servers: tcpserver, udpserver, tlsserver, and portserver with or without TLS.
pub data Kind : Type 0 where
  tcp udp tls_passthrough : Kind
  http : Bool → Kind

-- `guarded` tells whether connections have to carry a preamble of the proxy protocol, from a peer
-- that the live tables trust.
pub record Child : Type 0 where
  pub port : ℤ
  pub kind : Kind
  pub guarded : Bool
  pub since : ℕ

-- `children` and `specs`, the rounds so far, and the children on which Stop was called.
pub record Worker : Type 0 where
  pub children : List (ℤ × Child)
  pub specs : List (ℤ × PortSpec)
  pub round : ℕ
  pub stopped : List Child

-- `==` on a PortSpec
unfoldable pub same_spec : PortSpec → PortSpec → Bool
same_spec a b =
    bool_eq a.tls b.tls
    && (bool_eq a.tcp b.tcp
        && (bool_eq a.udp b.udp
            && (bool_eq a.tls_passthrough b.tls_passthrough
                && bool_eq a.proxy_protocol b.proxy_protocol)))

-- Reading a missing key of `specs`.
abbrev pub zero_spec : PortSpec
zero_spec = record {
  tls = false;
  tcp = false;
  udp = false;
  tls_passthrough = false;
  proxy_protocol = false;
}

abbrev pub spec_or_zero : Option PortSpec → PortSpec
spec_or_zero none = zero_spec
spec_or_zero (some spec) = spec

-- The `switch` that makes a server. A UDP server takes no trust.
unfoldable pub kind_of : PortSpec → Kind
kind_of spec =
    if spec.tcp
    then tcp
    else if spec.udp
    then udp
    else if spec.tls_passthrough
    then tls_passthrough
    else http spec.tls

unfoldable pub new_child : ℤ → PortSpec → ℕ → Child
unfolding kind_of
new_child port spec round = record {
  port = port;
  kind = kind_of spec;
  guarded = spec.proxy_protocol && (spec.tcp || not spec.udp);
  since = round;
}

-- The test of the first loop: the port is wanted with the spec that it has.
unfoldable pub current_at : Option PortSpec → Option PortSpec → Bool
unfolding same_spec
current_at none old = false
current_at (some spec) old = same_spec spec (spec_or_zero old)

unfoldable pub is_current : List (ℤ × PortSpec) → List (ℤ × PortSpec) → ℤ → Bool
is_current ports specs port = current_at (lookup_at port ports) (lookup_at port specs)

abbrev pub stop_child : ℤ → Child → Worker → Worker
stop_child port child w = record w {
  children = remove_at port w.children;
  specs = remove_at port w.specs;
  stopped = w.stopped ++ child ∷ [];
}

-- The first loop of `reconcile`, over the children that there are.
unfoldable pub stop_loop : List (ℤ × PortSpec) → List (ℤ × Child) → Worker → Worker
unfolding is_current remove_at
stop_loop ports [] w = w
stop_loop ports ((port, child) ∷ children) w =
    stop_loop ports children (if is_current ports w.specs port then w else stop_child port child w)

abbrev pub start_child : ℤ → PortSpec → Worker → Worker
start_child port spec w = record w {
  children = put_at port (new_child port spec w.round) w.children;
  specs = put_at port spec w.specs;
}

-- The second loop, over the wanted ports. A port that cannot be bound is left for another round.
unfoldable pub start_loop : (ℤ → Bool) → List (ℤ × PortSpec) → Worker → Worker
unfolding lookup_at put_at new_child
start_loop binds [] w = w
start_loop binds ((port, spec) ∷ ports) w = start_loop binds ports (
    if is_some (lookup_at port w.children)
    then w
    else if not (binds port)
    then w
    else start_child port spec w)

-- `reconcile`
unfoldable pub reconcile : (ℤ → Bool) → List (ℤ × PortSpec) → Worker → Worker
unfolding stop_loop start_loop
reconcile binds ports w =
    start_loop binds ports (stop_loop ports w.children (record w { round = suc w.round }))

abbrev pub all_children : List (ℤ × Child) → List Child
all_children [] = []
all_children ((_, child) ∷ children) = child ∷ all_children children

-- `stopAll`
unfoldable pub stop_all : Worker → Worker
stop_all w = record w { children = []; specs = []; stopped = w.stopped ++ all_children w.children }

abbrev pub initial : Worker
initial = record { children = []; specs = []; round = 0; stopped = [] }

-- What `DoWork` takes: new tables, with the ports that can be bound then, or the end.
pub data Message : Type 0 where
  tables_of : List (ℤ × PortSpec) → (ℤ → Bool) → Message
  done : Message

-- actor.WorkerStatus: whether the actor calls `DoWork` again.
pub data WorkerStatus : Type 0 where
  worker_continue worker_end : WorkerStatus

-- `DoWork`
unfoldable pub do_work : Message → Worker → Worker × WorkerStatus
unfolding reconcile stop_all
do_work (tables_of ports binds) w = (reconcile binds ports w, worker_continue)
do_work done w = (stop_all w, worker_end)
