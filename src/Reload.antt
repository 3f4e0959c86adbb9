-- ===== src/Reload.antt =====
-- The loader of the data plane (internal/app/dataplane/loader/worker.go: rebuild): what it does with
-- each snapshot of the generated objects. Metrics, logs and mailboxes are left out; the tables and
-- the statuses that it publishes are part of its state.
pub mod LastValid
use krouter.Prelude.{
  ℕ, not, Bool, true, false, ◌&&◌, Option, none, some, List, [], ◌∷◌, if◌then◌else◌, is_empty, Str,
  codes, str_eq, Result, ok, err,
}
use krouter.Compiled.{Manifest}
use krouter.Http.{lookup_str}
use krouter.Kube.{Object, text_at, label_gateway_uid, label_role}
use krouter.Routing.Types.{GatewayTable, Tables}
use krouter.Routing.Build.{merge_tables}
use krouter.Loading.{RawConfig, LoadError, Codec, load_generation}

-- `GatewayStatus.LastError`.
pub data Failure : Type 0 where
  invalid_manifest : Failure
  load_failed : LoadError → Failure

pub record GatewayStatus : Type 0 where
  pub desired_generation : Str
  pub applied_generation : Str
  pub last_error : Option Failure

-- `m[k] = v`
unfoldable pub put : {A : Type 0} → Str → A → List (Str × A) → List (Str × A)
put k v [] = (k, v) ∷ []
put k v ((j, w) ∷ m) = let rest = put k v m in if str_eq j k then (k, v) ∷ m else (j, w) ∷ rest

-- What the worker keeps from one snapshot to the next: the live tables of each gateway, and the
-- published statuses and tables. `next` is the first free address.
pub record Loader : Type 0 where
  pub applied : List (Str × GatewayTable)
  pub statuses : List (Str × GatewayStatus)
  pub tables : Tables
  pub next : ℕ

-- The loop variables of `rebuild`: the new `applied` and `statuses`.
pub record Round : Type 0 where
  pub applied : List (Str × GatewayTable)
  pub statuses : List (Str × GatewayStatus)
  pub next : ℕ

abbrev pub status_of : Str → Str → Option Failure → GatewayStatus
status_of desired applied failure = record {
  desired_generation = desired;
  applied_generation = applied;
  last_error = failure;
}

abbrev pub with_status : Str → GatewayStatus → Round → Round
with_status uid status r = record r { statuses = put uid status r.statuses }

abbrev pub with_table : Str → GatewayTable → GatewayStatus → Round → Round
with_table uid table status r = record r {
  applied = put uid table r.applied;
  statuses = put uid status r.statuses;
}

-- The generation that the published status names, where no table is live.
abbrev pub reported : Option GatewayStatus → Str
reported none = []
reported (some s) = s.applied_generation

module _ (codec : Codec) (loader : Loader) (raw : RawConfig) where
  open codec use {decode_manifest}

  -- `previous` is `w.applied[uid]`. A generation that cannot be loaded leaves the last one.
  unfoldable pub fall_back : Str → Str → Failure → Option GatewayTable → Round → Round
  fall_back uid desired failure (some t) r =
      with_table uid t (status_of desired t.generation (some failure)) r
  fall_back uid desired failure none r =
      with_status uid (status_of desired (reported (lookup_str uid loader.statuses)) (some failure))
        r

  unfoldable pub take_loaded :
      Str → Str → Option GatewayTable → Result LoadError (GatewayTable × ℕ) → Round → Round
  unfolding fall_back
  take_loaded uid desired previous (ok (t, next)) r =
      with_table uid t (status_of desired desired none) (record r { next = next })
  take_loaded uid desired previous (err e) r = fall_back uid desired (load_failed e) previous r

  -- A decoded manifest: a generation that is live already keeps its table.
  unfoldable pub take_manifest : Str → Manifest → Option GatewayTable → Round → Round
  unfolding take_loaded
  take_manifest uid manifest none r =
      take_loaded uid manifest.generation none (load_generation codec r.next manifest raw none) r
  take_manifest uid manifest (some t) r =
      if str_eq t.generation manifest.generation
      then with_table uid t (status_of manifest.generation manifest.generation none) r
      else take_loaded uid manifest.generation (some t)
          (load_generation codec r.next manifest raw (some t)) r

  unfoldable pub take_gateway : Str → Object → Round → Round
  unfolding take_manifest
  take_gateway uid cm r = elim (decode_manifest (text_at (codes "manifest.json") cm.data_of)) [
    | none ↦ fall_back uid [] invalid_manifest (lookup_str uid loader.applied) r
    | some manifest ↦ take_manifest uid manifest (lookup_str uid loader.applied) r
  ]

  -- The body of the loop of `rebuild`: only manifests with a gateway are looked at.
  unfoldable pub take_map : Object → Round → Round
  unfolding take_gateway
  take_map cm r =
      let uid = text_at label_gateway_uid cm.labels in
      if not (str_eq (text_at label_role cm.labels) (codes "manifest"))
      then r
      else if is_empty uid
      then r
      else take_gateway uid cm r

  unfoldable pub take_maps : List (Str × Object) → Round → Round
  unfolding take_map
  take_maps [] r = r
  take_maps ((_, cm) ∷ cms) r = take_maps cms (take_map cm r)

abbrev pub publish : Round → Loader
publish r = record {
  applied = r.applied;
  statuses = r.statuses;
  tables = merge_tables r.applied;
  next = r.next;
}

-- `rebuild`; the order of the list is that in which the map is gone through.
unfoldable pub rebuild : Codec → RawConfig → Loader → Loader
unfolding take_maps
rebuild codec raw loader = publish (
    take_maps codec loader raw raw.config_maps
      (record { applied = []; statuses = []; next = loader.next }))
