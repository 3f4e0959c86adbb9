-- ===== src/Reload/LastValid.antt =====
-- What a snapshot does to one gateway (worker.go: rebuild).
use krouter.Prelude.{
  ℕ, ◌≡◌, ◌≢◌, refl, sym, ap, ◌∙◌, subst, inl, inr, false, Option, none, some, List, [], ◌∷◌, ◌++◌,
  arith, if◌then◌else◌, All, Bool-cases, Option-cases, is_empty, is_empty_of_ne, Str, codes, str_eq,
  str_eq_iff, str_eq_refl, Result, ok, err, Result-cases,
}
use krouter.Compiled.{Manifest}
use krouter.Http.{lookup_str}
use krouter.Kube.{Object, text_at, label_gateway_uid, label_role}
use krouter.Routing.Types.{GatewayTable}
use krouter.Loading.{RawConfig, LoadError, Codec, load_generation}
use krouter.Reload.{
  Failure, invalid_manifest, load_failed, GatewayStatus, status_of, put, Loader, Round, with_status,
  with_table, reported, fall_back, take_loaded, take_manifest, take_gateway, take_map, take_maps,
  rebuild,
}

pub lookup_str-put :
    {A : Type 0} (k j : Str) (v : A) (m : List (Str × A))
    → lookup_str j (put k v m) ≡ (if str_eq k j then some v else lookup_str j m)
unfolding lookup_str put
lookup_str-put k j v [] = refl
lookup_str-put k j v ((i, w) ∷ m) =
    ground (arith, str_eq_iff k j, str_eq_iff i k, str_eq_iff i j, lookup_str-put k j v m)

-- The ConfigMap is a manifest of the gateway.
abbrev pub IsManifest : Str → Object → Type 0
IsManifest uid cm =
    (text_at label_role cm.labels ≡ codes "manifest") × (text_at label_gateway_uid cm.labels ≡ uid)

-- What a round holds for one gateway.
abbrev pub entries : Str → Round → Option GatewayTable × Option GatewayStatus
entries uid r = (lookup_str uid r.applied, lookup_str uid r.statuses)

module _ (codec : Codec) (loader : Loader) (raw : RawConfig) where
  open codec use {decode_manifest}

  live : Str → Option GatewayTable
  live uid = lookup_str uid loader.applied

  put_entries :
      (uid other : Str) (t : GatewayTable) (s : GatewayStatus) (r : Round)
      → str_eq uid other ≡ false
      → entries other (with_table uid t s r) ≡ entries other r
  put_entries uid other t s r h =
      rw (lookup_str-put uid other t r.applied, lookup_str-put uid other s r.statuses, h)

  put_status :
      (uid other : Str) (s : GatewayStatus) (r : Round)
      → str_eq uid other ≡ false
      → entries other (with_status uid s r) ≡ entries other r
  put_status uid other s r h = rw (lookup_str-put uid other s r.statuses, h)

  fall_back-other :
      (uid other desired : Str) (failure : Failure) (previous : Option GatewayTable) (r : Round)
      → str_eq uid other ≡ false
      → entries other (fall_back codec loader raw uid desired failure previous r) ≡ entries other r
  unfolding fall_back
  fall_back-other uid other desired failure (some t) r h = put_entries uid other t _ r h
  fall_back-other uid other desired failure none r h = put_status uid other _ r h

  take_loaded-other :
      (uid other desired : Str) (previous : Option GatewayTable)
      (result : Result LoadError (GatewayTable × ℕ)) (r : Round)
      → str_eq uid other ≡ false
      → entries other (take_loaded codec loader raw uid desired previous result r) ≡ entries other r
  unfolding take_loaded
  take_loaded-other uid other desired previous (ok (t, next)) r h =
      put_entries uid other t _ (record r { next = next }) h
  take_loaded-other uid other desired previous (err e) r h =
      fall_back-other uid other desired (load_failed e) previous r h

  take_manifest-other :
      (uid other : Str) (m : Manifest) (previous : Option GatewayTable) (r : Round)
      → str_eq uid other ≡ false
      → entries other (take_manifest codec loader raw uid m previous r) ≡ entries other r
  unfolding take_manifest
  take_manifest-other uid other m none r h =
      take_loaded-other uid other m.generation none (load_generation codec r.next m raw none) r h
  take_manifest-other uid other m (some t) r h =
      elim (Bool-cases (str_eq t.generation m.generation)) [
        | inl same ↦ rw same (put_entries uid other t _ r h)
        | inr new ↦ rw new (
            take_loaded-other uid other m.generation (some t)
              (load_generation codec r.next m raw (some t)) r h)
      ]

  take_gateway-other :
      (uid other : Str) (cm : Object) (r : Round)
      → str_eq uid other ≡ false
      → entries other (take_gateway codec loader raw uid cm r) ≡ entries other r
  unfolding take_gateway
  take_gateway-other uid other cm r h =
      elim (Option-cases (decode_manifest (text_at (codes "manifest.json") cm.data_of))) [
        | inl bad ↦
            rw (bad, take_gateway)
              (fall_back-other uid other [] invalid_manifest (lookup_str uid loader.applied) r h)
        | inr (m, good) ↦
            rw (good, take_gateway)
              (take_manifest-other uid other m (lookup_str uid loader.applied) r h)
      ]

  -- A ConfigMap that is no manifest of a gateway does not touch what a round holds for it.
  take_map-other :
      (uid : Str) (cm : Object) (r : Round)
      → ¬ IsManifest uid cm
      → entries uid (take_map codec loader raw cm r) ≡ entries uid r
  unfolding take_map
  take_map-other uid cm r h =
      let role = text_at label_role cm.labels in
      let owner = text_at label_gateway_uid cm.labels in
      elim (Bool-cases (str_eq role (codes "manifest"))) [
        | inr other ↦ rw other refl
        | inl manifest ↦ elim (Bool-cases (is_empty owner)) [
          | inl empty ↦ rw (manifest, empty) refl
          | inr named ↦ elim (Bool-cases (str_eq owner uid)) [
            | inl mine ↦
                absurd (
                  h (
                    (str_eq_iff role (codes "manifest")).0 manifest,
                    (str_eq_iff owner uid).0 mine,
                  ))
            | inr theirs ↦ rw (manifest, named) (take_gateway-other owner uid cm r theirs)
          ]
        ]
      ]

  take_maps-other :
      (uid : Str) (cms : List (Str × Object)) (r : Round)
      → All (λ named. ¬ IsManifest uid named.1) cms
      → entries uid (take_maps codec loader raw cms r) ≡ entries uid r
  unfolding take_maps
  take_maps-other uid [] r h = refl
  take_maps-other uid ((name, cm) ∷ cms) r h =
      take_maps-other uid cms (take_map codec loader raw cm r) h.1 ∙ take_map-other uid cm r h.0

  take_maps-append :
      (xs ys : List (Str × Object)) (r : Round)
      → take_maps codec loader raw (xs ++ ys) r
        ≡ take_maps codec loader raw ys (take_maps codec loader raw xs r)
  unfolding take_maps
  take_maps-append [] ys r = refl
  take_maps-append ((name, cm) ∷ xs) ys r = take_maps-append xs ys (take_map codec loader raw cm r)

  -- The generation that is reported as applied after a failure.
  abbrev pub still_applied : Str → Option GatewayTable → Str
  still_applied uid none = reported (lookup_str uid loader.statuses)
  still_applied uid (some t) = t.generation

  -- The generation of the manifest is not live yet.
  abbrev pub IsNew : Option GatewayTable → Manifest → Type 0
  IsNew none m = Unit
  IsNew (some old) m = old.generation ≢ m.generation

  -- Why a manifest brings nothing new, with the generation that it asked for.
  pub data Fails (uid : Str) (cm : Object) (desired : Str) (failure : Failure) : Type 0 where
    bad_manifest :
        decode_manifest (text_at (codes "manifest.json") cm.data_of) ≡ none
        → desired ≡ []
        → failure ≡ invalid_manifest
        → Fails uid cm desired failure
    bad_generation :
        (m : Manifest) (next : ℕ) (e : LoadError)
        → decode_manifest (text_at (codes "manifest.json") cm.data_of) ≡ some m
        → IsNew (lookup_str uid loader.applied) m
        → load_generation codec next m raw (lookup_str uid loader.applied) ≡ err e
        → desired ≡ m.generation
        → failure ≡ load_failed e
        → Fails uid cm desired failure

  -- What a gateway's manifest makes of its live tables and its status.
  pub data Outcome (uid : Str) (cm : Object) (t : Option GatewayTable) (s : Option GatewayStatus)
      : Type 0 where
    keeps :
        (m : Manifest) (old : GatewayTable)
        → decode_manifest (text_at (codes "manifest.json") cm.data_of) ≡ some m
        → lookup_str uid loader.applied ≡ some old
        → old.generation ≡ m.generation
        → t ≡ some old
        → s ≡ some (status_of m.generation m.generation none)
        → Outcome uid cm t s
    loads :
        (m : Manifest) (next : ℕ) (new : GatewayTable) (rest : ℕ)
        → decode_manifest (text_at (codes "manifest.json") cm.data_of) ≡ some m
        → IsNew (lookup_str uid loader.applied) m
        → load_generation codec next m raw (lookup_str uid loader.applied) ≡ ok (new, rest)
        → t ≡ some new
        → s ≡ some (status_of m.generation m.generation none)
        → Outcome uid cm t s
    fails :
        (desired : Str) (failure : Failure)
        → Fails uid cm desired failure
        → t ≡ lookup_str uid loader.applied
        → s
          ≡ some
              (status_of desired (still_applied uid (lookup_str uid loader.applied)) (some failure))
        → Outcome uid cm t s

  abbrev OutcomeIn : Str → Object → Option GatewayTable × Option GatewayStatus → Type 0
  OutcomeIn uid cm p = Outcome uid cm p.0 p.1

  with_table-entries :
      (uid : Str) (t : GatewayTable) (s : GatewayStatus) (r : Round)
      → entries uid (with_table uid t s r) ≡ (some t, some s)
  with_table-entries uid t s r =
      rw (lookup_str-put uid uid t r.applied, lookup_str-put uid uid s r.statuses, str_eq_refl uid)

  fall_back-entries :
      (uid desired : Str) (failure : Failure) (previous : Option GatewayTable) (r : Round)
      → lookup_str uid r.applied ≡ none
      → entries uid (fall_back codec loader raw uid desired failure previous r)
        ≡ (previous, some (status_of desired (still_applied uid previous) (some failure)))
  unfolding fall_back
  fall_back-entries uid desired failure (some t) r fresh = with_table-entries uid t _ r
  fall_back-entries uid desired failure none r fresh =
      let s = status_of desired (reported (lookup_str uid loader.statuses)) (some failure) in
      rw (lookup_str-put uid uid s r.statuses, str_eq_refl uid, fresh)

  Fails-Outcome :
      (uid desired : Str) (cm : Object) (failure : Failure) (previous : Option GatewayTable)
      (r : Round)
      → lookup_str uid r.applied ≡ none
      → lookup_str uid loader.applied ≡ previous
      → Fails uid cm desired failure
      → OutcomeIn uid cm (entries uid (fall_back codec loader raw uid desired failure previous r))
  Fails-Outcome uid desired cm failure previous r fresh at why =
      subst (OutcomeIn uid cm) (sym (fall_back-entries uid desired failure previous r fresh)) (
        fails desired failure why (sym at)
          (ap (λ p. some (status_of desired (still_applied uid p) (some failure))) (sym at)))

  take_loaded-Outcome :
      (uid : Str) (cm : Object) (m : Manifest) (previous : Option GatewayTable) (r : Round)
      → lookup_str uid r.applied ≡ none
      → lookup_str uid loader.applied ≡ previous
      → decode_manifest (text_at (codes "manifest.json") cm.data_of) ≡ some m
      → IsNew previous m
      → OutcomeIn uid cm (
          entries uid (
            take_loaded codec loader raw uid m.generation previous
              (load_generation codec r.next m raw previous)
              r))
  unfolding take_loaded
  take_loaded-Outcome uid cm m previous r fresh at good new_one =
      let loading : load_generation codec r.next m raw (lookup_str uid loader.applied)
          ≡ load_generation codec r.next m raw previous =
        ap (load_generation codec r.next m raw) at in
      let due = subst (λ o. IsNew o m) (sym at) new_one in
      elim (Result-cases (load_generation codec r.next m raw previous)) [
        | inl ((new, rest), built) ↦
            rw (built, take_loaded)
              (subst (OutcomeIn uid cm)
                (sym (
                  with_table-entries uid new (status_of m.generation m.generation none)
                    (record r { next = rest })))
                (loads m r.next new rest good due (loading ∙ built) refl refl))
        | inr (e, bad) ↦
            rw (bad, take_loaded)
              (Fails-Outcome uid m.generation cm (load_failed e) previous r fresh at
                (bad_generation m r.next e good due (loading ∙ bad) refl refl))
      ]

  take_manifest-Outcome :
      (uid : Str) (cm : Object) (m : Manifest) (previous : Option GatewayTable) (r : Round)
      → lookup_str uid r.applied ≡ none
      → lookup_str uid loader.applied ≡ previous
      → decode_manifest (text_at (codes "manifest.json") cm.data_of) ≡ some m
      → OutcomeIn uid cm (entries uid (take_manifest codec loader raw uid m previous r))
  unfolding take_manifest
  take_manifest-Outcome uid cm m none r fresh at good =
      take_loaded-Outcome uid cm m none r fresh at good tt
  take_manifest-Outcome uid cm m (some t) r fresh at good =
      elim (Bool-cases (str_eq t.generation m.generation)) [
        | inr new ↦ rw new (
            take_loaded-Outcome uid cm m (some t) r fresh at good
              (λ e. cc (new, (str_eq_iff t.generation m.generation).1 e)))
        | inl same ↦ rw same (
            subst (OutcomeIn uid cm)
              (sym (with_table-entries uid t (status_of m.generation m.generation none) r))
              (keeps m t good at ((str_eq_iff t.generation m.generation).0 same) refl refl))
      ]

  take_map-Outcome :
      (uid : Str) (cm : Object) (r : Round)
      → uid ≢ []
      → IsManifest uid cm
      → lookup_str uid r.applied ≡ none
      → OutcomeIn uid cm (entries uid (take_map codec loader raw cm r))
  unfolding take_map take_gateway
  take_map-Outcome uid cm r named (role, owner) fresh =
      rw (role, str_eq_refl (codes "manifest"), owner, is_empty_of_ne uid named)
        (elim (Option-cases (decode_manifest (text_at (codes "manifest.json") cm.data_of))) [
          | inl bad ↦
              rw (bad, take_gateway)
                (Fails-Outcome uid [] cm invalid_manifest (lookup_str uid loader.applied) r fresh
                  refl (bad_manifest bad refl refl))
          | inr (m, good) ↦
              rw (good, take_gateway)
                (take_manifest-Outcome uid cm m (lookup_str uid loader.applied) r fresh refl good)
        ])

-- For a named gateway with one manifest among the ConfigMaps of a snapshot, that manifest alone
-- decides. A generation that is live already keeps its very tables and is not loaded again; only
-- another one is loaded, against the live tables, and served if that succeeds; where the manifest does not decode or the load fails, the live
-- tables of the gateway stay as they are and the status reports the error beside the generation that
-- is still applied. No other object, and no error of another gateway, has a part in it.
pub rebuild-Outcome :
    (codec : Codec) (raw : RawConfig) (loader : Loader) (uid name : Str) (cm : Object)
    (before after : List (Str × Object))
    → uid ≢ []
    → raw.config_maps ≡ before ++ (name, cm) ∷ after
    → IsManifest uid cm
    → All (λ named. ¬ IsManifest uid named.1) before
    → All (λ named. ¬ IsManifest uid named.1) after
    → let next = rebuild codec raw loader in
      Outcome codec loader raw uid cm (lookup_str uid next.applied) (lookup_str uid next.statuses)
unfolding rebuild take_maps lookup_str
rebuild-Outcome codec raw loader uid name cm before after named split mine first last =
    let start : Round = record { applied = []; statuses = []; next = loader.next } in
    let r = take_maps codec loader raw before start in
    let untouched = take_maps-other codec loader raw uid before start first in
    let all : take_maps codec loader raw raw.config_maps start
        ≡ take_maps codec loader raw after (take_map codec loader raw cm r) =
      ap (λ l. take_maps codec loader raw l start) split
      ∙ take_maps-append codec loader raw before ((name, cm) ∷ after) start in
    subst (OutcomeIn codec loader raw uid cm)
      (sym (
        ap (entries uid) all
        ∙ take_maps-other codec loader raw uid after (take_map codec loader raw cm r) last))
      (take_map-Outcome codec loader raw uid cm r named mine (ap (λ p. p.0) untouched))
