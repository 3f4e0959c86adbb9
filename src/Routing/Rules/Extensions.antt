-- ===== src/Routing/Rules/Extensions.antt =====
-- The extensions of a built rule (build.go: BuildGatewayTable, buildAuthEnforcer).
use krouter.Prelude.{
  ◌≡◌, refl, ◌⊎◌, inl, inr, Bool, true, false, not, ◌&&◌, ◌||◌, Option, none, some, [], ◌∷◌, arith,
  Bool-cases, Option-cases, is_empty, Str,
}
use krouter.Compiled.{Auth, Rule}
use krouter.Http.{lookup_str}
use krouter.Kube.{Object, auth_secret_key}
use krouter.Routing.Types.{Certificate, RuleTable}
use krouter.Routing.Backends.{Toolkit}
use krouter.Routing.Rules.{Effects, build_rule, waf_of, auth_of, build_auth_enforcer, is_none}

no_mark : (a b c : Bool) → (a || (b || c)) ≡ false → (a ≡ false) × (b ≡ false) × (c ≡ false)
no_mark a b c h = ground arith

module _ (tk : Toolkit) where
  open tk use {is_waf_program, decode_auth, is_auth_usable}

  -- The document of the extension is in the generation's Secret, decodes, and can be set up.
  abbrev pub IsHydrated : Str → Option Object → Auth → Type 0
  IsHydrated identity secret auth =
      (obj : Object) × (secret ≡ some obj)
      × (payload : Str) × (lookup_str (auth_secret_key identity) obj.data_of ≡ some payload)
      × (decode_auth payload ≡ some auth)
      × (is_auth_usable auth ≡ true)

  build_auth_enforcer_sound :
      (identity : Str) (secret : Option Object) (auth : Auth)
      → build_auth_enforcer tk identity secret ≡ some auth
      → IsHydrated identity secret auth
  unfolding build_auth_enforcer
  build_auth_enforcer_sound identity none auth h = cc
  build_auth_enforcer_sound identity (some obj) auth h =
      elim (Option-cases (lookup_str (auth_secret_key identity) obj.data_of)) [
        | inl missing ↦
            let no_value : none ≡ some auth = rw (missing, build_auth_enforcer) at h in cc
        | inr (payload, found) ↦ elim (Option-cases (decode_auth payload)) [
          | inl bad ↦
              let no_value : none ≡ some auth = rw (found, bad, build_auth_enforcer) at h in cc
          | inr (config, good) ↦ elim (Bool-cases (is_auth_usable config)) [
            | inr broken ↦
                let no_value : none ≡ some auth =
                  rw (found, good, build_auth_enforcer, broken) at h in
                cc
            | inl usable ↦
                let value : some config ≡ some auth =
                  rw (found, good, build_auth_enforcer, usable) at h in
                let same : config ≡ auth = cc in
                (obj, refl, payload, found, rw (← same) good, rw (← same) usable)
          ]
        ]
      ]

  -- The firewall program runs, if there is one, and the authentication extension is set up from the
  -- Secret, if there is one; nothing else of the kind is enforced.
  abbrev pub Enforces : Rule → Option Object → RuleTable → Type 0
  Enforces rule secret out =
      (((rule.waf ≡ []) × (out.waf_engine ≡ none))
        ⊎ ((is_waf_program rule.waf ≡ true) × (out.waf_engine ≡ some rule.waf)))
      × (((rule.auth ≡ []) × (out.auth_enforcer ≡ none))
          ⊎ ((auth : Auth) × (out.auth_enforcer ≡ some auth) × IsHydrated rule.auth secret auth))

  waf_enforced :
      (program : Str)
      → not (is_empty program) && is_none (waf_of tk program) ≡ false
      → ((program ≡ []) × (waf_of tk program ≡ none))
        ⊎ ((is_waf_program program ≡ true) × (waf_of tk program ≡ some program))
  unfolding waf_of
  waf_enforced [] h = inl (refl, refl)
  waf_enforced (c ∷ s) h = inr (ground arith)

  auth_enforced :
      (identity : Str) (secret : Option Object)
      → not (is_empty identity) && is_none (auth_of tk identity secret) ≡ false
      → ((identity ≡ []) × (auth_of tk identity secret ≡ none))
        ⊎ ((auth : Auth) × (auth_of tk identity secret ≡ some auth)
            × IsHydrated identity secret auth)
  unfolding auth_of
  auth_enforced [] secret h = inl (refl, refl)
  auth_enforced (c ∷ s) secret h = elim (Option-cases (build_auth_enforcer tk (c ∷ s) secret)) [
    | inl missing ↦ let marked : true ≡ false = rw missing at h in cc
    | inr (auth, found) ↦ inr (auth, found, build_auth_enforcer_sound (c ∷ s) secret auth found)
  ]

  -- A built rule fails closed: if it is not marked as invalid, then its configuration did not mark it,
  -- its firewall program was compiled, and the document of its authentication extension was found in
  -- the Secret, decoded and set up, each where the configuration names one.
  pub build_rule-Enforces :
      (cert : Option Certificate) (sum : Str) (secret : Option Object) (grpc : Bool) (rule : Rule)
      (e : Effects)
      → let out = (build_rule tk cert sum secret grpc rule e).0 in
        out.extensions_invalid ≡ false
        → (rule.extensions_invalid ≡ false) × Enforces rule secret out
  unfolding build_rule
  build_rule-Enforces cert sum secret grpc rule e h =
      let (unmarked, waf_ok, auth_ok) = no_mark rule.extensions_invalid _ _ h in
      (unmarked, (waf_enforced rule.waf waf_ok, auth_enforced rule.auth secret auth_ok))
