-- ===== src/Routing/Rules/Weights.antt =====
-- The backends of a built rule, and the total of their weights.
use krouter.Prelude.{
  ℕ, ◌+◌, ◌^◌, ◌<◌, ◌≡◌, refl, sym, ap, ◌∙◌, subst, inl, inr, wrap_int64-small, ℤ, pos, negsuc,
  pos_part, neg_part, ◌+ℤ◌, leb_ℤ, wrap_int64, not, Bool, false, Option, none, some, List, [], ◌∷◌,
  ◌++◌, map, append_assoc, append-nil, arith, All-append, Bool-cases, filter_by, Str,
}
use mathlib.Core.List.{map-append}
use krouter.Compiled.{Backend, backend_of, BackendTls, Rule}
use krouter.Kube.{Object}
use krouter.Routing.Types.{Certificate, Transport, BackendTable, RuleTable}
use krouter.Routing.Balance.Round.{AreWeights, sum_weights}
use krouter.Routing.Backends.{Toolkit, Store, build_backend, secure, dial_with}
use krouter.Routing.Rules.{Effects, ref_of, built_backend, add_backends, build_rule}

-- What a backend reference names, and its share.
pub record Target : Type 0 where
  pub namespace : Str
  pub name : Str
  pub port : ℤ
  pub weight : ℤ
  pub is_valid : Bool

abbrev pub target_of : BackendTable → Target
target_of b = record {
  namespace = b.namespace;
  name = b.name;
  port = b.port;
  weight = b.weight;
  is_valid = b.is_valid;
}

abbrev pub compiled_target : Backend → Target
compiled_target b =
    let ref = ref_of b in
    record {
      namespace = ref.namespace;
      name = ref.name;
      port = ref.port;
      weight = ref.weight;
      is_valid = ref.is_valid;
    }

abbrev pub has_weight : Backend → Bool
has_weight b = not (leb_ℤ (ref_of b).weight (pos 0))

-- The compiled backends with a positive weight.
abbrev pub weighted : List Backend → List Backend
weighted = filter_by has_weight

abbrev pub sum_compiled : List Backend → ℕ
sum_compiled [] = 0
sum_compiled (b ∷ bs) = pos_part (ref_of b).weight + sum_compiled bs

-- The backends of a rule share its total by weights that are not negative.
abbrev pub IsBalanced : RuleTable → Type 0
IsBalanced rule = AreWeights rule.backends × (rule.total ≡ pos (sum_weights rule.backends))

module _ (tk : Toolkit) (cert : Option Certificate) (sum : Str) where
  dial_with-target :
      (tls : BackendTls) (key : Str) (found : Option Transport) (entry : BackendTable) (st : Store)
      → target_of (dial_with tk cert sum tls key found entry st).0 ≡ target_of entry
  unfolding dial_with
  dial_with-target tls key (some t) entry st = refl
  dial_with-target tls key none entry st = ground arith

  secure-target :
      (tls : Option BackendTls) (entry : BackendTable) (st : Store)
      → target_of (secure tk cert sum tls entry st).0 ≡ target_of entry
  unfolding secure
  secure-target none entry st = refl
  secure-target (some tls) entry st = elim (Bool-cases tls.invalid) [
    | inl bad ↦ rw bad refl
    | inr good ↦ rw good (dial_with-target tls _ _ entry st)
  ]

  build_backend-target :
      (b : Backend) (st : Store) → target_of (build_backend tk cert sum b st).0 ≡ compiled_target b
  unfolding build_backend
  build_backend-target (backend_of ref _) st = secure-target ref.tls _ _

  add_backends-targets :
      (bs : List Backend) (acc : List BackendTable) (total : ℤ) (e : Effects)
      → map target_of (add_backends tk cert sum bs acc total e).0
        ≡ map target_of acc ++ map compiled_target (weighted bs)
  unfolding add_backends
  add_backends-targets [] acc total e = sym (append-nil _)
  add_backends-targets (b ∷ bs) acc total e = elim (Bool-cases (leb_ℤ (ref_of b).weight (pos 0))) [
    | inl skip ↦ rw skip (add_backends-targets bs acc total e)
    | inr keep ↦
        let out = built_backend tk cert sum b e in
        rw keep (
          add_backends-targets bs (acc ++ out.0 ∷ []) (wrap_int64 (total +ℤ (ref_of b).weight))
            out.1
          ∙ ap (λ l. l ++ map compiled_target (weighted bs)) (map-append target_of acc (out.0 ∷ []))
          ∙ append_assoc (map target_of acc) (target_of out.0 ∷ [])
              (map compiled_target (weighted bs))
          ∙ ap (λ t. map target_of acc ++ t ∷ map compiled_target (weighted bs))
              (build_backend-target b e.store))
  ]

  weight_of :
      (b : Backend) (st : Store) → (build_backend tk cert sum b st).0.weight ≡ (ref_of b).weight
  weight_of b st = ap (λ (t : Target). t.weight) (build_backend-target b st)

  sum_weights-append :
      (xs ys : List BackendTable) → sum_weights (xs ++ ys) ≡ sum_weights xs + sum_weights ys
  sum_weights-append [] ys = omega arith
  sum_weights-append (x ∷ xs) ys = omega (arith, sum_weights-append xs ys)

  pos_add : (n k : ℕ) → pos n +ℤ pos k ≡ pos (n + k)
  unfolding ◌+ℤ◌
  pos_add n k = ground arith

  add_total :
      (n : ℕ) (w : ℤ)
      → leb_ℤ w (pos 0) ≡ false
      → n + pos_part w < 2 ^ 63
      → (wrap_int64 (pos n +ℤ w) ≡ pos (n + pos_part w)) × (neg_part w ≡ 0)
  unfolding ◌+ℤ◌
  add_total n (pos k) h room = (ap wrap_int64 (pos_add n k) ∙ wrap_int64-small (n + k) room, refl)
  add_total n (negsuc k) h room = absurd (ground arith)

  -- The loop over the backends keeps what it has collected balanced.
  add_backends-balanced :
      (bs : List Backend) (acc : List BackendTable) (e : Effects)
      → AreWeights acc
      → sum_weights acc + sum_compiled bs < 2 ^ 63
      → let out = add_backends tk cert sum bs acc (pos (sum_weights acc)) e in
        AreWeights out.0 × (out.1 ≡ pos (sum_weights out.0))
  unfolding add_backends
  add_backends-balanced [] acc e weights room = (weights, refl)
  add_backends-balanced (b ∷ bs) acc e weights room =
      elim (Bool-cases (leb_ℤ (ref_of b).weight (pos 0))) [
        | inl skip ↦ rw skip (add_backends-balanced bs acc e weights (omega arith))
        | inr keep ↦
            let out = built_backend tk cert sum b e in
            let same = weight_of b e.store in
            let (total, positive) =
              add_total (sum_weights acc) (ref_of b).weight keep (omega arith) in
            let more : sum_weights (acc ++ out.0 ∷ [])
                ≡ sum_weights acc + pos_part (ref_of b).weight =
              sum_weights-append acc (out.0 ∷ [])
              ∙ ap (λ w. sum_weights acc + (pos_part w + 0)) same
              ∙ omega arith in
            rw (keep, total, ← more)
              (add_backends-balanced bs (acc ++ out.0 ∷ []) out.1
                (All-append _ acc (out.0 ∷ []) weights
                  (subst (λ w. neg_part w ≡ 0) (sym same) positive, tt))
                (omega (arith, more)))
      ]

  -- The backends of a built rule are those of the compiled rule that have a positive weight, in
  -- order, with their names, ports, weights and validity; and if the weights add up to less than
  -- 2^63, the rule's total is the sum of its backends' weights, none of which is negative.
  pub build_rule-IsBalanced :
      (secret : Option Object) (grpc : Bool) (rule : Rule) (e : Effects)
      → sum_compiled rule.backends < 2 ^ 63
      → let out = (build_rule tk cert sum secret grpc rule e).0 in
        (map target_of out.backends ≡ map compiled_target (weighted rule.backends)) × IsBalanced out
  unfolding build_rule
  build_rule-IsBalanced secret grpc rule e room = (
    add_backends-targets rule.backends [] (pos 0) _,
    add_backends-balanced rule.backends [] _ tt (omega arith),
  )
