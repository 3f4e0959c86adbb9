-- ===== src/RateLimit/Document/Checked.antt =====
-- What parsing a document checks (ratelimiting.go: Parse, Merge).
use krouter.Prelude.{
  ℤ, pos, negsuc, leb_ℤ, ltb_ℤ, eq_ℤ, ◌≡◌, refl, sym, subst, inl, inr, Bool, true, false, Option,
  none, some, List, [], ◌∷◌, arith, All, All-imp, Bool-cases, Option-cases, Str, codes, str_eq, ok,
  >>=-eq-ok, guard-eq-ok, ok-injective,
}
use krouter.Compiled.{RateLimit}
use krouter.RateLimit.Document.Merge.{latest, merge-latest}
use krouter.RateLimit.Document.{
  Document, HclRateLimit, HclDocument, is_positive, is_key, is_status, parse_window, checked,
  parse_block, parse_hcl, parse, override, or_else, milliseconds, merge,
}

-- What `Parse` has checked of a document.
abbrev pub IsChecked : Document → Type 0
IsChecked d =
    (is_positive d.requests ≡ true)
    × (is_positive d.window ≡ true)
    × (is_positive d.burst ≡ true)
    × (is_key d.key ≡ true)
    × (is_status d.status ≡ true)

latest-holds :
    {A : Type 0} (f : Document → Option A) (test : Option A → Bool) (docs : List Document)
    → test none ≡ true
    → All (λ d. test (f d) ≡ true) docs
    → test (latest f docs) ≡ true
latest-holds f test [] base all = base
latest-holds f test (doc ∷ docs) base all =
    override-holds (latest f docs) (latest-holds f test docs base all.1)
  where
    override-holds : (o : _) → test o ≡ true → test (override o (f doc)) ≡ true
    override-holds (some a) h = h
    override-holds none h = all.0

module _ (decode : Str → Option HclDocument) (parse_duration : Str → Option ℤ) where
  parse_window-positive :
      (text : Option Str) (window : Option ℤ)
      → parse_window decode parse_duration text ≡ ok window
      → is_positive window ≡ true
  unfolding parse_window
  parse_window-positive none window h =
      let same : none ≡ window = ok-injective h in subst (λ o. is_positive o ≡ true) same refl
  parse_window-positive (some text) window h = elim (Option-cases (parse_duration text)) [
    | inl e ↦ absurd (ground (arith, h, e))
    | inr (d, e) ↦ elim (Bool-cases (leb_ℤ d (pos 0))) [
      | inl low ↦ absurd (ground (arith, h, e, low))
      | inr positive ↦
          let same : some d ≡ window = ground (arith, h, e, positive) in
          subst (λ o. is_positive o ≡ true) same (rw positive refl)
    ]
  ]

  checked-IsChecked :
      (raw : HclRateLimit) (window : Option ℤ) (d : Document)
      → is_positive raw.requests ≡ true
      → is_positive window ≡ true
      → checked decode parse_duration raw window ≡ ok d
      → IsChecked d
  unfolding checked
  checked-IsChecked raw window d r w h =
      let (b, h1) = guard-eq-ok (is_positive raw.burst) _ _ h in
      let (k, h2) = guard-eq-ok (is_key raw.key) _ _ h1 in
      let (s, made) = guard-eq-ok (is_status raw.status) _ _ h2 in
      subst IsChecked (ok-injective made) (r, w, b, k, s)

  -- A parsed document has, where they are set, at least one request, a positive window, a burst of
  -- at least one, a known key, and a status from 400 to 599.
  parse-IsChecked :
      (src : Str) (d : Document) → parse decode parse_duration src ≡ ok d → IsChecked d
  unfolding parse parse_hcl parse_block
  parse-IsChecked src d h = elim (Option-cases (decode src)) [
    | inl e ↦ absurd (ground (arith, h, e))
    | inr (raw, e) ↦
        let parsed : parse_hcl decode parse_duration raw ≡ ok d = ground (arith, h, e) in
        let (version, block) = guard-eq-ok (eq_ℤ raw.version (pos 1)) _ _ parsed in
        elim (Option-cases raw.rate_limit) [
          | inl f ↦ absurd (ground (arith, block, f))
          | inr (limit, f) ↦
              let made : parse_block decode parse_duration limit ≡ ok d =
                ground (arith, block, f) in
              let (r, rest) = guard-eq-ok (is_positive limit.requests) _ _ made in
              let (window, w, last) =
                >>=-eq-ok (parse_window decode parse_duration limit.window) _ rest in
              checked-IsChecked limit window d r (parse_window-positive limit.window window w) last
        ]
  ]

  -- The document is the result of a parse.
  abbrev pub IsParsed : Document → Type 0
  IsParsed d = (src : Str) × (parse decode parse_duration src ≡ ok d)

  IsParsed-IsChecked : (docs : List Document) → All IsParsed docs → All IsChecked docs
  IsParsed-IsChecked [] h = tt
  IsParsed-IsChecked (d ∷ docs) h =
      let (src, parsed) = h.0 in (parse-IsChecked src d parsed, IsParsed-IsChecked docs h.1)

  -- What a limiter is made from: at least one request, a burst of at least one, a window that is
  -- not negative, a known key and an error status.
  abbrev pub IsLimit : RateLimit → Type 0
  IsLimit c =
      (is_positive (some c.requests) ≡ true)
      × (is_positive (some c.burst) ≡ true)
      × (ltb_ℤ c.window_millis (pos 0) ≡ false)
      × (is_key (some c.key) ≡ true)
      × (is_status (some c.status) ≡ true)

  milliseconds-positive :
      (w : ℤ) → is_positive (some w) ≡ true → ltb_ℤ (milliseconds w) (pos 0) ≡ false
  milliseconds-positive (pos n) h = ground arith
  milliseconds-positive (negsuc n) h = absurd (ground (arith, h))

  or_else-holds :
      {A : Type 0} (test : Option A → Bool) (a : A) (o : Option A)
      → test (some a) ≡ true
      → test o ≡ true
      → test (some (or_else a o)) ≡ true
  or_else-holds test a none base h = base
  or_else-holds test a (some b) base h = h

  -- The merge of parsed documents, where it succeeds, gives a limit with at least one request, a
  -- burst of at least one, a window that is not negative, a known key and an error status. (The
  -- window may be zero: what is left of a millisecond is dropped.)
  pub merge-IsLimit :
      (docs : List Document) (c : RateLimit) → All IsParsed docs → merge docs ≡ ok c → IsLimit c
  unfolding str_eq
  merge-IsLimit docs c parsed made =
      let all = IsParsed-IsChecked docs parsed in
      let (r, w, e, f, same) = merge-latest docs c made in
      let requests =
        subst (λ o. is_positive o ≡ true) e
          (latest-holds (λ d. d.requests) is_positive docs refl
            (All-imp IsChecked (λ d. is_positive d.requests ≡ true) docs (λ d h. h.0) all)) in
      let window =
        subst (λ o. is_positive o ≡ true) f
          (latest-holds (λ d. d.window) is_positive docs refl
            (All-imp IsChecked (λ d. is_positive d.window ≡ true) docs (λ d h. h.1) all)) in
      subst IsLimit (sym same) (
        requests,
        or_else-holds is_positive r (latest (λ d. d.burst) docs) requests (
            latest-holds (λ d. d.burst) is_positive docs refl
              (All-imp IsChecked (λ d. is_positive d.burst ≡ true) docs (λ d h. h.2) all)),
        milliseconds-positive w window,
        or_else-holds is_key (codes "client_ip") (latest (λ d. d.key) docs) refl (
            latest-holds (λ d. d.key) is_key docs refl
              (All-imp IsChecked (λ d. is_key d.key ≡ true) docs (λ d h. h.3) all)),
        or_else-holds is_status (pos 429) (latest (λ d. d.status) docs) refl (
            latest-holds (λ d. d.status) is_status docs refl
              (All-imp IsChecked (λ d. is_status d.status ≡ true) docs (λ d h. h.4) all)),
      )
