-- ===== src/Proxy/Cors/Origins.antt =====
-- Which origins an allow-list admits.
use krouter.Prelude.{
  ℕ, ◌+◌, ◌<◌, ◌≡◌, ◌≢◌, refl, ap, subst, ◌∙◌, ◌↔◌, ◌⊎◌, inl, inr, true, false, ◌||◌, some, List,
  [], ◌∷◌, ◌++◌, arith, Any, length, length-append, drop, Bool-cases, Option-cases, Str, codes,
  str_eq, str_eq_iff, str_eq_refl, has_prefix, append_of_has_prefix, has_suffix_iff, cut,
  contains_str,
}
use krouter.Prelude.Cut.{cut_sound, cut-first}
use krouter.Proxy.Cors.{host_under, pattern_allows, cors_origin_allowed}

abbrev scheme_mark : Str
scheme_mark = codes "://"

-- The mark does not overlap itself.
has_prefix-mark :
    (c : ℕ) (s host : Str)
    → has_prefix ((c ∷ s) ++ (scheme_mark ++ host)) scheme_mark ≡ has_prefix (c ∷ s) scheme_mark
unfolding has_prefix
has_prefix-mark c [] host = ground arith
has_prefix-mark c (b ∷ []) host = ground arith
has_prefix-mark c (b ∷ a ∷ s) host = refl

absent_here :
    (c : ℕ) (s : Str)
    → contains_str (c ∷ s) scheme_mark ≡ false
    → (has_prefix (c ∷ s) scheme_mark ≡ false) × (contains_str s scheme_mark ≡ false)
unfolding contains_str cut
absent_here c s h = elim (Bool-cases (has_prefix (c ∷ s) scheme_mark)) [
  | inl here ↦ absurd (ground (arith, h, here))
  | inr further ↦ elim (Option-cases (cut s scheme_mark)) [
    | inl missing ↦ (further, ground (arith, missing))
    | inr (found, e) ↦ absurd (ground (arith, h, further, e))
  ]
]

-- A scheme is found again in front of its mark.
cut-scheme :
    (scheme host : Str)
    → contains_str scheme scheme_mark ≡ false
    → cut (scheme ++ (scheme_mark ++ host)) scheme_mark ≡ some (scheme, host)
unfolding cut
cut-scheme [] host h = refl
cut-scheme (c ∷ s) host h =
    let (not_here, rest) = absent_here c s h in
    let shut : has_prefix ((c ∷ s) ++ (scheme_mark ++ host)) scheme_mark ≡ false =
      has_prefix-mark c s host ∙ not_here in
    rw (shut, cut, cut-scheme s host rest) refl

length_pos : (l : Str) → l ≢ [] → 0 < length l
length_pos [] h = absurd (h refl)
length_pos (c ∷ l) h = omega arith

host_under_iff :
    (host origin_host : Str)
    → (host_under host origin_host ≡ true)
      ↔ ((label : Str) × (label ≢ []) × (origin_host ≡ label ++ drop 1 host))
unfolding host_under
host_under_iff host origin_host = (
  (λ h.
      let (label, e) = (has_suffix_iff origin_host (drop 1 host)).0 (ground (arith, h)) in
      let longer : length (drop 1 host) < length origin_host = ground (arith, h) in
      let all : length origin_host ≡ length label + length (drop 1 host) =
        ap length e ∙ length-append label (drop 1 host) in
      (label, (λ empty. absurd (omega (arith, all, longer, ap length empty))), e)),
  (λ (label, some_label, e).
      let ends = (has_suffix_iff origin_host (drop 1 host)).1 (label, e) in
      let all : length origin_host ≡ length label + length (drop 1 host) =
        ap length e ∙ length-append label (drop 1 host) in
      ground (arith, ends, all, length_pos label some_label)),
)

-- The pattern names a scheme and "*." in front of a domain; the origin has that scheme, and at least
-- one byte and a dot in front of the domain.
abbrev pub IsBelow : Str → Str → Type 0
IsBelow pattern origin =
    (scheme domain label : Str) × (contains_str scheme scheme_mark ≡ false)
    × (pattern ≡ scheme ++ (scheme_mark ++ (codes "*." ++ domain)))
    × (origin ≡ scheme ++ (scheme_mark ++ (label ++ (codes "." ++ domain))))
    × (label ≢ [])

abbrev pub Admits : Str → Str → Type 0
Admits pattern origin = (pattern ≡ codes "*") ⊎ ((pattern ≡ origin) ⊎ IsBelow pattern origin)

IsBelow-allows :
    (pattern origin : Str) → IsBelow pattern origin → pattern_allows pattern origin ≡ true
unfolding pattern_allows
IsBelow-allows pattern origin (scheme, domain, label, first, p, o, some_label) =
    let cut_pattern : cut pattern scheme_mark ≡ some (scheme, codes "*." ++ domain) =
      rw p (cut-scheme scheme (codes "*." ++ domain) first) in
    let cut_origin : cut origin scheme_mark ≡ some (scheme, label ++ (codes "." ++ domain)) =
      rw o (cut-scheme scheme (label ++ (codes "." ++ domain)) first) in
    let under : host_under (codes "*." ++ domain) (label ++ (codes "." ++ domain)) ≡ true =
      (host_under_iff (codes "*." ++ domain) (label ++ (codes "." ++ domain))).1
        (label, some_label, refl) in
    elim (Bool-cases (str_eq pattern (codes "*") || str_eq pattern origin)) [
      | inl exact ↦ rw (exact, pattern_allows) refl
      | inr other ↦
          rw
            (
              other,
              pattern_allows,
              cut_pattern,
              pattern_allows,
              cut_origin,
              pattern_allows,
              str_eq_refl scheme,
              pattern_allows,
            )
            under
    ]

IsBelow-of_parts :
    (pattern origin scheme host origin_host : Str)
    → cut pattern scheme_mark ≡ some (scheme, host)
    → has_prefix host (codes "*.") ≡ true
    → cut origin scheme_mark ≡ some (scheme, origin_host)
    → host_under host origin_host ≡ true
    → IsBelow pattern origin
IsBelow-of_parts pattern origin scheme host origin_host cut_pattern starred cut_origin under =
    let domain = drop 2 host in
    let whole : host ≡ codes "*." ++ domain = append_of_has_prefix host (codes "*.") starred in
    let (label, some_label, e) = (host_under_iff host origin_host).0 under in
    (
      scheme,
      domain,
      label,
      cut-first pattern b':' (codes "//") scheme host cut_pattern,
      subst (λ (t : Str). pattern ≡ scheme ++ (scheme_mark ++ t)) whole
          (cut_sound pattern b':' (codes "//") scheme host cut_pattern),
      subst (λ (t : Str). origin ≡ scheme ++ (scheme_mark ++ t))
          (e ∙ ap (λ (t : Str). label ++ drop 1 t) whole)
          (cut_sound origin b':' (codes "//") scheme origin_host cut_origin),
      some_label,
    )

pattern_allows-IsBelow :
    (pattern origin : Str)
    → (str_eq pattern (codes "*") || str_eq pattern origin) ≡ false
    → pattern_allows pattern origin ≡ true
    → IsBelow pattern origin
unfolding pattern_allows
pattern_allows-IsBelow pattern origin other h = elim (Option-cases (cut pattern scheme_mark)) [
  | inl uncut ↦ absurd (ground (arith, h, other, uncut))
  | inr ((scheme, host), cut_pattern) ↦ elim (Bool-cases (has_prefix host (codes "*."))) [
    | inr plain ↦ absurd (ground (arith, h, other, cut_pattern, plain))
    | inl starred ↦ elim (Option-cases (cut origin scheme_mark)) [
      | inl bare ↦ absurd (ground (arith, h, other, cut_pattern, starred, bare))
      | inr ((origin_scheme, origin_host), cut_origin) ↦
          elim (Bool-cases (str_eq origin_scheme scheme)) [
            | inr differs ↦
                absurd (ground (arith, h, other, cut_pattern, starred, cut_origin, differs))
            | inl same ↦
                let under : host_under host origin_host ≡ true =
                  ground (arith, h, other, cut_pattern, starred, cut_origin, same) in
                IsBelow-of_parts pattern origin scheme host origin_host cut_pattern starred
                  (subst (λ (t : Str). cut origin scheme_mark ≡ some (t, origin_host))
                    ((str_eq_iff origin_scheme scheme).0 same) cut_origin)
                  under
          ]
    ]
  ]
]

pattern_allows_iff :
    (pattern origin : Str) → (pattern_allows pattern origin ≡ true) ↔ Admits pattern origin
unfolding pattern_allows
pattern_allows_iff pattern origin = (
  (λ h. elim (Bool-cases (str_eq pattern (codes "*"))) [
    | inl any_origin ↦ inl ((str_eq_iff pattern (codes "*")).0 any_origin)
    | inr listed ↦ elim (Bool-cases (str_eq pattern origin)) [
      | inl same ↦ inr (inl ((str_eq_iff pattern origin).0 same))
      | inr differs ↦
          inr (inr (pattern_allows-IsBelow pattern origin (ground (arith, listed, differs)) h))
    ]
  ]),
  (λ a. elim a [
    | inl any_origin ↦ ground (arith, (str_eq_iff pattern (codes "*")).1 any_origin)
    | inr (inl same) ↦ ground (arith, (str_eq_iff pattern origin).1 same)
    | inr (inr below) ↦ IsBelow-allows pattern origin below
  ]),
)

-- An origin is allowed exactly if some pattern of the list is "*", or is the origin, or is
-- "scheme://*.domain" for an origin of that scheme whose host is the domain with at least one byte
-- and a dot in front of it.
pub cors_origin_allowed_iff :
    (patterns : List Str) (origin : Str)
    → (cors_origin_allowed patterns origin ≡ true) ↔ Any (λ p. Admits p origin) patterns
unfolding cors_origin_allowed
cors_origin_allowed_iff [] origin = ((λ h. cc), (λ h. absurd h))
cors_origin_allowed_iff (p ∷ ps) origin = (
  (λ h. elim (Bool-cases (pattern_allows p origin)) [
    | inl here ↦ inl ((pattern_allows_iff p origin).0 here)
    | inr further ↦ inr ((cors_origin_allowed_iff ps origin).0 (ground (arith, h, further)))
  ]),
  (λ h. elim h [
    | inl here ↦ ground (arith, (pattern_allows_iff p origin).1 here)
    | inr there ↦ ground (arith, (cors_origin_allowed_iff ps origin).1 there)
  ]),
)
