-- ===== src/Routing/Hostname/Laws.antt =====
-- What a hostname pattern matches, and how patterns are ranked.
use krouter.Prelude.{
  ◌-◌, ◌<◌, ◌^◌, ◌≡◌, ◌≢◌, ◌↔◌, refl, ap, true, [], ◌∷◌, ◌++◌, arith, length, length-append, take,
  Str, has_suffix_of_append, append_of_has_suffix,
}
use krouter.Routing.Hostname.{hostname_matches, hostname_score, hostname_specificity}

empty_of_length : (s : Str) → length s ≡ 0 → s ≡ []
empty_of_length [] h = refl
empty_of_length (c ∷ s) h = absurd (omega arith)

module _ (d host : Str) where
  wildcard_sound :
      hostname_matches (b'*' ∷ b'.' ∷ d) host ≡ true
      → (label : Str) × (label ≢ []) × (host ≡ label ++ b'.' ∷ d)
  unfolding hostname_matches
  wildcard_sound h =
      let (e, _) = append_of_has_suffix host (b'.' ∷ d) (ground arith) in
      let len : length (b'.' ∷ d) < length host = ground arith in
      (
        take (length host - length (b'.' ∷ d)) host,
        (λ empty. absurd (
            omega (
              arith,
              len,
              ap length e,
              ap length empty,
              length-append (take (length host - length (b'.' ∷ d)) host) (b'.' ∷ d),
            ))),
        e,
      )

  wildcard_complete :
      (label : Str)
      → label ≢ []
      → host ≡ label ++ b'.' ∷ d
      → hostname_matches (b'*' ∷ b'.' ∷ d) host ≡ true
  unfolding hostname_matches
  wildcard_complete label some_label e = rw e (
      ground (
        arith,
        has_suffix_of_append label (b'.' ∷ d),
        length-append label (b'.' ∷ d),
        empty_of_length label,
        some_label,
      ))

  -- A pattern "*.d" matches exactly the hosts that end in ".d" with at least one byte before it.
  pub hostname_matches-wildcard_iff :
      (hostname_matches (b'*' ∷ b'.' ∷ d) host ≡ true)
      ↔ ((label : Str) × (label ≢ []) × (host ≡ label ++ b'.' ∷ d))
  hostname_matches-wildcard_iff =
      (wildcard_sound, (λ (label, some_label, e). wildcard_complete label some_label e))

-- The score by which requests are matched refines the specificity by which listeners are sorted,
-- for patterns shorter than 2^16 bytes.
pub hostname_score-specificity :
    (a b : Str)
    → length a < 2 ^ 16
    → hostname_specificity a < hostname_specificity b
    → hostname_score a < hostname_score b
unfolding hostname_score hostname_specificity
hostname_score-specificity (x ∷ a) [] short h = ground arith
hostname_score-specificity [] [] short h = ground arith
hostname_score-specificity [] (y ∷ b) short h = ground arith
hostname_score-specificity (x ∷ a) (y ∷ b) short h = ground arith
