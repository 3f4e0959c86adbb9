-- ===== src/Proxy/Rewrite/Swap.antt =====
-- What becomes of a path whose matched prefix is replaced.
use krouter.Prelude.{
  ◌≡◌, ◌≢◌, refl, sym, ap, ◌∙◌, ◌⊎◌, inl, inr, true, ◌||◌, [], ◌∷◌, ◌++◌, is_empty, drop,
  drop-append, if◌then◌else◌, Str, codes, str_eq, has_prefix, has_prefix_of_append, trim_suffix,
  trim_prefix, append-nil, append_of_has_prefix,
}
use krouter.Compiled.{FilterDetails}
use krouter.Routing.Matching.{path_prefix_matches}
use krouter.Routing.Matching.Path.{
  segments, segments-append, path_prefix_matches_iff, Continues, Continues-of_segments,
}
use krouter.Proxy.Rewrite.{replacement_of, rewritten_path}

trim_prefix-append : (p rest : Str) → trim_prefix (p ++ rest) p ≡ rest
unfolding trim_prefix
trim_prefix-append p rest = rw (has_prefix_of_append p rest) (drop-append p rest)

module _ (d : FilterDetails) (swaps : d.path_rewrite_type ≡ codes "ReplacePrefixMatch") where
  abbrev matched : Str
  matched = trim_suffix d.path_prefix (codes "/")

  abbrev swapped : Str → Str
  swapped rest =
      if is_empty rest || str_eq rest (codes "/")
      then replacement_of d
      else trim_suffix (replacement_of d) (codes "/") ++ rest

  rewritten_path-append : (rest : Str) → rewritten_path (matched ++ rest) d ≡ swapped rest
  unfolding rewritten_path
  rewritten_path-append rest = rw (swaps, trim_prefix-append matched rest) refl

  -- What becomes of a path: the replacement alone where nothing but a slash follows the matched
  -- prefix, and otherwise the segments of the replacement before those that follow.
  abbrev pub IsSwapped : Str → Type 0
  IsSwapped path =
      (((path ≡ matched) ⊎ (path ≡ matched ++ codes "/"))
        × (rewritten_path path d ≡ replacement_of d))
      ⊎ ((rest : Str) × (rest ≢ [])
          × (path ≡ matched ++ b'/' ∷ rest)
          × (segments (rewritten_path path d)
              ≡ segments (trim_suffix (replacement_of d) (codes "/")) ++ segments rest))

  Continues-IsSwapped : (path : Str) → Continues matched path → IsSwapped path
  unfolding replacement_of str_eq
  Continues-IsSwapped path (inl e) = inl (
    inl e,
    ap (λ (p : Str). rewritten_path p d) (e ∙ sym (append-nil matched)) ∙ rewritten_path-append [],
  )
  Continues-IsSwapped path (inr ([], e)) =
      inl (inr e, ap (λ (p : Str). rewritten_path p d) e ∙ rewritten_path-append (codes "/") ∙ refl)
  Continues-IsSwapped path (inr (c ∷ rest, e)) = inr (
    c ∷ rest,
    (λ h. cc),
    e,
    ap (λ (p : Str). segments (rewritten_path p d)) e
        ∙ ap segments (rewritten_path-append (b'/' ∷ c ∷ rest))
        ∙ segments-append (trim_suffix (replacement_of d) (codes "/")) (c ∷ rest),
  )

  -- Every path that starts with a slash and that the prefix matches is the prefix, a slash after it, or
  -- goes on below it.
  matched-Continues :
      (path : Str)
      → has_prefix path (codes "/") ≡ true
      → path_prefix_matches d.path_prefix path ≡ true
      → Continues matched path
  matched-Continues path rooted matches =
      elim ((path_prefix_matches_iff d.path_prefix path).0 matches) [
        | inr (more, e) ↦ Continues-of_segments matched path more e
        | inl empty ↦ inr (
          drop 1 path,
          append_of_has_prefix path (codes "/") rooted
              ∙ ap (λ (p : Str). p ++ b'/' ∷ drop 1 path) (sym empty),
        )
      ]

-- A path that starts with a slash and that a rule's prefix matches is rewritten segment by segment, the trailing slashes of the
-- prefix and of its replacement aside: where more segments follow the prefix, the segments of the
-- result are those of the replacement and then those that follow. Where nothing follows, or only a
-- slash, the result is the replacement, so that a trailing slash of the request is lost.
pub rewritten_path-IsSwapped :
    (d : FilterDetails) (path : Str) (swaps : d.path_rewrite_type ≡ codes "ReplacePrefixMatch")
    → has_prefix path (codes "/") ≡ true
    → path_prefix_matches d.path_prefix path ≡ true
    → IsSwapped d swaps path
rewritten_path-IsSwapped d path swaps rooted matches =
    Continues-IsSwapped d swaps path (matched-Continues d swaps path rooted matches)
