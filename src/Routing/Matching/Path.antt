-- ===== src/Routing/Matching/Path.antt =====
-- Prefix matching of paths (match.go: pathPrefixMatches).
use krouter.Prelude.{
  ℕ, ◌≡◌, refl, ap, sym, subst, ◌∙◌, ◌↔◌, ◌⊎◌, inl, inr, true, List, [], ◌∷◌, ◌++◌, arith,
  if◌then◌else◌, ◌==◌, Bool-cases, length, get_elem?, drop, Str, has_prefix, has_prefix_of_append,
  has_prefix_refl, append_of_has_prefix, trim_suffix, append-nil, append_assoc, length-append,
}
use krouter.Routing.Matching.{slash, trimmed_prefix_matches, path_prefix_matches}

abbrev extend : ℕ → List Str → List Str
extend c [] = (c ∷ []) ∷ []
extend c (t ∷ ts) = (c ∷ t) ∷ ts

-- The parts of a path between its slashes.
pub segments : Str → List Str
segments [] = [] ∷ []
segments (c ∷ s) = let rest = segments s in if c == b'/' then [] ∷ rest else extend c rest

segments-cons : (s : Str) → (t : Str) × (ts : List Str) × (segments s ≡ t ∷ ts)
unfolding segments
segments-cons [] = ([], [], refl)
segments-cons (c ∷ s) =
    let (t, ts, e) = segments-cons s in
    elim (Bool-cases (c == b'/')) [
      | inl h ↦ ([], segments s, ground arith)
      | inr h ↦ (c ∷ t, ts, ground arith)
    ]

-- Below a slash the segments of a path follow those of its prefix.
pub segments-append : (p rest : Str) → segments (p ++ b'/' ∷ rest) ≡ segments p ++ segments rest
unfolding segments
segments-append [] rest = refl
segments-append (c ∷ p) rest =
    let (t, ts, e) = segments-cons p in ground (arith, segments-append p rest, e, segments-cons p)

-- The path with the given segments.
abbrev join : List Str → Str
join [] = []
join (t ∷ []) = t
join (t ∷ u ∷ ts) = t ++ b'/' ∷ join (u ∷ ts)

join-extend : (c : ℕ) (t : Str) (ts : List Str) → join (extend c (t ∷ ts)) ≡ c ∷ join (t ∷ ts)
join-extend c t [] = refl
join-extend c t (u ∷ ts) = refl

join-segments : (s : Str) → join (segments s) ≡ s
unfolding segments
join-segments [] = refl
join-segments (c ∷ s) =
    let (t, ts, e) = segments-cons s in ground (arith, join-segments s, join-extend c t ts)

join-append :
    (ts : List Str) (t u : Str) (us : List Str)
    → join ((t ∷ ts) ++ u ∷ us) ≡ join (t ∷ ts) ++ b'/' ∷ join (u ∷ us)
join-append [] t u us = refl
join-append (v ∷ ts) t u us =
    ap (λ (s : Str). t ++ b'/' ∷ s) (join-append ts v u us)
    ∙ sym (append_assoc t (b'/' ∷ join (v ∷ ts)) (b'/' ∷ join (u ∷ us)))

-- The path is the prefix, or continues it after a slash.
abbrev pub Continues : Str → Str → Type 0
Continues p path = (path ≡ p) ⊎ ((rest : Str) × (path ≡ p ++ b'/' ∷ rest))

pub Continues-of_segments :
    (p path : Str) (more : List Str) → segments path ≡ segments p ++ more → Continues p path
Continues-of_segments p path [] h =
    inl (sym (join-segments path) ∙ ap join (h ∙ append-nil (segments p)) ∙ join-segments p)
Continues-of_segments p path (u ∷ us) h =
    let (t, ts, e) = segments-cons p in
    inr (
      join (u ∷ us),
      sym (join-segments path)
          ∙ ap join (h ∙ ap (λ (l : List Str). l ++ u ∷ us) e)
          ∙ join-append ts t u us
          ∙ ap (λ (s : Str). s ++ b'/' ∷ join (u ∷ us)) (ap join (sym e) ∙ join-segments p),
    )

segments_of_Continues :
    (p path : Str) → Continues p path → (more : List Str) × (segments path ≡ segments p ++ more)
segments_of_Continues p path (inl e) = ([], ap segments e ∙ sym (append-nil (segments p)))
segments_of_Continues p path (inr (rest, e)) =
    (segments rest, ap segments e ∙ segments-append p rest)

at_end : (p rest : Str) → get_elem? (p ++ rest) (length p) ≡ get_elem? rest 0
at_end [] rest = refl
at_end (c ∷ p) rest = at_end p rest

at_slash :
    (b c : ℕ) (p rest : Str)
    → trimmed_prefix_matches (b ∷ p) ((b ∷ p) ++ c ∷ rest) ≡ true
    → c ≡ b'/'
unfolding trimmed_prefix_matches
at_slash b c p rest h = ground (arith, length-append (b ∷ p) (c ∷ rest), at_end (b ∷ p) (c ∷ rest))

matches_sound :
    (b : ℕ) (p rest : Str)
    → trimmed_prefix_matches (b ∷ p) ((b ∷ p) ++ rest) ≡ true
    → Continues (b ∷ p) ((b ∷ p) ++ rest)
matches_sound b p [] h = inl (append-nil (b ∷ p))
matches_sound b p (c ∷ rest) h =
    inr (rest, ap (λ (x : ℕ). (b ∷ p) ++ x ∷ rest) (at_slash b c p rest h))

matches_complete :
    (b : ℕ) (p path : Str) → Continues (b ∷ p) path → trimmed_prefix_matches (b ∷ p) path ≡ true
unfolding trimmed_prefix_matches
matches_complete b p path (inl e) = rw e (ground (arith, has_prefix_refl (b ∷ p)))
matches_complete b p path (inr (rest, e)) =
    rw e (ground (arith, has_prefix_of_append (b ∷ p) (b'/' ∷ rest), at_end (b ∷ p) (b'/' ∷ rest)))

has_prefix_of_matches :
    (b : ℕ) (p path : Str)
    → trimmed_prefix_matches (b ∷ p) path ≡ true
    → has_prefix path (b ∷ p) ≡ true
unfolding trimmed_prefix_matches
has_prefix_of_matches b p path h = ground arith

-- The path lies under the prefix: the prefix is empty, or its segments begin those of the path.
abbrev pub IsUnder : Str → Str → Type 0
IsUnder p path = (p ≡ []) ⊎ ((more : List Str) × (segments path ≡ segments p ++ more))

trimmed_iff : (p path : Str) → (trimmed_prefix_matches p path ≡ true) ↔ IsUnder p path
unfolding trimmed_prefix_matches
trimmed_iff [] path = ((λ _. inl refl), (λ _. refl))
trimmed_iff (b ∷ p) path = (sound, complete)
  where
    sound : trimmed_prefix_matches (b ∷ p) path ≡ true → IsUnder (b ∷ p) path
    sound h =
        let e = append_of_has_prefix path (b ∷ p) (has_prefix_of_matches b p path h) in
        inr (
          segments_of_Continues (b ∷ p) path (
            subst (Continues (b ∷ p)) (sym e) (
              matches_sound b p (drop (length (b ∷ p)) path)
                (subst (λ s. trimmed_prefix_matches (b ∷ p) s ≡ true) e h))))

    complete : IsUnder (b ∷ p) path → trimmed_prefix_matches (b ∷ p) path ≡ true
    complete (inl e) = cc
    complete (inr (more, e)) = matches_complete b p path (Continues-of_segments (b ∷ p) path more e)

-- A prefix, its trailing slash aside, matches exactly the paths whose segments it begins; the empty
-- prefix matches every path.
pub path_prefix_matches_iff :
    (prefix path : Str)
    → (path_prefix_matches prefix path ≡ true) ↔ IsUnder (trim_suffix prefix slash) path
unfolding path_prefix_matches
path_prefix_matches_iff prefix path = trimmed_iff (trim_suffix prefix slash) path
