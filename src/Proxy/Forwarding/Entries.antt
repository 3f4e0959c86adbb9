-- ===== src/Proxy/Forwarding/Entries.antt =====
-- The entries of a chain of addresses that is joined to another one.
use mathlib.Core.List.{map-append}
use krouter.Prelude.{
  ℕ, suc, ◌+◌, ◌<◌, ◌≡◌, refl, sym, ap, ◌∙◌, ◌⊎◌, inl, inr, Bool, true, false, List, [], ◌∷◌, ◌++◌,
  map, reverse, ◌==◌, is_empty, arith, Bool-cases, Option-cases, Str, codes, length, join,
  append-nil,
}
use krouter.Http.{Header, header_values}
use krouter.Netip.{Addr, Notation}
use krouter.ClientIp.{
  max_hops, Trust, split_commas, is_space, skip_spaces, trim_space, flat_entries, chain, hop, walk,
}
use krouter.Proxy.Forwarding.{forwarded_for}

split_commas-cons : (s : Str) → (t : Str) × (ts : List Str) × (split_commas s ≡ t ∷ ts)
unfolding split_commas
split_commas-cons [] = ([], [], refl)
split_commas-cons (c ∷ s) =
    let (t, ts, e) = split_commas-cons s in
    elim (Bool-cases (c == b',')) [
      | inl h ↦ ([], split_commas s, ground arith)
      | inr h ↦ (c ∷ t, ts, ground arith)
    ]

split_commas-append : (a b : Str) → split_commas (a ++ b',' ∷ b) ≡ split_commas a ++ split_commas b
unfolding split_commas
split_commas-append [] b = refl
split_commas-append (c ∷ a) b =
    let (t, ts, e) = split_commas-cons a in ground (arith, split_commas-append a b, e)

abbrev pub entries : Str → List Str
entries s = map trim_space (split_commas s)

-- Blanks in front of an entry do not count.
entries-blank : (s : Str) → entries (b' ' ∷ s) ≡ entries s
unfolding split_commas trim_space skip_spaces is_space
entries-blank s = let (t, ts, e) = split_commas-cons s in rw (e, split_commas) refl

pub entries-append : (a b : Str) → entries (a ++ (codes ", " ++ b)) ≡ entries a ++ entries b
entries-append a b =
    ap (map trim_space) (split_commas-append a (b' ' ∷ b))
    ∙ map-append trim_space (split_commas a) (split_commas (b' ' ∷ b))
    ∙ ap (λ (l : List Str). entries a ++ l) (entries-blank b)

entries-join :
    (v : Str) (vs : List Str) → entries (join (v ∷ vs) (codes ", ")) ≡ flat_entries (v ∷ vs)
unfolding join flat_entries
entries-join v [] = sym (append-nil (entries v))
entries-join v (w ∷ vs) =
    entries-append v (join (w ∷ vs) (codes ", "))
    ∙ ap (λ (l : List Str). entries v ++ l) (entries-join w vs)

List-cases : (l : List Str) → (l ≡ []) ⊎ ((v : Str) × (vs : List Str) × (l ≡ v ∷ vs))
List-cases [] = inl refl
List-cases (v ∷ vs) = inr (v, vs, refl)

-- Within the bound, where a walk starts does not matter.
pub walk-shift :
    (notation : Notation) (trust : Trust) (i : ℕ) (a : Addr) (l : List Str)
    → i + length l < max_hops
    → walk notation trust (suc i) a l ≡ walk notation trust i a l
unfolding walk
walk-shift notation trust i a [] room = refl
walk-shift notation trust i a (entry ∷ l) room = elim (Option-cases (hop notation entry)) [
  | inl bad ↦ ground (arith, bad)
  | inr (b, ok) ↦ ground (arith, ok, walk-shift notation trust (suc i) b l)
]

-- A text that is one entry of a chain.
pub record IsEntry (s : Str) : Type 0 where
  pub no_comma : split_commas s ≡ s ∷ []
  pub trimmed : trim_space s ≡ s

-- What stands in the chain from right to left in front of the peer.
true-false : ◌≡◌ {A = Bool} true false → ⊥
true-false h = cc

pub entries-one : (s : Str) → IsEntry s → entries s ≡ s ∷ []
entries-one s one = ap (map trim_space) one.no_comma ∙ ap (λ (t : Str). t ∷ []) one.trimmed

pub chain-one :
    (h : Header) (v : Str) → header_values h forwarded_for ≡ v ∷ [] → chain h ≡ reverse (entries v)
unfolding chain flat_entries
chain-one h v e = rw e (ap reverse (append-nil (entries v)))

pub received_entries :
    (h : Header)
    → is_empty (join (header_values h forwarded_for) (codes ", ")) ≡ false
    → entries (join (header_values h forwarded_for) (codes ", "))
      ≡ flat_entries (header_values h forwarded_for)
unfolding join
received_entries h some_text = elim (List-cases (header_values h forwarded_for)) [
  | inl empty ↦
      absurd
        (true-false (sym (ap (λ (l : List Str). is_empty (join l (codes ", "))) empty) ∙ some_text))
  | inr (v, vs, e) ↦ rw e (entries-join v vs)
]
