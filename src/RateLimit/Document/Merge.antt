-- ===== src/RateLimit/Document/Merge.antt =====
-- What a merged configuration holds (ratelimiting.go: Merge).
use krouter.Prelude.{
  ℤ, pos, ap₂, ◌++◌, All, Str, ◌≡◌, ◌≢◌, refl, sym, ap, ◌∙◌, subst, inl, inr, ◌⊎◌, ◌↔◌, Option,
  none, some, List, [], ◌∷◌, Option-cases, codes, Result, ok, err, ok-injective,
}
use krouter.Compiled.{RateLimit}
use krouter.RateLimit.Document.{
  Document, incomplete, override, override_with, merge_loop, or_else, milliseconds, compile,
  nothing_set, merge,
}

-- What an attribute is by a list of documents: `some a` if a document sets it to `a` and no later one
-- sets it, and `none` if no document sets it.
pub data IsLatest {A : Type 0} (f : Document → Option A) (docs : List Document) (o : Option A)
    : Type 0 where
  is_set :
      (before after : List Document) (doc : Document) (a : A)
      → docs ≡ before ++ doc ∷ after
      → f doc ≡ some a
      → All (λ d. f d ≡ none) after
      → o ≡ some a
      → IsLatest f docs o
  is_unset : All (λ d. f d ≡ none) docs → o ≡ none → IsLatest f docs o

-- The same by recursion, for the proofs.
abbrev pub latest : {A : Type 0} → (Document → Option A) → List Document → Option A
latest f [] = none
latest f (doc ∷ docs) = override (latest f docs) (f doc)

latest-unset :
    {A : Type 0} (f : Document → Option A) (docs : List Document)
    → All (λ d. f d ≡ none) docs
    → latest f docs ≡ none
latest-unset f [] all = refl
latest-unset f (doc ∷ docs) (off, all) = ap₂ override (latest-unset f docs all) off

latest-set :
    {A : Type 0} (f : Document → Option A) (before after : List Document) (doc : Document) (a : A)
    → f doc ≡ some a
    → All (λ d. f d ≡ none) after
    → latest f (before ++ doc ∷ after) ≡ some a
latest-set f [] after doc a set unset = ap₂ override (latest-unset f after unset) set
latest-set f (d ∷ before) after doc a set unset =
    ap (λ o. override o (f d)) (latest-set f before after doc a set unset)

latest-IsLatest :
    {A : Type 0} (f : Document → Option A) (docs : List Document) → IsLatest f docs (latest f docs)
latest-IsLatest f [] = is_unset tt refl
latest-IsLatest f (doc ∷ docs) = elim (latest-IsLatest f docs) [
  | is_set before after d a split set unset e ↦
      is_set (doc ∷ before) after d a (ap (λ l. doc ∷ l) split) set unset
        (ap (λ o. override o (f doc)) e)
  | is_unset unset e ↦ elim (Option-cases (f doc)) [
    | inl off ↦ is_unset (off, unset) (ap₂ override e off)
    | inr (a, on) ↦ is_set [] docs doc a refl on unset (ap₂ override e on)
  ]
]

-- The relation determines the attribute.
IsLatest-latest :
    {A : Type 0} (f : Document → Option A) (docs : List Document) (o : Option A)
    → IsLatest f docs o
    → o ≡ latest f docs
IsLatest-latest f docs o (is_set before after doc a split set unset e) =
    e ∙ sym (ap (latest f) split ∙ latest-set f before after doc a set unset)
IsLatest-latest f docs o (is_unset unset e) = e ∙ sym (latest-unset f docs unset)

override_assoc :
    {A : Type 0} (a b c : Option A) → override a (override b c) ≡ override (override a b) c
override_assoc (some a) b c = refl
override_assoc none b c = refl

override-none : {A : Type 0} (a : Option A) → override a none ≡ a
override-none (some a) = refl
override-none none = refl

-- An attribute that is overridden as all of them are.
module _ {A : Type 0} (f : Document → Option A)
    (overrides : (doc merged : Document)
      → f (override_with doc merged) ≡ override (f doc) (f merged)) where
  merge_loop-latest :
      (merged : Document) (docs : List Document)
      → f (merge_loop merged docs) ≡ override (latest f docs) (f merged)
  unfolding merge_loop
  merge_loop-latest merged [] = refl
  merge_loop-latest merged (doc ∷ docs) =
      merge_loop-latest (override_with doc merged) docs
      ∙ ap (override (latest f docs)) (overrides doc merged)
      ∙ override_assoc (latest f docs) (f doc) (f merged)

-- The document that the latest settings make.
abbrev pub latest_of : List Document → Document
latest_of docs = record {
  requests = latest (λ d. d.requests) docs;
  window = latest (λ d. d.window) docs;
  burst = latest (λ d. d.burst) docs;
  key = latest (λ d. d.key) docs;
  status = latest (λ d. d.status) docs;
}

merge_loop-latest_of : (docs : List Document) → merge_loop nothing_set docs ≡ latest_of docs
merge_loop-latest_of docs =
    let m = merge_loop nothing_set docs in
    let requests =
      merge_loop-latest (λ d. d.requests) (λ d n. refl) nothing_set docs ∙ override-none _ in
    let window =
      merge_loop-latest (λ d. d.window) (λ d n. refl) nothing_set docs ∙ override-none _ in
    let burst = merge_loop-latest (λ d. d.burst) (λ d n. refl) nothing_set docs ∙ override-none _ in
    let key = merge_loop-latest (λ d. d.key) (λ d n. refl) nothing_set docs ∙ override-none _ in
    let status =
      merge_loop-latest (λ d. d.status) (λ d n. refl) nothing_set docs ∙ override-none _ in
    cc

-- The configuration of a complete merge.
pub record IsMerged (docs : List Document) (c : RateLimit) : Type 0 where
  pub requests : ℤ
  pub window : ℤ
  pub burst : Option ℤ
  pub key : Option Str
  pub status : Option ℤ
  pub requests_latest : IsLatest (λ d. d.requests) docs (some requests)
  pub window_latest : IsLatest (λ d. d.window) docs (some window)
  pub burst_latest : IsLatest (λ d. d.burst) docs burst
  pub key_latest : IsLatest (λ d. d.key) docs key
  pub status_latest : IsLatest (λ d. d.status) docs status
  pub same : c ≡ record {
    requests = requests;
    window_millis = milliseconds window;
    burst = or_else requests burst;
    key = or_else (codes "client_ip") key;
    status = or_else (pos 429) status;
  }

abbrev completed : Document → ℤ → ℤ → RateLimit
completed m requests window = record {
  requests = requests;
  window_millis = milliseconds window;
  burst = or_else requests m.burst;
  key = or_else (codes "client_ip") m.key;
  status = or_else (pos 429) m.status;
}

compile-none : (m : Document) → (m.requests ≡ none) ⊎ (m.window ≡ none) → compile m ≡ err incomplete
unfolding compile
compile-none m (inl e) = rw e refl
compile-none m (inr f) = elim (Option-cases m.requests) [
  | inl e ↦ rw e refl
  | inr (r, e) ↦ rw (e, f) refl
]

compile-some :
    (m : Document) (r w : ℤ)
    → m.requests ≡ some r
    → m.window ≡ some w
    → compile m ≡ ok (completed m r w)
unfolding compile
compile-some m r w e f = rw (e, f) refl

err-ok : {E A : Type 0} (e : E) (a : A) → ◌≢◌ {A = Result E A} (err e) (ok a)
err-ok e a h = cc

compile_iff :
    (m : Document) (c : RateLimit)
    → (compile m ≡ ok c) ↔ (
        (requests : ℤ) × (window : ℤ) × (m.requests ≡ some requests)
        × (m.window ≡ some window)
        × (c ≡ record {
          requests = requests;
          window_millis = milliseconds window;
          burst = or_else requests m.burst;
          key = or_else (codes "client_ip") m.key;
          status = or_else (pos 429) m.status;
        }))
compile_iff m c = (
  (λ h. elim (Option-cases m.requests) [
    | inl e ↦ absurd (err-ok incomplete c (sym (compile-none m (inl e)) ∙ h))
    | inr (r, e) ↦ elim (Option-cases m.window) [
      | inl f ↦ absurd (err-ok incomplete c (sym (compile-none m (inr f)) ∙ h))
      | inr (w, f) ↦ (r, w, e, f, ok-injective (sym h ∙ compile-some m r w e f))
    ]
  ]),
  (λ (r, w, e, f, same). compile-some m r w e f ∙ ap ok (sym same)),
)

-- The latest settings, read from the list, make the configuration.
latest_of_iff :
    (docs : List Document) (c : RateLimit) → (compile (latest_of docs) ≡ ok c) ↔ IsMerged docs c
latest_of_iff docs c = (
  (λ h.
      let (requests, window, r, w, same) = (compile_iff (latest_of docs) c).0 h in
      record {
        requests = requests;
        window = window;
        burst = latest (λ d. d.burst) docs;
        key = latest (λ d. d.key) docs;
        status = latest (λ d. d.status) docs;
        requests_latest =
            subst (IsLatest (λ d. d.requests) docs) r (latest-IsLatest (λ d. d.requests) docs);
        window_latest =
            subst (IsLatest (λ d. d.window) docs) w (latest-IsLatest (λ d. d.window) docs);
        burst_latest = latest-IsLatest (λ d. d.burst) docs;
        key_latest = latest-IsLatest (λ d. d.key) docs;
        status_latest = latest-IsLatest (λ d. d.status) docs;
        same = same;
      }),
  (λ m.
      let r = IsLatest-latest (λ d. d.requests) docs (some m.requests) m.requests_latest in
      let w = IsLatest-latest (λ d. d.window) docs (some m.window) m.window_latest in
      let b = IsLatest-latest (λ d. d.burst) docs m.burst m.burst_latest in
      let k = IsLatest-latest (λ d. d.key) docs m.key m.key_latest in
      let s = IsLatest-latest (λ d. d.status) docs m.status m.status_latest in
      (compile_iff (latest_of docs) c).1
        (m.requests, m.window, sym r, sym w, cc (m.same, b, k, s))),
)

-- The latest settings that a successful merge has used.
pub merge-latest :
    (docs : List Document) (c : RateLimit)
    → merge docs ≡ ok c
    → (requests : ℤ) × (window : ℤ) × (latest (λ d. d.requests) docs ≡ some requests)
      × (latest (λ d. d.window) docs ≡ some window)
      × (c ≡ record {
        requests = requests;
        window_millis = milliseconds window;
        burst = or_else requests (latest (λ d. d.burst) docs);
        key = or_else (codes "client_ip") (latest (λ d. d.key) docs);
        status = or_else (pos 429) (latest (λ d. d.status) docs);
      })
unfolding merge
merge-latest docs c h =
    (compile_iff (latest_of docs) c).0 (ap compile (sym (merge_loop-latest_of docs)) ∙ h)

-- Merging succeeds exactly if some document sets the requests and some document sets the window; each
-- attribute of the configuration is then that of the last document that sets it, and where none
-- does, the burst is the requests, the key the client's address, and the status 429.
pub merge_iff : (docs : List Document) (c : RateLimit) → (merge docs ≡ ok c) ↔ IsMerged docs c
unfolding merge
merge_iff docs c =
    subst (λ m. (compile m ≡ ok c) ↔ IsMerged docs c) (sym (merge_loop-latest_of docs))
      (latest_of_iff docs c)
