-- ===== src/Routing/Balance/Round.antt =====
-- One round of the weighted round-robin (match.go: pickBucket).
use native.Mathlib.Nat.{mod-lt, mod-eq_of_lt, mul-add-mod_self_right}
use krouter.Prelude.{
  ℕ, zero, suc, ◌+◌, ◌-◌, ◌*◌, ◌%◌, ◌≤◌, ◌<◌, ◌≡◌, refl, sym, ap, ap₂, ◌∙◌, subst, inl, inr, ℤ, pos,
  negsuc, pos_part, neg_part, ◌-ℤ◌, rem_ℤ, Option, some, List, [], ◌∷◌, ◌++◌, map, arith, All, Any,
  Bool-cases, ltb,
}
use krouter.Routing.Types.{BackendTable}
use krouter.Routing.Balance.{pick_slot, pick_bucket}

abbrev pub weight : BackendTable → ℕ
weight b = pos_part b.weight

-- No weight is negative.
abbrev pub AreWeights : List BackendTable → Type 0
AreWeights bs = All (λ b. neg_part b.weight ≡ 0) bs

abbrev pub sum_weights : List BackendTable → ℕ
sum_weights [] = 0
sum_weights (b ∷ bs) = weight b + sum_weights bs

-- The numbers from `a`, `n` of them.
abbrev pub iota : ℕ → ℕ → List ℕ
iota a zero = []
iota a (suc n) = a ∷ iota (a + 1) n

abbrev pub repeat {ℓ} : {A : Type ℓ} → ℕ → A → List A
repeat zero a = []
repeat (suc n) a = a ∷ repeat n a

-- Each backend as often as its weight says, in order.
abbrev pub shares : List BackendTable → List (Option BackendTable)
shares [] = []
shares (b ∷ bs) = repeat (weight b) (some b) ++ shares bs

pick_slot-here :
    (k : ℕ) (b : BackendTable) (bs : List BackendTable)
    → neg_part b.weight ≡ 0
    → k < weight b
    → pick_slot (pos k) (b ∷ bs) ≡ some b
unfolding pick_slot ◌-ℤ◌
pick_slot-here k b bs nonneg h = ground arith

next : (k : ℕ) (w : ℤ) → neg_part w ≡ 0 → pos_part w ≤ k → pos k -ℤ w ≡ pos (k - pos_part w)
unfolding ◌-ℤ◌
next k (pos n) nonneg h = ground arith
next k (negsuc n) nonneg h = absurd (omega arith)

pick_slot-later :
    (k : ℕ) (b : BackendTable) (bs : List BackendTable)
    → neg_part b.weight ≡ 0
    → weight b ≤ k
    → pick_slot (pos k) (b ∷ bs) ≡ pick_slot (pos (k - weight b)) bs
unfolding pick_slot
pick_slot-later k b bs nonneg h = rw (next k b.weight nonneg h) (ground arith)

pub map-iota_congr :
    {A : Type 0} (f g : ℕ → A) (a n : ℕ)
    → ((k : ℕ) → a ≤ k → k < a + n → f k ≡ g k)
    → map f (iota a n) ≡ map g (iota a n)
map-iota_congr f g a zero h = refl
map-iota_congr f g a (suc n) h =
    ap₂ ◌∷◌ (h a (omega arith) (omega arith))
      (map-iota_congr f g (a + 1) n (λ k lo hi. h k (omega arith) (omega arith)))

pub map-iota_const :
    {A : Type 0} (f : ℕ → A) (x : A) (a n : ℕ)
    → ((k : ℕ) → a ≤ k → k < a + n → f k ≡ x)
    → map f (iota a n) ≡ repeat n x
map-iota_const f x a zero h = refl
map-iota_const f x a (suc n) h =
    ap₂ ◌∷◌ (h a (omega arith) (omega arith))
      (map-iota_const f x (a + 1) n (λ k lo hi. h k (omega arith) (omega arith)))

pub map-iota_shift :
    {A : Type 0} (f : ℕ → A) (w a n : ℕ) → map (λ k. f (k - w)) (iota (a + w) n) ≡ map f (iota a n)
map-iota_shift f w a zero = refl
map-iota_shift f w a (suc n) = ap₂ ◌∷◌ (ap f (omega arith)) (
    subst (λ b. map (λ k. f (k - w)) (iota b n) ≡ map f (iota (a + 1) n)) (omega arith)
      (map-iota_shift f w (a + 1) n))

pub map-iota_add :
    {A : Type 0} (f : ℕ → A) (a n m : ℕ)
    → map f (iota a (n + m)) ≡ map f (iota a n) ++ map f (iota (a + n) m)
map-iota_add f a zero m =
    ap₂ (λ (x y : ℕ). map f (iota y x)) {y = m} {v = a + 0} (omega arith) (omega arith)
map-iota_add f a (suc n) m =
    ap (λ (x : ℕ). map f (iota a x)) {y = suc (n + m)} (omega arith)
    ∙ ap (◌∷◌ (f a)) (
        map-iota_add f (a + 1) n m
        ∙ ap (λ (x : ℕ). map f (iota (a + 1) n) ++ map f (iota x m)) (omega arith))

slots-shares :
    (bs : List BackendTable)
    → AreWeights bs
    → map (λ k. pick_slot (pos k) bs) (iota 0 (sum_weights bs)) ≡ shares bs
slots-shares [] h = refl
slots-shares (b ∷ bs) h =
    let w = weight b in
    let n = sum_weights bs in
    map-iota_add (λ k. pick_slot (pos k) (b ∷ bs)) 0 w n
    ∙ ap₂ ◌++◌
        (map-iota_const (λ k. pick_slot (pos k) (b ∷ bs)) (some b) 0 w
          (λ k lo hi. pick_slot-here k b bs h.0 (omega arith)))
        (map-iota_congr (λ k. pick_slot (pos k) (b ∷ bs)) (λ k. pick_slot (pos (k - w)) bs) (0 + w)
            n (λ k lo hi. pick_slot-later k b bs h.0 (omega arith))
          ∙ map-iota_shift (λ k. pick_slot (pos k) bs) w 0 n
          ∙ slots-shares bs h.1)

pick_bucket-slot :
    (bs : List BackendTable) (c k : ℕ)
    → k < sum_weights bs
    → c % sum_weights bs ≡ k
    → pick_bucket (pos c) bs (pos (sum_weights bs)) ≡ pick_slot (pos k) bs
unfolding pick_bucket
pick_bucket-slot bs c k hi e =
    let same : sum_weights bs + 0 ≡ sum_weights bs = omega arith in rw (same, e) (ground arith)

-- Over each round of `total` consecutive counter values every backend is picked exactly as often as
-- its weight says, in the order of the backends.
pub pick_bucket-shares :
    (bs : List BackendTable) (round : ℕ)
    → AreWeights bs
    → let n = sum_weights bs in
      map (λ k. pick_bucket (pos (round * n + k)) bs (pos n)) (iota 0 n) ≡ shares bs
pick_bucket-shares bs round h =
    let n = sum_weights bs in
    map-iota_congr (λ k. pick_bucket (pos (round * n + k)) bs (pos n)) (λ k. pick_slot (pos k) bs) 0
      n
      (λ k lo hi.
        pick_bucket-slot bs (round * n + k) k (omega arith)
          (mul-add-mod_self_right round n k ∙ mod-eq_of_lt {n = k} {m = n} (omega arith)))
    ∙ slots-shares bs h

pick_slot-found :
    (bs : List BackendTable) (k : ℕ)
    → AreWeights bs
    → k < sum_weights bs
    → Any (λ b. pick_slot (pos k) bs ≡ some b) bs
pick_slot-found [] k h lt = absurd (omega arith)
pick_slot-found (b ∷ bs) k h lt = elim (Bool-cases (ltb k (weight b))) [
  | inl here ↦ inl (pick_slot-here k b bs h.0 (ground arith))
  | inr later ↦
      let e = pick_slot-later k b bs h.0 (ground arith) in
      inr (
        subst (λ r. Any (λ x. r ≡ some x) bs) (sym e)
          (pick_slot-found bs (k - weight b) h.1 (ground arith)))
]

pick_slot-negative :
    (b : BackendTable) (bs : List BackendTable) (k : ℕ)
    → neg_part b.weight ≡ 0
    → pick_slot (negsuc k) (b ∷ bs) ≡ some b
unfolding pick_slot ◌-ℤ◌
pick_slot-negative b bs k nonneg = ground arith

rem_slot-found :
    (bs : List BackendTable) (slot : ℤ)
    → AreWeights bs
    → pos_part slot < sum_weights bs
    → Any (λ b. pick_slot slot bs ≡ some b) bs
rem_slot-found bs (pos k) h lt = pick_slot-found bs k h lt
rem_slot-found [] (negsuc k) h lt = absurd (omega arith)
rem_slot-found (b ∷ bs) (negsuc k) h lt = inl (pick_slot-negative b bs k h.0)

mod_total : (c n : ℕ) → 0 < n → c % (n + 0) ≡ c % n
mod_total c n h = ap (λ (m : ℕ). c % m) (omega arith)

pick_bucket-rem :
    (bs : List BackendTable) (c : ℤ)
    → 0 < sum_weights bs
    → pick_bucket c bs (pos (sum_weights bs)) ≡ pick_slot (rem_ℤ c (pos (sum_weights bs))) bs
unfolding pick_bucket
pick_bucket-rem bs c h = ground arith

pos_part-rem-lt : (c : ℤ) (n : ℕ) → 0 < n → pos_part (rem_ℤ c (pos n)) < n
pos_part-rem-lt (pos c) n h = rw (mod_total c n h) (mod-lt c h)
pos_part-rem-lt (negsuc c) n h = ground arith

-- Whatever the counter, after a wrap-around too, some backend of the rule is picked.
pub pick_bucket-found :
    (bs : List BackendTable) (c : ℤ)
    → AreWeights bs
    → 0 < sum_weights bs
    → Any (λ b. pick_bucket c bs (pos (sum_weights bs)) ≡ some b) bs
pick_bucket-found bs c h positive = rw (pick_bucket-rem bs c positive) (
    rem_slot-found bs (rem_ℤ c (pos (sum_weights bs))) h
      (pos_part-rem-lt c (sum_weights bs) positive))
