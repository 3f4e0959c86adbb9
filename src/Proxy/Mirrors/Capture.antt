-- ===== src/Proxy/Mirrors/Capture.antt =====
-- What the buffer of a mirrored body holds.
use krouter.Prelude.{
  ℕ, ◌+◌, ◌≤◌, ◌≡◌, refl, sym, subst, ◌∙◌, ◌↔◌, ◌⊎◌, inl, inr, Bool, true, false, List, [], ◌∷◌,
  ◌++◌, length, length-append, ltb, arith, append_assoc, append-nil, Bool-cases, Str,
}
use krouter.Proxy.Mirrors.{CappedBuffer, write_capped, write_all}

-- The bytes of all pieces.
abbrev pub concat : List Str → Str
concat [] = []
concat (p ∷ ps) = p ++ concat ps

abbrev pub empty_buffer : ℕ → CappedBuffer
empty_buffer limit = record { buf = []; limit = limit; overflowed = false }

pub false-true : ◌≡◌ {A = Bool} false true → ⊥
false-true h = cc

write_all-overflowed :
    (c : CappedBuffer) (ps : List Str) → c.overflowed ≡ true → (write_all c ps).overflowed ≡ true
unfolding write_all write_capped
write_all-overflowed c [] h = h
write_all-overflowed c (p ∷ ps) h = write_all-overflowed (write_capped c p) ps (ground (arith, h))

write_capped-fits :
    (c : CappedBuffer) (p : Str)
    → length c.buf + length p ≤ c.limit
    → write_capped c p ≡ record c { buf = c.buf ++ p }
unfolding write_capped
write_capped-fits c p room = ground arith

write_all-fits :
    (c : CappedBuffer) (ps : List Str)
    → c.overflowed ≡ false
    → length c.buf + length (concat ps) ≤ c.limit
    → ((write_all c ps).overflowed ≡ false) × ((write_all c ps).buf ≡ c.buf ++ concat ps)
unfolding write_all
write_all-fits c [] h room = (h, sym (append-nil c.buf))
write_all-fits c (p ∷ ps) h room =
    let here = length-append p (concat ps) in
    let grown = length-append c.buf p in
    let next : CappedBuffer = record c { buf = c.buf ++ p } in
    let (clean, whole) = write_all-fits next ps h (omega (arith, here, grown)) in
    subst
      (λ (d : CappedBuffer).
        ((write_all d ps).overflowed ≡ false) × ((write_all d ps).buf ≡ c.buf ++ (p ++ concat ps)))
      (sym (write_capped-fits c p (omega (arith, here))))
      (clean, whole ∙ append_assoc c.buf p (concat ps))

write_all-spills :
    (c : CappedBuffer) (ps : List Str)
    → length c.buf ≤ c.limit
    → (write_all c ps).overflowed ≡ false
    → length c.buf + length (concat ps) ≤ c.limit
unfolding write_all write_capped
write_all-spills c [] room h = omega (arith, room)
write_all-spills c (p ∷ ps) room h = elim (Bool-cases (ltb c.limit (length c.buf + length p))) [
  | inl spills ↦
      absurd
        (false-true (sym h ∙ write_all-overflowed (write_capped c p) ps (ground (arith, spills))))
  | inr fits ↦
      let next : CappedBuffer = record c { buf = c.buf ++ p } in
      let small : length c.buf + length p ≤ c.limit = ground (arith, fits) in
      let later = write_all-spills next ps (omega (arith, small, length-append c.buf p)) (
        subst (λ (d : CappedBuffer). (write_all d ps).overflowed ≡ false)
          (write_capped-fits c p small) h) in
      omega (arith, later, length-append c.buf p, length-append p (concat ps))
]

-- The buffer has not overflowed exactly if all that was written is within the limit, and unless it has,
-- it holds all that was written.
pub write_all-IsWhole :
    (limit : ℕ) (ps : List Str)
    → ((write_all (empty_buffer limit) ps).overflowed ≡ false ↔ (length (concat ps) ≤ limit))
      × (((write_all (empty_buffer limit) ps).overflowed ≡ true)
          ⊎ ((write_all (empty_buffer limit) ps).buf ≡ concat ps))
write_all-IsWhole limit ps =
    let within : (write_all (empty_buffer limit) ps).overflowed ≡ false
        → length (concat ps) ≤ limit =
      λ h. omega (arith, write_all-spills (empty_buffer limit) ps (omega arith) h) in
    (
      (within, (λ room. (write_all-fits (empty_buffer limit) ps refl (omega (arith, room))).0)),
      elim (Bool-cases (write_all (empty_buffer limit) ps).overflowed) [
        | inl spilt ↦ inl spilt
        | inr clean ↦
            inr (write_all-fits (empty_buffer limit) ps refl (omega (arith, within clean))).1
      ],
    )
