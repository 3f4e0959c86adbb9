-- ===== src/Routing/Select/Handshake.antt =====
-- Misdirected requests, and the certificate of a handshake.
use krouter.Prelude.{
  ℤ, ◌++◌, All, Bool-cases, sym, subst, ◌≡◌, ◌≢◌, refl, ap, ◌∙◌, ◌⊎◌, inl, inr, ◌↔◌, Bool, true,
  false, not, ◌&&◌, Option, none, some, List, [], ◌∷◌, arith, if◌then◌else◌, Option-cases, Str,
  is_empty,
}
use krouter.Routing.Types.{ListenerTable, PortTable, Tables, port_of}
use krouter.Routing.Hostname.{hostname_matches}
use krouter.Routing.Select.{
  best_listener_for, same_listener, misdirected, certificate_loop, certificate_for, is_none,
}
use krouter.Routing.Select.Candidates.{In}
use krouter.Routing.Select.Listener.{
  best_listener_for-OwnsHost, matching, Owns, best_listener_for-none, best_listener_for-Owns,
}

-- No two listeners of the port are one object.
abbrev pub HasDistinctAddresses : PortTable → Type 0
HasDistinctAddresses table =
    (k l : ListenerTable)
    → In k table.listeners
    → In l table.listeners
    → k.address ≡ l.address
    → k ≡ l

none-some : {A : Type 0} {a : A} → ◌≢◌ {A = Option A} none (some a)
none-some e = cc

some-injective : {A : Type 0} {a b : A} → ◌≡◌ {A = Option A} (some a) (some b) → a ≡ b
some-injective e = cc

true_of_not : (b : Bool) → not b ≡ false → b ≡ true
true_of_not b h = ground arith

module _ (t : Tables) (port : ℤ) (table : PortTable) (found : port_of t port ≡ some table)
    (distinct : HasDistinctAddresses table) where
  same_listener_iff :
      (host : Str) (o : Option ListenerTable) (l : ListenerTable)
      → best_listener_for table host ≡ o
      → In l table.listeners
      → (same_listener o l ≡ true) ↔ (o ≡ some l)
  same_listener_iff host none l e i = ((λ h. cc), (λ h. cc))
  same_listener_iff host (some k) l e i = (
    (λ h. ap some (distinct k l (best_listener_for-OwnsHost host table k e).0 i (ground arith))),
    (λ h. ground arith),
  )

  -- A request on a known port, whose listeners are objects of their own, is not misdirected exactly
  -- if no listener matches the server name of its connection, or one listener owns both the server
  -- name and the authority. The owner of a name is, among the listeners of the port that match it,
  -- the first of those with the best score.
  pub misdirected_iff :
      (server_name host : Str)
      → (misdirected t port server_name host ≡ false) ↔ (
          (matching server_name table.listeners ≡ [])
          ⊎ ((l : ListenerTable) × Owns server_name table l × Owns host table l))
  unfolding misdirected
  misdirected_iff server_name host = elim (Option-cases (best_listener_for table server_name)) [
    | inl e ↦
        rw (found, e, misdirected)
          ((λ h. inl ((best_listener_for-none server_name table).0 e)), (λ h. refl))
    | inr (selected, e) ↦
        let (to, from) =
          same_listener_iff host (best_listener_for table host) selected refl
            (best_listener_for-OwnsHost server_name table selected e).0 in
        rw (found, e, misdirected)
          (
            (λ h. inr (
              selected,
              (best_listener_for-Owns server_name table selected).0 e,
              (best_listener_for-Owns host table selected).0
                  (to (true_of_not (same_listener (best_listener_for table host) selected) h)),
            )),
            elim [
              | inl nobody ↦
                  absurd (none-some (sym ((best_listener_for-none server_name table).1 nobody) ∙ e))
              | inr (l, named, hosts) ↦
                  let same : l ≡ selected =
                    some-injective
                      (sym ((best_listener_for-Owns server_name table l).1 named) ∙ e) in
                  rw (from ((best_listener_for-Owns host table l).1 hosts ∙ ap some same)) refl
            ],
          )
  ]

-- The first element that passes a test.
pub record IsFirst {A : Type 0} (test : A → Bool) (l : List A) (a : A) : Type 0 where
  pub before : List A
  pub after : List A
  pub split : l ≡ before ++ a ∷ after
  pub passes : test a ≡ true
  pub fail_before : All (λ b. test b ≡ false) before

module _ {A : Type 0} (test : A → Bool) where
  first_such : List A → Option A
  first_such [] = none
  first_such (a ∷ l) = let rest = first_such l in if test a then some a else rest

  first_such-fails : (l : List A) → All (λ b. test b ≡ false) l → first_such l ≡ none
  unfolding first_such
  first_such-fails [] all = refl
  first_such-fails (a ∷ l) (fails, all) = rw fails (first_such-fails l all)

  first_such-split :
      (before : List A) (a : A) (after : List A)
      → test a ≡ true
      → All (λ b. test b ≡ false) before
      → first_such (before ++ a ∷ after) ≡ some a
  unfolding first_such
  first_such-split [] a after passes all = rw passes refl
  first_such-split (b ∷ before) a after passes (fails, all) =
      rw fails (first_such-split before a after passes all)

  first_such-none : (l : List A) → first_such l ≡ none → All (λ b. test b ≡ false) l
  unfolding first_such
  first_such-none [] e = tt
  first_such-none (a ∷ l) e = elim (Bool-cases (test a)) [
    | inl passes ↦ absurd (ground (arith, e, passes))
    | inr fails ↦ (fails, first_such-none l (ground (arith, e, fails)))
  ]

  first_such-IsFirst : (l : List A) (a : A) → first_such l ≡ some a → IsFirst test l a
  unfolding first_such
  first_such-IsFirst [] a e = cc
  first_such-IsFirst (b ∷ l) a e = elim (Bool-cases (test b)) [
    | inl passes ↦
        let same : b ≡ a = ground (arith, e, passes) in
        record {
          before = [];
          after = l;
          split = ap (λ c. c ∷ l) same;
          passes = subst (λ c. test c ≡ true) same passes;
          fail_before = tt;
        }
    | inr fails ↦
        let rest = first_such-IsFirst l a (ground (arith, e, fails)) in
        record {
          before = b ∷ rest.before;
          after = rest.after;
          split = ap (λ m. b ∷ m) rest.split;
          passes = rest.passes;
          fail_before = (fails, rest.fail_before);
        }
  ]

  IsFirst-first_such : (l : List A) (a : A) → IsFirst test l a → first_such l ≡ some a
  IsFirst-first_such l a h =
      ap first_such h.split ∙ first_such-split h.before a h.after h.passes h.fail_before

abbrev pub has_cert : ListenerTable → Bool
has_cert l = not (is_none l.cert)

-- The listener has a certificate, and its hostname matches a server name that is not empty.
abbrev pub is_named : Str → ListenerTable → Bool
is_named name l = has_cert l && (not (is_empty name) && hostname_matches l.hostname name)

abbrev or_else : Option ListenerTable → Option ListenerTable → Option ListenerTable
or_else (some l) other = some l
or_else none other = other

certificate_loop-first :
    (name : Str) (fallback : Option ListenerTable) (ls : List ListenerTable)
    → certificate_loop name fallback ls
      ≡ or_else (first_such (is_named name) ls) (or_else fallback (first_such has_cert ls))
unfolding certificate_loop first_such
certificate_loop-first name none [] = refl
certificate_loop-first name (some l) [] = refl
certificate_loop-first name none (l ∷ ls) =
    ground (arith, certificate_loop-first name none ls, certificate_loop-first name (some l) ls)
certificate_loop-first name (some k) (l ∷ ls) =
    ground (arith, certificate_loop-first name (some k) ls)

-- The listener whose certificate a handshake gets.
abbrev pub IsCertified : Str → List ListenerTable → ListenerTable → Type 0
IsCertified name ls l =
    IsFirst (is_named name) ls l ⊎ (All (λ k. is_named name k ≡ false) ls × IsFirst has_cert ls l)

or_else_iff :
    (name : Str) (ls : List ListenerTable) (l : ListenerTable)
    → (or_else (first_such (is_named name) ls) (first_such has_cert ls) ≡ some l)
      ↔ IsCertified name ls l
or_else_iff name ls l = (
  (λ e. elim (Option-cases (first_such (is_named name) ls)) [
    | inl unnamed ↦ inr (
      first_such-none (is_named name) ls unnamed,
      first_such-IsFirst has_cert ls l (ground (arith, e, unnamed)),
    )
    | inr (k, named) ↦ inl (first_such-IsFirst (is_named name) ls l (ground (arith, e, named)))
  ]),
  (λ h. elim h [
    | inl named ↦ rw (IsFirst-first_such (is_named name) ls l named) refl
    | inr (unnamed, certified) ↦
        rw (first_such-fails (is_named name) ls unnamed)
          (IsFirst-first_such has_cert ls l certified)
  ]),
)

-- The certificate and the client validation of a handshake on a known port are those of a listener
-- exactly if that listener is the first of the port that has a certificate and whose hostname matches
-- the server name, or, where no listener is such or there is no server name, the first that has a
-- certificate. Scores have no part in it.
pub certificate_for_iff :
    (t : Tables) (port : ℤ) (table : PortTable) (server_name : Str) (l : ListenerTable)
    → port_of t port ≡ some table
    → (certificate_for t port server_name ≡ some l) ↔ IsCertified server_name table.listeners l
unfolding certificate_for
certificate_for_iff t port table server_name l found =
    rw (found, certificate_for, certificate_loop-first server_name none table.listeners)
      (or_else_iff server_name table.listeners l)
