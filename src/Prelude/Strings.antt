-- ===== src/Prelude/Strings.antt =====
-- Go strings: sequences of bytes, with the functions of package strings that the program calls.
use Prim.Native.Nat.{ℕ, ◌+◌, ◌-◌, ◌≤◌}
use Prim.Native.Char.{code}
use Prim.Native.String.{String}
use mathlib.Core.Path.{◌≡◌, refl, ap, sym, subst}
use mathlib.Core.Bool.{Bool, true, false, ◌&&◌, ◌||◌}
use mathlib.Core.Logic.{◌↔◌}
use mathlib.Core.Option.{Option, none, some}
use mathlib.Core.List.{List, [], ◌∷◌, ◌++◌, map}
use native.Mathlib.Omega.{arith}
use krouter.Prelude.Tests.{ltb, leb, ◌==◌, if◌then◌else◌, is_some}
use krouter.Prelude.Lists.{length, take, drop, drop-append, take-append-drop, length-append}

abbrev pub Str : Type 0
Str = List ℕ

-- The bytes of an ASCII text.
abbrev pub codes : String → Str
codes String.[] = []
codes (String.◌∷◌ c s) = code c ∷ codes s

unfoldable pub str_eq : Str → Str → Bool
str_eq [] [] = true
str_eq (a ∷ s) (b ∷ t) = a == b && str_eq s t
str_eq _ _ = false

-- The byte order of Go's `<` on strings.
unfoldable pub str_lt : Str → Str → Bool
str_lt [] [] = false
str_lt [] (b ∷ t) = true
str_lt (a ∷ s) [] = false
str_lt (a ∷ s) (b ∷ t) = ltb a b || (a == b && str_lt s t)

-- strings.HasPrefix
unfoldable pub has_prefix : Str → Str → Bool
has_prefix s [] = true
has_prefix [] (b ∷ p) = false
has_prefix (a ∷ s) (b ∷ p) = a == b && has_prefix s p

-- strings.HasSuffix
unfoldable pub has_suffix : Str → Str → Bool
unfolding str_eq
has_suffix s suffix =
    leb (length suffix) (length s) && str_eq (drop (length s - length suffix) s) suffix

-- strings.TrimSuffix
unfoldable pub trim_suffix : Str → Str → Str
unfolding has_suffix
trim_suffix s suffix = if has_suffix s suffix then take (length s - length suffix) s else s

unfoldable pub to_lower : ℕ → ℕ
to_lower c = if leb b'A' c && leb c b'Z' then c + 32 else c

-- strings.EqualFold on ASCII text.
unfoldable pub equal_fold : Str → Str → Bool
unfolding str_eq to_lower
equal_fold s t = str_eq (map to_lower s) (map to_lower t)

-- The first of two pieces, in front of the bytes.
abbrev pub longer : ℕ → Option (Str × Str) → Option (Str × Str)
longer c none = none
longer c (some (before, after)) = some (c ∷ before, after)

-- strings.Cut; `none` where the separator is not found.
unfoldable pub cut : Str → Str → Option (Str × Str)
unfolding has_prefix
cut [] sep = if has_prefix [] sep then some ([], []) else none
cut (c ∷ s) sep =
    let rest = longer c (cut s sep) in
    if has_prefix (c ∷ s) sep then some ([], drop (length sep) (c ∷ s)) else rest

-- strings.Contains
unfoldable pub contains_str : Str → Str → Bool
unfolding cut
contains_str s sub = is_some (cut s sub)

-- strings.Join
unfoldable pub join : List Str → Str → Str
join [] sep = []
join (s ∷ []) sep = s
join (s ∷ t ∷ l) sep = s ++ (sep ++ join (t ∷ l) sep)

-- strings.TrimPrefix
unfoldable pub trim_prefix : Str → Str → Str
unfolding has_prefix
trim_prefix s p = if has_prefix s p then drop (length p) s else s

pub str_eq_refl : (s : Str) → str_eq s s ≡ true
unfolding str_eq
str_eq_refl [] = refl
str_eq_refl (a ∷ s) = ground (arith, str_eq_refl s)

pub str_eq_iff : (s t : Str) → (str_eq s t ≡ true) ↔ (s ≡ t)
unfolding str_eq
str_eq_iff [] [] = ((λ _. refl), (λ _. refl))
str_eq_iff [] (b ∷ t) = ((λ e. cc), (λ e. cc))
str_eq_iff (a ∷ s) [] = ((λ e. cc), (λ e. cc))
str_eq_iff (a ∷ s) (b ∷ t) = ground (arith, str_eq_iff s t)

pub str_lt_irrefl : (s : Str) → str_lt s s ≡ false
unfolding str_lt
str_lt_irrefl [] = refl
str_lt_irrefl (a ∷ s) = ground (arith, str_lt_irrefl s)

pub str_lt_trans : (s t u : Str) → str_lt s t ≡ true → str_lt t u ≡ true → str_lt s u ≡ true
unfolding str_lt
str_lt_trans [] [] u h k = cc
str_lt_trans [] (b ∷ t) [] h k = cc
str_lt_trans [] (b ∷ t) (c ∷ u) h k = refl
str_lt_trans (a ∷ s) [] u h k = cc
str_lt_trans (a ∷ s) (b ∷ t) [] h k = cc
str_lt_trans (a ∷ s) (b ∷ t) (c ∷ u) h k = ground (arith, str_lt_trans s t u)

-- Two different strings are ordered one way or the other.
pub str_lt_connected : (s t : Str) → str_lt s t ≡ false → str_lt t s ≡ false → s ≡ t
unfolding str_lt
str_lt_connected [] [] h k = refl
str_lt_connected [] (b ∷ t) h k = cc
str_lt_connected (a ∷ s) [] h k = cc
str_lt_connected (a ∷ s) (b ∷ t) h k = ground (arith, str_lt_connected s t)

pub str_lt_asym : (s t : Str) → str_lt s t ≡ true → str_lt t s ≡ false
str_lt_asym s t h = ground (arith, str_lt_trans s t s h, str_lt_irrefl s)

-- Not standing before is transitive.
pub str_lt_cotrans : (s t u : Str) → str_lt s t ≡ false → str_lt t u ≡ false → str_lt s u ≡ false
str_lt_cotrans s t u h k =
    ground (arith, str_lt_connected s t h, str_lt_trans t s u, str_lt_asym t s)

pub has_prefix_of_append : (p r : Str) → has_prefix (p ++ r) p ≡ true
unfolding has_prefix
has_prefix_of_append [] r = refl
has_prefix_of_append (b ∷ p) r = ground (arith, has_prefix_of_append p r)

pub has_prefix_refl : (s : Str) → has_prefix s s ≡ true
unfolding has_prefix
has_prefix_refl [] = refl
has_prefix_refl (b ∷ s) = ground (arith, has_prefix_refl s)

pub append_of_has_prefix : (s p : Str) → has_prefix s p ≡ true → s ≡ p ++ drop (length p) s
unfolding has_prefix
append_of_has_prefix s [] h = refl
append_of_has_prefix [] (b ∷ p) h = cc
append_of_has_prefix (a ∷ s) (b ∷ p) h = ground (arith, append_of_has_prefix s p)

pub has_prefix_iff : (s p : Str) → (has_prefix s p ≡ true) ↔ ((r : Str) × (s ≡ p ++ r))
has_prefix_iff s p = (
  (λ h. (drop (length p) s, append_of_has_prefix s p h)),
  (λ (r, e). rw e (has_prefix_of_append p r)),
)

take-length : (s : Str) → take (length s) s ≡ s
take-length [] = refl
take-length (a ∷ s) = ap (◌∷◌ a) (take-length s)

pub has_suffix_of_append : (r suffix : Str) → has_suffix (r ++ suffix) suffix ≡ true
unfolding has_suffix
has_suffix_of_append r suffix =
    let n : length (r ++ suffix) - length suffix ≡ length r =
      omega (arith, length-append r suffix) in
    rw (n, drop-append r suffix, str_eq_refl suffix) (ground (arith, length-append r suffix))

pub append_of_has_suffix :
    (s suffix : Str)
    → has_suffix s suffix ≡ true
    → (s ≡ take (length s - length suffix) s ++ suffix) × (length suffix ≤ length s)
unfolding has_suffix
append_of_has_suffix s suffix h =
    let same : drop (length s - length suffix) s ≡ suffix =
      (str_eq_iff (drop (length s - length suffix) s) suffix).0 (ground arith) in
    (
      subst (λ (d : Str). s ≡ take (length s - length suffix) s ++ d) same
          (sym (take-append-drop (length s - length suffix) s)),
      ground arith,
    )

pub has_suffix_iff :
    (s suffix : Str) → (has_suffix s suffix ≡ true) ↔ ((r : Str) × (s ≡ r ++ suffix))
has_suffix_iff s suffix = (
  (λ h. (take (length s - length suffix) s, (append_of_has_suffix s suffix h).0)),
  (λ (r, e). rw e (has_suffix_of_append r suffix)),
)
