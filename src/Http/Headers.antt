-- ===== src/Http/Headers.antt =====
-- What a header holds after Header.Set, Header.Add and Header.Del.
use krouter.Prelude.{
  ◌≡◌, refl, ap, ◌∙◌, Bool, true, false, List, [], ◌∷◌, ◌++◌, Option, none, some, if◌then◌else◌,
  arith, Str, str_eq, str_eq_iff, str_eq_refl,
}
use krouter.Http.{
  Header, lookup_str, put_str, remove_str, canonical_key, header_values, header_set, header_add,
  header_del,
}

module _ {ℓ} {A : Type ℓ} where
  pub lookup_str-put_str :
      (k j : Str) (v : A) (m : List (Str × A))
      → lookup_str j (put_str k v m) ≡ (if str_eq k j then some v else lookup_str j m)
  unfolding lookup_str put_str
  lookup_str-put_str k j v [] = refl
  lookup_str-put_str k j v ((i, w) ∷ m) =
      ground (arith, str_eq_iff k j, str_eq_iff i k, str_eq_iff i j, lookup_str-put_str k j v m)

  pub lookup_str-remove_str :
      (k j : Str) (m : List (Str × A))
      → lookup_str j (remove_str k m) ≡ (if str_eq k j then none else lookup_str j m)
  unfolding lookup_str remove_str
  lookup_str-remove_str k j [] = ground arith
  lookup_str-remove_str k j ((i, w) ∷ m) =
      ground (arith, str_eq_iff k j, str_eq_iff i k, str_eq_iff i j, lookup_str-remove_str k j m)

abbrev or_nothing : Option (List Str) → List Str
or_nothing o = elim o [ none ↦ [] | some vs ↦ vs ]

if_values :
    (b : Bool) (v : List Str) (o : Option (List Str))
    → or_nothing (if b then some v else o) ≡ (if b then v else or_nothing o)
if_values true v o = refl
if_values false v o = refl

if_nothing :
    (b : Bool) (o : Option (List Str))
    → or_nothing (if b then none else o) ≡ (if b then [] else or_nothing o)
if_nothing true o = refl
if_nothing false o = refl

-- Two names are those of one header if they have one canonical form.
abbrev pub same_name : Str → Str → Bool
same_name a b = str_eq (canonical_key a) (canonical_key b)

pub same_name_refl : (a : Str) → same_name a a ≡ true
same_name_refl a = str_eq_refl (canonical_key a)

module _ (h : Header) (a b v : Str) where
  pub header_values-set :
      header_values (header_set h a v) b ≡ (if same_name a b then v ∷ [] else header_values h b)
  unfolding header_values header_set
  header_values-set =
      ap or_nothing (lookup_str-put_str (canonical_key a) (canonical_key b) (v ∷ []) h)
      ∙ if_values (same_name a b) (v ∷ []) (lookup_str (canonical_key b) h)

  pub header_values-add :
      header_values (header_add h a v) b
      ≡ (if same_name a b then header_values h a ++ v ∷ [] else header_values h b)
  unfolding header_values header_add
  header_values-add =
      ap or_nothing
        (lookup_str-put_str (canonical_key a) (canonical_key b) (header_values h a ++ v ∷ []) h)
      ∙ if_values (same_name a b) (header_values h a ++ v ∷ []) (lookup_str (canonical_key b) h)

module _ (h : Header) (a b : Str) where
  pub header_values-del :
      header_values (header_del h a) b ≡ (if same_name a b then [] else header_values h b)
  unfolding header_values header_del
  header_values-del =
      ap or_nothing (lookup_str-remove_str (canonical_key a) (canonical_key b) h)
      ∙ if_nothing (same_name a b) (lookup_str (canonical_key b) h)
