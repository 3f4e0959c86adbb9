-- ===== src/Http.antt =====
-- The parts of net/http that the request path reads: canonical header names, header lookups, and
-- the request itself.
pub mod Headers
use krouter.Prelude.{
  ℕ, ◌-◌, ◌≡◌, refl, Bool, true, ◌||◌, ◌&&◌, Option, none, some, List, [], ◌∷◌, ◌++◌, leb, ◌==◌,
  if◌then◌else◌, Str, codes, str_eq, has_prefix, to_lower, all, any,
}

-- A map with string keys, as an association list.
unfoldable pub lookup_str {ℓ} : {A : Type ℓ} → Str → List (Str × A) → Option A
lookup_str k [] = none
lookup_str k ((j, v) ∷ m) = if str_eq j k then some v else lookup_str k m

-- Assigning to a key of such a map, and deleting one.
unfoldable pub put_str {ℓ} : {A : Type ℓ} → Str → A → List (Str × A) → List (Str × A)
put_str k v [] = (k, v) ∷ []
put_str k v ((j, w) ∷ m) = if str_eq j k then (k, v) ∷ m else (j, w) ∷ put_str k v m

unfoldable pub remove_str {ℓ} : {A : Type ℓ} → Str → List (Str × A) → List (Str × A)
remove_str k [] = []
remove_str k ((j, w) ∷ m) = if str_eq j k then remove_str k m else (j, w) ∷ remove_str k m

abbrev pub Header : Type 0
Header = List (Str × List Str)

is_alphanumeric : ℕ → Bool
is_alphanumeric c =
    (leb b'0' c && leb c b'9') || (leb b'a' c && leb c b'z') || (leb b'A' c && leb c b'Z')

-- The bytes of a token (RFC 7230).
is_token_byte : ℕ → Bool
unfolding is_alphanumeric
is_token_byte c = is_alphanumeric c || any (λ d. c == d) (codes "!#$%&'*+-.^_`|~")

to_upper : ℕ → ℕ
to_upper c = if leb b'a' c && leb c b'z' then c - 32 else c

-- Upper case for the first letter and after a dash, lower case for the rest.
capitalise : Bool → Str → Str
unfolding to_upper to_lower
capitalise upper [] = []
capitalise upper (c ∷ s) = (if upper then to_upper c else to_lower c) ∷ capitalise (c == b'-') s

-- textproto.CanonicalMIMEHeaderKey: a name that is no token stays as it is.
unfoldable pub canonical_key : Str → Str
unfolding is_token_byte capitalise
canonical_key s = if all is_token_byte s then capitalise true s else s

-- Header.Values
unfoldable pub header_values : Header → Str → List Str
unfolding lookup_str canonical_key
header_values h name = elim (lookup_str (canonical_key name) h) [ none ↦ [] | some vs ↦ vs ]

abbrev pub first_or_empty : List Str → Str
first_or_empty [] = []
first_or_empty (v ∷ vs) = v

-- Header.Get
unfoldable pub header_get : Header → Str → Str
unfolding header_values
header_get h name = first_or_empty (header_values h name)

-- Header.Set, Header.Add and Header.Del
unfoldable pub header_set : Header → Str → Str → Header
unfolding put_str canonical_key
header_set h name value = put_str (canonical_key name) (value ∷ []) h

unfoldable pub header_add : Header → Str → Str → Header
unfolding put_str canonical_key header_values
header_add h name value = put_str (canonical_key name) (header_values h name ++ value ∷ []) h

unfoldable pub header_del : Header → Str → Header
unfolding remove_str canonical_key
header_del h name = remove_str (canonical_key name) h

-- `query` is the parsed query string of the URL, `url_path` its decoded path.
pub record Request : Type 0 where
  pub method : Str
  pub url_path : Str
  pub query : List (Str × List Str)
  pub header : Header
  pub remote_addr : Str

-- grpc.IsRequest
unfoldable pub is_grpc_request : Request → Bool
unfolding header_get
is_grpc_request r =
    has_prefix (header_get r.header (codes "Content-Type")) (codes "application/grpc")

canonical_key_test : canonical_key (codes "x-forwarded-FOR") ≡ codes "X-Forwarded-For"
unfolding canonical_key
canonical_key_test = refl
