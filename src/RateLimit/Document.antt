-- ===== src/RateLimit/Document.antt =====
-- The rate limiting documents and their merge (internal/extensions/ratelimiting/ratelimiting.go).
-- The HCL decoder and time.ParseDuration, in nanoseconds, are parameters.
pub mod Merge
pub mod Checked
use krouter.Prelude.{
  ℕ, zero, suc, ◌+◌, ◌/◌, ℤ, pos, negsuc, leb_ℤ, ltb_ℤ, eq_ℤ, Bool, true, false, not, ◌&&◌, ◌||◌,
  Option, none, some, List, [], ◌∷◌, if◌then◌else◌, length, leb, Str, codes, str_eq, has_prefix,
  Result, ok, err, ◌>>=◌,
}
use krouter.Compiled.{RateLimit}

-- `Document`; the window in nanoseconds.
pub record Document : Type 0 where
  pub requests : Option ℤ
  pub window : Option ℤ
  pub burst : Option ℤ
  pub key : Option Str
  pub status : Option ℤ

-- `hclRateLimit`
pub record HclRateLimit : Type 0 where
  pub requests : Option ℤ
  pub window : Option Str
  pub burst : Option ℤ
  pub key : Option Str
  pub status : Option ℤ

-- `hclDocument`
pub record HclDocument : Type 0 where
  pub version : ℤ
  pub rate_limit : Option HclRateLimit

-- The errors of `Parse` and `Merge`.
pub data DocumentError : Type 0 where
  malformed_document : DocumentError
  unsupported_version : ℤ → DocumentError
  missing_block : DocumentError
  invalid_requests : DocumentError
  invalid_window : Str → DocumentError
  invalid_burst : DocumentError
  invalid_key : Str → DocumentError
  invalid_status : DocumentError
  incomplete : DocumentError

-- `Requests` and `Burst`, where they are set.
abbrev pub is_positive : Option ℤ → Bool
is_positive none = true
is_positive (some n) = not (leb_ℤ n (pos 0))

abbrev header_prefix : Str
header_prefix = codes "header:"

abbrev pub is_key : Option Str → Bool
is_key none = true
is_key (some k) =
    str_eq k (codes "client_ip")
    || (has_prefix k header_prefix && not (leb (length k) (length header_prefix)))

abbrev pub is_status : Option ℤ → Bool
is_status none = true
is_status (some n) = not (ltb_ℤ n (pos 400) || ltb_ℤ (pos 599) n)

abbrev pub or_text : Option Str → Str
or_text none = []
or_text (some s) = s

module _ (decode : Str → Option HclDocument) (parse_duration : Str → Option ℤ) where
  unfoldable pub parse_window : Option Str → Result DocumentError (Option ℤ)
  parse_window none = ok none
  parse_window (some text) = elim (parse_duration text) [
    | none ↦ err (invalid_window text)
    | some d ↦ if leb_ℤ d (pos 0) then err (invalid_window text) else ok (some d)
  ]

  -- The checks after the window.
  unfoldable pub checked : HclRateLimit → Option ℤ → Result DocumentError Document
  checked raw window =
      if not (is_positive raw.burst)
      then err invalid_burst
      else if not (is_key raw.key)
      then err (invalid_key (or_text raw.key))
      else if not (is_status raw.status)
      then err invalid_status
      else ok (record {
        requests = raw.requests;
        window = window;
        burst = raw.burst;
        key = raw.key;
        status = raw.status;
      })

  unfoldable pub parse_block : HclRateLimit → Result DocumentError Document
  unfolding parse_window checked
  parse_block raw =
      if not (is_positive raw.requests)
      then err invalid_requests
      else parse_window raw.window >>= λ window. checked raw window

  unfoldable pub parse_hcl : HclDocument → Result DocumentError Document
  unfolding parse_block
  parse_hcl raw =
      if not (eq_ℤ raw.version (pos 1))
      then err (unsupported_version raw.version)
      else elim raw.rate_limit [ none ↦ err missing_block | some block ↦ parse_block block ]

  -- `Parse`
  unfoldable pub parse : Str → Result DocumentError Document
  unfolding parse_hcl
  parse src = elim (decode src) [ none ↦ err malformed_document | some raw ↦ parse_hcl raw ]

-- `if doc.X != nil { merged.X = doc.X }`
abbrev pub override {ℓ} : {A : Type ℓ} → Option A → Option A → Option A
override (some a) old = some a
override none old = old

abbrev pub override_with : Document → Document → Document
override_with doc merged = record {
  requests = override doc.requests merged.requests;
  window = override doc.window merged.window;
  burst = override doc.burst merged.burst;
  key = override doc.key merged.key;
  status = override doc.status merged.status;
}

-- The loop of `Merge`.
unfoldable pub merge_loop : Document → List Document → Document
merge_loop merged [] = merged
merge_loop merged (doc ∷ docs) = merge_loop (override_with doc merged) docs

abbrev pub or_else {ℓ} : {A : Type ℓ} → A → Option A → A
or_else a none = a
or_else a (some b) = b

-- Duration.Milliseconds, which drops what is left of a millisecond.
abbrev pub milliseconds : ℤ → ℤ
milliseconds (pos n) = pos (n / 1000000)
milliseconds (negsuc n) = let m = (n + 1) / 1000000 in elim m [ zero ↦ pos 0 | suc k ↦ negsuc k ]

-- What `Merge` makes of the merged document.
unfoldable pub compile : Document → Result DocumentError RateLimit
compile merged = elim merged.requests [
  | none ↦ err incomplete
  | some requests ↦ elim merged.window [
    | none ↦ err incomplete
    | some window ↦ ok (record {
      requests = requests;
      window_millis = milliseconds window;
      burst = or_else requests merged.burst;
      key = or_else (codes "client_ip") merged.key;
      status = or_else (pos 429) merged.status;
    })
  ]
]

abbrev pub nothing_set : Document
nothing_set = record { requests = none; window = none; burst = none; key = none; status = none }

-- `Merge`
unfoldable pub merge : List Document → Result DocumentError RateLimit
unfolding merge_loop compile
merge docs = compile (merge_loop nothing_set docs)
