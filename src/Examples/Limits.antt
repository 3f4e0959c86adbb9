-- ===== src/Examples/Limits.antt =====
-- Two documents that are merged, and ports that are allocated.
use krouter.Prelude.{
  ℤ, pos, ◌≡◌, refl, ◌↔◌, false, Option, none, some, [], ◌∷◌, Str, codes, is_empty, if◌then◌else◌,
  ok,
}
use krouter.Http.{lookup_str}
use krouter.Compiled.{RateLimit}
use krouter.RateLimit.Document.{Document, HclDocument, parse, merge}
use krouter.RateLimit.Document.Merge.{IsMerged, merge_iff}
use krouter.RateLimit.Document.Checked.{IsLimit, merge-IsLimit}
use krouter.PortAllocator.{PortAllocator, allocate, group_key}
use krouter.PortAllocator.Search.{IsAllocation}
use krouter.PortAllocator.Stable.{IsKept, Outcome, allocate-Outcome, allocate-IsKept}

-- "a" sets everything but the burst, and "b" sets the burst.
abbrev decode : Str → Option HclDocument
decode src =
    if is_empty src
    then none
    else some (record {
      version = pos 1;
      rate_limit = some (record {
        requests = some (pos 10);
        window = some (codes "500us");
        burst = none;
        key = none;
        status = some (pos 503);
      });
    })

-- Half a millisecond.
abbrev duration : Str → Option ℤ
duration text = some (pos 500000)

abbrev parsed : Document
parsed = record {
  requests = some (pos 10);
  window = some (pos 500000);
  burst = none;
  key = none;
  status = some (pos 503);
}

text_parsed : parse decode duration (codes "text") ≡ ok parsed
unfolding parse
text_parsed = refl

-- The window of this limit is no millisecond long.
abbrev short_limit : RateLimit
short_limit = record {
  requests = pos 10;
  window_millis = pos 0;
  burst = pos 10;
  key = codes "client_ip";
  status = pos 503;
}

short_merged : merge (parsed ∷ []) ≡ ok short_limit
unfolding merge
short_merged = refl

-- A later document, with another number of requests and without a status.
abbrev later : Document
later = record {
  requests = some (pos 20);
  window = none;
  burst = none;
  key = some (codes "header:X-Key");
  status = none;
}

abbrev merged_limit : RateLimit
merged_limit = record {
  requests = pos 20;
  window_millis = pos 0;
  burst = pos 20;
  key = codes "header:X-Key";
  status = pos 503;
}

later_merged : merge (parsed ∷ later ∷ []) ≡ ok merged_limit
unfolding merge
later_merged = refl

merge_iff_example :
    (merge (parsed ∷ later ∷ []) ≡ ok merged_limit) ↔ IsMerged (parsed ∷ later ∷ []) merged_limit
merge_iff_example = merge_iff (parsed ∷ later ∷ []) merged_limit

merge-IsLimit_example : IsLimit decode duration short_limit
merge-IsLimit_example =
    merge-IsLimit decode duration (parsed ∷ []) short_limit ((codes "text", text_parsed), tt)
      short_merged

abbrev empty_allocator : PortAllocator
empty_allocator = record { min_port = 10000; max_port = 10010; used = λ _. false; assigned = [] }

empty_IsAllocation : IsAllocation empty_allocator
unfolding lookup_str
empty_IsAllocation = record { covered = λ k p e. cc; apart = λ j k p e f. cc }

allocate-Outcome_example :
    let out = allocate (codes "uid") (pos 80) (codes "HTTP") empty_allocator in
    Outcome (group_key (codes "uid") (pos 80) (codes "HTTP")) empty_allocator out.0 out.1
allocate-Outcome_example = allocate-Outcome (codes "uid") (pos 80) (codes "HTTP") empty_allocator

allocate-IsKept_example :
    let out = allocate (codes "uid") (pos 80) (codes "HTTP") empty_allocator in
    IsKept (group_key (codes "uid") (pos 80) (codes "HTTP")) empty_allocator out.0 out.1
allocate-IsKept_example =
    allocate-IsKept (codes "uid") (pos 80) (codes "HTTP") empty_allocator empty_IsAllocation
