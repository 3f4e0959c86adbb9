-- ===== src/Kube.antt =====
-- The Kubernetes objects that the data plane reads: ConfigMaps and Secrets, and the labels and keys
-- of internal/lib/k8s/compiled/compiled.go by which it finds its way in them.
use krouter.Prelude.{Option, none, some, List, [], ◌++◌, Str, codes}
use krouter.Http.{lookup_str}

-- A ConfigMap or a Secret, as far as it is read.
pub record Object : Type 0 where
  pub labels : List (Str × Str)
  pub data_of : List (Str × Str)

abbrev pub label_gateway_uid : Str
label_gateway_uid = codes "krouter.link-society.com/gateway-uid"

abbrev pub label_role : Str
label_role = codes "krouter.link-society.com/role"

abbrev pub or_empty : Option Str → Str
or_empty none = []
or_empty (some s) = s

-- Reading a Go map of strings: a missing key gives the empty string.
unfoldable pub text_at : Str → List (Str × Str) → Str
unfolding lookup_str
text_at k m = or_empty (lookup_str k m)

-- `AuthSecretKey`
abbrev pub auth_secret_key : Str → Str
auth_secret_key identity = codes "auth-" ++ (identity ++ codes ".json")
