-- ===== src/Examples/Identities.antt =====
-- An extension that reads tokens and passwords, and requests that it lets through and refuses.
use krouter.Prelude.{
  ◌≡◌, refl, ℤ, pos, false, Option, none, some, [], ◌∷◌, Str, codes, str_eq, ok, err, if◌then◌else◌,
}
use krouter.Compiled.{Auth}
use krouter.Http.{Header, Request}
use krouter.Enforcer.Evaluate.{evaluate, Evaluated, panics, decided}
use krouter.Enforcer.{Claims, Providers, refused, Decision, no_decision, header_user}
use krouter.Enforcer.Authorized.{IsVouched, evaluate-IsVouched}
use krouter.Enforcer.Outcome.{IsAnswer, evaluate-IsAnswer, evaluate-decides}
use krouter.Proxy.Message.{Writer, unwritten}
use krouter.Proxy.Extensions.{Inspector, passed, serve_auth}
use krouter.Proxy.Extensions.Identified.{IsTrueTo, serve_auth-IsTrueTo}
use krouter.Examples.Data.{sample_auth, sample_request}

-- Members of "dev" only, by token or by password.
abbrev pub token_auth : Auth
token_auth = record sample_auth {
  oidc = none;
  jwt = some (codes "issuer");
  ldap = some (record { document = codes "dc"; realm = [] });
  session = some (record { secret = codes "key"; lifetime_millis = pos 60000 });
  authorization = record { claim = codes "groups"; values = codes "ops" ∷ codes "dev" ∷ [] } ∷ [];
}

abbrev ann_claims : Claims
ann_claims = (codes "sub", codes "ann" ∷ []) ∷ (codes "groups", codes "dev" ∷ []) ∷ []

-- The token "t" is ann's, and her password is "p".
abbrev pub sample_providers : Providers
sample_providers = record {
  open_session = λ cfg now r. none;
  seal_session = λ cfg r s h. some h;
  refresh = λ cfg s. none;
  validate = λ cfg token. if str_eq token (codes "t") then ok ann_claims else err refused;
  authenticate = λ cfg user password.
      if str_eq password (codes "p")
      then ok (record { user = user; email = []; groups = codes "dev" ∷ []; claims = [] })
      else err refused;
  basic_auth = λ r. some (codes "ann", codes "p");
  query_escape = λ s. s;
  quote = λ s. s;
}

-- The client says that it is root.
abbrev pub request_with : Str → Request
request_with authorization = record sample_request {
  header = (header_user, codes "root" ∷ []) ∷ (codes "Authorization", authorization ∷ []) ∷ [];
}

abbrev decision_of : Evaluated → Decision
decision_of panics = no_decision
decision_of (decided d h) = d

abbrev granted : Decision
granted =
    decision_of
      (evaluate sample_providers token_auth 1 false [] (request_with (codes "Bearer t")) []).0

evaluate-IsVouched_example :
    IsVouched sample_providers token_auth 1
      (evaluate sample_providers token_auth 1 false [] (request_with (codes "Bearer t")) []).1
      granted
unfolding evaluate str_eq
evaluate-IsVouched_example =
    evaluate-IsVouched sample_providers token_auth 1 false [] (request_with (codes "Bearer t")) []
      granted [] refl refl

abbrev rejected : Decision
rejected =
    decision_of
      (evaluate sample_providers token_auth 1 false [] (request_with (codes "Bearer u")) []).0

evaluate-IsAnswer_example :
    IsAnswer sample_providers token_auth 1 false []
      (evaluate sample_providers token_auth 1 false [] (request_with (codes "Bearer u")) []).1
      rejected
unfolding evaluate str_eq
evaluate-IsAnswer_example =
    evaluate-IsAnswer sample_providers token_auth 1 false [] (request_with (codes "Bearer u")) []
      rejected [] refl

evaluate-decides_example :
    (d : Decision) × (h : Header) × ((evaluate sample_providers token_auth 1 false []
        (request_with (codes "Basic x"))
        []).0
      ≡ decided d h)
evaluate-decides_example =
    evaluate-decides sample_providers token_auth 1 false (λ ldap. refl) []
      (request_with (codes "Basic x")) []

abbrev pub sample_inspector : Inspector
sample_inspector = λ program client r headers_only. passed

abbrev pub blank : Writer
blank = record { header = []; reply = unwritten }

abbrev or_refused : Option (ℤ × Str × Writer × Request) → ℤ × Str × Writer × Request
or_refused none = (pos 0, [], blank, sample_request)
or_refused (some o) = o

abbrev through : ℤ × Str × Writer × Request
through = or_refused (
    serve_auth sample_providers sample_inspector token_auth 1 false [] blank
      (request_with (codes "Bearer t")))

serve_auth-IsTrueTo_example :
    IsTrueTo sample_providers sample_inspector token_auth 1 false [] blank
      (request_with (codes "Bearer t"))
      (pos 0)
      (codes "ann")
      through.3.header
unfolding serve_auth str_eq
serve_auth-IsTrueTo_example =
    serve_auth-IsTrueTo sample_providers sample_inspector token_auth 1 false [] blank
      (request_with (codes "Bearer t")) (pos 0) (codes "ann") through.2 through.3 refl
