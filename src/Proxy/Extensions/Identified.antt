-- ===== src/Proxy/Extensions/Identified.antt =====
-- What a request that goes on says about the identity of its client.
use krouter.Prelude.{
  ℕ, ℤ, pos, ◌≡◌, refl, subst, ◌∙◌, ◌⊎◌, inl, inr, Bool, true, false, some, List, [], ◌∷◌,
  if◌then◌else◌, is_empty, ◌&&◌, arith, Bool-cases, Option-cases, Str, codes, str_eq, join,
}
use krouter.Compiled.{Auth}
use krouter.Http.{Header, Request, header_values, header_set, canonical_key}
use krouter.Http.Headers.{same_name, same_name_refl, header_values-set, header_values-del}
use krouter.Enforcer.Evaluate.{Evaluated-cases, decided, evaluate}
use krouter.Enforcer.{
  Identity, Decision, Providers, header_user, header_email, header_groups, strip_identity,
  apply_identity,
}
use krouter.Proxy.Message.{Writer}
use krouter.Proxy.Extensions.{Inspector, deny, render, serve_auth}

abbrev one_unless_empty : Str → List Str
one_unless_empty s = if is_empty s then [] else s ∷ []

-- The header names this identity and no other one: what is not known of it is not named.
pub record Names (i : Identity) (h : Header) : Type 0 where
  pub user : header_values h header_user ≡ one_unless_empty i.user
  pub email : header_values h header_email ≡ one_unless_empty i.email
  pub groups :
      header_values h header_groups
      ≡ (if is_empty i.groups then [] else join i.groups (codes ",") ∷ [])

pub record NamesNobody (h : Header) : Type 0 where
  pub user : header_values h header_user ≡ []
  pub email : header_values h header_email ≡ []
  pub groups : header_values h header_groups ≡ []

user-email : same_name header_user header_email ≡ false
unfolding canonical_key str_eq
user-email = refl

user-groups : same_name header_user header_groups ≡ false
unfolding canonical_key str_eq
user-groups = refl

email-user : same_name header_email header_user ≡ false
unfolding canonical_key str_eq
email-user = refl

email-groups : same_name header_email header_groups ≡ false
unfolding canonical_key str_eq
email-groups = refl

groups-user : same_name header_groups header_user ≡ false
unfolding canonical_key str_eq
groups-user = refl

groups-email : same_name header_groups header_email ≡ false
unfolding canonical_key str_eq
groups-email = refl

if_same : (b : Bool) (l : List Str) → (if b then l else l) ≡ l
if_same true l = refl
if_same false l = refl

set_if_values :
    (b : Bool) (h : Header) (a name v : Str)
    → header_values (if b then h else header_set h a v) name ≡ (
        if b
        then header_values h name
        else (if same_name a name then v ∷ [] else header_values h name))
set_if_values true h a name v = refl
set_if_values false h a name v = header_values-set h a name v

ruleset name_laws = (
  user-email, user-groups, email-user, email-groups, groups-user, groups-email, same_name_refl,
  if_same, set_if_values, header_values-del,
)

strip_identity-NamesNobody : (h : Header) → NamesNobody (strip_identity h)
unfolding strip_identity
strip_identity-NamesNobody h = record {
  user = simp name_laws refl;
  email = simp name_laws refl;
  groups = simp name_laws refl;
}

apply_identity-Names : (i : Identity) (h : Header) → NamesNobody h → Names i (apply_identity i h)
unfolding apply_identity
apply_identity-Names i h nobody = record {
  user = simp (name_laws, nobody.user) refl;
  email = simp (name_laws, nobody.email) refl;
  groups = simp (name_laws, nobody.groups) refl;
}

-- Every other header is as it was.
abbrev pub KeepsOthers : Header → Header → Type 0
KeepsOthers h h' =
    (name : Str)
    → same_name header_user name ≡ false
    → same_name header_email name ≡ false
    → same_name header_groups name ≡ false
    → header_values h' name ≡ header_values h name

strip_identity-KeepsOthers : (h : Header) → KeepsOthers h (strip_identity h)
unfolding strip_identity
strip_identity-KeepsOthers h name user email groups =
    simp (header_values-del, user, email, groups) refl

apply_identity-KeepsOthers : (i : Identity) (h : Header) → KeepsOthers h (apply_identity i h)
unfolding apply_identity
apply_identity-KeepsOthers i h name user email groups =
    simp (set_if_values, user, email, groups, if_same) refl

module _ (providers : Providers) (inspect : Inspector) (cfg : Auth) (now : ℕ) (grpc_rule : Bool)
    (uri : Str) (w : Writer) (r : Request) where
  -- Let through, under the name of the identity that the enforcer has decided on.
  pub record IsNamed (status : ℤ) (user : Str) (h : Header) : Type 0 where
    pub identity : Identity
    pub decision : Decision
    pub response : Header
    pub evaluated :
        (evaluate providers cfg now grpc_rule uri r w.header).0 ≡ decided decision response
    pub allowed : decision.allowed ≡ true
    pub decided_on : decision.identity ≡ some identity
    pub same_user : user ≡ identity.user
    pub status_zero : status ≡ pos 0
    pub names : Names identity h

  -- Refused: the enforcer has not let the request through, which then names nobody.
  pub record IsRefused (status : ℤ) (user : Str) (h : Header) : Type 0 where
    pub decision : Decision
    pub response : Header
    pub evaluated :
        (evaluate providers cfg now grpc_rule uri r w.header).0 ≡ decided decision response
    pub not_allowed : decision.allowed ≡ false
    pub no_user : user ≡ []
    pub status_of :
        status ≡ (if is_empty decision.redirect_to && grpc_rule then pos 200 else decision.status)
    pub names_nobody : NamesNobody h

  abbrev pub IsTrueTo : ℤ → Str → Header → Type 0
  IsTrueTo status user h =
      (IsNamed status user h ⊎ IsRefused status user h) × KeepsOthers r.header h

  -- Rendering a refusal leaves the header of the request as it is.
  render-refused :
      (d : Decision) (w₀ : Writer) (h h' : Header) (status : ℤ) (user : Str) (w' : Writer)
      → d.allowed ≡ false
      → render d grpc_rule w₀ h ≡ some (status, user, w', h')
      → (h ≡ h')
        × (user ≡ [])
        × (status ≡ (if is_empty d.redirect_to && grpc_rule then pos 200 else d.status))
  unfolding render deny
  render-refused d w₀ h h' status user w' refused e = elim (Bool-cases (is_empty d.redirect_to)) [
    | inl plain ↦ elim (Bool-cases grpc_rule) [
      | inl grpc ↦ (
        ground (arith, e, refused, plain),
        ground (arith, e, refused, plain),
        ground (arith, e, refused, plain, grpc),
      )
      | inr http ↦ (
        ground (arith, e, refused, plain),
        ground (arith, e, refused, plain),
        ground (arith, e, refused, plain, http),
      )
    ]
    | inr away ↦ (
      ground (arith, e, refused, away),
      ground (arith, e, refused, away),
      ground (arith, e, refused, away),
    )
  ]

  render-IsTrueTo :
      (d : Decision) (h h' : Header) (status : ℤ) (user : Str) (w' : Writer)
      → (evaluate providers cfg now grpc_rule uri r w.header).0 ≡ decided d h
      → render d grpc_rule (record w { header = h }) (strip_identity r.header)
        ≡ some (status, user, w', h')
      → IsTrueTo status user h'
  unfolding render
  render-IsTrueTo d h h' status user w' made e = elim (Bool-cases d.allowed) [
    | inl allowed ↦ elim (Option-cases d.identity) [
      | inl nobody ↦ absurd (ground (arith, e, allowed, nobody))
      | inr (i, known) ↦
          let same : apply_identity i (strip_identity r.header) ≡ h' =
            ground (arith, e, allowed, known) in
          (
            inl (record {
              identity = i;
              decision = d;
              response = h;
              evaluated = made;
              allowed = allowed;
              decided_on = known;
              same_user = ground (arith, e, allowed, known);
              status_zero = ground (arith, e, allowed, known);
              names = subst (Names i) same (
                  apply_identity-Names i (strip_identity r.header)
                    (strip_identity-NamesNobody r.header));
            }),
            subst (KeepsOthers r.header) same (λ name a b c.
                apply_identity-KeepsOthers i (strip_identity r.header) name a b c
                ∙ strip_identity-KeepsOthers r.header name a b c),
          )
    ]
    | inr refused ↦
        let (same, nobody, answer) =
          render-refused d (record w { header = h }) (strip_identity r.header) h' status user w'
            refused e in
        (
          inr (record {
            decision = d;
            response = h;
            evaluated = made;
            not_allowed = refused;
            no_user = nobody;
            status_of = answer;
            names_nobody = subst NamesNobody same (strip_identity-NamesNobody r.header);
          }),
          subst (KeepsOthers r.header) same (strip_identity-KeepsOthers r.header),
        )
  ]

  -- A client cannot name an identity itself. If the enforcer lets the request through, `serveAuth`
  -- answers status 0 with the user of the identity that was decided on, and the identity headers of
  -- the request name exactly the user, the email and the groups of that identity. If the enforcer
  -- refuses, `serveAuth` answers the status of the refusal, or 200 to a gRPC rule that is not
  -- redirected, without a user, and these headers name nobody, whatever the client has sent in them.
  -- Every other header is as it was.
  pub serve_auth-IsTrueTo :
      (status : ℤ) (user : Str) (w' : Writer) (r' : Request)
      → serve_auth providers inspect cfg now grpc_rule uri w r ≡ some (status, user, w', r')
      → IsTrueTo status user r'.header
  unfolding serve_auth evaluate
  serve_auth-IsTrueTo status user w' r' e =
      elim (Evaluated-cases (evaluate providers cfg now grpc_rule uri r w.header).0) [
        | inl bad ↦ absurd (ground (arith, e, bad))
        | inr (d, h, made) ↦
            elim (Option-cases
              (render d grpc_rule (record w { header = h }) (strip_identity r.header))) [
                | inl missing ↦ absurd (ground (arith, e, made, missing))
                | inr ((status', user', w'', h''), rendered) ↦
                    let same : ◌≡◌ {A = ℤ × Str × Header} (status', user', h'')
                        (status, user, r'.header) =
                      ground (arith, e, made, rendered) in
                    subst (λ (o : ℤ × Str × Header). IsTrueTo o.0 o.1 o.2) same
                      (render-IsTrueTo d h h'' status' user' w'' made rendered)
              ]
      ]
