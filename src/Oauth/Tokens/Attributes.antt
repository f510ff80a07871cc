-- ===== src/Oauth/Tokens/Attributes.antt =====
-- Which attributes of a user a token carries, tokenservice/builder.go and utils.go.
use thunder_fork.Prelude.{
  String, ◌≡◌, inl, inr, true, false, ◌||◌, Option, some, List, [], ◌∷◌, ◌==◌, contains, is_empty,
  arith, subst, ◌∙◌, eq_iff, Option-cases, Bool-cases,
}
use thunder_fork.Prelude.Assoc.{Assoc, lookup, has, insert, lookup-insert}
use thunder_fork.Oauth.{Value, texts}
use thunder_fork.Oauth.App.{OauthApp, access_token_attributes, id_token_attributes}
use thunder_fork.Oauth.Tokens.{select, build_access_token_user_attributes}
use thunder_fork.Oauth.Tokens.Service.{
  claim_mapping, add_claims, add_scopes, scope_claims, build_oidc_claims_from_scopes,
}

has-select :
    (key : String) (names : List String) (attrs kept : Assoc Value)
    → has key (select names attrs kept) ≡ true
    → (contains key names || has key kept) ≡ true
unfolding select contains
has-select key [] attrs kept h = h
has-select key (name ∷ names) attrs kept h = elim (Option-cases (lookup name attrs)) [
  | inl p ↦ ground (arith, p, h, has-select key names attrs kept)
  | inr (v, p) ↦
      ground (
        arith,
        p,
        h,
        has-select key names attrs (insert name v kept),
        lookup-insert name key v kept,
      )
]

-- An application that lists the attributes of its access tokens gets no other attribute into them.
pub access_token_attributes-listed :
    (attrs : Assoc Value) (groups : List String) (app : OauthApp) (key : String)
    → is_empty (access_token_attributes app) ≡ false
    → has key (build_access_token_user_attributes attrs groups app) ≡ true
    → contains key (access_token_attributes app) ≡ true
unfolding build_access_token_user_attributes lookup
access_token_attributes-listed attrs groups app key listed h = ground (
  arith,
  listed,
  h,
  has-select key (access_token_attributes app) attrs [],
  lookup-insert "groups" key (texts groups) (select (access_token_attributes app) attrs []),
  eq_iff "groups" key,
)

module _ (allowed : List String) (attrs : Assoc Value) where
  -- The claims of a map come from the attributes of the user, and are allowed.
  abbrev pub IsAllowed : Assoc Value → Type 0
  IsAllowed claims =
      (key : String) (v : Value)
      → lookup key claims ≡ some v
      → (contains key allowed ≡ true) × (lookup key attrs ≡ some v)

  IsAllowed-insert :
      (name : String) (v : Value) (claims : Assoc Value)
      → contains name allowed ≡ true
      → lookup name attrs ≡ some v
      → IsAllowed claims
      → IsAllowed (insert name v claims)
  IsAllowed-insert name v claims listed held h key w e = elim (Bool-cases (name == key)) [
    | inl p ↦
        (let same : name ≡ key = (eq_iff name key).0 p in
          subst (λ x. (contains x allowed ≡ true) × (lookup x attrs ≡ some w)) same
            (listed, held ∙ ground (arith, p, e, lookup-insert name key v claims)))
    | inr p ↦ h key w (ground (arith, p, e, lookup-insert name key v claims))
  ]

  add_claims-IsAllowed :
      (names : List String) (claims : Assoc Value)
      → IsAllowed claims
      → IsAllowed (add_claims names allowed attrs claims)
  unfolding add_claims
  add_claims-IsAllowed [] claims h = h
  add_claims-IsAllowed (name ∷ names) claims h = elim (Bool-cases (contains name allowed)) [
    | inr p ↦ simp p (add_claims-IsAllowed names claims h)
    | inl p ↦ elim (Option-cases (lookup name attrs)) [
      | inl q ↦ simp (p, q) (add_claims-IsAllowed names claims h)
      | inr (v, q) ↦
          simp (p, q)
            (add_claims-IsAllowed names (insert name v claims)
              (IsAllowed-insert name v claims p q h))
    ]
  ]

  add_scopes-IsAllowed :
      (scopes : List String) (mapping : Option (Assoc (List String))) (claims : Assoc Value)
      → IsAllowed claims
      → IsAllowed (add_scopes scopes mapping allowed attrs claims)
  unfolding add_scopes
  add_scopes-IsAllowed [] mapping claims h = h
  add_scopes-IsAllowed (scope ∷ scopes) mapping claims h =
      add_scopes-IsAllowed scopes mapping _
        (add_claims-IsAllowed (scope_claims mapping scope) claims h)

-- Whatever the scopes, an ID token gets no claim of the user but those that the application lists for
-- ID tokens, with the values that the user has.
pub oidc_claims-allowed :
    (scopes : List String) (attrs : Assoc Value) (app : OauthApp) (key : String) (v : Value)
    → lookup key (build_oidc_claims_from_scopes scopes attrs app) ≡ some v
    → (contains key (id_token_attributes app) ≡ true) × (lookup key attrs ≡ some v)
unfolding build_oidc_claims_from_scopes lookup
oidc_claims-allowed scopes attrs app key v h =
    elim (Bool-cases (is_empty (id_token_attributes app))) [
      | inl p ↦ absurd (ground (arith, p, h))
      | inr p ↦
          add_scopes-IsAllowed (id_token_attributes app) attrs scopes (claim_mapping app) []
            (λ k w e. absurd (cc e)) key v (simp p at h)
    ]
