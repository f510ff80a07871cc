-- ===== src/Oauth/Tokens/Claims.antt =====
-- Which standard claims a token carries, tokenservice/builder.go and system/jwt/service.go.
use thunder_fork.Prelude.{
  ℕ, String, ◌≡◌, inl, inr, false, Option, none, some, [], ◌∷◌, ◌==◌, is_empty, if◌then◌else◌,
  arith, refl, ap, ◌∙◌, eq_iff, Bool-cases,
}
use thunder_fork.Prelude.Assoc.{Assoc, lookup, insert, UniqueKeys, lookup-insert, UniqueKeys-insert}
use thunder_fork.Oauth.{Value, text, Claim, value}
use thunder_fork.Oauth.Scopes.{join_scopes}
use thunder_fork.Oauth.Tokens.{
  BuildContext, set_text, append_user_type_and_ou, set_scope, set_all, write_all,
  build_access_token_claims, jwt_payload,
}

-- A claim, or the value of an attribute in its place.
abbrev pub claim_of : Option Value → Option Claim → Option Claim
claim_of none c = c
claim_of (some v) c = some (value v)

pub lookup-set_all :
    (key : String) (attrs : Assoc Value) (claims : Assoc Claim)
    → UniqueKeys attrs
    → lookup key (set_all attrs claims) ≡ claim_of (lookup key attrs) (lookup key claims)
unfolding lookup set_all
lookup-set_all key [] claims u = refl
lookup-set_all key ((j, v) ∷ attrs) claims (absent, u) =
    lookup-set_all key attrs (insert j (value v) claims) u
    ∙ ground (arith, absent, lookup-insert j key (value v) claims, eq_iff j key)

pub UniqueKeys-set_all :
    (attrs : Assoc Value) (claims : Assoc Claim)
    → UniqueKeys claims
    → UniqueKeys (set_all attrs claims)
unfolding set_all
UniqueKeys-set_all [] claims u = u
UniqueKeys-set_all ((j, v) ∷ attrs) claims u =
    UniqueKeys-set_all attrs (insert j (value v) claims) (UniqueKeys-insert j (value v) claims u)

abbrev pub or_else : Option Claim → Option Claim → Option Claim
or_else none c = c
or_else (some d) c = some d

pub lookup-write_all :
    (key : String) (source claims : Assoc Claim)
    → UniqueKeys source
    → lookup key (write_all source claims) ≡ or_else (lookup key source) (lookup key claims)
unfolding lookup write_all
lookup-write_all key [] claims u = refl
lookup-write_all key ((j, c) ∷ source) claims (absent, u) =
    lookup-write_all key source (insert j c claims) u
    ∙ ground (arith, absent, lookup-insert j key c claims, eq_iff j key)

pub lookup-set_text :
    (key name s : String) (claims : Assoc Claim)
    → (name == key) ≡ false
    → lookup key (set_text name s claims) ≡ lookup key claims
lookup-set_text key name s claims h =
    ground (arith, h, lookup-insert name key (value (text s)) claims)

pub UniqueKeys-set_text :
    (name s : String) (claims : Assoc Claim)
    → UniqueKeys claims
    → UniqueKeys (set_text name s claims)
UniqueKeys-set_text name s claims u = elim (Bool-cases (s == "")) [
  | inl e ↦ simp e u
  | inr e ↦ simp e (UniqueKeys-insert name (value (text s)) claims u)
]

module _ (ctx : BuildContext) where
  -- The claims before the attributes of the user.
  abbrev pub base_claims : Assoc Claim
  base_claims =
      set_text "grant_type" ctx.grant_type
        (set_text "client_id" ctx.client_id (set_scope ctx.scopes []))

  set_scope-lookup :
      lookup "scope" (set_scope ctx.scopes [])
      ≡ (if is_empty ctx.scopes then none else some (value (text (join_scopes ctx.scopes))))
  unfolding set_scope lookup insert
  set_scope-lookup = ground arith

  base-scope :
      lookup "scope" base_claims
      ≡ (if is_empty ctx.scopes then none else some (value (text (join_scopes ctx.scopes))))
  base-scope =
      lookup-set_text "scope" "grant_type" ctx.grant_type
        (set_text "client_id" ctx.client_id (set_scope ctx.scopes [])) refl
      ∙ lookup-set_text "scope" "client_id" ctx.client_id (set_scope ctx.scopes []) refl
      ∙ set_scope-lookup

  set_scope-sub : lookup "sub" (set_scope ctx.scopes []) ≡ none
  unfolding set_scope lookup insert
  set_scope-sub = ground arith

  pub base-sub : lookup "sub" base_claims ≡ none
  base-sub =
      lookup-set_text "sub" "grant_type" ctx.grant_type
        (set_text "client_id" ctx.client_id (set_scope ctx.scopes [])) refl
      ∙ lookup-set_text "sub" "client_id" ctx.client_id (set_scope ctx.scopes []) refl
      ∙ set_scope-sub

  set_scope-UniqueKeys : UniqueKeys (set_scope ctx.scopes [])
  unfolding set_scope insert lookup
  set_scope-UniqueKeys = ground arith

  base-UniqueKeys : UniqueKeys base_claims
  base-UniqueKeys =
      UniqueKeys-set_text "grant_type" ctx.grant_type _
        (UniqueKeys-set_text "client_id" ctx.client_id _ set_scope-UniqueKeys)

merged : (v : Option Value) (c : Option Claim) → or_else (claim_of v none) c ≡ claim_of v c
merged none c = refl
merged (some v) c = refl

-- The scope that the claims of an access token state: the granted scopes, unless the attributes of the
-- user that go into the token have one of the name `scope`, which then stands in its place.
pub access_token_scope :
    (ctx : BuildContext) (attrs : Assoc Value)
    → UniqueKeys attrs
    → lookup "scope" (build_access_token_claims ctx attrs)
      ≡ claim_of
          (lookup "scope" attrs)
          (if is_empty ctx.scopes then none else some (value (text (join_scopes ctx.scopes))))
unfolding build_access_token_claims
access_token_scope ctx attrs u =
    lookup-set_all "scope" attrs (base_claims ctx) u
    ∙ ap (claim_of (lookup "scope" attrs)) (base-scope ctx)

-- The claims that the access token of a context is made of.
abbrev pub access_token_claims : BuildContext → Assoc Value → Assoc Claim
access_token_claims ctx attrs =
    append_user_type_and_ou ctx.user_type ctx.ou_id ctx.ou_name ctx.ou_handle
      (build_access_token_claims ctx attrs)

module _ (user_type ou_id ou_name ou_handle : String) (claims : Assoc Claim) where
  -- The four claims that may be appended are the only ones that change.
  pub lookup-append_user_type_and_ou :
      (key : String)
      → (("ouHandle" == key) ≡ false)
        × (("ouName" == key) ≡ false)
        × (("ouId" == key) ≡ false)
        × (("userType" == key) ≡ false)
      → lookup key (append_user_type_and_ou user_type ou_id ou_name ou_handle claims)
        ≡ lookup key claims
  unfolding append_user_type_and_ou
  lookup-append_user_type_and_ou key (h, n, i, t) =
      lookup-set_text key "ouHandle" ou_handle _ h
      ∙ lookup-set_text key "ouName" ou_name _ n
      ∙ lookup-set_text key "ouId" ou_id _ i
      ∙ lookup-set_text key "userType" user_type claims t

  pub UniqueKeys-append_user_type_and_ou :
      UniqueKeys claims
      → UniqueKeys (append_user_type_and_ou user_type ou_id ou_name ou_handle claims)
  unfolding append_user_type_and_ou
  UniqueKeys-append_user_type_and_ou u = UniqueKeys-set_text "ouHandle" ou_handle _ (
      UniqueKeys-set_text "ouName" ou_name _
        (UniqueKeys-set_text "ouId" ou_id _ (UniqueKeys-set_text "userType" user_type claims u)))

-- The subject in the payload of an access token: the one that the token is made for, unless the
-- attributes of the user that go into the token have one of the name `sub`, which then stands in its
-- place.
pub access_token_sub :
    (ctx : BuildContext) (attrs : Assoc Value) (iss : String) (exp iat : ℕ) (jti : String)
    → UniqueKeys attrs
    → lookup "sub"
        (jwt_payload ctx.subject ctx.audience iss exp iat jti (access_token_claims ctx attrs))
      ≡ claim_of (lookup "sub" attrs) (some (value (text ctx.subject)))
unfolding jwt_payload build_access_token_claims lookup
access_token_sub ctx attrs iss exp iat jti u =
    let all : Assoc Claim = set_all attrs (base_claims ctx) in
    let all_unique : UniqueKeys all =
      UniqueKeys-set_all attrs (base_claims ctx) (base-UniqueKeys ctx) in
    let same =
      lookup-append_user_type_and_ou ctx.user_type ctx.ou_id ctx.ou_name ctx.ou_handle all "sub"
        (refl, refl, refl, refl) in
    let unique =
      UniqueKeys-append_user_type_and_ou ctx.user_type ctx.ou_id ctx.ou_name ctx.ou_handle all
        all_unique in
    let found : lookup "sub" all ≡ claim_of (lookup "sub" attrs) none =
      lookup-set_all "sub" attrs (base_claims ctx) u
      ∙ ap (claim_of (lookup "sub" attrs)) (base-sub ctx) in
    lookup-write_all "sub" (access_token_claims ctx attrs) _ unique
    ∙ ap (λ c. or_else c (some (value (text ctx.subject)))) (same ∙ found)
    ∙ merged (lookup "sub" attrs) (some (value (text ctx.subject)))
