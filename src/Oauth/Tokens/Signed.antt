-- ===== src/Oauth/Tokens/Signed.antt =====
-- What the JWT service is asked to sign for an access token, tokenservice/builder.go.
use thunder_fork.Prelude.{
  ℕ, String, ◌≡◌, Option, none, some, List, [], ◌∷◌, ◌==◌, is_empty, if◌then◌else◌, arith, refl, ap,
  ◌∙◌,
}
use thunder_fork.Prelude.Int.{pos}
use thunder_fork.Prelude.Assoc.{Assoc, lookup, insert, UniqueKeys, UniqueKeys-insert}
use thunder_fork.Oauth.{Value, text, texts, Claim, value}
use thunder_fork.Oauth.App.{OauthApp, access_token_attributes}
use thunder_fork.Oauth.Scopes.{join_scopes}
use thunder_fork.Oauth.Tokens.{
  access, Settings, TokenDto, BuildContext, JwtService, resolve_token_config, select, set_text,
  set_scope, build_access_token_claims, build_access_token_user_attributes,
}
use thunder_fork.Oauth.Tokens.Claims.{
  claim_of, lookup-set_all, lookup-set_text, lookup-append_user_type_and_ou, base_claims, base-sub,
  access_token_scope, access_token_claims,
}
use thunder_fork.Oauth.Tokens.Service.{issued, build_access_token}

UniqueKeys-select :
    (names : List String) (attrs kept : Assoc Value)
    → UniqueKeys kept
    → UniqueKeys (select names attrs kept)
unfolding select
UniqueKeys-select [] attrs kept u = u
UniqueKeys-select (name ∷ names) attrs kept u =
    by_value (lookup name attrs) (λ kept. UniqueKeys-select names attrs kept)
  where
    by_value :
        (o : Option Value)
        → ((kept : Assoc Value) → UniqueKeys kept → UniqueKeys (select names attrs kept))
        → UniqueKeys (elim o [
          | none ↦ select names attrs kept
          | some v ↦ select names attrs (insert name v kept)
        ])
    by_value none rest = rest kept u
    by_value (some v) rest = rest (insert name v kept) (UniqueKeys-insert name v kept u)

pub UniqueKeys-build_access_token_user_attributes :
    (attrs : Assoc Value) (groups : List String) (app : OauthApp)
    → UniqueKeys attrs
    → UniqueKeys (build_access_token_user_attributes attrs groups app)
unfolding build_access_token_user_attributes
UniqueKeys-build_access_token_user_attributes attrs groups app u =
    let kept : UniqueKeys (select (access_token_attributes app) attrs []) =
      UniqueKeys-select (access_token_attributes app) attrs [] tt in
    ground (
      arith,
      u,
      kept,
      UniqueKeys-insert "groups" (texts groups) attrs u,
      UniqueKeys-insert "groups" (texts groups) (select (access_token_attributes app) attrs [])
          kept,
    )

base-client_id :
    (ctx : BuildContext)
    → lookup "client_id" (base_claims ctx)
      ≡ (if ctx.client_id == "" then none else some (value (text ctx.client_id)))
unfolding set_scope lookup insert
base-client_id ctx =
    lookup-set_text "client_id" "grant_type" ctx.grant_type
      (set_text "client_id" ctx.client_id (set_scope ctx.scopes [])) refl
    ∙ ground arith

-- What the JWT service signed for an access token: its subject, its audience, the issuer and the period of
-- the application, and claims that state the client and the scopes, but for the attributes of the user
-- of these names, and `sub` only if such an attribute has that name.
pub record IsSignedFor (jwt : JwtService) (settings : Settings) (app : OauthApp)
    (subject audience client_id : String) (scopes : List String) (attrs : Assoc Value)
    (token : TokenDto) : Type 0 where
  pub claims : Assoc Claim
  pub iat : ℕ
  pub signed :
      jwt.generate_jwt subject audience
        (resolve_token_config settings app access).issuer
        (resolve_token_config settings app access).validity_period
        claims
      ≡ some (token.token, iat)
  pub issued_then : token.issued_at ≡ pos iat
  pub sub_claim : lookup "sub" claims ≡ claim_of (lookup "sub" attrs) none
  pub client_claim :
      lookup "client_id" claims
      ≡ claim_of
          (lookup "client_id" attrs)
          (if client_id == "" then none else some (value (text client_id)))
  pub scope_claim :
      lookup "scope" claims
      ≡ claim_of
          (lookup "scope" attrs)
          (if is_empty scopes then none else some (value (text (join_scopes scopes))))

module _ (ctx : BuildContext) (attrs : Assoc Value) (u : UniqueKeys attrs) where
  signed-scope :
      lookup "scope" (access_token_claims ctx attrs)
      ≡ claim_of
          (lookup "scope" attrs)
          (if is_empty ctx.scopes then none else some (value (text (join_scopes ctx.scopes))))
  signed-scope =
      lookup-append_user_type_and_ou ctx.user_type ctx.ou_id ctx.ou_name ctx.ou_handle
        (build_access_token_claims ctx attrs) "scope" (refl, refl, refl, refl)
      ∙ access_token_scope ctx attrs u

  signed-sub : lookup "sub" (access_token_claims ctx attrs) ≡ claim_of (lookup "sub" attrs) none
  unfolding build_access_token_claims
  signed-sub =
      lookup-append_user_type_and_ou ctx.user_type ctx.ou_id ctx.ou_name ctx.ou_handle
        (build_access_token_claims ctx attrs) "sub" (refl, refl, refl, refl)
      ∙ lookup-set_all "sub" attrs (base_claims ctx) u
      ∙ ap (claim_of (lookup "sub" attrs)) (base-sub ctx)

  signed-client_id :
      lookup "client_id" (access_token_claims ctx attrs)
      ≡ claim_of
          (lookup "client_id" attrs)
          (if ctx.client_id == "" then none else some (value (text ctx.client_id)))
  unfolding build_access_token_claims
  signed-client_id =
      lookup-append_user_type_and_ou ctx.user_type ctx.ou_id ctx.ou_name ctx.ou_handle
        (build_access_token_claims ctx attrs) "client_id" (refl, refl, refl, refl)
      ∙ lookup-set_all "client_id" attrs (base_claims ctx) u
      ∙ ap (claim_of (lookup "client_id" attrs)) (base-client_id ctx)

issued-cases :
    (made token : TokenDto) (o : Option (String × ℕ))
    → issued made o ≡ some token
    → (iat : ℕ) × (o ≡ some (token.token, iat)) × (token.issued_at ≡ pos iat)
issued-cases made token none h = absurd (ground arith)
issued-cases made token (some (t, iat)) h = (iat, ground arith, ground arith)

-- If the attributes of the context are a map, whose names are distinct, an access token that is built of a
-- context is signed for it.
pub build_access_token-IsSignedFor :
    (jwt : JwtService) (settings : Settings) (app : OauthApp) (ctx : BuildContext)
    (token : TokenDto)
    → UniqueKeys ctx.user_attributes
    → build_access_token jwt settings app ctx ≡ some token
    → IsSignedFor jwt settings app ctx.subject ctx.audience ctx.client_id ctx.scopes
        (build_access_token_user_attributes ctx.user_attributes ctx.user_groups app)
        token
unfolding build_access_token
build_access_token-IsSignedFor jwt settings app ctx token u h =
    let attrs : Assoc Value =
      build_access_token_user_attributes ctx.user_attributes ctx.user_groups app in
    let unique : UniqueKeys attrs =
      UniqueKeys-build_access_token_user_attributes ctx.user_attributes ctx.user_groups app u in
    let (iat, signed, at) =
      issued-cases
        (record {
          token = "";
          issued_at = pos 0;
          scopes = ctx.scopes;
          client_id = ctx.client_id;
          user_attributes = attrs;
          subject = ctx.subject;
          audience = ctx.audience;
        })
        token _ h in
    record {
      claims = access_token_claims ctx attrs;
      iat = iat;
      signed = signed;
      issued_then = at;
      sub_claim = signed-sub ctx attrs unique;
      client_claim = signed-client_id ctx attrs unique;
      scope_claim = signed-scope ctx attrs unique;
    }
