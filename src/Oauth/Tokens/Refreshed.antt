-- ===== src/Oauth/Tokens/Refreshed.antt =====
-- Refresh tokens on their way from the builder to the validator, tokenservice/builder.go and
-- validator.go.
use thunder_fork.Prelude.{
  ℕ, String, ◌≡◌, true, false, Option, none, some, List, [], ◌∷◌, ◌==◌, is_empty, if◌then◌else◌,
  arith, refl, ap, ◌∙◌, eq_refl, All,
}
use thunder_fork.Prelude.Int.{pos}
use thunder_fork.Prelude.Assoc.{Assoc, lookup, insert, UniqueKeys}
use thunder_fork.Oauth.{text, Claim, value}
use thunder_fork.Oauth.App.{OauthApp}
use thunder_fork.Oauth.Scopes.{join_scopes}
use thunder_fork.Oauth.Scopes.Laws.{IsScope, parse_scopes-join_scopes, join_scopes-not_empty}
use thunder_fork.Oauth.Tokens.{
  Settings, TokenDto, RefreshContext, JwtService, set_scope, append_user_type_and_ou,
  build_refresh_token_claims, jwt_payload, TokenConfig, resolve_token_config, refresh, write_all,
}
use thunder_fork.Oauth.Tokens.Claims.{
  or_else, lookup-write_all, lookup-append_user_type_and_ou, UniqueKeys-append_user_type_and_ou,
}
use thunder_fork.Oauth.Tokens.Service.{
  RefreshTokenClaims, issued, build_refresh_token, validate_refresh_token,
  validate_oauth2_refresh_claims, refresh_token_claims, extract_string_claim,
  extract_scopes_from_claims,
}

-- The claims that the builder gives the JWT service for a refresh token.
abbrev pub refresh_claims : OauthApp → RefreshContext → Assoc Claim
refresh_claims app ctx =
    append_user_type_and_ou ctx.user_type ctx.ou_id ctx.ou_name ctx.ou_handle
      (build_refresh_token_claims app ctx)

-- What the service documents, for the call that makes the refresh token of a context: a token that it
-- generates is verified, and its payload is what it was made of, with an issuer, an expiry and an id
-- of the service.
abbrev pub IsSound : JwtService → Settings → OauthApp → RefreshContext → Type 0
IsSound jwt settings app ctx =
    let config = resolve_token_config settings app refresh in
    (token : String) (iat : ℕ)
    → jwt.generate_jwt ctx.client_id config.issuer config.issuer config.validity_period
        (refresh_claims app ctx)
      ≡ some (token, iat)
    → (jwt.verify_jwt token ≡ true)
      × (issuer : String) × (exp : ℕ) × (jti : String) × (jwt.decode_payload token
          ≡ some
              (jwt_payload ctx.client_id config.issuer issuer exp iat jti (refresh_claims app ctx)))

or_else-none : (c : Option Claim) → or_else c none ≡ c
or_else-none none = refl
or_else-none (some c) = refl

issued-token :
    (dto made : TokenDto) (token : String) (iat : ℕ)
    → issued made (some (token, iat)) ≡ some dto
    → dto.token ≡ token
issued-token dto made token iat h = ground (arith, h)

module _ (app : OauthApp) (ctx : RefreshContext) where
  abbrev claims : Assoc Claim
  claims = build_refresh_token_claims app ctx

  claims-values :
      (lookup "sub" claims ≡ none)
      × (lookup "access_token_sub" claims ≡ some (value (text ctx.access_token_subject)))
      × (lookup "access_token_aud" claims ≡ some (value (text ctx.access_token_audience)))
      × (lookup "grant_type" claims ≡ some (value (text ctx.grant_type)))
      × (lookup "scope" claims
          ≡ (if is_empty ctx.scopes then none else some (value (text (join_scopes ctx.scopes)))))
  unfolding build_refresh_token_claims set_scope lookup insert
  claims-values = (ground arith, ground arith, ground arith, ground arith, ground arith)

  claims-UniqueKeys : UniqueKeys claims
  unfolding build_refresh_token_claims set_scope lookup insert
  claims-UniqueKeys = ground arith

  module _ (iss : String) (exp iat : ℕ) (jti : String) (aud : String) where
    -- The payload of the refresh token.
    abbrev payload : Assoc Claim
    payload =
        jwt_payload ctx.client_id aud iss exp iat jti
          (append_user_type_and_ou ctx.user_type ctx.ou_id ctx.ou_name ctx.ou_handle claims)

    payload-lookup :
        (key : String)
        → (("ouHandle" == key) ≡ false)
          × (("ouName" == key) ≡ false)
          × (("ouId" == key) ≡ false)
          × (("userType" == key) ≡ false)
        → lookup key payload
          ≡ or_else
              (lookup key claims)
              (lookup key (jwt_payload ctx.client_id aud iss exp iat jti []))
    unfolding jwt_payload write_all
    payload-lookup key h =
        lookup-write_all key _ _ (
          UniqueKeys-append_user_type_and_ou ctx.user_type ctx.ou_id ctx.ou_name ctx.ou_handle
            claims claims-UniqueKeys)
        ∙ ap (λ c. or_else c (lookup key (jwt_payload ctx.client_id aud iss exp iat jti [])))
            (lookup-append_user_type_and_ou ctx.user_type ctx.ou_id ctx.ou_name ctx.ou_handle claims
              key h)

    payload-value :
        (key : String) (c : Claim)
        → (("ouHandle" == key) ≡ false)
          × (("ouName" == key) ≡ false)
          × (("ouId" == key) ≡ false)
          × (("userType" == key) ≡ false)
        → lookup key claims ≡ some c
        → lookup key payload ≡ some c
    payload-value key c h e =
        payload-lookup key h
        ∙ ap (λ d. or_else d (lookup key (jwt_payload ctx.client_id aud iss exp iat jti []))) e

    payload-sub : lookup "sub" payload ≡ some (value (text ctx.client_id))
    unfolding jwt_payload write_all lookup
    payload-sub =
        payload-lookup "sub" (refl, refl, refl, refl)
        ∙ ap (λ d. or_else d (lookup "sub" (jwt_payload ctx.client_id aud iss exp iat jti [])))
            claims-values.0

    payload-values :
        (lookup "access_token_sub" payload ≡ some (value (text ctx.access_token_subject)))
        × (lookup "access_token_aud" payload ≡ some (value (text ctx.access_token_audience)))
        × (lookup "grant_type" payload ≡ some (value (text ctx.grant_type)))
    payload-values =
        let (sub, ats, ata, gt, sc) = claims-values in
        (
          payload-value "access_token_sub" (value (text ctx.access_token_subject))
              (refl, refl, refl, refl) ats,
          payload-value "access_token_aud" (value (text ctx.access_token_audience))
              (refl, refl, refl, refl) ata,
          payload-value "grant_type" (value (text ctx.grant_type)) (refl, refl, refl, refl) gt,
        )

    payload-accepted : validate_oauth2_refresh_claims payload ctx.client_id ≡ true
    unfolding validate_oauth2_refresh_claims extract_string_claim
    payload-accepted = ground (arith, payload-sub, payload-values, eq_refl ctx.client_id)

    payload-scope :
        lookup "scope" payload
        ≡ (if is_empty ctx.scopes then none else some (value (text (join_scopes ctx.scopes))))
    unfolding jwt_payload write_all lookup
    payload-scope =
        let (sub, ats, ata, gt, sc) = claims-values in
        payload-lookup "scope" (refl, refl, refl, refl)
        ∙ ap (λ d. or_else d (lookup "scope" (jwt_payload ctx.client_id aud iss exp iat jti []))) sc
        ∙ or_else-none _

    payload-scopes : All IsScope ctx.scopes → extract_scopes_from_claims payload false ≡ ctx.scopes
    unfolding extract_scopes_from_claims extract_string_claim
    payload-scopes h = by_scopes ctx.scopes refl h
      where
        by_scopes :
            (scopes : List String)
            → ctx.scopes ≡ scopes
            → All IsScope scopes
            → extract_scopes_from_claims payload false ≡ scopes
        by_scopes [] e k = ground (arith, payload-scope, e)
        by_scopes (scope ∷ scopes) e k = ground (
          arith,
          payload-scope,
          e,
          join_scopes-not_empty scope scopes k,
          parse_scopes-join_scopes (scope ∷ scopes) k,
        )

    payload-claims :
        All IsScope ctx.scopes
        → ((refresh_token_claims payload).sub ≡ ctx.access_token_subject)
          × ((refresh_token_claims payload).aud ≡ ctx.access_token_audience)
          × ((refresh_token_claims payload).grant_type ≡ ctx.grant_type)
          × ((refresh_token_claims payload).scopes ≡ ctx.scopes)
    unfolding refresh_token_claims extract_string_claim
    payload-claims h = (
      ground (arith, payload-values),
      ground (arith, payload-values),
      ground (arith, payload-values),
      payload-scopes h,
    )

accepted_payload :
    (jwt : JwtService) (token client_id : String) (payload : Assoc Claim)
    → jwt.verify_jwt token ≡ true
    → jwt.decode_payload token ≡ some payload
    → validate_oauth2_refresh_claims payload client_id ≡ true
    → validate_refresh_token jwt token client_id ≡ some (refresh_token_claims payload)
unfolding validate_refresh_token
accepted_payload jwt token client_id payload v d a = rw (v, d, a) refl

-- If the JWT service is sound, the validator accepts the refresh token that the builder makes of a
-- context, for its client, and reads from it the subject, the audience, the grant type and (where each is a text without
-- white space that is not empty) the scopes that it was made for.
pub refresh_token_accepted :
    (jwt : JwtService) (settings : Settings) (app : OauthApp) (ctx : RefreshContext)
    (dto : TokenDto)
    → IsSound jwt settings app ctx
    → build_refresh_token jwt settings app ctx ≡ some dto
    → All IsScope ctx.scopes
    → (found : RefreshTokenClaims) × (validate_refresh_token jwt dto.token ctx.client_id
        ≡ some found)
      × (found.sub ≡ ctx.access_token_subject)
      × (found.aud ≡ ctx.access_token_audience)
      × (found.grant_type ≡ ctx.grant_type)
      × (found.scopes ≡ ctx.scopes)
unfolding build_refresh_token
refresh_token_accepted jwt settings app ctx dto sound h scoped =
    by_jwt
      (jwt.generate_jwt ctx.client_id config.issuer config.issuer config.validity_period
        (refresh_claims app ctx))
      refl h
  where
    config : TokenConfig
    config = resolve_token_config settings app refresh

    unsigned : TokenDto
    unsigned = record {
      token = "";
      issued_at = pos 0;
      scopes = ctx.scopes;
      client_id = ctx.client_id;
      user_attributes = [];
      subject = ctx.access_token_subject;
      audience = config.issuer;
    }

    by_jwt :
        (o : Option (String × ℕ))
        → jwt.generate_jwt ctx.client_id config.issuer config.issuer config.validity_period
            (refresh_claims app ctx)
          ≡ o
        → issued unsigned o ≡ some dto
        → (found : RefreshTokenClaims) × (validate_refresh_token jwt dto.token ctx.client_id
            ≡ some found)
          × (found.sub ≡ ctx.access_token_subject)
          × (found.aud ≡ ctx.access_token_audience)
          × (found.grant_type ≡ ctx.grant_type)
          × (found.scopes ≡ ctx.scopes)
    by_jwt none e k = absurd (cc k)
    by_jwt (some (token, iat)) e k =
        let (verified, iss, exp, jti, decoded) = sound token iat e in
        let (sub, aud, grant, scopes) =
          payload-claims app ctx iss exp iat jti config.issuer scoped in
        (
          refresh_token_claims (payload app ctx iss exp iat jti config.issuer),
          ap (λ t. validate_refresh_token jwt t ctx.client_id)
                (issued-token dto unsigned token iat k)
              ∙ accepted_payload jwt token ctx.client_id
                  (payload app ctx iss exp iat jti config.issuer) verified decoded
                  (payload-accepted app ctx iss exp iat jti config.issuer),
          sub,
          aud,
          grant,
          scopes,
        )
