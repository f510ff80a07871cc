-- ===== src/Oauth/RefreshGrant/Narrow.antt =====
-- What a refresh can give away, granthandlers/refresh_token.go.
use thunder_fork.Prelude.{
  String, ◌≡◌, true, ◌&&◌, ◌||◌, Option, none, some, List, [], ◌∷◌, contains, is_empty, arith, refl,
  subst, eq_iff,
}
use thunder_fork.Prelude.Result.{Result, ok}
use thunder_fork.Prelude.Assoc.{Assoc, UniqueKeys}
use thunder_fork.Oauth.{Claim, ErrorResponse}
use thunder_fork.Oauth.App.{OauthApp}
use thunder_fork.Oauth.Scopes.{parse_scopes}
use thunder_fork.Oauth.Tokens.{
  build_access_token_user_attributes, Settings, JwtService, TokenDto, TokenBuilder,
}
use thunder_fork.Oauth.Tokens.Signed.{IsSignedFor, build_access_token-IsSignedFor}
use thunder_fork.Oauth.Tokens.Service.{
  RefreshTokenClaims, extract_string_claim, validate_oauth2_refresh_claims, refresh_token_claims,
  validate_refresh_token, new_token_builder, build_access_token,
}
use thunder_fork.Oauth.CodeGrant.{TokenRequest, TokenResponse}
use thunder_fork.Oauth.RefreshGrant.{
  granted, access_context, apply_scope_downscoping, issue_refresh_token, add_refresh_token,
  handle_grant,
}

contains-granted :
    (scope : String) (held scopes : List String)
    → contains scope (granted held scopes) ≡ (contains scope scopes && contains scope held)
unfolding granted contains
contains-granted scope held [] = refl
contains-granted scope held (s ∷ scopes) =
    ground (arith, contains-granted scope held scopes, eq_iff s scope)

-- The scopes of the new token are among those of the refresh token; if the request names any, they
-- are also among those, and no requested scope that the refresh token holds is left out.
pub contains-apply_scope_downscoping :
    (scope requested : String) (held : List String)
    → contains scope (apply_scope_downscoping requested held) ≡ (
        contains scope held
        && (is_empty (parse_scopes requested) || contains scope (parse_scopes requested)))
unfolding apply_scope_downscoping
contains-apply_scope_downscoping scope requested held =
    ground (arith, contains-granted scope held (parse_scopes requested))

-- The conditions on a refresh token: the JWT service verifies it, and its payload names the client.
pub record IsHeldBy (jwt : JwtService) (token client_id : String) (claims : Assoc Claim)
    : Type 0 where
  pub verified : jwt.verify_jwt token ≡ true
  pub decoded : jwt.decode_payload token ≡ some claims
  pub subject : extract_string_claim claims "sub" ≡ some client_id

pub validate_refresh_token-IsHeldBy :
    (jwt : JwtService) (token client_id : String) (found : RefreshTokenClaims)
    → validate_refresh_token jwt token client_id ≡ some found
    → (claims : Assoc Claim) × IsHeldBy jwt token client_id claims
      × (found ≡ refresh_token_claims claims)
unfolding validate_refresh_token validate_oauth2_refresh_claims
validate_refresh_token-IsHeldBy jwt token client_id found h =
    by_payload (jwt.decode_payload token) refl
  where
    by_payload :
        (o : Option (Assoc Claim))
        → jwt.decode_payload token ≡ o
        → (claims : Assoc Claim) × IsHeldBy jwt token client_id claims
          × (found ≡ refresh_token_claims claims)
    by_payload none p = absurd (ground (arith, p, h))
    by_payload (some claims) p = (
      claims,
      record {
        verified = ground (arith, p, h);
        decoded = p;
        subject = by_subject (extract_string_claim claims "sub") refl;
      },
      ground (arith, p, h),
    )
      where
        by_subject :
            (o : Option String)
            → extract_string_claim claims "sub" ≡ o
            → extract_string_claim claims "sub" ≡ some client_id
        by_subject none q = absurd (ground (arith, p, q, h))
        by_subject (some sub) q = ground (arith, p, q, h, eq_iff sub client_id)

module _ (builder : TokenBuilder) (jwt : JwtService) (settings : Settings) (request : TokenRequest)
    (app : OauthApp) where
  add_refresh_token-access :
      (claims : RefreshTokenClaims) (scopes : List String) (access : TokenDto)
      (response : TokenResponse)
      → add_refresh_token builder settings request app claims scopes access ≡ ok response
      → response.access_token ≡ access
  unfolding add_refresh_token issue_refresh_token
  add_refresh_token-access claims scopes access response h = ground (arith, h)

  -- A response carries the access token of the builder, for the claims of a valid refresh token.
  response_token :
      (response : TokenResponse)
      → handle_grant builder jwt settings request app ≡ ok response
      → (claims : RefreshTokenClaims) × (validate_refresh_token jwt request.refresh_token
            request.client_id
          ≡ some claims)
        × (builder.build_access_token app (
              access_context builder request claims
                (apply_scope_downscoping request.scope claims.scopes))
            ≡ some response.access_token)
  unfolding handle_grant
  response_token response h =
      by_claims (validate_refresh_token jwt request.refresh_token request.client_id) refl
    where
      by_claims :
          (o : Option RefreshTokenClaims)
          → validate_refresh_token jwt request.refresh_token request.client_id ≡ o
          → (claims : RefreshTokenClaims) × (validate_refresh_token jwt request.refresh_token
                request.client_id
              ≡ some claims)
            × (builder.build_access_token app (
                  access_context builder request claims
                    (apply_scope_downscoping request.scope claims.scopes))
                ≡ some response.access_token)
      by_claims none p = absurd (ground (arith, p, h))
      by_claims (some claims) p = (claims, p, ground (arith, p, h, add_refresh_token-access claims))

-- The scopes of a new token: what the request asks for of those that the refresh token holds, or all of
-- these if it asks for none.
abbrev pub AreNarrowed : String → List String → List String → Type 0
AreNarrowed requested held scopes =
    (scope : String)
    → contains scope scopes ≡ (
        contains scope held
        && (is_empty (parse_scopes requested) || contains scope (parse_scopes requested)))

module _ (jwt : JwtService) (settings : Settings) (request : TokenRequest) (app : OauthApp) where
  -- `HandleGrant` over the token builder of the service.
  abbrev pub refreshed : Result ErrorResponse TokenResponse
  refreshed = handle_grant (new_token_builder jwt settings) jwt settings request app

  -- If the attributes in a decoded payload are a map, whose names are distinct: a refresh that succeeds was
  -- asked for with a token that the JWT service verifies and whose payload names the client as its subject.
  -- The access token that it gives was signed for the subject and the audience of the refresh token, and
  -- its claims state the client of the request and exactly the scopes that the request asks for of those
  -- of the refresh token (all, if it asks for none); only an attribute of the user that goes into the
  -- token can stand in the place of the subject, of the client or of the scopes, under their names.
  pub refresh_narrows :
      (response : TokenResponse)
      → ((token : String) (payload : Assoc Claim)
          → jwt.decode_payload token ≡ some payload
          → UniqueKeys (refresh_token_claims payload).user_attributes)
      → refreshed ≡ ok response
      → (claims : Assoc Claim) × (scopes : List String) × IsHeldBy jwt request.refresh_token
          request.client_id claims
        × AreNarrowed request.scope (refresh_token_claims claims).scopes scopes
        × IsSignedFor jwt settings app
            (refresh_token_claims claims).sub
            (refresh_token_claims claims).aud
            request.client_id
            scopes
            (build_access_token_user_attributes
              (refresh_token_claims claims).user_attributes
              []
              app)
            response.access_token
  unfolding access_context
  refresh_narrows response maps h =
      let (found, p, built) =
        response_token (new_token_builder jwt settings) jwt settings request app response h in
      let (claims, held, e) =
        validate_refresh_token-IsHeldBy jwt request.refresh_token request.client_id found p in
      let scopes : List String =
        apply_scope_downscoping request.scope (refresh_token_claims claims).scopes in
      (
        claims,
        scopes,
        held,
        λ scope.
            contains-apply_scope_downscoping scope request.scope
              (refresh_token_claims claims).scopes,
        build_access_token-IsSignedFor jwt settings app
            (access_context (new_token_builder jwt settings) request (refresh_token_claims claims)
              scopes)
            response.access_token (maps request.refresh_token claims held.decoded)
            (subst
              (λ c.
                build_access_token jwt settings app (
                  access_context (new_token_builder jwt settings) request c
                    (apply_scope_downscoping request.scope c.scopes))
                ≡ some response.access_token)
              e built),
      )
