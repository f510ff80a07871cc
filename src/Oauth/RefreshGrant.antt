-- ===== src/Oauth/RefreshGrant.antt =====
-- The refresh token grant, backend/internal/oauth/oauth2/granthandlers/refresh_token.go.
--
-- The token builder is the interface that the code has. The validator is the function of
-- tokenservice/validator.go, over the JWT service.
pub mod Narrow
use thunder_fork.Prelude.{
  String, Bool, true, false, not, Option, none, some, List, [], ◌∷◌, ◌==◌, contains, is_empty,
  if◌then◌else◌,
}
use Prim.Native.String.{◌++◌}
use thunder_fork.Prelude.Result.{Result, ok, err}
use thunder_fork.Oauth.{
  ErrorResponse, invalid_request, invalid_grant, unsupported_grant_type, server_error,
  refresh_token,
}
use thunder_fork.Oauth.App.{OauthApp}
use thunder_fork.Oauth.Scopes.{parse_scopes}
use thunder_fork.Oauth.Tokens.{
  Settings, TokenDto, no_token, BuildContext, RefreshContext, TokenBuilder, JwtService,
}
use thunder_fork.Oauth.Tokens.Service.{RefreshTokenClaims, validate_refresh_token}
use thunder_fork.Oauth.CodeGrant.{TokenRequest, TokenResponse, respond}

unfoldable pub validate_grant : TokenRequest → Option ErrorResponse
validate_grant request =
    if not (request.grant_type == refresh_token)
    then some (respond unsupported_grant_type "Unsupported grant type")
    else if request.refresh_token == ""
    then some (respond invalid_request "Refresh token is required")
    else if request.client_id == ""
    then some (respond invalid_request "Client ID is required")
    else none

-- The requested scopes that were granted.
unfoldable pub granted : List String → List String → List String
granted held [] = []
granted held (scope ∷ scopes) =
    let rest = granted held scopes in if contains scope held then scope ∷ rest else rest

unfoldable pub apply_scope_downscoping : String → List String → List String
unfolding granted
apply_scope_downscoping requested held =
    let scopes = parse_scopes requested in if is_empty scopes then held else granted held scopes

module _ (builder : TokenBuilder) where
  -- `access` is the access token of the response, to which the refresh token is added.
  unfoldable pub issue_refresh_token :
      TokenResponse
      → OauthApp
      → RefreshTokenClaims
      → List String
      → Result ErrorResponse TokenResponse
  issue_refresh_token response app claims scopes =
      elim (builder.build_refresh_token app (record {
        client_id = app.client_id;
        scopes = scopes;
        grant_type = claims.grant_type;
        access_token_subject = claims.sub;
        access_token_audience = claims.aud;
        access_token_user_attributes = response.access_token.user_attributes;
        user_type = claims.user_type;
        ou_id = claims.ou_id;
        ou_name = claims.ou_name;
        ou_handle = claims.ou_handle;
      })) [
        | none ↦ err (respond server_error "Failed to generate refresh token")
        | some token ↦ ok (record response { refresh_token = token })
      ]

  unfoldable pub access_context : TokenRequest → RefreshTokenClaims → List String → BuildContext
  access_context request claims scopes = record {
    subject = claims.sub;
    audience = claims.aud;
    client_id = request.client_id;
    scopes = scopes;
    user_attributes = claims.user_attributes;
    user_groups = [];
    grant_type = claims.grant_type;
    user_type = claims.user_type;
    ou_id = claims.ou_id;
    ou_name = claims.ou_name;
    ou_handle = claims.ou_handle;
    auth_time = 0;
  }

  -- The response with its refresh token: a new one, or the one of the request.
  unfoldable pub add_refresh_token :
      Settings
      → TokenRequest
      → OauthApp
      → RefreshTokenClaims
      → List String
      → TokenDto
      → Result ErrorResponse TokenResponse
  unfolding issue_refresh_token
  add_refresh_token settings request app claims scopes access =
      if settings.renew_on_grant
      then elim (issue_refresh_token
          (record { access_token = access; refresh_token = no_token; id_token = no_token }) app
          claims scopes) [
            | ok response ↦ ok response
            | err e ↦ err (record e {
              error_description = "Error while issuing refresh token: " ++ e.error_description;
            })
          ]
      else ok (record {
        access_token = access;
        refresh_token = record {
          token = request.refresh_token;
          issued_at = claims.iat;
          scopes = claims.scopes;
          client_id = request.client_id;
          user_attributes = [];
          subject = "";
          audience = "";
        };
        id_token = no_token;
      })

  unfoldable pub handle_grant :
      JwtService → Settings → TokenRequest → OauthApp → Result ErrorResponse TokenResponse
  unfolding add_refresh_token
  handle_grant jwt settings request app =
      elim (validate_refresh_token jwt request.refresh_token request.client_id) [
        | none ↦ err (respond invalid_grant "Invalid refresh token")
        | some claims ↦
            (let scopes = apply_scope_downscoping request.scope claims.scopes in
              elim (builder.build_access_token app (access_context request claims scopes)) [
                | none ↦ err (respond server_error "Failed to generate access token")
                | some access ↦ add_refresh_token settings request app claims scopes access
              ])
      ]
