-- ===== src/Oauth/Exchange.antt =====
-- The token exchange grant, backend/internal/oauth/oauth2/granthandlers/token_exchange.go, and the
-- validation of the tokens that it is given, ValidateSubjectToken of tokenservice/validator.go.
--
-- The check of a signature and the token builder are parameters. The texts of errors name no value.
-- Of the claim `act` the model keeps the values that are no objects.
pub mod Narrow
use thunder_fork.Prelude.{
  ℕ, String, Bool, true, false, not, ◌&&◌, ◌||◌, Option, none, some, List, [], ◌∷◌, ◌==◌, ltb, leb,
  contains, is_empty, is_some, if◌then◌else◌,
}
use thunder_fork.Prelude.Int.{pos, ltb_ℤ, leb_ℤ}
use thunder_fork.Prelude.Assoc.{Assoc, lookup, has}
use thunder_fork.Prelude.Result.{Result, ok, err, ◌>>=◌, ◌>>◌, guard, or_err}
use thunder_fork.Oauth.{
  Url, Platform, Value, text, Claim, value, object, ErrorResponse, invalid_request, invalid_grant,
  invalid_scope, invalid_target, unsupported_grant_type, server_error,
}
use thunder_fork.Oauth.App.{OauthApp}
use thunder_fork.Oauth.Scopes.{parse_scopes}
use thunder_fork.Oauth.Tokens.{access, Settings, TokenDto, no_token, resolve_token_config}
use thunder_fork.Oauth.Tokens.Service.{
  extract_string_claim, extract_int64_claim, extract_scopes_from_claims, or_empty,
}
use thunder_fork.Oauth.CodeGrant.{TokenRequest, TokenResponse, respond, determine_audience}

abbrev pub token_exchange : String
token_exchange = "urn:ietf:params:oauth:grant-type:token-exchange"

abbrev pub access_token_type : String
access_token_type = "urn:ietf:params:oauth:token-type:access_token"

abbrev pub jwt_type : String
jwt_type = "urn:ietf:params:oauth:token-type:jwt"

-- `IsValid` of a TokenTypeIdentifier.
abbrev pub is_token_type : String → Bool
is_token_type identifier = contains identifier (
    access_token_type ∷ "urn:ietf:params:oauth:token-type:refresh_token"
    ∷ "urn:ietf:params:oauth:token-type:id_token" ∷ jwt_type ∷ [])

pub record SubjectTokenClaims : Type 0 where
  pub sub : String
  pub iss : String
  pub aud : String
  pub scopes : List String
  pub user_attributes : Assoc Claim
  pub nested_act : Option (Assoc Value)

-- The claims that are no attributes of the user.
abbrev pub standard_jwt_claims : List String
standard_jwt_claims =
    "sub" ∷ "iss" ∷ "aud" ∷ "exp" ∷ "nbf" ∷ "iat" ∷ "jti" ∷ "scope" ∷ "client_id" ∷ "act" ∷ []

unfoldable pub extract_user_attributes : Assoc Claim → Assoc Claim
extract_user_attributes [] = []
extract_user_attributes ((key, claim) ∷ claims) =
    let rest = extract_user_attributes claims in
    if contains key standard_jwt_claims then rest else (key, claim) ∷ rest

abbrev nested_object : Option Claim → Option (Assoc Value)
nested_object (some (object act)) = some act
nested_object _ = none

abbrev pub is_auth_assertion : Assoc Claim → Bool
is_auth_assertion claims = has "assurance" claims

-- Why a token is refused.
pub data TokenFault : Type 0 where
  not_decoded no_issuer other_issuer bad_signature no_subject no_expiry expired : TokenFault
  not_yet_valid no_audience other_audience : TokenFault

-- The claims of time at the instant `now`.
unfoldable pub validate_time_claims : ℕ → Assoc Claim → Option TokenFault
validate_time_claims now claims = elim (extract_int64_claim claims "exp") [
  | none ↦ some no_expiry
  | some exp ↦
      if leb_ℤ exp (pos now) then some expired else elim (extract_int64_claim claims "nbf") [
        | none ↦ none
        | some nbf ↦ if ltb_ℤ (pos now) nbf then some not_yet_valid else none
      ]
]

-- The audience: of an assertion it has to be the server's or the application's.
unfoldable pub audience_of : String → OauthApp → Assoc Claim → Result TokenFault String
audience_of default_audience app claims =
    if is_auth_assertion claims
    then or_err no_audience (extract_string_claim claims "aud") >>= (λ aud.
      if not (aud == default_audience) && not (aud == app.app_id)
      then err other_audience
      else ok aud)
    else ok (or_empty (extract_string_claim claims "aud"))

abbrev unless : Option TokenFault → Result TokenFault (Unit {0})
unless none = ok tt
unless (some fault) = err fault

module _ (settings : Settings) (verify_signature : String → Bool) where
  unfoldable pub validate_issuer : String → OauthApp → Bool
  validate_issuer issuer app = issuer == (resolve_token_config settings app access).issuer

  unfoldable pub verify_token_signature_by_issuer : String → String → OauthApp → Bool
  unfolding validate_issuer
  verify_token_signature_by_issuer token issuer app =
      validate_issuer issuer app && verify_signature token

  -- The claims of the payload of a token.
  unfoldable pub validate_claims :
      ℕ → String → OauthApp → String → Assoc Claim → Result TokenFault SubjectTokenClaims
  validate_claims now default_audience app token claims = do
    iss ← or_err no_issuer (extract_string_claim claims "iss")
    guard (validate_issuer iss app) other_issuer
    guard (verify_token_signature_by_issuer token iss app) bad_signature
    sub ← or_err no_subject (extract_string_claim claims "sub")
    unless (validate_time_claims now claims)
    aud ← audience_of default_audience app claims
    ok (record {
      sub = sub;
      iss = iss;
      aud = aud;
      scopes = extract_scopes_from_claims claims (is_auth_assertion claims);
      user_attributes = extract_user_attributes claims;
      nested_act = nested_object (lookup "act" claims);
    })

  module _ (decode_payload : String → Option (Assoc Claim)) where
    unfoldable pub validate_subject_token :
        ℕ → String → OauthApp → String → Result TokenFault SubjectTokenClaims
    validate_subject_token now default_audience app token =
        or_err not_decoded (decode_payload token) >>= λ claims.
        validate_claims now default_audience app token claims

-- The resource of a request: an absolute URI without a fragment.
unfoldable pub check_resource : Platform → String → Option ErrorResponse
check_resource platform resource =
    if resource == "" then none else elim (platform.parse_url resource) [
      | none ↦ some (respond invalid_request "Invalid resource parameter: must be an absolute URI")
      | some url ↦
          if url.scheme == "" || url.host == ""
          then some (respond invalid_request "Invalid resource parameter: must be an absolute URI")
          else if not (url.fragment == "")
          then some (
              respond invalid_request
                "Invalid resource parameter: must not contain a fragment component")
          else none
    ]

unfoldable pub check_actor : TokenRequest → Option ErrorResponse
check_actor request =
    if not (request.actor_token == "") && request.actor_token_type == ""
    then some (respond invalid_request "actor_token_type is required when actor_token is provided")
    else if request.actor_token_type == ""
    then none
    else if request.actor_token == ""
    then some (respond invalid_request "actor_token_type must not be provided without actor_token")
    else if not (is_token_type request.actor_token_type)
    then some (respond invalid_request "Unsupported actor_token_type")
    else none

unfoldable pub check_requested_type : String → Option ErrorResponse
check_requested_type requested =
    if requested == ""
    then none
    else if not (is_token_type requested)
    then some (respond invalid_request "Unsupported requested_token_type")
    else if not (requested == access_token_type) && not (requested == jwt_type)
    then some (
        respond invalid_target
          "Requested token type is not supported. Only access tokens and JWT tokens are supported.")
    else none

-- The first of two errors.
abbrev or_else : Option ErrorResponse → Option ErrorResponse → Option ErrorResponse
or_else none e = e
or_else (some e) f = some e

unfoldable pub validate_grant : Platform → TokenRequest → Option ErrorResponse
validate_grant platform request =
    if not (request.grant_type == token_exchange)
    then some (respond unsupported_grant_type "Unsupported grant type")
    else if request.subject_token == ""
    then some (respond invalid_request "Missing required parameter: subject_token")
    else if request.subject_token_type == ""
    then some (respond invalid_request "Missing required parameter: subject_token_type")
    else if not (is_token_type request.subject_token_type)
    then some (respond invalid_request "Unsupported subject_token_type")
    else or_else (check_resource platform request.resource)
        (or_else (check_actor request) (check_requested_type request.requested_token_type))

-- The requested scopes that the subject token holds.
unfoldable pub held_scopes : List String → List String → List String
held_scopes held [] = []
held_scopes held (scope ∷ scopes) =
    let rest = held_scopes held scopes in if contains scope held then scope ∷ rest else rest

unfoldable pub get_scopes : String → List String → Result ErrorResponse (List String)
unfolding held_scopes
get_scopes requested held =
    if requested == ""
    then ok held
    else (let scopes = parse_scopes requested in
        if is_empty scopes
        then ok []
        else if is_empty held
        then err (
            respond invalid_scope
              "Cannot request scopes when the subject token has no scopes. Requested scopes must be a subset of the subject token's scopes.")
        else ok (held_scopes held scopes))

-- The fields of `AccessTokenBuildContext` that the exchange sets.
pub record ExchangeContext : Type 0 where
  pub subject : String
  pub audience : String
  pub client_id : String
  pub scopes : List String
  pub user_attributes : Assoc Claim
  pub grant_type : String
  pub actor_claims : Option SubjectTokenClaims

-- The validator and the builder of the handler.
pub record ExchangeServices : Type 0 where
  pub validate : OauthApp → String → Result TokenFault SubjectTokenClaims
  pub build : OauthApp → ExchangeContext → Option TokenDto

module _ (services : ExchangeServices) where
  -- The claims of the actor, if a token of one is given.
  unfoldable pub actor_of : OauthApp → String → Result ErrorResponse (Option SubjectTokenClaims)
  actor_of app token = if token == "" then ok none else elim (services.validate app token) [
    | err fault ↦ err (respond invalid_grant "Invalid actor_token")
    | ok claims ↦ ok (some claims)
  ]

  unfoldable pub subject_of : OauthApp → String → Result ErrorResponse SubjectTokenClaims
  subject_of app token = elim (services.validate app token) [
    | err fault ↦ err (respond invalid_grant "Invalid subject_token")
    | ok claims ↦ ok claims
  ]

  abbrev pub exchange_context :
      TokenRequest → SubjectTokenClaims → Option SubjectTokenClaims → List String → ExchangeContext
  exchange_context request subject actor scopes = record {
    subject = subject.sub;
    audience = determine_audience request.audience request.resource subject.aud request.client_id;
    client_id = request.client_id;
    scopes = scopes;
    user_attributes = subject.user_attributes;
    grant_type = token_exchange;
    actor_claims = actor;
  }

  unfoldable pub handle_grant : TokenRequest → OauthApp → Result ErrorResponse TokenResponse
  handle_grant request app = do
    subject ← subject_of app request.subject_token
    actor ← actor_of app request.actor_token
    scopes ← get_scopes request.scope subject.scopes
    token ←
        or_err (respond server_error "Failed to generate token")
          (services.build app (exchange_context request subject actor scopes))
    ok (record { access_token = token; refresh_token = no_token; id_token = no_token })
