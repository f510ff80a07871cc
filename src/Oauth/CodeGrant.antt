-- ===== src/Oauth/CodeGrant.antt =====
-- The authorization code grant, backend/internal/oauth/oauth2/granthandlers/authorization_code.go,
-- with the helpers of tokenservice/utils.go that it calls.
--
-- The token builder and the user service are interfaces; `none` is their error. No value of a user attribute is a JSON object. Instants are in seconds. The logging is left out.
pub mod Retrieve
pub mod Redeem
pub mod Race
use thunder_fork.Prelude.{
  ℕ, String, Bool, true, false, not, ◌&&◌, ◌||◌, Option, none, some, List, [], ◌∷◌, ◌==◌, ltb,
  contains, if◌then◌else◌,
}
use thunder_fork.Prelude.Result.{Result, ok, err}
use thunder_fork.Prelude.Assoc.{Assoc}
use thunder_fork.Oauth.{
  Url, Platform, Value, ErrorCode, ErrorResponse, is_no_error, invalid_request, invalid_client,
  invalid_grant, invalid_target, unsupported_grant_type, server_error, authorization_code,
}
use thunder_fork.Oauth.App.{OauthApp, requires_pkce, access_token_attributes, id_token_attributes}
use thunder_fork.Oauth.Tokens.{TokenDto, no_token, BuildContext, TokenBuilder}
use thunder_fork.Oauth.Pkce.{validate_pkce}
use thunder_fork.Oauth.Scopes.{parse_scopes}
use thunder_fork.Oauth.Code.{
  AuthorizationCode, CodeState, active, inactive, get_authorization_code_details,
}

-- The fields of `model.TokenRequest` that the grants read.
pub record TokenRequest : Type 0 where
  pub grant_type : String
  pub client_id : String
  pub scope : String
  pub refresh_token : String
  pub code_verifier : String
  pub code : String
  pub redirect_uri : String
  pub resource : String
  pub client_secret : String
  pub subject_token : String
  pub subject_token_type : String
  pub actor_token : String
  pub actor_token_type : String
  pub requested_token_type : String
  pub audience : String

pub record TokenResponse : Type 0 where
  pub access_token : TokenDto
  pub refresh_token : TokenDto
  pub id_token : TokenDto

-- The attributes of a user: nil, text that is no JSON object, or an object.
pub data UserAttributes : Type 0 where
  absent malformed : UserAttributes
  attributes : Assoc Value → UserAttributes

-- `user.UserServiceInterface`: a user by id, and the names of the groups of a user.
pub record UserService : Type 0 where
  pub get_user : String → Option UserAttributes
  pub get_user_groups : String → Option (List String)

abbrev pub respond : ErrorCode → String → ErrorResponse
respond error description = record { error = error; error_description = description }

unfoldable pub determine_audience : String → String → String → String → String
determine_audience audience resource token_aud default_audience =
    if not (audience == "")
    then audience
    else if not (resource == "")
    then resource
    else if not (token_aud == "")
    then token_aud
    else default_audience

module _ (users : UserService) where
  abbrev with_groups : Assoc Value → Bool → String → Option (Assoc Value × List String)
  with_groups attrs include_groups user_id =
      if not include_groups
      then some (attrs, [])
      else elim (users.get_user_groups user_id) [ none ↦ none | some groups ↦ some (attrs, groups) ]

  unfoldable pub fetch_user_attributes_and_groups :
      String → Bool → Option (Assoc Value × List String)
  fetch_user_attributes_and_groups user_id include_groups = elim (users.get_user user_id) [
    | none ↦ none
    | some malformed ↦ none
    | some absent ↦ with_groups [] include_groups user_id
    | some (attributes attrs) ↦ with_groups attrs include_groups user_id
  ]

-- Whether a token of the application may carry the groups of the user.
unfoldable pub includes_groups : OauthApp → Bool
unfolding access_token_attributes id_token_attributes
includes_groups app =
    contains "groups" (access_token_attributes app) || contains "groups" (id_token_attributes app)

unfoldable pub validate_grant : Platform → TokenRequest → Option ErrorResponse
validate_grant platform request =
    if request.grant_type == ""
    then some (respond invalid_request "Missing grant type")
    else if not (request.grant_type == authorization_code)
    then some (respond unsupported_grant_type "Unsupported grant type")
    else if request.code == ""
    then some (respond invalid_grant "Authorization code is required")
    else if request.client_id == ""
    then some (respond invalid_client "Client Id is required")
    else if request.redirect_uri == ""
    then some (respond invalid_request "Redirect URI is required")
    else if not (request.resource == "")
    then elim (platform.parse_url request.resource) [
      | none ↦ some (respond invalid_request "Invalid resource parameter: must be an absolute URI")
      | some url ↦
          if url.scheme == "" || url.host == ""
          then some (respond invalid_request "Invalid resource parameter: must be an absolute URI")
          else if not (url.fragment == "")
          then some (
              respond invalid_request
                "Invalid resource parameter: must not contain a fragment component")
          else none
    ]
    else none

abbrev pub is_state : CodeState → CodeState → Bool
is_state active active = true
is_state inactive inactive = true
is_state _ _ = false

-- The instant `now` is that of the call of `time.Now`.
unfoldable pub validate_authorization_code :
    TokenRequest → AuthorizationCode → ℕ → Option ErrorResponse
validate_authorization_code request code now =
    if not (request.client_id == code.client_id)
    then some (respond invalid_client "Invalid client Id")
    else if not (code.redirect_uri == "") && not (request.redirect_uri == code.redirect_uri)
    then some (respond invalid_grant "Invalid redirect URI")
    else if not (code.resource == "") && not (code.resource == request.resource)
    then some (respond invalid_target "Resource parameter mismatch")
    else if is_state code.state inactive
    then some (respond invalid_grant "Inactive authorization code")
    else if not (is_state code.state active)
    then some (respond invalid_grant "Inactive authorization code")
    else if ltb code.expiry_time now
    then some (respond invalid_grant "Expired authorization code")
    else none

-- The checks of a code that the service handed out, PKCE among them.
unfoldable pub check_code :
    Platform → TokenRequest → OauthApp → ℕ → AuthorizationCode → Option ErrorResponse
check_code platform request app now code = elim (validate_authorization_code request code now) [
  | some e ↦ some e
  | none ↦
      if requires_pkce app || not (code.code_challenge == "")
      then (if request.code_verifier == ""
          then some (respond invalid_request "code_verifier is required")
          else elim (validate_pkce platform code.code_challenge code.code_challenge_method
              request.code_verifier) [
                | some e ↦ some (respond invalid_grant "Invalid code verifier")
                | none ↦ none
              ])
      else none
]

-- One call of the handler: the request, the application, the faults of the database, the time.
pub record Call : Type 0 where
  pub request : TokenRequest
  pub app : OauthApp
  pub get_fails : Bool
  pub update_fails : Bool
  pub now : ℕ

unfoldable pub retrieve_and_validate_auth_code :
    Platform
    → Call
    → List AuthorizationCode
    → List AuthorizationCode × Result ErrorResponse AuthorizationCode
retrieve_and_validate_auth_code platform call rows =
    let (rows', found) =
      get_authorization_code_details call.get_fails call.update_fails call.request.client_id
        call.request.code rows in
    (
      rows',
      elim found [
        | err e ↦ err (respond invalid_grant "Invalid authorization code")
        | ok code ↦ elim (check_code platform call.request call.app call.now code) [
          | some e ↦ err e
          | none ↦ ok code
        ]
      ],
    )

module _ (users : UserService) (builder : TokenBuilder) where
  -- The context of both tokens; the audience is that of the one that is built.
  unfoldable pub build_context :
      AuthorizationCode → String → String → Assoc Value → List String → BuildContext
  build_context code audience client_id attrs groups = record {
    subject = code.authorized_user_id;
    audience = audience;
    client_id = client_id;
    scopes = parse_scopes code.scopes;
    user_attributes = attrs;
    user_groups = groups;
    grant_type = authorization_code;
    user_type = code.authorized_user_type;
    ou_id = code.user_ou_id;
    ou_name = code.user_ou_name;
    ou_handle = code.user_ou_handle;
    auth_time = code.time_created;
  }

  -- The ID token, if the scope `openid` was granted.
  unfoldable pub issue_id_token :
      TokenRequest
      → OauthApp
      → AuthorizationCode
      → Assoc Value
      → List String
      → TokenDto
      → Result ErrorResponse TokenResponse
  issue_id_token request app code attrs groups access =
      if contains "openid" (parse_scopes code.scopes)
      then elim (builder.build_id_token app
          (build_context code request.client_id request.client_id attrs groups)) [
            | none ↦ err (respond server_error "Failed to generate ID token")
            | some id ↦
                ok (record { access_token = access; refresh_token = no_token; id_token = id })
          ]
      else ok (record { access_token = access; refresh_token = no_token; id_token = no_token })

  -- The part of `HandleGrant` after the code has been validated.
  unfoldable pub issue_tokens :
      TokenRequest → OauthApp → AuthorizationCode → Result ErrorResponse TokenResponse
  unfolding issue_id_token
  issue_tokens request app code =
      let audience = determine_audience "" code.resource "" code.client_id in
      elim (fetch_user_attributes_and_groups users code.authorized_user_id (includes_groups app)) [
        | none ↦
            err (
              respond server_error "Something went wrong while fetching user attributes and groups")
        | some (attrs, groups) ↦
            elim (builder.build_access_token app
              (build_context code audience request.client_id attrs groups)) [
                | none ↦ err (respond server_error "Failed to generate token")
                | some access ↦ issue_id_token request app code attrs groups access
              ]
      ]

  unfoldable pub handle_grant :
      Platform
      → Call
      → List AuthorizationCode
      → List AuthorizationCode × Result ErrorResponse TokenResponse
  handle_grant platform call rows =
      let (rows', found) = retrieve_and_validate_auth_code platform call rows in
      (rows', elim found [ err e ↦ err e | ok code ↦ issue_tokens call.request call.app code ])

  -- Any sequence of calls, with the results in their order.
  unfoldable pub handle_grants :
      Platform → List Call → List AuthorizationCode → List (Result ErrorResponse TokenResponse)
  handle_grants platform [] rows = []
  handle_grants platform (call ∷ calls) rows =
      let (rows', result) = handle_grant platform call rows in
      result ∷ handle_grants platform calls rows'
