-- ===== src/Oauth/Authz.antt =====
-- The validation of an authorization request, backend/internal/oauth/oauth2/authz/validator.go.
use thunder_fork.Prelude.{
  ℕ, String, Bool, true, false, not, ◌&&◌, ◌||◌, Option, none, some, List, [], ◌∷◌, ◌==◌,
  if◌then◌else◌,
}
use thunder_fork.Prelude.Assoc.{Assoc, lookup}
use thunder_fork.Oauth.{
  Platform, ErrorCode, no_error, invalid_request, invalid_target, unsupported_grant_type,
  unsupported_response_type, authorization_code,
}
use thunder_fork.Oauth.App.{
  OauthApp, is_allowed_grant_type, is_allowed_response_type, requires_pkce, validate_redirect_uri,
}
use thunder_fork.Oauth.Pkce.{validate_code_challenge}
pub mod Accept

-- Reading a Go map of texts: a key that is not there reads as the empty text.
abbrev pub param : String → Assoc String → String
param k m = elim (lookup k m) [ none ↦ "" | some v ↦ v ]

pub record OauthMessage : Type 0 where
  pub request_type : String
  pub auth_id : String
  pub request_query_params : Assoc String
  pub request_body_params : Assoc String

-- The three results: whether the error goes to the client, the error and its description.
pub record Verdict : Type 0 where
  pub send_error_to_client : Bool
  pub error : ErrorCode
  pub error_description : String

abbrev pub refuse : Bool → ErrorCode → String → Verdict
refuse to_client error description = record {
  send_error_to_client = to_client;
  error = error;
  error_description = description;
}

abbrev pub accept : Verdict
accept = refuse false no_error ""

module _ (platform : Platform) where
  -- The description of the first fault of the resource parameter.
  unfoldable pub validate_resource_parameter : String → Option String
  validate_resource_parameter resource = elim (platform.parse_url resource) [
    | none ↦ some "resource parameter must be a valid absolute URI"
    | some url ↦
        if url.scheme == ""
        then some "resource parameter must be an absolute URI with a scheme"
        else if not (url.fragment == "")
        then some "resource parameter must not include a fragment component"
        else none
  ]

  -- The last check, of the resource.
  unfoldable pub check_resource : String → Verdict
  unfolding validate_resource_parameter
  check_resource resource =
      if not (resource == "")
      then elim (validate_resource_parameter resource) [
        | some description ↦ refuse true invalid_target description
        | none ↦ accept
      ]
      else accept

  -- The checks of PKCE and of the resource.
  unfoldable pub check_pkce : OauthApp → String → Assoc String → Verdict
  check_pkce app response_type params =
      let code_challenge = param "code_challenge" params in
      let rest = check_resource (param "resource" params) in
      if requires_pkce app && response_type == "code"
      then (if code_challenge == ""
          then refuse true invalid_request "code_challenge is required for this application"
          else elim (validate_code_challenge code_challenge
              (param "code_challenge_method" params)) [
                | some e ↦ refuse true invalid_request "Invalid PKCE parameters"
                | none ↦ rest
              ])
      else rest

  unfoldable pub validate_initial_authorization_request : OauthMessage → OauthApp → Verdict
  unfolding check_pkce check_resource
  validate_initial_authorization_request msg app =
      let params = msg.request_query_params in
      let response_type = param "response_type" params in
      if param "client_id" params == ""
      then refuse false invalid_request "Missing client_id parameter"
      else elim (validate_redirect_uri platform app (param "redirect_uri" params)) [
        | some e ↦ refuse false invalid_request "Invalid redirect URI"
        | none ↦
            if not (is_allowed_grant_type app authorization_code)
            then refuse true unsupported_grant_type
                "Authorization code grant type is not allowed for the client"
            else if response_type == ""
            then refuse true invalid_request "Missing response_type parameter"
            else if not (is_allowed_response_type app response_type)
            then refuse true unsupported_response_type "Unsupported response type"
            else check_pkce app response_type params
      ]
