-- ===== src/Oauth/Authz/Accept.antt =====
-- Which authorization requests are accepted, and where their errors may go.
use thunder_fork.Prelude.{String, ◌≡◌, ◌⊎◌, ◌↔◌, true, false, ◌&&◌, none, ◌==◌, arith}
use thunder_fork.Oauth.{Platform, no_error, authorization_code}
use thunder_fork.Oauth.App.{
  OauthApp, is_allowed_grant_type, is_allowed_response_type, requires_pkce, validate_redirect_uri,
}
use thunder_fork.Oauth.Pkce.{validate_code_challenge}
use thunder_fork.Oauth.Authz.{
  OauthMessage, Verdict, param, validate_resource_parameter, check_resource, check_pkce,
  validate_initial_authorization_request,
}

module _ (platform : Platform) (msg : OauthMessage) (app : OauthApp) where
  abbrev verdict : Verdict
  verdict = validate_initial_authorization_request platform msg app

  abbrev query : String → String
  query name = param name msg.request_query_params

  -- No open redirect: an error is sent to the client, and a request is accepted (with no error),
  -- only after its redirect URI has been found valid for the application.
  pub redirects_only_to_valid :
      (verdict.send_error_to_client ≡ true) ⊎ (verdict.error ≡ no_error)
      → validate_redirect_uri platform app (query "redirect_uri") ≡ none
  unfolding validate_initial_authorization_request
  redirects_only_to_valid h = ground arith

  -- A request is accepted exactly if it names a client, its redirect URI is valid for the
  -- application, the application may use the authorization code grant and the response type, PKCE
  -- is not called for or comes with a well-formed challenge, and the resource is left out or an
  -- absolute URI without a fragment.
  pub accepted_iff : (verdict.error ≡ no_error) ↔ (
      ((query "client_id" == "") ≡ false)
      × (validate_redirect_uri platform app (query "redirect_uri") ≡ none)
      × (is_allowed_grant_type app authorization_code ≡ true)
      × (is_allowed_response_type app (query "response_type") ≡ true)
      × (((requires_pkce app && query "response_type" == "code") ≡ false)
          ⊎ (((query "code_challenge" == "") ≡ false)
              × (validate_code_challenge (query "code_challenge") (query "code_challenge_method")
                  ≡ none)))
      × (((query "resource" == "") ≡ true)
          ⊎ (validate_resource_parameter platform (query "resource") ≡ none)))
  unfolding check_pkce check_resource is_allowed_response_type
      validate_initial_authorization_request
  accepted_iff = (λ h. ground arith, λ h. ground arith)
