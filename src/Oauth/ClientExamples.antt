-- ===== src/Oauth/ClientExamples.antt =====
-- Concrete authentications of clients: tests, and the theorems at concrete inputs.
use thunder_fork.Prelude.{String, ◌≡◌, ◌↔◌, false, Option, none, some, ◌==◌, refl, if◌then◌else◌}
use thunder_fork.Prelude.Texts.{after}
use thunder_fork.Prelude.Result.{ok, err}
use thunder_fork.Oauth.{Platform}
use thunder_fork.Oauth.App.{OauthApp, is_allowed_token_endpoint_auth_method, validate_credentials}
use thunder_fork.Oauth.Examples.{app}
use thunder_fork.Oauth.ClientAuth.{
  AuthRequest, OauthClientInfo, both_header_and_body, invalid_authorization_header,
  invalid_client_credentials, missing_client_secret, unauthorized_auth_method, split_at_colon,
  choose_credentials, extract_basic_auth_credentials, header_credentials, check_app,
  check_credentials, authenticate,
}
use thunder_fork.Oauth.ClientAuth.Accept.{IsPresented, authenticate_iff}
use thunder_fork.Oauth.ClientAuth.Header.{basic_header_accepted}

-- Hashes and base64 that leave a text as it is, and the one application "c" with the secret "h".
abbrev platform : Platform
platform = record { parse_url = λ s. none; s256 = λ s. s; thumbprint = λ s. s }

abbrev decode : String → Option String
decode s = some s

abbrev apps : String → Option OauthApp
apps id = if id == "c" then some app else none

abbrev request : String → String → String → AuthRequest
request header id secret = record { authorization = header; client_id = id; client_secret = secret }

abbrev client : OauthClientInfo
client = record { client_id = "c"; client_secret = "h"; oauth_app = app }

by_header : authenticate platform apps decode (request "Basic c:h" "" "") ≡ ok client
unfolding authenticate header_credentials extract_basic_auth_credentials after split_at_colon
    choose_credentials check_credentials check_app is_allowed_token_endpoint_auth_method
    validate_credentials
by_header = refl

wrong_secret :
    authenticate platform apps decode (request "Basic c:g" "" "") ≡ err invalid_client_credentials
unfolding authenticate header_credentials extract_basic_auth_credentials after split_at_colon
    choose_credentials check_credentials check_app is_allowed_token_endpoint_auth_method
    validate_credentials
wrong_secret = refl

wrong_method : authenticate platform apps decode (request "" "c" "h") ≡ err unauthorized_auth_method
unfolding authenticate header_credentials choose_credentials check_credentials check_app
    is_allowed_token_endpoint_auth_method
wrong_method = refl

no_secret : authenticate platform apps decode (request "" "c" "") ≡ err missing_client_secret
unfolding authenticate header_credentials choose_credentials check_credentials check_app
    is_allowed_token_endpoint_auth_method
no_secret = refl

twice : authenticate platform apps decode (request "Basic c:h" "c" "") ≡ err both_header_and_body
unfolding authenticate header_credentials extract_basic_auth_credentials after split_at_colon
twice = refl

other_scheme :
    authenticate platform apps decode (request "Bearer c:h" "" "")
    ≡ err invalid_authorization_header
unfolding authenticate header_credentials extract_basic_auth_credentials after
other_scheme = refl

authenticate_iff_example :
    (authenticate platform apps decode (request "Basic c:h" "" "") ≡ ok client) ↔ (
      (("c" == "") ≡ false)
      × (apps "c" ≡ some app)
      × IsPresented platform apps decode (request "Basic c:h" "" "") client)
authenticate_iff_example = authenticate_iff platform apps decode (request "Basic c:h" "" "") client

basic_header_accepted_example :
    authenticate platform apps decode (request "Basic c:h" "" "") ≡ ok client
basic_header_accepted_example =
    basic_header_accepted decode (λ s. s) (λ s. refl) platform apps app "h" (refl, tt) refl refl
      refl refl refl
