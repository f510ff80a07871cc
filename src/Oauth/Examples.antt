-- ===== src/Oauth/Examples.antt =====
-- Concrete runs of the OAuth modules: tests, and the theorems at concrete inputs.
use thunder_fork.Prelude.{
  String, ◌≡◌, ◌≢◌, ◌≤◌, ◌⊎◌, ◌↔◌, inl, inr, true, false, ◌&&◌, Option, none, some, [], ◌∷◌, ◌==◌,
  contains, if◌then◌else◌, refl, arith,
}
use thunder_fork.Prelude.Result.{ok}
use thunder_fork.Prelude.Assoc.{lookup}
use thunder_fork.Oauth.{Url, Platform, no_error, authorization_code, text}
use thunder_fork.Oauth.App.{
  OauthApp, validate_redirect_uri, is_allowed_grant_type, is_allowed_response_type, requires_pkce,
}
use thunder_fork.Oauth.Pkce.{
  plain, is_valid_base64_url_char, validate_code_verifier, all_runes, is_valid_ascii_unreserved,
  default_method, validate_pkce, validate_code_challenge, s256_method,
}
use thunder_fork.Oauth.Pkce.Laws.{IsVerifier, validate_pkce_iff}
use thunder_fork.Oauth.Authz.{
  OauthMessage, param, validate_initial_authorization_request, validate_resource_parameter,
}
use thunder_fork.Oauth.Authz.Accept.{redirects_only_to_valid, accepted_iff}
use thunder_fork.Oauth.Code.{
  AuthorizationCode, active, first_row, get_authorization_code, get_authorization_code_details,
  set_state,
}
use thunder_fork.Oauth.Code.Rows.{is_live}
use thunder_fork.Oauth.CodeGrant.{
  TokenRequest, TokenResponse, UserService, attributes, Call, handle_grant,
  retrieve_and_validate_auth_code, check_code, validate_authorization_code, issue_tokens,
  issue_id_token, fetch_user_attributes_and_groups, includes_groups,
}
use thunder_fork.Oauth.CodeGrant.Retrieve.{IsRedeemable}
use thunder_fork.Oauth.CodeGrant.Redeem.{redeemed, at_most_once, redemptions}
use thunder_fork.Oauth.CodeGrant.Race.{Race, finished, Reach, start, both_redeem}
use thunder_fork.Oauth.Scopes.{parse_scopes, keep_nonempty, split}
use thunder_fork.Prelude.Texts.{trim_space}
use thunder_fork.Oauth.Tokens.{TokenBuilder, TokenDto, no_token}

abbrev verifier : String
verifier = "dBjftJeZ4CVP-mB92K27uhbUJU1p1r_wW1gFWFOEjXk"

abbrev challenge : String
challenge = "E9Melhoa2OwvFrEMTJguCHaoeK1t8URWbuGJSstw-cM"

-- A platform that reads one URL, and hashes every text to the challenge.
abbrev parse : String → Option Url
parse s =
    if s == "https://app/cb"
    then some (record { scheme = "https"; host = "app"; fragment = "" })
    else none

abbrev pub platform : Platform
platform = record { parse_url = parse; s256 = λ s. challenge; thumbprint = λ s. s }

abbrev pub app : OauthApp
app = record {
  app_id = "1";
  client_id = "c";
  hashed_client_secret = "h";
  redirect_uris = "https://app/cb" ∷ [];
  grant_types = "authorization_code" ∷ "refresh_token" ∷ [];
  response_types = "code" ∷ [];
  token_endpoint_auth_method = "client_secret_basic";
  pkce_required = true;
  public_client = false;
  token = some (record {
    issuer = "";
    access_token = some (record { validity_period = 0; user_attributes = "email" ∷ [] });
    id_token =
        some (record { validity_period = 0; user_attributes = "email" ∷ []; scope_claims = none });
  });
}

abbrev row : AuthorizationCode
row = record {
  code_id = "id";
  code = "xyz";
  client_id = "c";
  redirect_uri = "https://app/cb";
  authorized_user_id = "u";
  authorized_user_type = "person";
  user_ou_id = "";
  user_ou_name = "";
  user_ou_handle = "";
  time_created = 100;
  expiry_time = 700;
  scopes = "openid email";
  state = active;
  code_challenge = challenge;
  code_challenge_method = s256_method;
  resource = "";
}

abbrev request : TokenRequest
request = record {
  grant_type = "authorization_code";
  client_id = "c";
  scope = "";
  refresh_token = "";
  code_verifier = verifier;
  code = "xyz";
  redirect_uri = "https://app/cb";
  resource = "";
  client_secret = "";
  subject_token = "";
  subject_token_type = "";
  actor_token = "";
  actor_token_type = "";
  requested_token_type = "";
  audience = "";
}

abbrev call : Call
call = record { request = request; app = app; get_fails = false; update_fails = false; now = 200 }

abbrev users : UserService
users = record {
  get_user = λ id. some (attributes (("email", text "a@b") ∷ []));
  get_user_groups = λ id. some [];
}

abbrev token : TokenDto
token = record no_token { token = "t" }

abbrev builder : TokenBuilder
builder = record {
  build_access_token = λ a ctx. some token;
  build_refresh_token = λ a ctx. some token;
  build_id_token = λ a ctx. some token;
}

abbrev response : TokenResponse
response = record { access_token = token; refresh_token = no_token; id_token = token }

first_call : (handle_grant users builder platform call (row ∷ [])).1 ≡ ok response
unfolding handle_grant retrieve_and_validate_auth_code get_authorization_code_details
    get_authorization_code first_row set_state check_code validate_authorization_code validate_pkce
    issue_tokens issue_id_token fetch_user_attributes_and_groups includes_groups requires_pkce
    validate_code_verifier all_runes is_valid_ascii_unreserved default_method contains parse_scopes
    trim_space keep_nonempty split
first_call = refl

redeemed_example :
    (r : AuthorizationCode) × (first_row "c" "xyz" (row ∷ []) ≡ some r)
    × IsRedeemable platform request app 200 r
    × (is_live (first_row "c" "xyz" (handle_grant users builder platform call (row ∷ [])).0)
        ≡ false)
redeemed_example = redeemed users builder platform call (row ∷ []) response first_call

two_calls : redemptions users builder platform "c" "xyz" (call ∷ call ∷ []) (row ∷ []) ≡ 1
unfolding redemptions handle_grant retrieve_and_validate_auth_code get_authorization_code_details
    get_authorization_code first_row set_state check_code validate_authorization_code validate_pkce
    issue_tokens issue_id_token fetch_user_attributes_and_groups includes_groups requires_pkce
    validate_code_verifier all_runes is_valid_ascii_unreserved default_method contains parse_scopes
    trim_space keep_nonempty split
two_calls = refl

at_most_once_example :
    redemptions users builder platform "c" "xyz" (call ∷ call ∷ []) (row ∷ []) ≤ 1
at_most_once_example = at_most_once users builder platform "c" "xyz" (call ∷ call ∷ []) (row ∷ [])

validate_pkce_iff_example : (validate_pkce platform challenge s256_method verifier ≡ none) ↔ (
    IsVerifier verifier
    × (challenge ≢ "")
    × (((s256_method ≡ "") ⊎ (s256_method ≡ plain)) × (challenge ≡ verifier)
        ⊎ (s256_method ≡ s256_method) × (challenge ≡ platform.s256 verifier)))
validate_pkce_iff_example = validate_pkce_iff platform challenge s256_method verifier

abbrev callback : String
callback = "https://app/cb"

abbrev msg : OauthMessage
msg = record {
  request_type = "initial";
  auth_id = "";
  request_query_params =
      ("client_id", "c")
      ∷ ("redirect_uri", "https://app/cb")
      ∷ ("response_type", "code")
      ∷ ("code_challenge", challenge)
      ∷ ("code_challenge_method", "S256")
      ∷ [];
  request_body_params = [];
}

redirects_only_to_valid_example :
    validate_redirect_uri platform app (param "redirect_uri" msg.request_query_params) ≡ none
unfolding validate_initial_authorization_request validate_redirect_uri contains lookup
    is_allowed_grant_type is_allowed_response_type requires_pkce validate_code_challenge
    is_valid_base64_url_char all_runes default_method
redirects_only_to_valid_example = redirects_only_to_valid platform msg app (inr refl)

accepted_iff_example :
    ((validate_initial_authorization_request platform msg app).error ≡ no_error) ↔ (
      ((param "client_id" msg.request_query_params == "") ≡ false)
      × (validate_redirect_uri platform app (param "redirect_uri" msg.request_query_params) ≡ none)
      × (is_allowed_grant_type app authorization_code ≡ true)
      × (is_allowed_response_type app (param "response_type" msg.request_query_params) ≡ true)
      × (((requires_pkce app && param "response_type" msg.request_query_params == "code") ≡ false)
          ⊎ (((param "code_challenge" msg.request_query_params == "") ≡ false)
              × (validate_code_challenge
                    (param "code_challenge" msg.request_query_params)
                    (param "code_challenge_method" msg.request_query_params)
                  ≡ none)))
      × (((param "resource" msg.request_query_params == "") ≡ true)
          ⊎ (validate_resource_parameter platform (param "resource" msg.request_query_params)
              ≡ none)))
accepted_iff_example = accepted_iff platform msg app

redeemable : IsRedeemable platform request app 200 row
unfolding validate_pkce validate_code_verifier all_runes is_valid_ascii_unreserved default_method
redeemable = record {
  same_client = refl;
  same_redirect = inr refl;
  same_resource = inl refl;
  is_active = refl;
  in_time = omega arith;
  proved = inr refl;
}

both_redeem_example :
    (end : Race) × Reach platform call call (start (row ∷ [])) end
    × (end.first ≡ finished (ok row))
    × (end.second ≡ finished (ok row))
unfolding get_authorization_code first_row
both_redeem_example =
    both_redeem platform call call (row ∷ []) row (refl, refl) (refl, refl) refl refl redeemable
      redeemable
