-- ===== src/Oauth/ExchangeExamples.antt =====
-- Concrete token exchanges: tests, and the theorems at concrete inputs.
use thunder_fork.Prelude.{
  String, ◌≡◌, if◌then◌else◌, Option, none, some, [], ◌∷◌, ◌==◌, contains, refl,
}
use thunder_fork.Prelude.Assoc.{Assoc, lookup}
use thunder_fork.Oauth.{text, number, float, Claim, value, object, invalid_request, invalid_target}
use thunder_fork.Oauth.Examples.{app, platform}
use thunder_fork.Oauth.Scopes.{parse_scopes, keep_nonempty, split}
use thunder_fork.Prelude.Texts.{is_space, trim_space}
use thunder_fork.Oauth.Tokens.{no_token, resolve_token_config}
use thunder_fork.Oauth.Tokens.Service.{extract_string_claim, extract_int64_claim}
use thunder_fork.Oauth.TokenExamples.{settings}
use thunder_fork.Oauth.CodeGrant.{TokenRequest, TokenResponse, respond, determine_audience}
use thunder_fork.Oauth.Exchange.{
  token_exchange, access_token_type, SubjectTokenClaims, expired, not_yet_valid,
  validate_time_claims, validate_subject_token, validate_claims, validate_issuer,
  verify_token_signature_by_issuer, extract_user_attributes, audience_of, ExchangeServices,
  handle_grant, subject_of, actor_of, get_scopes, held_scopes, validate_grant, check_actor,
  check_requested_type, check_resource,
}
use thunder_fork.Oauth.Exchange.Narrow.{
  IsTrusted, IsExchanged, validate_subject_token-IsTrusted, exchange_narrows,
}

-- The payload of a user's token, which holds two scopes and expires at 500.
abbrev payload : Assoc Claim
payload =
    ("iss", value (text "i"))
    ∷ ("sub", value (text "u"))
    ∷ ("exp", value (number 500))
    ∷ ("nbf", value (number 50))
    ∷ ("scope", value (text "a b"))
    ∷ ("email", value (text "u@x"))
    ∷ []

abbrev decode : String → Option (Assoc Claim)
decode token = if token == "jwt" then some payload else none

abbrev validated : SubjectTokenClaims
validated = record {
  sub = "u";
  iss = "i";
  aud = "";
  scopes = "a" ∷ "b" ∷ [];
  user_attributes = ("email", value (text "u@x")) ∷ [];
  nested_act = none;
}

validate_subject_token-IsTrusted_example :
    (found : Assoc Claim) × (decode "jwt" ≡ some found)
    × IsTrusted settings (λ token. token == "jwt") 100 "i" app "jwt" found validated
unfolding validate_subject_token validate_claims validate_issuer verify_token_signature_by_issuer
    validate_time_claims audience_of extract_user_attributes resolve_token_config is_space
    extract_string_claim lookup extract_int64_claim
    thunder_fork.Oauth.Tokens.Service.extract_scopes_from_claims contains parse_scopes trim_space
    keep_nonempty split
validate_subject_token-IsTrusted_example =
    validate_subject_token-IsTrusted settings (λ token. token == "jwt") decode 100 "i" app "jwt"
      validated refl

late : validate_time_claims 500 payload ≡ some expired
unfolding validate_time_claims extract_int64_claim lookup
late = refl

early : validate_time_claims 49 payload ≡ some not_yet_valid
unfolding validate_time_claims extract_int64_claim lookup
early = refl

-- A beginning at 1e19, which no int64 holds, counts as the least one.
far_beginning :
    validate_time_claims 100
      (("exp", value (number 500)) ∷ ("nbf", value (number 10_000_000_000_000_000_000)) ∷ [])
    ≡ none
unfolding validate_time_claims extract_int64_claim lookup
far_beginning = refl

-- An expiry of 1.5e0 seconds.
fraction : validate_time_claims 1 (("exp", value (float 0x3ff8_0000_0000_0000)) ∷ []) ≡ some expired
unfolding validate_time_claims extract_int64_claim lookup
fraction = refl

abbrev services : ExchangeServices
services = record {
  validate =
      λ app token. validate_subject_token settings (λ t. t == "jwt") decode 100 "i" app token;
  build = λ app context. some (record no_token {
    token = "new";
    scopes = context.scopes;
    client_id = context.client_id;
    subject = context.subject;
    audience = context.audience;
  });
}

abbrev request : TokenRequest
request = record {
  grant_type = token_exchange;
  client_id = "c";
  scope = "b z";
  refresh_token = "";
  code_verifier = "";
  code = "";
  redirect_uri = "";
  resource = "";
  client_secret = "";
  subject_token = "jwt";
  subject_token_type = access_token_type;
  actor_token = "";
  actor_token_type = "";
  requested_token_type = "";
  audience = "";
}

abbrev response : TokenResponse
response = record {
  access_token = record no_token {
    token = "new";
    scopes = "b" ∷ [];
    client_id = "c";
    subject = "u";
    audience = "c";
  };
  refresh_token = no_token;
  id_token = no_token;
}

exchange_narrows_example : IsExchanged services request app response
unfolding handle_grant subject_of actor_of get_scopes held_scopes determine_audience
    validate_subject_token validate_claims validate_issuer verify_token_signature_by_issuer
    validate_time_claims audience_of extract_user_attributes resolve_token_config is_space
    extract_string_claim lookup extract_int64_claim parse_scopes trim_space keep_nonempty split
    thunder_fork.Oauth.Tokens.Service.extract_scopes_from_claims contains
exchange_narrows_example = exchange_narrows services request app response refl

valid_request : validate_grant platform request ≡ none
unfolding validate_grant check_resource check_actor check_requested_type contains
valid_request = refl

-- An actor's token without its type, and a type that is known but not offered.
untyped_actor :
    validate_grant platform (record request { actor_token = "jwt" })
    ≡ some (respond invalid_request "actor_token_type is required when actor_token is provided")
unfolding validate_grant check_resource check_actor check_requested_type contains
untyped_actor = refl

no_id_token :
    check_requested_type "urn:ietf:params:oauth:token-type:id_token"
    ≡ some (
        respond invalid_target
          "Requested token type is not supported. Only access tokens and JWT tokens are supported.")
unfolding check_requested_type contains
no_id_token = refl
