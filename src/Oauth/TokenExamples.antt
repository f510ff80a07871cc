-- ===== src/Oauth/TokenExamples.antt =====
-- Concrete tokens and refreshes: tests, and the theorems at concrete inputs.
use thunder_fork.Prelude.{
  ℕ, String, ◌≡◌, true, false, Option, none, some, List, [], ◌∷◌, ◌==◌, contains, refl, ap, subst,
}
use thunder_fork.Prelude.Int.{pos}
use thunder_fork.Prelude.Result.{ok}
use thunder_fork.Prelude.Assoc.{Assoc, lookup, insert, UniqueKeys}
use thunder_fork.Oauth.{Value, text, Claim, value}
use thunder_fork.Oauth.Examples.{app}
use thunder_fork.Oauth.Scopes.{parse_scopes, join_scopes, keep_nonempty, split}
use thunder_fork.Prelude.Texts.{is_space, trim_space}
use thunder_fork.Oauth.Tokens.{
  Settings, TokenDto, no_token, BuildContext, RefreshContext, JwtService, jwt_payload,
  build_access_token_claims, select, write_all, append_user_type_and_ou, resolve_token_config,
  build_refresh_token_claims, build_access_token_user_attributes,
}
use thunder_fork.Oauth.Tokens.Signed.{IsSignedFor}
use thunder_fork.Oauth.Tokens.Claims.{access_token_claims, access_token_scope, access_token_sub}
use thunder_fork.Oauth.Tokens.Refreshed.{IsSound, refresh_claims, refresh_token_accepted}
use thunder_fork.Oauth.Tokens.Service.{
  RefreshTokenClaims, build_access_token, build_refresh_token, validate_refresh_token,
  validate_oauth2_refresh_claims, refresh_token_claims,
}
use thunder_fork.Oauth.CodeGrant.{TokenRequest, TokenResponse}
use thunder_fork.Oauth.RefreshGrant.{apply_scope_downscoping, handle_grant, access_context}
use thunder_fork.Oauth.RefreshGrant.Narrow.{IsHeldBy, AreNarrowed, refreshed, refresh_narrows}

abbrev pub settings : Settings
settings = record {
  issuer = "i";
  validity_period = 3600;
  refresh_validity_period = 86400;
  renew_on_grant = false;
}

abbrev refresh_ctx : RefreshContext
refresh_ctx = record {
  client_id = "c";
  scopes = "a" ∷ "b" ∷ [];
  grant_type = "authorization_code";
  access_token_subject = "u";
  access_token_audience = "c";
  access_token_user_attributes = [];
  user_type = "";
  ou_id = "";
  ou_name = "";
  ou_handle = "";
}

-- A service with one token, of the context above.
abbrev jwt : JwtService
jwt = record {
  generate_jwt = λ sub aud iss period claims. some ("jwt", 100);
  verify_jwt = λ token. token == "jwt";
  decode_payload =
      λ token. some (jwt_payload "c" "i" "i" 86500 100 "id" (refresh_claims app refresh_ctx));
}

abbrev refresh_dto : TokenDto
refresh_dto = record no_token {
  token = "jwt";
  issued_at = pos 100;
  scopes = "a" ∷ "b" ∷ [];
  client_id = "c";
  subject = "u";
  audience = "i";
}

abbrev token_of : Option (String × ℕ) → String
token_of none = ""
token_of (some (token, iat)) = token

abbrev iat_of : Option (String × ℕ) → ℕ
iat_of none = 0
iat_of (some (token, iat)) = iat

jwt-IsSound : IsSound jwt settings app refresh_ctx
unfolding resolve_token_config
jwt-IsSound token iat h = (
  subst (λ t. (t == "jwt") ≡ true) (ap token_of h) refl,
  "i",
  86500,
  "id",
  ap (λ n. some (jwt_payload "c" "i" "i" 86500 n "id" (refresh_claims app refresh_ctx)))
      (ap iat_of h),
)

refresh_token_accepted_example :
    (found : RefreshTokenClaims) × (validate_refresh_token jwt "jwt" "c" ≡ some found)
    × (found.sub ≡ "u")
    × (found.aud ≡ "c")
    × (found.grant_type ≡ "authorization_code")
    × (found.scopes ≡ "a" ∷ "b" ∷ [])
unfolding build_refresh_token resolve_token_config is_space
refresh_token_accepted_example =
    refresh_token_accepted jwt settings app refresh_ctx refresh_dto jwt-IsSound refl
      ((refl, (refl, tt)), ((refl, (refl, tt)), tt))

abbrev request : TokenRequest
request = record {
  grant_type = "refresh_token";
  client_id = "c";
  scope = "b z";
  refresh_token = "jwt";
  code_verifier = "";
  code = "";
  redirect_uri = "";
  resource = "";
  client_secret = "";
  subject_token = "";
  subject_token_type = "";
  actor_token = "";
  actor_token_type = "";
  requested_token_type = "";
  audience = "";
}

abbrev refresh_response : TokenResponse
refresh_response = record {
  access_token = record no_token {
    token = "jwt";
    issued_at = pos 100;
    scopes = "b" ∷ [];
    client_id = "c";
    subject = "u";
    audience = "c";
  };
  refresh_token = record no_token {
    token = "jwt";
    issued_at = pos 100;
    scopes = "a" ∷ "b" ∷ [];
    client_id = "c";
  };
  id_token = no_token;
}

a_refresh : refreshed jwt settings request app ≡ ok refresh_response
unfolding handle_grant validate_refresh_token validate_oauth2_refresh_claims lookup jwt_payload
    write_all append_user_type_and_ou build_refresh_token_claims insert build_access_token
    access_context refresh_token_claims apply_scope_downscoping select join_scopes parse_scopes
    trim_space keep_nonempty split contains
a_refresh = refl

abbrev attributes_in : Option (Assoc Claim) → Assoc Value
attributes_in none = []
attributes_in (some payload) = (refresh_token_claims payload).user_attributes

payload-IsMap :
    (token : String) (payload : Assoc Claim)
    → jwt.decode_payload token ≡ some payload
    → UniqueKeys (refresh_token_claims payload).user_attributes
unfolding refresh_token_claims lookup jwt_payload write_all append_user_type_and_ou
    build_refresh_token_claims insert
payload-IsMap token payload h = subst (λ o. UniqueKeys (attributes_in o)) h tt

refresh_narrows_example :
    (claims : Assoc Claim) × (scopes : List String) × IsHeldBy jwt "jwt" "c" claims
    × AreNarrowed "b z" (refresh_token_claims claims).scopes scopes
    × IsSignedFor jwt settings app
        (refresh_token_claims claims).sub
        (refresh_token_claims claims).aud
        "c"
        scopes
        (build_access_token_user_attributes (refresh_token_claims claims).user_attributes [] app)
        refresh_response.access_token
refresh_narrows_example =
    refresh_narrows jwt settings request app refresh_response payload-IsMap a_refresh

abbrev ctx : BuildContext
ctx = record {
  subject = "u";
  audience = "c";
  client_id = "c";
  scopes = "a" ∷ [];
  user_attributes = [];
  user_groups = [];
  grant_type = "authorization_code";
  user_type = "";
  ou_id = "";
  ou_name = "";
  ou_handle = "";
  auth_time = 0;
}

-- Attributes of a user with two names that are claims.
abbrev attrs : Assoc Value
attrs = ("scope", text "admin") ∷ ("sub", text "root") ∷ []

access_token_scope_example :
    lookup "scope" (build_access_token_claims ctx attrs) ≡ some (value (text "admin"))
unfolding lookup
access_token_scope_example = access_token_scope ctx attrs (refl, (refl, tt))

access_token_sub_example :
    lookup "sub" (jwt_payload "u" "c" "i" 200 100 "id" (access_token_claims ctx attrs))
    ≡ some (value (text "root"))
unfolding lookup
access_token_sub_example = access_token_sub ctx attrs "i" 200 100 "id" (refl, (refl, tt))
