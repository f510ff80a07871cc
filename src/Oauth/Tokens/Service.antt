-- ===== src/Oauth/Tokens/Service.antt =====
-- The builder and the validator of tokens over the JWT service: builder.go, validator.go, and the
-- claims of an ID token of utils.go.
use thunder_fork.Prelude.{
  ℕ, String, Bool, false, not, ◌&&◌, Option, none, some, List, [], ◌∷◌, ◌==◌, ltb, contains,
  is_empty, is_some, if◌then◌else◌,
}
use thunder_fork.Prelude.Int.{ℤ, pos, int64_of_number, int64_of_float}
use thunder_fork.Prelude.Assoc.{Assoc, lookup, insert}
use thunder_fork.Oauth.{Value, text, number, float, texts, Claim, value, object}
use thunder_fork.Oauth.App.{OauthApp, id_token_attributes}
use thunder_fork.Oauth.Scopes.{parse_scopes}
use thunder_fork.Oauth.Tokens.{
  access, refresh, id, Settings, TokenDto, BuildContext, RefreshContext, TokenBuilder, JwtService,
  resolve_token_config, append_user_type_and_ou, build_access_token_claims,
  build_access_token_user_attributes, build_refresh_token_claims, set_all,
}

-- The claims of `StandardOIDCScopes`; none for another scope.
unfoldable pub standard_claims : String → Option (List String)
standard_claims scope =
    if scope == "openid"
    then some ("sub" ∷ [])
    else if scope == "profile"
    then some (
        "name" ∷ "family_name" ∷ "given_name" ∷ "middle_name" ∷ "nickname" ∷ "preferred_username"
        ∷ "profile" ∷ "picture" ∷ "website" ∷ "gender" ∷ "birthdate" ∷ "zoneinfo" ∷ "locale"
        ∷ "updated_at" ∷ [])
    else if scope == "email"
    then some ("email" ∷ "email_verified" ∷ [])
    else if scope == "phone"
    then some ("phone_number" ∷ "phone_number_verified" ∷ [])
    else if scope == "address"
    then some ("address" ∷ [])
    else none

-- The claims of a scope: those of the application, or else the standard ones.
unfoldable pub scope_claims : Option (Assoc (List String)) → String → List String
scope_claims none scope = elim (standard_claims scope) [ none ↦ [] | some names ↦ names ]
scope_claims (some mapping) scope = elim (lookup scope mapping) [
  | none ↦ elim (standard_claims scope) [ none ↦ [] | some names ↦ names ]
  | some names ↦ names
]

-- The claims of a scope that the configuration allows and the user has.
unfoldable pub add_claims : List String → List String → Assoc Value → Assoc Value → Assoc Value
add_claims [] allowed attrs claims = claims
add_claims (name ∷ names) allowed attrs claims =
    let rest = add_claims names allowed attrs claims in
    if contains name allowed
    then elim (lookup name attrs) [
      | none ↦ rest
      | some v ↦ add_claims names allowed attrs (insert name v claims)
    ]
    else rest

unfoldable pub add_scopes :
    List String
    → Option (Assoc (List String))
    → List String
    → Assoc Value
    → Assoc Value
    → Assoc Value
unfolding add_claims
add_scopes [] mapping allowed attrs claims = claims
add_scopes (scope ∷ scopes) mapping allowed attrs claims =
    add_scopes scopes mapping allowed attrs
      (add_claims (scope_claims mapping scope) allowed attrs claims)

abbrev pub claim_mapping : OauthApp → Option (Assoc (List String))
claim_mapping app = elim app.token [
  | none ↦ none
  | some token ↦ elim token.id_token [ none ↦ none | some config ↦ config.scope_claims ]
]

unfoldable pub build_oidc_claims_from_scopes : List String → Assoc Value → OauthApp → Assoc Value
unfolding id_token_attributes add_scopes
build_oidc_claims_from_scopes scopes attrs app =
    if is_empty (id_token_attributes app)
    then []
    else add_scopes scopes (claim_mapping app) (id_token_attributes app) attrs []

unfoldable pub build_id_token_claims : OauthApp → BuildContext → Assoc Claim
unfolding id_token_attributes
build_id_token_claims app ctx =
    let attrs =
      if not (is_empty ctx.user_groups) && contains "groups" (id_token_attributes app)
      then insert "groups" (texts ctx.user_groups) ctx.user_attributes
      else ctx.user_attributes in
    set_all (build_oidc_claims_from_scopes ctx.scopes attrs app)
      (if ltb 0 ctx.auth_time then ("auth_time", value (number ctx.auth_time)) ∷ [] else [])

unfoldable pub extract_string_claim : Assoc Claim → String → Option String
extract_string_claim claims key = elim (lookup key claims) [
  | none ↦ none
  | some (value (text s)) ↦ some s
  | some c ↦ none
]

unfoldable pub extract_int64_claim : Assoc Claim → String → Option ℤ
unfolding int64_of_number int64_of_float
extract_int64_claim claims key = elim (lookup key claims) [
  | none ↦ none
  | some (value (number n)) ↦ some (int64_of_number n)
  | some (value (float bits)) ↦ some (int64_of_float bits)
  | some c ↦ none
]

-- `s, _ := extractStringClaim(…)`
abbrev pub or_empty : Option String → String
or_empty none = ""
or_empty (some s) = s

abbrev or_zero : Option ℤ → ℤ
or_zero none = pos 0
or_zero (some n) = n

-- The scopes of a claim that is a text and not the empty one.
abbrev pub claimed_scopes : Option String → Option (List String)
claimed_scopes none = none
claimed_scopes (some s) = if s == "" then none else some (parse_scopes s)

unfoldable pub extract_scopes_from_claims : Assoc Claim → Bool → List String
unfolding extract_string_claim
extract_scopes_from_claims claims is_auth_assertion =
    elim (claimed_scopes (extract_string_claim claims "scope")) [
      | some scopes ↦ scopes
      | none ↦
          if is_auth_assertion
          then elim (claimed_scopes (extract_string_claim claims "authorized_permissions")) [
            | some scopes ↦ scopes
            | none ↦ []
          ]
          else []
    ]

pub record RefreshTokenClaims : Type 0 where
  pub sub : String
  pub aud : String
  pub grant_type : String
  pub scopes : List String
  pub user_attributes : Assoc Value
  pub iat : ℤ
  pub user_type : String
  pub ou_id : String
  pub ou_name : String
  pub ou_handle : String

-- Whether the claims are those of a refresh token of the client.
unfoldable pub validate_oauth2_refresh_claims : Assoc Claim → String → Bool
unfolding extract_string_claim
validate_oauth2_refresh_claims claims client_id = elim (extract_string_claim claims "sub") [
  | none ↦ false
  | some sub ↦
      sub == client_id
      && is_some (extract_string_claim claims "access_token_sub")
      && is_some (extract_string_claim claims "access_token_aud")
      && is_some (extract_string_claim claims "grant_type")
]

abbrev attributes_claim : Option Claim → Assoc Value
attributes_claim (some (object attrs)) = attrs
attributes_claim _ = []

-- The claims of a token, as the validator hands them out.
unfoldable pub refresh_token_claims : Assoc Claim → RefreshTokenClaims
unfolding extract_string_claim extract_int64_claim extract_scopes_from_claims
refresh_token_claims claims = record {
  sub = or_empty (extract_string_claim claims "access_token_sub");
  aud = or_empty (extract_string_claim claims "access_token_aud");
  grant_type = or_empty (extract_string_claim claims "grant_type");
  scopes = extract_scopes_from_claims claims false;
  user_attributes = attributes_claim (lookup "access_token_user_attributes" claims);
  iat = or_zero (extract_int64_claim claims "iat");
  user_type = or_empty (extract_string_claim claims "userType");
  ou_id = or_empty (extract_string_claim claims "ouId");
  ou_name = or_empty (extract_string_claim claims "ouName");
  ou_handle = or_empty (extract_string_claim claims "ouHandle");
}

-- The DTO with the token of the JWT service and the instant of its issue.
abbrev pub issued : TokenDto → Option (String × ℕ) → Option TokenDto
issued dto none = none
issued dto (some (token, iat)) = some (record dto { token = token; issued_at = pos iat })

module _ (jwt : JwtService) where
  unfoldable pub validate_refresh_token : String → String → Option RefreshTokenClaims
  validate_refresh_token token client_id =
      if not (jwt.verify_jwt token) then none else elim (jwt.decode_payload token) [
        | none ↦ none
        | some claims ↦
            if validate_oauth2_refresh_claims claims client_id
            then some (refresh_token_claims claims)
            else none
      ]

  module _ (settings : Settings) (app : OauthApp) where
    unfoldable pub build_access_token : BuildContext → Option TokenDto
    unfolding append_user_type_and_ou build_access_token_claims build_access_token_user_attributes
    build_access_token ctx =
        let config = resolve_token_config settings app access in
        let attrs = build_access_token_user_attributes ctx.user_attributes ctx.user_groups app in
        issued
          (record {
            token = "";
            issued_at = pos 0;
            scopes = ctx.scopes;
            client_id = ctx.client_id;
            user_attributes = attrs;
            subject = ctx.subject;
            audience = ctx.audience;
          })
          (jwt.generate_jwt ctx.subject ctx.audience config.issuer config.validity_period (
            append_user_type_and_ou ctx.user_type ctx.ou_id ctx.ou_name ctx.ou_handle
              (build_access_token_claims ctx attrs)))

    unfoldable pub build_refresh_token : RefreshContext → Option TokenDto
    build_refresh_token ctx =
        let config = resolve_token_config settings app refresh in
        issued
          (record {
            token = "";
            issued_at = pos 0;
            scopes = ctx.scopes;
            client_id = ctx.client_id;
            user_attributes = [];
            subject = ctx.access_token_subject;
            audience = config.issuer;
          })
          (jwt.generate_jwt ctx.client_id config.issuer config.issuer config.validity_period (
            append_user_type_and_ou ctx.user_type ctx.ou_id ctx.ou_name ctx.ou_handle
              (build_refresh_token_claims app ctx)))

    unfoldable pub build_id_token : BuildContext → Option TokenDto
    unfolding append_user_type_and_ou build_id_token_claims
    build_id_token ctx =
        let config = resolve_token_config settings app id in
        issued
          (record {
            token = "";
            issued_at = pos 0;
            scopes = ctx.scopes;
            client_id = ctx.audience;
            user_attributes = [];
            subject = ctx.subject;
            audience = ctx.audience;
          })
          (jwt.generate_jwt ctx.subject ctx.audience config.issuer config.validity_period (
            append_user_type_and_ou ctx.user_type ctx.ou_id ctx.ou_name ctx.ou_handle
              (build_id_token_claims app ctx)))

  -- The implementation of the interface.
  abbrev pub new_token_builder : Settings → TokenBuilder
  new_token_builder settings = record {
    build_access_token = λ app ctx. build_access_token settings app ctx;
    build_refresh_token = λ app ctx. build_refresh_token settings app ctx;
    build_id_token = λ app ctx. build_id_token settings app ctx;
  }
