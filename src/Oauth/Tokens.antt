-- ===== src/Oauth/Tokens.antt =====
-- Building and reading tokens, backend/internal/oauth/oauth2/tokenservice.
--
-- A token is made and read by the JWT service, an interface; none is its error. The claims of a token
-- are a map. `act`, which only token exchange sets, and what a DTO says but no grant reads (`TokenType`,
-- `ExpiresIn`, the fields on the unit of the user) are left out.
pub mod Service
pub mod Claims
pub mod Attributes
pub mod Refreshed
pub mod Signed
use thunder_fork.Prelude.{
  ℕ, String, Bool, true, false, not, ◌&&◌, ◌||◌, Option, none, some, List, [], ◌∷◌, ◌==◌, ltb, eqb,
  contains, is_empty, is_some, if◌then◌else◌,
}
use thunder_fork.Prelude.Int.{ℤ, pos}
use thunder_fork.Prelude.Assoc.{Assoc, lookup, insert}
use thunder_fork.Oauth.{Value, text, number, texts, Claim, value, object}
use thunder_fork.Oauth.App.{OauthApp, access_token_attributes, id_token_attributes}
use thunder_fork.Oauth.Scopes.{parse_scopes, join_scopes}

pub data TokenType : Type 0 where
  access refresh id : TokenType

-- The settings of the server: `conf.JWT` and `conf.OAuth.RefreshToken`.
pub record Settings : Type 0 where
  pub issuer : String
  pub validity_period : ℕ
  pub refresh_validity_period : ℕ
  pub renew_on_grant : Bool

-- `TokenConfig`
pub record TokenConfig : Type 0 where
  pub issuer : String
  pub validity_period : ℕ

pub record TokenDto : Type 0 where
  pub token : String
  pub issued_at : ℤ
  pub scopes : List String
  pub client_id : String
  pub user_attributes : Assoc Value
  pub subject : String
  pub audience : String

-- The zero value.
abbrev pub no_token : TokenDto
no_token = record {
  token = "";
  issued_at = pos 0;
  scopes = [];
  client_id = "";
  user_attributes = [];
  subject = "";
  audience = "";
}

-- `AccessTokenBuildContext` and `IDTokenBuildContext`, whose `auth_time` the first has not.
pub record BuildContext : Type 0 where
  pub subject : String
  pub audience : String
  pub client_id : String
  pub scopes : List String
  pub user_attributes : Assoc Value
  pub user_groups : List String
  pub grant_type : String
  pub user_type : String
  pub ou_id : String
  pub ou_name : String
  pub ou_handle : String
  pub auth_time : ℕ

pub record RefreshContext : Type 0 where
  pub client_id : String
  pub scopes : List String
  pub grant_type : String
  pub access_token_subject : String
  pub access_token_audience : String
  pub access_token_user_attributes : Assoc Value
  pub user_type : String
  pub ou_id : String
  pub ou_name : String
  pub ou_handle : String

-- `TokenBuilderInterface`
pub record TokenBuilder : Type 0 where
  pub build_access_token : OauthApp → BuildContext → Option TokenDto
  pub build_refresh_token : OauthApp → RefreshContext → Option TokenDto
  pub build_id_token : OauthApp → BuildContext → Option TokenDto

-- `jwt.JWTServiceInterface`: a token for a subject, an audience, an issuer, a period and claims, with
-- the instant of its issue; its check; its payload.
pub record JwtService : Type 0 where
  pub generate_jwt : String → String → String → ℕ → Assoc Claim → Option (String × ℕ)
  pub verify_jwt : String → Bool
  pub decode_payload : String → Option (Assoc Claim)

unfoldable pub resolve_token_config : Settings → OauthApp → TokenType → TokenConfig
resolve_token_config settings app token_type = record {
  issuer = elim app.token [
    | none ↦ settings.issuer
    | some token ↦ if not (token.issuer == "") then token.issuer else settings.issuer
  ];
  validity_period = elim token_type [
    | access ↦ elim app.token [
      | none ↦ settings.validity_period
      | some token ↦ elim token.access_token [
        | none ↦ settings.validity_period
        | some config ↦
            if ltb 0 config.validity_period
            then config.validity_period
            else settings.validity_period
      ]
    ]
    | id ↦ elim app.token [
      | none ↦ settings.validity_period
      | some token ↦ elim token.id_token [
        | none ↦ settings.validity_period
        | some config ↦
            if ltb 0 config.validity_period
            then config.validity_period
            else settings.validity_period
      ]
    ]
    | refresh ↦
        if ltb 0 settings.refresh_validity_period
        then settings.refresh_validity_period
        else settings.validity_period
  ];
}

-- A write of a text to a map of claims, unless the text is empty.
abbrev pub set_text : String → String → Assoc Claim → Assoc Claim
set_text key s claims = if s == "" then claims else insert key (value (text s)) claims

-- `claims["scope"] = JoinScopes(scopes)`, unless there is none.
unfoldable pub set_scope : List String → Assoc Claim → Assoc Claim
set_scope scopes claims =
    if is_empty scopes then claims else insert "scope" (value (text (join_scopes scopes))) claims

-- The writes of a map, one after the other.
unfoldable pub set_all : Assoc Value → Assoc Claim → Assoc Claim
set_all [] claims = claims
set_all ((key, v) ∷ attrs) claims = set_all attrs (insert key (value v) claims)

-- The same for a map of claims.
unfoldable pub write_all : Assoc Claim → Assoc Claim → Assoc Claim
write_all [] claims = claims
write_all ((key, c) ∷ source) claims = write_all source (insert key c claims)

unfoldable pub append_user_type_and_ou :
    String → String → String → String → Assoc Claim → Assoc Claim
append_user_type_and_ou user_type ou_id ou_name ou_handle claims =
    set_text "ouHandle" ou_handle
      (set_text "ouName" ou_name (set_text "ouId" ou_id (set_text "userType" user_type claims)))

unfoldable pub build_access_token_claims : BuildContext → Assoc Value → Assoc Claim
unfolding set_scope set_all
build_access_token_claims ctx attrs = set_all attrs (
    set_text "grant_type" ctx.grant_type
      (set_text "client_id" ctx.client_id (set_scope ctx.scopes [])))

-- The attributes of a list that the map has.
unfoldable pub select : List String → Assoc Value → Assoc Value → Assoc Value
select [] attrs kept = kept
select (name ∷ names) attrs kept = elim (lookup name attrs) [
  | none ↦ select names attrs kept
  | some v ↦ select names attrs (insert name v kept)
]

unfoldable pub build_access_token_user_attributes :
    Assoc Value → List String → OauthApp → Assoc Value
build_access_token_user_attributes attrs groups app =
    let names = access_token_attributes app in
    let kept = if is_empty names then attrs else select names attrs [] in
    if not (is_empty groups) && contains "groups" names
    then insert "groups" (texts groups) kept
    else kept

unfoldable pub build_refresh_token_claims : OauthApp → RefreshContext → Assoc Claim
unfolding set_scope access_token_attributes
build_refresh_token_claims app ctx =
    let claims = insert "grant_type" (value (text ctx.grant_type)) (
      insert "access_token_aud" (value (text ctx.access_token_audience)) (
        insert "access_token_sub" (value (text ctx.access_token_subject))
          (set_scope ctx.scopes []))) in
    if not (is_empty (access_token_attributes app))
      && not (is_empty ctx.access_token_user_attributes)
    then insert "access_token_user_attributes" (object ctx.access_token_user_attributes) claims
    else claims

-- The claims of the JWT service itself: the instants and the id are those of the call. What follows
-- is written over them.
unfoldable pub jwt_payload : String → String → String → ℕ → ℕ → String → Assoc Claim → Assoc Claim
jwt_payload sub aud iss exp iat jti claims = write_all claims (
    ("sub", value (text sub))
    ∷ ("iss", value (text iss))
    ∷ ("aud", value (text aud))
    ∷ ("exp", value (number exp))
    ∷ ("iat", value (number iat))
    ∷ ("nbf", value (number iat))
    ∷ ("jti", value (text jti))
    ∷ [])
