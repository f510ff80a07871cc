-- ===== src/Oauth/App.antt =====
-- The OAuth configuration of an application, backend/internal/application/model/oauth_app.go.
use thunder_fork.Prelude.{
  ℕ, refl, String, ◌≡◌, ◌⊎◌, Bool, true, false, not, ◌||◌, Option, none, some, List, [], ◌∷◌, ◌==◌,
  contains, if◌then◌else◌, arith, eq_iff, length,
}
use thunder_fork.Prelude.Assoc.{Assoc}
use thunder_fork.Oauth.{Url, Platform}

pub record AccessTokenConfig : Type 0 where
  pub validity_period : ℕ
  pub user_attributes : List String

-- `scope_claims` is none where the code has a nil map.
pub record IdTokenConfig : Type 0 where
  pub validity_period : ℕ
  pub user_attributes : List String
  pub scope_claims : Option (Assoc (List String))

pub record OauthTokenConfig : Type 0 where
  pub issuer : String
  pub access_token : Option AccessTokenConfig
  pub id_token : Option IdTokenConfig

-- `OAuthAppConfigProcessedDTO`, less the scopes, which no method reads.
pub record OauthApp : Type 0 where
  pub app_id : String
  pub client_id : String
  pub hashed_client_secret : String
  pub redirect_uris : List String
  pub grant_types : List String
  pub response_types : List String
  pub token_endpoint_auth_method : String
  pub pkce_required : Bool
  pub public_client : Bool
  pub token : Option OauthTokenConfig

pub data RedirectError : Type 0 where
  uri_required not_fully_qualified not_registered not_parsed has_fragment : RedirectError

unfoldable pub is_allowed_grant_type : OauthApp → String → Bool
is_allowed_grant_type app grant_type =
    if grant_type == "" then false else contains grant_type app.grant_types

unfoldable pub is_allowed_response_type : OauthApp → String → Bool
is_allowed_response_type app response_type =
    if response_type == "" then false else contains response_type app.response_types

unfoldable pub is_allowed_token_endpoint_auth_method : OauthApp → String → Bool
is_allowed_token_endpoint_auth_method app method = app.token_endpoint_auth_method == method

unfoldable pub requires_pkce : OauthApp → Bool
requires_pkce app = app.pkce_required || app.public_client

-- The attributes that an access token may carry: the empty list where nothing is configured.
unfoldable pub access_token_attributes : OauthApp → List String
access_token_attributes app = elim app.token [
  | none ↦ []
  | some token ↦ elim token.access_token [ none ↦ [] | some config ↦ config.user_attributes ]
]

unfoldable pub id_token_attributes : OauthApp → List String
id_token_attributes app = elim app.token [
  | none ↦ []
  | some token ↦ elim token.id_token [ none ↦ [] | some config ↦ config.user_attributes ]
]

module _ (platform : Platform) where
  -- `parsed.Scheme == "" || parsed.Host == ""`, or an error
  abbrev pub lacks_scheme_or_host : Option Url → Bool
  lacks_scheme_or_host none = true
  lacks_scheme_or_host (some url) = url.scheme == "" || url.host == ""

  -- Where no URI is given: exactly one is registered, and it is a full one.
  unfoldable pub validate_sole_uri : List String → Option RedirectError
  validate_sole_uri (uri ∷ []) =
      if lacks_scheme_or_host (platform.parse_url uri) then some not_fully_qualified else none
  validate_sole_uri _ = some uri_required

  unfoldable pub validate_redirect_uri : OauthApp → String → Option RedirectError
  validate_redirect_uri app redirect_uri =
      if redirect_uri == ""
      then validate_sole_uri app.redirect_uris
      else if not (contains redirect_uri app.redirect_uris)
      then some not_registered
      else elim (platform.parse_url redirect_uri) [
        | none ↦ some not_parsed
        | some url ↦ if not (url.fragment == "") then some has_fragment else none
      ]

  unfoldable pub validate_credentials : OauthApp → String → String → Bool
  validate_credentials app client_id client_secret =
      if not (client_id == app.client_id)
      then false
      else platform.thumbprint client_secret == app.hashed_client_secret

  -- An accepted redirect URI is registered, letter by letter; one that is left out stands for the
  -- only URI that is registered.
  pub registered_redirect_uri :
      (app : OauthApp) (uri : String)
      → validate_redirect_uri app uri ≡ none
      → ((uri ≡ "") × (length app.redirect_uris ≡ 1)) ⊎ (contains uri app.redirect_uris ≡ true)
  unfolding validate_redirect_uri validate_sole_uri
  registered_redirect_uri app uri h = ground (arith, eq_iff uri "", sole app.redirect_uris)
    where
      sole : (uris : List String) → validate_sole_uri uris ≡ none → length uris ≡ 1
      sole [] h = cc
      sole (u ∷ []) h = refl
      sole (u ∷ v ∷ uris) h = cc
