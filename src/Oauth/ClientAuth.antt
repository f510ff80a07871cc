-- ===== src/Oauth/ClientAuth.antt =====
-- The authentication of clients at the token endpoint, backend/internal/oauth/oauth2/clientauth.
--
-- The decoder of base64 and the look-up of an application are parameters, none where they return an
-- error or nothing. A decoded header is a text. Status codes and descriptions of the errors are left
-- out, and so is what the middleware writes.
pub mod Accept
pub mod Header
use Prim.Native.Char.{Char, code}
use thunder_fork.Prelude.{
  String, Bool, not, ◌&&◌, ◌||◌, Option, none, some, ◌==◌, eqb, if◌then◌else◌,
}
use thunder_fork.Prelude.Texts.{after}
use thunder_fork.Prelude.Result.{Result, ok, err}
use thunder_fork.Oauth.{Platform}
use thunder_fork.Oauth.App.{OauthApp, is_allowed_token_endpoint_auth_method, validate_credentials}

pub data AuthError : Type 0 where
  invalid_authorization_header invalid_client_credentials both_header_and_body : AuthError
  missing_client_id missing_client_secret unauthorized_auth_method : AuthError

-- What `authenticate` reads of a request: the Authorization header, and two values of the form. The
-- empty text is one that is missing.
pub record AuthRequest : Type 0 where
  pub authorization : String
  pub client_id : String
  pub client_secret : String

pub record OauthClientInfo : Type 0 where
  pub client_id : String
  pub client_secret : String
  pub oauth_app : OauthApp

abbrev pub client_secret_basic : String
client_secret_basic = "client_secret_basic"

abbrev pub client_secret_post : String
client_secret_post = "client_secret_post"

abbrev pub no_method : String
no_method = "none"

abbrev before_colon : Char → Option (String × String) → Option (String × String)
before_colon c none = none
before_colon c (some (id, secret)) = some (String.◌∷◌ c id, secret)

-- `strings.SplitN(s, ":", 2)`, none where it has one part.
unfoldable pub split_at_colon : String → Option (String × String)
split_at_colon String.[] = none
split_at_colon (String.◌∷◌ c s) =
    if eqb (code c) 58 then some ("", s) else before_colon c (split_at_colon s)

abbrev parts_of : Option String → Result AuthError (String × String)
parts_of none = err invalid_authorization_header
parts_of (some decoded) = elim (split_at_colon decoded) [
  | none ↦ err invalid_authorization_header
  | some parts ↦ ok parts
]

-- The credentials as `authenticate` has chosen them; the method is the empty text where none is.
pub record Credentials : Type 0 where
  pub client_id : String
  pub client_secret : String
  pub method : String

unfoldable pub choose_credentials : String → String → AuthRequest → Credentials
choose_credentials id secret request = record {
  client_id = if request.client_id == "" then id else request.client_id;
  client_secret =
      if not (request.client_id == "") && not (request.client_secret == "")
      then request.client_secret
      else secret;
  method =
      if not (request.client_id == "")
      then (if not (request.client_secret == "") then client_secret_post else no_method)
      else if not (id == "") && not (secret == "")
      then client_secret_basic
      else "";
}

module _ (decode : String → Option String) where
  unfoldable pub extract_basic_auth_credentials : String → Result AuthError (String × String)
  unfolding after
  extract_basic_auth_credentials header = elim (after "Basic " header) [
    | none ↦ err invalid_authorization_header
    | some encoded ↦ parts_of (decode encoded)
  ]

  -- The credentials of the header, empty where there is no header.
  unfoldable pub header_credentials : String → Result AuthError (String × String)
  header_credentials header =
      if header == "" then ok ("", "") else extract_basic_auth_credentials header

module _ (platform : Platform) (apps : String → Option OauthApp) where
  unfoldable pub check_app : Credentials → OauthApp → Result AuthError OauthClientInfo
  unfolding is_allowed_token_endpoint_auth_method validate_credentials
  check_app given app =
      if not (is_allowed_token_endpoint_auth_method app given.method)
      then if given.method == no_method
        then err missing_client_secret
        else err unauthorized_auth_method
      else if not (given.method == no_method)
          && not (validate_credentials platform app given.client_id given.client_secret)
      then err invalid_client_credentials
      else ok (record {
        client_id = given.client_id;
        client_secret = given.client_secret;
        oauth_app = app;
      })

  unfoldable pub check_credentials : Credentials → Result AuthError OauthClientInfo
  unfolding check_app
  check_credentials given =
      if given.client_id == ""
      then err missing_client_id
      else if given.client_secret == "" && not (given.method == no_method)
      then err missing_client_secret
      else elim (apps given.client_id) [
        | none ↦ err invalid_client_credentials
        | some app ↦ check_app given app
      ]

  unfoldable pub authenticate :
      (String → Option String) → AuthRequest → Result AuthError OauthClientInfo
  unfolding header_credentials choose_credentials check_credentials
  authenticate decode request = elim (header_credentials decode request.authorization) [
    | err e ↦ err e
    | ok (id, secret) ↦
        if (not (id == "") || not (secret == ""))
          && (not (request.client_id == "") || not (request.client_secret == ""))
        then err both_header_and_body
        else check_credentials (choose_credentials id secret request)
  ]
