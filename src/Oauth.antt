-- ===== src/Oauth.antt =====
-- OAuth 2.0 of backend/internal/oauth/oauth2 and the OAuth part of an application
-- (backend/internal/application/model/oauth_app.go).
--
-- The Go packages that parse URLs and hash are parameters, collected in `Platform`: each theorem
-- holds whatever they return, and where it needs what they document, that is a hypothesis.
pub mod Pkce
pub mod App
pub mod Authz
pub mod Code
pub mod Scopes
pub mod Tokens
pub mod CodeGrant
pub mod RefreshGrant
pub mod ClientAuth
pub mod Exchange
pub mod ExchangeExamples
pub mod Examples
pub mod TokenExamples
pub mod ClientExamples
use thunder_fork.Prelude.Assoc.{Assoc}
use thunder_fork.Prelude.{ℕ, List, String, Bool, true, false, Option}

-- What the code reads of a `url.URL`.
pub record Url : Type 0 where
  pub scheme : String
  pub host : String
  pub fragment : String

pub record Platform : Type 0 where
  -- `url.Parse`; none where it returns an error
  pub parse_url : String → Option Url
  -- the SHA-256 of the bytes of a text, in base64url without padding
  pub s256 : String → String
  -- `hash.GenerateThumbprintFromString`
  pub thumbprint : String → String

-- The error constants of constants.go; `no_error` is the empty text.
pub data ErrorCode : Type 0 where
  no_error invalid_request invalid_client invalid_grant unauthorized_client : ErrorCode
  unsupported_grant_type invalid_scope invalid_target server_error : ErrorCode
  unsupported_response_type access_denied : ErrorCode

-- `code == ""`
abbrev pub is_no_error : ErrorCode → Bool
is_no_error no_error = true
is_no_error _ = false

-- `model.ErrorResponse`; no response of the grants sets the URI.
pub record ErrorResponse : Type 0 where
  pub error : ErrorCode
  pub error_description : String

abbrev pub authorization_code : String
authorization_code = "authorization_code"

abbrev pub refresh_token : String
refresh_token = "refresh_token"

-- A value in a JSON object that the code reads or writes, objects apart. `number` is a natural number as
-- the integer or the float64 that holds it exactly, which the code reads alike; `float` is any other
-- float64, by its 64 bits.
pub data Value : Type 0 where
  text : String → Value
  number float : ℕ → Value
  texts : List String → Value

-- A claim of a token.
pub data Claim : Type 0 where
  value : Value → Claim
  object : Assoc Value → Claim
