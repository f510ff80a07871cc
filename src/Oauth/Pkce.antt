-- ===== src/Oauth/Pkce.antt =====
-- PKCE, backend/internal/oauth/oauth2/pkce/pkce.go. An `error` is an `Option`, none for nil. The
-- loops over the runes of a text recur on the text; `len` counts its bytes.
pub mod Laws
use Prim.Native.Char.{code}
use Prim.Native.String.{len}
use thunder_fork.Prelude.{
  ℕ, String, Bool, true, false, not, ◌&&◌, ◌||◌, Option, none, some, List, [], ◌∷◌, ◌==◌, ltb, leb,
  eqb, if◌then◌else◌,
}
use thunder_fork.Oauth.{Platform}

pub data PkceError : Type 0 where
  invalid_code_verifier invalid_code_challenge invalid_challenge_method validation_failed :
      PkceError

pub data Challenge : Type 0 where
  ok : String → Challenge
  err : PkceError → Challenge

abbrev pub plain : String
plain = "plain"

abbrev pub s256_method : String
s256_method = "S256"

unfoldable pub is_valid_ascii_unreserved : ℕ → Bool
is_valid_ascii_unreserved c =
    leb b'A' c && leb c b'Z'
    || leb b'a' c && leb c b'z'
    || leb b'0' c && leb c b'9'
    || eqb c b'-'
    || eqb c b'_'
    || eqb c b'.'
    || eqb c b'~'

unfoldable pub is_valid_base64_url_char : ℕ → Bool
is_valid_base64_url_char c =
    leb b'A' c && leb c b'Z'
    || leb b'a' c && leb c b'z'
    || leb b'0' c && leb c b'9'
    || eqb c b'-'
    || eqb c b'_'

-- Whether a loop over the runes finds none that the test refuses.
unfoldable pub all_runes : (ℕ → Bool) → String → Bool
all_runes p String.[] = true
all_runes p (String.◌∷◌ c s) = p (code c) && all_runes p s

unfoldable pub validate_code_verifier : String → Option PkceError
validate_code_verifier code_verifier =
    if code_verifier == ""
    then some invalid_code_verifier
    else if ltb (len code_verifier) 43 || ltb 128 (len code_verifier)
    then some invalid_code_verifier
    else if all_runes is_valid_ascii_unreserved code_verifier
    then none
    else some invalid_code_verifier

unfoldable pub validate_pkce_parameters : String → String → String → Option PkceError
validate_pkce_parameters code_challenge method code_verifier =
    elim (validate_code_verifier code_verifier) [
      | some e ↦ some e
      | none ↦
          if code_challenge == ""
          then some invalid_code_challenge
          else if not (method == plain) && not (method == s256_method)
          then some invalid_challenge_method
          else none
    ]

unfoldable pub validate_plain_challenge : String → String → Option PkceError
validate_plain_challenge code_challenge code_verifier =
    if not (code_challenge == code_verifier) then some validation_failed else none

-- An empty method is the plain one.
unfoldable pub default_method : String → String
default_method method = if method == "" then plain else method

unfoldable pub validate_code_challenge : String → String → Option PkceError
validate_code_challenge code_challenge method =
    if default_method method == plain
    then (if ltb (len code_challenge) 43 || ltb 128 (len code_challenge)
        then some invalid_code_challenge
        else if all_runes is_valid_ascii_unreserved code_challenge
        then none
        else some invalid_code_challenge)
    else if default_method method == s256_method
    then (if not (eqb (len code_challenge) 43)
        then some invalid_code_challenge
        else if all_runes is_valid_base64_url_char code_challenge
        then none
        else some invalid_code_challenge)
    else some invalid_code_challenge

module _ (platform : Platform) where
  unfoldable pub validate_s256_challenge : String → String → Option PkceError
  validate_s256_challenge code_challenge code_verifier =
      if not (code_challenge == platform.s256 code_verifier) then some validation_failed else none

  unfoldable pub validate_pkce : String → String → String → Option PkceError
  unfolding validate_pkce_parameters validate_plain_challenge validate_s256_challenge
  validate_pkce code_challenge code_challenge_method code_verifier =
      let method = default_method code_challenge_method in
      elim (validate_pkce_parameters code_challenge method code_verifier) [
        | some e ↦ some e
        | none ↦
            if method == plain
            then validate_plain_challenge code_challenge code_verifier
            else if method == s256_method
            then validate_s256_challenge code_challenge code_verifier
            else some invalid_challenge_method
      ]

  unfoldable pub generate_code_challenge : String → String → Challenge
  generate_code_challenge code_verifier method = elim (validate_code_verifier code_verifier) [
    | some e ↦ err e
    | none ↦
        if not (method == plain) && not (method == s256_method)
        then err invalid_challenge_method
        else if method == plain
        then ok code_verifier
        else if method == s256_method
        then ok (platform.s256 code_verifier)
        else err invalid_challenge_method
  ]
