-- ===== src/Oauth/ClientAuth/Header.antt =====
-- The Authorization header of a client and what is read out of it, `extractBasicAuthCredentials` of
-- clientauth/clientauth.go.
use Prim.Native.Char.{code}
use Prim.Native.String.{◌++◌}
use Prim.Native.String.compare
use text.Mathlib.Text.{is_eq}
use text.Mathlib.TextLemmas.{nil-append, cons-append}
use thunder_fork.Prelude.{
  String, ◌≡◌, false, Option, some, ◌==◌, arith, eqb, refl, ap, inr, sym, subst,
}
use thunder_fork.Prelude.Texts.{after}
use thunder_fork.Prelude.Result.{ok}
use thunder_fork.Oauth.{Platform}
use thunder_fork.Oauth.App.{OauthApp}
use thunder_fork.Oauth.ClientAuth.{
  client_secret_basic, split_at_colon, extract_basic_auth_credentials, header_credentials,
  authenticate,
}
use thunder_fork.Oauth.ClientAuth.Accept.{authenticate_iff}

-- No character of a text is a colon.
abbrev pub HasNoColon : String → Type 0
HasNoColon String.[] = Unit {0}
HasNoColon (String.◌∷◌ c s) = (eqb (code c) 58 ≡ false) × HasNoColon s

after-append : (literal s : String) → after literal (literal ++ s) ≡ some s
unfolding after
after-append String.[] s = simp nil-append
after-append (String.◌∷◌ c literal) s =
    ground (arith, cons-append c literal s, after-append literal s)

split_at_colon-append :
    (id secret : String)
    → HasNoColon id
    → split_at_colon (id ++ String.◌∷◌ ":" secret) ≡ some (id, secret)
unfolding split_at_colon
split_at_colon-append String.[] secret h = simp nil-append
split_at_colon-append (String.◌∷◌ c id) secret (h, hs) =
    simp (cons-append, h, split_at_colon-append id secret hs)

-- A header of the Basic scheme is not the empty text.
basic-ne-empty : (s : String) → (("Basic " ++ s) == "") ≡ false
basic-ne-empty s =
    subst (λ t. (t == "") ≡ false) (sym (cons-append "B" "asic " s))
      (ap is_eq (compare.cons-nil "B" ("asic " ++ s)))

module _ (decode : String → Option String) (encode : String → String)
    (encoded : (s : String) → decode (encode s) ≡ some s) where
  -- The header of the Basic scheme.
  abbrev pub basic_header : String → String → String
  basic_header id secret = "Basic " ++ encode (id ++ String.◌∷◌ ":" secret)

  header_credentials-basic_header :
      (id secret : String)
      → HasNoColon id
      → header_credentials decode (basic_header id secret) ≡ ok (id, secret)
  unfolding header_credentials extract_basic_auth_credentials
  header_credentials-basic_header id secret h = ground (
    arith,
    basic-ne-empty (encode (id ++ String.◌∷◌ ":" secret)),
    after-append "Basic " (encode (id ++ String.◌∷◌ ":" secret)),
    encoded (id ++ String.◌∷◌ ":" secret),
    split_at_colon-append id secret h,
  )

  -- If decoding undoes the encoding: a client whose application has the method
  -- `client_secret_basic`, that sends its identifier, with no colon, and its secret, which is not
  -- empty, encoded in a header of the Basic scheme and neither of them in the form, is
  -- authenticated as itself.
  pub basic_header_accepted :
      (platform : Platform) (apps : String → Option OauthApp) (app : OauthApp) (secret : String)
      → HasNoColon app.client_id
      → (app.client_id == "") ≡ false
      → (secret == "") ≡ false
      → apps app.client_id ≡ some app
      → app.token_endpoint_auth_method ≡ client_secret_basic
      → platform.thumbprint secret ≡ app.hashed_client_secret
      → authenticate platform apps decode (record {
        authorization = basic_header app.client_id secret;
        client_id = "";
        client_secret = "";
      })
        ≡ ok (record { client_id = app.client_id; client_secret = secret; oauth_app = app })
  basic_header_accepted platform apps app secret colon n s found m t =
      (authenticate_iff platform apps decode
          (record {
            authorization = basic_header app.client_id secret;
            client_id = "";
            client_secret = "";
          })
          (record { client_id = app.client_id; client_secret = secret; oauth_app = app })).1
        (
          n,
          found,
          inr (
              inr (
                m,
                header_credentials-basic_header app.client_id secret colon,
                refl,
                refl,
                (s, refl, t),
              )),
        )
