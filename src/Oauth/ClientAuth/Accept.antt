-- ===== src/Oauth/ClientAuth/Accept.antt =====
-- Which clients are authenticated, clientauth/clientauth.go.
use thunder_fork.Prelude.{
  String, ◌≡◌, ◌⊎◌, ◌↔◌, refl, false, Option, some, ◌==◌, arith, eq_iff, inl, inr, Option-cases,
}
use thunder_fork.Prelude.Result.{Result, ok, err}
use thunder_fork.Oauth.{Platform}
use thunder_fork.Oauth.App.{OauthApp, is_allowed_token_endpoint_auth_method, validate_credentials}
use thunder_fork.Oauth.ClientAuth.{
  AuthError, AuthRequest, OauthClientInfo, Credentials, client_secret_basic, client_secret_post,
  no_method, choose_credentials, header_credentials, check_app, check_credentials, authenticate,
}

module _ (platform : Platform) (apps : String → Option OauthApp) where
  -- The credentials fit the application: its method is theirs, and but for the method `none` its
  -- secret is, too.
  abbrev pub Fits : Credentials → OauthApp → Type 0
  Fits given app =
      (app.token_endpoint_auth_method ≡ given.method)
      × ((given.method ≡ no_method)
          ⊎ ((given.client_id ≡ app.client_id)
              × (platform.thumbprint given.client_secret ≡ app.hashed_client_secret)))

  check_app_iff :
      (given : Credentials) (app : OauthApp) (info : OauthClientInfo)
      → (check_app platform apps given app ≡ ok info) ↔ (
          Fits given app
          × (info ≡ record {
            client_id = given.client_id;
            client_secret = given.client_secret;
            oauth_app = app;
          }))
  unfolding check_app is_allowed_token_endpoint_auth_method validate_credentials
  check_app_iff given app info = (
    λ h. ground (
      arith,
      eq_iff app.token_endpoint_auth_method given.method,
      eq_iff given.method no_method,
      eq_iff given.client_id app.client_id,
      eq_iff (platform.thumbprint given.client_secret) app.hashed_client_secret,
    ),
    λ h. ground (
      arith,
      eq_iff app.token_endpoint_auth_method given.method,
      eq_iff given.method no_method,
      eq_iff given.client_id app.client_id,
      eq_iff (platform.thumbprint given.client_secret) app.hashed_client_secret,
    ),
  )

  check_credentials_iff :
      (given : Credentials) (info : OauthClientInfo)
      → (check_credentials platform apps given ≡ ok info) ↔ (
          ((given.client_id == "") ≡ false)
          × (((given.client_secret == "") ≡ false) ⊎ (given.method ≡ no_method))
          × (apps given.client_id ≡ some info.oauth_app)
          × Fits given info.oauth_app
          × (info.client_id ≡ given.client_id)
          × (info.client_secret ≡ given.client_secret))
  unfolding check_credentials
  check_credentials_iff given info = (
    λ h. elim (Option-cases (apps given.client_id)) [
      | inl n ↦ ground (arith)
      | inr (app, e) ↦
          ground (arith, (check_app_iff given app info).0, eq_iff given.method no_method)
    ],
    λ h. ground (arith, (check_app_iff given info.oauth_app info).1, eq_iff given.method no_method),
  )

  -- A secret that is the application's.
  abbrev pub HasSecret : OauthClientInfo → Type 0
  HasSecret info =
      ((info.client_secret == "") ≡ false)
      × (info.client_id ≡ info.oauth_app.client_id)
      × (platform.thumbprint info.client_secret ≡ info.oauth_app.hashed_client_secret)

  -- The ways in which a client may present itself, by the method of its application.
  abbrev pub IsPresented : (String → Option String) → AuthRequest → OauthClientInfo → Type 0
  IsPresented decode request info =
      ((info.oauth_app.token_endpoint_auth_method ≡ no_method)
        × (header_credentials decode request.authorization ≡ ok ("", ""))
        × (request.client_id ≡ info.client_id)
        × (request.client_secret ≡ "")
        × (info.client_secret ≡ ""))
      ⊎ ((info.oauth_app.token_endpoint_auth_method ≡ client_secret_post)
          × (header_credentials decode request.authorization ≡ ok ("", ""))
          × (request.client_id ≡ info.client_id)
          × (request.client_secret ≡ info.client_secret)
          × HasSecret info)
      ⊎ ((info.oauth_app.token_endpoint_auth_method ≡ client_secret_basic)
          × (header_credentials decode request.authorization
              ≡ ok (info.client_id, info.client_secret))
          × (request.client_id ≡ "")
          × (request.client_secret ≡ "")
          × HasSecret info)

  -- A client is authenticated exactly if its identifier is not empty and names an application, and
  -- it presents itself as the method of that application calls for: without any secret under `none`;
  -- and otherwise with the identifier of the application and a secret that is not empty and has the
  -- thumbprint of the application, in the form alone or in the header alone. A header that holds
  -- no more than a colon counts as none.
  pub authenticate_iff :
      (decode : String → Option String) (request : AuthRequest) (info : OauthClientInfo)
      → (authenticate platform apps decode request ≡ ok info) ↔ (
          ((info.client_id == "") ≡ false)
          × (apps info.client_id ≡ some info.oauth_app)
          × IsPresented decode request info)
  unfolding authenticate choose_credentials
  authenticate_iff decode request info = (
    λ h. forth (header_credentials decode request.authorization) refl h,
    λ h. ground (
      arith,
      (check_credentials_iff (choose_credentials "" "" request) info).1,
      (check_credentials_iff (choose_credentials info.client_id info.client_secret request) info).1,
      eq_iff request.client_id "",
      eq_iff request.client_secret "",
      eq_iff info.client_id "",
      eq_iff info.client_secret "",
    ),
  )
    where
      forth :
          (r : Result AuthError (String × String))
          → header_credentials decode request.authorization ≡ r
          → authenticate platform apps decode request ≡ ok info
          → ((info.client_id == "") ≡ false)
            × (apps info.client_id ≡ some info.oauth_app)
            × IsPresented decode request info
      forth (err e) q h = ground arith
      forth (ok (id, secret)) q h = ground (
        arith,
        (check_credentials_iff (choose_credentials id secret request) info).0,
        eq_iff id "",
        eq_iff secret "",
        eq_iff request.client_id "",
        eq_iff request.client_secret "",
        eq_iff client_secret_basic no_method,
        eq_iff client_secret_post no_method,
        eq_iff "" no_method,
      )
