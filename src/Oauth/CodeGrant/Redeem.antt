-- ===== src/Oauth/CodeGrant/Redeem.antt =====
-- The redemption of codes, granthandlers/authorization_code.go.
use thunder_fork.Prelude.{
  ℕ, ◌+◌, ◌≤◌, String, ◌≡◌, Bool, true, false, ◌&&◌, some, List, [], ◌∷◌, ◌==◌, if◌then◌else◌,
  arith, refl, sym, eq_iff,
}
use thunder_fork.Prelude.Result.{Result, ok, err, is_ok, ok_of_is_ok}
use thunder_fork.Oauth.{Platform, ErrorResponse}
use thunder_fork.Oauth.Code.{AuthorizationCode, first_row}
use thunder_fork.Oauth.Code.Rows.{is_live}
use thunder_fork.Oauth.CodeGrant.{
  Call, UserService, TokenBuilder, TokenResponse, retrieve_and_validate_auth_code, handle_grant,
}
use thunder_fork.Oauth.CodeGrant.Retrieve.{IsRedeemable, retrieved, attempt-stays_dead}

module _ (users : UserService) (builder : TokenBuilder) (platform : Platform) where
  -- Tokens are issued only for a code that the table held for the client, that was active and not
  -- expired, whose redirect URI and resource (where it has them) are those of the request, and whose
  -- PKCE challenge the verifier answers, where there is one or the application requires it. After
  -- that the code is no longer active.
  pub redeemed :
      (call : Call) (rows : List AuthorizationCode) (response : TokenResponse)
      → (handle_grant users builder platform call rows).1 ≡ ok response
      → (row : AuthorizationCode) × (first_row call.request.client_id call.request.code rows
          ≡ some row)
        × IsRedeemable platform call.request call.app call.now row
        × (is_live (
              first_row call.request.client_id call.request.code
                (handle_grant users builder platform call rows).0)
            ≡ false)
  unfolding handle_grant
  redeemed call rows response h =
      by_result (retrieve_and_validate_auth_code platform call rows).1 refl
    where
      by_result :
          (r : Result ErrorResponse AuthorizationCode)
          → (retrieve_and_validate_auth_code platform call rows).1 ≡ r
          → (row : AuthorizationCode) × (first_row call.request.client_id call.request.code rows
              ≡ some row)
            × IsRedeemable platform call.request call.app call.now row
            × (is_live (
                  first_row call.request.client_id call.request.code
                    (handle_grant users builder platform call rows).0)
                ≡ false)
      by_result (err e) p = absurd (ground (arith, p, h))
      by_result (ok row) p =
          let (held, fit, dead) = retrieved platform call rows row p in (row, held, fit, dead)

  -- Whether a call with this result redeems the code of the client.
  abbrev redeems : String → String → Call → Result ErrorResponse TokenResponse → Bool
  redeems client code call result =
      call.request.client_id == client && call.request.code == code && is_ok result

  -- How many of the calls redeem the code of the client.
  unfoldable pub redemptions : String → String → List Call → List AuthorizationCode → ℕ
  redemptions client code [] rows = 0
  redemptions client code (call ∷ calls) rows =
      let (rows', result) = handle_grant users builder platform call rows in
      (if redeems client code call result then 1 else 0) + redemptions client code calls rows'

  module _ (client code : String) (call : Call) (rows : List AuthorizationCode) where
    abbrev result : Result ErrorResponse TokenResponse
    result = (handle_grant users builder platform call rows).1

    abbrev rows_after : List AuthorizationCode
    rows_after = (handle_grant users builder platform call rows).0

    grant-stays_dead :
        is_live (first_row client code rows) ≡ false
        → is_live (first_row client code rows_after) ≡ false
    unfolding handle_grant
    grant-stays_dead = attempt-stays_dead platform call rows client code

    -- A code that is redeemed was live, and is not from then on.
    redeems_live :
        redeems client code call result ≡ true
        → (is_live (first_row client code rows) ≡ true)
          × (is_live (first_row client code rows_after) ≡ false)
    redeems_live h =
        let same_client : call.request.client_id ≡ client =
          ground (arith, eq_iff call.request.client_id client) in
        let same_code : call.request.code ≡ code = ground (arith, eq_iff call.request.code code) in
        let (response, issued) = ok_of_is_ok result (ground arith) in
        let (row, held, fit, dead) = redeemed call rows response issued in
        let live : is_live (first_row call.request.client_id call.request.code rows) ≡ true =
          rw held (simp (fit.is_active)) in
        rw (sym same_client, sym same_code) (live, dead)

  dead-redemptions :
      (client code : String) (calls : List Call) (rows : List AuthorizationCode)
      → is_live (first_row client code rows) ≡ false
      → redemptions client code calls rows ≡ 0
  unfolding redemptions
  dead-redemptions client code [] rows dead = refl
  dead-redemptions client code (call ∷ calls) rows dead = ground (
    arith,
    dead-redemptions client code calls (rows_after client code call rows)
        (grant-stays_dead client code call rows dead),
    redeems_live client code call rows,
  )

  -- Whatever the calls of the handler, one after the other, and whatever the database lets fail:
  -- among them no more than one issues tokens for the same code of the same client.
  pub at_most_once :
      (client code : String) (calls : List Call) (rows : List AuthorizationCode)
      → redemptions client code calls rows ≤ 1
  unfolding redemptions
  at_most_once client code [] rows = omega arith
  at_most_once client code (call ∷ calls) rows = ground (
    arith,
    dead-redemptions client code calls (rows_after client code call rows),
    at_most_once client code calls (rows_after client code call rows),
    redeems_live client code call rows,
  )
