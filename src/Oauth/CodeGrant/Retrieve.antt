-- ===== src/Oauth/CodeGrant/Retrieve.antt =====
-- What it takes for a code to pass, and what the attempt does to it.
use thunder_fork.Prelude.{ℕ, String, ◌≡◌, ◌≤◌, ◌⊎◌, false, none, some, List, arith, eq_iff}
use thunder_fork.Prelude.Result.{Result, ok}
use thunder_fork.Oauth.{Platform, ErrorResponse}
use thunder_fork.Oauth.App.{OauthApp, requires_pkce}
use thunder_fork.Oauth.Pkce.{validate_pkce}
use thunder_fork.Oauth.Pkce.Laws.{validate_pkce-empty}
use thunder_fork.Oauth.Code.{AuthorizationCode, active, first_row, get_authorization_code_details}
use thunder_fork.Oauth.Code.Rows.{is_live, handed_out, stays_dead}
use thunder_fork.Oauth.CodeGrant.{
  TokenRequest, Call, validate_authorization_code, check_code, retrieve_and_validate_auth_code,
}

-- The conditions under which a code may be redeemed.
pub record IsRedeemable (platform : Platform) (request : TokenRequest) (app : OauthApp) (now : ℕ)
    (code : AuthorizationCode) : Type 0 where
  pub same_client : code.client_id ≡ request.client_id
  pub same_redirect : (code.redirect_uri ≡ "") ⊎ (code.redirect_uri ≡ request.redirect_uri)
  pub same_resource : (code.resource ≡ "") ⊎ (code.resource ≡ request.resource)
  pub is_active : code.state ≡ active
  pub in_time : now ≤ code.expiry_time
  pub proved :
      ((requires_pkce app ≡ false) × (code.code_challenge ≡ ""))
      ⊎ (validate_pkce platform code.code_challenge code.code_challenge_method request.code_verifier
          ≡ none)

module _ (platform : Platform) (request : TokenRequest) (app : OauthApp) (now : ℕ)
    (code : AuthorizationCode) where
  pub check_code-IsRedeemable :
      check_code platform request app now code ≡ none → IsRedeemable platform request app now code
  unfolding check_code validate_authorization_code
  check_code-IsRedeemable h = record {
    same_client = ground (arith, eq_iff request.client_id code.client_id);
    same_redirect =
        ground (arith, eq_iff code.redirect_uri "", eq_iff request.redirect_uri code.redirect_uri);
    same_resource = ground (arith, eq_iff code.resource "", eq_iff code.resource request.resource);
    is_active = ground arith;
    in_time = ground arith;
    proved = ground (arith, eq_iff code.code_challenge "");
  }

  pub IsRedeemable-check_code :
      IsRedeemable platform request app now code → check_code platform request app now code ≡ none
  unfolding check_code validate_authorization_code
  IsRedeemable-check_code r = ground (
    arith,
    eq_iff request.client_id code.client_id,
    eq_iff code.redirect_uri "",
    eq_iff request.redirect_uri code.redirect_uri,
    eq_iff code.resource "",
    eq_iff code.resource request.resource,
    eq_iff code.code_challenge "",
    validate_pkce-empty platform code.code_challenge code.code_challenge_method
        request.code_verifier,
  )

module _ (platform : Platform) (call : Call) (rows : List AuthorizationCode) where
  abbrev attempt : List AuthorizationCode × Result ErrorResponse AuthorizationCode
  attempt = retrieve_and_validate_auth_code platform call rows

  -- A code that passes is redeemable, and inactive from then on.
  pub retrieved :
      (row : AuthorizationCode)
      → attempt.1 ≡ ok row
      → (first_row call.request.client_id call.request.code rows ≡ some row)
        × IsRedeemable platform call.request call.app call.now row
        × (is_live (first_row call.request.client_id call.request.code attempt.0) ≡ false)
  unfolding retrieve_and_validate_auth_code
  retrieved row h =
      let found : (get_authorization_code_details call.get_fails call.update_fails
            call.request.client_id call.request.code rows).1
          ≡ ok row =
        ground arith in
      let checked : check_code platform call.request call.app call.now row ≡ none =
        ground (arith, found) in
      let (held, dead) =
        handed_out call.get_fails call.update_fails call.request.client_id call.request.code rows
          row found in
      (
        held,
        check_code-IsRedeemable platform call.request call.app call.now row checked,
        ground (arith, dead),
      )

  pub attempt-stays_dead :
      (client code : String)
      → is_live (first_row client code rows) ≡ false
      → is_live (first_row client code attempt.0) ≡ false
  unfolding retrieve_and_validate_auth_code
  attempt-stays_dead client code h =
      stays_dead call.get_fails call.update_fails call.request.client_id call.request.code rows
        client code h
