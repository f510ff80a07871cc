-- ===== src/Oauth/CodeGrant/Race.antt =====
-- Two requests at the same time: `GetAuthorizationCodeDetails` reads the row of a code and makes it
-- inactive in two statements of the database, with no transaction around them, so that the statements
-- of two requests may come in any order.
use thunder_fork.Prelude.{◌≡◌, false, none, some, List, ◌==◌, if◌then◌else◌, arith, refl}
use thunder_fork.Prelude.Result.{Result, ok, err}
use thunder_fork.Oauth.{Platform, ErrorResponse, invalid_grant}
use thunder_fork.Oauth.Code.{
  AuthorizationCode, get_authorization_code, deactivate_authorization_code,
  get_authorization_code_details,
}
use thunder_fork.Oauth.CodeGrant.{Call, respond, check_code, retrieve_and_validate_auth_code}
use thunder_fork.Oauth.CodeGrant.Retrieve.{IsRedeemable, IsRedeemable-check_code}

-- How far a request is: not begun, with the row that it has read, or at its end.
pub data Phase : Type 0 where
  waiting : Phase
  holding : AuthorizationCode → Phase
  finished : Result ErrorResponse AuthorizationCode → Phase

-- The table, and two requests.
pub record Race : Type 0 where
  pub rows : List AuthorizationCode
  pub first : Phase
  pub second : Phase

abbrev refused : Phase
refused = finished (err (respond invalid_grant "Invalid authorization code"))

-- The first statement: the query for the code.
unfoldable pub read_code : Call → List AuthorizationCode → Phase
read_code call rows =
    elim (get_authorization_code call.get_fails call.request.client_id call.request.code rows) [
      | err e ↦ refused
      | ok row ↦ if row.code == "" then refused else holding row
    ]

-- The second: the update, and after it the checks.
unfoldable pub spend_code :
    Platform → Call → AuthorizationCode → List AuthorizationCode → List AuthorizationCode × Phase
unfolding deactivate_authorization_code
spend_code platform call row rows =
    let (rows', done) = deactivate_authorization_code call.update_fails row rows in
    (
      rows',
      elim done [
        | some e ↦ refused
        | none ↦ elim (check_code platform call.request call.app call.now row) [
          | some e ↦ finished (err e)
          | none ↦ finished (ok row)
        ]
      ],
    )

module _ (platform : Platform) (a b : Call) where
  -- One statement of one of the two.
  pub data Step : Race → Race → Type 0 where
    read_first : (s : Race) → s.first ≡ waiting → Step s (record s { first = read_code a s.rows })
    spend_first :
        (s : Race) (row : AuthorizationCode)
        → s.first ≡ holding row
        → Step s (record s {
          rows = (spend_code platform a row s.rows).0;
          first = (spend_code platform a row s.rows).1;
        })
    read_second :
        (s : Race) → s.second ≡ waiting → Step s (record s { second = read_code b s.rows })
    spend_second :
        (s : Race) (row : AuthorizationCode)
        → s.second ≡ holding row
        → Step s (record s {
          rows = (spend_code platform b row s.rows).0;
          second = (spend_code platform b row s.rows).1;
        })

  pub data Reach (s : Race) : Race → Type 0 where
    here : Reach s s
    next : {t u : Race} → Reach s t → Step t u → Reach s u

abbrev pub start : List AuthorizationCode → Race
start rows = record { rows = rows; first = waiting; second = waiting }

-- What a request that has read the table comes to, if it runs on.
abbrev pub run_on :
    Platform → Call → List AuthorizationCode → Phase → List AuthorizationCode × Phase
run_on platform call rows waiting = (rows, waiting)
run_on platform call rows (holding row) = spend_code platform call row rows
run_on platform call rows (finished result) = (rows, finished result)

module _ (platform : Platform) (call : Call) (rows : List AuthorizationCode) where
  abbrev attempt : List AuthorizationCode × Result ErrorResponse AuthorizationCode
  attempt = retrieve_and_validate_auth_code platform call rows

  -- One request alone, its statements one after the other, is the function of the handler.
  pub alone :
      ((run_on platform call rows (read_code call rows)).0 ≡ attempt.0)
      × ((run_on platform call rows (read_code call rows)).1 ≡ finished attempt.1)
  unfolding read_code spend_code retrieve_and_validate_auth_code get_authorization_code_details
      get_authorization_code
  alone = (ground arith, ground arith)

  read_holds :
      (row : AuthorizationCode)
      → call.get_fails ≡ false
      → get_authorization_code false call.request.client_id call.request.code rows ≡ ok row
      → read_code call rows ≡ holding row
  unfolding read_code get_authorization_code
  read_holds row h held = ground (arith, h, held)

  spend_passes :
      (row : AuthorizationCode)
      → call.update_fails ≡ false
      → IsRedeemable platform call.request call.app call.now row
      → (spend_code platform call row rows).1 ≡ finished (ok row)
  unfolding spend_code
  spend_passes row h fit =
      ground (arith, h, IsRedeemable-check_code platform call.request call.app call.now row fit)

-- If no statement fails, the table holds a code for both requests, and each of them meets its
-- conditions, then there is an order of the statements in which both requests redeem it.
pub both_redeem :
    (platform : Platform) (a b : Call) (rows : List AuthorizationCode) (row : AuthorizationCode)
    → (a.get_fails ≡ false) × (a.update_fails ≡ false)
    → (b.get_fails ≡ false) × (b.update_fails ≡ false)
    → get_authorization_code false a.request.client_id a.request.code rows ≡ ok row
    → get_authorization_code false b.request.client_id b.request.code rows ≡ ok row
    → IsRedeemable platform a.request a.app a.now row
    → IsRedeemable platform b.request b.app b.now row
    → (end : Race) × Reach platform a b (start rows) end
      × (end.first ≡ finished (ok row))
      × (end.second ≡ finished (ok row))
both_redeem platform a b rows row (ga, ua) (gb, ub) held_a held_b fit_a fit_b =
    let s1 : Race = record (start rows) { first = read_code a rows } in
    let s2 : Race = record s1 { second = read_code b rows } in
    let s3 : Race = record s2 {
      rows = (spend_code platform a row rows).0;
      first = (spend_code platform a row rows).1;
    } in
    let s4 : Race = record s3 {
      rows = (spend_code platform b row s3.rows).0;
      second = (spend_code platform b row s3.rows).1;
    } in
    let r1 : Reach platform a b (start rows) s1 = next here (read_first (start rows) refl) in
    let r2 : Reach platform a b (start rows) s2 = next r1 (read_second s1 refl) in
    let r3 : Reach platform a b (start rows) s3 =
      next r2 (spend_first s2 row (read_holds platform a rows row ga held_a)) in
    let r4 : Reach platform a b (start rows) s4 =
      next r3 (spend_second s3 row (read_holds platform b rows row gb held_b)) in
    (
      s4,
      r4,
      spend_passes platform a rows row ua fit_a,
      spend_passes platform b s3.rows row ub fit_b,
    )
