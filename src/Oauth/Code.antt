-- ===== src/Oauth/Code.antt =====
-- Authorization codes: the store of backend/internal/oauth/oauth2/authz/auth_code_store.go and the
-- service of service.go.
--
-- The state of the store is the list of rows of the table AUTHORIZATION_CODE of this deployment.
-- Each call of the database takes a flag that says whether it fails. A row holds its fields as a
-- record: the JSON text in its column `authz_data` is left out. The time of a row is in seconds.
use thunder_fork.Prelude.{
  ℕ, String, Bool, true, false, not, ◌&&◌, ◌||◌, Option, none, some, List, [], ◌∷◌, ◌==◌,
  if◌then◌else◌, map, is_empty,
}
use thunder_fork.Prelude.Result.{Result, ok, err}
pub mod Rows

pub data CodeState : Type 0 where
  active inactive expired revoked : CodeState

pub record AuthorizationCode : Type 0 where
  pub code_id : String
  pub code : String
  pub client_id : String
  pub redirect_uri : String
  pub authorized_user_id : String
  pub authorized_user_type : String
  pub user_ou_id : String
  pub user_ou_name : String
  pub user_ou_handle : String
  pub time_created : ℕ
  pub expiry_time : ℕ
  pub scopes : String
  pub state : CodeState
  pub code_challenge : String
  pub code_challenge_method : String
  pub resource : String

pub data StoreError : Type 0 where
  not_found failure : StoreError

-- Whether a row is selected by `CLIENT_ID = $1 AND AUTHORIZATION_CODE = $2`.
abbrev pub is_selected : String → String → AuthorizationCode → Bool
is_selected client_id code row = row.client_id == client_id && row.code == code

-- The first row of the result of the query.
unfoldable pub first_row : String → String → List AuthorizationCode → Option AuthorizationCode
first_row client_id code [] = none
first_row client_id code (row ∷ rows) =
    if is_selected client_id code row then some row else first_row client_id code rows

unfoldable pub build_authorization_code_from_result_row :
    AuthorizationCode → Result StoreError AuthorizationCode
build_authorization_code_from_result_row row =
    if row.code_id == ""
    then err not_found
    else if row.code == ""
    then err failure
    else if row.client_id == ""
    then err failure
    else ok row

unfoldable pub insert_authorization_code :
    Bool → AuthorizationCode → List AuthorizationCode → List AuthorizationCode × Option StoreError
insert_authorization_code fails row rows =
    if fails then (rows, some failure) else (row ∷ rows, none)

unfoldable pub get_authorization_code :
    Bool → String → String → List AuthorizationCode → Result StoreError AuthorizationCode
unfolding build_authorization_code_from_result_row
get_authorization_code fails client_id code rows =
    if fails then err failure else elim (first_row client_id code rows) [
      | none ↦ err not_found
      | some row ↦ build_authorization_code_from_result_row row
    ]

-- `UPDATE … SET STATE = $1 WHERE CODE_ID = $2`
unfoldable pub set_state : CodeState → String → List AuthorizationCode → List AuthorizationCode
set_state state code_id [] = []
set_state state code_id (row ∷ rows) =
    (if row.code_id == code_id then record row { state = state } else row)
    ∷ set_state state code_id rows

unfoldable pub update_authorization_code_state :
    Bool
    → AuthorizationCode
    → CodeState
    → List AuthorizationCode
    → List AuthorizationCode × Option StoreError
update_authorization_code_state fails row new_state rows =
    if fails then (rows, some failure) else (set_state new_state row.code_id rows, none)

unfoldable pub deactivate_authorization_code :
    Bool → AuthorizationCode → List AuthorizationCode → List AuthorizationCode × Option StoreError
unfolding update_authorization_code_state
deactivate_authorization_code fails row = update_authorization_code_state fails row inactive

unfoldable pub revoke_authorization_code :
    Bool → AuthorizationCode → List AuthorizationCode → List AuthorizationCode × Option StoreError
unfolding update_authorization_code_state
revoke_authorization_code fails row = update_authorization_code_state fails row revoked

unfoldable pub expire_authorization_code :
    Bool → AuthorizationCode → List AuthorizationCode → List AuthorizationCode × Option StoreError
unfolding update_authorization_code_state
expire_authorization_code fails row = update_authorization_code_state fails row expired

-- The texts of the errors of the service.
pub data ServiceError : Type 0 where
  invalid_code retrieve_failed invalidate_failed : ServiceError

-- `get_fails` and `update_fails` are the faults of the two calls of the database.
unfoldable pub get_authorization_code_details :
    Bool
    → Bool
    → String
    → String
    → List AuthorizationCode
    → List AuthorizationCode × Result ServiceError AuthorizationCode
unfolding get_authorization_code deactivate_authorization_code
get_authorization_code_details get_fails update_fails client_id code rows =
    elim (get_authorization_code get_fails client_id code rows) [
      | err not_found ↦ (rows, err invalid_code)
      | err failure ↦ (rows, err retrieve_failed)
      | ok row ↦
          if row.code == ""
          then (rows, err invalid_code)
          else (let (rows', done) = deactivate_authorization_code update_fails row rows in
              elim done [ some e ↦ (rows', err invalidate_failed) | none ↦ (rows', ok row) ])
    ]
