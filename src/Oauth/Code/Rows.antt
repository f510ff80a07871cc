-- ===== src/Oauth/Code/Rows.antt =====
-- What the service leaves in the table.
use thunder_fork.Prelude.{
  String, ◌≡◌, Bool, true, false, Option, none, some, List, [], ◌∷◌, ◌==◌, if◌then◌else◌, arith,
  refl, eq_refl, ◌⊎◌, inl, inr,
}
use thunder_fork.Prelude.Result.{Result, ok}
use thunder_fork.Oauth.Code.{
  CodeState, active, inactive, AuthorizationCode, first_row, set_state,
  get_authorization_code_details, ServiceError,
}

abbrev pub is_active : CodeState → Bool
is_active active = true
is_active _ = false

-- Whether the row that a query finds is an active code.
abbrev pub is_live : Option AuthorizationCode → Bool
is_live none = false
is_live (some row) = is_active row.state

-- After a change of state, the first row of a client and a code is the one from before, with the
-- new state if its id was the one that was named.
pub first_row-set_state :
    (client code id : String) (state : CodeState) (rows : List AuthorizationCode)
    → first_row client code (set_state state id rows) ≡ (elim (first_row client code rows) [
      | none ↦ none
      | some row ↦ some (if row.code_id == id then record row { state = state } else row)
    ])
unfolding first_row set_state
first_row-set_state client code id state [] = refl
first_row-set_state client code id state (row ∷ rows) =
    ground (arith, first_row-set_state client code id state rows)

module _ (get_fails update_fails : Bool) (client code : String)
    (rows : List AuthorizationCode) where
  abbrev outcome : List AuthorizationCode × Result ServiceError AuthorizationCode
  outcome = get_authorization_code_details get_fails update_fails client code rows

  -- A code that is handed out stood in the table, and is inactive from then on.
  pub handed_out :
      (row : AuthorizationCode)
      → outcome.1 ≡ ok row
      → (first_row client code rows ≡ some row)
        × (first_row client code outcome.0 ≡ some (record row { state = inactive }))
  unfolding get_authorization_code_details
  handed_out row h =
      ground (arith, first_row-set_state client code row.code_id inactive rows, eq_refl row.code_id)

  -- A call leaves the table alone, or makes the codes of one id inactive.
  outcome_rows : (outcome.0 ≡ rows) ⊎ ((id : String) × (outcome.0 ≡ set_state inactive id rows))
  outcome_rows = by_row (first_row client code rows) refl
    where
      by_row :
          (o : Option AuthorizationCode)
          → first_row client code rows ≡ o
          → (outcome.0 ≡ rows) ⊎ ((id : String) × (outcome.0 ≡ set_state inactive id rows))
      by_row none p = inl (unfold get_authorization_code_details in ground arith)
      by_row (some row) p =
          let e : (outcome.0 ≡ rows) ⊎ (outcome.0 ≡ set_state inactive row.code_id rows) =
            unfold get_authorization_code_details in ground arith in
          elim e [ inl q ↦ inl q | inr q ↦ inr (row.code_id, q) ]

  -- Whatever the call, no code becomes active by it.
  pub stays_dead :
      (other_client other : String)
      → is_live (first_row other_client other rows) ≡ false
      → is_live (first_row other_client other outcome.0) ≡ false
  stays_dead other_client other h = elim outcome_rows [
    | inl e ↦ rw e h
    | inr (id, e) ↦ rw e (ground (arith, first_row-set_state other_client other id inactive rows))
  ]
