-- ===== src/Role/Authorized.antt =====
-- Which permissions a user has, GetAuthorizedPermissions of backend/internal/role.
use thunder_fork.Prelude.{
  String, ◌≡◌, ◌⊎◌, ◌↔◌, inl, inr, true, false, List, [], ◌∷◌, ◌&&◌, ◌==◌, contains, arith, refl,
  sym, subst, ap, ◌∙◌, eq_iff, eq_refl, Bool-cases,
}
use thunder_fork.Prelude.Result.{ok}
use thunder_fork.Role.{
  RoleAssignment, user_type, group_type, PermissionRow, AssignmentRow, Tables, has_permission,
  has_assignment, any_assigned, is_assigned, select_permissions, same_assignee,
}
use thunder_fork.Role.Service.{Services, Faults, get_authorized_permissions}

-- The user, unless it has no id, or one of the groups.
abbrev pub IsOneOf : String → List String → RoleAssignment → Type 0
IsOneOf user_id groups assignee =
    (((user_id == "") ≡ false) × (assignee.type ≡ user_type) × (assignee.id ≡ user_id))
    ⊎ ((assignee.type ≡ group_type) × (contains assignee.id groups ≡ true))

-- A role that holds the permission is assigned to the user or to one of the groups.
abbrev pub Grants : Tables → String → List String → String → Type 0
Grants tables user_id groups permission =
    (role_id : String) × (assignee : RoleAssignment) × (has_permission role_id permission
        tables.permissions
      ≡ true)
    × (has_assignment role_id assignee tables.assignments ≡ true)
    × IsOneOf user_id groups assignee

is_assigned-IsOneOf :
    (user_id : String) (groups : List String) (assignee : RoleAssignment)
    → is_assigned user_id groups assignee ≡ true
    → IsOneOf user_id groups assignee
is_assigned-IsOneOf user_id groups assignee h = ground (
  arith,
  eq_iff assignee.type user_type,
  eq_iff assignee.type group_type,
  eq_iff assignee.id user_id,
)

IsOneOf-is_assigned :
    (user_id : String) (groups : List String) (assignee : RoleAssignment)
    → IsOneOf user_id groups assignee
    → is_assigned user_id groups assignee ≡ true
IsOneOf-is_assigned user_id groups assignee h = ground (
  arith,
  eq_iff assignee.type user_type,
  eq_iff assignee.type group_type,
  eq_iff assignee.id user_id,
)

any_assigned_sound :
    (user_id : String) (groups : List String) (role_id : String) (rows : List AssignmentRow)
    → any_assigned user_id groups role_id rows ≡ true
    → (assignee : RoleAssignment) × (has_assignment role_id assignee rows ≡ true)
      × IsOneOf user_id groups assignee
unfolding any_assigned has_assignment
any_assigned_sound user_id groups role_id [] h = cc
any_assigned_sound user_id groups role_id (row ∷ rows) h =
    elim (Bool-cases (row.role_id == role_id && is_assigned user_id groups row.assignee)) [
      | inl here ↦ (
        row.assignee,
        ground (arith, here, eq_refl row.assignee.type, eq_refl row.assignee.id),
        is_assigned-IsOneOf user_id groups row.assignee (ground (arith, here)),
      )
      | inr later ↦
          (let (assignee, has, one_of) =
              any_assigned_sound user_id groups role_id rows (ground (arith, h, later)) in
            (assignee, ground (arith, has), one_of))
    ]

same_assignee-assigned :
    (user_id : String) (groups : List String) (a b : RoleAssignment)
    → same_assignee a b ≡ true
    → is_assigned user_id groups b ≡ true
    → is_assigned user_id groups a ≡ true
same_assignee-assigned user_id groups a b same h =
    let type : a.type ≡ b.type = ground (arith, eq_iff a.type b.type) in
    let id : a.id ≡ b.id = ground (arith, eq_iff a.id b.id) in rw (type, id) h

any_assigned_complete :
    (user_id : String) (groups : List String) (role_id : String) (rows : List AssignmentRow)
    (assignee : RoleAssignment)
    → has_assignment role_id assignee rows ≡ true
    → is_assigned user_id groups assignee ≡ true
    → any_assigned user_id groups role_id rows ≡ true
unfolding any_assigned has_assignment
any_assigned_complete user_id groups role_id [] assignee has one_of = cc
any_assigned_complete user_id groups role_id (row ∷ rows) assignee has one_of =
    elim (Bool-cases (row.role_id == role_id && same_assignee row.assignee assignee)) [
      | inl here ↦ ground (
        arith,
        here,
        same_assignee-assigned user_id groups row.assignee assignee (ground (arith, here)) one_of,
      )
      | inr later ↦ ground (
        arith,
        any_assigned_complete user_id groups role_id rows assignee (ground (arith, has, later))
            one_of,
      )
    ]

module _ (user_id : String) (groups requested : List String)
    (assignments : List AssignmentRow) where
  selected_sound :
      (rows : List PermissionRow) (permission : String)
      → contains permission (select_permissions user_id groups requested assignments rows) ≡ true
      → (contains permission requested ≡ true)
        × ((role_id : String) × (has_permission role_id permission rows ≡ true)
            × (any_assigned user_id groups role_id assignments ≡ true))
  unfolding select_permissions contains has_permission
  selected_sound [] permission h = cc
  selected_sound (row ∷ rows) permission h =
      elim (Bool-cases (
        any_assigned user_id groups row.role_id assignments
        && contains row.permission requested
        && row.permission == permission)) [
          | inl here ↦
              (let same : row.permission ≡ permission =
                  ground (arith, here, eq_iff row.permission permission) in
                (
                  rw (sym same) (ground (arith, here)),
                  (row.role_id, ground (arith, here, eq_refl row.role_id), ground (arith, here)),
                ))
          | inr later ↦
              (let (asked, (role_id, has, assigned)) =
                  selected_sound rows permission (ground (arith, h, later)) in
                (asked, (role_id, ground (arith, has), assigned)))
        ]

  selected_complete :
      (rows : List PermissionRow) (permission role_id : String)
      → contains permission requested ≡ true
      → has_permission role_id permission rows ≡ true
      → any_assigned user_id groups role_id assignments ≡ true
      → contains permission (select_permissions user_id groups requested assignments rows) ≡ true
  unfolding select_permissions contains has_permission
  selected_complete [] permission role_id asked has assigned = cc
  selected_complete (row ∷ rows) permission role_id asked has assigned =
      let ih : has_permission role_id permission rows ≡ true
          → contains permission (select_permissions user_id groups requested assignments rows)
            ≡ true =
        λ h. selected_complete rows permission role_id asked h assigned in
      elim (Bool-cases (row.role_id == role_id && row.permission == permission)) [
        | inl here ↦
            (let same : row.permission ≡ permission =
                ground (arith, here, eq_iff row.permission permission) in
              let role : row.role_id ≡ role_id = ground (arith, here, eq_iff row.role_id role_id) in
              let kept : any_assigned user_id groups row.role_id assignments ≡ true =
                rw role assigned in
              let wanted : contains row.permission requested ≡ true = rw same asked in
              subst
                (λ p.
                  contains p (select_permissions user_id groups requested assignments (row ∷ rows))
                  ≡ true)
                same (ground (arith, kept, wanted, eq_refl row.permission)))
        | inr later ↦ ground (arith, ih (ground (arith, has, later)))
      ]

answer-cases :
    (services : Services) (faults : Faults) (user_id : String) (groups requested : List String)
    (tables : Tables) (answer : List String)
    → get_authorized_permissions services faults user_id groups requested tables ≡ ok answer
    → ((requested ≡ []) × (answer ≡ []))
      ⊎ (answer
          ≡ services.order
              (select_permissions user_id groups requested tables.assignments tables.permissions))
unfolding get_authorized_permissions
answer-cases services faults user_id groups [] tables answer h = inl (refl, ground arith)
answer-cases services faults user_id groups (p ∷ ps) tables answer h = inr (ground arith)

-- If the order of the database only puts the permissions in another place, then what the service
-- answers holds a permission exactly if it was requested and a role that has it is assigned to the user
-- or to one of the groups.
pub authorized_iff :
    (services : Services) (faults : Faults) (user_id : String) (groups requested : List String)
    (tables : Tables) (answer : List String) (permission : String)
    → ((ps : List String) (p : String) → contains p (services.order ps) ≡ contains p ps)
    → get_authorized_permissions services faults user_id groups requested tables ≡ ok answer
    → (contains permission answer ≡ true)
      ↔ ((contains permission requested ≡ true) × Grants tables user_id groups permission)
unfolding contains
authorized_iff services faults user_id groups requested tables answer permission reorders h =
    elim (answer-cases services faults user_id groups requested tables answer h) [
      | inl (nothing, empty) ↦ (
        λ c. absurd (ground (arith, empty, c)),
        λ (asked, granted). absurd (ground (arith, nothing, asked)),
      )
      | inr ordered ↦
          (let same : contains permission answer ≡ contains permission selected =
              ap (contains permission) ordered ∙ reorders selected permission in
            (
              λ c.
                  let (asked, (role_id, has, assigned)) =
                    selected_sound user_id groups requested tables.assignments tables.permissions
                      permission (sym same ∙ c) in
                  let (assignee, there, one_of) =
                    any_assigned_sound user_id groups role_id tables.assignments assigned in
                  (asked, (role_id, assignee, has, there, one_of)),
              λ (asked, (role_id, assignee, has, there, one_of)).
                  same
                  ∙ selected_complete user_id groups requested tables.assignments tables.permissions
                      permission role_id asked has
                      (any_assigned_complete user_id groups role_id tables.assignments assignee
                        there (IsOneOf-is_assigned user_id groups assignee one_of)),
            ))
    ]
  where
    selected : List String
    selected = select_permissions user_id groups requested tables.assignments tables.permissions
