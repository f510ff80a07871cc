-- ===== src/Role/Sound/Names.antt =====
-- The names of roles in their units, CheckRoleNameExists and CheckRoleNameExistsExcludingID of
-- backend/internal/role/store.go.
use thunder_fork.Prelude.{String, ◌≡◌, false, not, some, [], ◌∷◌, ◌&&◌, ◌==◌, arith, eq_iff}
use thunder_fork.Prelude.Assoc.{Assoc, lookup, insert, without, lookup-insert, lookup-without}
use thunder_fork.Role.{Role, check_role_name_exists, check_role_name_exists_excluding_id}

-- A role stands under its id.
abbrev pub AreKeyed : Assoc Role → Type 0
AreKeyed roles = (id : String) (role : Role) → lookup id roles ≡ some role → role.id ≡ id

-- Two roles of one unit have different names.
abbrev pub AreDistinct : Assoc Role → Type 0
AreDistinct roles =
    (id other : String) (a b : Role)
    → lookup id roles ≡ some a
    → lookup other roles ≡ some b
    → a.ou_id ≡ b.ou_id
    → a.name ≡ b.name
    → id ≡ other

name-free :
    (ou_id name : String) (roles : Assoc Role) (id : String) (role : Role)
    → check_role_name_exists ou_id name roles ≡ false
    → lookup id roles ≡ some role
    → ((role.ou_id == ou_id) && (role.name == name)) ≡ false
unfolding check_role_name_exists lookup
name-free ou_id name [] id role free h = ground arith
name-free ou_id name ((k, r) ∷ roles) id role free h =
    ground (arith, name-free ou_id name roles id role)

name-free_but :
    (ou_id name excluded : String) (roles : Assoc Role) (id : String) (role : Role)
    → check_role_name_exists_excluding_id ou_id name excluded roles ≡ false
    → lookup id roles ≡ some role
    → ((role.ou_id == ou_id) && (role.name == name) && not (role.id == excluded)) ≡ false
unfolding check_role_name_exists_excluding_id lookup
name-free_but ou_id name excluded [] id role free h = ground arith
name-free_but ou_id name excluded ((k, r) ∷ roles) id role free h =
    ground (arith, name-free_but ou_id name excluded roles id role)

pub AreKeyed-insert :
    (role : Role) (roles : Assoc Role) → AreKeyed roles → AreKeyed (insert role.id role roles)
AreKeyed-insert role roles keyed id r h =
    ground (arith, lookup-insert role.id id role roles, keyed id r, eq_iff role.id id)

pub AreKeyed-without :
    (id : String) (roles : Assoc Role) → AreKeyed roles → AreKeyed (without id roles)
AreKeyed-without id roles keyed k r h = ground (arith, lookup-without id k roles, keyed k r)

-- No other role has the unit and the name.
abbrev pub IsFree : Role → Assoc Role → Type 0
IsFree role roles =
    (id : String) (other : Role)
    → lookup id roles ≡ some other
    → other.ou_id ≡ role.ou_id
    → other.name ≡ role.name
    → id ≡ role.id

pub AreDistinct-insert :
    (role : Role) (roles : Assoc Role)
    → IsFree role roles
    → AreDistinct roles
    → AreDistinct (insert role.id role roles)
AreDistinct-insert role roles free distinct id other a b at_id at_other same_ou same_name = ground (
  arith,
  lookup-insert role.id id role roles,
  lookup-insert role.id other role roles,
  eq_iff role.id id,
  eq_iff role.id other,
  free id a,
  free other b,
  distinct id other a b,
)

pub AreDistinct-without :
    (id : String) (roles : Assoc Role) → AreDistinct roles → AreDistinct (without id roles)
AreDistinct-without id roles distinct k other a b at_k at_other same_ou same_name =
    ground (arith, lookup-without id k roles, lookup-without id other roles, distinct k other a b)

pub fresh-IsFree :
    (role : Role) (roles : Assoc Role)
    → check_role_name_exists role.ou_id role.name roles ≡ false
    → IsFree role roles
fresh-IsFree role roles free id other h same_ou same_name = ground (
  arith,
  name-free role.ou_id role.name roles id other free h,
  eq_iff other.ou_id role.ou_id,
  eq_iff other.name role.name,
)

pub updated-IsFree :
    (role : Role) (roles : Assoc Role)
    → AreKeyed roles
    → check_role_name_exists_excluding_id role.ou_id role.name role.id roles ≡ false
    → IsFree role roles
updated-IsFree role roles keyed free id other h same_ou same_name = ground (
  arith,
  name-free_but role.ou_id role.name role.id roles id other free h,
  eq_iff other.ou_id role.ou_id,
  eq_iff other.name role.name,
  eq_iff other.id role.id,
  keyed id other h,
)
