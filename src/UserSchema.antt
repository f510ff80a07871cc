-- ===== src/UserSchema.antt =====
-- The schemas of user types, backend/internal/userschema/model: schema.go and one file for each type of
-- property. A schema that is compiled already, and what it asks of the attributes of a user.
--
-- `validateValue` returns an error value that is nil on every path, so its model is a Boolean test. A
-- pattern is the test that its regular expression makes. Compilation gives each array its items.
pub mod Compile
pub mod Conforms
pub mod Unique
pub mod Examples
use Prim.Native.String.{◌++◌}
use thunder_fork.Prelude.{
  ℕ, String, Bool, true, false, not, ◌&&◌, ◌||◌, Option, none, some, List, [], ◌∷◌, contains,
  is_empty, if◌then◌else◌,
}
use thunder_fork.Prelude.Assoc.{Assoc, lookup}
use thunder_fork.Prelude.Result.{Result, ok, err}
use thunder_fork.Prelude.Json.{
  Json, null, bool, num, str, arr, obj, Items, nil, cons, Fields, fields, items, same_number,
}

mutual
  pub data Property : Type 0 where
    string_property :
        (required unique : Bool) → Option (List String) → Option (String → Bool) → Property
    number_property : (required unique : Bool) → Option (List ℕ) → Property
    boolean_property : (required : Bool) → Property
    object_property : (required : Bool) → Properties → Property
    array_property : (required : Bool) → Property → Property

  pub data Properties : Type 0 where
    no_more : Properties
    property : String → Property → Properties → Properties

abbrev pub is_required : Property → Bool
is_required (string_property required unique enum pattern) = required
is_required (number_property required unique enum) = required
is_required (boolean_property required) = required
is_required (object_property required properties) = required
is_required (array_property required inner) = required

-- A value that the enumeration allows; a nil map allows all.
abbrev pub in_enum : Option (List String) → String → Bool
in_enum none s = true
in_enum (some enum) s = contains s enum

abbrev pub has_number : ℕ → List ℕ → Bool
has_number n [] = false
has_number n (m ∷ enum) = same_number n m || has_number n enum

abbrev pub in_numbers : Option (List ℕ) → ℕ → Bool
in_numbers none n = true
in_numbers (some enum) n = has_number n enum

abbrev pub matches : Option (String → Bool) → String → Bool
matches none s = true
matches (some pattern) s = pattern s

-- The loop of an array over its items.
abbrev pub all_items : (Json → Bool) → Items → Bool
all_items test nil = true
all_items test (cons v vs) = test v && all_items test vs

-- The test of a nested property: a value that is missing, null, or another one.
abbrev pub nested_ok : Bool → (Json → Bool) → Option Json → Bool
nested_ok required test none = not required
nested_ok required test (some null) = true
nested_ok required test (some v) = test v

unfoldable mutual
  pub validate_value : Property → Json → Bool
  validate_value (string_property required unique enum pattern) (str s) =
      in_enum enum s && matches pattern s
  validate_value (number_property required unique enum) (num n) = in_numbers enum n
  validate_value (boolean_property required) (bool b) = true
  validate_value (object_property required properties) (obj fs) = validate_nested properties fs
  validate_value (array_property required inner) (arr vs) =
      not (required && is_empty (items vs)) && all_items (validate_value inner) vs
  validate_value _ _ = false

  pub validate_nested : Properties → Fields → Bool
  validate_nested no_more fs = true
  validate_nested (property name p rest) fs =
      nested_ok (is_required p) (validate_value p) (lookup name (fields fs))
      && validate_nested rest fs

-- The test of a property of the schema itself: null is a value like any other.
abbrev pub top_ok : Bool → (Json → Bool) → Option Json → Bool
top_ok required test none = not required
top_ok required test (some v) = test v

unfoldable pub validate_all : Properties → Assoc Json → Bool
unfolding validate_value
validate_all no_more attrs = true
validate_all (property name p rest) attrs =
    top_ok (is_required p) (validate_value p) (lookup name attrs) && validate_all rest attrs

-- The attributes as they come in: nothing, no JSON object (an error), or an object; `null` leaves the
-- map empty.
pub data Attributes : Type 0 where
  no_attributes not_an_object : Attributes
  attributes : Assoc Json → Attributes

-- None is the error.
unfoldable pub validate : Properties → Attributes → Option Bool
unfolding validate_all
validate schema no_attributes = some true
validate schema not_an_object = none
validate schema (attributes attrs) = some (validate_all schema attrs)
