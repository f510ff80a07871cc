-- ===== src/UserSchema/Unique.antt =====
-- Whether the unique attributes of a user are free, userschema/model: ValidateUniqueness of schema.go
-- and validateUniqueness of each type of property.
--
-- `identify` looks for a user by one attribute, named by its path; its error has no content here.
use Prim.Native.String.{◌++◌}
use thunder_fork.Prelude.{
  ℕ, String, ◌≡◌, ◌≢◌, Bool, true, false, not, Option, none, some, List, arith, is_some,
}
use thunder_fork.Prelude.Assoc.{Assoc, lookup}
use thunder_fork.Prelude.Result.{Result, ok, err, ◌>>=◌}
use thunder_fork.Prelude.Json.{Json, null, obj, Fields, fields}
use thunder_fork.UserSchema.{
  Property, Properties, string_property, number_property, boolean_property, object_property,
  array_property, no_more, property,
}
use thunder_fork.UserSchema.Conforms.{Among, first, later, Nested, is_null}

-- The end of one test of a loop: its error, a failure, or the rest of the loop.
abbrev pub then_rest : Result (Unit {0}) Bool → Result (Unit {0}) Bool → Result (Unit {0}) Bool
then_rest (err e) rest = err e
then_rest (ok false) rest = ok false
then_rest (ok true) rest = rest

module _ (identify : String → Json → Result (Unit {0}) (Option String)) where
  abbrev pub leaf : Bool → String → Json → Result (Unit {0}) Bool
  leaf false path v = ok true
  leaf true path v = identify path v >>= λ user. ok (not (is_some user))

  -- The test of a nested property whose value may be missing.
  abbrev pub if_there : (Json → Result (Unit {0}) Bool) → Option Json → Result (Unit {0}) Bool
  if_there test none = ok true
  if_there test (some v) = test v

  unfoldable mutual
    pub unique_value : Property → String → Json → Result (Unit {0}) Bool
    unique_value (string_property required unique enum pattern) path v = leaf unique path v
    unique_value (number_property required unique enum) path v = leaf unique path v
    unique_value (boolean_property required) path v = ok true
    unique_value (object_property required properties) path (obj fs) =
        unique_nested properties path fs
    unique_value (object_property required properties) path _ = ok false
    unique_value (array_property required inner) path v = ok true

    pub unique_nested : Properties → String → Fields → Result (Unit {0}) Bool
    unique_nested no_more path fs = ok true
    unique_nested (property name p rest) path fs =
        then_rest (if_there (unique_value p (path ++ ("." ++ name))) (lookup name (fields fs)))
          (unique_nested rest path fs)

  unfoldable pub validate_uniqueness : Properties → Assoc Json → Result (Unit {0}) Bool
  unfolding unique_value
  validate_uniqueness no_more attrs = ok true
  validate_uniqueness (property name p rest) attrs =
      then_rest (if_there (unique_value p name) (lookup name attrs))
        (validate_uniqueness rest attrs)

-- A unique attribute in a value: its path, and its own value.
pub data UniqueIn : Property → String → Json → String → Json → Type 0 where
  text_leaf :
      {required : Bool} {enum : Option (List String)} {pattern : Option (String → Bool)}
      {path : String} {v : Json}
      → UniqueIn (string_property required true enum pattern) path v path v
  number_leaf :
      {required : Bool} {enum : Option (List ℕ)} {path : String} {v : Json}
      → UniqueIn (number_property required true enum) path v path v
  inside :
      {required : Bool} {properties : Properties} {name : String} {p : Property}
      {path path' : String} {fs : Fields} {v v' : Json}
      → Among name p properties
      → lookup name (fields fs) ≡ some v
      → UniqueIn p (path ++ ("." ++ name)) v path' v'
      → UniqueIn (object_property required properties) path (obj fs) path' v'

module _ (identify : String → Json → Result (Unit {0}) (Option String)) where
  -- Each test of a loop that passes has passed.
  nested_passes :
      (ps : Properties) (path : String) (fs : Fields) (name : String) (p : Property) (v : Json)
      → unique_nested identify ps path fs ≡ ok true
      → Among name p ps
      → lookup name (fields fs) ≡ some v
      → unique_value identify p (path ++ ("." ++ name)) v ≡ ok true
  unfolding unique_value
  nested_passes no_more path fs name p v h a found = elim a [ ]
  nested_passes (property name p rest) path fs _ _ v h first found = ground arith
  nested_passes (property other q rest) path fs name p v h (later a) found =
      nested_passes rest path fs name p v (ground arith) a found

  unique_leaf :
      (p : Property) (path : String) (v : Json) (path' : String) (v' : Json)
      → unique_value identify p path v ≡ ok true
      → UniqueIn p path v path' v'
      → identify path' v' ≡ ok none
  unfolding unique_value
  unique_leaf _ _ _ _ _ h text_leaf = ground arith
  unique_leaf _ _ _ _ _ h number_leaf = ground arith
  unique_leaf (object_property r ps) path (obj fs) path' v' h (inside {name} {p} {v} a found u) =
      unique_leaf p (path ++ ("." ++ name)) v path' v' (nested_passes ps path fs name p v h a found)
        u

  top_passes :
      (ps : Properties) (attrs : Assoc Json) (name : String) (p : Property) (v : Json)
      → validate_uniqueness identify ps attrs ≡ ok true
      → Among name p ps
      → lookup name attrs ≡ some v
      → unique_value identify p name v ≡ ok true
  unfolding validate_uniqueness
  top_passes no_more attrs name p v h a found = elim a [ ]
  top_passes (property name p rest) attrs _ _ v h first found = ground arith
  top_passes (property other q rest) attrs name p v h (later a) found =
      top_passes rest attrs name p v (ground arith) a found

  -- If the attributes of a user pass the check of uniqueness, no user is found by any of their unique
  -- attributes, at whatever depth in objects it stands.
  pub unique_attributes :
      (schema : Properties) (attrs : Assoc Json) (name : String) (p : Property) (v : Json)
      (path : String) (v' : Json)
      → validate_uniqueness identify schema attrs ≡ ok true
      → Among name p schema
      → lookup name attrs ≡ some v
      → UniqueIn p name v path v'
      → identify path v' ≡ ok none
  unique_attributes schema attrs name p v path v' h a found u =
      unique_leaf p name v path v' (top_passes schema attrs name p v h a found) u

  -- A null where an object is nested conforms to the schema, and yet an object with it never passes
  -- the check of uniqueness, whether or not any attribute is unique.
  pub null_object :
      (ps inner : Properties) (outer required : Bool) (name path : String) (fs : Fields)
      → Among name (object_property required inner) ps
      → lookup name (fields fs) ≡ some null
      → Nested (object_property required inner) (lookup name (fields fs))
        × (unique_value identify (object_property outer ps) path (obj fs) ≢ ok true)
  unfolding unique_value
  null_object ps inner outer required name path fs a found = (
    rw found is_null,
    λ h. cc (nested_passes ps path fs name (object_property required inner) null h a found),
  )
