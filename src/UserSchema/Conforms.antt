-- ===== src/UserSchema/Conforms.antt =====
-- What the attributes of a user have to be for a schema, userschema/model.
use thunder_fork.Prelude.{
  ℕ, String, ◌≡◌, ◌↔◌, Bool, true, false, ◌&&◌, Option, none, some, List, arith, refl, ap, is_empty,
}
use thunder_fork.Prelude.Assoc.{Assoc, lookup}
use thunder_fork.Prelude.Json.{
  Json, null, bool, num, str, arr, obj, Items, nil, cons, Fields, fields, items,
}
use thunder_fork.UserSchema.{
  Property, Properties, string_property, number_property, boolean_property, object_property,
  array_property, no_more, property, is_required, in_enum, in_numbers, matches, all_items,
  nested_ok, top_ok, validate_value, validate_nested, validate_all, validate, attributes,
}

-- A property of a map of properties, under its name.
pub data Among : String → Property → Properties → Type 0 where
  first : {name : String} {p : Property} {rest : Properties} → Among name p (property name p rest)
  later :
      {name other : String} {p q : Property} {rest : Properties}
      → Among name p rest
      → Among name p (property other q rest)

mutual
  -- A value has the type of its property, meets its enumeration and its pattern, and so do the parts
  -- of it.
  pub data Conforms : Property → Json → Type 0 where
    a_text :
        {required unique : Bool} {enum : Option (List String)} {pattern : Option (String → Bool)}
        {s : String}
        → in_enum enum s ≡ true
        → matches pattern s ≡ true
        → Conforms (string_property required unique enum pattern) (str s)
    a_number :
        {required unique : Bool} {enum : Option (List ℕ)} {n : ℕ}
        → in_numbers enum n ≡ true
        → Conforms (number_property required unique enum) (num n)
    a_boolean : {required b : Bool} → Conforms (boolean_property required) (bool b)
    an_object :
        {required : Bool} {properties : Properties} {fs : Fields}
        → ((name : String) (p : Property)
            → Among name p properties
            → Nested p (lookup name (fields fs)))
        → Conforms (object_property required properties) (obj fs)
    an_array :
        {required : Bool} {inner : Property} {vs : Items}
        → (required && is_empty (items vs)) ≡ false
        → Each inner vs
        → Conforms (array_property required inner) (arr vs)

  -- A value inside an object: it may be missing if it is not required, and null even if it is.
  pub data Nested : Property → Option Json → Type 0 where
    missing : {p : Property} → is_required p ≡ false → Nested p none
    is_null : {p : Property} → Nested p (some null)
    present : {p : Property} {v : Json} → Conforms p v → Nested p (some v)

  pub data Each : Property → Items → Type 0 where
    done : {p : Property} → Each p nil
    more : {p : Property} {v : Json} {vs : Items} → Conforms p v → Each p vs → Each p (cons v vs)

-- A value of the user's attributes themselves: null is no exception.
pub data Attribute : Property → Option Json → Type 0 where
  missing : {p : Property} → is_required p ≡ false → Attribute p none
  present : {p : Property} {v : Json} → Conforms p v → Attribute p (some v)

all-Each :
    (p : Property)
    → ((v : Json) → validate_value p v ≡ true → Conforms p v)
    → (vs : Items) → all_items (validate_value p) vs ≡ true
    → Each p vs
all-Each p sound nil h = done
all-Each p sound (cons v vs) h = more (sound v (ground arith)) (all-Each p sound vs (ground arith))

ok-Nested :
    (p : Property)
    → ((v : Json) → validate_value p v ≡ true → Conforms p v)
    → (o : Option Json) → nested_ok (is_required p) (validate_value p) o ≡ true
    → Nested p o
ok-Nested p sound none h = missing (ground arith)
ok-Nested p sound (some null) h = is_null
ok-Nested p sound (some v) h = present (sound v h)

mutual
  unfolding validate_value

  sound : (p : Property) (v : Json) → validate_value p v ≡ true → Conforms p v
  sound (string_property r u enum pattern) (str s) h = a_text (ground arith) (ground arith)
  sound (number_property r u enum) (num n) h = a_number h
  sound (boolean_property r) (bool b) h = a_boolean
  sound (object_property r properties) (obj fs) h =
      an_object (λ name p a. validated-Nested properties fs h name p a)
  sound (array_property r inner) (arr vs) h =
      an_array (ground arith) (all-Each inner (sound inner) vs (ground arith))
  sound _ _ h = cc

  validated-Nested :
      (ps : Properties) (fs : Fields)
      → validate_nested ps fs ≡ true
      → (name : String) (p : Property) → Among name p ps
      → Nested p (lookup name (fields fs))
  validated-Nested no_more fs h name p a = elim a [ ]
  validated-Nested (property name p rest) fs h _ _ first =
      ok-Nested p (sound p) (lookup name (fields fs)) (ground arith)
  validated-Nested (property other q rest) fs h name p (later a) =
      validated-Nested rest fs (ground arith) name p a

all_of_Each :
    (p : Property)
    → ((v : Json) → Conforms p v → validate_value p v ≡ true)
    → (vs : Items) → Each p vs
    → all_items (validate_value p) vs ≡ true
all_of_Each p complete nil done = refl
all_of_Each p complete (cons v vs) (more c each) =
    ground (arith, complete v c, all_of_Each p complete vs each)

ok_of_Nested :
    (p : Property)
    → ((v : Json) → Conforms p v → validate_value p v ≡ true)
    → (o : Option Json) → Nested p o
    → nested_ok (is_required p) (validate_value p) o ≡ true
ok_of_Nested p complete none (missing e) = ground arith
ok_of_Nested p complete (some null) h = refl
ok_of_Nested p complete (some v) (present c) = complete v c

mutual
  unfolding validate_value

  complete : (p : Property) (v : Json) → Conforms p v → validate_value p v ≡ true
  complete _ _ (a_text e m) = ground arith
  complete _ _ (a_number e) = e
  complete _ _ a_boolean = refl
  complete (object_property r ps) (obj fs) (an_object each) = Nested-complete ps fs each
  complete (array_property r inner) (arr vs) (an_array e each) =
      ground (arith, all_of_Each inner (complete inner) vs each)

  Nested-complete :
      (ps : Properties) (fs : Fields)
      → ((name : String) (p : Property) → Among name p ps → Nested p (lookup name (fields fs)))
      → validate_nested ps fs ≡ true
  Nested-complete no_more fs each = refl
  Nested-complete (property name p rest) fs each = ground (
    arith,
    ok_of_Nested p (complete p) (lookup name (fields fs)) (each name p first),
    Nested-complete rest fs (λ other q a. each other q (later a)),
  )

ok-Attribute :
    (p : Property) (o : Option Json)
    → top_ok (is_required p) (validate_value p) o ≡ true
    → Attribute p o
ok-Attribute p none h = Attribute.missing (ground arith)
ok-Attribute p (some v) h = Attribute.present (sound p v h)

ok_of_Attribute :
    (p : Property) (o : Option Json)
    → Attribute p o
    → top_ok (is_required p) (validate_value p) o ≡ true
ok_of_Attribute p none (Attribute.missing e) = ground arith
ok_of_Attribute p (some v) (Attribute.present c) = complete p v c

all_sound :
    (schema : Properties) (attrs : Assoc Json)
    → validate_all schema attrs ≡ true
    → (name : String) (p : Property) → Among name p schema
    → Attribute p (lookup name attrs)
unfolding validate_all
all_sound no_more attrs h name p a = elim a [ ]
all_sound (property name p rest) attrs h _ _ first =
    ok-Attribute p (lookup name attrs) (ground arith)
all_sound (property other q rest) attrs h name p (later a) =
    all_sound rest attrs (ground arith) name p a

attributes_complete :
    (schema : Properties) (attrs : Assoc Json)
    → ((name : String) (p : Property) → Among name p schema → Attribute p (lookup name attrs))
    → validate_all schema attrs ≡ true
unfolding validate_all
attributes_complete no_more attrs each = refl
attributes_complete (property name p rest) attrs each = ground (
  arith,
  ok_of_Attribute p (lookup name attrs) (each name p first),
  attributes_complete rest attrs (λ other q a. each other q (later a)),
)

-- The attributes of a user, as an object, pass a schema exactly if each property of the schema is met:
-- its attribute is there, or not required, and its value conforms to the property in its type, its
-- enumeration and its pattern, with all that is nested in it, where null stands for any nested value.
pub validate_iff :
    (schema : Properties) (attrs : Assoc Json)
    → (validate schema (attributes attrs) ≡ some true)
      ↔ ((name : String) (p : Property) → Among name p schema → Attribute p (lookup name attrs))
unfolding validate
validate_iff schema attrs = (
  λ h. all_sound schema attrs (ground arith),
  λ each. ap some (attributes_complete schema attrs each),
)
