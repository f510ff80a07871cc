-- ===== src/UserSchema/Examples.antt =====
-- A concrete schema, compiled from its JSON, and users for it.
use thunder_fork.Prelude.{
  String, ◌≡◌, ◌≢◌, ◌↔◌, Bool, true, false, Option, none, some, [], ◌∷◌, contains, refl,
}
use thunder_fork.Prelude.Assoc.{Assoc, lookup, has}
use thunder_fork.Prelude.Result.{Result, ok, err}
use thunder_fork.Prelude.Json.{Json, null, bool, str, obj, Fields, end, field}
use thunder_fork.UserSchema.{
  Property, Properties, string_property, object_property, no_more, property, validate, validate_all,
  validate_value, attributes,
}
use thunder_fork.UserSchema.Conforms.{Among, first, later, Attribute, Nested, validate_iff}
use thunder_fork.UserSchema.Compile.{
  only, flag, compile_enum, pattern_text, compile_pattern, compile_string_property,
  compile_boolean_property, compile_object_property, compile_typed, type_name, compile_property,
  compile_user_schema, invalid_field,
}
use thunder_fork.UserSchema.Compile.Declared.{required_attribute}
use thunder_fork.UserSchema.Unique.{
  unique_value, validate_uniqueness, inside, text_leaf, unique_attributes, null_object,
}

-- No regular expression compiles.
abbrev no_regex : String → Option (String → Bool)
no_regex text = none

abbrev unique_text : Fields
unique_text = field "type" (str "string") (field "unique" (bool true) end)

abbrev required_text : Fields
required_text = field "type" (str "string") (field "required" (bool true) end)

-- {"name": {"type": "string", "required": true},
--  "contact": {"type": "object", "properties": {"email": {"type": "string", "unique": true}}}}
abbrev definition : Fields
definition = field "name" (obj required_text) (
    field "contact"
      (obj (
        field "type" (str "object")
          (field "properties" (obj (field "email" (obj unique_text) end)) end)))
      end)

abbrev email : Property
email = string_property false true none none

abbrev contact : Property
contact = object_property false (property "email" email no_more)

abbrev schema : Properties
schema = property "name" (string_property true false none none) (property "contact" contact no_more)

compiled : compile_user_schema no_regex (some (obj definition)) ≡ ok schema
unfolding compile_user_schema compile_property type_name compile_typed compile_string_property
    compile_object_property only flag compile_enum compile_pattern pattern_text lookup contains
compiled = refl

refused :
    compile_user_schema no_regex
      (some (obj (field "name" (obj (field "type" (str "boolean") (field "unique" null end))) end)))
    ≡ err invalid_field
unfolding compile_user_schema compile_property type_name compile_typed compile_boolean_property only
    lookup contains
refused = refl

abbrev user : Assoc Json
user = ("name", str "Ann") ∷ ("contact", obj (field "email" (str "a@b") end)) ∷ []

accepted : validate schema (attributes user) ≡ some true
unfolding validate validate_all validate_value lookup
accepted = refl

nameless : validate schema (attributes []) ≡ some false
unfolding validate validate_all lookup
nameless = refl

validate_iff_example :
    (validate schema (attributes user) ≡ some true)
    ↔ ((name : String) (p : Property) → Among name p schema → Attribute p (lookup name user))
validate_iff_example = validate_iff schema user

required_attribute_example : has "name" user ≡ true
unfolding lookup
required_attribute_example =
    required_attribute no_regex definition required_text schema "name" user compiled refl refl
      accepted

-- Nobody has the address.
abbrev identify : String → Json → Result (Unit {0}) (Option String)
identify path v = ok none

free : validate_uniqueness identify schema user ≡ ok true
unfolding validate_uniqueness unique_value lookup
free = refl

unique_attributes_example : identify "contact.email" (str "a@b") ≡ ok none
unfolding lookup
unique_attributes_example =
    unique_attributes identify schema user "contact" contact (obj (field "email" (str "a@b") end))
      "contact.email" (str "a@b") free (later first) refl (inside first refl text_leaf)

null_object_example :
    Nested contact (some null)
    × (unique_value identify
          (object_property false (property "contact" contact no_more))
          "user"
          (obj (field "contact" null end))
        ≢ ok true)
unfolding lookup
null_object_example =
    null_object identify (property "contact" contact no_more) (property "email" email no_more) false
      false "contact" "user" (field "contact" null end) first refl
