-- ===== src/UserSchema/Compile.antt =====
-- From the JSON of a schema to the schema, userschema/model: CompileUserSchema and compileProperty of
-- schema.go, and the function for each type of property.
--
-- `regexp.Compile` is a parameter. The index and the names in the texts of errors are left out. Go
-- compiles the nested definitions where it needs them; here all parts of an object are compiled as
-- properties first, and looked up there.
pub mod Declared
use thunder_fork.Prelude.{
  ℕ, String, Bool, true, false, Option, none, some, List, [], ◌∷◌, ◌==◌, ◌&&◌, contains,
  if◌then◌else◌,
}
use thunder_fork.Prelude.Assoc.{Assoc, lookup, has}
use thunder_fork.Prelude.Result.{Result, ok, err, ◌>>=◌, ◌>>◌, guard, or_err}
use thunder_fork.Prelude.Json.{
  Json, null, bool, num, str, arr, obj, Fields, end, field, fields, items,
}
use thunder_fork.UserSchema.{
  Property, Properties, string_property, number_property, boolean_property, object_property,
  array_property, no_more, property,
}

pub data CompileError : Type 0 where
  invalid_json empty_schema not_an_object missing_type type_not_text invalid_type : CompileError
  invalid_field bad_flag bad_enum empty_enum bad_enum_item two_patterns bad_pattern : CompileError
  missing_properties bad_properties missing_items : CompileError

-- `json.Unmarshal` into a variable of the zero value, which null leaves alone.
abbrev pub to_bool : Json → Option Bool
to_bool null = some false
to_bool (bool b) = some b
to_bool _ = none

abbrev pub to_text : Json → Option String
to_text null = some ""
to_text (str s) = some s
to_text _ = none

abbrev pub to_number : Json → Option ℕ
to_number null = some 0
to_number (num n) = some n
to_number _ = none

abbrev pub to_list : Json → Option (List Json)
to_list null = some []
to_list (arr vs) = some (items vs)
to_list _ = none

-- Every item of a list, or the error of the first that does not fit.
abbrev pub each_item : {A : Type 0} → (Json → Option A) → List Json → Result CompileError (List A)
each_item f [] = ok []
each_item f (v ∷ vs) = or_err bad_enum_item (f v) >>= λ a. each_item f vs >>= λ rest. ok (a ∷ rest)

-- No field of a definition but these.
unfoldable pub only : List String → Assoc Json → Bool
only allowed [] = true
only allowed ((name, v) ∷ fs) = contains name allowed && only allowed fs

unfoldable pub flag : String → Assoc Json → Result CompileError Bool
flag name fs = elim (lookup name fs) [ none ↦ ok false | some v ↦ or_err bad_flag (to_bool v) ]

unfoldable pub nonempty_enum :
    {A : Type 0} → (Json → Option A) → List Json → Result CompileError (Option (List A))
nonempty_enum f [] = err empty_enum
nonempty_enum f (v ∷ vs) = each_item f (v ∷ vs) >>= λ enum. ok (some enum)

unfoldable pub compile_enum :
    {A : Type 0} → (Json → Option A) → Assoc Json → Result CompileError (Option (List A))
compile_enum f fs = elim (lookup "enum" fs) [
  | none ↦ ok none
  | some v ↦ or_err bad_enum (to_list v) >>= λ vs. nonempty_enum f vs
]

-- The text of the pattern, empty where there is none.
unfoldable pub pattern_text : Assoc Json → Result CompileError String
pattern_text fs = elim (lookup "regex" fs) [
  | some v ↦ if has "pattern" fs then err two_patterns else or_err bad_pattern (to_text v)
  | none ↦ elim (lookup "pattern" fs) [ none ↦ ok "" | some v ↦ or_err bad_pattern (to_text v) ]
]

unfoldable pub compile_number_property : Assoc Json → Result CompileError Property
compile_number_property fs = do
  guard (only ("type" ∷ "required" ∷ "unique" ∷ "enum" ∷ []) fs) invalid_field
  required ← flag "required" fs
  unique ← flag "unique" fs
  enum ← compile_enum to_number fs
  ok (number_property required unique enum)

unfoldable pub compile_boolean_property : Assoc Json → Result CompileError Property
compile_boolean_property fs = do
  guard (only ("type" ∷ "required" ∷ []) fs) invalid_field
  required ← flag "required" fs
  ok (boolean_property required)

-- `nested` is what each field comes to as a map of properties.
unfoldable pub compile_object_property :
    Assoc Json → Assoc (Result CompileError Properties) → Result CompileError Property
compile_object_property fs nested = do
  guard (only ("type" ∷ "properties" ∷ "required" ∷ []) fs) invalid_field
  required ← flag "required" fs
  compiled ← or_err missing_properties (lookup "properties" nested)
  properties ← compiled
  ok (object_property required properties)

-- `inner` is what each field comes to as a property.
unfoldable pub compile_array_property :
    Assoc Json → Assoc (Result CompileError Property) → Result CompileError Property
compile_array_property fs inner = do
  guard (only ("type" ∷ "items" ∷ "required" ∷ []) fs) invalid_field
  required ← flag "required" fs
  compiled ← or_err missing_items (lookup "items" inner)
  item ← compiled
  ok (array_property required item)

-- The name of the type of a definition.
unfoldable pub type_name : Assoc Json → Result CompileError String
type_name fs =
    or_err missing_type (lookup "type" fs) >>= λ type. or_err type_not_text (to_text type)

-- The properties of a map, or the error of the first that has one.
abbrev pub collect : Assoc (Result CompileError Property) → Result CompileError Properties
collect [] = ok no_more
collect ((name, compiled) ∷ rest) = compiled >>= λ p. collect rest >>= λ ps. ok (property name p ps)

module _ (compile_regex : String → Option (String → Bool)) where
  unfoldable pub compile_pattern : Assoc Json → Result CompileError (Option (String → Bool))
  compile_pattern fs = do
    text ← pattern_text fs
    if text == ""
        then ok none
        else (or_err bad_pattern (compile_regex text) >>= λ test. ok (some test))

  unfoldable pub compile_string_property : Assoc Json → Result CompileError Property
  compile_string_property fs = do
    guard (only ("type" ∷ "required" ∷ "unique" ∷ "enum" ∷ "regex" ∷ "pattern" ∷ []) fs)
        invalid_field
    required ← flag "required" fs
    unique ← flag "unique" fs
    enum ← compile_enum to_text fs
    pattern ← compile_pattern fs
    ok (string_property required unique enum pattern)

  -- The cases of the type.
  unfoldable pub compile_typed :
      String
      → Assoc Json
      → Assoc (Result CompileError Property)
      → Assoc (Result CompileError Properties)
      → Result CompileError Property
  compile_typed type fs inner nested =
      if type == "string"
      then compile_string_property fs
      else if type == "number"
      then compile_number_property fs
      else if type == "boolean"
      then compile_boolean_property fs
      else if type == "object"
      then compile_object_property fs nested
      else if type == "array"
      then compile_array_property fs inner
      else err invalid_type

  unfoldable mutual
    pub compile_property : Json → Result CompileError Property
    compile_property null = err missing_type
    compile_property (obj fs) = type_name (fields fs) >>= λ type.
        compile_typed type (fields fs) (compile_fields fs) (compile_maps fs)
    compile_property _ = err not_an_object

    pub compile_fields : Fields → Assoc (Result CompileError Property)
    compile_fields end = []
    compile_fields (field name v fs) = (name, compile_property v) ∷ compile_fields fs

    pub compile_maps : Fields → Assoc (Result CompileError Properties)
    compile_maps end = []
    compile_maps (field name v fs) = (name, compile_map v) ∷ compile_maps fs

    pub compile_map : Json → Result CompileError Properties
    compile_map null = ok no_more
    compile_map (obj fs) = collect (compile_fields fs)
    compile_map _ = err bad_properties

  -- None is a text that is no JSON.
  unfoldable pub compile_user_schema : Option Json → Result CompileError Properties
  unfolding compile_property
  compile_user_schema (some (obj end)) = err empty_schema
  compile_user_schema (some (obj fs)) = collect (compile_fields fs)
  compile_user_schema (some null) = err empty_schema
  compile_user_schema _ = err invalid_json
