-- ===== src/UserSchema/Compile/Declared.antt =====
-- What a compiled schema has of its JSON, userschema/model.
use thunder_fork.Prelude.{
  String, ◌≡◌, ◌==◌, Bool, true, Option, none, some, [], ◌∷◌, arith, refl, eq_iff, subst, inl, inr,
  Bool-cases, ◌∙◌, ap, is_some,
}
use mathlib.Core.Option
use thunder_fork.Prelude.Assoc.{Assoc, lookup, has}
use thunder_fork.Prelude.Result.{Result, ok, err}
use thunder_fork.Prelude.Json.{Json, bool, obj, Fields, end, field, fields}
use thunder_fork.UserSchema.{Property, Properties, property, is_required, validate, attributes}
use thunder_fork.UserSchema.Conforms.{Among, first, later, Attribute, validate_iff}
use thunder_fork.UserSchema.Compile.{
  CompileError, flag, compile_string_property, compile_number_property, compile_boolean_property,
  compile_object_property, compile_array_property, compile_typed, compile_property, compile_fields,
  compile_maps, collect, compile_user_schema, type_name,
}

module _ (compile_regex : String → Option (String → Bool)) where
  string-flag :
      (fs : Assoc Json) (p : Property)
      → compile_string_property compile_regex fs ≡ ok p
      → flag "required" fs ≡ ok (is_required p)
  unfolding compile_string_property
  string-flag fs p h = ground arith

  number-flag :
      (fs : Assoc Json) (p : Property)
      → compile_number_property fs ≡ ok p
      → flag "required" fs ≡ ok (is_required p)
  unfolding compile_number_property
  number-flag fs p h = ground arith

  boolean-flag :
      (fs : Assoc Json) (p : Property)
      → compile_boolean_property fs ≡ ok p
      → flag "required" fs ≡ ok (is_required p)
  unfolding compile_boolean_property
  boolean-flag fs p h = ground arith

  object-flag :
      (fs : Assoc Json) (nested : Assoc (Result CompileError Properties)) (p : Property)
      → compile_object_property fs nested ≡ ok p
      → flag "required" fs ≡ ok (is_required p)
  unfolding compile_object_property
  object-flag fs nested p h = ground arith

  array-flag :
      (fs : Assoc Json) (inner : Assoc (Result CompileError Property)) (p : Property)
      → compile_array_property fs inner ≡ ok p
      → flag "required" fs ≡ ok (is_required p)
  unfolding compile_array_property
  array-flag fs inner p h = ground arith

  compile_typed-flag :
      (type : String) (fs : Assoc Json) (inner : Assoc (Result CompileError Property))
      (nested : Assoc (Result CompileError Properties)) (p : Property)
      → compile_typed compile_regex type fs inner nested ≡ ok p
      → flag "required" fs ≡ ok (is_required p)
  unfolding compile_typed
  compile_typed-flag type fs inner nested p h = ground (
    arith,
    string-flag fs p,
    number-flag fs p,
    boolean-flag fs p,
    object-flag fs nested p,
    array-flag fs inner p,
  )

  compile_property-flag :
      (fs : Fields) (p : Property)
      → compile_property compile_regex (obj fs) ≡ ok p
      → flag "required" (fields fs) ≡ ok (is_required p)
  unfolding compile_property
  compile_property-flag fs p h = by_type (type_name (fields fs)) refl
    where
      by_type :
          (type : Result CompileError String)
          → type_name (fields fs) ≡ type
          → flag "required" (fields fs) ≡ ok (is_required p)
      by_type (err e) q = ground arith
      by_type (ok name) q = ground (
        arith,
        compile_typed-flag name (fields fs) (compile_fields compile_regex fs)
            (compile_maps compile_regex fs) p,
      )

  lookup-compile_fields :
      (fs : Fields) (name : String)
      → lookup name (compile_fields compile_regex fs)
        ≡ Option.map (compile_property compile_regex) (lookup name (fields fs))
  unfolding lookup compile_property
  lookup-compile_fields end name = refl
  lookup-compile_fields (field other w fs) name = ground (arith, lookup-compile_fields fs name)

-- The property that an entry of a map comes to.
abbrev Collected : String → Result CompileError Property → Properties → Type 0
Collected name r schema = (p : Property) × Among name p schema × (r ≡ ok p)

collect-Collected :
    (rs : Assoc (Result CompileError Property)) (schema : Properties) (name : String)
    (r : Result CompileError Property)
    → collect rs ≡ ok schema
    → lookup name rs ≡ some r
    → Collected name r schema
unfolding lookup
collect-Collected [] schema name r h found = cc
collect-Collected ((other, err e) ∷ rs) schema name r h found = cc
collect-Collected ((other, ok q) ∷ rs) schema name r h found =
    by_rest (λ ps c. collect-Collected rs ps name r c) (collect rs) refl
  where
    by_rest :
        ((ps : Properties) → collect rs ≡ ok ps → lookup name rs ≡ some r → Collected name r ps)
        → (rest : Result CompileError Properties) → collect rs ≡ rest
        → Collected name r schema
    by_rest ih (err e) c = absurd (ground arith)
    by_rest ih (ok ps) c =
        let same : property other q ps ≡ schema = ground arith in
        elim (Bool-cases (other == name)) [
          | inl e ↦ (
            q,
            subst (Among name q) same
                (subst (λ n. Among n q (property other q ps)) ((eq_iff other name).0 e) first),
            ground arith,
          )
          | inr e ↦
              let found' : lookup name rs ≡ some r = ground arith in
              let (p, a, eq) = ih ps c found' in (p, subst (Among name p) same (later a), eq)
        ]

module _ (compile_regex : String → Option (String → Bool)) where
  collected :
      (fs : Fields) (schema : Properties) (name : String) (v : Json)
      → collect (compile_fields compile_regex fs) ≡ ok schema
      → lookup name (fields fs) ≡ some v
      → (p : Property) × Among name p schema × (compile_property compile_regex v ≡ ok p)
  collected fs schema name v h found =
      collect-Collected (compile_fields compile_regex fs) schema name
        (compile_property compile_regex v) h
        (lookup-compile_fields compile_regex fs name
          ∙ ap (Option.map (compile_property compile_regex)) found)

  required_present :
      (p : Property) (o : Option Json) → is_required p ≡ true → Attribute p o → is_some o ≡ true
  required_present p none r (Attribute.missing e) = absurd (ground arith)
  required_present p (some v) r a = refl

  -- If a schema compiles, and its JSON defines a property by an object whose field `required` is true,
  -- then attributes, as an object, pass the schema only if they have that property.
  pub required_attribute :
      (fs def : Fields) (schema : Properties) (name : String) (attrs : Assoc Json)
      → compile_user_schema compile_regex (some (obj fs)) ≡ ok schema
      → lookup name (fields fs) ≡ some (obj def)
      → lookup "required" (fields def) ≡ some (bool true)
      → validate schema (attributes attrs) ≡ some true
      → has name attrs ≡ true
  unfolding compile_user_schema lookup flag
  required_attribute end def schema name attrs c found declared valid = cc
  required_attribute (field n v fs) def schema name attrs c found declared valid =
      let (p, a, compiled) = collected (field n v fs) schema name (obj def) c found in
      let required : is_required p ≡ true =
        ground (arith, compile_property-flag compile_regex def p compiled) in
      required_present p (lookup name attrs) required ((validate_iff schema attrs).0 valid name p a)
