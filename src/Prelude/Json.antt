-- ===== src/Prelude/Json.antt =====
-- JSON as Go's encoding/json reads it into `interface{}`, `map[string]json.RawMessage` and the like.
--
-- A number is the 64 bits of its float64, so that two numbers are equal for Go if their bits are, or if
-- both are zeros; JSON has no NaN. The names of an object's fields are taken to be distinct.
use Prim.Native.Nat.{ℕ, ◌^◌}
use Prim.Native.String.{String}
use mathlib.Core.Bool.{Bool, ◌&&◌, ◌||◌}
use mathlib.Core.List.{List, [], ◌∷◌}
use thunder_fork.Prelude.Tests.{eqb}
use thunder_fork.Prelude.Assoc.{Assoc}

mutual
  pub data Json : Type 0 where
    null : Json
    bool : Bool → Json
    num : ℕ → Json
    str : String → Json
    arr : Items → Json
    obj : Fields → Json

  pub data Items : Type 0 where
    nil : Items
    cons : Json → Items → Items

  pub data Fields : Type 0 where
    end : Fields
    field : String → Json → Fields → Fields

abbrev pub items : Items → List Json
items nil = []
items (cons v vs) = v ∷ items vs

abbrev pub fields : Fields → Assoc Json
fields end = []
fields (field name v fs) = (name, v) ∷ fields fs

-- The bits of 0 and of -0.
abbrev is_zero : ℕ → Bool
is_zero n = eqb n 0 || eqb n (2 ^ 63)

-- `==` on float64 that are no NaN.
abbrev pub same_number : ℕ → ℕ → Bool
same_number m n = eqb m n || is_zero m && is_zero n
