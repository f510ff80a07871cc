-- ===== src/Prelude/Assoc.antt =====
-- A Go map with text keys, as an association list: reading, writing, `delete`. The order of the
-- pairs stands for nothing; a key that is written twice keeps its place.
use Prim.Native.Nat.{suc, ◌≤◌}
use Prim.Native.String.{String}
use mathlib.Core.Path.{◌≡◌, refl}
use mathlib.Core.Bool.{Bool, false}
use mathlib.Core.Option.{Option, none, some}
use mathlib.Core.List.{List, [], ◌∷◌}
use native.Mathlib.Omega.{arith}
use text.Mathlib.Text.{◌==◌}
use text.Mathlib.TextEquality.{eq_iff}
use thunder_fork.Prelude.Tests.{if◌then◌else◌, is_some}
use thunder_fork.Prelude.Lists.{length}

abbrev pub Assoc {ℓ} : Type ℓ → Type ℓ
Assoc V = List (String × V)

module _ {ℓ} {V : Type ℓ} where
  unfoldable pub lookup : String → Assoc V → Option V
  lookup key [] = none
  lookup key ((name, x) ∷ pairs) =
      let later = lookup key pairs in if name == key then some x else later

  abbrev pub has : String → Assoc V → Bool
  has key pairs = is_some (lookup key pairs)

  unfoldable pub insert : String → V → Assoc V → Assoc V
  insert key x [] = (key, x) ∷ []
  insert key x ((name, y) ∷ pairs) =
      let rest = (name, y) ∷ insert key x pairs in if name == key then (key, x) ∷ pairs else rest

  unfoldable pub without : String → Assoc V → Assoc V
  without key [] = []
  without key ((name, y) ∷ pairs) =
      let rest = without key pairs in if name == key then rest else (name, y) ∷ rest

  -- No key stands in the list twice.
  abbrev pub UniqueKeys : Assoc V → Type 0
  UniqueKeys [] = Unit {0}
  UniqueKeys ((j, v) ∷ m) = (has j m ≡ false) × UniqueKeys m

  pub lookup-insert :
      (key other : String) (x : V) (pairs : Assoc V)
      → lookup other (insert key x pairs) ≡ (if key == other then some x else lookup other pairs)
  unfolding insert lookup
  lookup-insert key other x [] = refl
  lookup-insert key other x ((name, y) ∷ pairs) =
      ground (
        arith,
        lookup-insert key other x pairs,
        eq_iff key other,
        eq_iff name key,
        eq_iff name other,
      )

  pub lookup-without :
      (key other : String) (pairs : Assoc V)
      → lookup other (without key pairs) ≡ (if key == other then none else lookup other pairs)
  unfolding without lookup
  lookup-without key other [] = ground arith
  lookup-without key other ((name, y) ∷ pairs) =
      ground (
        arith,
        eq_iff key other,
        eq_iff name key,
        eq_iff name other,
        lookup-without key other pairs,
      )

  pub UniqueKeys-insert :
      (k : String) (v : V) (m : Assoc V) → UniqueKeys m → UniqueKeys (insert k v m)
  unfolding lookup insert
  UniqueKeys-insert k v [] h = (refl, tt)
  UniqueKeys-insert k v ((j, w) ∷ m) h =
      ground (arith, UniqueKeys-insert k v m h.1, lookup-insert k j v m, eq_iff j k, eq_iff k j)

  pub UniqueKeys-without : (k : String) (m : Assoc V) → UniqueKeys m → UniqueKeys (without k m)
  unfolding without
  UniqueKeys-without k [] h = tt
  UniqueKeys-without k ((j, v) ∷ m) h =
      ground (arith, UniqueKeys-without k m h.1, lookup-without k j m, eq_iff j k, eq_iff k j)

  pub without-absent : (k : String) (m : Assoc V) → has k m ≡ false → without k m ≡ m
  unfolding lookup without
  without-absent k [] h = refl
  without-absent k ((j, v) ∷ m) h = ground (arith, without-absent k m)

  pub length-without :
      (k : String) (m : Assoc V)
      → UniqueKeys m
      → length m ≡ (if has k m then suc (length (without k m)) else length (without k m))
  unfolding lookup without
  length-without k [] h = refl
  length-without k ((j, v) ∷ m) h =
      ground (arith, length-without k m h.1, eq_iff j k, without-absent k m)

  pub length-insert :
      (k : String) (v : V) (m : Assoc V)
      → length (insert k v m) ≡ (if has k m then length m else suc (length m))
  unfolding lookup insert
  length-insert k v [] = refl
  length-insert k v ((j, w) ∷ m) = ground (arith, length-insert k v m)

  -- A map that holds no key is empty.
  pub eq_nil_of_lookup : (m : Assoc V) → ((k : String) → lookup k m ≡ none) → m ≡ []
  unfolding lookup
  eq_nil_of_lookup [] h = refl
  eq_nil_of_lookup ((k, v) ∷ m) h = ground (arith, h k, eq_iff k k)

  pub length-without-le : (k : String) (m : Assoc V) → length (without k m) ≤ length m
  unfolding without
  length-without-le k [] = omega arith
  length-without-le k ((j, v) ∷ m) = ground (arith, length-without-le k m)
