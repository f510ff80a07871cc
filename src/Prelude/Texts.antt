-- ===== src/Prelude/Texts.antt =====
-- Texts as Go strings: prefixes, white space, and the characters of `strings.Trim` and `strings.Split`.
use Prim.Native.Nat.{ℕ}
use Prim.Native.Char.{Char, code}
use Prim.Native.String.{String}
use mathlib.Core.Bool.{Bool, false, ◌&&◌, ◌||◌}
use mathlib.Core.List.{List, [], ◌∷◌}
use mathlib.Core.Option.{Option, none, some}
use text.Mathlib.Text.{◌==◌}
use thunder_fork.Prelude.Tests.{eqb, leb, if◌then◌else◌}

-- What follows a literal, if the text begins with it.
unfoldable pub after : String → String → Option String
after String.[] s = some s
after (String.◌∷◌ c literal) String.[] = none
after (String.◌∷◌ c literal) (String.◌∷◌ d s) =
    let rest = after literal s in if eqb (code c) (code d) then rest else none

-- `unicode.IsSpace`, which `strings.TrimSpace` asks.
unfoldable pub is_space : ℕ → Bool
is_space c =
    leb 9 c && leb c 13
    || eqb c 32
    || eqb c 0x85
    || eqb c 0xa0
    || eqb c 0x1680
    || leb 0x2000 c && leb c 0x200a
    || eqb c 0x2028
    || eqb c 0x2029
    || eqb c 0x202f
    || eqb c 0x205f
    || eqb c 0x3000

unfoldable pub trim_left : String → String
trim_left String.[] = ""
trim_left (String.◌∷◌ c s) =
    let rest = trim_left s in if is_space (code c) then rest else String.◌∷◌ c s

unfoldable pub trim_right : String → String
trim_right String.[] = ""
trim_right (String.◌∷◌ c s) =
    let rest = trim_right s in if is_space (code c) && rest == "" then "" else String.◌∷◌ c rest

unfoldable pub trim_space : String → String
unfolding trim_left trim_right is_space
trim_space s = trim_left (trim_right s)

-- `strings.Contains(s, c)` for one character, by its code.
unfoldable pub has_char : ℕ → String → Bool
has_char c String.[] = false
has_char c (String.◌∷◌ d s) = eqb (code d) c || has_char c s

unfoldable pub trim_char_left : ℕ → String → String
trim_char_left c String.[] = ""
trim_char_left c (String.◌∷◌ d s) =
    let rest = trim_char_left c s in if eqb (code d) c then rest else String.◌∷◌ d s

unfoldable pub trim_char_right : ℕ → String → String
trim_char_right c String.[] = ""
trim_char_right c (String.◌∷◌ d s) =
    let rest = trim_char_right c s in if eqb (code d) c && rest == "" then "" else String.◌∷◌ d rest

-- `strings.Trim(s, c)` for one character.
abbrev pub trim_char : ℕ → String → String
trim_char c s = trim_char_left c (trim_char_right c s)

-- A character put before the first of the parts.
abbrev join_char : Char → List String → List String
join_char d [] = String.◌∷◌ d "" ∷ []
join_char d (part ∷ parts) = String.◌∷◌ d part ∷ parts

-- `strings.Split(s, c)` for one character.
unfoldable pub split_on : ℕ → String → List String
split_on c String.[] = "" ∷ []
split_on c (String.◌∷◌ d s) =
    let rest = split_on c s in if eqb (code d) c then "" ∷ rest else join_char d rest
