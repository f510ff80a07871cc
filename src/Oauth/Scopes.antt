-- ===== src/Oauth/Scopes.antt =====
-- Scopes, ParseScopes and JoinScopes of backend/internal/oauth/oauth2/tokenservice/utils.go.
pub mod Laws
use Prim.Native.Char.{Char, code}
use Prim.Native.String.{◌++◌}
use thunder_fork.Prelude.Texts.{trim_space}
use thunder_fork.Prelude.{
  ℕ, String, Bool, true, false, ◌&&◌, ◌||◌, List, [], ◌∷◌, ◌==◌, leb, eqb, if◌then◌else◌,
}

-- A character put before the first of the parts.
abbrev pub push_char : Char → List String → List String
push_char c [] = String.◌∷◌ c "" ∷ []
push_char c (part ∷ parts) = String.◌∷◌ c part ∷ parts

-- `strings.Split(s, " ")`
unfoldable pub split : String → List String
split String.[] = "" ∷ []
split (String.◌∷◌ c s) = if eqb (code c) 32 then "" ∷ split s else push_char c (split s)

-- The loop that leaves out the empty parts.
unfoldable pub keep_nonempty : List String → List String
keep_nonempty [] = []
keep_nonempty (part ∷ parts) =
    let rest = keep_nonempty parts in if part == "" then rest else part ∷ rest

unfoldable pub parse_scopes : String → List String
parse_scopes scope_string =
    let trimmed = trim_space scope_string in
    if trimmed == "" then [] else keep_nonempty (split trimmed)

-- `strings.Join(scopes, " ")`
unfoldable pub join_scopes : List String → String
join_scopes [] = ""
join_scopes (scope ∷ []) = scope
join_scopes (scope ∷ other ∷ scopes) = scope ++ String.◌∷◌ " " (join_scopes (other ∷ scopes))
