-- ===== src/Flow/Placeholder.antt =====
-- Placeholders in the condition of a node, backend/internal/flow/core/utils.go: the pattern
-- `{{\s*context\.\s*(\w+)\s*}}`, as a matcher, and its replacement.
use Prim.Native.Char.{Char, code}
use Prim.Native.String.{◌++◌}
use thunder_fork.Prelude.{
  ℕ, zero, suc, ◌-◌, String, Bool, not, ◌&&◌, ◌||◌, Option, none, some, ◌==◌, leb, eqb,
  if◌then◌else◌,
}
use thunder_fork.Prelude.Texts.{after}
use thunder_fork.Prelude.Assoc.{lookup}
use thunder_fork.Flow.{NodeContext, text_or_empty}

-- `\s`
abbrev is_blank : Char → Bool
is_blank c =
    eqb (code c) 32 || eqb (code c) 9 || eqb (code c) 10 || eqb (code c) 12 || eqb (code c) 13

-- `\w`
abbrev is_word : Char → Bool
is_word c =
    leb 48 (code c) && leb (code c) 57
    || leb 65 (code c) && leb (code c) 90
    || eqb (code c) 95
    || leb 97 (code c) && leb (code c) 122

unfoldable pub skip_blanks : String → String
skip_blanks String.[] = ""
skip_blanks (String.◌∷◌ c s) =
    let rest = skip_blanks s in if is_blank c then rest else String.◌∷◌ c s

-- The longest word at the beginning of a text, and what follows it.
unfoldable pub word : String → String × String
word String.[] = ("", "")
word (String.◌∷◌ c s) =
    let (w, rest) = word s in if is_word c then (String.◌∷◌ c w, rest) else ("", String.◌∷◌ c s)

abbrev and_then : Option String → (String → Option (String × String)) → Option (String × String)
and_then none f = none
and_then (some s) f = f s

abbrev with_key : String → Option String → Option (String × String)
with_key key none = none
with_key key (some rest) = some (key, rest)

-- The match at the beginning of a text: the key, and what follows the match.
unfoldable pub match_placeholder : String → Option (String × String)
unfolding after skip_blanks word
match_placeholder s = and_then (after "{{" s) (λ s1.
    and_then (after "context." (skip_blanks s1)) (λ s2.
      let (key, s3) = word (skip_blanks s2) in
      if key == "" then none else with_key key (after "}}" (skip_blanks s3))))

abbrev length_of : String → ℕ
length_of String.[] = 0
length_of (String.◌∷◌ c s) = suc (length_of s)

-- The value of a key, which is none where the placeholder stays.
unfoldable pub resolve_key : NodeContext → String → Option String
resolve_key ctx key =
    if key == "userID"
    then (if not (ctx.authenticated_user.user_id == "")
        then some ctx.authenticated_user.user_id
        else if not (text_or_empty (lookup "userID" ctx.runtime_data) == "")
        then lookup "userID" ctx.runtime_data
        else none)
    else if not (text_or_empty (lookup key ctx.runtime_data) == "")
    then lookup key ctx.runtime_data
    else if not (text_or_empty (lookup key ctx.user_input_data) == "")
    then lookup key ctx.user_input_data
    else none

abbrev take_chars : ℕ → String → String
take_chars zero s = ""
take_chars (suc n) String.[] = ""
take_chars (suc n) (String.◌∷◌ c s) = String.◌∷◌ c (take_chars n s)

abbrev value_or : String → Option String → String
value_or s none = s
value_or s (some v) = v

-- `ReplaceAllStringFunc`: the first argument counts the characters that a match has used up.
unfoldable pub replace_from : NodeContext → ℕ → String → String
unfolding match_placeholder resolve_key
replace_from ctx n String.[] = ""
replace_from ctx (suc n) (String.◌∷◌ c s) = replace_from ctx n s
replace_from ctx zero (String.◌∷◌ c s) =
    let rest = String.◌∷◌ c (replace_from ctx zero s) in
    elim (match_placeholder (String.◌∷◌ c s)) [
      | none ↦ rest
      | some (key, tail) ↦
          (let used = suc (length_of s) - length_of tail in
            value_or (take_chars used (String.◌∷◌ c s)) (resolve_key ctx key)
            ++ replace_from ctx (used - 1) s)
    ]

unfoldable pub resolve_placeholder : NodeContext → String → String
unfolding replace_from
resolve_placeholder ctx s = replace_from ctx 0 s
