-- ===== src/Oauth/Scopes/Laws.antt =====
-- Scopes that are joined and parsed again.
use Prim.Native.Char.{Char, code}
use Prim.Native.String.{◌++◌}
use Prim.Native.String.compare
use text.Mathlib.Text.{is_eq}
use text.Mathlib.TextLemmas.{nil-append, cons-append, append-nil}
use thunder_fork.Prelude.{
  ℕ, String, ◌≡◌, false, List, [], ◌∷◌, ◌==◌, eqb, arith, refl, ap, subst, ◌∙◌, All,
}
use thunder_fork.Oauth.Scopes.{split, keep_nonempty, parse_scopes, join_scopes}
use thunder_fork.Prelude.Texts.{is_space, trim_left, trim_right, trim_space}

-- No character of a text is a white space.
abbrev pub HasNoSpace : String → Type 0
HasNoSpace String.[] = Unit {0}
HasNoSpace (String.◌∷◌ c s) = (is_space (code c) ≡ false) × HasNoSpace s

-- A scope: a text that is not empty, with no white space.
abbrev pub IsScope : String → Type 0
IsScope s = ((s == "") ≡ false) × HasNoSpace s

is_space-32 : (n : ℕ) → is_space n ≡ false → eqb n 32 ≡ false
unfolding is_space
is_space-32 n h = ground (arith, h)

split-word : (s : String) → HasNoSpace s → split s ≡ s ∷ []
unfolding split
split-word String.[] h = refl
split-word (String.◌∷◌ c s) (h, hs) = ground (arith, is_space-32 (code c) h, split-word s hs)

split-append : (s rest : String) → HasNoSpace s → split (s ++ String.◌∷◌ " " rest) ≡ s ∷ split rest
unfolding split
split-append String.[] rest h = simp nil-append
split-append (String.◌∷◌ c s) rest (h, hs) =
    simp (cons-append, is_space-32 (code c) h, split-append s rest hs)

keep_nonempty-split-join_scopes :
    (scope : String) (scopes : List String)
    → All IsScope (scope ∷ scopes)
    → keep_nonempty (split (join_scopes (scope ∷ scopes))) ≡ scope ∷ scopes
unfolding join_scopes keep_nonempty
keep_nonempty-split-join_scopes scope [] ((n, h), hs) =
    ap keep_nonempty (split-word scope h) ∙ ground (arith, n)
keep_nonempty-split-join_scopes scope (other ∷ scopes) ((n, h), hs) =
    ap keep_nonempty (split-append scope (join_scopes (other ∷ scopes)) h)
    ∙ ground (arith, n, keep_nonempty-split-join_scopes other scopes hs)

-- A text that does not end in a white space.
abbrev IsTrimmed : String → Type 0
IsTrimmed s = trim_right s ≡ s

word-IsTrimmed : (s : String) → HasNoSpace s → IsTrimmed s
unfolding trim_right
word-IsTrimmed String.[] h = refl
word-IsTrimmed (String.◌∷◌ c s) (h, hs) = ground (arith, h, word-IsTrimmed s hs)

cons_not_empty : (c : Char) (s : String) → (String.◌∷◌ c s == "") ≡ false
cons_not_empty c s = ap is_eq (compare.cons-nil c s)

append_not_empty : (s t : String) → (t == "") ≡ false → ((s ++ t) == "") ≡ false
append_not_empty String.[] t h = simp nil-append h
append_not_empty (String.◌∷◌ c s) t h = simp cons-append (cons_not_empty c (s ++ t))

append-IsTrimmed : (s t : String) → (t == "") ≡ false → IsTrimmed t → IsTrimmed (s ++ t)
unfolding trim_right
append-IsTrimmed String.[] t h e = simp nil-append e
append-IsTrimmed (String.◌∷◌ c s) t h e =
    ground (arith, cons-append c s t, append_not_empty s t h, append-IsTrimmed s t h e)

space-IsTrimmed : (s : String) → (s == "") ≡ false → IsTrimmed s → IsTrimmed (String.◌∷◌ " " s)
unfolding trim_right is_space
space-IsTrimmed s h e = simp (e, h)

pub join_scopes-not_empty :
    (scope : String) (scopes : List String)
    → All IsScope (scope ∷ scopes)
    → (join_scopes (scope ∷ scopes) == "") ≡ false
unfolding join_scopes
join_scopes-not_empty scope [] ((n, h), hs) = n
join_scopes-not_empty scope (other ∷ scopes) ((n, h), hs) =
    append_not_empty scope _ (cons_not_empty " " (join_scopes (other ∷ scopes)))

join_scopes-IsTrimmed :
    (scope : String) (scopes : List String)
    → All IsScope (scope ∷ scopes)
    → IsTrimmed (join_scopes (scope ∷ scopes))
unfolding join_scopes
join_scopes-IsTrimmed scope [] ((n, h), hs) = word-IsTrimmed scope h
join_scopes-IsTrimmed scope (other ∷ scopes) ((n, h), hs) =
    let rest = join_scopes-not_empty other scopes hs in
    append-IsTrimmed scope _ (cons_not_empty " " (join_scopes (other ∷ scopes)))
      (space-IsTrimmed (join_scopes (other ∷ scopes)) rest (join_scopes-IsTrimmed other scopes hs))

trim_left-append : (s t : String) → IsScope s → trim_left (s ++ t) ≡ s ++ t
unfolding trim_left
trim_left-append String.[] t (n, h) = cc n
trim_left-append (String.◌∷◌ c s) t (n, (h, hs)) = ground (arith, cons-append c s t, h)

trim_left-join_scopes :
    (scope : String) (scopes : List String)
    → All IsScope (scope ∷ scopes)
    → trim_left (join_scopes (scope ∷ scopes)) ≡ join_scopes (scope ∷ scopes)
unfolding join_scopes
trim_left-join_scopes scope [] (h, hs) =
    subst (λ s. trim_left s ≡ s) (append-nil scope) (trim_left-append scope "" h)
trim_left-join_scopes scope (other ∷ scopes) (h, hs) =
    trim_left-append scope (String.◌∷◌ " " (join_scopes (other ∷ scopes))) h

-- Scopes that are joined and parsed are the same scopes, if each is a text without white space, and
-- not the empty one.
pub parse_scopes-join_scopes :
    (scopes : List String) → All IsScope scopes → parse_scopes (join_scopes scopes) ≡ scopes
unfolding parse_scopes trim_space trim_left trim_right join_scopes
parse_scopes-join_scopes [] h = refl
parse_scopes-join_scopes (scope ∷ scopes) h =
    let same : trim_space (join_scopes (scope ∷ scopes)) ≡ join_scopes (scope ∷ scopes) =
      ap trim_left (join_scopes-IsTrimmed scope scopes h) ∙ trim_left-join_scopes scope scopes h in
    ground (
      arith,
      same,
      join_scopes-not_empty scope scopes h,
      keep_nonempty-split-join_scopes scope scopes h,
    )
