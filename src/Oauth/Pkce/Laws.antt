-- ===== src/Oauth/Pkce/Laws.antt =====
-- The check of a PKCE challenge and the generation of challenges, backend/internal/oauth/oauth2/pkce/pkce.go.
use Prim.Native.String.{len}
use thunder_fork.Prelude.{
  ◌≤◌, String, ◌≡◌, ◌≢◌, ◌↔◌, ◌⊎◌, refl, true, false, ◌||◌, none, ◌==◌, arith, eq_iff, eq_apart,
  Bool-cases, inl, inr, ap,
}
use thunder_fork.Oauth.{Platform}
use thunder_fork.Oauth.Pkce.{
  ok, plain, s256_method, is_valid_ascii_unreserved, all_runes, validate_code_verifier,
  validate_pkce, generate_code_challenge, default_method,
}

-- The code verifiers of RFC 7636: 43 to 128 unreserved characters.
abbrev pub IsVerifier : String → Type 0
IsVerifier v = (43 ≤ len v) × (len v ≤ 128) × (all_runes is_valid_ascii_unreserved v ≡ true)

-- A text of more than 0 bytes is not the empty one.
long-ne-empty : (v : String) → 43 ≤ len v → (v == "") ≡ false
long-ne-empty v h = elim (Bool-cases (v == "")) [
  | inl e ↦ absurd (omega (arith, ap len ((eq_iff v "").0 e)))
  | inr e ↦ e
]

pub validate_code_verifier_iff : (v : String) → (validate_code_verifier v ≡ none) ↔ IsVerifier v
unfolding validate_code_verifier
validate_code_verifier_iff v = (λ h. ground arith, λ h. ground (arith, long-ne-empty v h.0))

-- The tests on the defaulted method, as tests on the method given.
default_method-eq-plain : (m : String) → (default_method m == plain) ≡ (m == "" || m == plain)
unfolding default_method
default_method-eq-plain m = elim (Bool-cases (m == "")) [ inl e ↦ rw e | inr e ↦ rw e ]

default_method-eq-s256 : (m : String) → (default_method m == s256_method) ≡ (m == s256_method)
unfolding default_method
default_method-eq-s256 m = elim (Bool-cases (m == "")) [
  | inl e ↦ rw ((eq_iff m "").0 e)
  | inr e ↦ rw e
]

module _ (platform : Platform) where
  -- The PKCE check passes exactly if the verifier is one of RFC 7636, the challenge is not empty,
  -- and either the method is plain (or not given) and the challenge is the verifier, or the method
  -- is S256 and the challenge is the hash of the verifier.
  pub validate_pkce_iff :
      (challenge method verifier : String)
      → (validate_pkce platform challenge method verifier ≡ none) ↔ (
          IsVerifier verifier
          × (challenge ≢ "")
          × (((method ≡ "") ⊎ (method ≡ plain)) × (challenge ≡ verifier)
              ⊎ (method ≡ s256_method) × (challenge ≡ platform.s256 verifier)))
  unfolding validate_pkce
  validate_pkce_iff challenge method verifier = (
    λ h. (
      (validate_code_verifier_iff verifier).0 (ground arith),
      λ e. ground (arith, eq_iff challenge ""),
      ground (
        arith,
        default_method-eq-plain method,
        default_method-eq-s256 method,
        eq_apart method plain s256_method refl,
        eq_apart method "" s256_method refl,
        eq_iff method "",
        eq_iff method plain,
        eq_iff method s256_method,
        eq_iff challenge verifier,
        eq_iff challenge (platform.s256 verifier),
      ),
    ),
    λ h. ground (
      arith,
      default_method-eq-plain method,
      default_method-eq-s256 method,
      eq_apart method plain s256_method refl,
      eq_apart method "" s256_method refl,
      eq_iff method "",
      eq_iff method plain,
      eq_iff method s256_method,
      eq_iff challenge "",
      eq_iff challenge verifier,
      eq_iff challenge (platform.s256 verifier),
      (validate_code_verifier_iff verifier).1 h.0,
      h.1,
      h.2,
    ),
  )

  -- A challenge that was generated from a verifier passes the check with that verifier, provided
  -- that every hash, in its encoding, has 43 bytes.
  pub generated_challenge_validates :
      (method verifier challenge : String)
      → ((v : String) → len (platform.s256 v) ≡ 43)
      → generate_code_challenge platform verifier method ≡ ok challenge
      → validate_pkce platform challenge method verifier ≡ none
  unfolding generate_code_challenge validate_pkce
  generated_challenge_validates method verifier challenge hashed h = ground (
    arith,
    default_method-eq-plain method,
    default_method-eq-s256 method,
    eq_apart method plain s256_method refl,
    eq_apart method "" s256_method refl,
    eq_iff method plain,
    eq_iff method s256_method,
    eq_iff challenge verifier,
    eq_iff challenge (platform.s256 verifier),
    hashed verifier,
    long-ne-empty verifier,
    long-ne-empty (platform.s256 verifier),
    (validate_code_verifier_iff verifier).0,
  )

  -- The check never passes with an empty verifier.
  pub validate_pkce-empty :
      (challenge method verifier : String)
      → validate_pkce platform challenge method verifier ≡ none
      → (verifier == "") ≡ false
  validate_pkce-empty challenge method verifier h =
      long-ne-empty verifier (((validate_pkce_iff challenge method verifier).0 h).0).0
