-- ===== src/Oauth/Exchange/Narrow.antt =====
-- What a token exchange can give away, granthandlers/token_exchange.go, and which tokens it trusts,
-- tokenservice/validator.go.
use thunder_fork.Prelude.{
  ℕ, ◌≤◌, String, ◌≡◌, ◌⊎◌, Bool, true, false, Option, none, some, List, [], ◌∷◌, ◌==◌, arith, refl,
  eq_iff, contains,
}
use thunder_fork.Prelude.Int.{ℤ, pos, ◌<ℤ◌, ◌≤ℤ◌, int64_bound, int64_of_number}
use thunder_fork.Prelude.Assoc.{Assoc, lookup}
use thunder_fork.Prelude.Result.{Result, ok, err}
use thunder_fork.Oauth.{Claim, value, number, ErrorResponse}
use thunder_fork.Oauth.App.{OauthApp}
use thunder_fork.Oauth.Scopes.{parse_scopes}
use thunder_fork.Oauth.Tokens.{access, Settings, resolve_token_config}
use thunder_fork.Oauth.Tokens.Service.{extract_string_claim, extract_int64_claim}
use thunder_fork.Oauth.CodeGrant.{TokenRequest, TokenResponse}
use thunder_fork.Oauth.Exchange.{
  TokenFault, SubjectTokenClaims, is_auth_assertion, validate_time_claims, validate_issuer,
  verify_token_signature_by_issuer, audience_of, validate_claims, validate_subject_token,
  held_scopes, get_scopes, ExchangeServices, actor_of, subject_of, exchange_context, handle_grant,
}

-- What is known of a token that the validator accepts at the instant `now`.
pub record IsTrusted (settings : Settings) (verify_signature : String → Bool) (now : ℕ)
    (default_audience : String) (app : OauthApp) (token : String) (payload : Assoc Claim)
    (claims : SubjectTokenClaims) : Type 0 where
  pub signed : verify_signature token ≡ true
  pub issuer : claims.iss ≡ (resolve_token_config settings app access).issuer
  pub issued_so : extract_string_claim payload "iss" ≡ some claims.iss
  pub subject : extract_string_claim payload "sub" ≡ some claims.sub
  pub expiry : (exp : ℤ) × (extract_int64_claim payload "exp" ≡ some exp) × (pos now <ℤ exp)
  pub begun : (nbf : ℤ) → extract_int64_claim payload "nbf" ≡ some nbf → nbf ≤ℤ pos now
  pub begun_number :
      (nbf : ℕ)
      → lookup "nbf" payload ≡ some (value (number nbf))
      → (nbf ≤ now) ⊎ (int64_bound ≤ nbf)
  pub asserted :
      is_auth_assertion payload ≡ true → (claims.aud ≡ default_audience) ⊎ (claims.aud ≡ app.app_id)

time_claims :
    (now : ℕ) (payload : Assoc Claim)
    → validate_time_claims now payload ≡ none
    → ((exp : ℤ) × (extract_int64_claim payload "exp" ≡ some exp) × (pos now <ℤ exp))
      × ((nbf : ℤ) → extract_int64_claim payload "nbf" ≡ some nbf → nbf ≤ℤ pos now)
unfolding validate_time_claims
time_claims now payload h = (by_exp (extract_int64_claim payload "exp") refl, λ nbf e. ground arith)
  where
    by_exp :
        (o : Option ℤ)
        → extract_int64_claim payload "exp" ≡ o
        → (exp : ℤ) × (extract_int64_claim payload "exp" ≡ some exp) × (pos now <ℤ exp)
    by_exp none e = absurd (ground arith)
    by_exp (some exp) e = (exp, e, ground arith)

-- A beginning that a number states, in the present or before unless no int64 holds it.
begun_as_number :
    (now nbf : ℕ) (payload : Assoc Claim)
    → ((m : ℤ) → extract_int64_claim payload "nbf" ≡ some m → m ≤ℤ pos now)
    → lookup "nbf" payload ≡ some (value (number nbf))
    → (nbf ≤ now) ⊎ (int64_bound ≤ nbf)
unfolding extract_int64_claim int64_of_number
begun_as_number now nbf payload begun h =
    ground (arith, begun (int64_of_number nbf) (ground (arith, h)))

audience_of-asserted :
    (default_audience : String) (app : OauthApp) (payload : Assoc Claim) (aud : String)
    → audience_of default_audience app payload ≡ ok aud
    → is_auth_assertion payload ≡ true
    → (aud ≡ default_audience) ⊎ (aud ≡ app.app_id)
unfolding audience_of
audience_of-asserted default_audience app payload aud h assertion =
    by_aud (extract_string_claim payload "aud") refl
  where
    by_aud :
        (o : Option String)
        → extract_string_claim payload "aud" ≡ o
        → (aud ≡ default_audience) ⊎ (aud ≡ app.app_id)
    by_aud none e = absurd (ground arith)
    by_aud (some a) e = ground (arith, eq_iff a default_audience, eq_iff a app.app_id)

module _ (settings : Settings) (verify_signature : String → Bool) where
  validated_claims :
      (now : ℕ) (default_audience : String) (app : OauthApp) (token : String)
      (payload : Assoc Claim) (claims : SubjectTokenClaims)
      → validate_claims settings verify_signature now default_audience app token payload ≡ ok claims
      → (extract_string_claim payload "iss" ≡ some claims.iss)
        × (extract_string_claim payload "sub" ≡ some claims.sub)
        × (validate_issuer settings verify_signature claims.iss app ≡ true)
        × (verify_token_signature_by_issuer settings verify_signature token claims.iss app ≡ true)
        × (validate_time_claims now payload ≡ none)
        × (audience_of default_audience app payload ≡ ok claims.aud)
  unfolding validate_claims
  validated_claims now default_audience app token payload claims h = ground arith

  -- A token that the validator accepts has a signature that was verified, the issuer of the
  -- application, a subject, an expiry whose int64 lies after the present, and no beginning whose int64 is
  -- later; a beginning that is a natural number is not later than the present, unless it is 2 ^ 63 or
  -- more, which no int64 holds; if the token is an assertion, its audience is the server's or the
  -- application itself.
  pub validate_subject_token-IsTrusted :
      (decode_payload : String → Option (Assoc Claim)) (now : ℕ) (default_audience : String)
      (app : OauthApp) (token : String) (claims : SubjectTokenClaims)
      → validate_subject_token settings verify_signature decode_payload now default_audience app
          token
        ≡ ok claims
      → (payload : Assoc Claim) × (decode_payload token ≡ some payload)
        × IsTrusted settings verify_signature now default_audience app token payload claims
  unfolding validate_subject_token validate_issuer verify_token_signature_by_issuer
  validate_subject_token-IsTrusted decode_payload now default_audience app token claims h =
      by_payload (decode_payload token) refl
    where
      by_payload :
          (o : Option (Assoc Claim))
          → decode_payload token ≡ o
          → (payload : Assoc Claim) × (decode_payload token ≡ some payload)
            × IsTrusted settings verify_signature now default_audience app token payload claims
      by_payload none e = absurd (ground arith)
      by_payload (some payload) e =
          let (iss, sub, issuer, signed, time, aud) =
            validated_claims now default_audience app token payload claims (ground arith) in
          let (expiry, begun) = time_claims now payload time in
          (
            payload,
            e,
            record {
              signed = ground arith;
              issuer =
                  (eq_iff claims.iss (resolve_token_config settings app access).issuer).0 issuer;
              issued_so = iss;
              subject = sub;
              expiry = expiry;
              begun = begun;
              begun_number = λ nbf. begun_as_number now nbf payload begun;
              asserted = audience_of-asserted default_audience app payload claims.aud aud;
            },
          )

contains-held_scopes :
    (held requested : List String) (scope : String)
    → contains scope (held_scopes held requested) ≡ true
    → contains scope held ≡ true
unfolding held_scopes contains
contains-held_scopes held [] scope h = cc
contains-held_scopes held (s ∷ requested) scope h =
    ground (arith, contains-held_scopes held requested scope, eq_iff s scope)

get_scopes-held :
    (requested : String) (held scopes : List String) (scope : String)
    → get_scopes requested held ≡ ok scopes
    → contains scope scopes ≡ true
    → contains scope held ≡ true
unfolding get_scopes contains
get_scopes-held requested held scopes scope h c =
    ground (arith, contains-held_scopes held (parse_scopes requested) scope)

module _ (services : ExchangeServices) where
  -- What an exchange that succeeds rests on, and what it asks the builder for.
  pub record IsExchanged (request : TokenRequest) (app : OauthApp) (response : TokenResponse)
      : Type 0 where
    pub subject : SubjectTokenClaims
    pub actor : Option SubjectTokenClaims
    pub scopes : List String
    pub valid : services.validate app request.subject_token ≡ ok subject
    pub actor_valid :
        (request.actor_token == "") ≡ false
        → (claims : SubjectTokenClaims) × (services.validate app request.actor_token ≡ ok claims)
          × (actor ≡ some claims)
    pub no_actor : request.actor_token ≡ "" → actor ≡ none
    pub narrowed :
        (scope : String) → contains scope scopes ≡ true → contains scope subject.scopes ≡ true
    pub built :
        services.build app (exchange_context services request subject actor scopes)
        ≡ some response.access_token

  actor_of-valid :
      (app : OauthApp) (token : String) (actor : Option SubjectTokenClaims)
      → actor_of services app token ≡ ok actor
      → (token == "") ≡ false
      → (claims : SubjectTokenClaims) × (services.validate app token ≡ ok claims)
        × (actor ≡ some claims)
  unfolding actor_of
  actor_of-valid app token actor h n = by_claims (services.validate app token) refl
    where
      by_claims :
          (r : Result TokenFault SubjectTokenClaims)
          → services.validate app token ≡ r
          → (claims : SubjectTokenClaims) × (services.validate app token ≡ ok claims)
            × (actor ≡ some claims)
      by_claims (err e) q = absurd (ground arith)
      by_claims (ok claims) q = (claims, q, ground arith)

  -- A token exchange that succeeds was asked for with a subject token that the validator accepts and,
  -- where it names an actor, an actor token that it accepts. The access token is built for the subject
  -- of that token and its attributes, with the actor's claims if there is one, and with no scope that
  -- the subject token does not hold.
  pub exchange_narrows :
      (request : TokenRequest) (app : OauthApp) (response : TokenResponse)
      → handle_grant services request app ≡ ok response
      → IsExchanged request app response
  unfolding handle_grant subject_of
  exchange_narrows request app response h =
      by_subject (services.validate app request.subject_token) refl
    where
      by_subject :
          (r : Result TokenFault SubjectTokenClaims)
          → services.validate app request.subject_token ≡ r
          → IsExchanged request app response
      by_subject (err e) q = absurd (ground arith)
      by_subject (ok subject) q = by_actor (actor_of services app request.actor_token) refl
        where
          by_actor :
              (r : Result ErrorResponse (Option SubjectTokenClaims))
              → actor_of services app request.actor_token ≡ r
              → IsExchanged request app response
          by_actor (err e) a = absurd (ground arith)
          by_actor (ok actor) a = by_scopes (get_scopes request.scope subject.scopes) refl
            where
              by_scopes :
                  (r : Result ErrorResponse (List String))
                  → get_scopes request.scope subject.scopes ≡ r
                  → IsExchanged request app response
              by_scopes (err e) s = absurd (ground arith)
              by_scopes (ok scopes) s = record {
                subject = subject;
                actor = actor;
                scopes = scopes;
                valid = q;
                actor_valid = actor_of-valid app request.actor_token actor a;
                no_actor = λ e. unfold actor_of in ground (arith, eq_iff request.actor_token "");
                narrowed = λ scope c. get_scopes-held request.scope subject.scopes scopes scope s c;
                built = ground arith;
              }
