-- ===== src/Auth/Laws.antt =====
-- Who gets an identity from a bearer token (internal/auth/auth.go).
use minerals.Base.{
  String, true, Option, none, some, ◌≡◌, ◌≢◌, refl, ap, ◌∙◌, arith, eq_iff, trim_space,
  Option-cases, inl, inr,
}
use minerals.Uuid.{Uuid}
use minerals.Auth.{
  User, Claims, after_prefix, bearer_token, served, user_from_claims, verified, auth, optional_auth,
  require_user,
}

-- The prefix in capitals and small letters, or any other spelling, is matched and cut off.
bearer_token-eq-trim :
    (header rest : String)
    → after_prefix "bearer " header ≡ some rest
    → trim_space rest ≢ ""
    → bearer_token header ≡ some (trim_space rest)
unfolding bearer_token
bearer_token-eq-trim header rest e ne = ground (arith, e, eq_iff (trim_space rest) "", ne)

module _ (parse_uuid : String → Option Uuid) where
  verified-served :
      (verify : String → Option Claims) (tok : String) (u : User)
      → verified parse_uuid verify tok ≡ served u
      → (claims : Claims) × (verify tok ≡ some claims) × (u ≡ user_from_claims parse_uuid claims)
  unfolding verified
  verified-served verify tok u h = elim (Option-cases (verify tok)) [
    | inl bad ↦ absurd (ground (arith, bad, h))
    | inr (claims, e) ↦ (claims, e, ground (arith, e, h))
  ]

  -- With a verifier, a request passes the bearer middleware only under the identity of the claims that
  -- the verifier found in the token of its header.
  pub auth-served :
      (verify : String → Option Claims) (header : String) (u : User)
      → auth parse_uuid (some verify) header ≡ served u
      → (tok : String) × (claims : Claims) × (bearer_token header ≡ some tok)
        × (verify tok ≡ some claims)
        × (u ≡ user_from_claims parse_uuid claims)
  unfolding auth
  auth-served verify header u h = elim (Option-cases (bearer_token header)) [
    | inl bad ↦ absurd (ground (arith, bad, h))
    | inr (tok, e) ↦
        let (claims, f, same) = verified-served verify tok u (ground (arith, e, h)) in
        (tok, claims, e, f, same)
  ]

  -- The optional middleware is the strict one for every request that brings a token, good or bad; one
  -- that brings none keeps the identity that it has.
  pub optional_auth-eq-auth :
      (verify : String → Option Claims) (current : User) (header : String)
      → optional_auth parse_uuid (some verify) current header ≡ elim (bearer_token header) [
        | none ↦ served current
        | some tok ↦ auth parse_uuid (some verify) header
      ]
  unfolding auth optional_auth
  optional_auth-eq-auth verify current header = elim (Option-cases (bearer_token header)) [
    | inl e ↦ ground (arith, e)
    | inr (tok, e) ↦ ground (arith, e)
  ]

  sub-user_from_claims : (c : Claims) → (user_from_claims parse_uuid c).sub ≡ c.subject
  unfolding user_from_claims
  sub-user_from_claims c = elim (Option-cases (parse_uuid c.subject)) [
    | inl e ↦ rw (e, user_from_claims) refl
    | inr (id, e) ↦ rw (e, user_from_claims) refl
  ]

  -- If every token that the verifier accepts has a subject, then a request that the bearer middleware
  -- lets through passes the check for a user as well.
  pub require_user-auth :
      (verify : String → Option Claims) (header : String) (u : User)
      → ((tok : String) (claims : Claims) → verify tok ≡ some claims → claims.subject ≢ "")
      → auth parse_uuid (some verify) header ≡ served u
      → require_user u ≡ true
  unfolding require_user
  require_user-auth verify header u subjects h =
      let (tok, claims, e, f, same) = auth-served verify header u h in
      let ne = subjects tok claims f in
      let sub : u.sub ≡ claims.subject =
        ap (λ (v : User). v.sub) same ∙ sub-user_from_claims claims in
      ground (arith, eq_iff u.sub "", sub, ne)
