-- ===== src/Api/Limits/Laws.antt =====
-- What the rate-limit middleware promises to the holders of its keys (internal/api/ratelimit.go).
use minerals.Base.{
  ℕ, ◌≤◌, String, Option, some, ◌≡◌, ◌≢◌, ◌↔◌, ◌⊎◌, refl, ap, ◌∙◌, arith, Option-cases, inl, inr,
}
use minerals.Uuid.{UuidText}
use minerals.RateLimit.{Limiter}
use minerals.RateLimit.Balance.{IsValid, balance}
use minerals.RateLimit.View.{balance-allow_ne, allow_iff}
use minerals.Api.Limits.{
  Tier, auth_tier, read_tier, write_tier, file_tier, Request, Limiters, passed, classify,
  limiter_of, set_limiter, ip_only, rate_limit_key, limit, handle,
}

pub limiter_of-set_limiter_self :
    (ls : Limiters) (t : Tier) (l : Limiter) → limiter_of (set_limiter ls t l) t ≡ l
limiter_of-set_limiter_self ls auth_tier l = refl
limiter_of-set_limiter_self ls _ l = refl

limiter_of-set_limiter_ne :
    (ls : Limiters) (t u : Tier) (l : Limiter)
    → t ≢ u
    → limiter_of (set_limiter ls t l) u ≡ limiter_of ls u
limiter_of-set_limiter_ne ls auth_tier auth_tier l h = absurd (h refl)
limiter_of-set_limiter_ne ls auth_tier _ l h = refl
limiter_of-set_limiter_ne ls read_tier read_tier l h = absurd (h refl)
limiter_of-set_limiter_ne ls read_tier _ l h = refl
limiter_of-set_limiter_ne ls write_tier write_tier l h = absurd (h refl)
limiter_of-set_limiter_ne ls write_tier _ l h = refl
limiter_of-set_limiter_ne ls file_tier file_tier l h = absurd (h refl)
limiter_of-set_limiter_ne ls file_tier _ l h = refl

pub Tier-discrete : Discrete Tier
Tier-discrete = hlevel

module _ (uuids : UuidText) (split_host : String → Option String) where
  open uuids use {to_string, injective}

  limit-isolated :
      (ls : Limiters) (now u : ℕ) (r : Request) (t : Tier) (j : String)
      → IsValid (limiter_of ls t) now
      → now ≤ u
      → rate_limit_key uuids split_host r (ip_only t) ≢ j
      → balance (limiter_of (limit uuids split_host ls now r t).0 t) j u
        ≡ balance (limiter_of ls t) j u
  unfolding limit
  limit-isolated ls now u r t j v h ne = rw limiter_of-set_limiter_self (
      balance-allow_ne (limiter_of ls t) now u (rate_limit_key uuids split_host r (ip_only t)) j v h
        ne)

  pub limiter_of-limit_ne :
      (ls : Limiters) (now : ℕ) (r : Request) (t' t : Tier)
      → t' ≢ t
      → limiter_of (limit uuids split_host ls now r t').0 t ≡ limiter_of ls t
  unfolding limit
  limiter_of-limit_ne ls now r t' t ne = limiter_of-set_limiter_ne ls t' t _ ne

  -- A request changes the balance of no key but its own, and of that in its own tier only, for tiers
  -- that are enabled and whose idle time is at least their window.
  pub handle-isolated :
      (ls : Limiters) (now u : ℕ) (r : Request) (t : Tier) (j : String)
      → ((t' : Tier) → IsValid (limiter_of ls t') now)
      → now ≤ u
      → (classify r ≢ some t) ⊎ (rate_limit_key uuids split_host r (ip_only t) ≢ j)
      → balance (limiter_of (handle uuids split_host ls now r).0 t) j u
        ≡ balance (limiter_of ls t) j u
  unfolding handle
  handle-isolated ls now u r t j v h other = elim (Option-cases (classify r)) [
    | inl e ↦ rw (e, handle) refl
    | inr (t', e) ↦
        rw (e, handle)
          (elim (Tier-discrete t' t) [
            | no ne ↦ rw (limiter_of-limit_ne ls now r t' t ne) refl
            | yes same ↦ rw same (elim other [
              | inl ne ↦ absurd (ne (e ∙ ap some same))
              | inr ne ↦ limit-isolated ls now u r t j (v t) h ne
            ])
          ])
  ]

  -- A request of a tier that is enabled and whose idle time is at least its window passes exactly when
  -- the balance of its key in that tier holds a token.
  pub handle-outcome :
      (ls : Limiters) (now : ℕ) (r : Request) (t : Tier)
      → IsValid (limiter_of ls t) now
      → classify r ≡ some t
      → ((handle uuids split_host ls now r).1 ≡ passed) ↔ (
          (limiter_of ls t).one
          ≤ balance (limiter_of ls t) (rate_limit_key uuids split_host r (ip_only t)) now)
  unfolding handle limit
  handle-outcome ls now r t v e =
      rw (e, handle)
        (ground (
          arith,
          allow_iff (limiter_of ls t) now (rate_limit_key uuids split_host r (ip_only t)) v,
        ))

  pub handle-eq-limit :
      (ls : Limiters) (now : ℕ) (r : Request) {t : Tier}
      → classify r ≡ some t
      → handle uuids split_host ls now r ≡ limit uuids split_host ls now r t
  unfolding handle
  handle-eq-limit ls now r e = rw (e, handle) refl
