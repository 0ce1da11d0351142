-- ===== src/Api/Limits/Retry.antt =====
-- A limited client that waits as it is told (internal/api/ratelimit.go).
use minerals.Base.{
  ℕ, ◌+◌, ◌*◌, ◌≤◌, ◌<◌, String, false, Option, some, List, [], ◌∷◌, ◌≡◌, ◌≢◌, ◌⊎◌, refl, ap, ◌∙◌,
  arith, Option-cases, inl, inr, lt→ltb,
}
use minerals.Uuid.{UuidText}
use minerals.RateLimit.{Limiter, second, allow}
use minerals.RateLimit.Balance.{IsValid, balance}
use minerals.RateLimit.View.{balance-allow_ne, allow_iff, allow-IsValid, allow-SameConfig}
use minerals.RateLimit.Retry.{allow-retry}
use minerals.Api.Limits.{
  Tier, Request, Limiters, passed, rate_limited, classify, limiter_of, ip_only, retry_seconds,
  rate_limit_key, limit, handle,
}
use minerals.Api.Limits.Laws.{
  limiter_of-set_limiter_self, limiter_of-limit_ne, Tier-discrete, handle-outcome, handle-eq-limit,
}

retry_seconds_covers : (wait : ℕ) → (1 ≤ retry_seconds wait) × (wait ≤ retry_seconds wait * second)
unfolding retry_seconds
retry_seconds_covers wait = ground arith

IsValid-later : (l : Limiter) (now n : ℕ) → IsValid l now → now ≤ n → IsValid l n
IsValid-later l now n v h = record {
  enabled = v.enabled;
  one_pos = v.one_pos;
  refills = v.refills;
  fits = λ k b e.
      let f = v.fits k b e in record { past = omega (arith, f.past, h); bounded = f.bounded };
}

module _ (uuids : UuidText) (split_host : String → Option String) where
  -- The requests that the middleware handles, one after another, each with the clock's reading.
  abbrev pub run : Limiters → List (ℕ × Request) → Limiters
  run ls [] = ls
  run ls ((now, r) ∷ rs) = run (handle uuids split_host ls now r).0 rs

  -- They come in the clock's order from `start` to `stop`, and none is in the tier under the key.
  abbrev pub AreOthers : Tier → String → ℕ → ℕ → List (ℕ × Request) → Type 0
  AreOthers t key start stop [] = start ≤ stop
  AreOthers t key start stop ((now, r) ∷ rs) =
      (start ≤ now)
      × ((classify r ≢ some t) ⊎ (rate_limit_key uuids split_host r (ip_only t) ≢ key))
      × AreOthers t key now stop rs

  limiter_of-limit_self :
      (ls : Limiters) (now : ℕ) (r : Request) (t : Tier)
      → limiter_of (limit uuids split_host ls now r t).0 t
        ≡ (allow (limiter_of ls t) now (rate_limit_key uuids split_host r (ip_only t))).0
  unfolding limit
  limiter_of-limit_self ls now r t = rw limiter_of-set_limiter_self refl

  -- What a request does to a tier: nothing, or a call of its limiter under the request's key.
  handle-cases :
      (ls : Limiters) (now : ℕ) (r : Request) (t : Tier)
      → (limiter_of (handle uuids split_host ls now r).0 t ≡ limiter_of ls t)
        ⊎ ((classify r ≡ some t)
            × (limiter_of (handle uuids split_host ls now r).0 t
                ≡ (allow (limiter_of ls t) now (rate_limit_key uuids split_host r (ip_only t))).0))
  unfolding handle
  handle-cases ls now r t = elim (Option-cases (classify r)) [
    | inl e ↦ inl (rw (e, handle) refl)
    | inr (t', e) ↦ elim (Tier-discrete t' t) [
      | no ne ↦ inl (rw (e, handle) (limiter_of-limit_ne uuids split_host ls now r t' t ne))
      | yes same ↦
          let own : classify r ≡ some t = e ∙ ap some same in
          inr (own, rw (own, handle) (limiter_of-limit_self ls now r t))
    ]
  ]

  -- A tier as seen by one key at the time `stop`.
  record IsAsBefore (before after : Limiter) (key : String) (stop : ℕ) : Type 0 where
    balance_same : balance after key stop ≡ balance before key stop
    one_same : after.one ≡ before.one
    valid : IsValid after stop

  handle-IsAsBefore :
      (ls : Limiters) (now stop : ℕ) (r : Request) (t : Tier) (key : String)
      → IsValid (limiter_of ls t) now
      → now ≤ stop
      → (classify r ≢ some t) ⊎ (rate_limit_key uuids split_host r (ip_only t) ≢ key)
      → IsAsBefore (limiter_of ls t) (limiter_of (handle uuids split_host ls now r).0 t) key stop
  handle-IsAsBefore ls now stop r t key v h other = elim (handle-cases ls now r t) [
    | inl same ↦ record {
      balance_same = ap (λ (l : Limiter). balance l key stop) same;
      one_same = ap (λ (l : Limiter). l.one) same;
      valid = rw same (IsValid-later (limiter_of ls t) now stop v h);
    }
    | inr (own, called) ↦ elim other [
      | inl ne ↦ absurd (ne own)
      | inr ne ↦
          let l = limiter_of ls t in
          let k = rate_limit_key uuids split_host r (ip_only t) in
          record {
            balance_same =
                ap (λ (m : Limiter). balance m key stop) called
                ∙ balance-allow_ne l now stop k key v h ne;
            one_same = ap (λ (m : Limiter). m.one) called ∙ (allow-SameConfig l now k v).one;
            valid = rw called (allow-IsValid l now stop k v h);
          }
    ]
  ]

  stop-le :
      (t : Tier) (key : String) (start stop : ℕ) (rs : List (ℕ × Request))
      → AreOthers t key start stop rs
      → start ≤ stop
  stop-le t key start stop [] h = h
  stop-le t key start stop ((now, r) ∷ rs) (le, _, h) =
      let rest = stop-le t key now stop rs h in omega (arith, le, rest)

  run-IsAsBefore :
      (rs : List (ℕ × Request)) (ls : Limiters) (start stop : ℕ) (t : Tier) (key : String)
      → IsValid (limiter_of ls t) start
      → AreOthers t key start stop rs
      → IsAsBefore (limiter_of ls t) (limiter_of (run ls rs) t) key stop
  run-IsAsBefore [] ls start stop t key v h = record {
    balance_same = refl;
    one_same = refl;
    valid = IsValid-later _ start stop v h;
  }
  run-IsAsBefore ((now, r) ∷ rs) ls start stop t key v (le, other, h) =
      let w = IsValid-later (limiter_of ls t) start now v le in
      let here = handle-IsAsBefore ls now now r t key w (omega arith) other in
      let far = handle-IsAsBefore ls now stop r t key w (stop-le t key now stop rs h) other in
      let rest =
        run-IsAsBefore rs (handle uuids split_host ls now r).0 now stop t key here.valid h in
      record {
        balance_same = rest.balance_same ∙ far.balance_same;
        one_same = rest.one_same ∙ far.one_same;
        valid = rest.valid;
      }

  limit-rate_limited :
      (ls : Limiters) (now secs : ℕ) (r : Request) (t : Tier)
      → (limit uuids split_host ls now r t).1 ≡ rate_limited secs
      → ((allow (limiter_of ls t) now (rate_limit_key uuids split_host r (ip_only t))).1.allowed
          ≡ false)
        × (secs
            ≡ retry_seconds
                (allow
                  (limiter_of ls t)
                  now
                  (rate_limit_key uuids split_host r (ip_only t))).1.retry_after)
  unfolding limit
  limit-rate_limited ls now secs r t e = ground arith

  -- A limited request of a tier that is enabled and whose idle time is at least its window is told to wait a whole number of seconds, at least one; the
  -- same request, made any time after that, passes, whatever requests in the order of the clock are handled in
  -- between, as long as none of them is of its key in its tier.
  pub handle-retry :
      (ls : Limiters) (now gap secs : ℕ) (r : Request) (t : Tier) (rs : List (ℕ × Request))
      → IsValid (limiter_of ls t) now
      → (limiter_of ls t).one ≤ (limiter_of ls t).burst
      → classify r ≡ some t
      → (handle uuids split_host ls now r).1 ≡ rate_limited secs
      → secs * second < gap
      → AreOthers t (rate_limit_key uuids split_host r (ip_only t)) now (now + gap) rs
      → (1 ≤ secs)
        × ((handle uuids split_host (run (handle uuids split_host ls now r).0 rs) (now + gap) r).1
            ≡ passed)
  handle-retry ls now gap secs r t rs v fits e limited h others =
      let key = rate_limit_key uuids split_host r (ip_only t) in
      let l = limiter_of ls t in
      let first = handle-eq-limit uuids split_host ls now r e in
      let (low, same) = limit-rate_limited ls now secs r t (rw first at limited) in
      let c = retry_seconds_covers (allow l now key).1.retry_after in
      let later : (allow l now key).1.retry_after < gap = omega (arith, c.1, same) in
      let again = allow-retry l now gap key v fits low (omega arith) in
      let called : limiter_of (handle uuids split_host ls now r).0 t ≡ (allow l now key).0 =
        ap (λ (p : Limiters × _). limiter_of p.0 t) first ∙ limiter_of-limit_self ls now r t in
      let valid = allow-IsValid l now now key v (omega arith) in
      let far = allow-IsValid l now (now + gap) key v (omega arith) in
      let enough =
        (allow_iff (allow l now key).0 (now + gap) key far).0 (again.1 ∙ lt→ltb _ _ later) in
      let kept =
        run-IsAsBefore rs (handle uuids split_host ls now r).0 now (now + gap) t key
          (rw called valid) others in
      (
        omega (arith, c.0, same),
        (handle-outcome uuids split_host (run (handle uuids split_host ls now r).0 rs) (now + gap) r
              t kept.valid e).1
            (rw (kept.one_same, kept.balance_same, called) enough),
      )
