-- ===== src/RateLimit/Retry.antt =====
-- The wait that a rejection reports (`Allow`).
use mathlib.Core.Path.{ap₂}
use native.Mathlib.Nat.{div-mul-le_self, lt-div-mul-add, add-mul, one-mul}
use minerals.Base.{
  ℕ, ◌+◌, ◌-◌, ◌*◌, ◌/◌, ◌≤◌, ◌<◌, String, false, ltb, eqb, if◌then◌else◌, ◌≡◌, ◌≢◌, ◌∙◌, arith,
}
use minerals.RateLimit.{Limiter, Bucket, current, spend, sweep, allow}
use minerals.RateLimit.Balance.{
  IsValid, mul_mono, balance, tokens-current, balance-sweep, sweep-SameConfig, sweep-IsValid,
}
use minerals.RateLimit.View.{
  allow_iff, allow-IsValid, allow-SameConfig, balance-allow_self, allow-eq-spend,
}

spend-retry :
    (l : Limiter) (key : String) (b : Bucket)
    → (spend l key b).1.allowed ≡ false
    → (b.tokens < l.one)
      × ((spend l key b).1.retry_after
          ≡ (if eqb ((l.one - b.tokens) / l.rate) 0 then 1 else (l.one - b.tokens) / l.rate))
unfolding spend
spend-retry l key b h = ground arith

-- The reported wait, from the balance: whole nanoseconds, cut off, and never 0.
abbrev wait_for : ℕ → ℕ → ℕ
wait_for deficit rate = if eqb (deficit / rate) 0 then 1 else deficit / rate

wait_for_eq : {d d' r r' : ℕ} → d ≡ d' → r ≡ r' → wait_for d r ≡ wait_for d' r'
wait_for_eq p q = ap₂ wait_for p q

rejected_lem :
    (l : Limiter) (now : ℕ) (key : String)
    → IsValid l now
    → (allow l now key).1.allowed ≡ false
    → (balance l key now < l.one)
      × ((allow l now key).1.retry_after ≡ wait_for (l.one - balance l key now) l.rate)
unfolding balance
rejected_lem l now key v h =
    let c = sweep-SameConfig l now in
    let w = sweep-IsValid l now v in
    let o = (sweep l now).buckets key in
    let e = allow-eq-spend l now key v in
    let s = spend-retry (sweep l now) key (current (sweep l now) now o) (rw e at h) in
    let k = tokens-current (sweep l now) now o (w.fits key) in
    let b = balance-sweep l key now now v.refills (omega arith) in
    let tokens = k ∙ b in
    (
      omega (arith, tokens, s.0, c.one),
      rw e (s.1 ∙ wait_for_eq (ap₂ (λ (x y : ℕ). x - y) c.one tokens) c.rate),
    )

wait_early :
    (deficit rate gap : ℕ)
    → 0 < rate
    → 0 < deficit
    → gap < wait_for deficit rate
    → gap * rate < deficit
wait_early deficit rate gap r d h =
    let m : deficit / rate * rate ≤ deficit = div-mul-le_self deficit rate in
    let n = mul_mono (gap + 1) (deficit / rate) rate in
    let a = add-mul gap 1 rate in ground (arith, m, n, a, one-mul rate)

wait_enough : (deficit rate gap : ℕ) → 0 < rate → wait_for deficit rate < gap → deficit ≤ gap * rate
wait_enough deficit rate gap r h =
    let m : deficit < deficit / rate * rate + rate = lt-div-mul-add r in
    let n = mul_mono (deficit / rate + 1) gap rate in
    let a = add-mul (deficit / rate) 1 rate in ground (arith, m, n, a, one-mul rate)

-- When `Allow` rejects a request of an enabled tier and reports the wait w, then w is positive, and a
-- request of the key `gap` nanoseconds later, with no other request of the key in between and for
-- any `gap` but w itself, is admitted exactly when w < gap.
pub allow-retry :
    (l : Limiter) (now gap : ℕ) (key : String)
    → IsValid l now
    → l.one ≤ l.burst
    → (allow l now key).1.allowed ≡ false
    → gap ≢ (allow l now key).1.retry_after
    → (0 < (allow l now key).1.retry_after)
      × ((allow (allow l now key).0 (now + gap) key).1.allowed
          ≡ ltb (allow l now key).1.retry_after gap)
allow-retry l now gap key v fits h ne =
    let (low, wait) = rejected_lem l now key v h in
    let c = allow-SameConfig l now key v in
    let le : now ≤ now + gap = omega arith in
    let b = balance-allow_self l now (now + gap) key v le in
    let i =
      allow_iff (allow l now key).0 (now + gap) key (allow-IsValid l now (now + gap) key v le) in
    let d : now + gap - now ≡ gap = omega arith in
    let b' = rw d at b in
    let i' = rw c.one at i in
    let other = rw wait at ne in
    let deficit = l.one - balance l key now in
    rw wait (
      ground arith,
      ground (
        arith,
        i',
        b',
        low,
        fits,
        other,
        wait_early deficit l.rate gap v.enabled,
        wait_enough deficit l.rate gap v.enabled,
      ),
    )
