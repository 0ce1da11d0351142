-- ===== src/RateLimit/View.antt =====
-- What a key may spend, and what spending leaves (internal/ratelimit/limiter.go).
use text.Mathlib.TextPositions.{eq_refl}
use minerals.Base.{
  ℕ, ◌+◌, ◌-◌, ◌*◌, ◌≤◌, min, String, ◌==◌, true, false, Option, none, some, leb, eqb,
  if◌then◌else◌, ◌≡◌, ◌≢◌, ◌↔◌, ◌⊎◌, refl, ap, ◌∙◌, arith, eq_iff, eq_refl, Bool-cases, inl, inr,
}
use minerals.RateLimit.{Limiter, Bucket, Decision, sweep, current, spend, allow, store}
use minerals.RateLimit.Balance.{
  bucket_balance, balance, BucketFits, IsValid, balance-sweep, tokens-current, last-current,
  SameConfig, sweep-SameConfig, sweep-IsValid,
}

-- What the table holds for the key after `Allow`, the bucket `b` having been brought current.
spent_bucket : Limiter → Bucket → Bucket
spent_bucket l b = record {
  tokens = if leb l.one b.tokens then b.tokens - l.one else b.tokens;
  last = b.last;
}

spend_lem :
    (l : Limiter) (key : String) (b : Bucket)
    → ((spend l key b).0 ≡ record l { buckets = store l.buckets key (spent_bucket l b) })
      × ((spend l key b).1.allowed ≡ leb l.one b.tokens)
unfolding spend spent_bucket
spend_lem l key b = ground arith

pub allow-eq-spend :
    (l : Limiter) (now : ℕ) (key : String)
    → IsValid l now
    → allow l now key
      ≡ spend (sweep l now) key (current (sweep l now) now ((sweep l now).buckets key))
unfolding allow
allow-eq-spend l now key v =
    let c = sweep-SameConfig l now in
    let pos : eqb (sweep l now).rate 0 ≡ false = rw c.rate (ground (arith, v.enabled)) in
    rw (pos, allow)

-- `Allow` admits a request exactly when the key's balance holds a token.
pub allow_iff :
    (l : Limiter) (now : ℕ) (key : String)
    → IsValid l now
    → ((allow l now key).1.allowed ≡ true) ↔ (l.one ≤ balance l key now)
unfolding balance
allow_iff l now key v =
    let c = sweep-SameConfig l now in
    let w = sweep-IsValid l now v in
    let b = balance-sweep l key now now v.refills (omega arith) in
    let t = tokens-current (sweep l now) now ((sweep l now).buckets key) (w.fits key) in
    rw (allow-eq-spend l now key v)
      (rw ((spend_lem (sweep l now) key _).1) (ground (arith, t, b, c.one)))

-- The table after `Allow`.
allow-state :
    (l : Limiter) (now : ℕ) (key : String)
    → IsValid l now
    → (allow l now key).0 ≡ record (sweep l now) {
      buckets =
          store
            (sweep l now).buckets
            key
            (spent_bucket (sweep l now) (current (sweep l now) now ((sweep l now).buckets key)));
    }
allow-state l now key v =
    ap (λ (r : Limiter × Decision). r.0) (allow-eq-spend l now key v)
    ∙ (spend_lem (sweep l now) key (current (sweep l now) now ((sweep l now).buckets key))).0

pub allow-SameConfig :
    (l : Limiter) (now : ℕ) (key : String) → IsValid l now → SameConfig (allow l now key).0 l
allow-SameConfig l now key v =
    let c = sweep-SameConfig l now in
    rw (allow-state l now key v)
      (record { rate = c.rate; burst = c.burst; one = c.one; idle_ttl = c.idle_ttl })

-- What a key has left after its request at `now`.
abbrev pub left_over : Limiter → String → ℕ → ℕ
left_over l key now =
    if leb l.one (balance l key now) then balance l key now - l.one else balance l key now

-- From then on the balance grows by the rate, up to the burst.
pub balance-allow_self :
    (l : Limiter) (now t : ℕ) (key : String)
    → IsValid l now
    → now ≤ t
    → balance (allow l now key).0 key t ≡ min l.burst (left_over l key now + (t - now) * l.rate)
unfolding balance spent_bucket
balance-allow_self l now t key v h =
    let c = sweep-SameConfig l now in
    let w = sweep-IsValid l now v in
    let o = (sweep l now).buckets key in
    let b = balance-sweep l key now now v.refills (omega arith) in
    let k = tokens-current (sweep l now) now o (w.fits key) in
    let p = last-current (sweep l now) now o (w.fits key) in
    rw (allow-state l now key v) (rw (eq_refl key) (rw (p, k, b, c.burst, c.rate, c.one) refl))

-- Requests of one key leave the balance of another alone.
pub balance-allow_ne :
    (l : Limiter) (now t : ℕ) (key j : String)
    → IsValid l now
    → now ≤ t
    → key ≢ j
    → balance (allow l now key).0 j t ≡ balance l j t
unfolding balance
balance-allow_ne l now t key j v h ne =
    let b = balance-sweep l j now t v.refills h in
    let other : (key == j) ≡ false = ground (arith, eq_iff key j, ne) in
    rw (allow-state l now key v) (rw other b)

store-eq-some :
    (m : String → Option Bucket) (key k : String) (c b : Bucket)
    → store m key c k ≡ some b
    → (c ≡ b) ⊎ (m k ≡ some b)
store-eq-some m key k c b e = ground arith

bucket_balance-le : (l : Limiter) (t : ℕ) (o : Option Bucket) → bucket_balance l t o ≤ l.burst
bucket_balance-le l t none = omega arith
bucket_balance-le l t (some b) = omega arith

spent_bucket-fits :
    (l : Limiter) (now t : ℕ) (o : Option Bucket)
    → now ≤ t
    → ((b : Bucket) → o ≡ some b → BucketFits l.burst now b)
    → BucketFits l.burst t (spent_bucket l (current l now o))
unfolding spent_bucket
spent_bucket-fits l now t o h w =
    let k = tokens-current l now o w in
    let p = last-current l now o w in
    record { past = rw p h; bounded = ground (arith, k, bucket_balance-le l now o) }

-- `Allow` keeps a limiter valid: enabled, every bucket at most full and touched in the past, and idle
-- for no shorter a time than a bucket takes to fill up before it is dropped.
pub allow-IsValid :
    (l : Limiter) (now t : ℕ) (key : String)
    → IsValid l now
    → now ≤ t
    → IsValid (allow l now key).0 t
allow-IsValid l now t key v h =
    let c = sweep-SameConfig l now in
    let w = sweep-IsValid l now v in
    rw (allow-state l now key v) (record {
      enabled = w.enabled;
      one_pos = w.one_pos;
      refills = w.refills;
      fits = λ k b e. elim (store-eq-some (sweep l now).buckets key k _ b e) [
        | inl same ↦
            rw (← same)
              (spent_bucket-fits (sweep l now) now t ((sweep l now).buckets key) h (w.fits key))
        | inr old ↦
            let f = w.fits k b old in record { past = omega (arith, f.past); bounded = f.bounded }
      ];
    })

-- If balances are computed without rounding (the source's are float64, and may decide otherwise at a balance
-- of just one token), then for an enabled tier whose idle time is at least its window, and a clock that does not run
-- backwards, `Allow` at `now` admits a request exactly when its key's balance holds a token; from then on the
-- key's balance is what is left, growing by the rate up to the burst, and the balance of every other key is
-- what it was. The lazy sweep does not show.
pub allow-refines :
    (l : Limiter) (now t : ℕ) (key j : String)
    → IsValid l now
    → now ≤ t
    → ((allow l now key).1.allowed ≡ leb l.one (balance l key now))
      × (balance (allow l now key).0 j t ≡ (
          if key == j
          then min l.burst (left_over l key now + (t - now) * l.rate)
          else balance l j t))
allow-refines l now t key j v h = (
  ground (arith, allow_iff l now key v),
  elim (Bool-cases (key == j)) [
    | inl same ↦ rw same (rw (← (eq_iff key j).0 same) (balance-allow_self l now t key v h))
    | inr other ↦
        rw other (balance-allow_ne l now t key j v h (λ e. ground (arith, (eq_iff key j).1 e)))
  ],
)
