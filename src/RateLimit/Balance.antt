-- ===== src/RateLimit/Balance.antt =====
-- The abstract balance behind the limiter's table of buckets (internal/ratelimit/limiter.go).
use native.Mathlib.Nat.{add-mul}
use minerals.Base.{
  ℕ, ◌+◌, ◌-◌, ◌*◌, ◌≤◌, ◌<◌, min, String, Option, none, some, ◌≡◌, refl, ap, ◌∙◌, arith,
}
use minerals.RateLimit.{Limiter, Bucket, sweep, drop_idle, current}

-- The balance of a bucket when the clock reads `t`.
abbrev pub bucket_balance : Limiter → ℕ → Option Bucket → ℕ
bucket_balance l t none = l.burst
bucket_balance l t (some b) = min l.burst (b.tokens + (t - b.last) * l.rate)

-- The balance of a key: an unseen key has a full one.
unfoldable pub balance : Limiter → String → ℕ → ℕ
balance l key t = bucket_balance l t (l.buckets key)

-- No bucket was last brought current after `t`, nor holds more than a full balance.
pub record BucketFits (burst t : ℕ) (b : Bucket) : Type 0 where
  pub past : b.last ≤ t
  pub bounded : b.tokens ≤ burst

pub record IsValid (l : Limiter) (t : ℕ) : Type 0 where
  -- the tier is enabled
  pub enabled : 0 < l.rate
  pub one_pos : 0 < l.one
  -- a bucket that is swept has refilled: the idle time is at least the window
  pub refills : l.burst ≤ l.idle_ttl * l.rate
  pub fits : (k : String) (b : Bucket) → l.buckets k ≡ some b → BucketFits l.burst t b

pub mul_mono : (a b r : ℕ) → a ≤ b → a * r ≤ b * r
mul_mono a b r h = grind arith

pub split_span :
    (last now t r : ℕ) → last ≤ now → now ≤ t → (t - last) * r ≡ (now - last) * r + (t - now) * r
split_span last now t r h k =
    ap (λ (x : ℕ). x * r) (let e : t - last ≡ (now - last) + (t - now) = omega arith in e)
    ∙ add-mul _ _ _

-- Dropping an idle bucket, or keeping it, comes to the same balance.
balance-drop_idle :
    (l : Limiter) (now t : ℕ) (o : Option Bucket)
    → l.burst ≤ l.idle_ttl * l.rate
    → now ≤ t
    → bucket_balance l t (drop_idle l.idle_ttl now o) ≡ bucket_balance l t o
unfolding drop_idle
balance-drop_idle l now t none h k = refl
balance-drop_idle l now t (some b) h k =
    ground (arith, λ (p : l.idle_ttl ≤ t - b.last). mul_mono l.idle_ttl (t - b.last) l.rate p)

pub balance-sweep :
    (l : Limiter) (key : String) (now t : ℕ)
    → l.burst ≤ l.idle_ttl * l.rate
    → now ≤ t
    → balance (sweep l now) key t ≡ balance l key t
unfolding balance sweep
balance-sweep l key now t h k = ground (arith, balance-drop_idle l now t (l.buckets key) h k)

-- The bucket that `Allow` draws from holds the balance at the clock's reading.
pub tokens-current :
    (l : Limiter) (now : ℕ) (o : Option Bucket)
    → ((b : Bucket) → o ≡ some b → BucketFits l.burst now b)
    → (current l now o).tokens ≡ bucket_balance l now o
unfolding current
tokens-current l now none v = refl
tokens-current l now (some b) v = let f = v b refl in ground (arith, f.past, f.bounded)

pub last-current :
    (l : Limiter) (now : ℕ) (o : Option Bucket)
    → ((b : Bucket) → o ≡ some b → BucketFits l.burst now b)
    → (current l now o).last ≡ now
unfolding current
last-current l now none v = refl
last-current l now (some b) v = let f = v b refl in ground (arith, f.past)

-- Sweeping keeps the configuration.
pub record SameConfig (l m : Limiter) : Type 0 where
  pub rate : l.rate ≡ m.rate
  pub burst : l.burst ≡ m.burst
  pub one : l.one ≡ m.one
  pub idle_ttl : l.idle_ttl ≡ m.idle_ttl

pub sweep-SameConfig : (l : Limiter) (now : ℕ) → SameConfig (sweep l now) l
unfolding sweep
sweep-SameConfig l now = ground arith

drop_idle-eq-some :
    (idle now : ℕ) (o : Option Bucket) (b : Bucket) → drop_idle idle now o ≡ some b → o ≡ some b
unfolding drop_idle
drop_idle-eq-some idle now none b e = cc
drop_idle-eq-some idle now (some c) b e = ground arith

sweep-eq-some :
    (l : Limiter) (now : ℕ) (k : String) (b : Bucket)
    → (sweep l now).buckets k ≡ some b
    → l.buckets k ≡ some b
unfolding sweep
sweep-eq-some l now k b e = ground (arith, drop_idle-eq-some l.idle_ttl now (l.buckets k) b)

pub sweep-IsValid : (l : Limiter) (now : ℕ) → IsValid l now → IsValid (sweep l now) now
sweep-IsValid l now v =
    let c = sweep-SameConfig l now in
    record {
      enabled = rw c.rate v.enabled;
      one_pos = rw c.one v.one_pos;
      refills = rw (c.burst, c.idle_ttl, c.rate) v.refills;
      fits = λ k b e.
          let f = v.fits k b (sweep-eq-some l now k b e) in
          record { past = f.past; bounded = rw c.burst f.bounded };
    }
