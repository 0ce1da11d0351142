-- ===== src/RateLimit/Budget.antt =====
-- How many requests of a key the limiter admits over a span of time (`Allow`, `NewLimiter`).
use native.Mathlib.Nat.{zero-mul, mul_comm}
use minerals.Base.{
  ℕ, ◌+◌, ◌-◌, ◌*◌, ◌≤◌, ◌<◌, String, ◌==◌, Bool, true, false, ◌&&◌, Option, none, some, List, [],
  ◌∷◌, if◌then◌else◌, ◌≡◌, ◌≢◌, ◌⊎◌, refl, ◌∙◌, arith, eq_iff, Bool-cases, inl, inr,
}
use minerals.RateLimit.{sweep, Limiter, Bucket, new_limiter, allow}
use minerals.RateLimit.Balance.{
  sweep-SameConfig, mul_mono, IsValid, BucketFits, balance, bucket_balance, split_span,
}
use minerals.RateLimit.View.{
  allow_iff, allow-IsValid, allow-SameConfig, balance-allow_self, balance-allow_ne,
}

-- Requests as the clock reads and their keys, and how many of one key's are admitted.
unfoldable pub admitted : Limiter → String → List (ℕ × String) → ℕ
admitted l key [] = 0
admitted l key ((now, k) ∷ rest) =
    let more = admitted (allow l now k).0 key rest in
    if k == key && (allow l now k).1.allowed then more + 1 else more

-- The clock does not run backwards between `t` and `end`.
abbrev pub InOrder : ℕ → List (ℕ × String) → ℕ → Type 0
InOrder t [] end = t ≤ end
InOrder t ((now, k) ∷ rest) end = (t ≤ now) × InOrder now rest end

InOrder-le : (t : ℕ) (reqs : List (ℕ × String)) (end : ℕ) → InOrder t reqs end → t ≤ end
InOrder-le t [] end h = h
InOrder-le t ((now, k) ∷ rest) end (h, o) = omega (arith, InOrder-le now rest end o)

balance-grow :
    (l : Limiter) (key : String) (t now : ℕ)
    → IsValid l t
    → t ≤ now
    → balance l key now ≤ balance l key t + (now - t) * l.rate
unfolding balance
balance-grow l key t now v h = go (l.buckets key) (v.fits key)
  where
    go :
        (o : Option Bucket)
        → ((b : Bucket) → o ≡ some b → BucketFits l.burst t b)
        → bucket_balance l now o ≤ bucket_balance l t o + (now - t) * l.rate
    go none f = omega arith
    go (some b) f = let p = f b refl in omega (arith, split_span b.last t now l.rate p.past h)

zero_span : (t r : ℕ) → (t - t) * r ≡ 0
zero_span t r = let e : t - t ≡ 0 = omega arith in rw e (zero-mul r)

IsValid-later : (l : Limiter) (t now : ℕ) → IsValid l t → t ≤ now → IsValid l now
IsValid-later l t now v h = record {
  enabled = v.enabled;
  one_pos = v.one_pos;
  refills = v.refills;
  fits =
      λ k b e. let f = v.fits k b e in record { past = omega (arith, f.past); bounded = f.bounded };
}

-- An admitted request costs its key a token, and no other request costs it anything.
request_cost :
    (l : Limiter) (now : ℕ) (k key : String)
    → IsValid l now
    → (if k == key && (allow l now k).1.allowed then l.one else 0)
        + balance (allow l now k).0 key now
      ≤ balance l key now
request_cost l now k key v = elim (Bool-cases (k == key)) [
  | inl same ↦
      let e = (eq_iff k key).0 same in
      let b = balance-allow_self l now now k v (omega arith) in
      rw same (rw (← e) (ground (arith, b, zero_span now l.rate, allow_iff l now k v)))
  | inr other ↦
      let ne : k ≢ key = λ e. ground (arith, (eq_iff k key).1 e) in
      rw other (omega (arith, balance-allow_ne l now now k key v (omega arith) ne))
]

count_step :
    (c : Bool) (more one b b' before x y : ℕ)
    → more * one ≤ b' + y
    → (if c then one else 0) + b' ≤ b
    → b ≤ before + x
    → (if c then more + 1 else more) * one ≤ before + (x + y)
count_step true more one b b' before x y h k g = omega arith
count_step false more one b b' before x y h k g = omega arith

admitted-le :
    (l : Limiter) (key : String) (t : ℕ) (reqs : List (ℕ × String)) (end : ℕ)
    → IsValid l t
    → InOrder t reqs end
    → admitted l key reqs * l.one ≤ balance l key t + (end - t) * l.rate
unfolding admitted
admitted-le l key t [] end v o = omega arith
admitted-le l key t ((now, k) ∷ rest) end v (h, o) =
    let v' = IsValid-later l t now v h in
    let c = allow-SameConfig l now k v' in
    let ih =
      admitted-le (allow l now k).0 key now rest end (allow-IsValid l now now k v' (omega arith))
        o in
    let ih' = rw (c.one, c.rate) at ih in
    let s = split_span t now end l.rate h (InOrder-le now rest end o) in
    rw s (
      count_step _ _ l.one _ _ _ _ _ ih' (request_cost l now k key v')
        (balance-grow l key t now v h))

-- The limiter that `NewLimiter` builds for a live tier whose idle time is at least its window.
pub new_limiter-IsValid :
    (requests window idle_ttl now : ℕ)
    → 0 < requests
    → 0 < window
    → window ≤ idle_ttl
    → IsValid (new_limiter requests window idle_ttl now) now
unfolding new_limiter
new_limiter-IsValid requests window idle_ttl now p q h =
    let m = mul_mono window idle_ttl requests h in
    record {
      enabled = ground arith;
      one_pos = q;
      refills = ground (arith, m, mul_comm requests window);
      fits = λ k b e. cc;
    }

-- A new limiter of `requests` calls per `window`, whose idle time is at least the window, admits in
-- any sequence of calls of all keys, made between `start` and `end` by a clock that does not run
-- backwards, at most `requests` calls of one key and those that `end - start` refills: its count `n`
-- meets n * window ≤ requests * window + (end - start) * requests.
pub admitted-new_limiter :
    (requests window idle_ttl start end : ℕ) (key : String) (reqs : List (ℕ × String))
    → 0 < requests
    → 0 < window
    → window ≤ idle_ttl
    → InOrder start reqs end
    → admitted (new_limiter requests window idle_ttl start) key reqs * window
      ≤ requests * window + (end - start) * requests
admitted-new_limiter requests window idle_ttl start end key reqs p q h o =
    let v = new_limiter-IsValid requests window idle_ttl start p q h in
    let b = admitted-le (new_limiter requests window idle_ttl start) key start reqs end v o in
    unfold new_limiter balance in ground (arith, b)

admitted_closed :
    (l : Limiter) (key : String) (reqs : List (ℕ × String)) → l.rate ≡ 0 → admitted l key reqs ≡ 0
unfolding admitted allow
admitted_closed l key [] h = refl
admitted_closed l key ((now, k) ∷ rest) h =
    let c = sweep-SameConfig l now in
    let r : (sweep l now).rate ≡ 0 = c.rate ∙ h in
    ground (arith, r, admitted_closed (sweep l now) key rest r)

-- A new limiter with no requests or no window admits no request of any key, in any sequence of calls.
pub admitted-disabled :
    (requests window idle_ttl start : ℕ) (key : String) (reqs : List (ℕ × String))
    → (requests ≡ 0) ⊎ (window ≡ 0)
    → admitted (new_limiter requests window idle_ttl start) key reqs ≡ 0
unfolding new_limiter
admitted-disabled requests window idle_ttl start key reqs h =
    admitted_closed (new_limiter requests window idle_ttl start) key reqs (ground arith)
