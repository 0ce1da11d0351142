-- ===== src/RateLimit.antt =====
-- The keyed token-bucket limiter (internal/ratelimit/limiter.go).
--
-- Instants and durations are nanoseconds, and a request count or a duration that is not positive
-- is 0. A balance is counted in units of which one token has `one` (the window's nanoseconds), so
-- that a nanosecond adds `rate` (the request count) of them: the float64 balance of the source,
-- computed exactly. The clock's reading is an argument. The mutex makes each call one step.
pub mod Balance
pub mod View
pub mod Budget
pub mod Retry
mod Examples
use minerals.Base.{
  ℕ, zero, suc, ◌+◌, ◌-◌, ◌*◌, ◌/◌, ◌%◌, ◌^◌, ◌≤◌, ◌<◌, min, String, ◌==◌, Bool, true, false, not,
  ◌&&◌, ◌||◌, Option, none, some, List, [], ◌∷◌, ◌++◌, map, ltb, leb, eqb, if◌then◌else◌, ◌≡◌, ◌≢◌,
  ◌↔◌, ◌⊎◌, refl, sym, ap, ◌∙◌, arith, eq_iff, eq_refl, trim_space, split_on, contains, Bool-cases,
  Option-cases, inl, inr, length, take, drop, any, all, All, All-append, All-of, length-append,
  length-take, length-drop, take-append-drop, take-append_left, drop-append_left, Bytes, codes,
  bytes_eq, has_prefix, be16, be32, le32, put_be16, put_le32, lt→ltb, ltb→lt, leb→le, eqb_iff, itoa,
  read_number, read_number-itoa, itoa_injective, minus-itoa,
}

abbrev pub second : ℕ
second = 1_000_000_000

pub record Bucket : Type 0 where
  pub tokens : ℕ
  pub last : ℕ

pub record Limiter : Type 0 where
  pub rate : ℕ
  pub burst : ℕ
  pub one : ℕ
  pub idle_ttl : ℕ
  pub buckets : String → Option Bucket
  pub last_sweep : ℕ

-- The outcome of `Allow`: may the key spend a token, and if not, the wait.
pub record Decision : Type 0 where
  pub allowed : Bool
  pub retry_after : ℕ

unfoldable pub new_limiter : (requests window idle_ttl now : ℕ) → Limiter
new_limiter requests window idle_ttl now =
    let live = ltb 0 requests && ltb 0 window in
    record {
      rate = if live then requests else 0;
      burst = if live then requests * window else 0;
      one = window;
      idle_ttl = idle_ttl;
      buckets = λ k. none;
      last_sweep = now;
    }

-- The sum is exact here and a float64 in the source, which may fall short of a whole token.
refill : Limiter → Bucket → ℕ → Bucket
refill l b now =
    let elapsed = now - b.last in
    if ltb 0 elapsed
    then record b { tokens = min l.burst (b.tokens + elapsed * l.rate); last = now }
    else b

unfoldable pub full_window : Limiter → ℕ
full_window l = if eqb l.rate 0 then second else l.burst / l.rate

drop_idle : ℕ → ℕ → Option Bucket → Option Bucket
drop_idle idle_ttl now none = none
drop_idle idle_ttl now (some b) = if leb idle_ttl (now - b.last) then none else some b

unfoldable pub sweep : Limiter → ℕ → Limiter
unfolding drop_idle
sweep l now =
    if eqb l.idle_ttl 0
    then l
    else if ltb (now - l.last_sweep) l.idle_ttl
    then l
    else record l { last_sweep = now; buckets = λ k. drop_idle l.idle_ttl now (l.buckets k) }

-- `l.buckets[key] = b`
abbrev pub store : (String → Option Bucket) → String → Bucket → String → Option Bucket
store m key b k = if key == k then some b else m k

-- The bucket that a key draws from, by what the table holds: a full one at its first sight.
unfoldable pub current : Limiter → ℕ → Option Bucket → Bucket
unfolding refill
current l now none = record { tokens = l.burst; last = now }
current l now (some b) = refill l b now

-- Both the new bucket and the refilled one are in the map, so the spent token is seen there too.
unfoldable pub spend : Limiter → String → Bucket → Limiter × Decision
spend l key b =
    if leb l.one b.tokens
    then (
      record l { buckets = store l.buckets key (record b { tokens = b.tokens - l.one }) },
      record { allowed = true; retry_after = 0 },
    )
    else let wait = (l.one - b.tokens) / l.rate in
      (
        record l { buckets = store l.buckets key b },
        record { allowed = false; retry_after = if eqb wait 0 then 1 else wait },
      )

unfoldable pub allow : Limiter → ℕ → String → Limiter × Decision
allow l now key =
    let swept = sweep l now in
    if eqb swept.rate 0
    then (swept, record { allowed = false; retry_after = full_window swept })
    else spend swept key (current swept now (swept.buckets key))
