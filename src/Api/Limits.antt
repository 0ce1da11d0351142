-- ===== src/Api/Limits.antt =====
-- The rate-limit middleware (internal/api/ratelimit.go).
--
-- Each tier has a limiter of its own. The injected clock's reading is an argument, and the next
-- handler is the outcome `passed`. `split_host` stands for the host part of net.SplitHostPort,
-- `none` for its error.
pub mod Laws
pub mod Retry
mod Examples
use Prim.Native.String.{◌++◌ as text_append}
use text.Mathlib.Text.{starts_with}
use minerals.Base.{
  ℕ, zero, suc, ◌+◌, ◌-◌, ◌*◌, ◌/◌, ◌%◌, ◌^◌, ◌≤◌, ◌<◌, min, String, ◌==◌, Bool, true, false, not,
  ◌&&◌, ◌||◌, Option, none, some, List, [], ◌∷◌, ◌++◌, map, ltb, leb, eqb, if◌then◌else◌, ◌≡◌, ◌≢◌,
  ◌↔◌, ◌⊎◌, refl, sym, ap, ◌∙◌, arith, eq_iff, eq_refl, trim_space, split_on, contains, Bool-cases,
  Option-cases, inl, inr, length, take, drop, any, all, All, All-append, All-of, length-append,
  length-take, length-drop, take-append-drop, take-append_left, drop-append_left, Bytes, codes,
  bytes_eq, has_prefix, be16, be32, le32, put_be16, put_le32, lt→ltb, ltb→lt, leb→le, eqb_iff, itoa,
  read_number, read_number-itoa, itoa_injective, minus-itoa,
}
use minerals.Uuid.{Uuid, UuidText, nil_uuid}
use minerals.Auth.{User}
use minerals.RateLimit.{Limiter, Decision, second, allow, new_limiter}

pub data Tier : Type 0 where
  auth_tier read_tier write_tier file_tier : Tier

pub record Request : Type 0 where
  pub method : String
  pub path : String
  -- the CF-Connecting-IP header, "" if it is absent
  pub connecting_ip : String
  pub remote_addr : String
  pub user : User

pub record RateLimitTier : Type 0 where
  pub requests : ℕ
  pub window : ℕ

pub record RateLimitOptions : Type 0 where
  pub auth : RateLimitTier
  pub read : RateLimitTier
  pub write : RateLimitTier
  pub file : RateLimitTier
  pub idle_ttl : ℕ

pub record Limiters : Type 0 where
  pub auth : Limiter
  pub read : Limiter
  pub write : Limiter
  pub file : Limiter

pub data Outcome : Type 0 where
  passed : Outcome
  -- 429 with the Retry-After header
  rate_limited : ℕ → Outcome

abbrev default_idle_ttl : ℕ
default_idle_ttl = 600 * second

-- The part of `NewRateLimitMiddleware` before its closures.
unfoldable pub new_limiters : RateLimitOptions → ℕ → Limiters
new_limiters opts now =
    let idle = if eqb opts.idle_ttl 0 then default_idle_ttl else opts.idle_ttl in
    record {
      auth = new_limiter opts.auth.requests opts.auth.window idle now;
      read = new_limiter opts.read.requests opts.read.window idle now;
      write = new_limiter opts.write.requests opts.write.window idle now;
      file = new_limiter opts.file.requests opts.file.window idle now;
    }

is_read_method : String → Bool
is_read_method m = m == "GET" || m == "HEAD"

is_auth_path : String → Bool
is_auth_path p =
    p == "/auth/login" || p == "/auth/callback" || p == "/auth/logout" || p == "/api/v1/csrf"

is_file_path : String → Bool
is_file_path p =
    starts_with p "/api/v1/photos/"
    || starts_with p "/api/v1/files/"
    || starts_with p "/api/v1/journal-files/"

unfoldable pub classify : Request → Option Tier
unfolding is_read_method is_auth_path is_file_path
classify r =
    if is_auth_path r.path
    then some auth_tier
    else if starts_with r.path "/api/v1/"
    then if is_read_method r.method
      then if is_file_path r.path then some file_tier else some read_tier
      else some write_tier
    else none

abbrev pub limiter_of : Limiters → Tier → Limiter
limiter_of ls auth_tier = ls.auth
limiter_of ls read_tier = ls.read
limiter_of ls write_tier = ls.write
limiter_of ls file_tier = ls.file

-- The limiters are shared pointers: a call changes the one of its tier.
abbrev pub set_limiter : Limiters → Tier → Limiter → Limiters
set_limiter ls auth_tier l = record ls { auth = l }
set_limiter ls read_tier l = record ls { read = l }
set_limiter ls write_tier l = record ls { write = l }
set_limiter ls file_tier l = record ls { file = l }

abbrev pub ip_only : Tier → Bool
ip_only auth_tier = true
ip_only _ = false

-- A duration in whole seconds, rounded up, at least one.
unfoldable pub retry_seconds : ℕ → ℕ
retry_seconds wait = let secs = (wait + (second - 1)) / second in if ltb secs 1 then 1 else secs

module _ (uuids : UuidText) (split_host : String → Option String) where
  open uuids use {to_string}

  pub client_ip : Request → String
  client_ip r =
      let cf = trim_space r.connecting_ip in
      if not (cf == "")
      then cf
      else elim (split_host r.remote_addr) [ none ↦ r.remote_addr | some host ↦ host ]

  pub rate_limit_key : Request → Bool → String
  rate_limit_key r only_ip =
      if not only_ip && not (eqb r.user.id nil_uuid)
      then text_append "user:" (to_string r.user.id)
      else text_append "ip:" (client_ip r)

  pub limit : Limiters → ℕ → Request → Tier → Limiters × Outcome
  limit ls now r t =
      let (l, d) = allow (limiter_of ls t) now (rate_limit_key r (ip_only t)) in
      (set_limiter ls t l, if d.allowed then passed else rate_limited (retry_seconds d.retry_after))

  pub handle : Limiters → ℕ → Request → Limiters × Outcome
  handle ls now r = elim (classify r) [ none ↦ (ls, passed) | some t ↦ limit ls now r t ]
