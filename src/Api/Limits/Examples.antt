-- ===== src/Api/Limits/Examples.antt =====
-- Requests through the rate-limit middleware.
use minerals.Base.{
  ◌+◌, ◌≤◌, String, true, Option, none, some, [], ◌∷◌, ◌≡◌, ◌≢◌, refl, arith, trim_space, inl,
}
use minerals.Uuid.{tally}
use minerals.Auth.{User, anonymous}
use minerals.RateLimit.{allow, sweep, current, spend, new_limiter}
use minerals.RateLimit.Balance.{IsValid, balance}
use minerals.RateLimit.View.{allow-IsValid}
use minerals.RateLimit.Budget.{new_limiter-IsValid}
use minerals.Api.Limits.{
  Tier, auth_tier, read_tier, write_tier, file_tier, Request, RateLimitTier, RateLimitOptions,
  Limiters, passed, rate_limited, new_limiters, classify, limiter_of, rate_limit_key, client_ip,
  limit, handle, retry_seconds,
}
use minerals.Api.Limits.Laws.{handle-isolated}
use minerals.Api.Limits.Retry.{run, handle-retry}

abbrev one_call : RateLimitTier
one_call = record { requests = 1; window = 4_000_000_000 }

abbrev opts : RateLimitOptions
opts = record { auth = one_call; read = one_call; write = one_call; file = one_call; idle_ttl = 0 }

abbrev start : Limiters
unfolding new_limiters
start = new_limiters opts 0

abbrev no_port : String → Option String
no_port s = none

abbrev ann : User
ann = record anonymous { id = 7 }

abbrev ask : String → String → User → Request
ask method path user = record {
  method = method;
  path = path;
  connecting_ip = " 10.0.0.1 ";
  remote_addr = "x";
  user = user;
}

abbrev listing : Request
listing = ask "GET" "/api/v1/specimens" ann

tests :
    (classify listing ≡ some read_tier)
    × (classify (ask "GET" "/api/v1/photos/1" ann) ≡ some file_tier)
    × (classify (ask "POST" "/api/v1/photos/1" ann) ≡ some write_tier)
    × (classify (ask "GET" "/api/v1/csrf" ann) ≡ some auth_tier)
    × (classify (ask "GET" "/healthz" ann) ≡ none)
    × (rate_limit_key tally no_port listing true ≡ "ip:10.0.0.1")
unfolding classify rate_limit_key client_ip trim_space
tests = (refl, refl, refl, refl, refl, refl)

one_call-IsValid : IsValid (new_limiter 1 4_000_000_000 600_000_000_000 0) 0
one_call-IsValid =
    new_limiter-IsValid 1 4_000_000_000 600_000_000_000 0 (omega arith) (omega arith) (omega arith)

start-IsValid : (t : Tier) → IsValid (limiter_of (new_limiters opts 0) t) 0
unfolding new_limiters
start-IsValid auth_tier = one_call-IsValid
start-IsValid _ = one_call-IsValid

listing_tier : classify listing ≡ some read_tier
unfolding classify
listing_tier = refl

handle-isolated_example :
    balance
      (limiter_of (handle tally no_port (new_limiters opts 0) 0 listing).0 write_tier)
      "ip:10.0.0.1"
      5
    ≡ balance (limiter_of (new_limiters opts 0) write_tier) "ip:10.0.0.1" 5
handle-isolated_example =
    handle-isolated tally no_port (new_limiters opts 0) 0 5 listing write_tier "ip:10.0.0.1"
      start-IsValid (omega arith) (inl (λ e. cc (listing_tier, e)))

abbrev once : Limiters
once = (handle tally no_port (new_limiters opts 0) 0 listing).0

second_call : (handle tally no_port once 1 listing).1 ≡ rate_limited 4
unfolding handle limit classify rate_limit_key client_ip allow sweep current spend retry_seconds
    new_limiters new_limiter
second_call = refl

once-IsValid : IsValid (limiter_of once read_tier) 1
unfolding handle limit classify new_limiters
once-IsValid =
    allow-IsValid (new_limiter 1 4_000_000_000 600_000_000_000 0) 0 1 _ one_call-IsValid
      (omega arith)

once_fits : (limiter_of once read_tier).one ≤ (limiter_of once read_tier).burst
unfolding handle limit classify rate_limit_key client_ip allow sweep current spend new_limiters
    new_limiter
once_fits = omega arith

abbrev edit : Request
edit = ask "POST" "/api/v1/specimens" ann

edit_tier : classify edit ≡ some write_tier
unfolding classify
edit_tier = refl

tiers_differ : ◌≢◌ {A = Tier} write_tier read_tier
tiers_differ e = cc

another : classify edit ≢ some read_tier
another e = tiers_differ (cc (edit_tier, e))

handle-retry_example :
    (1 ≤ 4)
    × ((handle tally no_port
          (run tally no_port (handle tally no_port once 1 listing).0 ((2, edit) ∷ []))
          (1 + 5_000_000_000)
          listing).1
        ≡ passed)
handle-retry_example =
    handle-retry tally no_port once 1 5_000_000_000 4 listing read_tier ((2, edit) ∷ [])
      once-IsValid once_fits listing_tier second_call (omega arith)
      (omega arith, inl another, omega arith)
