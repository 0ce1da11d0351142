-- ===== src/RateLimit/Examples.antt =====
-- Runs of the limiter on concrete clocks and keys.
use minerals.Base.{
  ℕ, ◌+◌, ◌-◌, ◌*◌, ◌≤◌, min, String, ◌==◌, false, List, [], ◌∷◌, leb, if◌then◌else◌, ◌≡◌, ◌≢◌,
  refl, ap, arith,
}
use minerals.RateLimit.{Limiter, Decision, sweep, current, spend, new_limiter, allow}
use minerals.RateLimit.Balance.{IsValid, balance}
use minerals.RateLimit.View.{allow-IsValid, allow-refines, left_over}
use minerals.RateLimit.Budget.{admitted, new_limiter-IsValid, admitted-new_limiter}

-- Two calls in ten nanoseconds, forgotten after twenty.
abbrev tier : Limiter
tier = new_limiter 2 10 20 100

abbrev drained : Limiter
drained = (allow (allow tier 100 "a").0 100 "a").0

tier-IsValid : IsValid tier 100
tier-IsValid = new_limiter-IsValid 2 10 20 100 (omega arith) (omega arith) (omega arith)

drained-IsValid : IsValid drained 100
drained-IsValid =
    allow-IsValid _ 100 100 "a" (allow-IsValid tier 100 100 "a" tier-IsValid (omega arith))
      (omega arith)

third_call_waits : (allow drained 100 "a").1 ≡ record { allowed = false; retry_after = 5 }
unfolding allow sweep current spend new_limiter
third_call_waits = refl

abbrev calls : List (ℕ × String)
calls = (100, "a") ∷ (100, "a") ∷ (101, "b") ∷ (103, "a") ∷ (104, "a") ∷ (105, "a") ∷ []

three_admitted : admitted tier "a" calls ≡ 3
unfolding admitted allow sweep current spend new_limiter
three_admitted = refl

allow-refines_example :
    ((allow drained 103 "a").1.allowed ≡ leb drained.one (balance drained "a" 103))
    × (balance (allow drained 103 "a").0 "b" 120 ≡ (
        if "a" == "b"
        then min drained.burst (left_over drained "a" 103 + (120 - 103) * drained.rate)
        else balance drained "b" 120))
allow-refines_example =
    allow-refines drained 103 120 "a" "b"
      (allow-IsValid _ 100 103 "a" (allow-IsValid tier 100 100 "a" tier-IsValid (omega arith))
        (omega arith))
      (omega arith)

admitted-new_limiter_example : admitted tier "a" calls * 10 ≤ 2 * 10 + (120 - 100) * 2
admitted-new_limiter_example =
    admitted-new_limiter 2 10 20 100 120 "a" calls (omega arith) (omega arith) (omega arith)
      (omega arith)

gap_differs : ◌≢◌ {A = ℕ} 7 (allow drained 100 "a").1.retry_after
unfolding allow sweep current spend new_limiter
gap_differs = omega arith

rejected_third : (allow drained 100 "a").1.allowed ≡ false
rejected_third = ap (λ (d : Decision). d.allowed) third_call_waits

drained_fits : drained.one ≤ drained.burst
unfolding allow sweep current spend new_limiter
drained_fits = omega arith
