-- ===== src/Bff/Csrf/Examples.antt =====
-- A write with the session's token, and one with another session's.
use minerals.Base.{false, none, some, [], ◌∷◌, ◌≡◌, ◌≢◌, ◌↔◌, refl, arith, inr, Bytes}
use minerals.Bff.State.Examples.{toy}
use minerals.Bff.Session.{Session}
use minerals.Bff.Session.Examples.{session}
use minerals.Bff.Csrf.{Request, is_safe, check_csrf, csrf_handler}
use minerals.Bff.Csrf.Laws.{check_csrf-pass_iff}

abbrev mine : Session
mine = record session { csrf_token = 1 ∷ 2 ∷ [] }

abbrev theirs : Session
theirs = record session { csrf_token = 3 ∷ 4 ∷ [] }

abbrev write : Bytes → Request
write token = record { method = "POST"; token = token }

unsafe : is_safe "POST" ≡ false
unfolding is_safe
unsafe = refl

check_csrf-pass_iff_example :
    (check_csrf toy (some mine) (write (101 ∷ 102 ∷ [])) ≡ none)
    ↔ (csrf_handler toy (some mine) ≡ inr (101 ∷ 102 ∷ []))
check_csrf-pass_iff_example =
    check_csrf-pass_iff toy mine (write (101 ∷ 102 ∷ [])) (omega arith, (omega arith, tt))
      (omega arith) unsafe

given : csrf_handler toy (some theirs) ≡ inr (103 ∷ 104 ∷ [])
unfolding csrf_handler
given = refl

tokens_differ : mine.csrf_token ≢ theirs.csrf_token
tokens_differ e = cc
