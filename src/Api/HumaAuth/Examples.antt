-- ===== src/Api/HumaAuth/Examples.antt =====
-- Callers of the three chains.
use minerals.Base.{String, true, false, Option, none, some, [], ◌∷◌, ◌≡◌, ◌≢◌, refl, arith}
use minerals.Uuid.{Uuid}
use minerals.Domain
use minerals.Domain.{Instant, status_pending, status_active, status_suspended}
use minerals.Auth
use minerals.Auth.{Claims, anonymous}
use minerals.Users.{
  delete_rows, activate, changed, find_sub, found, get_by_sub, clashes, create, change_row,
  change_rows, mark_active, update, has_id,
}
use minerals.Users.Steps.{Step, Later}
use minerals.Api.HumaAuth.{
  next, stop, no_faults, setup_required, merged, resolved, fresh_user, after_create, after_read,
  resolve_or_create_user, resolve_user, require_complete_profile, then_with, then_resolve,
  huma_auth, protected, setup_allowed,
}
use minerals.Api.HumaAuth.Resolve.{resolve_or_create_user-agree}
use minerals.Api.HumaAuth.Laws.{Admitted, protected-Admitted}
use minerals.Api.HumaAuth.FirstLogin.{first_login}

abbrev no_uuid : String → Option Uuid
no_uuid s = none

-- Ann's session.
abbrev ann : Auth.User
ann = record anonymous { sub = "s-ann"; email = "ann@example.org"; roles = "user" ∷ [] }

abbrev row : Domain.User
row = record Domain.zero_user {
  id = 7;
  keycloak_sub = "s-ann";
  email = "ann@example.org";
  status = status_active;
}

abbrev blocked : Domain.User
blocked = record row { status = status_suspended }

protected-Admitted_example :
    (u : Auth.User) × (huma_auth no_uuid none ann "" ≡ next u)
    × Admitted u (merged ann row) (row ∷ [])
    × ((merged ann row).pending ≡ false)
unfolding protected huma_auth then_resolve then_with resolve_user resolve_or_create_user get_by_sub
    found find_sub after_read resolved merged require_complete_profile
protected-Admitted_example =
    protected-Admitted no_uuid none no_faults 1 5 (row ∷ []) (row ∷ []) (row ∷ []) ann ""
      (merged ann row) (row ∷ []) refl

-- Two requests of Ann's first login; the second one's insert comes too late.
abbrev made : Domain.User
made = record Domain.zero_user {
  id = 1;
  keycloak_sub = "s-ann";
  email = "ann@example.org";
  status = status_pending;
  created_at = 5;
  updated_at = 5;
}

-- The erasure of another account is no concern of Ann's.
apart : (u : Domain.User) → find_sub "s-ann" (made ∷ []) ≡ some u → u.id ≢ 9
unfolding find_sub
apart u h = let e : made ≡ u = cc in rw (← e) (λ k. absurd (omega (arith, k)))

erased : Later "s-ann" (made ∷ []) (delete_rows 9 (made ∷ []))
erased = Later.next Later.same (Step.erased 9 apart)

resolve_or_create_user-agree_example : made.id ≡ made.id
unfolding resolve_or_create_user after_read after_create get_by_sub found find_sub create clashes
    fresh_user
resolve_or_create_user-agree_example =
    resolve_or_create_user-agree no_faults no_faults 1 2 5 6 ann ann [] [] [] (made ∷ []) []
      (made ∷ []) (made ∷ []) (made ∷ []) (delete_rows 9 (made ∷ [])) made made refl refl refl
      erased erased

first_login_example :
    (protected no_uuid none no_faults 1 5 [] [] [] true ann ""
      ≡ (stop setup_required, fresh_user 1 5 ann ∷ []))
    × (setup_allowed no_uuid none no_faults 1 5 [] [] [] true ann ""
        ≡ (next (merged ann (fresh_user 1 5 ann)), fresh_user 1 5 ann ∷ []))
    × (protected no_uuid none no_faults 1 9
          (change_rows (activate "Ann") 9 1 (fresh_user 1 5 ann ∷ []))
          (change_rows (activate "Ann") 9 1 (fresh_user 1 5 ann ∷ []))
          (change_rows (activate "Ann") 9 1 (fresh_user 1 5 ann ∷ []))
          true
          ann
          ""
        ≡ (
          next (merged ann (changed (activate "Ann") 9 (fresh_user 1 5 ann))),
          change_rows (activate "Ann") 9 1 (fresh_user 1 5 ann ∷ []),
        ))
unfolding huma_auth find_sub mark_active update has_id change_rows change_row fresh_user
first_login_example =
    first_login no_uuid none no_faults 1 5 [] [] ann "" ann 9 "Ann"
      (change_rows (activate "Ann") 9 1 (fresh_user 1 5 ann ∷ [])) refl refl refl refl refl refl
      refl
