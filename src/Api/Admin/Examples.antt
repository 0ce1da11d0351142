-- ===== src/Api/Admin/Examples.antt =====
-- An operator who suspends Ann's account and lifts the suspension again.
use minerals.Base.{
  String, true, false, Option, none, some, [], ◌∷◌, ◌≡◌, ◌⊎◌, refl, contains, inl, inr,
}
use minerals.Uuid.{Uuid, tally}
use minerals.Domain
use minerals.Domain.{Instant, status_active, status_suspended}
use minerals.Auth
use minerals.Auth.{anonymous}
use minerals.Authz.Examples.{casbin}
use minerals.Users.{
  changed, found, find_id, get_by_id, change_row, change_rows, has_id, update, set_status,
}
use minerals.Api.Guard.{ApiError, parse_uuid, forbidden}
use minerals.Api.Guard.Devops.{may_edit_console}
use minerals.Api.HumaAuth.{
  stop, account_suspended, no_faults, huma_auth, huma_optional_auth, protected, optional,
  setup_allowed,
}
use minerals.Api.Admin.{
  World, SuspendDeps, AccountStatus, Answer, set_enabled, sync_identity_enabled, revoke_sessions,
  persisted, suspend_synced, suspend_row, suspend_id, suspend_user, unsuspend_synced, unsuspend_row,
  unsuspend_id, unsuspend_user,
}
use minerals.Api.Admin.Suspend.{Target, suspend_user_lem, suspend_user-admitted}
use minerals.Api.Admin.Lockout.{suspend_user-locked_out}
use minerals.Api.Admin.Unsuspend.{unsuspend_user-admitted}
use minerals.Api.Admin.Roundtrip.{unsuspend_user-suspend_user}

abbrev parse : String → Option Uuid
parse s = some 7

abbrev row : Domain.User
row = record Domain.zero_user { id = 7; keycloak_sub = "s-ann"; status = status_active }

abbrev operator : Auth.User
operator = record anonymous { id = 9; roles = "devops-admin" ∷ [] }

abbrev ann : Auth.User
ann = record anonymous { sub = "s-ann" }

abbrev deps : SuspendDeps
deps = record {
  identity = true;
  sessions = true;
  get_fails = false;
  sync_fails = false;
  persist_fails = false;
  revoke_fails = false;
}

world : World
world = record { users = row ∷ []; enabled = λ s. true; revoked = [] }

suspension : AccountStatus
suspension = record { id = 7; status = status_suspended; identity_synced = true }

lifted : AccountStatus
lifted = record { id = 7; status = status_active; identity_synced = true }

abbrev suspend_now : Answer
suspend_now = suspend_user deps tally (some (casbin none).enforce) parse operator "7" 100 world

mid : World
mid = (suspend_id deps operator 100 world (inr 7)).1

abbrev unsuspend_now : Answer
unsuspend_now = unsuspend_user deps tally (some (casbin none).enforce) parse operator "7" 200 mid

after : World
after = (unsuspend_id deps 200 mid (inr 7)).1

suspends : suspend_now ≡ (inr suspension, mid)
unfolding mid world suspension contains parse_uuid suspend_id get_by_id found find_id suspend_row
    sync_identity_enabled suspend_synced persisted set_status update has_id set_enabled
suspends = suspend_user-admitted deps operator 100 world tally none (casbin none) tt parse "7" refl

unsuspends : unsuspend_now ≡ (inr lifted, after)
unfolding after mid world lifted contains parse_uuid suspend_id get_by_id found find_id suspend_row
    sync_identity_enabled suspend_synced persisted set_status update has_id revoke_sessions
    set_enabled unsuspend_id unsuspend_row unsuspend_synced change_rows change_row changed
unsuspends =
    unsuspend_user-admitted deps operator 200 mid tally none (casbin none) tt parse "7" refl

suspend_user_lem_example :
    ((err : ApiError) × (suspend_now.0 ≡ inl err)
      × (suspend_now.1.users ≡ world.users)
      × ((may_edit_console operator ≡ true) ⊎ (err ≡ forbidden)))
    ⊎ ((r : AccountStatus) × (u : Domain.User) × (suspend_now.0 ≡ inr r)
        × (may_edit_console operator ≡ true)
        × Target operator 100 world r u suspend_now)
suspend_user_lem_example =
    suspend_user_lem deps operator 100 world tally none (casbin none) tt parse "7"

suspend_user-locked_out_example :
    (protected parse none no_faults 1 300 mid.users [] [] true ann ""
      ≡ (stop account_suspended, mid.users))
    × (optional parse none no_faults 1 300 mid.users [] [] true ann ""
        ≡ (stop account_suspended, mid.users))
    × (setup_allowed parse none no_faults 1 300 mid.users [] [] true ann ""
        ≡ (stop account_suspended, mid.users))
unfolding world suspension find_id huma_auth huma_optional_auth
suspend_user-locked_out_example =
    suspend_user-locked_out deps operator 100 world mid tally none (casbin none) tt parse "7"
      suspension row ann none no_faults 1 300 [] [] ann "" (refl, tt) suspends refl refl refl refl
      refl refl

unsuspend_user-suspend_user_example : find_id 7 after.users ≡ some (record row { updated_at = 200 })
unfolding world suspension lifted find_id
unsuspend_user-suspend_user_example =
    unsuspend_user-suspend_user tally none (casbin none) tt parse deps deps operator operator 100
      200 world mid after "7" "7" suspension lifted row refl refl suspends unsuspends refl
