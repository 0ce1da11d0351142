-- ===== src/Api/Admin.antt =====
-- The account suspension of the admin console (internal/api/admin.go).
--
-- The world is what the handlers write: the users table, the identity provider's enabled flags by
-- subject, and the users whose sessions were revoked. An optional collaborator is wired or not;
-- which call fails is an argument. The audit log is left out.
pub mod Console
pub mod Suspend
pub mod Lockout
pub mod Unsuspend
pub mod Roundtrip
mod Examples
use minerals.Base.{
  ℕ, zero, suc, ◌+◌, ◌-◌, ◌*◌, ◌/◌, ◌%◌, ◌^◌, ◌≤◌, ◌<◌, min, String, ◌==◌, Bool, true, false, not,
  ◌&&◌, ◌||◌, Option, none, some, List, [], ◌∷◌, ◌++◌, map, ltb, leb, eqb, if◌then◌else◌, ◌≡◌, ◌≢◌,
  ◌↔◌, ◌⊎◌, refl, sym, ap, ◌∙◌, arith, eq_iff, eq_refl, trim_space, split_on, contains, Bool-cases,
  Option-cases, inl, inr, length, take, drop, any, all, All, All-append, All-of, length-append,
  length-take, length-drop, take-append-drop, take-append_left, drop-append_left, Bytes, codes,
  bytes_eq, has_prefix, be16, be32, le32, put_be16, put_le32, lt→ltb, ltb→lt, leb→le, eqb_iff, itoa,
  read_number, read_number-itoa, itoa_injective, minus-itoa,
}
use minerals.Uuid.{Uuid, UuidText}
use minerals.Domain
use minerals.Domain.{Instant, status_active, status_suspended, status_deleted}
use minerals.Auth
use minerals.Auth.{stub_user}
use minerals.Users.{RepoError, not_found, conflict, failed, get_by_id, set_status}
use minerals.Api.Guard.{
  ApiError, Enforce, act_edit, api_error, check, devops_resource, parse_uuid, guarded_step,
}

pub record World : Type 0 where
  pub users : List Domain.User
  pub enabled : String → Bool
  pub revoked : List Uuid

-- `AdminSuspendDeps`, and which of its calls fail.
pub record SuspendDeps : Type 0 where
  pub identity : Bool
  pub sessions : Bool
  pub get_fails : Bool
  pub sync_fails : Bool
  pub persist_fails : Bool
  pub revoke_fails : Bool

pub record AccountStatus : Type 0 where
  pub id : Uuid
  pub status : String
  pub identity_synced : Bool

abbrev pub Answer : Type 0
Answer = (ApiError ⊎ AccountStatus) × World

abbrev pub cannot_suspend_self : ApiError
cannot_suspend_self = api_error 400 "cannot_suspend_self" "you cannot suspend your own account"

abbrev pub cannot_suspend_system : ApiError
cannot_suspend_system =
    api_error 403 "cannot_suspend_system" "the system account cannot be suspended"

abbrev pub account_deleted : ApiError
account_deleted = api_error 409 "account_deleted" "cannot suspend a deleted account"

abbrev pub account_not_active : ApiError
account_not_active = api_error 409 "account_not_active" "only an active account can be suspended"

abbrev pub sync_failed : ApiError
sync_failed =
    api_error 502 "identity_sync_failed"
      "failed to update the account at the identity provider; no change was made"

abbrev pub not_persisted : String → ApiError
not_persisted message = api_error 500 "internal_error" message

unfoldable pub map_user_lookup_error : RepoError → ApiError
map_user_lookup_error not_found = api_error 404 "user_not_found" "no such user"
map_user_lookup_error conflict = api_error 500 "internal_error" "failed to load user"
map_user_lookup_error failed = api_error 500 "internal_error" "failed to load user"

-- `SetIdentityEnabled`
unfoldable pub set_enabled : String → Bool → World → World
set_enabled sub b w = record w { enabled = λ s. if s == sub then b else w.enabled s }

module _ (deps : SuspendDeps) where
  unfoldable pub sync_identity_enabled : String → Bool → World → (ApiError ⊎ Bool) × World
  sync_identity_enabled sub b w =
      if not deps.identity
      then (inr false, w)
      else if deps.sync_fails
      then (inl sync_failed, w)
      else (inr true, set_enabled sub b w)

  -- `RevokeAllForUser`, whose failure is only logged.
  unfoldable pub revoke_sessions : Uuid → World → World
  revoke_sessions id w =
      if deps.sessions && not deps.revoke_fails then record w { revoked = id ∷ w.revoked } else w

  -- The status is written, after the identity provider agreed.
  unfoldable pub persisted :
      Uuid
      → String
      → Bool
      → ApiError
      → (World → World)
      → RepoError ⊎ List Domain.User
      → World
      → Answer
  persisted id status synced failure finish (inl e) w = (inl failure, w)
  persisted id status synced failure finish (inr users) w = (
    inr (record { id = id; status = status; identity_synced = synced }),
    finish (record w { users = users }),
  )

  unfoldable pub suspend_synced : Uuid → Instant → (ApiError ⊎ Bool) × World → Answer
  suspend_synced id now (inl e, w) = (inl e, w)
  suspend_synced id now (inr synced, w) =
      persisted id status_suspended synced (not_persisted "failed to persist the suspension")
        (revoke_sessions id) (set_status deps.persist_fails id status_suspended now w.users) w

  unfoldable pub suspend_row : Uuid → Instant → RepoError ⊎ Domain.User → World → Answer
  suspend_row id now (inl e) w = (inl (map_user_lookup_error e), w)
  suspend_row id now (inr u) w =
      if u.status == status_suspended
      then (inr (record { id = id; status = u.status; identity_synced = deps.identity }), w)
      else if u.status == status_deleted
      then (inl account_deleted, w)
      else if u.status == status_active
      then suspend_synced id now (sync_identity_enabled u.keycloak_sub false w)
      else (inl account_not_active, w)

  unfoldable pub suspend_id : Auth.User → Instant → World → ApiError ⊎ Uuid → Answer
  suspend_id caller now w (inl e) = (inl e, w)
  suspend_id caller now w (inr id) =
      if eqb caller.id id
      then (inl cannot_suspend_self, w)
      else if eqb id stub_user.id
      then (inl cannot_suspend_system, w)
      else suspend_row id now (get_by_id deps.get_fails id w.users) w

  unfoldable pub unsuspend_synced : Uuid → Instant → (ApiError ⊎ Bool) × World → Answer
  unsuspend_synced id now (inl e, w) = (inl e, w)
  unsuspend_synced id now (inr synced, w) =
      persisted id status_active synced (not_persisted "failed to persist the unsuspension")
        (λ (w : World). w) (set_status deps.persist_fails id status_active now w.users) w

  unfoldable pub unsuspend_row : Uuid → Instant → RepoError ⊎ Domain.User → World → Answer
  unsuspend_row id now (inl e) w = (inl (map_user_lookup_error e), w)
  unsuspend_row id now (inr u) w =
      if not (u.status == status_suspended)
      then (inr (record { id = id; status = u.status; identity_synced = deps.identity }), w)
      else unsuspend_synced id now (sync_identity_enabled u.keycloak_sub true w)

  unfoldable pub unsuspend_id : Instant → World → ApiError ⊎ Uuid → Answer
  unsuspend_id now w (inl e) = (inl e, w)
  unsuspend_id now w (inr id) = unsuspend_row id now (get_by_id deps.get_fails id w.users) w

  module _ (uuids : UuidText) (guard : Option Enforce) (parse : String → Option Uuid) where
    unfoldable pub suspend_user : Auth.User → String → Instant → World → Answer
    suspend_user caller raw now w =
        guarded_step (check uuids guard caller devops_resource act_edit) w
          (suspend_id caller now w (parse_uuid parse raw))

    unfoldable pub unsuspend_user : Auth.User → String → Instant → World → Answer
    unsuspend_user caller raw now w =
        guarded_step (check uuids guard caller devops_resource act_edit) w
          (unsuspend_id now w (parse_uuid parse raw))
