-- ===== src/Api/Admin/Unsuspend.antt =====
-- What lifting a suspension changes, and that it undoes one (unsuspendUser of internal/api/admin.go).
use minerals.Base.{
  String, ◌==◌, Bool, true, false, Option, none, some, List, [], ◌∷◌, eqb, ◌≡◌, ◌⊎◌, refl, ap, ◌∙◌,
  arith, eq_iff, Bool-cases, inl, inr,
}
use mathlib.Core.Option
use mathlib.Core.Path.{subst}
use minerals.Uuid.{Uuid, UuidText}
use minerals.Domain
use minerals.Domain.{Instant, status_active, status_suspended}
use minerals.Auth
use minerals.Authz.{SharesLookup, Enforcer}
use minerals.Authz.Specimens.{Answers}
use minerals.Users
use minerals.Users.{
  RepoError, put_status, changed, find_id, get_by_id, change_row, change_rows, set_status,
}
use minerals.Users.Rows.{change_row-id}
use minerals.Api.Guard.{
  ApiError, act_edit, check, devops_resource, parse_uuid, guarded_step, forbidden,
}
use minerals.Api.Guard.Devops.{may_edit_console, check-devops_edit}
use minerals.Api.Admin.{
  World, SuspendDeps, AccountStatus, Answer, set_enabled, sync_identity_enabled, unsuspend_synced,
  unsuspend_row, unsuspend_id, unsuspend_user, map_user_lookup_error,
}
use minerals.Api.Admin.Suspend.{Written, persisted-Written, get_by_id-inr}

-- A call on an account that is not suspended changes nothing; otherwise the account is active again.
abbrev pub Lifts : Instant → World → AccountStatus → Domain.User → Answer → Type 0
Lifts now w r u after =
    (find_id r.id w.users ≡ some u)
    × ((((u.status == status_suspended) ≡ false) × (after ≡ (inr r, w)))
        ⊎ ((u.status ≡ status_suspended)
            × (after.1.users ≡ change_rows (put_status status_active) now r.id w.users)))

abbrev pub Kept : World → Answer → Type 0
Kept w after = (e : ApiError) × (after.0 ≡ inl e) × (after.1.users ≡ w.users)

module _ (deps : SuspendDeps) (id : Uuid) (now : Instant) where
  unsuspend_synced-Written :
      (answer : (ApiError ⊎ Bool) × World)
      → Written status_active id now answer.1.users (unsuspend_synced deps id now answer)
  unfolding unsuspend_synced
  unsuspend_synced-Written (inl e, w) = inl (e, refl, refl)
  unsuspend_synced-Written (inr synced, w) =
      persisted-Written deps id now status_active synced _ (λ (v : World). v) w (λ v. refl)
        (set_status deps.persist_fails id status_active now w.users) refl

  sync-users :
      (sub : String) (b : Bool) (w : World) → (sync_identity_enabled deps sub b w).1.users ≡ w.users
  unfolding sync_identity_enabled set_enabled
  sync-users sub b w = ground arith

  sync-Written :
      (sub : String) (w : World)
      → Written status_active id now w.users
          (unsuspend_synced deps id now (sync_identity_enabled deps sub true w))
  sync-Written sub w =
      subst
        (λ (users : List Domain.User).
          Written status_active id now users
            (unsuspend_synced deps id now (sync_identity_enabled deps sub true w)))
        (sync-users sub true w) (unsuspend_synced-Written (sync_identity_enabled deps sub true w))

  unsuspend_row-Lifts :
      (w : World) (row : RepoError ⊎ Domain.User)
      → get_by_id deps.get_fails id w.users ≡ row
      → let after = unsuspend_row deps id now row w in
        Kept w after
        ⊎ ((r : AccountStatus) × (u : Domain.User) × (after.0 ≡ inr r) × Lifts now w r u after)
  unfolding unsuspend_row
  unsuspend_row-Lifts w (inl e) h = inl (map_user_lookup_error e, refl, refl)
  unsuspend_row-Lifts w (inr u) h =
      let own = get_by_id-inr deps.get_fails id w.users u h in
      elim (Bool-cases (u.status == status_suspended)) [
        | inr f ↦ inr (
          record { id = id; status = u.status; identity_synced = deps.identity },
          u,
          rw f refl,
          (own, inl (f, rw f refl)),
        )
        | inl t ↦ rw t (elim (sync-Written u.keycloak_sub w) [
          | inl kept ↦ inl kept
          | inr (synced, answer, users) ↦ inr (
            record { id = id; status = status_active; identity_synced = synced },
            u,
            answer,
            (own, inr (ground (arith, t, eq_iff u.status status_suspended), users)),
          )
        ])
      ]

module _ (deps : SuspendDeps) (caller : Auth.User) (now : Instant) (w : World) (uuids : UuidText)
    (shares : Option SharesLookup) (e : Enforcer shares) (answers : Answers shares)
    (parse : String → Option Uuid) (raw : String) where
  unsuspend_id-Lifts :
      (id : ApiError ⊎ Uuid)
      → let after = unsuspend_id deps now w id in
        Kept w after
        ⊎ ((r : AccountStatus) × (u : Domain.User) × (after.0 ≡ inr r) × Lifts now w r u after)
  unfolding unsuspend_id
  unsuspend_id-Lifts (inl err) = inl (err, refl, refl)
  unsuspend_id-Lifts (inr id) =
      unsuspend_row-Lifts deps id now w (get_by_id deps.get_fails id w.users) refl

  pub unsuspend_user-admitted :
      may_edit_console caller ≡ true
      → unsuspend_user deps uuids (some e.enforce) parse caller raw now w
        ≡ unsuspend_id deps now w (parse_uuid parse raw)
  unfolding guarded_step unsuspend_user
  unsuspend_user-admitted t =
      let admitted : check uuids (some e.enforce) caller devops_resource act_edit ≡ none =
        check-devops_edit uuids shares e answers caller ∙ (rw t refl) in
      rw (admitted, unsuspend_user) refl

  -- If the shares table can be read, then a call of unsuspend either answers with an error and leaves the users table as
  -- it was, as for all but devops admins and admins; or the caller is one of these, and the account's row
  -- either was not suspended, and nothing at all changes, or in the table exactly the rows of its identifier become active.
  pub unsuspend_user_lem :
      let after = unsuspend_user deps uuids (some e.enforce) parse caller raw now w in
      Kept w after
      ⊎ ((r : AccountStatus) × (u : Domain.User) × (after.0 ≡ inr r)
          × (may_edit_console caller ≡ true)
          × Lifts now w r u after)
  unfolding guarded_step unsuspend_user
  unsuspend_user_lem = elim (Bool-cases (may_edit_console caller)) [
    | inr f ↦
        let refused : check uuids (some e.enforce) caller devops_resource act_edit
            ≡ some forbidden =
          check-devops_edit uuids shares e answers caller ∙ (rw f refl) in
        inl (forbidden, rw (refused, unsuspend_user) refl, rw (refused, unsuspend_user) refl)
    | inl t ↦ rw (unsuspend_user-admitted t) (elim (unsuspend_id-Lifts (parse_uuid parse raw)) [
      | inl kept ↦ inl kept
      | inr (r, u, answer, lifts) ↦ inr (r, u, answer, t, lifts)
    ])
  ]

pub find_id-change_rows :
    (c : Users.Change) (now : Instant) (id key : Uuid) (users : List Domain.User)
    → find_id key (change_rows c now id users)
      ≡ Option.map (change_row c now id) (find_id key users)
unfolding find_id change_rows
find_id-change_rows c now id key [] = refl
find_id-change_rows c now id key (r ∷ users) = elim (Bool-cases (eqb r.id key)) [
  | inl t ↦
      let t' : eqb (change_row c now id r).id key ≡ true =
        ap (λ (x : Uuid). eqb x key) (change_row-id c now id r) ∙ t in
      rw (t, t') refl
  | inr f ↦
      let f' : eqb (change_row c now id r).id key ≡ false =
        ap (λ (x : Uuid). eqb x key) (change_row-id c now id r) ∙ f in
      rw (f, f') (find_id-change_rows c now id key users)
]
