-- ===== src/Api/Admin/Suspend.antt =====
-- What a suspension changes, who can make it, and what it does to the suspended account
-- (suspendUser of internal/api/admin.go with internal/api/huma_auth.go).
use minerals.Base.{
  String, ◌==◌, Bool, true, false, Option, none, some, List, eqb, ◌≡◌, ◌⊎◌, refl, sym, ap, ◌∙◌,
  arith, eq_iff, Bool-cases, Option-cases, inl, inr,
}
use mathlib.Core.Path.{subst}
use minerals.Uuid.{Uuid, UuidText}
use minerals.Domain
use minerals.Domain.{Instant, status_active, status_suspended, status_deleted}
use minerals.Auth
use minerals.Auth.{stub_user, Claims}
use minerals.Authz.{SharesLookup, Enforcer}
use minerals.Authz.Specimens.{Answers}
use minerals.Users.{
  RepoError, put_status, find_id, found, get_by_id, change_rows, update, set_status,
}
use minerals.Users.Rows.{update-inr}
use minerals.Api.Guard.{
  ApiError, act_edit, check, devops_resource, parse_uuid, guarded_step, forbidden,
}
use minerals.Api.Guard.Devops.{may_edit_console, check-devops_edit}
use minerals.Api.Admin.{
  World, SuspendDeps, AccountStatus, Answer, set_enabled, sync_identity_enabled, revoke_sessions,
  persisted, suspend_synced, suspend_row, suspend_id, account_deleted, account_not_active,
  cannot_suspend_self, cannot_suspend_system, suspend_user,
}

-- Either an error is answered and the users table is as before, or the new status is answered and stands
-- in the rows of the identifier.
abbrev pub Written : String → Uuid → Instant → List Domain.User → Answer → Type 0
Written status id now users after =
    ((e : ApiError) × (after.0 ≡ inl e) × (after.1.users ≡ users))
    ⊎ ((synced : Bool) × (after.0
          ≡ inr (record { id = id; status = status; identity_synced = synced }))
        × (after.1.users ≡ change_rows (put_status status) now id users))

-- What becomes of the row that was read.
abbrev pub Outcome : Uuid → Instant → World → RepoError ⊎ Domain.User → Answer → Type 0
Outcome id now w row after =
    ((e : ApiError) × (after.0 ≡ inl e) × (after.1.users ≡ w.users))
    ⊎ ((r : AccountStatus) × (u : Domain.User) × (after.0 ≡ inr r)
        × (row ≡ inr u)
        × (r.id ≡ id)
        × (((u.status ≡ status_suspended) × (after ≡ (inr r, w)))
            ⊎ ((u.status ≡ status_active)
                × (after.1.users ≡ change_rows (put_status status_suspended) now id w.users))))

module _ (deps : SuspendDeps) (id : Uuid) (now : Instant) where
  sync_identity_enabled-users :
      (sub : String) (b : Bool) (w : World) → (sync_identity_enabled deps sub b w).1.users ≡ w.users
  unfolding sync_identity_enabled set_enabled
  sync_identity_enabled-users sub b w = ground arith

  revoke_sessions-users : (w : World) → (revoke_sessions deps id w).users ≡ w.users
  unfolding revoke_sessions
  revoke_sessions-users w = ground arith

  pub set_status-inr :
      (fault : Bool) (status : String) (users after : List Domain.User)
      → set_status fault id status now users ≡ inr after
      → after ≡ change_rows (put_status status) now id users
  unfolding set_status update
  set_status-inr true status users after h = absurd (cc)
  set_status-inr false status users after h = update-inr (put_status status) now id users after h

  pub persisted-Written :
      (status : String) (synced : Bool) (failure : ApiError) (finish : World → World) (w : World)
      → ((v : World) → (finish v).users ≡ v.users)
      → (r : RepoError ⊎ List Domain.User) → set_status deps.persist_fails id status now w.users ≡ r
      → Written status id now w.users (persisted deps id status synced failure finish r w)
  unfolding persisted
  persisted-Written status synced failure finish w keeps (inl e) h = inl (failure, refl, refl)
  persisted-Written status synced failure finish w keeps (inr users) h = inr (
    synced,
    refl,
    keeps (record w { users = users }) ∙ set_status-inr deps.persist_fails status w.users users h,
  )

  suspend_synced-Written :
      (answer : (ApiError ⊎ Bool) × World)
      → Written status_suspended id now answer.1.users (suspend_synced deps id now answer)
  unfolding suspend_synced
  suspend_synced-Written (inl e, w) = inl (e, refl, refl)
  suspend_synced-Written (inr synced, w) =
      persisted-Written status_suspended synced _ (revoke_sessions deps id) w revoke_sessions-users
        (set_status deps.persist_fails id status_suspended now w.users) refl

  sync-Written :
      (sub : String) (w : World)
      → Written status_suspended id now w.users
          (suspend_synced deps id now (sync_identity_enabled deps sub false w))
  sync-Written sub w =
      subst
        (λ (users : List Domain.User).
          Written status_suspended id now users
            (suspend_synced deps id now (sync_identity_enabled deps sub false w)))
        (sync_identity_enabled-users sub false w)
        (suspend_synced-Written (sync_identity_enabled deps sub false w))

  suspend_row-Outcome :
      (row : RepoError ⊎ Domain.User) (w : World)
      → Outcome id now w row (suspend_row deps id now row w)
  unfolding suspend_row
  suspend_row-Outcome (inl e) w = inl (_, refl, refl)
  suspend_row-Outcome (inr u) w = elim (Bool-cases (u.status == status_suspended)) [
    | inl t ↦ inr (
      record { id = id; status = u.status; identity_synced = deps.identity },
      u,
      rw t refl,
      refl,
      refl,
      inl (ground (arith, t, eq_iff u.status status_suspended), rw t refl),
    )
    | inr f ↦ elim (Bool-cases (u.status == status_deleted)) [
      | inl t ↦ inl (account_deleted, rw (f, t) refl, rw (f, t) refl)
      | inr g ↦ elim (Bool-cases (u.status == status_active)) [
        | inr h ↦ inl (account_not_active, rw (f, g, h) refl, rw (f, g, h) refl)
        | inl t ↦
            let active : u.status ≡ status_active =
              ground (arith, t, eq_iff u.status status_active) in
            rw (f, g, t)
              (elim (sync-Written u.keycloak_sub w) [
                | inl e ↦ inl e
                | inr (synced, answer, users) ↦ inr (
                  record { id = id; status = status_suspended; identity_synced = synced },
                  u,
                  answer,
                  refl,
                  refl,
                  inr (active, users),
                )
              ])
      ]
    ]
  ]

pub get_by_id-inr :
    (fault : Bool) (id : Uuid) (users : List Domain.User) (u : Domain.User)
    → get_by_id fault id users ≡ inr u
    → find_id id users ≡ some u
unfolding get_by_id found
get_by_id-inr true id users u h = absurd (cc)
get_by_id-inr false id users u h = elim (Option-cases (find_id id users)) [
  | inl e ↦ absurd (ground (arith, h, e))
  | inr (v, e) ↦ e ∙ ap some (ground (arith, h, e))
]

-- The account that an answer is about, and how its row was and is.
abbrev pub Target : Auth.User → Instant → World → AccountStatus → Domain.User → Answer → Type 0
Target caller now w r u after =
    (eqb caller.id r.id ≡ false)
    × (eqb r.id stub_user.id ≡ false)
    × (find_id r.id w.users ≡ some u)
    × (((u.status ≡ status_suspended) × (after ≡ (inr r, w)))
        ⊎ ((u.status ≡ status_active)
            × (after.1.users ≡ change_rows (put_status status_suspended) now r.id w.users)))

module _ (deps : SuspendDeps) (caller : Auth.User) (now : Instant) (w : World) where
  suspend_id-Target :
      (id : ApiError ⊎ Uuid)
      → let after = suspend_id deps caller now w id in
        ((e : ApiError) × (after.0 ≡ inl e) × (after.1.users ≡ w.users))
        ⊎ ((r : AccountStatus) × (u : Domain.User) × (after.0 ≡ inr r)
            × Target caller now w r u after)
  unfolding suspend_id
  suspend_id-Target (inl e) = inl (e, refl, refl)
  suspend_id-Target (inr id) = elim (Bool-cases (eqb caller.id id)) [
    | inl t ↦ inl (cannot_suspend_self, rw t refl, rw t refl)
    | inr self ↦ elim (Bool-cases (eqb id stub_user.id)) [
      | inl t ↦ inl (cannot_suspend_system, rw (self, t) refl, rw (self, t) refl)
      | inr system ↦
          rw (self, system)
            (elim (suspend_row-Outcome deps id now (get_by_id deps.get_fails id w.users) w) [
              | inl e ↦ inl e
              | inr (r, u, answer, read, same, change) ↦ inr (
                r,
                u,
                answer,
                (
                  rw same self,
                  rw same system,
                  rw same (get_by_id-inr deps.get_fails id w.users u read),
                  subst
                      (λ (k : Uuid).
                        ((u.status ≡ status_suspended)
                          × (suspend_row deps id now (get_by_id deps.get_fails id w.users) w
                              ≡ (inr r, w)))
                        ⊎ ((u.status ≡ status_active)
                            × ((suspend_row deps id now (get_by_id deps.get_fails id w.users)
                                  w).1.users
                                ≡ change_rows (put_status status_suspended) now k w.users)))
                      (sym same) change,
                ),
              )
            ])
    ]
  ]

  module _ (uuids : UuidText) (shares : Option SharesLookup) (e : Enforcer shares)
      (answers : Answers shares) (parse : String → Option Uuid) (raw : String) where
    suspend_user-refused :
        may_edit_console caller ≡ false
        → suspend_user deps uuids (some e.enforce) parse caller raw now w ≡ (inl forbidden, w)
    unfolding guarded_step suspend_user
    suspend_user-refused f =
        let refused : check uuids (some e.enforce) caller devops_resource act_edit
            ≡ some forbidden =
          check-devops_edit uuids shares e answers caller ∙ (rw f refl) in
        rw (refused, suspend_user) refl

    pub suspend_user-admitted :
        may_edit_console caller ≡ true
        → suspend_user deps uuids (some e.enforce) parse caller raw now w
          ≡ suspend_id deps caller now w (parse_uuid parse raw)
    unfolding guarded_step suspend_user
    suspend_user-admitted t =
        let admitted : check uuids (some e.enforce) caller devops_resource act_edit ≡ none =
          check-devops_edit uuids shares e answers caller ∙ (rw t refl) in
        rw (admitted, suspend_user) refl

    -- If the shares table can be read, then a call of suspend either answers with an error and leaves the users table as
    -- it was, the error being 403 forbidden for all but devops admins and admins; or the caller is one of these,
    -- and the account of the answer is neither the caller's own nor the system's, has a row, and this row was either
    -- suspended already, and nothing at all changes, or active, and in the table exactly the rows of its identifier become suspended.
    pub suspend_user_lem :
        let after = suspend_user deps uuids (some e.enforce) parse caller raw now w in
        ((err : ApiError) × (after.0 ≡ inl err)
          × (after.1.users ≡ w.users)
          × ((may_edit_console caller ≡ true) ⊎ (err ≡ forbidden)))
        ⊎ ((r : AccountStatus) × (u : Domain.User) × (after.0 ≡ inr r)
            × (may_edit_console caller ≡ true)
            × Target caller now w r u after)
    suspend_user_lem = elim (Bool-cases (may_edit_console caller)) [
      | inr f ↦ rw (suspend_user-refused f) (inl (forbidden, refl, refl, inr refl))
      | inl t ↦ rw (suspend_user-admitted t) (elim (suspend_id-Target (parse_uuid parse raw)) [
        | inl (err, a, b) ↦ inl (err, a, b, inl t)
        | inr (r, u, answer, target) ↦ inr (r, u, answer, t, target)
      ])
    ]
