-- ===== src/Api/Admin/Lockout.antt =====
-- A suspension locks the account out (suspendUser of internal/api/admin.go with the chains of
-- internal/api/huma_auth.go).
use minerals.Base.{
  String, ◌==◌, true, false, Option, some, List, eqb, ◌≡◌, ◌⊎◌, refl, sym, ap, ◌∙◌, arith, inl, inr,
}
use mathlib.Core.Path.{subst}
use mathlib.Core.Option
use minerals.Uuid.{Uuid, UuidText}
use minerals.Domain
use minerals.Domain.{Instant, status_active, status_suspended}
use minerals.Auth
use minerals.Auth.{Claims}
use minerals.Authz.{SharesLookup, Enforcer}
use minerals.Authz.Specimens.{Answers}
use minerals.Users.{put_status, changed, find_id, find_sub, change_row}
use minerals.Users.Rows.{IsUnique, find_sub-find_id, find_sub-change_rows}
use minerals.Api.Guard.{ApiError}
use minerals.Api.HumaAuth.{
  stop, account_suspended, huma_auth, huma_optional_auth, protected, optional, setup_allowed,
}
use minerals.Api.HumaAuth
use minerals.Api.HumaAuth.Laws.{suspended-stop}
use minerals.Api.Admin.{World, SuspendDeps, AccountStatus, Answer, suspend_user}
use minerals.Api.Admin.Suspend.{Target, suspend_user_lem}

-- The account's row after the call.
abbrev SuspendedRow : String → List Domain.User → Type 0
SuspendedRow sub users =
    (row : Domain.User) × (find_sub sub users ≡ some row) × (row.status ≡ status_suspended)

change_row-suspended :
    (now : Instant) (id : Uuid) (u : Domain.User)
    → u.id ≡ id
    → (change_row (put_status status_suspended) now id u).status ≡ status_suspended
unfolding change_row changed
change_row-suspended now id u same = let t : eqb u.id id ≡ true = ground (arith, same) in rw t refl

Target-SuspendedRow :
    (caller : Auth.User) (now : Instant) (w : World) (r : AccountStatus) (u : Domain.User)
    (after : Answer)
    → IsUnique w.users
    → Target caller now w r u after
    → SuspendedRow u.keycloak_sub after.1.users
Target-SuspendedRow caller now w r u after unique (self, system, own, inl (suspended, kept)) =
    let (sub, id) = find_sub-find_id r.id w.users u unique own in
    (u, ap (λ (a : Answer). find_sub u.keycloak_sub a.1.users) kept ∙ sub, suspended)
Target-SuspendedRow caller now w r u after unique (self, system, own, inr (active, written)) =
    let (sub, id) = find_sub-find_id r.id w.users u unique own in
    (
      change_row (put_status status_suspended) now r.id u,
      ap (find_sub u.keycloak_sub) written
          ∙ find_sub-change_rows (put_status status_suspended) now r.id u.keycloak_sub w.users
          ∙ ap (Option.map (change_row (put_status status_suspended) now r.id)) sub,
      change_row-suspended now r.id u id,
    )

module _ (deps : SuspendDeps) (caller : Auth.User) (now : Instant) (w after : World)
    (uuids : UuidText) (shares : Option SharesLookup) (e : Enforcer shares)
    (answers : Answers shares) (parse : String → Option Uuid) (raw : String)
    (r : AccountStatus) where
  suspend_user-SuspendedRow :
      IsUnique w.users
      → suspend_user deps uuids (some e.enforce) parse caller raw now w ≡ (inr r, after)
      → (u : Domain.User) × (find_id r.id w.users ≡ some u)
        × SuspendedRow u.keycloak_sub after.users
  suspend_user-SuspendedRow unique done =
      elim (suspend_user_lem deps caller now w uuids shares e answers parse raw) [
        | inl (err, failed, _, _) ↦
            let no_error : ◌≡◌ {A = ApiError ⊎ AccountStatus} (inl err) (inr r) =
              sym failed ∙ ap (λ (a : Answer). a.0) done in
            absurd (cc)
        | inr (r', u, answer, editor, target) ↦
            let both : ◌≡◌ {A = ApiError ⊎ AccountStatus} (inr r') (inr r) =
              sym answer ∙ ap (λ (a : Answer). a.0) done in
            let q : r' ≡ r = cc in
            let (self, system, own, change) = target in
            (
              u,
              subst (λ (x : AccountStatus). find_id x.id w.users ≡ some u) q own,
              subst (λ (a : Answer). SuspendedRow u.keycloak_sub a.1.users) done
                  (Target-SuspendedRow caller now w r' u _ unique target),
            )
      ]

  -- A suspension is effective at once: in a table with unique keys, if the shares table can be read and suspend answers without an error, then
  -- every request that authenticates as the account's subject is refused with 403 account_suspended on every chain, if
  -- its first read of the users table does not fail, whether or not the identity provider and the
  -- session store are wired and did their part.
  pub suspend_user-locked_out :
      (row : Domain.User) (v : Auth.User) (verifier : Option (String → Option Claims))
      (faults : HumaAuth.Faults) (id : Uuid) (then' : Instant) (t2 t3 : List Domain.User)
      (current : Auth.User) (header : String)
      → IsUnique w.users
      → suspend_user deps uuids (some e.enforce) parse caller raw now w ≡ (inr r, after)
      → find_id r.id w.users ≡ some row
      → v.sub ≡ row.keycloak_sub
      → (v.sub == "") ≡ false
      → huma_auth parse verifier current header ≡ HumaAuth.next v
      → huma_optional_auth parse verifier current header ≡ HumaAuth.next v
      → faults.read ≡ false
      → (protected parse verifier faults id then' after.users t2 t3 true current header
          ≡ (stop account_suspended, after.users))
        × (optional parse verifier faults id then' after.users t2 t3 true current header
            ≡ (stop account_suspended, after.users))
        × (setup_allowed parse verifier faults id then' after.users t2 t3 true current header
            ≡ (stop account_suspended, after.users))
  suspend_user-locked_out row v verifier faults id then' t2 t3 current header unique done own
        subject named known known' ok =
      let (u, own', (blocked, found, suspended)) = suspend_user-SuspendedRow unique done in
      let same : some u ≡ some row = sym own' ∙ own in
      let sub : u.keycloak_sub ≡ v.sub =
        let one : u ≡ row = cc in ap (λ (x : Domain.User). x.keycloak_sub) one ∙ sym subject in
      suspended-stop parse verifier faults id then' after.users t2 t3 current header v blocked known
        known' named ok (ap (λ (s : String). find_sub s after.users) (sym sub) ∙ found) suspended
