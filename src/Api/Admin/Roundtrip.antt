-- ===== src/Api/Admin/Roundtrip.antt =====
-- Lifting a suspension restores the account (internal/api/admin.go).
use minerals.Base.{
  String, ◌==◌, true, Option, some, List, [], ◌∷◌, eqb, ◌≡◌, ◌⊎◌, refl, sym, ap, ◌∙◌, arith, eq_iff,
  Bool-cases, inl, inr,
}
use mathlib.Core.Option
use mathlib.Core.Path.{subst}
use minerals.Uuid.{Uuid, UuidText}
use minerals.Domain
use minerals.Domain.{Instant, status_active, status_suspended}
use minerals.Auth
use minerals.Authz.{SharesLookup, Enforcer}
use minerals.Authz.Specimens.{Answers}
use minerals.Users.{put_status, changed, find_id, change_row, change_rows}
use minerals.Api.Guard.{ApiError}
use minerals.Api.Admin.{World, SuspendDeps, AccountStatus, Answer, suspend_user, unsuspend_user}
use minerals.Api.Admin.Suspend.{Target, suspend_user_lem}
use minerals.Api.Admin.Unsuspend.{Lifts, unsuspend_user_lem, find_id-change_rows}

suspended-ne-active : (s : String) → s ≡ status_suspended → s ≡ status_active → ⊥
suspended-ne-active s h k =
    let t : (status_suspended == status_active) ≡ true =
      ap (λ (x : String). x == status_active) (sym h) ∙ (rw k refl) in
    cc

find_id_eq :
    (id : Uuid) (users : List Domain.User) (u : Domain.User) → find_id id users ≡ some u → u.id ≡ id
unfolding find_id
find_id_eq id [] u h = absurd (cc)
find_id_eq id (r ∷ users) u h = elim (Bool-cases (eqb r.id id)) [
  | inl t ↦
      let e : r ≡ u = ground (arith, h, t) in
      let i : r.id ≡ id = ground (arith, t) in ap (λ (w : Domain.User). w.id) (sym e) ∙ i
  | inr f ↦ find_id_eq id users u (ground (arith, h, f))
]

-- The row of an identifier after its status was written.
find_id-put_status :
    (status : String) (now : Instant) (id : Uuid) (users after : List Domain.User) (u : Domain.User)
    → find_id id users ≡ some u
    → after ≡ change_rows (put_status status) now id users
    → find_id id after ≡ some (record u { status = status; updated_at = now })
unfolding change_row changed
find_id-put_status status now id users after u own written =
    let t : eqb u.id id ≡ true = let i = find_id_eq id users u own in ground (arith, i) in
    ap (find_id id) written
    ∙ find_id-change_rows (put_status status) now id id users
    ∙ ap (Option.map (change_row (put_status status) now id)) own
    ∙ (rw t refl)

module _ (uuids : UuidText) (shares : Option SharesLookup) (e : Enforcer shares)
    (answers : Answers shares) (parse : String → Option Uuid) where
  module _ (deps : SuspendDeps) (caller : Auth.User) (now : Instant) (w after : World)
      (raw : String) (r : AccountStatus) where
    suspended_row :
        (u : Domain.User)
        → find_id r.id w.users ≡ some u
        → u.status ≡ status_active
        → suspend_user deps uuids (some e.enforce) parse caller raw now w ≡ (inr r, after)
        → find_id r.id after.users ≡ some (record u { status = status_suspended; updated_at = now })
    suspended_row u own active done =
        elim (suspend_user_lem deps caller now w uuids shares e answers parse raw) [
          | inl (err, failed, _, _) ↦
              let no_error : ◌≡◌ {A = ApiError ⊎ AccountStatus} (inl err) (inr r) =
                sym failed ∙ ap (λ (a : Answer). a.0) done in
              absurd (cc)
          | inr (r', v, answer, editor, target) ↦
              let both : ◌≡◌ {A = ApiError ⊎ AccountStatus} (inr r') (inr r) =
                sym answer ∙ ap (λ (a : Answer). a.0) done in
              let q : r' ≡ r = cc in
              let (self, system, own', change) =
                subst
                  (λ (x : AccountStatus).
                    Target caller now w x v
                      (suspend_user deps uuids (some e.enforce) parse caller raw now w))
                  q target in
              let one : some v ≡ some u = sym own' ∙ own in
              let st : v.status ≡ status_active =
                let same : v ≡ u = cc in ap (λ (x : Domain.User). x.status) same ∙ active in
              elim change [
                | inl (suspended, _) ↦ absurd (suspended-ne-active v.status suspended st)
                | inr (_, written) ↦
                    find_id-put_status status_suspended now r.id w.users after.users u own
                      (ap (λ (a : Answer). a.1.users) (sym done) ∙ written)
              ]
        ]

    unsuspended_row :
        (u : Domain.User)
        → find_id r.id w.users ≡ some u
        → u.status ≡ status_suspended
        → unsuspend_user deps uuids (some e.enforce) parse caller raw now w ≡ (inr r, after)
        → find_id r.id after.users ≡ some (record u { status = status_active; updated_at = now })
    unsuspended_row u own suspended done =
        elim (unsuspend_user_lem deps caller now w uuids shares e answers parse raw) [
          | inl (err, failed, _) ↦
              let no_error : ◌≡◌ {A = ApiError ⊎ AccountStatus} (inl err) (inr r) =
                sym failed ∙ ap (λ (a : Answer). a.0) done in
              absurd (cc)
          | inr (r', v, answer, editor, lifts) ↦
              let both : ◌≡◌ {A = ApiError ⊎ AccountStatus} (inr r') (inr r) =
                sym answer ∙ ap (λ (a : Answer). a.0) done in
              let q : r' ≡ r = cc in
              let (own', change) =
                subst
                  (λ (x : AccountStatus).
                    Lifts now w x v
                      (unsuspend_user deps uuids (some e.enforce) parse caller raw now w))
                  q lifts in
              let one : some v ≡ some u = sym own' ∙ own in
              let st : v.status ≡ status_suspended =
                let same : v ≡ u = cc in ap (λ (x : Domain.User). x.status) same ∙ suspended in
              elim change [
                | inl (live, _) ↦
                    absurd (ground (arith, live, eq_iff v.status status_suspended, st))
                | inr (_, written) ↦
                    find_id-put_status status_active now r.id w.users after.users u own
                      (ap (λ (a : Answer). a.1.users) (sym done) ∙ written)
              ]
        ]

  -- Lifting a suspension restores the account: in whatever state the collaborators are, if the shares table can be read, suspend answers
  -- without an error for an active account, and then unsuspend does for the same account, its
  -- row is as it was before but for the time of its last update.
  pub unsuspend_user-suspend_user :
      (deps deps' : SuspendDeps) (caller caller' : Auth.User) (now now' : Instant)
      (w mid after : World) (raw raw' : String) (r r' : AccountStatus) (u : Domain.User)
      → find_id r.id w.users ≡ some u
      → u.status ≡ status_active
      → suspend_user deps uuids (some e.enforce) parse caller raw now w ≡ (inr r, mid)
      → unsuspend_user deps' uuids (some e.enforce) parse caller' raw' now' mid ≡ (inr r', after)
      → r'.id ≡ r.id
      → find_id r.id after.users ≡ some (record u { updated_at = now' })
  unsuspend_user-suspend_user deps deps' caller caller' now now' w mid after raw raw' r r' u own
        active done undone same =
      let mid_row = suspended_row deps caller now w mid raw r u own active done in
      let row' =
        unsuspended_row deps' caller' now' mid after raw' r'
          (record u { status = status_suspended; updated_at = now })
          (ap (λ (k : Uuid). find_id k mid.users) same ∙ mid_row) refl undone in
      ap (λ (k : Uuid). find_id k after.users) (sym same)
      ∙ row'
      ∙ (λ i. some (record u { status = sym active i; updated_at = now' }))
