-- ===== src/Api/HumaAuth/FirstLogin.antt =====
-- From the first login to a complete profile (internal/api/huma_auth.go, UserRepo.MarkActive).
use minerals.Base.{
  String, ◌==◌, true, false, Option, none, some, List, ◌∷◌, eqb, ◌≡◌, refl, ap, ◌∙◌, arith, eq_refl,
  inr, any,
}
use mathlib.Core.Option
use minerals.Uuid.{Uuid}
use minerals.Domain
use minerals.Domain.{Instant, status_pending, status_suspended}
use minerals.Auth
use minerals.Auth.{Claims}
use minerals.Users.{
  activate, changed, find_sub, found, get_by_sub, clashes, create, change_row, mark_active,
}
use minerals.Users.Rows.{find_sub-change_rows, update-inr}
use minerals.Api.HumaAuth.{
  next, stop, Faults, setup_required, merged, resolved, fresh_user, after_create, after_read,
  resolve_or_create_user, resolve_user, require_complete_profile, then_with, then_resolve,
  huma_auth, protected, setup_allowed,
}
use minerals.Api.HumaAuth.Laws.{resolve_user-active}

-- A subject that has no row gets one.
resolve_user-fresh :
    (faults : Faults) (id : Uuid) (now : Instant) (users t3 : List Domain.User) (u : Auth.User)
    → (u.sub == "") ≡ false
    → faults.read ≡ false
    → faults.insert ≡ false
    → find_sub u.sub users ≡ none
    → any (clashes (fresh_user id now u)) users ≡ false
    → resolve_user faults id now users users t3 u
      ≡ (next (merged u (fresh_user id now u)), fresh_user id now u ∷ users)
unfolding resolve_user resolve_or_create_user get_by_sub found after_read after_create create
    resolved fresh_user
resolve_user-fresh faults id now users t3 u named ok ins unknown fresh =
    rw (named, ok, unknown) (rw (ins, fresh) refl)

find_sub-fresh_user :
    (id : Uuid) (now : Instant) (u : Auth.User) (users : List Domain.User)
    → find_sub u.sub (fresh_user id now u ∷ users) ≡ some (fresh_user id now u)
unfolding find_sub fresh_user
find_sub-fresh_user id now u users = rw (eq_refl u.sub) refl

changed-active :
    (name : String) (later : Instant) (row : Domain.User)
    → (((changed (activate name) later row).status == status_suspended) ≡ false)
      × (((changed (activate name) later row).status == status_pending) ≡ false)
unfolding changed
changed-active name later row = (refl, refl)

fresh_user-pending :
    (id : Uuid) (now : Instant) (u : Auth.User)
    → ((fresh_user id now u).status == status_pending) ≡ true
unfolding fresh_user
fresh_user-pending id now u = refl

gate-open :
    (u : Auth.User) (row : Domain.User)
    → (row.status == status_pending) ≡ false
    → (users : List Domain.User)
    → then_with require_complete_profile (next (merged u row), users) ≡ (next (merged u row), users)
unfolding then_with require_complete_profile merged
gate-open u row h users = rw h refl

gate-closed :
    (u : Auth.User) (row : Domain.User)
    → (row.status == status_pending) ≡ true
    → (users : List Domain.User)
    → then_with require_complete_profile (next (merged u row), users) ≡ (stop setup_required, users)
unfolding then_with require_complete_profile merged
gate-closed u row h users = rw h refl

-- The row of a first login after its profile is complete.
find_sub-activated :
    (id : Uuid) (now later : Instant) (name : String) (u : Auth.User)
    (users done : List Domain.User)
    → mark_active false id name later (fresh_user id now u ∷ users) ≡ inr done
    → find_sub u.sub done ≡ some (changed (activate name) later (fresh_user id now u))
unfolding mark_active change_row fresh_user
find_sub-activated id now later name u users done active =
    let rows = fresh_user id now u ∷ users in
    let own : eqb id id ≡ true = ground arith in
    ap (find_sub u.sub) (update-inr (activate name) later id rows done active)
    ∙ find_sub-change_rows (activate name) later id u.sub rows
    ∙ ap (Option.map (change_row (activate name) later id)) (find_sub-fresh_user id now u users)
    ∙ (rw own refl)

module _ (parse_uuid : String → Option Uuid) (verifier : Option (String → Option Claims))
    (faults : Faults) (id : Uuid) (now : Instant) (users t3 : List Domain.User)
    (current : Auth.User) (header : String) (u : Auth.User) where
  -- A first login: if authentication gives an identity with a subject that has no row, both queries succeed and
  -- the new row clashes with no other, then the protected chain answers 403 profile_setup_required, the setup
  -- chain reaches its handler, and each of them leaves a pending row of the subject in the table; once
  -- MarkActive has succeeded on that row, the protected chain reaches its handler with the row's identifier.
  pub first_login :
      (later : Instant) (name : String) (done : List Domain.User)
      → huma_auth parse_uuid verifier current header ≡ next u
      → (u.sub == "") ≡ false
      → faults.read ≡ false
      → faults.insert ≡ false
      → find_sub u.sub users ≡ none
      → any (clashes (fresh_user id now u)) users ≡ false
      → mark_active false id name later (fresh_user id now u ∷ users) ≡ inr done
      → let row = fresh_user id now u in
        (protected parse_uuid verifier faults id now users users t3 true current header
          ≡ (stop setup_required, row ∷ users))
        × (setup_allowed parse_uuid verifier faults id now users users t3 true current header
            ≡ (next (merged u row), row ∷ users))
        × (protected parse_uuid verifier faults id later done done done true current header
            ≡ (next (merged u (changed (activate name) later row)), done))
  unfolding protected setup_allowed then_resolve then_with require_complete_profile
  first_login later name done known named ok ins unknown fresh active =
      let new' = resolve_user-fresh faults id now users t3 u named ok ins unknown fresh in
      let live = changed-active name later (fresh_user id now u) in
      let own = find_sub-activated id now later name u users done active in
      let old = resolve_user-active faults id later done done done u _ named ok own (live.0) in
      (
        rw known (rw new' (gate-closed u (fresh_user id now u) (fresh_user-pending id now u) _)),
        rw known new',
        rw known (rw old (gate-open u _ (live.1) _)),
      )
