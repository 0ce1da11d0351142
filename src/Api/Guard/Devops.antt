-- ===== src/Api/Guard/Devops.antt =====
-- Whom the guard lets use the admin console (internal/api/authz.go over internal/authz).
use minerals.Base.{
  String, ◌==◌, Bool, false, ◌||◌, Option, none, some, [], ◌∷◌, if◌then◌else◌, ◌≡◌, refl, arith,
  contains,
}
use minerals.Uuid.{UuidText}
use minerals.Auth
use minerals.Authz.{SharesLookup, Enforcer}
use minerals.Authz.Specimens.{Answers}
use minerals.Authz.Devops.{enforce_user-devops_view, enforce_user-devops_edit}
use minerals.Api.Guard.{act_view, act_edit, forbidden, authz_user, check, devops_resource}
use minerals.Api.Guard.Specimens.{contains-append}

-- Who may look at the console, and who may act in it.
abbrev pub may_see_console : Auth.User → Bool
may_see_console u =
    contains u.roles "devops-viewer" || contains u.roles "devops-admin" || contains u.roles "admin"

abbrev pub may_edit_console : Auth.User → Bool
may_edit_console u = contains u.roles "devops-admin" || contains u.roles "admin"

module _ (uuids : UuidText) where
  contains-authz_roles :
      (u : Auth.User) (r : String)
      → ("user" == r) ≡ false
      → ("anonymous" == r) ≡ false
      → contains (authz_user uuids u).roles r ≡ contains u.roles r
  unfolding authz_user contains
  contains-authz_roles u r h k = ground (arith, contains-append u.roles ("user" ∷ []) r, h, k)

  module _ (shares : Option SharesLookup) (e : Enforcer shares) (answers : Answers shares) where
    -- If the shares table can be read, the console is shown to exactly the devops viewers, the devops admins and the admins, whatever
    -- else they are; all others get 403.
    pub check-devops_view :
        (u : Auth.User)
        → check uuids (some e.enforce) u devops_resource act_view
          ≡ (if may_see_console u then none else some forbidden)
    unfolding check devops_resource
    check-devops_view u = rw (enforce_user-devops_view shares e answers (authz_user uuids u)) (
        rw
          (
            contains-authz_roles u "devops-viewer" refl refl,
            contains-authz_roles u "devops-admin" refl refl,
            contains-authz_roles u "admin" refl refl,
          )
          refl)

    pub check-devops_edit :
        (u : Auth.User)
        → check uuids (some e.enforce) u devops_resource act_edit
          ≡ (if may_edit_console u then none else some forbidden)
    unfolding check devops_resource
    check-devops_edit u = rw (enforce_user-devops_edit shares e answers (authz_user uuids u)) (
        rw
          (
            contains-authz_roles u "devops-admin" refl refl,
            contains-authz_roles u "admin" refl refl,
          )
          refl)
