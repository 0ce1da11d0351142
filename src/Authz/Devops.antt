-- ===== src/Authz/Devops.antt =====
-- Who the default policies let use the admin console (policies.go, the resource `devops`).
use minerals.Base.{
  String, ◌==◌, Bool, ◌||◌, Option, some, List, [], ◌∷◌, ◌≡◌, refl, ap, ◌∙◌, arith, contains, any,
}
use minerals.Authz.{
  Resource, User, ok, SharesLookup, matcher, action_match, instance_match, Enforcer, enforce_user,
}
use minerals.Authz.Specimens.{
  Answers, matched, g-plain, enforce_roles-eq-any, enforce-eq-matched, specimen_rules,
}

abbrev pub devops : Resource
devops = record { type = "devops"; id = ""; visibility = ""; author_id = "" }

-- What the policies grant a role on the console.
abbrev pub role_sees_console : String → Bool
role_sees_console role = role == "devops-viewer" || role == "devops-admin" || role == "admin"

abbrev pub role_edits_console : String → Bool
role_edits_console role = role == "devops-admin" || role == "admin"

any-role_sees_console :
    (roles : List String)
    → any role_sees_console roles
      ≡ (contains roles "devops-viewer" || contains roles "devops-admin" || contains roles "admin")
unfolding contains
any-role_sees_console [] = refl
any-role_sees_console (role ∷ roles) = ground (arith, any-role_sees_console roles)

any-role_edits_console :
    (roles : List String)
    → any role_edits_console roles ≡ (contains roles "devops-admin" || contains roles "admin")
unfolding contains
any-role_edits_console [] = refl
any-role_edits_console (role ∷ roles) = ground (arith, any-role_edits_console roles)

module _ (shares : Option SharesLookup) (e : Enforcer shares) where
  g-viewer :
      (role : String)
      → e.g role "devops-viewer" ≡ (role == "devops-viewer" || role == "devops-admin")
  g-viewer role = e.g_links role "devops-viewer" ∙ (ground arith)

  matched-devops_view :
      (role sub_id : String) → matched shares e role sub_id devops "view" ≡ role_sees_console role
  unfolding matcher action_match instance_match
  matched-devops_view role sub_id =
      simp
        (
          g-viewer role,
          g-plain shares e role "devops-admin" refl,
          g-plain shares e role "admin" refl,
          specimen_rules,
        )
        (ground arith)

  matched-devops_edit :
      (role sub_id : String) → matched shares e role sub_id devops "edit" ≡ role_edits_console role
  unfolding matcher action_match instance_match
  matched-devops_edit role sub_id =
      simp
        (
          g-viewer role,
          g-plain shares e role "devops-admin" refl,
          g-plain shares e role "admin" refl,
          specimen_rules,
        )
        (ground arith)

  module _ (answers : Answers shares) where
    pub enforce_user-devops_view :
        (u : User)
        → enforce_user e.enforce u (some devops) "view"
          ≡ ok (
              contains u.roles "devops-viewer"
              || contains u.roles "devops-admin"
              || contains u.roles "admin")
    unfolding enforce_user
    enforce_user-devops_view u =
        enforce_roles-eq-any shares e role_sees_console u.roles u.id devops "view" (λ role.
          enforce-eq-matched shares e answers role u.id devops "view"
          ∙ ap some (matched-devops_view role u.id))
        ∙ ap ok (any-role_sees_console u.roles)

    pub enforce_user-devops_edit :
        (u : User)
        → enforce_user e.enforce u (some devops) "edit"
          ≡ ok (contains u.roles "devops-admin" || contains u.roles "admin")
    unfolding enforce_user
    enforce_user-devops_edit u =
        enforce_roles-eq-any shares e role_edits_console u.roles u.id devops "edit" (λ role.
          enforce-eq-matched shares e answers role u.id devops "edit"
          ∙ ap some (matched-devops_edit role u.id))
        ∙ ap ok (any-role_edits_console u.roles)
