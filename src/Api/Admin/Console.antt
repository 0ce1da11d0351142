-- ===== src/Api/Admin/Console.antt =====
-- The landing of the admin console: its sections and which of them work (overview and sections of
-- internal/api/admin.go).
use minerals.Base.{
  String, ◌==◌, Bool, false, ◌||◌, Option, some, List, [], ◌∷◌, map, if◌then◌else◌, ◌≡◌, ◌⊎◌, refl,
  arith, Bool-cases, inl, inr,
}
use minerals.Uuid.{UuidText}
use minerals.Auth
use minerals.Authz.{SharesLookup, Enforcer}
use minerals.Authz.Specimens.{Answers}
use minerals.Api.Guard.{ApiError, Enforce, act_view, check, devops_resource, guarded, forbidden}
use minerals.Api.Guard.Devops.{may_see_console, check-devops_view}

pub record AdminConsoleSection : Type 0 where
  pub key : String
  pub title : String
  pub status : String
  pub description : String

pub record AdminOverviewBody : Type 0 where
  pub console : String
  pub message : String
  pub sections : List AdminConsoleSection

-- What `adminService` is wired with.
pub record Wiring : Type 0 where
  pub incident_register : Bool
  pub admin : Bool
  pub registration_toggle : Bool
  pub moderation : Bool

abbrev planned : String → String → String → AdminConsoleSection
planned key title description = record {
  key = key;
  title = title;
  status = "planned";
  description = description;
}

abbrev pub admin_console_sections : List AdminConsoleSection
admin_console_sections =
    planned "users" "Users (non-personal)"
      "List/inspect all users' non-personal fields for operations. Scoped to non-PII fields; blocked on the GDPR/PII classification sign-off."
    ∷ planned "published-content" "Published content review"
        "All public/unlisted specimens, photos, and journal entries across users, for usage-policy compliance review."
    ∷ planned "moderation" "Moderation"
        "Unpublish/hide/remove policy-violating content. Hosts the takedown actions designed in the moderation story (mi-b2q0)."
    ∷ planned "incident-register" "Confidentiality-incident register"
        "Law 25 incident register in a separate, append-only store with >=5yr retention; admin-authored compliance data."
    ∷ planned "site-management" "Site management"
        "Operational controls (instance health, account state). Minimal v1 scope pending operator confirmation."
    ∷ []

-- Is the section of this key wired?
unfoldable pub is_wired : Wiring → String → Bool
is_wired w key =
    if key == "incident-register"
    then w.incident_register
    else if key == "users" || key == "published-content"
    then w.admin
    else if key == "site-management"
    then w.registration_toggle
    else if key == "moderation"
    then w.moderation
    else false

unfoldable pub section : Wiring → AdminConsoleSection → AdminConsoleSection
section w s = if is_wired w s.key then record s { status = "available" } else s

unfoldable pub sections : Wiring → List AdminConsoleSection
sections w = map (section w) admin_console_sections

unfoldable pub overview_body : Wiring → AdminOverviewBody
overview_body w = record {
  console = "admin";
  message =
      "Admin/devops console shell is live. Data-bearing surfaces are pending (see mi-agff). This landing confirms your role cleared the devops gate.";
  sections = sections w;
}

unfoldable pub overview :
    UuidText → Option Enforce → Wiring → Auth.User → ApiError ⊎ AdminOverviewBody
overview uuids guard w caller =
    guarded (check uuids guard caller devops_resource act_view) (inr (overview_body w))

abbrev statuses : List AdminConsoleSection → List String
statuses [] = []
statuses (s ∷ ss) = s.status ∷ statuses ss

abbrev status_of : Bool → String
status_of b = if b then "available" else "planned"

-- The console lists its five sections in order, each available exactly if its part is wired.
pub sections-status :
    (w : Wiring)
    → statuses (sections w)
      ≡ status_of w.admin
        ∷ (status_of w.admin
            ∷ (status_of w.moderation
                ∷ (status_of w.incident_register ∷ (status_of w.registration_toggle ∷ []))))
unfolding sections section is_wired
sections-status w = ground arith

-- If the shares table can be read, the landing is shown to exactly the devops viewers, the devops admins
-- and the admins; all others get 403.
pub overview_lem :
    (uuids : UuidText) (shares : Option SharesLookup) (e : Enforcer shares)
    (answers : Answers shares) (w : Wiring) (caller : Auth.User)
    → overview uuids (some e.enforce) w caller
      ≡ (if may_see_console caller then inr (overview_body w) else inl forbidden)
unfolding overview guarded
overview_lem uuids shares e answers w caller = elim (Bool-cases (may_see_console caller)) [
  | inl t ↦ rw (check-devops_view uuids shares e answers caller) (rw t refl)
  | inr f ↦ rw (check-devops_view uuids shares e answers caller) (rw f refl)
]
