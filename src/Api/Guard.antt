-- ===== src/Api/Guard.antt =====
-- The per-resource authorization guard (internal/api/authz.go).
--
-- The caller is the request's identity. An enforcer that is not wired is `none`; a wired one is what
-- it answers. An error is the envelope that the handler sends, and no error is `none`.
pub mod Specimens
pub mod Devops
use minerals.Base.{
  ℕ, zero, suc, ◌+◌, ◌-◌, ◌*◌, ◌/◌, ◌%◌, ◌^◌, ◌≤◌, ◌<◌, min, String, ◌==◌, Bool, true, false, not,
  ◌&&◌, ◌||◌, Option, none, some, List, [], ◌∷◌, ◌++◌, map, ltb, leb, eqb, if◌then◌else◌, ◌≡◌, ◌≢◌,
  ◌↔◌, ◌⊎◌, refl, sym, ap, ◌∙◌, arith, eq_iff, eq_refl, trim_space, split_on, contains, Bool-cases,
  Option-cases, inl, inr, length, take, drop, any, all, All, All-append, All-of, length-append,
  length-take, length-drop, take-append-drop, take-append_left, drop-append_left, Bytes, codes,
  bytes_eq, has_prefix, be16, be32, le32, put_be16, put_le32, lt→ltb, ltb→lt, leb→le, eqb_iff, itoa,
  read_number, read_number-itoa, itoa_injective, minus-itoa,
}
use minerals.Uuid.{Uuid, UuidText, nil_uuid}
use minerals.Auth
use minerals.Authz
use minerals.Authz.{Resource, ok, err, enforce_user}
use minerals.Domain.{Visibility, Specimen, Collector, JournalEntry}

-- Without the `details` of an error.
pub record ApiError : Type 0 where
  pub status : ℕ
  pub code : String
  pub message : String

-- What a Casbin enforcer answers for a role, a subject, a resource and an action.
abbrev pub Enforce : Type 0
Enforce = String → String → Resource → String → Option Bool

abbrev pub act_view : String
act_view = "view"

abbrev pub act_create : String
act_create = "create"

abbrev pub act_edit : String
act_edit = "edit"

abbrev pub act_delete : String
act_delete = "delete"

abbrev pub check_failed : ApiError
check_failed = record {
  status = 500;
  code = "internal_error";
  message = "authorization check failed";
}

abbrev pub forbidden : ApiError
forbidden = record {
  status = 403;
  code = "forbidden";
  message = "you do not have permission to perform this action";
}

abbrev pub not_found : String → String → ApiError
not_found code message = record { status = 404; code = code; message = message }

module _ (uuids : UuidText) where
  open uuids use {to_string}

  pub authz_roles : Auth.User → List String
  authz_roles u =
      if not (eqb u.id nil_uuid)
      then if contains u.roles "user" then u.roles else u.roles ++ "user" ∷ []
      else elim u.roles [ [] ↦ "anonymous" ∷ [] | r ∷ rs ↦ r ∷ rs ]

  unfoldable pub authz_user : Auth.User → Authz.User
  unfolding authz_roles
  authz_user u = record {
    id = if not (eqb u.id nil_uuid) then to_string u.id else "";
    roles = authz_roles u;
  }

  unfoldable pub check : Option Enforce → Auth.User → Resource → String → Option ApiError
  check none u res act = none
  check (some enforce) u res act =
      if act == act_view && (res.visibility == "public" || res.visibility == "unlisted")
      then none
      else elim (enforce_user enforce (authz_user u) (some res) act) [
        | err e ↦ some check_failed
        | ok allowed ↦ if allowed then none else some forbidden
      ]

  unfoldable pub check_view :
      Option Enforce → Auth.User → Resource → String → String → Option ApiError
  check_view guard u res code message = elim (check guard u res act_view) [
    | none ↦ none
    | some e ↦ if eqb e.status 403 then some (not_found code message) else some e
  ]

  unfoldable pub specimen_resource : Specimen → Resource
  specimen_resource s = record {
    type = "specimens";
    id = to_string s.id;
    visibility = s.visibility;
    author_id = to_string s.author_id;
  }

  unfoldable pub new_specimen_resource : Uuid → Visibility → Resource
  new_specimen_resource author_id visibility = record {
    type = "specimens";
    id = "";
    visibility = visibility;
    author_id = to_string author_id;
  }

  unfoldable pub photo_resource : Uuid → Specimen → Resource
  photo_resource photo_id parent = record {
    type = "photos";
    id = to_string photo_id;
    visibility = parent.visibility;
    author_id = to_string parent.author_id;
  }

  unfoldable pub collector_resource : Collector → Resource
  collector_resource c = record {
    type = "collectors";
    id = to_string c.id;
    visibility = "";
    author_id = to_string c.author_id;
  }

  unfoldable pub owned_resource : String → Uuid → Resource
  owned_resource resource_type author_id = record {
    type = resource_type;
    id = "";
    visibility = "";
    author_id = to_string author_id;
  }

  unfoldable pub journal_resource : JournalEntry → Resource
  journal_resource e = record {
    type = "journal";
    id = to_string e.id;
    visibility = "";
    author_id = to_string e.author_id;
  }

-- `newAPIError`, without details.
abbrev pub api_error : ℕ → String → String → ApiError
api_error status code message = record { status = status; code = code; message = message }

-- `&authz.Resource{Type: adminConsoleResource}`
abbrev pub admin_console_resource : String
admin_console_resource = "devops"

unfoldable pub devops_resource : Resource
devops_resource = record { type = admin_console_resource; id = ""; visibility = ""; author_id = "" }

abbrev pub invalid_id : ApiError
invalid_id = api_error 400 "invalid_id" "id must be a UUID"

-- `parseUUID`, over `uuid.Parse`.
unfoldable pub parse_uuid : (String → Option Uuid) → String → ApiError ⊎ Uuid
parse_uuid parse raw = elim (parse raw) [ none ↦ inl invalid_id | some id ↦ inr id ]

-- What a handler does after a check: its next step if there is no error, else the error is the answer
-- and the state is as it was.
unfoldable pub guarded {ℓ} : {A : Type ℓ} → Option ApiError → ApiError ⊎ A → ApiError ⊎ A
guarded none next = next
guarded (some e) next = inl e

unfoldable pub guarded_step {ℓ κ} :
    {A : Type ℓ} {S : Type κ} → Option ApiError → S → (ApiError ⊎ A) × S → (ApiError ⊎ A) × S
guarded_step none s next = next
guarded_step (some e) s next = (inl e, s)
