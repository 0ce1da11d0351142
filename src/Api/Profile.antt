-- ===== src/Api/Profile.antt =====
-- The caller's profile (internal/api/profile.go): setup, reading and the patch, over the users table of
-- Users. No other request writes between a handler's queries; which of them fail is an argument.
pub mod Laws
pub mod Partial
pub mod Setup
pub mod Defaults
mod Examples
use minerals.Base.{
  ℕ, zero, suc, ◌+◌, ◌-◌, ◌*◌, ◌/◌, ◌%◌, ◌^◌, ◌≤◌, ◌<◌, min, String, ◌==◌, Bool, true, false, not,
  ◌&&◌, ◌||◌, Option, none, some, List, [], ◌∷◌, ◌++◌, map, ltb, leb, eqb, if◌then◌else◌, ◌≡◌, ◌≢◌,
  ◌↔◌, ◌⊎◌, refl, sym, ap, ◌∙◌, arith, eq_iff, eq_refl, trim_space, split_on, contains, Bool-cases,
  Option-cases, inl, inr, length, take, drop, any, all, All, All-append, All-of, length-append,
  length-take, length-drop, take-append-drop, take-append_left, drop-append_left, Bytes, codes,
  bytes_eq, has_prefix, be16, be32, le32, put_be16, put_le32, lt→ltb, ltb→lt, leb→le, eqb_iff, itoa,
  read_number, read_number-itoa, itoa_injective, minus-itoa,
}
use minerals.Uuid.{Uuid, UuidText}
use minerals.Domain
use minerals.Domain.{Instant, Visibility, FieldDefaults, status_pending}
use minerals.Auth
use minerals.Users.{
  RepoError, not_found, conflict, failed, get_by_sub, mark_active, update_display_name,
  update_field_defaults, update_default_specimen_visibility,
}
use minerals.Api.Guard.{ApiError, api_error}
use minerals.Api.Specimens.Patch.{Json, bytes_trim_space, valid_visibility, and_then}

-- Which queries of a request fail.
pub record Faults : Type 0 where
  pub read : Bool
  pub activate : Bool
  pub name : Bool
  pub defaults : Bool
  pub visibility : Bool

-- `FieldDefaults` stands for its view, which has the same fields.
pub record ProfileBody : Type 0 where
  pub id : String
  pub email : String
  pub display_name : String
  pub pending : Bool
  pub roles : List String
  pub field_defaults : Option FieldDefaults
  pub default_specimen_visibility : Option Visibility

pub record ProfilePatchBody : Type 0 where
  pub display_name : Option String
  -- raw values, empty if the key is absent
  pub field_defaults : Bytes
  pub default_specimen_visibility : Bytes

abbrev pub max_display_name_len : ℕ
max_display_name_len = 80

abbrev pub unauthorized : ApiError
unauthorized = api_error 401 "unauthorized" "authentication required"

abbrev pub name_required : ApiError
name_required = api_error 400 "invalid_display_name" "display_name is required"

abbrev pub name_too_long : ApiError
name_too_long = api_error 400 "invalid_display_name" "display_name exceeds the maximum length"

-- Without the value that the message names.
abbrev pub invalid_field_defaults : String → ApiError
invalid_field_defaults message = api_error 400 "invalid_field_defaults" message

abbrev pub invalid_default_visibility : String → ApiError
invalid_default_visibility message = api_error 400 "invalid_default_specimen_visibility" message

-- A repository's error; the plain ones, which huma answers with 500, are one.
unfoldable pub map_user_error : RepoError → ApiError
map_user_error not_found = api_error 404 "user_not_found" "user record disappeared"
map_user_error conflict = api_error 500 "internal_error" "internal server error"
map_user_error failed = api_error 500 "internal_error" "internal server error"

-- `len` of a text: the bytes of its characters in UTF-8.
unfoldable pub byte_len : Bytes → ℕ
byte_len [] = 0
byte_len (c ∷ cs) =
    (if ltb c 0x80 then 1 else if ltb c 0x800 then 2 else if ltb c 0x10000 then 3 else 4)
    + byte_len cs

-- The two checks of a new name, trimmed.
unfoldable pub checked_name : String → ApiError ⊎ String
checked_name name =
    if name == ""
    then inl name_required
    else if ltb max_display_name_len (byte_len (codes name))
    then inl name_too_long
    else inr name

abbrev pub field_defaults_keys : List String
field_defaults_keys = "acquired_at" ∷ "acquired_from" ∷ "catalog_number" ∷ "images" ∷ "price" ∷ []

unfoldable pub set_field_defaults_key : FieldDefaults → String → Option Visibility → FieldDefaults
set_field_defaults_key fd key v =
    if key == "price"
    then record fd { price = v }
    else if key == "acquired_from"
    then record fd { acquired_from = v }
    else if key == "acquired_at"
    then record fd { acquired_at = v }
    else if key == "catalog_number"
    then record fd { catalog_number = v }
    else if key == "images"
    then record fd { images = v }
    else fd

-- What a parsed value of a key makes of the map.
unfoldable pub put_default : String → FieldDefaults → Option String → ApiError ⊎ FieldDefaults
put_default key fd none = inl (invalid_field_defaults "value must be a Visibility string")
put_default key fd (some v) =
    if valid_visibility v
    then inr (set_field_defaults_key fd key (some v))
    else inl (invalid_field_defaults "not a valid Visibility")

-- `domain.FieldDefaults{}`
abbrev pub no_defaults : FieldDefaults
no_defaults = record {
  price = none;
  acquired_from = none;
  acquired_at = none;
  catalog_number = none;
  images = none;
}

-- `merged == (domain.FieldDefaults{})`
unfoldable pub is_unset {ℓ} : {A : Type ℓ} → Option A → Bool
is_unset none = true
is_unset (some a) = false

unfoldable pub stored_defaults : FieldDefaults → Option FieldDefaults
stored_defaults fd =
    if is_unset fd.price
      && is_unset fd.acquired_from
      && is_unset fd.acquired_at
      && is_unset fd.catalog_number
      && is_unset fd.images
    then none
    else some fd

unfoldable pub current_defaults : Option FieldDefaults → FieldDefaults
current_defaults none = no_defaults
current_defaults (some fd) = fd

module _ (json : Json) where
  open json use {parse_object, parse_string}

  unfoldable pub merge_key : String → Bytes → FieldDefaults → ApiError ⊎ FieldDefaults
  merge_key key raw fd =
      if not (contains field_defaults_keys key)
      then inl (invalid_field_defaults "unknown key")
      else let trimmed = bytes_trim_space raw in
        if bytes_eq trimmed (codes "null")
        then inr (set_field_defaults_key fd key none)
        else put_default key fd (parse_string trimmed)

  -- The loop over the patch's keys.
  unfoldable pub merge_keys : List (String × Bytes) → FieldDefaults → ApiError ⊎ FieldDefaults
  merge_keys [] fd = inr fd
  merge_keys ((key, raw) ∷ patch) fd = and_then (merge_key key raw fd) (merge_keys patch)

  unfoldable pub merge_object :
      Option FieldDefaults → Option (List (String × Bytes)) → ApiError ⊎ Option FieldDefaults
  merge_object current none = inl (invalid_field_defaults "field_defaults must be a JSON object")
  merge_object current (some patch) =
      and_then (merge_keys patch (current_defaults current)) (λ fd. inr (stored_defaults fd))

  unfoldable pub merge_field_defaults :
      Option FieldDefaults → Bytes → ApiError ⊎ Option FieldDefaults
  merge_field_defaults current patch = merge_object current (parse_object patch)

  unfoldable pub default_visibility : Option String → ApiError ⊎ Option Visibility
  default_visibility none =
      inl (
        invalid_default_visibility
          "default_specimen_visibility must be a Visibility string or null")
  default_visibility (some v) =
      if valid_visibility v
      then inr (some v)
      else inl (invalid_default_visibility "not a valid Visibility")

  -- The new default of a value that is there.
  unfoldable pub new_visibility : Bytes → ApiError ⊎ Option Visibility
  new_visibility raw =
      if bytes_eq raw (codes "null") then inr none else default_visibility (parse_string raw)

unfoldable pub display_name_of : Option String → String
display_name_of none = ""
display_name_of (some name) = name

unfoldable pub to_profile_body : UuidText → List String → Domain.User → ProfileBody
to_profile_body uuids roles u = record {
  id = uuids.to_string u.id;
  email = u.email;
  display_name = display_name_of u.display_name;
  pending = u.status == status_pending;
  roles = roles;
  field_defaults = u.field_defaults;
  default_specimen_visibility = u.default_specimen_visibility;
}

-- The row of the caller.
unfoldable pub own_row : Bool → Auth.User → List Domain.User → ApiError ⊎ Domain.User
own_row fault caller users =
    if caller.sub == "" then inl unauthorized else elim (get_by_sub fault caller.sub users) [
      | inl e ↦ inl (map_user_error e)
      | inr row ↦ inr row
    ]

-- A write's result, with the row as the handler holds it.
unfoldable pub wrote {ℓ} :
    {A : Type ℓ}
    → A
    → RepoError ⊎ List Domain.User
    → List Domain.User
    → (ApiError ⊎ A) × List Domain.User
wrote row (inl e) users = (inl (map_user_error e), users)
wrote row (inr after) users = (inr row, after)

-- A step that needs a checked value, and the next one.
unfoldable pub checked_then {ℓ κ} :
    {A : Type ℓ} {B : Type κ}
    → ApiError ⊎ A
    → List Domain.User
    → (A → (ApiError ⊎ B) × List Domain.User)
    → (ApiError ⊎ B) × List Domain.User
checked_then (inl e) users next = (inl e, users)
checked_then (inr a) users next = next a

unfoldable pub step_then {ℓ κ} :
    {A : Type ℓ} {B : Type κ}
    → (ApiError ⊎ A) × List Domain.User
    → (A → List Domain.User → (ApiError ⊎ B) × List Domain.User)
    → (ApiError ⊎ B) × List Domain.User
step_then (inl e, users) next = (inl e, users)
step_then (inr a, users) next = next a users

module _ (uuids : UuidText) (faults : Faults) (now : Instant) (caller : Auth.User) where
  -- `complete`; its answer leaves the defaults out.
  unfoldable pub setup_body : String → Domain.User → ProfileBody
  setup_body name full = record {
    id = uuids.to_string full.id;
    email = full.email;
    display_name = name;
    pending = false;
    roles = caller.roles;
    field_defaults = none;
    default_specimen_visibility = none;
  }

  unfoldable pub complete_row :
      String
      → ApiError ⊎ Domain.User
      → List Domain.User
      → (ApiError ⊎ ProfileBody) × List Domain.User
  complete_row name row users = checked_then row users (λ full.
      wrote (setup_body name full) (mark_active faults.activate full.id name now users) users)

  unfoldable pub complete : String → List Domain.User → (ApiError ⊎ ProfileBody) × List Domain.User
  complete display_name users =
      if caller.sub == ""
      then (inl unauthorized, users)
      else checked_then (checked_name (trim_space display_name)) users
          (λ name. complete_row name (own_row faults.read caller users) users)

  unfoldable pub get : List Domain.User → ApiError ⊎ ProfileBody
  get users =
      and_then (own_row faults.read caller users)
        (λ full. inr (to_profile_body uuids caller.roles full))

module _ (json : Json) (faults : Faults) (now : Instant) where
  -- Each part of the patch writes before the next part is looked at.
  unfoldable pub patch_name :
      Option String → Domain.User → List Domain.User → (ApiError ⊎ Domain.User) × List Domain.User
  patch_name none full users = (inr full, users)
  patch_name (some raw) full users = checked_then (checked_name (trim_space raw)) users (λ name.
      wrote (record full { display_name = some name; updated_at = now })
        (update_display_name faults.name full.id name now users) users)

  unfoldable pub patch_defaults :
      Bytes → Domain.User → List Domain.User → (ApiError ⊎ Domain.User) × List Domain.User
  patch_defaults raw full users =
      if eqb (length raw) 0
      then (inr full, users)
      else if bytes_eq raw (codes "null")
      then (
        inl (
            invalid_field_defaults
              "field_defaults: null is not allowed at the top level — omit the key to leave unchanged"),
        users,
      )
      else checked_then (merge_field_defaults json full.field_defaults raw) users (λ merged.
        wrote (record full { field_defaults = merged; updated_at = now })
          (update_field_defaults faults.defaults full.id merged now users) users)

  unfoldable pub patch_visibility :
      Bytes → Domain.User → List Domain.User → (ApiError ⊎ Domain.User) × List Domain.User
  patch_visibility raw full users =
      if eqb (length raw) 0
      then (inr full, users)
      else checked_then (new_visibility json raw) users (λ v.
        wrote (record full { default_specimen_visibility = v; updated_at = now })
          (update_default_specimen_visibility faults.visibility full.id v now users) users)

  unfoldable pub patch_row :
      ProfilePatchBody
      → ApiError ⊎ Domain.User
      → List Domain.User
      → (ApiError ⊎ Domain.User) × List Domain.User
  patch_row b row users = checked_then row users (λ full.
      step_then (patch_name b.display_name full users) (λ full1 users1.
        step_then (patch_defaults (bytes_trim_space b.field_defaults) full1 users1) (λ full2 users2.
          patch_visibility (bytes_trim_space b.default_specimen_visibility) full2 users2)))

  unfoldable pub patch :
      UuidText
      → Auth.User
      → ProfilePatchBody
      → List Domain.User
      → (ApiError ⊎ ProfileBody) × List Domain.User
  patch uuids caller b users =
      step_then (patch_row b (own_row faults.read caller users) users)
        (λ full after. (inr (to_profile_body uuids caller.roles full), after))
