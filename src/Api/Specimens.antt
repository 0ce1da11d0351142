-- ===== src/Api/Specimens.antt =====
-- The specimen endpoints (internal/api/specimens.go): get, create, patch and delete over the
-- database of Specimens; which queries fail is an argument.
pub mod Patch
pub mod Kept
pub mod Laws
pub mod Writes
pub mod Examples
use minerals.Base.{
  ℕ, zero, suc, ◌+◌, ◌-◌, ◌*◌, ◌/◌, ◌%◌, ◌^◌, ◌≤◌, ◌<◌, min, String, ◌==◌, Bool, true, false, not,
  ◌&&◌, ◌||◌, Option, none, some, List, [], ◌∷◌, ◌++◌, map, ltb, leb, eqb, if◌then◌else◌, ◌≡◌, ◌≢◌,
  ◌↔◌, ◌⊎◌, refl, sym, ap, ◌∙◌, arith, eq_iff, eq_refl, trim_space, split_on, contains, Bool-cases,
  Option-cases, inl, inr, length, take, drop, any, all, All, All-append, All-of, length-append,
  length-take, length-drop, take-append-drop, take-append_left, drop-append_left, Bytes, codes,
  bytes_eq, has_prefix, be16, be32, le32, put_be16, put_le32, lt→ltb, ltb→lt, leb→le, eqb_iff, itoa,
  read_number, read_number-itoa, itoa_injective, minus-itoa,
}
use minerals.Uuid.{Uuid, UuidText}
use minerals.Domain.{Instant, Float64, Visibility, private, Locality, Dimensions, Specimen}
use minerals.Auth
use minerals.Specimens
use minerals.Specimens.{
  Database, SpecimenError, not_found, conflict, referenced, type_immutable, failed, get_by_id,
  update, has_photo_with_file,
}
use minerals.Api.Guard.{
  ApiError, Enforce, act_create, act_edit, act_delete, api_error, check, check_view, parse_uuid,
  specimen_resource, new_specimen_resource, guarded, guarded_step,
}
use minerals.Api.Redact.{SpecimenView, to_specimen_view, UserRepo, no_owners, redact_specimen}
use minerals.Api.Specimens.Patch.{
  PatchSpecimenBody, Json, type_immutable_error, invalid_visibility, valid_visibility,
  valid_specimen_type, and_then, patched,
}

pub record CreateSpecimenBody : Type 0 where
  pub type : String
  pub catalog_number : Option String
  pub name : String
  pub description : String
  pub visibility : Visibility
  pub acquired_at : Option Instant
  pub acquired_from : Option String
  pub price_cents : Option ℕ
  pub source_notes : Option String
  pub locality_text : Option String
  pub locality : Option Locality
  pub mass_g : Option Float64
  pub dimensions : Option Dimensions
  pub type_data : Bytes
  pub tagged : Option Bool

-- Which queries of a request fail.
pub record Faults : Type 0 where
  pub read : Bool
  pub photo : Bool
  pub write : Bool

abbrev pub no_faults : Faults
no_faults = record { read = false; photo = false; write = false }

unfoldable pub map_specimen_error : SpecimenError → ApiError
map_specimen_error not_found = api_error 404 "specimen_not_found" "no such specimen"
map_specimen_error conflict =
    api_error 409 "specimen_conflict" "a specimen with that catalog_number already exists"
map_specimen_error referenced =
    api_error 409 "specimen_referenced"
      "specimen still has photos or journal entries; delete those first"
map_specimen_error type_immutable = type_immutable_error
map_specimen_error failed = api_error 500 "internal_error" "internal server error"

unfoldable pub mapped {ℓ} : {A : Type ℓ} → SpecimenError ⊎ A → ApiError ⊎ A
mapped (inl e) = inl (map_specimen_error e)
mapped (inr a) = inr a

-- The row of the id in the path.
unfoldable pub loaded : Bool → ApiError ⊎ Uuid → Database → ApiError ⊎ Specimen
loaded fault (inl e) db = inl e
loaded fault (inr id) db = mapped (get_by_id fault id db)

-- The answer to a write: what it wrote, and the database after it.
unfoldable pub written {ℓ} :
    {A : Type ℓ} → A → SpecimenError ⊎ Database → Database → (ApiError ⊎ A) × Database
written a (inl e) db = (inl (map_specimen_error e), db)
written a (inr after) db = (inr a, after)

module _ (uuids : UuidText) (guard : Option Enforce) (parse : String → Option Uuid)
    (caller : Auth.User) where
  open uuids use {to_string}

  unfoldable pub get_row : ApiError ⊎ Specimen → ApiError ⊎ Specimen
  get_row row = and_then row (λ s.
      guarded
        (check_view uuids guard caller (specimen_resource uuids s) "specimen_not_found"
          "no such specimen")
        (inr s))

  -- The view of a row that the caller may see.
  unfoldable pub viewed : Option UserRepo → ApiError ⊎ Specimen → ApiError ⊎ SpecimenView
  viewed users row =
      and_then row (λ s. inr ((redact_specimen uuids caller users guard no_owners s).0))

  unfoldable pub get : Option UserRepo → Faults → String → Database → ApiError ⊎ SpecimenView
  get users faults raw db = viewed users (get_row (loaded faults.read (parse_uuid parse raw) db))

  -- The row that a create request makes, or the error of its checks.
  unfoldable pub new_specimen :
      (String → Bytes → ApiError ⊎ Bytes)
      → Uuid
      → Instant
      → CreateSpecimenBody
      → ApiError ⊎ Specimen
  new_specimen canonicalize id now b =
      let name = trim_space b.name in
      let visibility = if b.visibility == "" then private else b.visibility in
      if name == ""
      then inl (api_error 400 "invalid_name" "name is required")
      else if not (valid_specimen_type b.type)
      then inl (api_error 400 "invalid_type" "type must be one of mineral|rock|meteorite|fossil")
      else if not (valid_visibility visibility)
      then inl invalid_visibility
      else and_then (canonicalize b.type b.type_data) (λ type_data. inr (record {
        id = id;
        type = b.type;
        catalog_number = b.catalog_number;
        name = name;
        description = b.description;
        visibility = visibility;
        author_id = caller.id;
        acquired_at = b.acquired_at;
        acquired_from = b.acquired_from;
        price_cents = b.price_cents;
        source_notes = b.source_notes;
        locality_text = b.locality_text;
        locality = b.locality;
        mass_g = b.mass_g;
        dimensions = b.dimensions;
        type_data = type_data;
        main_image_id = none;
        visibility_price = none;
        visibility_acquired_from = none;
        visibility_images = none;
        tagged = elim b.tagged [ none ↦ false | some t ↦ t ];
        created_at = now;
        updated_at = now;
      }))

  unfoldable pub create_row :
      Faults → ApiError ⊎ Specimen → Database → (ApiError ⊎ SpecimenView) × Database
  create_row faults (inl e) db = (inl e, db)
  create_row faults (inr s) db =
      guarded_step
        (check uuids guard caller (new_specimen_resource uuids caller.id s.visibility) act_create)
        db (written (to_specimen_view s) (Specimens.create faults.write caller.id s db) db)

  unfoldable pub create :
      (String → Bytes → ApiError ⊎ Bytes)
      → Faults
      → Uuid
      → Instant
      → CreateSpecimenBody
      → Database
      → (ApiError ⊎ SpecimenView) × Database
  create canonicalize faults id now b db = create_row faults (new_specimen canonicalize id now b) db

  -- The patched row is written; the answer is its view.
  unfoldable pub write_patch :
      Option UserRepo
      → Faults
      → ApiError ⊎ Specimen
      → Database
      → (ApiError ⊎ SpecimenView) × Database
  write_patch users faults (inl e) db = (inl e, db)
  write_patch users faults (inr s) db =
      written ((redact_specimen uuids caller users guard no_owners s).0) (update faults.write s db)
        db

  unfoldable pub patch_row :
      Json
      → (String → Bytes → ApiError ⊎ Bytes)
      → Option UserRepo
      → Faults
      → Instant
      → PatchSpecimenBody
      → ApiError ⊎ Specimen
      → Database
      → (ApiError ⊎ SpecimenView) × Database
  patch_row json canonicalize users faults now b (inl e) db = (inl e, db)
  patch_row json canonicalize users faults now b (inr s) db =
      guarded_step (check uuids guard caller (specimen_resource uuids s) act_edit) db (
        write_patch users faults
          (patched json canonicalize (λ f. mapped (has_photo_with_file faults.photo s.id f db)) now
            b s)
          db)

  unfoldable pub patch :
      Json
      → (String → Bytes → ApiError ⊎ Bytes)
      → Option UserRepo
      → Faults
      → Instant
      → PatchSpecimenBody
      → String
      → Database
      → (ApiError ⊎ SpecimenView) × Database
  patch json canonicalize users faults now b raw db =
      patch_row json canonicalize users faults now b (loaded faults.read (parse_uuid parse raw) db)
        db

  unfoldable pub delete_row : Faults → ApiError ⊎ Specimen → Database → (ApiError ⊎ Bool) × Database
  delete_row faults (inl e) db = (inl e, db)
  delete_row faults (inr s) db =
      guarded_step (check uuids guard caller (specimen_resource uuids s) act_delete) db
        (written true (Specimens.delete faults.write s.id db) db)

  -- The body of a successful delete is empty: `true` stands for it.
  unfoldable pub delete : Faults → String → Database → (ApiError ⊎ Bool) × Database
  delete faults raw db = delete_row faults (loaded faults.read (parse_uuid parse raw) db) db
