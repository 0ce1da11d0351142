-- ===== src/Api/Redact.antt =====
-- Per-field redaction of specimens and photos (internal/api/redact.go, and toSpecimenView of
-- internal/api/specimens.go).
--
-- The user repository is a function that finds a row or not (a failed query is treated alike);
-- a nil one is `none`. The owners map, which the redactor's methods fill, is passed along.
pub mod Fields
pub mod Photos
pub mod Memo
mod Examples
use minerals.Base.{
  ℕ, zero, suc, ◌+◌, ◌-◌, ◌*◌, ◌/◌, ◌%◌, ◌^◌, ◌≤◌, ◌<◌, min, String, ◌==◌, Bool, true, false, not,
  ◌&&◌, ◌||◌, Option, none, some, List, [], ◌∷◌, ◌++◌, map, ltb, leb, eqb, if◌then◌else◌, ◌≡◌, ◌≢◌,
  ◌↔◌, ◌⊎◌, refl, sym, ap, ◌∙◌, arith, eq_iff, eq_refl, trim_space, split_on, contains, Bool-cases,
  Option-cases, inl, inr, length, take, drop, any, all, All, All-append, All-of, length-append,
  length-take, length-drop, take-append-drop, take-append_left, drop-append_left, Bytes, codes,
  bytes_eq, has_prefix, be16, be32, le32, put_be16, put_le32, lt→ltb, ltb→lt, leb→le, eqb_iff, itoa,
  read_number, read_number-itoa, itoa_injective, minus-itoa,
}
use minerals.Uuid.{Uuid, UuidText, nil_uuid}
use minerals.Auth
use minerals.Authz
use minerals.Authz.{Resource, ok, err, enforce_user}
use minerals.Domain.{
  Instant, Float64, Visibility, private, public, unlisted, Locality, Dimensions, Specimen, Photo,
  User, zero_user,
}
use minerals.Visibility.{
  Field, price, acquired_from, acquired_at, catalog_number, resolve_scalar, resolve_image,
}
use minerals.Api.Guard.{Enforce, act_view, authz_user}

pub record SpecimenView : Type 0 where
  pub id : Uuid
  pub type : String
  pub catalog_number : Option String
  pub name : String
  pub description : String
  pub visibility : Visibility
  pub author_id : Uuid
  pub acquired_at : Option Instant
  pub acquired_from : Option String
  pub price_cents : Option ℕ
  pub source_notes : Option String
  pub locality_text : Option String
  pub locality : Option Locality
  pub mass_g : Option Float64
  pub dimensions : Option Dimensions
  pub type_data : List ℕ
  pub main_image_id : Option Uuid
  pub visibility_price : Option Visibility
  pub visibility_acquired_from : Option Visibility
  pub visibility_images : Option Visibility
  pub tagged : Option Bool
  pub created_at : Instant
  pub updated_at : Instant

unfoldable pub to_specimen_view : Specimen → SpecimenView
to_specimen_view s = record {
  id = s.id;
  type = s.type;
  catalog_number = s.catalog_number;
  name = s.name;
  description = s.description;
  visibility = s.visibility;
  author_id = s.author_id;
  acquired_at = s.acquired_at;
  acquired_from = s.acquired_from;
  price_cents = s.price_cents;
  source_notes = s.source_notes;
  locality_text = s.locality_text;
  locality = s.locality;
  mass_g = s.mass_g;
  dimensions = s.dimensions;
  type_data = s.type_data;
  main_image_id = s.main_image_id;
  visibility_price = s.visibility_price;
  visibility_acquired_from = s.visibility_acquired_from;
  visibility_images = s.visibility_images;
  tagged = some s.tagged;
  created_at = s.created_at;
  updated_at = s.updated_at;
}

abbrev pub UserRepo : Type 0
UserRepo = Uuid → Option User

abbrev pub Owners : Type 0
Owners = Uuid → Option User

abbrev pub no_owners : Owners
no_owners id = none

-- `r.owners[id] = u`
abbrev pub remember : Owners → Uuid → User → Owners
remember owners id u k = if eqb id k then some u else owners k

pub load_from : UserRepo → Owners → Uuid → User × Owners
load_from users owners author_id = elim (owners author_id) [
  | some cached ↦ (cached, owners)
  | none ↦ elim (users author_id) [
    | none ↦ (zero_user, owners)
    | some u ↦ (u, remember owners author_id u)
  ]
]

unfoldable pub load_owner : Option UserRepo → Owners → Uuid → User × Owners
load_owner none owners author_id = (zero_user, owners)
load_owner (some users) owners author_id =
    if eqb author_id nil_uuid then (zero_user, owners) else load_from users owners author_id

abbrev pub keep_if {ℓ} : {A : Type ℓ} → Bool → Option A → Option A
keep_if true o = o
keep_if false o = none

module _ (uuids : UuidText) (caller : Auth.User) where
  open uuids use {to_string}

  unfoldable pub can_see_field : Option Enforce → Specimen → Visibility → Bool
  can_see_field none sp vis = true
  can_see_field (some enforce) sp vis =
      if vis == public || vis == unlisted
      then true
      else let res : Resource = record {
        type = "specimens";
        id = to_string sp.id;
        visibility = vis;
        author_id = to_string sp.author_id;
      } in
        elim (enforce_user enforce (authz_user uuids caller) (some res) act_view) [
          | err e ↦ false
          | ok allowed ↦ allowed
        ]

  unfoldable pub sees_scalar : Option Enforce → Specimen → User → Field → Bool
  sees_scalar guard sp owner field =
      can_see_field guard sp (resolve_scalar field sp owner).visibility

  -- The body of `redactSpecimen` behind the owner's row.
  unfoldable pub redact_fields : Option Enforce → Specimen → User → SpecimenView
  redact_fields guard sp owner =
      let view = to_specimen_view sp in
      record view {
        price_cents = keep_if (sees_scalar guard sp owner price) view.price_cents;
        acquired_from = keep_if (sees_scalar guard sp owner acquired_from) view.acquired_from;
        acquired_at = keep_if (sees_scalar guard sp owner acquired_at) view.acquired_at;
        catalog_number = keep_if (sees_scalar guard sp owner catalog_number) view.catalog_number;
        tagged = keep_if (can_see_field guard sp private) view.tagged;
      }

  unfoldable pub redact_specimen :
      Option UserRepo → Option Enforce → Owners → Specimen → SpecimenView × Owners
  redact_specimen users none owners sp = (to_specimen_view sp, owners)
  redact_specimen users (some enforce) owners sp =
      let (owner, owners') = load_owner users owners sp.author_id in
      (redact_fields (some enforce) sp owner, owners')

  unfoldable pub can_see_photo : Option Enforce → Specimen → User → Photo → Bool
  can_see_photo none sp owner img = true
  can_see_photo (some enforce) sp owner img =
      can_see_field (some enforce) sp (resolve_image sp owner img).visibility

  pub visible_photos : Option Enforce → Specimen → User → List Photo → List Photo
  visible_photos guard sp owner [] = []
  visible_photos guard sp owner (p ∷ ps) =
      let rest = visible_photos guard sp owner ps in
      if can_see_photo guard sp owner p then p ∷ rest else rest

  unfoldable pub filter_photos :
      Option UserRepo → Option Enforce → Owners → Specimen → List Photo → List Photo × Owners
  filter_photos users none owners sp photos = (photos, owners)
  filter_photos users (some enforce) owners sp photos =
      let (owner, owners') = load_owner users owners sp.author_id in
      (visible_photos (some enforce) sp owner photos, owners')
