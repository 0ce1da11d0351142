-- ===== src/Visibility.antt =====
-- The per-field visibility chain (internal/visibility/visibility.go).
pub mod Chain
mod Examples
use minerals.Base.{
  ℕ, zero, suc, ◌+◌, ◌-◌, ◌*◌, ◌/◌, ◌%◌, ◌^◌, ◌≤◌, ◌<◌, min, String, ◌==◌, Bool, true, false, not,
  ◌&&◌, ◌||◌, Option, none, some, List, [], ◌∷◌, ◌++◌, map, ltb, leb, eqb, if◌then◌else◌, ◌≡◌, ◌≢◌,
  ◌↔◌, ◌⊎◌, refl, sym, ap, ◌∙◌, arith, eq_iff, eq_refl, trim_space, split_on, contains, Bool-cases,
  Option-cases, inl, inr, length, take, drop, any, all, All, All-append, All-of, length-append,
  length-take, length-drop, take-append-drop, take-append_left, drop-append_left, Bytes, codes,
  bytes_eq, has_prefix, be16, be32, le32, put_be16, put_le32, lt→ltb, ltb→lt, leb→le, eqb_iff, itoa,
  read_number, read_number-itoa, itoa_injective, minus-itoa,
}
use minerals.Domain.{Visibility, private, Specimen, Photo, FieldDefaults, User}

pub data Field : Type 0 where
  price acquired_from acquired_at catalog_number images : Field

unfoldable pub field_name : Field → String
field_name price = "price"
field_name acquired_from = "acquired_from"
field_name acquired_at = "acquired_at"
field_name catalog_number = "catalog_number"
field_name images = "images"

pub data Source : Type 0 where
  image specimen_field specimen_overall user_default system_default : Source

abbrev pub system_default_visibility : Visibility
system_default_visibility = private

pub record Resolution : Type 0 where
  pub visibility : Visibility
  pub source : Source

abbrev resolved : Visibility → Source → Resolution
resolved v s = record { visibility = v; source = s }

pub specimen_scalar_override : Field → Specimen → Option Visibility
specimen_scalar_override price spec = spec.visibility_price
specimen_scalar_override acquired_from spec = spec.visibility_acquired_from
specimen_scalar_override _ spec = none

default_of : Field → FieldDefaults → Option Visibility
default_of price fd = fd.price
default_of acquired_from fd = fd.acquired_from
default_of acquired_at fd = fd.acquired_at
default_of catalog_number fd = fd.catalog_number
default_of images fd = fd.images

pub owner_default : Field → User → Option Visibility
unfolding default_of
owner_default field owner = elim owner.field_defaults [
  | none ↦ none
  | some fd ↦ default_of field fd
]

unfoldable pub resolve_scalar : Field → Specimen → User → Resolution
unfolding specimen_scalar_override owner_default
resolve_scalar field spec owner = elim (specimen_scalar_override field spec) [
  | some v ↦ resolved v specimen_field
  | none ↦ elim (owner_default field owner) [
    | some v ↦ resolved v user_default
    | none ↦ resolved system_default_visibility system_default
  ]
]

unfoldable pub resolve_image : Specimen → User → Photo → Resolution
unfolding owner_default
resolve_image spec owner img = elim img.visibility [
  | some v ↦ resolved v image
  | none ↦ elim spec.visibility_images [
    | some v ↦ resolved v specimen_field
    | none ↦
        if not (spec.visibility == "")
        then resolved spec.visibility specimen_overall
        else elim (owner_default images owner) [
          | some v ↦ resolved v user_default
          | none ↦ resolved system_default_visibility system_default
        ]
  ]
]
