-- ===== src/Api/Specimens/Patch.antt =====
-- The steps of a specimen's patch (patch and its helpers of internal/api/specimens.go).
--
-- encoding/json is a parameter: an object is the list of its keys and raw values. The check of a
-- type's fields (validateAndCanonicalizeTypeData) is an argument of the steps that use it.
use minerals.Base.{
  ℕ, String, ◌==◌, Bool, ◌&&◌, ◌||◌, Option, none, some, List, [], ◌∷◌, eqb, if◌then◌else◌, ◌⊎◌,
  trim_space, inl, inr, length, Bytes, codes, bytes_eq,
}
use minerals.Uuid.{Uuid}
use minerals.Domain.{
  Instant, Float64, Visibility, private, unlisted, public, Locality, Dimensions, Specimen,
}
use minerals.Api.Guard.{ApiError, api_error}

pub record PatchSpecimenBody : Type 0 where
  pub type : Option String
  pub catalog_number : Option String
  pub name : Option String
  pub description : Option String
  pub visibility : Option Visibility
  pub acquired_at : Option Instant
  pub acquired_from : Option String
  pub price_cents : Option ℕ
  pub source_notes : Option String
  pub locality_text : Option String
  pub locality : Option Locality
  pub mass_g : Option Float64
  pub dimensions : Option Dimensions
  pub type_data : Option Bytes
  pub main_image_id : Option Uuid
  -- `VisibilityPatch`: the raw value, empty if the key is absent
  pub visibility_price : Bytes
  pub visibility_acquired_from : Bytes
  pub visibility_images : Bytes
  pub tagged : Option Bool

-- encoding/json. A parsed object stands for a Go map in the order in which a loop visits it, so no key
-- comes twice.
pub record Json : Type 0 where
  pub parse_object : Bytes → Option (List (String × Bytes))
  pub print_object : List (String × Bytes) → Bytes
  pub parse_string : Bytes → Option String

abbrev pub type_immutable_error : ApiError
type_immutable_error =
    api_error 409 "specimen_type_immutable"
      "specimen type cannot be changed; reclassification means delete + recreate"

abbrev pub invalid_visibility : ApiError
invalid_visibility =
    api_error 400 "invalid_visibility" "visibility must be one of private|unlisted|public"

-- Of a field's visibility; the messages also name the field and the value.
abbrev pub not_a_visibility_string : ApiError
not_a_visibility_string =
    api_error 400 "invalid_visibility" "value must be a Visibility string or null"

abbrev pub unknown_visibility : ApiError
unknown_visibility =
    api_error 400 "invalid_visibility"
      "not a valid Visibility; allowed values are private, unlisted, public"

abbrev pub invalid_type_data : ApiError
invalid_type_data = api_error 400 "invalid_type_data" "type_data is not a JSON object"

abbrev pub invalid_main_image_id : ApiError
invalid_main_image_id =
    api_error 422 "invalid_main_image_id" "main_image_id must reference a photo on this specimen"

unfoldable pub valid_visibility : Visibility → Bool
valid_visibility v = v == private || v == unlisted || v == public

unfoldable pub valid_specimen_type : String → Bool
valid_specimen_type t = t == "mineral" || t == "rock" || t == "meteorite" || t == "fossil"

-- What follows a step that found no error.
unfoldable pub and_then {ℓ κ} :
    {A : Type ℓ} {B : Type κ} → ApiError ⊎ A → (A → ApiError ⊎ B) → ApiError ⊎ B
and_then (inl e) next = inl e
and_then (inr a) next = next a

-- A field that the body has replaces the current one.
unfoldable pub replace {ℓ} : {A : Type ℓ} → Option A → Option A → Option A
replace none current = current
replace (some a) current = some a

unfoldable pub value_or {ℓ} : {A : Type ℓ} → Option A → A → A
value_or none current = current
value_or (some a) current = a

unfoldable pub is_space : ℕ → Bool
is_space c = eqb c 0x20 || eqb c 0x09 || eqb c 0x0A || eqb c 0x0D

unfoldable pub trim_front : Bytes → Bytes
trim_front [] = []
trim_front (c ∷ cs) = let rest = trim_front cs in if is_space c then rest else c ∷ cs

unfoldable pub trim_back : Bytes → Bytes
trim_back [] = []
trim_back (c ∷ cs) =
    let rest = trim_back cs in if is_space c && eqb (length rest) 0 then [] else c ∷ rest

unfoldable pub bytes_trim_space : Bytes → Bytes
bytes_trim_space b = trim_back (trim_front b)

-- A key's removal from an object, and its assignment.
unfoldable pub delete_key : String → List (String × Bytes) → List (String × Bytes)
delete_key k [] = []
delete_key k ((j, v) ∷ m) = let rest = delete_key k m in if j == k then rest else (j, v) ∷ rest

unfoldable pub set_key : String → Bytes → List (String × Bytes) → List (String × Bytes)
set_key k v m = (k, v) ∷ delete_key k m

unfoldable pub lookup : String → List (String × Bytes) → Option Bytes
lookup k [] = none
lookup k ((j, v) ∷ m) = let rest = lookup k m in if j == k then some v else rest

-- The loop of mergeTypeData over the patch's keys.
unfoldable pub merge_keys : List (String × Bytes) → List (String × Bytes) → List (String × Bytes)
merge_keys [] current = current
merge_keys ((k, v) ∷ patch) current = merge_keys patch (
    if bytes_eq (bytes_trim_space v) (codes "null")
    then delete_key k current
    else set_key k v current)

-- Empty or null, after trimming.
unfoldable pub is_blank : Bytes → Bool
is_blank b = eqb (length b) 0 || bytes_eq b (codes "null")

unfoldable pub patch_type : Option String → Specimen → ApiError ⊎ Specimen
patch_type none s = inr s
patch_type (some t) s = if t == s.type then inr s else inl type_immutable_error

unfoldable pub patch_name : Option String → Specimen → ApiError ⊎ Specimen
patch_name none s = inr s
patch_name (some n) s =
    let trimmed = trim_space n in
    if trimmed == ""
    then inl (api_error 400 "invalid_name" "name must be non-empty when provided")
    else inr (record s { name = trimmed })

unfoldable pub patch_visibility : Option Visibility → Specimen → ApiError ⊎ Specimen
patch_visibility none s = inr s
patch_visibility (some v) s =
    if valid_visibility v then inr (record s { visibility = v }) else inl invalid_visibility

-- The fields that are set as they come.
unfoldable pub patch_plain : PatchSpecimenBody → Specimen → Specimen
patch_plain b s = record s {
  description = value_or b.description s.description;
  catalog_number = replace b.catalog_number s.catalog_number;
  acquired_at = replace b.acquired_at s.acquired_at;
  acquired_from = replace b.acquired_from s.acquired_from;
  price_cents = replace b.price_cents s.price_cents;
  source_notes = replace b.source_notes s.source_notes;
  locality_text = replace b.locality_text s.locality_text;
  locality = replace b.locality s.locality;
  mass_g = replace b.mass_g s.mass_g;
  dimensions = replace b.dimensions s.dimensions;
  tagged = value_or b.tagged s.tagged;
}

-- `has` answers whether the specimen has a photo with the file.
unfoldable pub patch_main_image :
    (Uuid → ApiError ⊎ Bool) → Option Uuid → Specimen → ApiError ⊎ Specimen
patch_main_image has none s = inr s
patch_main_image has (some f) s =
    and_then (has f)
      (λ ok. if ok then inr (record s { main_image_id = some f }) else inl invalid_main_image_id)

module _ (json : Json) where
  open json use {parse_object, print_object, parse_string}

  unfoldable pub merge_type_data : Bytes → Bytes → Option Bytes
  merge_type_data current_bytes patch_bytes =
      let current = bytes_trim_space current_bytes in
      let patch = bytes_trim_space patch_bytes in
      elim (if is_blank current then some [] else parse_object current) [
        | none ↦ none
        | some m ↦ if is_blank patch then some (print_object m) else elim (parse_object patch) [
          | none ↦ none
          | some p ↦ some (print_object (merge_keys p m))
        ]
      ]

  -- What a parsed value makes of the field.
  unfoldable pub visibility_value : Option String → ApiError ⊎ Option Visibility
  visibility_value none = inl not_a_visibility_string
  visibility_value (some v) = if valid_visibility v then inr (some v) else inl unknown_visibility

  -- The source's `bytes.TrimSpace` drops more than JSON's white space, but a raw value has no more around it.
  unfoldable pub apply_visibility_patch : Bytes → Option Visibility → ApiError ⊎ Option Visibility
  apply_visibility_patch p current =
      if eqb (length p) 0
      then inr current
      else let trimmed = bytes_trim_space p in
        if bytes_eq trimmed (codes "null")
        then inr none
        else visibility_value (parse_string trimmed)

  -- The merged fields, checked against the stored type.
  unfoldable pub checked_type_data :
      (String → Bytes → ApiError ⊎ Bytes) → Option Bytes → Specimen → ApiError ⊎ Specimen
  checked_type_data canonicalize none s = inl invalid_type_data
  checked_type_data canonicalize (some merged) s =
      and_then (canonicalize s.type merged) (λ canonical. inr (record s { type_data = canonical }))

  unfoldable pub patch_type_data :
      (String → Bytes → ApiError ⊎ Bytes) → Option Bytes → Specimen → ApiError ⊎ Specimen
  patch_type_data canonicalize none s = inr s
  patch_type_data canonicalize (some d) s =
      checked_type_data canonicalize (merge_type_data s.type_data d) s

  unfoldable pub patch_field_visibility : PatchSpecimenBody → Specimen → ApiError ⊎ Specimen
  patch_field_visibility b s =
      and_then (apply_visibility_patch b.visibility_price s.visibility_price) (λ price.
        and_then (apply_visibility_patch b.visibility_acquired_from s.visibility_acquired_from)
          (λ acquired_from.
            and_then (apply_visibility_patch b.visibility_images s.visibility_images) (λ images.
              inr (record s {
                visibility_price = price;
                visibility_acquired_from = acquired_from;
                visibility_images = images;
              }))))

  -- All of them, in the handler's order; `UpdatedAt` is set last.
  unfoldable pub patched :
      (String → Bytes → ApiError ⊎ Bytes)
      → (Uuid → ApiError ⊎ Bool)
      → Instant
      → PatchSpecimenBody
      → Specimen
      → ApiError ⊎ Specimen
  patched canonicalize has now b s = and_then (patch_type b.type s) (λ s1.
      and_then (patch_name b.name s1) (λ s2. and_then (patch_visibility b.visibility s2) (λ s3.
        and_then (patch_main_image has b.main_image_id (patch_plain b s3)) (λ s4.
          and_then (patch_type_data canonicalize b.type_data s4) (λ s5.
            and_then (patch_field_visibility b s5) (λ s6. inr (record s6 { updated_at = now })))))))
