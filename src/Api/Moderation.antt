-- ===== src/Api/Moderation.antt =====
-- Reports of specimens and the operator's takedown (report and takedown of internal/api/moderation.go).
-- What they log is left out.
pub mod Takedown
pub mod Report
mod Examples
use minerals.Base.{
  ℕ, zero, suc, ◌+◌, ◌-◌, ◌*◌, ◌/◌, ◌%◌, ◌^◌, ◌≤◌, ◌<◌, min, String, ◌==◌, Bool, true, false, not,
  ◌&&◌, ◌||◌, Option, none, some, List, [], ◌∷◌, ◌++◌, map, ltb, leb, eqb, if◌then◌else◌, ◌≡◌, ◌≢◌,
  ◌↔◌, ◌⊎◌, refl, sym, ap, ◌∙◌, arith, eq_iff, eq_refl, trim_space, split_on, contains, Bool-cases,
  Option-cases, inl, inr, length, take, drop, any, all, All, All-append, All-of, length-append,
  length-take, length-drop, take-append-drop, take-append_left, drop-append_left, Bytes, codes,
  bytes_eq, has_prefix, be16, be32, le32, put_be16, put_le32, lt→ltb, ltb→lt, leb→le, eqb_iff, itoa,
  read_number, read_number-itoa, itoa_injective, minus-itoa,
}
use minerals.Uuid.{Uuid, UuidText}
use minerals.Domain.{private, Specimen}
use minerals.Auth
use minerals.Specimens.{Database, update}
use minerals.Api.Guard.{
  ApiError, Enforce, act_edit, api_error, check, check_view, parse_uuid, specimen_resource, guarded,
  guarded_step,
}
use minerals.Api.Redact.{SpecimenView, to_specimen_view}
use minerals.Api.Specimens.Patch.{and_then}
use minerals.Api.Specimens.{Faults, loaded, written}

abbrev pub report_reasons : List String
report_reasons = "abuse" ∷ "illegal" ∷ "spam" ∷ "copyright" ∷ "privacy" ∷ "other" ∷ []

abbrev pub invalid_reason : ApiError
invalid_reason =
    api_error 400 "invalid_reason"
      "reason must be one of abuse|illegal|spam|copyright|privacy|other"

module _ (uuids : UuidText) (guard : Option Enforce) (parse : String → Option Uuid)
    (caller : Auth.User) where
  -- `report_id` is the report's new identifier.
  unfoldable pub report_row : Uuid → ApiError ⊎ Specimen → ApiError ⊎ Uuid
  report_row report_id row = and_then row (λ s.
      guarded
        (check_view uuids guard caller (specimen_resource uuids s) "specimen_not_found"
          "no such specimen")
        (inr report_id))

  unfoldable pub report : Faults → Uuid → String → String → Database → ApiError ⊎ Uuid
  report faults report_id reason raw db = and_then (parse_uuid parse raw) (λ id.
      if not (contains report_reasons reason)
      then inl invalid_reason
      else report_row report_id (loaded faults.read (inr id) db))

  -- The change behind the guard.
  unfoldable pub taken_down : Faults → Specimen → Database → (ApiError ⊎ SpecimenView) × Database
  taken_down faults s db =
      if not (s.visibility == private)
      then written (to_specimen_view (record s { visibility = private }))
          (update faults.write (record s { visibility = private }) db) db
      else (inr (to_specimen_view s), db)

  unfoldable pub takedown_row :
      Faults → ApiError ⊎ Specimen → Database → (ApiError ⊎ SpecimenView) × Database
  takedown_row faults (inl e) db = (inl e, db)
  takedown_row faults (inr s) db =
      guarded_step (check uuids guard caller (specimen_resource uuids s) act_edit) db
        (taken_down faults s db)

  unfoldable pub takedown : Faults → String → Database → (ApiError ⊎ SpecimenView) × Database
  takedown faults raw db = takedown_row faults (loaded faults.read (parse_uuid parse raw) db) db
