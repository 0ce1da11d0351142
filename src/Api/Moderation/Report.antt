-- ===== src/Api/Moderation/Report.antt =====
-- What a report reveals (internal/api/moderation.go).
use minerals.Base.{
  String, true, false, not, Option, none, some, if◌then◌else◌, ◌≡◌, ◌⊎◌, refl, ap, ◌∙◌, contains,
  Bool-cases, inl, inr,
}
use minerals.Uuid.{Uuid, UuidText}
use minerals.Domain.{Specimen}
use minerals.Auth
use minerals.Authz.{SharesLookup, Enforcer}
use minerals.Authz.Specimens.{Answers}
use minerals.Specimens.{Database, find, found, get_by_id}
use minerals.Api.Guard.{ApiError, check_view, parse_uuid, specimen_resource, guarded}
use minerals.Api.Guard.Specimens.{may_see, check_view-specimen}
use minerals.Api.Specimens.Laws.{no_such_specimen}
use minerals.Api.Specimens.Patch.{and_then}
use minerals.Api.Specimens.{Faults, map_specimen_error, mapped, loaded}
use minerals.Api.Moderation.{report_reasons, invalid_reason, report_row, report}

module _ (uuids : UuidText) (shares : Option SharesLookup) (e : Enforcer shares)
    (answers : Answers shares) (parse : String → Option Uuid) (caller : Auth.User) where
  -- The answer to a report of a row that may be missing.
  abbrev pub reported : Uuid → Option Specimen → ApiError ⊎ Uuid
  reported report_id none = inl no_such_specimen
  reported report_id (some s) =
      if may_see uuids shares caller s s.visibility then inr report_id else inl no_such_specimen

  report_row-reported :
      (report_id : Uuid) (row : Option Specimen)
      → report_row uuids (some e.enforce) parse caller report_id (mapped (found row))
        ≡ reported report_id row
  unfolding report_row mapped found and_then map_specimen_error guarded
  report_row-reported report_id none = refl
  report_row-reported report_id (some s) =
      let answer =
        check_view-specimen uuids shares e answers caller s "specimen_not_found"
          "no such specimen" in
      elim (Bool-cases (may_see uuids shares caller s s.visibility)) [
        | inl t ↦
            let seen : check_view uuids (some e.enforce) caller (specimen_resource uuids s)
                  "specimen_not_found" "no such specimen"
                ≡ none =
              answer ∙ (rw t refl) in
            rw (seen, guarded) (rw t refl)
        | inr f ↦
            let hidden : check_view uuids (some e.enforce) caller (specimen_resource uuids s)
                  "specimen_not_found" "no such specimen"
                ≡ some no_such_specimen =
              answer ∙ (rw f refl) in
            rw (hidden, guarded) (rw f refl)
      ]

  read_row :
      (faults : Faults) (id : Uuid) (db : Database)
      → faults.read ≡ false
      → loaded faults.read (inr id) db ≡ mapped (found (find id db.specimens))
  unfolding loaded get_by_id
  read_row faults id db ok = rw ok refl

  -- A report probes nothing: if the shares table and the specimen can be read, a report with a known reason of a
  -- specimen that the caller may not see gets the very answer to an id that no specimen has,
  -- and one of a specimen that the caller may see gets the report's identifier.
  pub report_lem :
      (faults : Faults) (report_id id : Uuid) (reason raw : String) (db : Database)
      → faults.read ≡ false
      → parse raw ≡ some id
      → contains report_reasons reason ≡ true
      → report uuids (some e.enforce) parse caller faults report_id reason raw db
        ≡ reported report_id (find id db.specimens)
  unfolding report and_then parse_uuid
  report_lem faults report_id id reason raw db ok named known =
      let p : parse_uuid parse raw ≡ inr id = rw (named, parse_uuid) refl in
      ap
        (λ (r : ApiError ⊎ Uuid). and_then r (λ (i : Uuid).
          if not (contains report_reasons reason)
          then inl invalid_reason
          else report_row uuids (some e.enforce) parse caller report_id
              (loaded faults.read (inr i) db)))
        p
      ∙ (rw known (
          ap (report_row uuids (some e.enforce) parse caller report_id) (read_row faults id db ok)
          ∙ report_row-reported report_id (find id db.specimens)))
