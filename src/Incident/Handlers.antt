-- ===== src/Incident/Handlers.antt =====
-- The register's endpoints of the admin console (internal/api/incident_register.go).
--
-- The bodies hold what the endpoints send; the schema's bounds on the lengths of the texts are
-- checked before the handlers run and are not modelled, nor is the log line of a filed entry.
pub mod Laws
use minerals.Base.{
  ℕ, zero, suc, ◌+◌, ◌-◌, ◌*◌, ◌/◌, ◌%◌, ◌^◌, ◌≤◌, ◌<◌, min, String, ◌==◌, Bool, true, false, not,
  ◌&&◌, ◌||◌, Option, none, some, List, [], ◌∷◌, ◌++◌, map, ltb, leb, eqb, if◌then◌else◌, ◌≡◌, ◌≢◌,
  ◌↔◌, ◌⊎◌, refl, sym, ap, ◌∙◌, arith, eq_iff, eq_refl, trim_space, split_on, contains, Bool-cases,
  Option-cases, inl, inr, length, take, drop, any, all, All, All-append, All-of, length-append,
  length-take, length-drop, take-append-drop, take-append_left, drop-append_left, Bytes, codes,
  bytes_eq, has_prefix, be16, be32, le32, put_be16, put_le32, lt→ltb, ltb→lt, leb→le, eqb_iff, itoa,
  read_number, read_number-itoa, itoa_injective, minus-itoa,
}
use minerals.Uuid.{Uuid, UuidText, nil_uuid}
use minerals.Domain.{Instant}
use minerals.Auth
use minerals.Api.Guard.{
  ApiError, Enforce, act_view, act_edit, api_error, check, devops_resource, parse_uuid, guarded,
  guarded_step,
}
use minerals.Incident.{Platform, NewIncident, Incident, VerifyResult}
use minerals.Incident.Store.{
  StoreError, lock_failed, tail_failed, insert_failed, query_failed, not_found, Faults, create,
  list, get_by_id, export,
}

pub record FileIncidentBody : Type 0 where
  pub personal_info_involved : Bytes
  pub circumstances : Bytes
  pub incident_occurred_at : Bytes
  pub became_aware_date : Instant
  pub people_affected : Bytes
  pub risk_assessment : Bytes
  pub cai_notified : Bool
  pub cai_notified_detail : Bytes
  pub individuals_notified : Bool
  pub individuals_notified_detail : Bytes
  pub measures_taken : Bytes

abbrev pub internal_error : String → ApiError
internal_error message = api_error 500 "internal_error" message

-- An answer of the store, or the envelope for its failure.
unfoldable pub answered {ℓ} : {A : Type ℓ} → ApiError → StoreError ⊎ A → ApiError ⊎ A
answered failure (inl e) = inl failure
answered failure (inr a) = inr a

-- An answer to a read of one entry.
unfoldable pub answered_get : StoreError ⊎ Incident → ApiError ⊎ Incident
answered_get (inl not_found) = inl (api_error 404 "incident_not_found" "no such register entry")
answered_get (inl lock_failed) = inl (internal_error "failed to read register entry")
answered_get (inl tail_failed) = inl (internal_error "failed to read register entry")
answered_get (inl insert_failed) = inl (internal_error "failed to read register entry")
answered_get (inl query_failed) = inl (internal_error "failed to read register entry")
answered_get (inr e) = inr e

-- The body of the list endpoint.
unfoldable pub counted : ApiError ⊎ List Incident → ApiError ⊎ (List Incident × ℕ)
counted (inl e) = inl e
counted (inr entries) = inr (entries, length entries)

-- What Create answered, and the register it left.
unfoldable pub filed :
    (StoreError ⊎ Incident) × List Incident → (ApiError ⊎ Incident) × List Incident
filed (answer, rows) = (answered (internal_error "failed to record incident") answer, rows)

module _ (platform : Platform) where
  open platform use {uuid_text}

  unfoldable pub recorded_by : Auth.User → Bytes
  recorded_by u = if not (eqb u.id nil_uuid) then uuid_text u.id else codes "unknown"

  unfoldable pub new_incident : Auth.User → FileIncidentBody → NewIncident
  unfolding recorded_by
  new_incident u b = record {
    personal_info_involved = b.personal_info_involved;
    circumstances = b.circumstances;
    incident_occurred_at = b.incident_occurred_at;
    became_aware_date = b.became_aware_date;
    people_affected = b.people_affected;
    risk_assessment = b.risk_assessment;
    cai_notified = b.cai_notified;
    cai_notified_detail = b.cai_notified_detail;
    individuals_notified = b.individuals_notified;
    individuals_notified_detail = b.individuals_notified_detail;
    measures_taken = b.measures_taken;
    recorded_by = recorded_by u;
  }

module _ (platform : Platform) (uuids : UuidText) (guard : Option Enforce) where
  unfoldable pub file :
      Faults
      → Uuid
      → Instant
      → Auth.User
      → FileIncidentBody
      → List Incident
      → (ApiError ⊎ Incident) × List Incident
  file faults id now u body rows =
      guarded_step (check uuids guard u devops_resource act_edit) rows
        (filed (create platform faults id now (new_incident platform u body) rows))

  unfoldable pub list_incidents :
      Faults → Auth.User → List Incident → ApiError ⊎ (List Incident × ℕ)
  list_incidents faults u rows =
      guarded (check uuids guard u devops_resource act_view)
        (counted (answered (internal_error "failed to list register") (list platform faults rows)))

  -- `parse` is uuid.Parse
  unfoldable pub get_incident :
      (String → Option Uuid) → Faults → Auth.User → String → List Incident → ApiError ⊎ Incident
  get_incident parse faults u raw rows =
      guarded (check uuids guard u devops_resource act_view) (elim (parse_uuid parse raw) [
        | inl e ↦ inl e
        | inr id ↦ answered_get (get_by_id faults id rows)
      ])

  unfoldable pub export_incidents :
      Faults → Auth.User → List Incident → ApiError ⊎ (List Incident × VerifyResult)
  export_incidents faults u rows =
      guarded (check uuids guard u devops_resource act_view)
        (answered (internal_error "failed to export register") (export platform faults rows))
