-- ===== src/Incident/Handlers/Laws.antt =====
-- Who files and reads register entries, and in whose name (internal/api/incident_register.go).
use minerals.Base.{
  ◌-◌, ◌^◌, ◌<◌, true, false, Option, none, some, List, [], ◌∷◌, ◌++◌, if◌then◌else◌, ◌≡◌, ◌⊎◌,
  refl, ap, ◌∙◌, Bool-cases, inl, inr, length,
}
use minerals.Uuid.{Uuid, UuidText}
use minerals.Domain.{Instant}
use minerals.Auth
use minerals.Authz.{SharesLookup, Enforcer}
use minerals.Authz.Specimens.{Answers}
use minerals.Api.Guard.{
  ApiError, act_edit, check, devops_resource, forbidden, guarded, guarded_step,
}
use minerals.Api.Guard.Devops.{
  may_see_console, may_edit_console, check-devops_view, check-devops_edit,
}
use minerals.Incident.{Platform, NewIncident, Incident, verify_chain}
use minerals.Incident.Store.{Faults, sealed_entry, new_entry, create, list, export}
use minerals.Incident.Store.Laws.{next_entry, create_lem}
use minerals.Incident.Handlers.{
  FileIncidentBody, internal_error, answered, counted, recorded_by, new_incident, filed, file,
  list_incidents, export_incidents,
}

module _ (platform : Platform) (uuids : UuidText) where
  next_entry-recorded_by :
      (id : Uuid) (now : Instant) (n : NewIncident) (rows : List Incident)
      → (next_entry platform id now n rows).recorded_by ≡ n.recorded_by
  unfolding sealed_entry new_entry
  next_entry-recorded_by id now n rows = refl

  module _ (shares : Option SharesLookup) (e : Enforcer shares) (answers : Answers shares) where
    file-refused :
        (faults : Faults) (id : Uuid) (now : Instant) (u : Auth.User) (body : FileIncidentBody)
        (rows : List Incident)
        → may_edit_console u ≡ false
        → file platform uuids (some e.enforce) faults id now u body rows ≡ (inl forbidden, rows)
    unfolding file guarded_step
    file-refused faults id now u body rows f =
        let refused : check uuids (some e.enforce) u devops_resource act_edit ≡ some forbidden =
          check-devops_edit uuids shares e answers u ∙ (rw f refl) in
        rw (refused, file) refl

    file-admitted :
        (faults : Faults) (id : Uuid) (now : Instant) (u : Auth.User) (body : FileIncidentBody)
        (rows : List Incident)
        → may_edit_console u ≡ true
        → file platform uuids (some e.enforce) faults id now u body rows
          ≡ filed (create platform faults id now (new_incident platform u body) rows)
    unfolding file guarded_step
    file-admitted faults id now u body rows t =
        let admitted : check uuids (some e.enforce) u devops_resource act_edit ≡ none =
          check-devops_edit uuids shares e answers u ∙ (rw t refl) in
        rw (admitted, file) refl

    -- If the shares table can be read and the register verifies, with fewer than 2^63 - 1 entries, then
    -- filing either answers with an error and leaves the register as it was, or the caller is a devops admin or
    -- an admin, and the answer is an entry in the caller's name, which now stands behind the others in a register that
    -- verifies. All others are refused with 403.
    pub file_lem :
        (faults : Faults) (id : Uuid) (now : Instant) (u : Auth.User) (body : FileIncidentBody)
        (rows : List Incident)
        → (verify_chain platform rows).ok ≡ true
        → length rows < 2 ^ 63 - 1
        → let after = file platform uuids (some e.enforce) faults id now u body rows in
          ((err : ApiError) × (after ≡ (inl err, rows))
            × ((may_edit_console u ≡ true) ⊎ (err ≡ forbidden)))
          ⊎ ((entry : Incident) × (after ≡ (inr entry, rows ++ (entry ∷ [])))
              × (may_edit_console u ≡ true)
              × (entry.recorded_by ≡ recorded_by platform u)
              × ((verify_chain platform (rows ++ (entry ∷ []))).ok ≡ true))
    unfolding filed answered new_incident
    file_lem faults id now u body rows v h = elim (Bool-cases (may_edit_console u)) [
      | inr other ↦ inl (forbidden, file-refused faults id now u body rows other, inr refl)
      | inl admin ↦
          let n = new_incident platform u body in
          let done = file-admitted faults id now u body rows admin in
          elim (create_lem platform faults id now n rows v h) [
            | inl ((err, failed), why) ↦
                inl (internal_error "failed to record incident", done ∙ ap filed failed, inl admin)
            | inr (made, s, good, found) ↦ inr (
              next_entry platform id now n rows,
              done ∙ ap filed made,
              admin,
              next_entry-recorded_by id now n rows,
              good,
            )
          ]
    ]

    -- If the shares table and the register can be read, listing and exporting answer the devops viewers, the devops admins and the admins with
    -- every entry, in order, with their number and with the outcome of the integrity check; all others get 403.
    pub reads_lem :
        (faults : Faults) (u : Auth.User) (rows : List Incident)
        → faults.query ≡ false
        → (list_incidents platform uuids (some e.enforce) faults u rows
            ≡ (if may_see_console u then inr (rows, length rows) else inl forbidden))
          × (export_incidents platform uuids (some e.enforce) faults u rows ≡ (
              if may_see_console u then inr (rows, verify_chain platform rows) else inl forbidden))
    unfolding list_incidents export_incidents guarded answered counted list export
    reads_lem faults u rows ok = elim (Bool-cases (may_see_console u)) [
      | inl t ↦ (
        rw (check-devops_view uuids shares e answers u) (rw (t, ok) refl),
        rw (check-devops_view uuids shares e answers u) (rw (t, ok) refl),
      )
      | inr f ↦ (
        rw (check-devops_view uuids shares e answers u) (rw f refl),
        rw (check-devops_view uuids shares e answers u) (rw f refl),
      )
    ]
