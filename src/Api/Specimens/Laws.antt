-- ===== src/Api/Specimens/Laws.antt =====
-- Who reads and writes specimens through the endpoints, and what a write leaves
-- (internal/api/specimens.go with internal/api/authz.go and internal/authz).
use minerals.Base.{
  String, Bool, false, Option, none, some, if◌then◌else◌, ◌≡◌, ◌⊎◌, refl, sym, ap, ◌∙◌, Bool-cases,
  inl, inr,
}
use mathlib.Core.Path.{subst}
use minerals.Uuid.{Uuid, UuidText}
use minerals.Domain.{Specimen}
use minerals.Auth
use minerals.Authz.{SharesLookup, Enforcer}
use minerals.Authz.Specimens.{Answers}
use minerals.Specimens.{
  Database, SpecimenError, get_by_id, find, found, updated, update, update_rows,
}
use minerals.Specimens.Laws.{get_by_id-inr, find-update_rows, update-inr}
use minerals.Api.Guard.{
  ApiError, act_edit, check, forbidden, parse_uuid, specimen_resource, guarded_step, guarded,
  check_view,
}
use minerals.Api.Guard
use minerals.Api.Guard.Specimens.{may_see, check_view-specimen}
use minerals.Api.Redact.{SpecimenView, UserRepo, no_owners, redact_specimen}
use minerals.Api.Specimens.Patch.{and_then}
use minerals.Api.Specimens.Kept.{Kept}
use minerals.Api.Specimens.{
  Faults, map_specimen_error, mapped, loaded, written, get_row, viewed, get, write_patch,
}

-- The row that a request loads.
pub loaded-inr :
    (fault : Bool) (id : ApiError ⊎ Uuid) (db : Database) (s : Specimen)
    → loaded fault id db ≡ inr s
    → (i : Uuid) × (id ≡ inr i) × (find i db.specimens ≡ some s)
unfolding loaded mapped
loaded-inr fault (inl e) db s h = absurd (cc)
loaded-inr fault (inr i) db s h = (i, refl, go (get_by_id fault i db) refl h)
  where
    go :
        (r : SpecimenError ⊎ Specimen)
        → get_by_id fault i db ≡ r
        → mapped r ≡ inr s
        → find i db.specimens ≡ some s
    go (inl e) k m = absurd (cc)
    go (inr t) k m = let e : t ≡ s = cc in get_by_id-inr fault i db t k ∙ ap some e

-- A write's answer.
pub written-cases {ℓ} :
    {A : Type ℓ} (a : A) (r : SpecimenError ⊎ Database) (db : Database)
    → ((err : ApiError) × (written a r db ≡ (inl err, db)))
      ⊎ ((after : Database) × (r ≡ inr after) × (written a r db ≡ (inr a, after)))
unfolding written
written-cases a (inl e) db = inl (map_specimen_error e, refl)
written-cases a (inr after) db = inr (after, refl, refl)

abbrev pub no_such_specimen : ApiError
no_such_specimen = Guard.not_found "specimen_not_found" "no such specimen"

module _ (uuids : UuidText) (shares : Option SharesLookup) (e : Enforcer shares)
    (answers : Answers shares) (parse : String → Option Uuid) (caller : Auth.User) where
  -- What a caller is shown of a row that may be missing.
  abbrev pub shown : Option UserRepo → Option Specimen → ApiError ⊎ SpecimenView
  shown users none = inl no_such_specimen
  shown users (some s) =
      if may_see uuids shares caller s s.visibility
      then inr ((redact_specimen uuids caller users (some e.enforce) no_owners s).0)
      else inl no_such_specimen

  viewed-get_row :
      (users : Option UserRepo) (row : Option Specimen)
      → viewed uuids
          (some e.enforce)
          parse
          caller
          users
          (get_row uuids (some e.enforce) parse caller (mapped (found row)))
        ≡ shown users row
  unfolding viewed get_row mapped found and_then map_specimen_error guarded
  viewed-get_row users none = refl
  viewed-get_row users (some s) = elim (Bool-cases (may_see uuids shares caller s s.visibility)) [
    | inl t ↦
        let seen : check_view uuids (some e.enforce) caller (specimen_resource uuids s)
              "specimen_not_found" "no such specimen"
            ≡ none =
          check_view-specimen uuids shares e answers caller s "specimen_not_found"
            "no such specimen"
          ∙ (rw t refl) in
        rw (seen, guarded) (rw t refl)
    | inr f ↦
        let hidden : check_view uuids (some e.enforce) caller (specimen_resource uuids s)
              "specimen_not_found" "no such specimen"
            ≡ some no_such_specimen =
          check_view-specimen uuids shares e answers caller s "specimen_not_found"
            "no such specimen"
          ∙ (rw f refl) in
        rw (hidden, guarded) (rw f refl)
  ]

  loaded-eq :
      (faults : Faults) (raw : String) (id : Uuid) (db : Database)
      → faults.read ≡ false
      → parse raw ≡ some id
      → loaded faults.read (parse_uuid parse raw) db ≡ mapped (found (find id db.specimens))
  unfolding loaded parse_uuid get_by_id
  loaded-eq faults raw id db ok named = rw (named, ok, parse_uuid) refl

  -- If the shares table and the specimen can be read, getting a specimen by the text of its id answers those who may see
  -- it with its redacted view, and all others with the very answer to an id that no specimen has.
  pub get-eq-shown :
      (users : Option UserRepo) (faults : Faults) (raw : String) (id : Uuid) (db : Database)
      → faults.read ≡ false
      → parse raw ≡ some id
      → get uuids (some e.enforce) parse caller users faults raw db
        ≡ shown users (find id db.specimens)
  unfolding get
  get-eq-shown users faults raw id db ok named =
      ap
        (λ (row : ApiError ⊎ Specimen).
          viewed uuids (some e.enforce) parse caller users
            (get_row uuids (some e.enforce) parse caller row))
        (loaded-eq faults raw id db ok named)
      ∙ viewed-get_row users (find id db.specimens)

  find-updated :
      (t s row : Specimen) (db : Database)
      → row ≡ s
      → t.id ≡ s.id
      → find t.id db.specimens ≡ some row
      → row.type ≡ t.type
      → find s.id (update_rows t db.specimens) ≡ some (updated t s)
  find-updated t s row db same id own y =
      ap (λ (i : Uuid). find i (update_rows t db.specimens)) (sym id)
      ∙ find-update_rows t db.specimens row own y
      ∙ ap (λ (x : Specimen). some (updated t x)) same

  -- What a patch of the row `s` leaves.
  abbrev pub Patches : Specimen → Database → (ApiError ⊎ SpecimenView) × Database → Type 0
  Patches s db after =
      ((err : ApiError) × (after ≡ (inl err, db)))
      ⊎ ((view : SpecimenView) × (db' : Database) × (t : Specimen) × (after ≡ (inr view, db'))
          × Kept s t
          × (find s.id db'.specimens ≡ some (updated t s))
          × (db'.photos ≡ db.photos)
          × (db'.journal ≡ db.journal))

  pub write_patch-Patches :
      (users : Option UserRepo) (faults : Faults) (s : Specimen) (db : Database)
      → find s.id db.specimens ≡ some s
      → (r : ApiError ⊎ Specimen) → ((t : Specimen) → r ≡ inr t → Kept s t)
      → Patches s db (write_patch uuids (some e.enforce) parse caller users faults r db)
  unfolding write_patch
  write_patch-Patches users faults s db own (inl err) h = inl (err, refl)
  write_patch-Patches users faults s db own (inr t) h =
      let kept = h t refl in
      elim (written-cases ((redact_specimen uuids caller users (some e.enforce) no_owners t).0)
        (update faults.write t db) db) [
          | inl failed' ↦ inl failed'
          | inr (after, wrote, answer) ↦
              let (row, found', y, made) = update-inr faults.write t db after wrote in
              let one : some row ≡ some s =
                sym found' ∙ ap (λ (i : Uuid). find i db.specimens) (kept.id) ∙ own in
              let same : row ≡ s = cc in
              inr (
                _,
                after,
                t,
                answer,
                kept,
                subst (λ (d : Database). find s.id d.specimens ≡ some (updated t s)) (sym made)
                    (find-updated t s row db same kept.id found' y),
                ap (λ (d : Database). d.photos) made,
                ap (λ (d : Database). d.journal) made,
              )
        ]
