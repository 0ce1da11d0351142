-- ===== src/Api/Specimens/Writes.antt =====
-- Who changes and removes specimens, and what stays (patch and delete of internal/api/specimens.go).
use minerals.Base.{
  String, Bool, true, false, ◌||◌, Option, none, some, List, [], ◌∷◌, eqb, ◌≡◌, ◌⊎◌, refl, sym, ap,
  ◌∙◌, arith, Bool-cases, inl, inr, any, Bytes,
}
use minerals.Uuid.{Uuid, UuidText}
use minerals.Domain.{Instant, Specimen, Photo, JournalEntry}
use minerals.Auth
use minerals.Authz.{SharesLookup, Enforcer}
use minerals.Authz.Specimens.{Answers}
use minerals.Specimens
use minerals.Specimens.{Database, SpecimenError, find, delete_rows, has_id}
use minerals.Specimens.Laws.{find-id}
use minerals.Api.Guard.{
  ApiError, act_edit, act_delete, check, forbidden, parse_uuid, specimen_resource, guarded_step,
}
use minerals.Api.Guard.Specimens.{may_write, check-specimen_write}
use minerals.Api.Redact.{SpecimenView, UserRepo}
use minerals.Api.Specimens.Patch.{PatchSpecimenBody, Json, patched}
use minerals.Api.Specimens.Kept.{patched-Kept}
use minerals.Api.Specimens.Laws.{loaded-inr, written-cases, Patches, write_patch-Patches}
use minerals.Api.Specimens.{Faults, mapped, loaded, patch_row, patch, delete_row, delete}
use minerals.Specimens.{has_photo_with_file}

module _ (uuids : UuidText) (shares : Option SharesLookup) (e : Enforcer shares)
    (answers : Answers shares) (parse : String → Option Uuid) (caller : Auth.User) where
  abbrev pub Changes : ApiError ⊎ Uuid → Database → (ApiError ⊎ SpecimenView) × Database → Type 0
  Changes id db after =
      ((err : ApiError) × (after ≡ (inl err, db)))
      ⊎ ((s : Specimen) × (id ≡ inr s.id)
          × (find s.id db.specimens ≡ some s)
          × (may_write uuids caller s ≡ true)
          × Patches uuids shares e answers parse caller s db after)

  -- The row that was loaded is the one of its own id.
  own_row :
      (fault : Bool) (id : ApiError ⊎ Uuid) (db : Database) (s : Specimen)
      → loaded fault id db ≡ inr s
      → (id ≡ inr s.id) × (find s.id db.specimens ≡ some s)
  own_row fault id db s h =
      let (i, named, own) = loaded-inr fault id db s h in
      let same = find-id i db.specimens s own in
      (
        named ∙ ap (λ (x : Uuid). inr x) (sym same),
        ap (λ (x : Uuid). find x db.specimens) same ∙ own,
      )

  module _ (json : Json) (canonicalize : String → Bytes → ApiError ⊎ Bytes)
      (users : Option UserRepo) (faults : Faults) (now : Instant) (b : PatchSpecimenBody)
      (id : ApiError ⊎ Uuid) (db : Database) where
    patch_row-Changes :
        (r : ApiError ⊎ Specimen)
        → loaded faults.read id db ≡ r
        → Changes id db (
            patch_row uuids (some e.enforce) parse caller json canonicalize users faults now b r db)
    unfolding patch_row guarded_step
    patch_row-Changes (inl err) h = inl (err, refl)
    patch_row-Changes (inr s) h = elim (Bool-cases (may_write uuids caller s)) [
      | inr f ↦
          let refused : check uuids (some e.enforce) caller (specimen_resource uuids s) act_edit
              ≡ some forbidden =
            check-specimen_write uuids shares e answers caller s act_edit (inl refl)
            ∙ (rw f refl) in
          inl (forbidden, rw (refused, patch_row) refl)
      | inl t ↦
          let admitted : check uuids (some e.enforce) caller (specimen_resource uuids s) act_edit
              ≡ none =
            check-specimen_write uuids shares e answers caller s act_edit (inl refl)
            ∙ (rw t refl) in
          let (named, own) = own_row faults.read id db s h in
          let has = λ (f : Uuid). mapped (has_photo_with_file faults.photo s.id f db) in
          inr (
            s,
            named,
            own,
            t,
            rw (admitted, patch_row)
                (write_patch-Patches uuids shares e answers parse caller users faults s db own
                  (patched json canonicalize has now b s)
                  (λ u h'. patched-Kept json canonicalize has now b s u h')),
          )
    ]

  -- If the shares table can be read, a patch either answers with an error and leaves the whole database as it was, or the
  -- caller is the author of the specimen with the id, or an admin, and its row is updated: it keeps its id, type,
  -- author and creation, its catalog number is not removed, a new visibility is valid, and photos and journal
  -- are as before.
  pub patch_lem :
      (json : Json) (canonicalize : String → Bytes → ApiError ⊎ Bytes) (users : Option UserRepo)
      (faults : Faults) (now : Instant) (b : PatchSpecimenBody) (raw : String) (db : Database)
      → Changes
          (parse_uuid parse raw)
          db
          (patch uuids (some e.enforce) parse caller json canonicalize users faults now b raw db)
  unfolding patch
  patch_lem json canonicalize users faults now b raw db =
      patch_row-Changes json canonicalize users faults now b (parse_uuid parse raw) db
        (loaded faults.read (parse_uuid parse raw) db) refl

  find-delete_rows : (id : Uuid) (rows : List Specimen) → find id (delete_rows id rows) ≡ none
  unfolding find delete_rows
  find-delete_rows id [] = refl
  find-delete_rows id (r ∷ rows) = elim (Bool-cases (eqb r.id id)) [
    | inl t ↦ rw t (find-delete_rows id rows)
    | inr f ↦ rw f (rw f (find-delete_rows id rows))
  ]

  abbrev pub has_children : Uuid → Database → Bool
  has_children id db =
      any (λ (p : Photo). eqb p.specimen_id id) db.photos
      || any (λ (j : JournalEntry). eqb j.specimen_id id) db.journal

  delete-inr :
      (fault : Bool) (id : Uuid) (db after : Database)
      → Specimens.delete fault id db ≡ inr after
      → (after ≡ record db { specimens = delete_rows id db.specimens })
        × (has_children id db ≡ false)
  unfolding Specimens.delete
  delete-inr true id db after h = absurd (cc)
  delete-inr false id db after h = elim (Bool-cases (has_children id db)) [
    | inl t ↦ absurd (ground (arith, h, t))
    | inr f ↦ elim (Bool-cases (has_id id db.specimens)) [
      | inl t ↦ (ground (arith, h, f, t), f)
      | inr g ↦ absurd (ground (arith, h, f, g))
    ]
  ]

  abbrev pub Removes : ApiError ⊎ Uuid → Database → (ApiError ⊎ Bool) × Database → Type 0
  Removes id db after =
      ((err : ApiError) × (after ≡ (inl err, db)))
      ⊎ ((s : Specimen) × (db' : Database) × (id ≡ inr s.id)
          × (find s.id db.specimens ≡ some s)
          × (may_write uuids caller s ≡ true)
          × (after ≡ (inr true, db'))
          × (find s.id db'.specimens ≡ none)
          × (has_children s.id db ≡ false)
          × (db'.photos ≡ db.photos)
          × (db'.journal ≡ db.journal))

  delete_row-Removes :
      (faults : Faults) (id : ApiError ⊎ Uuid) (db : Database) (r : ApiError ⊎ Specimen)
      → loaded faults.read id db ≡ r
      → Removes id db (delete_row uuids (some e.enforce) parse caller faults r db)
  unfolding delete_row guarded_step
  delete_row-Removes faults id db (inl err) h = inl (err, refl)
  delete_row-Removes faults id db (inr s) h = elim (Bool-cases (may_write uuids caller s)) [
    | inr f ↦
        let refused : check uuids (some e.enforce) caller (specimen_resource uuids s) act_delete
            ≡ some forbidden =
          check-specimen_write uuids shares e answers caller s act_delete (inr refl)
          ∙ (rw f refl) in
        inl (forbidden, rw (refused, delete_row) refl)
    | inl t ↦
        let admitted : check uuids (some e.enforce) caller (specimen_resource uuids s) act_delete
            ≡ none =
          check-specimen_write uuids shares e answers caller s act_delete (inr refl)
          ∙ (rw t refl) in
        let (named, own) = own_row faults.read id db s h in
        rw (admitted, delete_row)
          (elim (written-cases true (Specimens.delete faults.write s.id db) db) [
            | inl failed ↦ inl failed
            | inr (after, wrote, answer) ↦
                let (made, free) = delete-inr faults.write s.id db after wrote in
                inr (
                  s,
                  after,
                  named,
                  own,
                  t,
                  answer,
                  ap (λ (d : Database). find s.id d.specimens) made
                      ∙ find-delete_rows s.id db.specimens,
                  free,
                  ap (λ (d : Database). d.photos) made,
                  ap (λ (d : Database). d.journal) made,
                )
          ])
  ]

  -- If the shares table can be read, a delete either answers with an error and leaves the whole database as it was, or the
  -- caller is the author of the specimen with the id, or an admin, the specimen has no photos and no journal
  -- entries, and afterwards no row has its id, while photos and journal are as before.
  pub delete_lem :
      (faults : Faults) (raw : String) (db : Database)
      → Removes (parse_uuid parse raw) db (delete uuids (some e.enforce) parse caller faults raw db)
  unfolding delete
  delete_lem faults raw db =
      delete_row-Removes faults (parse_uuid parse raw) db
        (loaded faults.read (parse_uuid parse raw) db) refl
