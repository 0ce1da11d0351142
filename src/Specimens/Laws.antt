-- ===== src/Specimens/Laws.antt =====
-- What the writes of the specimens repository do to a row (internal/db/specimen_postgres.go).
use minerals.Base.{
  ◌==◌, Bool, true, false, ◌||◌, some, List, [], ◌∷◌, eqb, ◌≡◌, sym, ap, ◌∙◌, arith, eq_iff,
  eq_refl, Bool-cases, Option-cases, inl, inr, any,
}
use minerals.Uuid.{Uuid}
use minerals.Domain.{Specimen}
use minerals.Specimens.{
  Database, find, found, get_by_id, create, updated, is_target, update_rows, number_taken,
  update_found, update, clashes, stored_type_data,
}

pub find-id : (id : Uuid) (rows : List Specimen) (s : Specimen) → find id rows ≡ some s → s.id ≡ id
unfolding find
find-id id [] s h = absurd (cc)
find-id id (r ∷ rows) s h = elim (Bool-cases (eqb r.id id)) [
  | inl t ↦
      let e : r ≡ s = ground (arith, h, t) in
      let i : r.id ≡ id = ground (arith, t) in ap (λ (x : Specimen). x.id) (sym e) ∙ i
  | inr f ↦ find-id id rows s (ground (arith, h, f))
]

pub get_by_id-inr :
    (fault : Bool) (id : Uuid) (db : Database) (s : Specimen)
    → get_by_id fault id db ≡ inr s
    → find id db.specimens ≡ some s
unfolding get_by_id found
get_by_id-inr true id db s h = absurd (cc)
get_by_id-inr false id db s h = elim (Option-cases (find id db.specimens)) [
  | inl e ↦ absurd (ground (arith, h, e))
  | inr (v, e) ↦ e ∙ ap some (ground (arith, h, e))
]

-- A row after an update of it.
pub find-update_rows :
    (s : Specimen) (rows : List Specimen) (row : Specimen)
    → find s.id rows ≡ some row
    → row.type ≡ s.type
    → find s.id (update_rows s rows) ≡ some (updated s row)
unfolding find update_rows is_target updated
find-update_rows s [] row h k = absurd (cc)
find-update_rows s (r ∷ rows) row h k = elim (Bool-cases (eqb r.id s.id)) [
  | inl t ↦
      let e : r ≡ row = ground (arith, h, t) in
      let y : (r.type == s.type) ≡ true =
        ap (λ (x : Specimen). x.type == s.type) e ∙ (rw k (eq_refl s.type)) in
      rw (t, y) (rw t (ap (λ (x : Specimen). some (updated s x)) e))
  | inr f ↦ rw f (rw f (find-update_rows s rows row (ground (arith, h, f)) k))
]

pub update-inr :
    (fault : Bool) (s : Specimen) (db after : Database)
    → update fault s db ≡ inr after
    → (row : Specimen) × (find s.id db.specimens ≡ some row)
      × (row.type ≡ s.type)
      × (after ≡ record db { specimens = update_rows s db.specimens })
unfolding update update_found
update-inr true s db after h = absurd (cc)
update-inr false s db after h = elim (Option-cases (find s.id db.specimens)) [
  | inl e ↦ absurd (ground (arith, h, e))
  | inr (row, e) ↦ elim (Bool-cases (row.type == s.type)) [
    | inr f ↦ absurd (ground (arith, h, e, f))
    | inl t ↦ elim (Bool-cases (number_taken s row db.specimens)) [
      | inl taken ↦ absurd (ground (arith, h, e, t, taken))
      | inr free ↦
          (row, e, ground (arith, t, eq_iff row.type s.type), ground (arith, h, e, t, free))
    ]
  ]
]

pub create-inr :
    (fault : Bool) (user : Uuid) (s : Specimen) (db after : Database)
    → create fault user s db ≡ inr after
    → after ≡ record db {
      specimens =
          record s { author_id = user; type_data = stored_type_data s.type_data } ∷ db.specimens;
    }
unfolding create
create-inr true user s db after h = absurd (cc)
create-inr false user s db after h =
    let row : Specimen = record s { author_id = user; type_data = stored_type_data s.type_data } in
    elim (Bool-cases (any (λ (r : Specimen). eqb r.id row.id || clashes row r) db.specimens)) [
      | inl taken ↦ absurd (ground (arith, h, taken))
      | inr free ↦ ground (arith, h, free)
    ]
