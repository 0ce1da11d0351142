-- ===== src/Api/Moderation/Takedown.antt =====
-- What a takedown hides (internal/api/moderation.go with
-- internal/api/specimens.go).
use minerals.Base.{
  String, ◌==◌, true, false, Option, none, some, ◌≡◌, ◌⊎◌, refl, sym, ap, ◌∙◌, arith, eq_iff,
  Bool-cases, inl, inr,
}
use mathlib.Core.Path.{subst}
use minerals.Uuid.{Uuid, UuidText}
use minerals.Domain.{Visibility, private, Specimen}
use minerals.Auth
use minerals.Authz.{SharesLookup, Enforcer}
use minerals.Authz.Specimens.{Answers}
use minerals.Specimens.{Database, find, updated, update}
use minerals.Specimens.Laws.{find-id, find-update_rows, update-inr}
use minerals.Api.Guard.{
  ApiError, act_edit, check, forbidden, parse_uuid, specimen_resource, guarded_step,
}
use minerals.Api.Guard.Specimens.{may_see, may_write, check-specimen_write}
use minerals.Api.Redact.{SpecimenView, UserRepo, to_specimen_view}
use minerals.Api.Specimens.Laws.{loaded-inr, written-cases, shown, get-eq-shown, no_such_specimen}
use minerals.Api.Specimens.{Faults, loaded, get}
use minerals.Api.Moderation.{taken_down, takedown_row, takedown}

module _ (uuids : UuidText) (shares : Option SharesLookup) (e : Enforcer shares)
    (answers : Answers shares) (parse : String → Option Uuid) (caller : Auth.User) where
  -- The row of the id is private now, and the same otherwise as far as its readers are concerned.
  abbrev IsHidden : Uuid → Database → Database → Type 0
  IsHidden id db db' =
      (s : Specimen) × (t : Specimen) × (find id db.specimens ≡ some s)
      × (may_write uuids caller s ≡ true)
      × (find id db'.specimens ≡ some t)
      × (t.visibility ≡ private)
      × (t.author_id ≡ s.author_id)
      × (t.id ≡ s.id)

  updated-private :
      (s row : Specimen)
      → ((updated (record s { visibility = private }) row).visibility ≡ private)
        × ((updated (record s { visibility = private }) row).author_id ≡ row.author_id)
        × ((updated (record s { visibility = private }) row).id ≡ row.id)
  unfolding updated
  updated-private s row = (refl, refl, refl)

  taken_down-IsHidden :
      (faults : Faults) (s : Specimen) (db db' : Database) (view : SpecimenView)
      → find s.id db.specimens ≡ some s
      → may_write uuids caller s ≡ true
      → taken_down uuids (some e.enforce) parse caller faults s db ≡ (inr view, db')
      → IsHidden s.id db db'
  unfolding taken_down
  taken_down-IsHidden faults s db db' view own editor h =
      elim (Bool-cases (s.visibility == private)) [
        | inl t ↦
            let kept : db ≡ db' = ground (arith, h, t) in
            (
              s,
              s,
              own,
              editor,
              ap (λ (d : Database). find s.id d.specimens) (sym kept) ∙ own,
              ground (arith, t, eq_iff s.visibility private),
              refl,
              refl,
            )
        | inr f ↦
            let sp : Specimen = record s { visibility = private } in
            elim (written-cases (to_specimen_view sp) (update faults.write sp db) db) [
              | inl (err, failed) ↦
                  let bad : ◌≡◌ {A = (ApiError ⊎ SpecimenView) × Database} (inl err, db)
                      (inr view, db') =
                    sym failed ∙ (rw f at h) in
                  absurd (cc)
              | inr (after, wrote, answer) ↦
                  let (row, found', y, made) = update-inr faults.write sp db after wrote in
                  let one : some row ≡ some s = sym found' ∙ own in
                  let same : row ≡ s = cc in
                  let both : ◌≡◌ {A = (ApiError ⊎ SpecimenView) × Database}
                      (inr (to_specimen_view sp), after) (inr view, db') =
                    sym answer ∙ (rw f at h) in
                  let left : db' ≡ after = cc in
                  let (hidden, author, id) = updated-private s row in
                  (
                    s,
                    updated sp row,
                    own,
                    editor,
                    ap (λ (d : Database). find s.id d.specimens) (left ∙ made)
                        ∙ find-update_rows sp db.specimens row found' y,
                    hidden,
                    author ∙ ap (λ (x : Specimen). x.author_id) same,
                    id ∙ ap (λ (x : Specimen). x.id) same,
                  )
            ]
      ]

  takedown_row-admitted :
      (faults : Faults) (s : Specimen) (db : Database)
      → may_write uuids caller s ≡ true
      → takedown_row uuids (some e.enforce) parse caller faults (inr s) db
        ≡ taken_down uuids (some e.enforce) parse caller faults s db
  unfolding takedown_row guarded_step
  takedown_row-admitted faults s db t =
      let admitted : check uuids (some e.enforce) caller (specimen_resource uuids s) act_edit
          ≡ none =
        check-specimen_write uuids shares e answers caller s act_edit (inl refl) ∙ (rw t refl) in
      ap
        (λ (c : Option ApiError).
          guarded_step c db (taken_down uuids (some e.enforce) parse caller faults s db))
        admitted

  pub takedown-admitted :
      (faults : Faults) (raw : String) (s : Specimen) (db : Database)
      → loaded faults.read (parse_uuid parse raw) db ≡ inr s
      → may_write uuids caller s ≡ true
      → takedown uuids (some e.enforce) parse caller faults raw db
        ≡ taken_down uuids (some e.enforce) parse caller faults s db
  unfolding takedown
  takedown-admitted faults raw s db l t =
      ap (λ (r : ApiError ⊎ Specimen). takedown_row uuids (some e.enforce) parse caller faults r db)
        l
      ∙ takedown_row-admitted faults s db t

  takedown_row-IsHidden :
      (faults : Faults) (id : Uuid) (db db' : Database) (view : SpecimenView)
      (r : ApiError ⊎ Specimen)
      → loaded faults.read (inr id) db ≡ r
      → takedown_row uuids (some e.enforce) parse caller faults r db ≡ (inr view, db')
      → IsHidden id db db'
  unfolding takedown_row guarded_step
  takedown_row-IsHidden faults id db db' view (inl err) h k = absurd (cc)
  takedown_row-IsHidden faults id db db' view (inr s) h k =
      let (i, named, own) = loaded-inr faults.read (inr id) db s h in
      let same : s.id ≡ id = find-id i db.specimens s own ∙ (let e' : i ≡ id = cc in e') in
      let own' = ap (λ (x : Uuid). find x db.specimens) (find-id i db.specimens s own) ∙ own in
      elim (Bool-cases (may_write uuids caller s)) [
        | inr f ↦
            let refused : check uuids (some e.enforce) caller (specimen_resource uuids s) act_edit
                ≡ some forbidden =
              check-specimen_write uuids shares e answers caller s act_edit (inl refl)
              ∙ (rw f refl) in
            let bad : ◌≡◌ {A = (ApiError ⊎ SpecimenView) × Database} (inl forbidden, db)
                (inr view, db') =
              ap
                (λ (c : Option ApiError).
                  guarded_step c db (taken_down uuids (some e.enforce) parse caller faults s db))
                (sym refused)
              ∙ k in
            absurd (cc)
        | inl t ↦
            subst (λ (x : Uuid). IsHidden x db db') same
              (taken_down-IsHidden faults s db db' view own' t
                (sym (takedown_row-admitted faults s db t) ∙ k))
      ]

  may_see-same :
      (reader : Auth.User) (t s : Specimen) (vis : Visibility)
      → t.author_id ≡ s.author_id
      → t.id ≡ s.id
      → may_see uuids shares reader t vis ≡ may_see uuids shares reader s vis
  may_see-same reader t s vis author id = rw (author, id) refl

  -- A takedown hides: if the shares table can be read and a takedown answers without an error, then the caller may edit the specimen, its author or an
  -- admin, and afterwards whoever is not allowed to see the specimen when it is private, that is, is neither its author
  -- nor an admin and holds no share of it, gets from the endpoint the very answer to an id that no
  -- specimen has, whatever the visibility was before.
  pub takedown-hidden :
      (faults faults' : Faults) (raw : String) (id : Uuid) (db db' : Database) (view : SpecimenView)
      (s : Specimen) (reader : Auth.User) (users : Option UserRepo)
      → parse raw ≡ some id
      → takedown uuids (some e.enforce) parse caller faults raw db ≡ (inr view, db')
      → find id db.specimens ≡ some s
      → may_see uuids shares reader s private ≡ false
      → faults'.read ≡ false
      → (may_write uuids caller s ≡ true)
        × (get uuids (some e.enforce) parse reader users faults' raw db' ≡ inl no_such_specimen)
  unfolding takedown parse_uuid
  takedown-hidden faults faults' raw id db db' view s reader users named done own hidden ok =
      let k : takedown_row uuids (some e.enforce) parse caller faults
            (loaded faults.read (inr id) db) db
          ≡ (inr view, db') =
        rw (named, parse_uuid) at done in
      let (s', t, own', editor, now, closed, author, same) =
        takedown_row-IsHidden faults id db db' view (loaded faults.read (inr id) db) refl k in
      let one : some s' ≡ some s = sym own' ∙ own in
      let eq : s' ≡ s = cc in
      let unseen : may_see uuids shares reader t t.visibility ≡ false =
        ap (may_see uuids shares reader t) closed
        ∙ may_see-same reader t s private (author ∙ ap (λ (x : Specimen). x.author_id) eq)
            (same ∙ ap (λ (x : Specimen). x.id) eq)
        ∙ hidden in
      (
        ap (may_write uuids caller) (sym eq) ∙ editor,
        get-eq-shown uuids shares e answers parse reader users faults' raw id db' ok named
            ∙ ap (shown uuids shares e answers parse reader users) now
            ∙ (rw unseen refl),
      )
