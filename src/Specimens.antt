-- ===== src/Specimens.antt =====
-- The specimens table and its repository (internal/db/specimen_postgres.go, SpecimenRepo of
-- internal/domain/domain.go).
--
-- The database is the rows of three tables. `id` is the primary key, and no author has two specimens of
-- one catalog number. Each query may fail (`fault`). The ranked and the paged lists are not modelled.
pub mod Laws
use minerals.Base.{
  ℕ, zero, suc, ◌+◌, ◌-◌, ◌*◌, ◌/◌, ◌%◌, ◌^◌, ◌≤◌, ◌<◌, min, String, ◌==◌, Bool, true, false, not,
  ◌&&◌, ◌||◌, Option, none, some, List, [], ◌∷◌, ◌++◌, map, ltb, leb, eqb, if◌then◌else◌, ◌≡◌, ◌≢◌,
  ◌↔◌, ◌⊎◌, refl, sym, ap, ◌∙◌, arith, eq_iff, eq_refl, trim_space, split_on, contains, Bool-cases,
  Option-cases, inl, inr, length, take, drop, any, all, All, All-append, All-of, length-append,
  length-take, length-drop, take-append-drop, take-append_left, drop-append_left, Bytes, codes,
  bytes_eq, has_prefix, be16, be32, le32, put_be16, put_le32, lt→ltb, ltb→lt, leb→le, eqb_iff, itoa,
  read_number, read_number-itoa, itoa_injective, minus-itoa,
}
use minerals.Uuid.{Uuid}
use minerals.Domain.{Instant, Specimen, Photo, JournalEntry}

pub record Database : Type 0 where
  pub specimens : List Specimen
  pub photos : List Photo
  pub journal : List JournalEntry

pub data SpecimenError : Type 0 where
  not_found conflict referenced type_immutable failed : SpecimenError

-- `{}` in place of an empty type_data.
unfoldable pub stored_type_data : Bytes → Bytes
stored_type_data [] = codes "{}"
stored_type_data (b ∷ bs) = b ∷ bs

-- SQL's equality of a column that may be NULL.
unfoldable pub same_number : Option String → Option String → Bool
same_number (some a) (some b) = a == b
same_number _ _ = false

-- Two rows of one author with one catalog number.
unfoldable pub clashes : Specimen → Specimen → Bool
clashes s r = eqb r.author_id s.author_id && same_number r.catalog_number s.catalog_number

unfoldable pub find : Uuid → List Specimen → Option Specimen
find id [] = none
find id (s ∷ rows) = let rest = find id rows in if eqb s.id id then some s else rest

unfoldable pub found : Option Specimen → SpecimenError ⊎ Specimen
found none = inl not_found
found (some s) = inr s

unfoldable pub get_by_id : Bool → Uuid → Database → SpecimenError ⊎ Specimen
get_by_id fault id db = if fault then inl failed else found (find id db.specimens)

-- `Create`, whose author is the identity of the request.
unfoldable pub create : Bool → Uuid → Specimen → Database → SpecimenError ⊎ Database
create fault user s db =
    let row = record s { author_id = user; type_data = stored_type_data s.type_data } in
    if fault
    then inl failed
    else if any (λ r. eqb r.id row.id || clashes row r) db.specimens
    then inl conflict
    else inr (record db { specimens = row ∷ db.specimens })

-- The columns that `Update` sets: all but `id`, `type`, `author_id` and `created_at`.
unfoldable pub updated : Specimen → Specimen → Specimen
updated s row = record s {
  id = row.id;
  type = row.type;
  author_id = row.author_id;
  type_data = stored_type_data s.type_data;
  created_at = row.created_at;
}

-- `WHERE id = $1 AND type = $21`
unfoldable pub is_target : Specimen → Specimen → Bool
is_target s row = eqb row.id s.id && row.type == s.type

unfoldable pub update_rows : Specimen → List Specimen → List Specimen
update_rows s [] = []
update_rows s (row ∷ rows) = (if is_target s row then updated s row else row) ∷ update_rows s rows

-- Another row of the stored author has the new catalog number.
unfoldable pub number_taken : Specimen → Specimen → List Specimen → Bool
number_taken s row rows = any (λ r. not (eqb r.id row.id) && clashes (updated s row) r) rows

-- `Update` on the row found by its id.
unfoldable pub update_found : Specimen → Option Specimen → Database → SpecimenError ⊎ Database
update_found s none db = inl not_found
update_found s (some row) db =
    if not (row.type == s.type)
    then inl type_immutable
    else if number_taken s row db.specimens
    then inl conflict
    else inr (record db { specimens = update_rows s db.specimens })

unfoldable pub update : Bool → Specimen → Database → SpecimenError ⊎ Database
update fault s db = if fault then inl failed else update_found s (find s.id db.specimens) db

unfoldable pub delete_rows : Uuid → List Specimen → List Specimen
delete_rows id [] = []
delete_rows id (s ∷ rows) = let rest = delete_rows id rows in if eqb s.id id then rest else s ∷ rest

unfoldable pub has_id : Uuid → List Specimen → Bool
has_id id [] = false
has_id id (s ∷ rows) = eqb s.id id || has_id id rows

unfoldable pub delete : Bool → Uuid → Database → SpecimenError ⊎ Database
delete fault id db =
    if fault
    then inl failed
    else if any (λ (p : Photo). eqb p.specimen_id id) db.photos
        || any (λ (j : JournalEntry). eqb j.specimen_id id) db.journal
    then inl referenced
    else if has_id id db.specimens
    then inr (record db { specimens = delete_rows id db.specimens })
    else inl not_found

unfoldable pub has_photo_with_file : Bool → Uuid → Uuid → Database → SpecimenError ⊎ Bool
has_photo_with_file fault specimen_id file_id db =
    if fault
    then inl failed
    else inr (any (λ (p : Photo). eqb p.specimen_id specimen_id && eqb p.file_id file_id) db.photos)
