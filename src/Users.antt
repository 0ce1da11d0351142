-- ===== src/Users.antt =====
-- The users table and its repository (internal/db/user_postgres.go, UserRepo of
-- internal/domain/domain.go), with the row's deletion of internal/db/account_erase_postgres.go.
--
-- The table is the list of its rows; `keycloak_sub` and `id` are its unique keys. Each query may fail
-- (`fault`). Other requests' writes between two queries are steps of the table (Users.Steps).
pub mod Rows
pub mod Steps
use minerals.Base.{
  ℕ, zero, suc, ◌+◌, ◌-◌, ◌*◌, ◌/◌, ◌%◌, ◌^◌, ◌≤◌, ◌<◌, min, String, ◌==◌, Bool, true, false, not,
  ◌&&◌, ◌||◌, Option, none, some, List, [], ◌∷◌, ◌++◌, map, ltb, leb, eqb, if◌then◌else◌, ◌≡◌, ◌≢◌,
  ◌↔◌, ◌⊎◌, refl, sym, ap, ◌∙◌, arith, eq_iff, eq_refl, trim_space, split_on, contains, Bool-cases,
  Option-cases, inl, inr, length, take, drop, any, all, All, All-append, All-of, length-append,
  length-take, length-drop, take-append-drop, take-append_left, drop-append_left, Bytes, codes,
  bytes_eq, has_prefix, be16, be32, le32, put_be16, put_le32, lt→ltb, ltb→lt, leb→le, eqb_iff, itoa,
  read_number, read_number-itoa, itoa_injective, minus-itoa,
}
use minerals.Uuid.{Uuid}
use minerals.Domain.{Instant, Visibility, FieldDefaults, User, status_active}

pub data RepoError : Type 0 where
  not_found conflict failed : RepoError

-- A row's column, as the updates set it; each sets `updated_at` too.
pub data Change : Type 0 where
  activate : String → Change
  rename : String → Change
  set_defaults : Option FieldDefaults → Change
  set_visibility : Option Visibility → Change
  put_status : String → Change

unfoldable pub changed : Change → Instant → User → User
changed (activate name) now u = record u {
  display_name = some name;
  status = status_active;
  updated_at = now;
}
changed (rename name) now u = record u { display_name = some name; updated_at = now }
changed (set_defaults d) now u = record u { field_defaults = d; updated_at = now }
changed (set_visibility v) now u = record u { default_specimen_visibility = v; updated_at = now }
changed (put_status s) now u = record u { status = s; updated_at = now }

unfoldable pub find_sub : String → List User → Option User
find_sub sub [] = none
find_sub sub (u ∷ users) =
    let rest = find_sub sub users in if u.keycloak_sub == sub then some u else rest

unfoldable pub find_id : Uuid → List User → Option User
find_id id [] = none
find_id id (u ∷ users) = let rest = find_id id users in if eqb u.id id then some u else rest

-- A row found, or `ErrUserNotFound`.
unfoldable pub found : Option User → RepoError ⊎ User
found none = inl not_found
found (some u) = inr u

unfoldable pub get_by_sub : Bool → String → List User → RepoError ⊎ User
get_by_sub fault sub users = if fault then inl failed else found (find_sub sub users)

unfoldable pub get_by_id : Bool → Uuid → List User → RepoError ⊎ User
get_by_id fault id users = if fault then inl failed else found (find_id id users)

-- Two rows that the unique keys do not admit together.
unfoldable pub clashes : User → User → Bool
clashes u r = r.keycloak_sub == u.keycloak_sub || eqb r.id u.id

unfoldable pub create : Bool → User → List User → RepoError ⊎ List User
create fault u users =
    if fault then inl failed else if any (clashes u) users then inl conflict else inr (u ∷ users)

-- `WHERE id = $1`
unfoldable pub change_row : Change → Instant → Uuid → User → User
change_row c now id u = if eqb u.id id then changed c now u else u

unfoldable pub change_rows : Change → Instant → Uuid → List User → List User
change_rows c now id [] = []
change_rows c now id (u ∷ users) = change_row c now id u ∷ change_rows c now id users

unfoldable pub has_id : Uuid → List User → Bool
has_id id [] = false
has_id id (u ∷ users) = eqb u.id id || has_id id users

unfoldable pub update : Bool → Change → Instant → Uuid → List User → RepoError ⊎ List User
update fault c now id users =
    if fault
    then inl failed
    else if has_id id users
    then inr (change_rows c now id users)
    else inl not_found

-- `DELETE FROM users WHERE id = $1`, with which the erasure of an account ends.
unfoldable pub delete_rows : Uuid → List User → List User
delete_rows id [] = []
delete_rows id (u ∷ users) =
    let rest = delete_rows id users in if eqb u.id id then rest else u ∷ rest

unfoldable pub mark_active : Bool → Uuid → String → Instant → List User → RepoError ⊎ List User
mark_active fault id name now users = update fault (activate name) now id users

unfoldable pub update_display_name :
    Bool → Uuid → String → Instant → List User → RepoError ⊎ List User
update_display_name fault id name now users = update fault (rename name) now id users

unfoldable pub update_field_defaults :
    Bool → Uuid → Option FieldDefaults → Instant → List User → RepoError ⊎ List User
update_field_defaults fault id defaults now users =
    update fault (set_defaults defaults) now id users

unfoldable pub update_default_specimen_visibility :
    Bool → Uuid → Option Visibility → Instant → List User → RepoError ⊎ List User
update_default_specimen_visibility fault id v now users =
    update fault (set_visibility v) now id users

unfoldable pub set_status : Bool → Uuid → String → Instant → List User → RepoError ⊎ List User
set_status fault id status now users = update fault (put_status status) now id users
