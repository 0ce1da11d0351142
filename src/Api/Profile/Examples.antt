-- ===== src/Api/Profile/Examples.antt =====
-- Ann sets up and patches her profile.
use minerals.Base.{
  true, false, none, some, [], ◌∷◌, ltb, ◌≡◌, refl, trim_space, contains, inl, inr, codes,
}
use minerals.Uuid.{tally}
use minerals.Domain
use minerals.Domain.{Visibility, FieldDefaults, private, status_active, status_pending}
use minerals.Auth
use minerals.Auth.{anonymous}
use minerals.Users.{
  activate, mark_active, changed, found, find_sub, get_by_sub, change_row, change_rows, has_id,
  update, update_display_name, update_field_defaults, update_default_specimen_visibility,
}
use minerals.Api.Specimens.Patch.{
  Json, and_then, bytes_trim_space, valid_visibility, is_space, trim_front, trim_back,
}
use minerals.Api.Profile.{
  complete, complete_row, setup_body, max_display_name_len, byte_len, Faults, ProfileBody,
  ProfilePatchBody, invalid_field_defaults, checked_name, set_field_defaults_key, put_default,
  no_defaults, is_unset, stored_defaults, current_defaults, merge_key, merge_keys, merge_object,
  merge_field_defaults, default_visibility, new_visibility, to_profile_body, own_row, wrote,
  checked_then, step_then, get, patch_name, patch_defaults, patch_visibility, patch_row, patch,
}
use minerals.Api.HumaAuth
use minerals.Api.HumaAuth.{next, merged, huma_auth, protected}
use minerals.Api.Profile.Laws.{get-patch}
use minerals.Api.Profile.Setup.{setup_answer, complete-opens}
use minerals.Api.Profile.Partial.{HasName, patch-partial}
use minerals.Api.Profile.Defaults.{Merged, merge_field_defaults-Merged}

abbrev ann : Auth.User
ann = record anonymous { id = 7; sub = "s-ann"; roles = "devops" ∷ [] }

abbrev row : Domain.User
row = record Domain.zero_user { id = 7; keycloak_sub = "s-ann"; status = status_active }

abbrev sound : Faults
sound = record {
  read = false;
  activate = false;
  name = false;
  defaults = false;
  visibility = false;
}

-- The parser of these bodies: every object sets `price`, every string is "private".
abbrev json : Json
json = record {
  parse_object = λ b. some (("price", codes "x") ∷ []);
  print_object = λ m. codes "{}";
  parse_string = λ b. some private;
}

-- The same, for a body whose key is not one of the map's.
abbrev strange : Json
strange = record json { parse_object = λ b. some (("colour", codes "x") ∷ []) }

abbrev body : ProfilePatchBody
body = record {
  display_name = some " Ann ";
  field_defaults = codes "{}";
  default_specimen_visibility = codes "null";
}

abbrev private_price : FieldDefaults
private_price = record no_defaults { price = some private }

abbrev patched_row : Domain.User
patched_row = record row {
  display_name = some "Ann";
  field_defaults = some private_price;
  updated_at = 5;
}

patch_example :
    patch json sound 5 tally ann body (row ∷ [])
    ≡ (inr (to_profile_body tally ("devops" ∷ []) patched_row), patched_row ∷ [])
unfolding patch patch_row own_row get_by_sub found find_sub patch_name patch_defaults
    patch_visibility checked_name byte_len wrote checked_then step_then update_display_name
    update_field_defaults update_default_specimen_visibility update has_id change_rows change_row
    changed bytes_trim_space is_space trim_front trim_back merge_field_defaults merge_object
    merge_keys merge_key put_default set_field_defaults_key stored_defaults is_unset
    current_defaults and_then valid_visibility new_visibility default_visibility trim_space contains
patch_example = refl

get-patch_example :
    get tally sound 6 ann (patched_row ∷ [])
    ≡ inr (to_profile_body tally ("devops" ∷ []) patched_row)
get-patch_example =
    get-patch tally json sound sound 5 6 ann body
      (to_profile_body tally ("devops" ∷ []) patched_row) (row ∷ []) (patched_row ∷ []) refl
      patch_example

refused_example :
    (patch strange sound 5 tally ann body (row ∷ [])).0 ≡ inl (invalid_field_defaults "unknown key")
unfolding patch patch_row own_row get_by_sub found find_sub patch_name patch_defaults checked_name
    byte_len wrote checked_then step_then update_display_name update has_id change_rows change_row
    changed bytes_trim_space is_space trim_front trim_back merge_field_defaults merge_object
    merge_keys merge_key and_then current_defaults trim_space contains
refused_example = refl

patch-partial_example : HasName "s-ann" "Ann" (patch strange sound 5 tally ann body (row ∷ [])).1
unfolding find_sub checked_name byte_len trim_space
patch-partial_example =
    patch-partial tally strange sound 5 ann body (row ∷ []) row " Ann " "Ann" refl refl refl refl
      refl refl

merge_field_defaults-Merged_example :
    Merged json
      (("price", codes "x") ∷ [])
      (current_defaults none)
      (current_defaults (some private_price))
unfolding merge_field_defaults merge_object merge_keys merge_key put_default bytes_trim_space
    is_space trim_front trim_back set_field_defaults_key stored_defaults is_unset current_defaults
    and_then valid_visibility contains
merge_field_defaults-Merged_example =
    merge_field_defaults-Merged json none (some private_price) (codes "{}")
      (("price", codes "x") ∷ []) refl refl

abbrev fresh : Domain.User
fresh = record row { status = status_pending }

abbrev setup : ProfileBody
setup = record {
  id = tally.to_string 7;
  email = "";
  display_name = "Ann";
  pending = false;
  roles = "devops" ∷ [];
  field_defaults = none;
  default_specimen_visibility = none;
}

abbrev queries : HumaAuth.Faults
queries = record { read = false; insert = true; reread = true }

complete_example :
    complete tally sound 5 ann " Ann " (fresh ∷ [])
    ≡ (inr setup, record row { display_name = some "Ann"; updated_at = 5 } ∷ [])
unfolding complete complete_row own_row get_by_sub found find_sub checked_name byte_len wrote
    checked_then setup_body mark_active update has_id change_rows change_row changed trim_space
complete_example = refl

complete-opens_example :
    (r : Domain.User) × (find_sub "s-ann" (fresh ∷ []) ≡ some r)
    × (ltb max_display_name_len (byte_len (codes (trim_space " Ann "))) ≡ false)
    × (setup ≡ setup_answer tally ann r (trim_space " Ann "))
    × (protected
          (λ s. none)
          none
          queries
          9
          6
          (record row { display_name = some "Ann"; updated_at = 5 } ∷ [])
          []
          []
          true
          ann
          ""
        ≡ (
          next (merged ann (changed (activate (trim_space " Ann ")) 5 r)),
          record row { display_name = some "Ann"; updated_at = 5 } ∷ [],
        ))
unfolding huma_auth
complete-opens_example =
    complete-opens tally sound 5 ann " Ann " (fresh ∷ [])
      (record row { display_name = some "Ann"; updated_at = 5 } ∷ []) setup (λ s. none) none queries
      9 6 [] [] ann "" ann complete_example refl refl refl
