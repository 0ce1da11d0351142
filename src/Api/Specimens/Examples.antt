-- ===== src/Api/Specimens/Examples.antt =====
-- Requests on Ann's quartz.
use minerals.Base.{
  String, true, false, Option, none, some, [], ◌∷◌, ◌≡◌, ◌⊎◌, refl, trim_space, inr, Bytes, codes,
}
use minerals.Uuid.{Uuid, tally}
use minerals.Domain.{private, public, Specimen}
use minerals.Auth
use minerals.Auth.{anonymous}
use minerals.Authz.Examples.{casbin}
use minerals.Specimens.{Database, find}
use minerals.Api.Guard.{ApiError, parse_uuid}
use minerals.Api.Specimens.Patch.{
  PatchSpecimenBody, Json, and_then, patched, patch_type, patch_name, patch_visibility, patch_plain,
  patch_main_image, patch_type_data, patch_field_visibility, apply_visibility_patch, replace,
  value_or, valid_visibility,
}
use minerals.Api.Specimens.Laws.{shown, get-eq-shown}
use minerals.Api.Specimens.Writes.{Changes, Removes, patch_lem, delete_lem}
use minerals.Api.Specimens.{no_faults, get, patch, delete}

abbrev pub ann : Auth.User
ann = record anonymous { id = 7; sub = "s-ann" }

abbrev pub bob : Auth.User
bob = record anonymous { id = 8; sub = "s-bob" }

abbrev pub quartz : Specimen
quartz = record {
  id = 100;
  type = "mineral";
  catalog_number = some "Q1";
  name = "Quartz";
  description = "";
  visibility = public;
  author_id = 7;
  acquired_at = none;
  acquired_from = none;
  price_cents = some 1200;
  source_notes = none;
  locality_text = none;
  locality = none;
  mass_g = none;
  dimensions = none;
  type_data = codes "{}";
  main_image_id = none;
  visibility_price = none;
  visibility_acquired_from = none;
  visibility_images = none;
  tagged = false;
  created_at = 1;
  updated_at = 1;
}

abbrev pub database : Database
database = record { specimens = quartz ∷ []; photos = []; journal = [] }

abbrev pub parse : String → Option Uuid
parse s = some 100

abbrev json : Json
json = record {
  parse_object = λ b. some [];
  print_object = λ m. codes "{}";
  parse_string = λ b. some "public";
}

abbrev canonicalize : String → Bytes → ApiError ⊎ Bytes
canonicalize t b = inr b

abbrev rename : PatchSpecimenBody
rename = record {
  type = none;
  catalog_number = none;
  name = some " Smoky quartz ";
  description = none;
  visibility = some private;
  acquired_at = none;
  acquired_from = none;
  price_cents = none;
  source_notes = none;
  locality_text = none;
  locality = none;
  mass_g = none;
  dimensions = none;
  type_data = none;
  main_image_id = none;
  visibility_price = [];
  visibility_acquired_from = [];
  visibility_images = [];
  tagged = none;
}

abbrev renamed : Specimen
renamed = record quartz { name = "Smoky quartz"; visibility = private; updated_at = 9 }

renames : patched json canonicalize (λ f. inr true) 9 rename quartz ≡ inr renamed
unfolding patched patch_type patch_name patch_visibility patch_plain patch_main_image
    patch_type_data patch_field_visibility apply_visibility_patch replace value_or valid_visibility
    and_then trim_space
renames = refl

get-eq-shown_example :
    get tally (some (casbin none).enforce) parse bob none no_faults "100" database
    ≡ shown tally none (casbin none) tt parse bob none (some quartz)
unfolding find
get-eq-shown_example =
    get-eq-shown tally none (casbin none) tt parse bob none no_faults "100" 100 database refl refl

patch_lem_example :
    Changes tally none (casbin none) tt parse ann (parse_uuid parse "100") database (
      patch tally
        (some (casbin none).enforce)
        parse
        ann
        json
        canonicalize
        none
        no_faults
        9
        rename
        "100"
        database)
patch_lem_example =
    patch_lem tally none (casbin none) tt parse ann json canonicalize none no_faults 9 rename "100"
      database

delete_lem_example :
    Removes tally none
      (casbin none)
      tt
      parse
      ann
      (parse_uuid parse "100")
      database
      (delete tally (some (casbin none).enforce) parse ann no_faults "100" database)
delete_lem_example = delete_lem tally none (casbin none) tt parse ann no_faults "100" database
