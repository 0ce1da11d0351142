-- ===== src/Visibility/Examples.antt =====
-- A specimen with a price override, and an owner with defaults.
use minerals.Base.{true, none, some, []}
use minerals.Domain.{private, public, unlisted, Specimen, Photo, FieldDefaults, User, zero_user}

abbrev quartz : Specimen
quartz = record {
  id = 100;
  type = "mineral";
  catalog_number = none;
  name = "Quartz";
  description = "";
  visibility = public;
  author_id = 7;
  acquired_at = some 5;
  acquired_from = none;
  price_cents = some 1200;
  source_notes = none;
  locality_text = none;
  locality = none;
  mass_g = none;
  dimensions = none;
  type_data = [];
  main_image_id = none;
  visibility_price = some private;
  visibility_acquired_from = none;
  visibility_images = none;
  tagged = true;
  created_at = 1;
  updated_at = 1;
}

abbrev defaults : FieldDefaults
defaults = record {
  price = none;
  acquired_from = none;
  acquired_at = some unlisted;
  catalog_number = none;
  images = some private;
}

abbrev ann : User
ann = record zero_user { id = 7; field_defaults = some defaults }

abbrev photo : Photo
photo = record {
  id = 1;
  specimen_id = 100;
  file_id = 1;
  kind = "visible";
  taken_at = none;
  position = 0;
  visibility = none;
  created_at = 1;
}
