-- ===== src/Api/Redact/Examples.antt =====
-- Viewers of a specimen and its photos.
use minerals.Base.{
  true, false, Option, none, some, [], ◌∷◌, ◌++◌, eqb, if◌then◌else◌, ◌≡◌, refl, contains, All,
}
use minerals.Uuid.{Uuid, tally}
use minerals.Auth
use minerals.Auth.{anonymous}
use minerals.Authz.{SharesLookup}
use minerals.Authz.Specimens.{Answers}
use minerals.Authz.Examples.{casbin}
use minerals.Domain.{Visibility, private, public, Specimen, Photo, zero_user}
use minerals.Visibility.{resolve_image}
use minerals.Api.Redact.{UserRepo, no_owners, load_owner, redact_specimen, filter_photos}
use minerals.Api.Redact.Fields.{disguise, redact_specimen-disguise}
use minerals.Api.Redact.Photos.{may_see_photo, filter_photos-hidden}

-- Nobody holds a share.
abbrev shares : Option SharesLookup
shares = some (λ type id user. some false)

shares-answers : Answers shares
shares-answers type id user e = cc

abbrev ann : Auth.User
ann = record anonymous { id = 7 }

abbrev bob : Auth.User
bob = record anonymous { id = 8 }

-- Ann's, with a private price.
abbrev quartz : Specimen
quartz = record {
  id = 100;
  type = "mineral";
  catalog_number = some "Q1";
  name = "Quartz";
  description = "";
  visibility = public;
  author_id = 7;
  acquired_at = none;
  acquired_from = some "a fair";
  price_cents = some 1200;
  source_notes = none;
  locality_text = none;
  locality = none;
  mass_g = none;
  dimensions = none;
  type_data = [];
  main_image_id = none;
  visibility_price = some private;
  visibility_acquired_from = some public;
  visibility_images = none;
  tagged = true;
  created_at = 1;
  updated_at = 1;
}

abbrev photo : Uuid → Option Visibility → Photo
photo id v = record {
  id = id;
  specimen_id = 100;
  file_id = id;
  kind = "visible";
  taken_at = none;
  position = 0;
  visibility = v;
  created_at = 1;
}

abbrev rows : UserRepo
rows id = if eqb id 7 then some (record zero_user { id = 7 }) else none

redact_specimen-disguise_example :
    redact_specimen tally bob (some rows) (some (casbin shares).enforce) no_owners (
      disguise tally shares
        (casbin shares)
        shares-answers
        bob
        quartz
        (load_owner (some rows) no_owners 7).0
        (some 5)
        none
        none
        none
        false)
    ≡ redact_specimen tally bob (some rows) (some (casbin shares).enforce) no_owners quartz
redact_specimen-disguise_example =
    redact_specimen-disguise tally shares (casbin shares) shares-answers bob quartz (some rows)
      no_owners (some 5) none none none false

filter_photos-hidden_example :
    (filter_photos tally bob none
        (some (casbin shares).enforce)
        no_owners
        quartz
        ((photo 1 none ∷ []) ++ photo 2 (some private) ∷ photo 3 none ∷ [])
      ≡ filter_photos tally bob none
          (some (casbin shares).enforce)
          no_owners
          quartz
          ((photo 1 none ∷ []) ++ photo 3 none ∷ []))
    × All
        (λ q.
          may_see_photo tally shares (casbin shares) shares-answers bob quartz zero_user q ≡ true)
        (filter_photos tally bob none
          (some (casbin shares).enforce)
          no_owners
          quartz
          ((photo 1 none ∷ []) ++ photo 2 (some private) ∷ photo 3 none ∷ [])).0
unfolding load_owner resolve_image contains
filter_photos-hidden_example =
    filter_photos-hidden tally shares (casbin shares) shares-answers bob quartz none no_owners
      (photo 1 none ∷ []) (photo 3 none ∷ []) (photo 2 (some private)) refl
