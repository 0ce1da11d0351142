-- ===== src/Domain.antt =====
-- The domain types that the modelled parts share (internal/domain/domain.go).
--
-- An instant is a number of nanoseconds; a float64, which the program only passes on here, is the
-- number of its bit pattern; an int64 price is a natural number; a string type is a `String`.
use minerals.Base.{ℕ, String, Bool, Option, none, List}
use minerals.Uuid.{Uuid, nil_uuid}

abbrev pub Instant : Type 0
Instant = ℕ

abbrev pub Float64 : Type 0
Float64 = ℕ

abbrev pub Visibility : Type 0
Visibility = String

abbrev pub private : Visibility
private = "private"

abbrev pub unlisted : Visibility
unlisted = "unlisted"

abbrev pub public : Visibility
public = "public"

pub record Locality : Type 0 where
  pub country : String
  pub region : String
  pub site : String
  pub lat : Float64
  pub lon : Float64
  pub mindat_id : String

pub record Dimensions : Type 0 where
  pub length_mm : Float64
  pub width_mm : Float64
  pub height_mm : Float64

pub record Specimen : Type 0 where
  pub id : Uuid
  pub type : String
  pub catalog_number : Option String
  pub name : String
  pub description : String
  pub visibility : Visibility
  pub author_id : Uuid
  pub acquired_at : Option Instant
  pub acquired_from : Option String
  pub price_cents : Option ℕ
  pub source_notes : Option String
  pub locality_text : Option String
  pub locality : Option Locality
  pub mass_g : Option Float64
  pub dimensions : Option Dimensions
  pub type_data : List ℕ
  pub main_image_id : Option Uuid
  pub visibility_price : Option Visibility
  pub visibility_acquired_from : Option Visibility
  pub visibility_images : Option Visibility
  pub tagged : Bool
  pub created_at : Instant
  pub updated_at : Instant

pub record Photo : Type 0 where
  pub id : Uuid
  pub specimen_id : Uuid
  pub file_id : Uuid
  pub kind : String
  pub taken_at : Option Instant
  pub position : ℕ
  pub visibility : Option Visibility
  pub created_at : Instant

pub record JournalEntry : Type 0 where
  pub id : Uuid
  pub specimen_id : Uuid
  pub author_id : Uuid
  pub body_md : String
  pub created_at : Instant
  pub updated_at : Instant

pub record Collector : Type 0 where
  pub id : Uuid
  pub name : String
  pub notes : Option String
  pub author_id : Uuid
  pub created_at : Instant
  pub updated_at : Instant

pub record FieldDefaults : Type 0 where
  pub price : Option Visibility
  pub acquired_from : Option Visibility
  pub acquired_at : Option Visibility
  pub catalog_number : Option Visibility
  pub images : Option Visibility

pub record User : Type 0 where
  pub id : Uuid
  pub keycloak_sub : String
  pub email : String
  pub display_name : Option String
  pub status : String
  pub field_defaults : Option FieldDefaults
  pub default_specimen_visibility : Option Visibility
  pub created_at : Instant
  pub updated_at : Instant

-- `domain.User{}`
abbrev pub zero_user : User
zero_user = record {
  id = nil_uuid;
  keycloak_sub = "";
  email = "";
  display_name = none;
  status = "";
  field_defaults = none;
  default_specimen_visibility = none;
  created_at = 0;
  updated_at = 0;
}

-- `UserStatus`
abbrev pub status_pending : String
status_pending = "pending"

abbrev pub status_active : String
status_active = "active"

abbrev pub status_suspended : String
status_suspended = "suspended"

abbrev pub status_deleted : String
status_deleted = "deleted"
