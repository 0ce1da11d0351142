-- ===== src/Visibility/Chain.antt =====
-- The resolvers follow the chain: the first layer that is set, in order (visibility.go).
use minerals.Base.{◌==◌, Option, none, some, List, [], ◌∷◌, if◌then◌else◌, ◌≡◌, arith}
use minerals.Domain.{Visibility, private, Specimen, Photo, User}
use minerals.Visibility.{
  Field, price, images, Source, image, specimen_field, specimen_overall, user_default,
  system_default, Resolution, specimen_scalar_override, owner_default, resolve_scalar,
  resolve_image,
}

-- A chain: layers in order, each with what it sets, and the first that is set.
abbrev pub Layer : Type 0
Layer = Source × Option Visibility

unfoldable pub first_set : List Layer → Resolution
first_set [] = record { visibility = private; source = system_default }
first_set ((s, none) ∷ rest) = first_set rest
first_set ((s, some v) ∷ rest) = record { visibility = v; source = s }

-- `ResolveScalar` is the first set layer of the specimen's override, which only the price and
-- acquired-from have, and the owner's default; with neither, private.
pub resolve_scalar-eq-first_set :
    (field : Field) (spec : Specimen) (owner : User)
    → resolve_scalar field spec owner
      ≡ first_set (
          (specimen_field, specimen_scalar_override field spec)
          ∷ (user_default, owner_default field owner)
          ∷ [])
unfolding resolve_scalar first_set
resolve_scalar-eq-first_set price spec owner = ground arith
resolve_scalar-eq-first_set _ spec owner = ground arith

abbrev overall : Specimen → Option Visibility
overall spec = if spec.visibility == "" then none else some spec.visibility

-- `ResolveImage` is the first set layer of the photo's own visibility, the specimen's image
-- override, the specimen's overall visibility unless it is empty, and the owner's default for
-- images; with none, private.
pub resolve_image-eq-first_set :
    (spec : Specimen) (owner : User) (img : Photo)
    → resolve_image spec owner img
      ≡ first_set (
          (image, img.visibility)
          ∷ (specimen_field, spec.visibility_images)
          ∷ (specimen_overall, overall spec)
          ∷ (user_default, owner_default images owner)
          ∷ [])
unfolding resolve_image first_set
resolve_image-eq-first_set spec owner img = ground arith
