-- ===== src/Api/Redact/Photos.antt =====
-- What a viewer can learn from a filtered list of photos (filterPhotos of internal/api/redact.go).
use minerals.Base.{
  Bool, true, false, Option, some, List, [], ◌∷◌, ◌++◌, if◌then◌else◌, ◌≡◌, refl, Bool-cases, inl,
  inr, All,
}
use minerals.Uuid.{UuidText}
use minerals.Auth
use minerals.Authz.{SharesLookup, Enforcer}
use minerals.Authz.Specimens.{Answers}
use minerals.Domain.{Specimen, Photo, User}
use minerals.Visibility.{resolve_image}
use minerals.Api.Guard.Specimens.{may_see}
use minerals.Api.Redact.{UserRepo, Owners, load_owner, can_see_photo, visible_photos, filter_photos}
use minerals.Api.Redact.Fields.{can_see_field-eq-may_see}

module _ (uuids : UuidText) (shares : Option SharesLookup) (e : Enforcer shares)
    (answers : Answers shares) where
  abbrev pub may_see_photo : Auth.User → Specimen → User → Photo → Bool
  may_see_photo u s owner p = may_see uuids shares u s (resolve_image s owner p).visibility

  can_see_photo-eq :
      (u : Auth.User) (s : Specimen) (owner : User) (p : Photo)
      → can_see_photo uuids u (some e.enforce) s owner p ≡ may_see_photo u s owner p
  unfolding can_see_photo
  can_see_photo-eq u s owner p = can_see_field-eq-may_see uuids shares e answers u s _

  -- The photos that may be seen, in their order.
  pub seen : Auth.User → Specimen → User → List Photo → List Photo
  seen u s owner [] = []
  seen u s owner (p ∷ ps) =
      if may_see_photo u s owner p then p ∷ seen u s owner ps else seen u s owner ps

  visible_photos-eq-seen :
      (u : Auth.User) (s : Specimen) (owner : User) (ps : List Photo)
      → visible_photos uuids u (some e.enforce) s owner ps ≡ seen u s owner ps
  unfolding visible_photos seen
  visible_photos-eq-seen u s owner [] = refl
  visible_photos-eq-seen u s owner (p ∷ ps) =
      rw (can_see_photo-eq u s owner p, visible_photos-eq-seen u s owner ps) refl

  seen-insert :
      (u : Auth.User) (s : Specimen) (owner : User) (before after : List Photo) (p : Photo)
      → may_see_photo u s owner p ≡ false
      → seen u s owner (before ++ p ∷ after) ≡ seen u s owner (before ++ after)
  unfolding seen
  seen-insert u s owner [] after p h = rw h refl
  seen-insert u s owner (q ∷ before) after p h = rw (seen-insert u s owner before after p h) refl

  All-seen :
      (u : Auth.User) (s : Specimen) (owner : User) (ps : List Photo)
      → All (λ p. may_see_photo u s owner p ≡ true) (seen u s owner ps)
  unfolding seen
  All-seen u s owner [] = tt
  All-seen u s owner (p ∷ ps) = elim (Bool-cases (may_see_photo u s owner p)) [
    | inl shown ↦ rw shown (shown, All-seen u s owner ps)
    | inr hidden ↦ rw hidden (All-seen u s owner ps)
  ]

  -- If the shares table can be read, every photo of a filtered list may be seen by the viewer, and a photo that may not be seen
  -- leaves no trace: the list is the same as without it, wherever it stands.
  pub filter_photos-hidden :
      (u : Auth.User) (s : Specimen) (users : Option UserRepo) (owners : Owners)
      (before after : List Photo) (p : Photo)
      → may_see_photo u s (load_owner users owners s.author_id).0 p ≡ false
      → (filter_photos uuids u users (some e.enforce) owners s (before ++ p ∷ after)
          ≡ filter_photos uuids u users (some e.enforce) owners s (before ++ after))
        × All
            (λ q. may_see_photo u s (load_owner users owners s.author_id).0 q ≡ true)
            (filter_photos uuids u users (some e.enforce) owners s (before ++ p ∷ after)).0
  unfolding filter_photos
  filter_photos-hidden u s users owners before after p h =
      let owner = (load_owner users owners s.author_id).0 in
      rw (visible_photos-eq-seen u s owner (before ++ p ∷ after)) (
        rw (visible_photos-eq-seen u s owner (before ++ after)) (
          rw (seen-insert u s owner before after p h) (refl, All-seen u s owner (before ++ after))))

  -- If the shares table can be read, the list that a viewer gets holds exactly the photos that it may see, in their order.
  pub filter_photos-eq-seen :
      (u : Auth.User) (s : Specimen) (users : Option UserRepo) (owners : Owners)
      (photos : List Photo)
      → (filter_photos uuids u users (some e.enforce) owners s photos).0
        ≡ seen u s (load_owner users owners s.author_id).0 photos
  unfolding filter_photos
  filter_photos-eq-seen u s users owners photos =
      visible_photos-eq-seen u s (load_owner users owners s.author_id).0 photos
