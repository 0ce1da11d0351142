-- ===== src/Api/Redact/Fields.antt =====
-- What a viewer can learn from a redacted specimen (internal/api/redact.go).
use minerals.Base.{
  ℕ, String, ◌==◌, Bool, true, false, ◌||◌, Option, some, if◌then◌else◌, ◌≡◌, refl, ap, arith,
  Bool-cases, inl, inr,
}
use minerals.Uuid.{UuidText}
use minerals.Auth
use minerals.Authz.{SharesLookup, Enforcer}
use minerals.Authz.Specimens.{Answers}
use minerals.Domain.{Instant, Visibility, private, Specimen, User}
use minerals.Visibility.{Field, price, acquired_from, acquired_at, catalog_number, resolve_scalar}
use minerals.Api.Guard.Specimens.{may_see, may_write, enforce-view}
use minerals.Api.Redact.{
  SpecimenView, to_specimen_view, UserRepo, Owners, load_owner, keep_if, can_see_field, sees_scalar,
  redact_fields, redact_specimen,
}

keep_if-hidden {ℓ} :
    {A : Type ℓ} (b c : Bool) (x y : Option A)
    → b ≡ c
    → keep_if b (if c then x else y) ≡ keep_if b x
keep_if-hidden true true x y h = refl
keep_if-hidden true false x y h = cc
keep_if-hidden false c x y h = refl

keep_if-tag : (b c x y : Bool) → b ≡ c → keep_if b (some (if c then x else y)) ≡ keep_if b (some x)
keep_if-tag true true x y h = refl
keep_if-tag true false x y h = cc
keep_if-tag false c x y h = refl

module _ (uuids : UuidText) (shares : Option SharesLookup) (e : Enforcer shares)
    (answers : Answers shares) where
  -- A viewer sees content of a visibility exactly if it may see it.
  pub can_see_field-eq-may_see :
      (u : Auth.User) (s : Specimen) (vis : Visibility)
      → can_see_field uuids u (some e.enforce) s vis ≡ may_see uuids shares u s vis
  unfolding can_see_field
  can_see_field-eq-may_see u s vis = elim (Bool-cases (vis == "public" || vis == "unlisted")) [
    | inl shown ↦ ground (arith, shown)
    | inr hidden ↦ ground (arith, hidden, enforce-view uuids shares e answers u s vis hidden)
  ]

  -- The specimen with other values where the viewer may not see the field.
  abbrev pub sees : Auth.User → Specimen → User → Field → Bool
  sees u s owner field = may_see uuids shares u s (resolve_scalar field s owner).visibility

  abbrev pub disguise :
      Auth.User
      → Specimen
      → User
      → Option ℕ
      → Option String
      → Option Instant
      → Option String
      → Bool
      → Specimen
  disguise u s owner cents from at number tag = record s {
    price_cents = if sees u s owner price then s.price_cents else cents;
    acquired_from = if sees u s owner acquired_from then s.acquired_from else from;
    acquired_at = if sees u s owner acquired_at then s.acquired_at else at;
    catalog_number = if sees u s owner catalog_number then s.catalog_number else number;
    tagged = if may_see uuids shares u s private then s.tagged else tag;
  }

  redact_fields-disguise :
      (u : Auth.User) (s : Specimen) (owner : User) (cents : Option ℕ) (from : Option String)
      (at : Option Instant) (number : Option String) (tag : Bool)
      → redact_fields uuids u (some e.enforce) (disguise u s owner cents from at number tag) owner
        ≡ redact_fields uuids u (some e.enforce) s owner
  unfolding redact_fields sees_scalar to_specimen_view resolve_scalar can_see_field
  redact_fields-disguise u s owner cents from at number tag =
      let seen =
        λ (f : Field). can_see_field-eq-may_see u s (resolve_scalar f s owner).visibility in
      let cents' = keep_if-hidden _ _ s.price_cents cents (seen price) in
      let from' = keep_if-hidden _ _ s.acquired_from from (seen acquired_from) in
      let at' = keep_if-hidden _ _ s.acquired_at at (seen acquired_at) in
      let number' = keep_if-hidden _ _ s.catalog_number number (seen catalog_number) in
      let tag' = keep_if-tag _ _ s.tagged tag (can_see_field-eq-may_see u s private) in
      λ i. record (to_specimen_view s) {
        price_cents = cents' i;
        acquired_from = from' i;
        acquired_at = at' i;
        catalog_number = number' i;
        tagged = tag' i;
      }

  -- If the shares table can be read, what a viewer gets does not depend on the values of the fields that
  -- it may not see: with any other price, origin, date, catalog number and tag in their place, the view
  -- is the same.
  pub redact_specimen-disguise :
      (u : Auth.User) (s : Specimen) (users : Option UserRepo) (owners : Owners) (cents : Option ℕ)
      (from : Option String) (at : Option Instant) (number : Option String) (tag : Bool)
      → redact_specimen uuids u users
          (some e.enforce)
          owners
          (disguise u s (load_owner users owners s.author_id).0 cents from at number tag)
        ≡ redact_specimen uuids u users (some e.enforce) owners s
  unfolding redact_specimen
  redact_specimen-disguise u s users owners cents from at number tag =
      ap (λ (v : SpecimenView). (v, (load_owner users owners s.author_id).1))
        (redact_fields-disguise u s (load_owner users owners s.author_id).0 cents from at number
          tag)

  author-sees :
      (u : Auth.User) (s : Specimen) (vis : Visibility)
      → may_write uuids u s ≡ true
      → can_see_field uuids u (some e.enforce) s vis ≡ true
  author-sees u s vis h = ground (arith, can_see_field-eq-may_see u s vis)

  -- A signed-in author of the specimen, and an admin, get the whole of it, if the shares table can be
  -- read: no field is left out.
  pub redact_specimen-author :
      (u : Auth.User) (s : Specimen) (users : Option UserRepo) (owners : Owners)
      → may_write uuids u s ≡ true
      → (redact_specimen uuids u users (some e.enforce) owners s).0 ≡ to_specimen_view s
  unfolding redact_specimen redact_fields sees_scalar
  redact_specimen-author u s users owners h = simp (author-sees u s _ h)
