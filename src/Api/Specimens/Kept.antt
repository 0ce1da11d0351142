-- ===== src/Api/Specimens/Kept.antt =====
-- What a patch never changes (patch of internal/api/specimens.go).
use minerals.Base.{
  String, ◌==◌, Bool, true, Option, none, some, ◌≡◌, ◌⊎◌, refl, ap, ◌∙◌, arith, trim_space,
  Bool-cases, Option-cases, inl, inr, Bytes,
}
use mathlib.Core.Path.{subst}
use minerals.Uuid.{Uuid}
use minerals.Domain.{Instant, Visibility, Specimen}
use minerals.Api.Guard.{ApiError}
use minerals.Api.Specimens.Patch.{
  PatchSpecimenBody, Json, valid_visibility, and_then, replace, apply_visibility_patch, patch_type,
  patch_name, patch_visibility, patch_plain, patch_main_image, checked_type_data, merge_type_data,
  patch_type_data, patch_field_visibility, patched,
}

-- The row keeps its identity, its type, its author and its creation.
pub record Kept (s t : Specimen) : Type 0 where
  pub id : t.id ≡ s.id
  pub type : t.type ≡ s.type
  pub author_id : t.author_id ≡ s.author_id
  pub created_at : t.created_at ≡ s.created_at
  -- A catalog number, once there, is not removed.
  pub catalog_number : (s.catalog_number ≡ none) ⊎ ((m : String) × (t.catalog_number ≡ some m))
  -- Only a valid visibility replaces another one.
  pub visibility : (t.visibility ≡ s.visibility) ⊎ (valid_visibility t.visibility ≡ true)

number-cases : (c : Option String) → (c ≡ none) ⊎ ((m : String) × (c ≡ some m))
number-cases c = Option-cases c

Kept-refl : (s : Specimen) → Kept s s
Kept-refl s = record {
  id = refl;
  type = refl;
  author_id = refl;
  created_at = refl;
  catalog_number = number-cases s.catalog_number;
  visibility = inl refl;
}

Kept-trans : (s t u : Specimen) → Kept s t → Kept t u → Kept s u
Kept-trans s t u h k = record {
  id = k.id ∙ h.id;
  type = k.type ∙ h.type;
  author_id = k.author_id ∙ h.author_id;
  created_at = k.created_at ∙ h.created_at;
  catalog_number = elim k.catalog_number [
    | inr there ↦ inr there
    | inl gone ↦ elim h.catalog_number [
      | inl never ↦ inl never
      | inr (m, there) ↦ absurd (ground (arith, gone, there))
    ]
  ];
  visibility = elim k.visibility [
    | inr valid ↦ inr valid
    | inl same ↦ elim h.visibility [
      | inl same' ↦ inl (same ∙ same')
      | inr valid ↦ inr (ap valid_visibility same ∙ valid)
    ]
  ];
}

pub and_then-inr {ℓ κ} :
    {A : Type ℓ} {B : Type κ} (r : ApiError ⊎ A) (step : A → ApiError ⊎ B) (b : B)
    → and_then r step ≡ inr b
    → (a : A) × (r ≡ inr a) × (step a ≡ inr b)
unfolding and_then
and_then-inr (inl e) step b h = absurd (cc)
and_then-inr (inr a) step b h = (a, refl, h)

Kept-same :
    (s t : Specimen)
    → t.id ≡ s.id
    → t.type ≡ s.type
    → t.author_id ≡ s.author_id
    → t.created_at ≡ s.created_at
    → t.catalog_number ≡ s.catalog_number
    → t.visibility ≡ s.visibility
    → Kept s t
Kept-same s t i y a c n v = record {
  id = i;
  type = y;
  author_id = a;
  created_at = c;
  catalog_number = elim (Option-cases s.catalog_number) [
    | inl e ↦ inl e
    | inr (m, e) ↦ inr (m, n ∙ e)
  ];
  visibility = inl v;
}

Kept-of : (s t u : Specimen) → Kept s t → ◌≡◌ {A = ApiError ⊎ Specimen} (inr t) (inr u) → Kept s u
Kept-of s t u k h = let e : t ≡ u = cc in subst (Kept s) e k

patch_type-Kept : (t : Option String) (s u : Specimen) → patch_type t s ≡ inr u → Kept s u
unfolding patch_type
patch_type-Kept none s u h = Kept-of s s u (Kept-refl s) h
patch_type-Kept (some t) s u h = elim (Bool-cases (t == s.type)) [
  | inl same ↦ Kept-of s s u (Kept-refl s) (rw same at h)
  | inr other ↦ absurd (ground (arith, h, other))
]

patch_name-Kept : (n : Option String) (s u : Specimen) → patch_name n s ≡ inr u → Kept s u
unfolding patch_name
patch_name-Kept none s u h = Kept-of s s u (Kept-refl s) h
patch_name-Kept (some n) s u h = elim (Bool-cases (trim_space n == "")) [
  | inl empty ↦ absurd (ground (arith, h, empty))
  | inr given ↦
      Kept-of s (record s { name = trim_space n }) u
        (Kept-same s (record s { name = trim_space n }) refl refl refl refl refl refl)
        (rw given at h)
]

patch_visibility-Kept :
    (v : Option Visibility) (s u : Specimen) → patch_visibility v s ≡ inr u → Kept s u
unfolding patch_visibility
patch_visibility-Kept none s u h = Kept-of s s u (Kept-refl s) h
patch_visibility-Kept (some v) s u h = elim (Bool-cases (valid_visibility v)) [
  | inr bad ↦ absurd (ground (arith, h, bad))
  | inl good ↦
      let t : Specimen = record s { visibility = v } in
      Kept-of s t u
        (record {
          id = refl;
          type = refl;
          author_id = refl;
          created_at = refl;
          catalog_number = number-cases s.catalog_number;
          visibility = inr good;
        })
        (rw good at h)
]

replace-cases : (o c : Option String) → (c ≡ none) ⊎ ((m : String) × (replace o c ≡ some m))
unfolding replace
replace-cases none c = number-cases c
replace-cases (some m) c = inr (m, refl)

patch_plain-Kept : (b : PatchSpecimenBody) (s : Specimen) → Kept s (patch_plain b s)
unfolding patch_plain
patch_plain-Kept b s = record {
  id = refl;
  type = refl;
  author_id = refl;
  created_at = refl;
  catalog_number = replace-cases b.catalog_number s.catalog_number;
  visibility = inl refl;
}

patch_main_image-Kept :
    (has : Uuid → ApiError ⊎ Bool) (f : Option Uuid) (s u : Specimen)
    → patch_main_image has f s ≡ inr u
    → Kept s u
unfolding patch_main_image
patch_main_image-Kept has none s u h = Kept-of s s u (Kept-refl s) h
patch_main_image-Kept has (some f) s u h =
    let (ok, answer, set) = and_then-inr (has f) _ u h in
    elim (Bool-cases ok) [
      | inr f' ↦ absurd (ground (arith, set, f'))
      | inl t ↦
          let v : Specimen = record s { main_image_id = some f } in
          Kept-of s v u (Kept-same s v refl refl refl refl refl refl) (rw t at set)
    ]

module _ (json : Json) (canonicalize : String → Bytes → ApiError ⊎ Bytes) where
  checked_type_data-Kept :
      (d : Option Bytes) (s u : Specimen)
      → checked_type_data json canonicalize d s ≡ inr u
      → Kept s u
  unfolding checked_type_data
  checked_type_data-Kept none s u h = absurd (cc)
  checked_type_data-Kept (some d) s u h =
      let (canonical, checked, set) = and_then-inr (canonicalize s.type d) _ u h in
      let v : Specimen = record s { type_data = canonical } in
      Kept-of s v u (Kept-same s v refl refl refl refl refl refl) set

  patch_type_data-Kept :
      (d : Option Bytes) (s u : Specimen) → patch_type_data json canonicalize d s ≡ inr u → Kept s u
  unfolding patch_type_data
  patch_type_data-Kept none s u h = Kept-of s s u (Kept-refl s) h
  patch_type_data-Kept (some d) s u h =
      checked_type_data-Kept (merge_type_data json s.type_data d) s u h

  patch_field_visibility-Kept :
      (b : PatchSpecimenBody) (s u : Specimen) → patch_field_visibility json b s ≡ inr u → Kept s u
  unfolding patch_field_visibility
  patch_field_visibility-Kept b s u h =
      let (p, e1, h1) =
        and_then-inr (apply_visibility_patch json b.visibility_price s.visibility_price) _ u h in
      let (a, e2, h2) =
        and_then-inr
          (apply_visibility_patch json b.visibility_acquired_from s.visibility_acquired_from) _ u
          h1 in
      let (i, e3, h3) =
        and_then-inr (apply_visibility_patch json b.visibility_images s.visibility_images) _ u h2 in
      let v : Specimen = record s {
        visibility_price = p;
        visibility_acquired_from = a;
        visibility_images = i;
      } in
      Kept-of s v u (Kept-same s v refl refl refl refl refl refl) h3

  -- A patch that succeeds keeps the row's id, type, author and creation; it never removes a catalog number,
  -- and a visibility that it changes is a valid one.
  pub patched-Kept :
      (has : Uuid → ApiError ⊎ Bool) (now : Instant) (b : PatchSpecimenBody) (s t : Specimen)
      → patched json canonicalize has now b s ≡ inr t
      → Kept s t
  unfolding patched
  patched-Kept has now b s t h =
      let (s1, e1, h1) = and_then-inr (patch_type b.type s) _ t h in
      let (s2, e2, h2) = and_then-inr (patch_name b.name s1) _ t h1 in
      let (s3, e3, h3) = and_then-inr (patch_visibility b.visibility s2) _ t h2 in
      let (s4, e4, h4) =
        and_then-inr (patch_main_image has b.main_image_id (patch_plain b s3)) _ t h3 in
      let (s5, e5, h5) = and_then-inr (patch_type_data json canonicalize b.type_data s4) _ t h4 in
      let (s6, e6, h6) = and_then-inr (patch_field_visibility json b s5) _ t h5 in
      let v : Specimen = record s6 { updated_at = now } in
      let k1 =
        Kept-trans s s1 s2 (patch_type-Kept b.type s s1 e1) (patch_name-Kept b.name s1 s2 e2) in
      let k3 = Kept-trans s s2 s3 k1 (patch_visibility-Kept b.visibility s2 s3 e3) in
      let k4 = Kept-trans s s3 (patch_plain b s3) k3 (patch_plain-Kept b s3) in
      let k5 =
        Kept-trans s (patch_plain b s3) s4 k4 (patch_main_image-Kept has b.main_image_id _ s4 e4) in
      let k6 = Kept-trans s s4 s5 k5 (patch_type_data-Kept b.type_data s4 s5 e5) in
      let k7 = Kept-trans s s5 s6 k6 (patch_field_visibility-Kept b s5 s6 e6) in
      Kept-of s v t (Kept-trans s s6 v k7 (Kept-same s6 v refl refl refl refl refl refl)) h6
