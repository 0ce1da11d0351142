-- ===== src/Api/Profile/Defaults.antt =====
-- The merge of a profile's field defaults, key by key.
use minerals.Base.{
  String, ◌==◌, Bool, true, false, Option, none, some, List, [], ◌∷◌, if◌then◌else◌, ◌≡◌, refl, sym,
  ap, ◌∙◌, arith, eq_iff, contains, Bool-cases, Option-cases, inl, inr, Bytes, codes, bytes_eq,
}
use minerals.Domain.{Visibility, FieldDefaults}
use minerals.Api.Specimens.Patch.{Json, and_then, bytes_trim_space, valid_visibility}
use minerals.Api.Specimens.Kept.{and_then-inr}
use minerals.Api.Profile.{
  field_defaults_keys, set_field_defaults_key, put_default, is_unset, stored_defaults,
  current_defaults, merge_key, merge_keys, merge_object, merge_field_defaults,
}

-- One test of a chain of tests on `k`, seen through a field: it sets another field, this one, or nothing of it.
skip_if {ℓ κ} :
    {A : Type ℓ} {B : Type κ} (p : A → B) (k a b : String) (x y : A) (v w : B)
    → (a == b) ≡ false
    → p x ≡ w
    → p y ≡ (if k == b then v else w)
    → p (if k == a then x else y) ≡ (if k == b then v else w)
skip_if p k a b x y v w apart set rest = elim (Bool-cases (k == a)) [
  | inl t ↦ let e : k ≡ a = (eq_iff k a).0 t in rw (t, ap (λ (s : String). s == b) e ∙ apart) set
  | inr f ↦ rw f rest
]

hit_if {ℓ κ} :
    {A : Type ℓ} {B : Type κ} (p : A → B) (k b : String) (x y : A) (v w : B)
    → p x ≡ v
    → p y ≡ w
    → p (if k == b then x else y) ≡ (if k == b then v else w)
hit_if p k b x y v w set rest = elim (Bool-cases (k == b)) [ inl t ↦ rw t set | inr f ↦ rw f rest ]

miss_if {ℓ κ} :
    {A : Type ℓ} {B : Type κ} (p : A → B) (c : Bool) (x y : A) (w : B)
    → p x ≡ w
    → p y ≡ w
    → p (if c then x else y) ≡ w
miss_if p true x y w set rest = set
miss_if p false x y w set rest = rest

module _ (fd : FieldDefaults) (k : String) (v : Option Visibility) where
  price-set : (set_field_defaults_key fd k v).price ≡ (if k == "price" then v else fd.price)
  unfolding set_field_defaults_key
  price-set = ground arith

  acquired_from-set :
      (set_field_defaults_key fd k v).acquired_from
      ≡ (if k == "acquired_from" then v else fd.acquired_from)
  unfolding set_field_defaults_key
  acquired_from-set =
      let p = λ (d : FieldDefaults). d.acquired_from in
      skip_if p k "price" "acquired_from" _ _ _ _ refl refl (
        hit_if p k "acquired_from" _ _ _ _ refl (
          miss_if p (k == "acquired_at") _ _ _ refl (
            miss_if p (k == "catalog_number") _ _ _ refl
              (miss_if p (k == "images") _ _ _ refl refl))))

  acquired_at-set :
      (set_field_defaults_key fd k v).acquired_at
      ≡ (if k == "acquired_at" then v else fd.acquired_at)
  unfolding set_field_defaults_key
  acquired_at-set =
      let p = λ (d : FieldDefaults). d.acquired_at in
      skip_if p k "price" "acquired_at" _ _ _ _ refl refl (
        skip_if p k "acquired_from" "acquired_at" _ _ _ _ refl refl (
          hit_if p k "acquired_at" _ _ _ _ refl (
            miss_if p (k == "catalog_number") _ _ _ refl
              (miss_if p (k == "images") _ _ _ refl refl))))

  catalog_number-set :
      (set_field_defaults_key fd k v).catalog_number
      ≡ (if k == "catalog_number" then v else fd.catalog_number)
  unfolding set_field_defaults_key
  catalog_number-set =
      let p = λ (d : FieldDefaults). d.catalog_number in
      skip_if p k "price" "catalog_number" _ _ _ _ refl refl (
        skip_if p k "acquired_from" "catalog_number" _ _ _ _ refl refl (
          skip_if p k "acquired_at" "catalog_number" _ _ _ _ refl refl
            (hit_if p k "catalog_number" _ _ _ _ refl (miss_if p (k == "images") _ _ _ refl refl))))

  images-set : (set_field_defaults_key fd k v).images ≡ (if k == "images" then v else fd.images)
  unfolding set_field_defaults_key
  images-set =
      let p = λ (d : FieldDefaults). d.images in
      skip_if p k "price" "images" _ _ _ _ refl refl (
        skip_if p k "acquired_from" "images" _ _ _ _ refl refl (
          skip_if p k "acquired_at" "images" _ _ _ _ refl refl (
            skip_if p k "catalog_number" "images" _ _ _ _ refl refl
              (hit_if p k "images" _ _ _ _ refl refl))))

module _ (json : Json) where
  open json use {parse_object, parse_string}

  -- What a raw value says of its key.
  abbrev pub read_value : Bytes → Option Visibility
  read_value raw =
      if bytes_eq (bytes_trim_space raw) (codes "null")
      then none
      else parse_string (bytes_trim_space raw)

  -- The value of a key after a patch: the last one that the patch gives it, or the one it had.
  abbrev pub patched_value : String → List (String × Bytes) → Option Visibility → Option Visibility
  patched_value key [] current = current
  patched_value key ((k, raw) ∷ patch) current =
      patched_value key patch (if k == key then read_value raw else current)

  merge_key-inr :
      (k : String) (raw : Bytes) (fd after : FieldDefaults)
      → merge_key json k raw fd ≡ inr after
      → after ≡ set_field_defaults_key fd k (read_value raw)
  unfolding merge_key put_default
  merge_key-inr k raw fd after h = elim (Bool-cases (contains field_defaults_keys k)) [
    | inr f ↦ absurd (let h' = rw f at h in cc)
    | inl t ↦ elim (Bool-cases (bytes_eq (bytes_trim_space raw) (codes "null"))) [
      | inl null ↦ rw null (let h' = rw (t, null) at h in cc)
      | inr given ↦ elim (Option-cases (parse_string (bytes_trim_space raw))) [
        | inl bad ↦ absurd (let h' = rw (t, given, bad) at h in cc)
        | inr (v, e) ↦ elim (Bool-cases (valid_visibility v)) [
          | inl good ↦ rw (given, e) (let h' = rw (t, given, e, good) at h in cc)
          | inr bad ↦ absurd (let h' = rw (t, given, e, bad) at h in cc)
        ]
      ]
    ]
  ]

  module _ (field : FieldDefaults → Option Visibility) (key : String)
      (set : (fd : FieldDefaults) (k : String) (v : Option Visibility)
        → field (set_field_defaults_key fd k v) ≡ (if k == key then v else field fd)) where
    merge_keys-field :
        (patch : List (String × Bytes)) (fd after : FieldDefaults)
        → merge_keys json patch fd ≡ inr after
        → field after ≡ patched_value key patch (field fd)
    unfolding merge_keys and_then
    merge_keys-field [] fd after h = let e : fd ≡ after = cc in ap field (sym e)
    merge_keys-field ((k, raw) ∷ patch) fd after h =
        let (mid, e, h') = and_then-inr (merge_key json k raw fd) (merge_keys json patch) after h in
        merge_keys-field patch mid after h'
        ∙ ap (patched_value key patch)
            (ap field (merge_key-inr k raw fd mid e) ∙ set fd k (read_value raw))

-- A map without values is stored as none, which reads as one.
current_defaults-stored_defaults : (fd : FieldDefaults) → current_defaults (stored_defaults fd) ≡ fd
unfolding stored_defaults current_defaults is_unset
current_defaults-stored_defaults fd = elim (Option-cases fd.price) [
  | inr (v, e) ↦ rw e refl
  | inl p ↦ elim (Option-cases fd.acquired_from) [
    | inr (v, e) ↦ rw (p, e) refl
    | inl f ↦ elim (Option-cases fd.acquired_at) [
      | inr (v, e) ↦ rw (p, f, e) refl
      | inl a ↦ elim (Option-cases fd.catalog_number) [
        | inr (v, e) ↦ rw (p, f, a, e) refl
        | inl c ↦ elim (Option-cases fd.images) [
          | inr (v, e) ↦ rw (p, f, a, c, e) refl
          | inl m ↦ rw (p, f, a, c, m) refl
        ]
      ]
    ]
  ]
]

-- The stored map, key by key.
pub record Merged (json : Json) (patch : List (String × Bytes)) (current merged : FieldDefaults)
    : Type 0 where
  pub price : merged.price ≡ patched_value json "price" patch current.price
  pub acquired_from :
      merged.acquired_from ≡ patched_value json "acquired_from" patch current.acquired_from
  pub acquired_at : merged.acquired_at ≡ patched_value json "acquired_at" patch current.acquired_at
  pub catalog_number :
      merged.catalog_number ≡ patched_value json "catalog_number" patch current.catalog_number
  pub images : merged.images ≡ patched_value json "images" patch current.images

-- If a body parses to a list of keys and values and the merge succeeds, every key of the map has the last
-- value that the body gives it (none for a null) or, if the body does not name it, the value it had.
pub merge_field_defaults-Merged :
    (json : Json) (current merged : Option FieldDefaults) (raw : Bytes)
    (patch : List (String × Bytes))
    → json.parse_object raw ≡ some patch
    → merge_field_defaults json current raw ≡ inr merged
    → Merged json patch (current_defaults current) (current_defaults merged)
unfolding merge_field_defaults merge_object
merge_field_defaults-Merged json current merged raw patch parsed h =
    let h' = rw parsed at h in
    let (fd, e, stored) =
      and_then-inr (merge_keys json patch (current_defaults current)) _ merged h' in
    let last : stored_defaults fd ≡ merged = cc in
    let same : current_defaults merged ≡ fd =
      ap current_defaults (sym last) ∙ current_defaults-stored_defaults fd in
    record {
      price =
          ap (λ (d : FieldDefaults). d.price) same
          ∙ merge_keys-field json (λ d. d.price) "price" price-set patch _ fd e;
      acquired_from =
          ap (λ (d : FieldDefaults). d.acquired_from) same
          ∙ merge_keys-field json (λ d. d.acquired_from) "acquired_from" acquired_from-set patch _
              fd e;
      acquired_at =
          ap (λ (d : FieldDefaults). d.acquired_at) same
          ∙ merge_keys-field json (λ d. d.acquired_at) "acquired_at" acquired_at-set patch _ fd e;
      catalog_number =
          ap (λ (d : FieldDefaults). d.catalog_number) same
          ∙ merge_keys-field json (λ d. d.catalog_number) "catalog_number" catalog_number-set patch
              _ fd e;
      images =
          ap (λ (d : FieldDefaults). d.images) same
          ∙ merge_keys-field json (λ d. d.images) "images" images-set patch _ fd e;
    }
