-- ===== src/Api/Profile/Laws.antt =====
-- What the patch of a profile leaves in the table, and what it answers.
use minerals.Base.{
  ℕ, String, ◌==◌, Bool, true, false, Option, none, some, List, eqb, ◌≡◌, ◌⊎◌, refl, ap, ◌∙◌, arith,
  trim_space, Bool-cases, Option-cases, inl, inr, length, Bytes, codes, bytes_eq,
}
use mathlib.Core.Option
use minerals.Uuid.{Uuid, UuidText}
use minerals.Domain
use minerals.Domain.{Instant}
use minerals.Auth
use minerals.Users.{
  Change, rename, set_defaults, set_visibility, changed, RepoError, found, find_sub, get_by_sub,
  change_row, update, update_display_name, update_field_defaults,
  update_default_specimen_visibility,
}
use minerals.Users.Rows.{update-inr, find_sub-change_rows}
use minerals.Api.Guard.{ApiError}
use minerals.Api.Specimens.Patch.{Json, and_then, bytes_trim_space}
use minerals.Api.Profile.{
  Faults, ProfileBody, ProfilePatchBody, checked_name, merge_field_defaults, new_visibility,
  own_row, wrote, checked_then, step_then, get, patch_name, patch_defaults, patch_visibility,
  patch_row, patch,
}

pub checked_then-inr {ℓ κ} :
    {A : Type ℓ} {B : Type κ} (r : ApiError ⊎ A) (users after : List Domain.User)
    (next : A → (ApiError ⊎ B) × List Domain.User) (b : B)
    → checked_then r users next ≡ (inr b, after)
    → (a : A) × (r ≡ inr a) × (next a ≡ (inr b, after))
unfolding checked_then
checked_then-inr (inl e) users after next b h = absurd (cc)
checked_then-inr (inr a) users after next b h = (a, refl, h)

step_then-inr {ℓ κ} :
    {A : Type ℓ} {B : Type κ} (r : (ApiError ⊎ A) × List Domain.User) (after : List Domain.User)
    (next : A → List Domain.User → (ApiError ⊎ B) × List Domain.User) (b : B)
    → step_then r next ≡ (inr b, after)
    → (a : A) × (mid : List Domain.User) × (r ≡ (inr a, mid)) × (next a mid ≡ (inr b, after))
unfolding step_then
step_then-inr (inl e, users) after next b h = absurd (cc)
step_then-inr (inr a, users) after next b h = (a, users, refl, h)

pub wrote-inr {ℓ} :
    {A : Type ℓ} (row row' : A) (r : RepoError ⊎ List Domain.User) (users after : List Domain.User)
    → wrote row r users ≡ (inr row', after)
    → (row ≡ row') × (r ≡ inr after)
unfolding wrote
wrote-inr row row' (inl e) users after h = absurd (cc)
wrote-inr row row' (inr t) users after h = (cc, cc)

update-no_fault :
    (fault : Bool) (c : Change) (now : Instant) (id : Uuid) (users after : List Domain.User)
    → update fault c now id users ≡ inr after
    → update false c now id users ≡ inr after
unfolding update
update-no_fault true c now id users after h = absurd (cc)
update-no_fault false c now id users after h = h

pub same_id : (n : ℕ) → eqb n n ≡ true
same_id n = ground arith

-- The row of a subject after a write to it.
pub find_sub-update :
    (fault : Bool) (c : Change) (now : Instant) (sub : String) (u : Domain.User)
    (users after : List Domain.User)
    → find_sub sub users ≡ some u
    → update fault c now u.id users ≡ inr after
    → find_sub sub after ≡ some (changed c now u)
unfolding change_row
find_sub-update fault c now sub u users after own h =
    let made = update-inr c now u.id users after (update-no_fault fault c now u.id users after h) in
    let kept : find_sub sub after ≡ Option.map (change_row c now u.id) (some u) =
      ap (find_sub sub) made
      ∙ find_sub-change_rows c now u.id sub users
      ∙ ap (Option.map (change_row c now u.id)) own in
    kept ∙ rw (same_id u.id) refl

module _ (json : Json) (faults : Faults) (now : Instant) (sub : String) (u v : Domain.User)
    (users after : List Domain.User) where
  patch_name-find_sub :
      (name : Option String)
      → find_sub sub users ≡ some u
      → patch_name json faults now name u users ≡ (inr v, after)
      → find_sub sub after ≡ some v
  unfolding patch_name update_display_name changed
  patch_name-find_sub none own h = cc
  patch_name-find_sub (some raw) own h =
      let (name, e, h') = checked_then-inr (checked_name (trim_space raw)) users after _ v h in
      let (set, done) = wrote-inr _ v _ users after h' in
      find_sub-update faults.name (rename name) now sub u users after own done ∙ ap some set

  patch_defaults-find_sub :
      (raw : Bytes)
      → find_sub sub users ≡ some u
      → patch_defaults json faults now raw u users ≡ (inr v, after)
      → find_sub sub after ≡ some v
  unfolding patch_defaults update_field_defaults changed
  patch_defaults-find_sub raw own h = elim (Bool-cases (eqb (length raw) 0)) [
    | inl absent ↦ let h' = rw absent at h in cc
    | inr there ↦ elim (Bool-cases (bytes_eq raw (codes "null"))) [
      | inl null ↦ absurd (let h' = rw (there, null) at h in cc)
      | inr given ↦
          let h1 = rw (there, given) at h in
          let (d, e, h2) =
            checked_then-inr (merge_field_defaults json u.field_defaults raw) users after _ v h1 in
          let (set, done) = wrote-inr _ v _ users after h2 in
          find_sub-update faults.defaults (set_defaults d) now sub u users after own done
          ∙ ap some set
    ]
  ]

  patch_visibility-find_sub :
      (raw : Bytes)
      → find_sub sub users ≡ some u
      → patch_visibility json faults now raw u users ≡ (inr v, after)
      → find_sub sub after ≡ some v
  unfolding patch_visibility update_default_specimen_visibility changed
  patch_visibility-find_sub raw own h = elim (Bool-cases (eqb (length raw) 0)) [
    | inl absent ↦ let h' = rw absent at h in cc
    | inr there ↦
        let h1 = rw there at h in
        let (d, e, h2) = checked_then-inr (new_visibility json raw) users after _ v h1 in
        let (set, done) = wrote-inr _ v _ users after h2 in
        find_sub-update faults.visibility (set_visibility d) now sub u users after own done
        ∙ ap some set
  ]

-- The row of the caller, if the read answers.
pub own_row-find_sub :
    (fault : Bool) (caller : Auth.User) (users : List Domain.User) (u : Domain.User)
    → own_row fault caller users ≡ inr u
    → ((caller.sub == "") ≡ false) × (find_sub caller.sub users ≡ some u)
unfolding own_row get_by_sub found
own_row-find_sub fault caller users u h = elim (Bool-cases (caller.sub == "")) [
  | inl t ↦ absurd (let h' = rw t at h in cc)
  | inr f ↦ elim (Bool-cases fault) [
    | inl t ↦ absurd (let h' = rw (f, t) at h in cc)
    | inr sound ↦ elim (Option-cases (find_sub caller.sub users)) [
      | inl n ↦ absurd (let h' = rw (f, sound, n) at h in cc)
      | inr (r, e) ↦ (f, e ∙ (let h' = rw (f, sound, e) at h in cc))
    ]
  ]
]

pub find_sub-own_row :
    (caller : Auth.User) (users : List Domain.User) (u : Domain.User)
    → (caller.sub == "") ≡ false
    → find_sub caller.sub users ≡ some u
    → own_row false caller users ≡ inr u
unfolding own_row get_by_sub found
find_sub-own_row caller users u f e = rw (f, e) refl

-- If a patch succeeds, a later read of the profile by the same caller that does not fail answers what the
-- patch answered.
pub get-patch :
    (uuids : UuidText) (json : Json) (faults reads : Faults) (now later : Instant)
    (caller : Auth.User) (b : ProfilePatchBody) (body : ProfileBody)
    (users after : List Domain.User)
    → reads.read ≡ false
    → patch json faults now uuids caller b users ≡ (inr body, after)
    → get uuids reads later caller after ≡ inr body
unfolding patch patch_row get and_then
get-patch uuids json faults reads now later caller b body users after sound h =
    let (v, mid, h1, answer) = step_then-inr (patch_row json faults now b _ users) after _ body h in
    let (u, own, h2) = checked_then-inr (own_row faults.read caller users) users mid _ v h1 in
    let (named, there) = own_row-find_sub faults.read caller users u own in
    let (u1, t1, e1, h3) =
      step_then-inr (patch_name json faults now b.display_name u users) mid _ v h2 in
    let (u2, t2, e2, e3) =
      step_then-inr (patch_defaults json faults now (bytes_trim_space b.field_defaults) u1 t1) mid _
        v h3 in
    let p1 = patch_name-find_sub json faults now caller.sub u u1 users t1 b.display_name there e1 in
    let p2 = patch_defaults-find_sub json faults now caller.sub u1 u2 t1 t2 _ p1 e2 in
    let p3 = patch_visibility-find_sub json faults now caller.sub u2 v t2 mid _ p2 e3 in
    let last : after ≡ mid = cc in
    let final = ap (find_sub caller.sub) last ∙ p3 in
    rw (sound, find_sub-own_row caller after v named final) cc
