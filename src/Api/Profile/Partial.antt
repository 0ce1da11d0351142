-- ===== src/Api/Profile/Partial.antt =====
-- A patch of a profile that stops half way.
use minerals.Base.{
  String, ◌==◌, Bool, true, false, some, List, [], ◌∷◌, eqb, ◌≡◌, ◌⊎◌, refl, ap, ◌∙◌, trim_space,
  Bool-cases, inl, inr, length, Bytes, codes, bytes_eq,
}
use minerals.Uuid.{UuidText}
use minerals.Domain
use minerals.Domain.{Instant}
use minerals.Auth
use minerals.Users.{
  Change, rename, set_defaults, set_visibility, changed, RepoError, find_sub, change_rows, has_id,
  update, update_display_name, update_field_defaults, update_default_specimen_visibility,
}
use minerals.Api.Guard.{ApiError}
use minerals.Api.Specimens.Patch.{Json, bytes_trim_space}
use minerals.Api.Profile.{
  Faults, ProfilePatchBody, checked_name, merge_field_defaults, new_visibility, to_profile_body,
  wrote, checked_then, step_then, patch_name, patch_defaults, patch_visibility, patch_row, patch,
}
use minerals.Api.Profile.Laws.{same_id, find_sub-update, find_sub-own_row}

has_id-find_sub :
    (sub : String) (users : List Domain.User) (u : Domain.User)
    → find_sub sub users ≡ some u
    → has_id u.id users ≡ true
unfolding find_sub has_id
has_id-find_sub sub [] u h = absurd (cc)
has_id-find_sub sub (r ∷ users) u h = elim (Bool-cases (r.keycloak_sub == sub)) [
  | inl t ↦
      let h' = rw t at h in
      let e : r ≡ u = cc in rw (ap (λ (x : Domain.User). eqb x.id u.id) e ∙ same_id u.id) refl
  | inr f ↦
      let rest = has_id-find_sub sub users u (rw f at h) in
      elim (Bool-cases (eqb r.id u.id)) [ inl t ↦ rw t refl | inr f' ↦ rw (f', rest) refl ]
]

-- The subject's row has the name.
abbrev pub HasName : String → String → List Domain.User → Type 0
HasName sub name users =
    (row : Domain.User) × (find_sub sub users ≡ some row) × (row.display_name ≡ some name)

-- The same of a step's result, whose row, if it has one, is the stored one.
abbrev Named : String → String → (ApiError ⊎ Domain.User) × List Domain.User → Type 0
Named sub name (inl e, users) = HasName sub name users
Named sub name (inr row, users) = (find_sub sub users ≡ some row) × (row.display_name ≡ some name)

checked_then-Named {ℓ} :
    {A : Type ℓ} (sub name : String) (r : ApiError ⊎ A) (users : List Domain.User)
    (next : A → (ApiError ⊎ Domain.User) × List Domain.User)
    → HasName sub name users
    → ((a : A) → Named sub name (next a))
    → Named sub name (checked_then r users next)
unfolding checked_then
checked_then-Named sub name (inl e) users next h k = h
checked_then-Named sub name (inr a) users next h k = k a

step_then-Named :
    (sub name : String) (r : (ApiError ⊎ Domain.User) × List Domain.User)
    (next : Domain.User → List Domain.User → (ApiError ⊎ Domain.User) × List Domain.User)
    → Named sub name r
    → ((v : Domain.User) (users : List Domain.User)
        → find_sub sub users ≡ some v
        → v.display_name ≡ some name
        → Named sub name (next v users))
    → Named sub name (step_then r next)
unfolding step_then
step_then-Named sub name (inl e, users) next h k = h
step_then-Named sub name (inr v, users) next (own, n) k = k v users own n

step_then-HasName {ℓ} :
    {B : Type ℓ} (sub name : String) (r : (ApiError ⊎ Domain.User) × List Domain.User)
    (answer : Domain.User → B)
    → Named sub name r
    → HasName sub name (step_then r (λ v after. (inr (answer v), after))).1
unfolding step_then
step_then-HasName sub name (inl e, users) answer h = h
step_then-HasName sub name (inr v, users) answer (own, n) = (v, own, n)

-- A write to the stored row that leaves its name alone.
wrote-Named :
    (fault : Bool) (c : Change) (now : Instant) (sub name : String) (u v : Domain.User)
    (users : List Domain.User)
    → find_sub sub users ≡ some u
    → u.display_name ≡ some name
    → changed c now u ≡ v
    → v.display_name ≡ some name
    → Named sub name (wrote v (update fault c now u.id users) users)
unfolding wrote
wrote-Named fault c now sub name u v users own n set m = go (update fault c now u.id users) refl
  where
    go :
        (r : RepoError ⊎ List Domain.User)
        → update fault c now u.id users ≡ r
        → Named sub name (wrote v r users)
    go (inl e) q = (u, own, n)
    go (inr after) q = (find_sub-update fault c now sub u users after own q ∙ ap some set, m)

module _ (json : Json) (faults : Faults) (now : Instant) (sub name : String) (u : Domain.User)
    (users : List Domain.User) where
  patch_defaults-Named :
      (raw : Bytes)
      → find_sub sub users ≡ some u
      → u.display_name ≡ some name
      → Named sub name (patch_defaults json faults now raw u users)
  unfolding patch_defaults update_field_defaults changed
  patch_defaults-Named raw own n = elim (Bool-cases (eqb (length raw) 0)) [
    | inl absent ↦ rw absent (own, n)
    | inr there ↦ elim (Bool-cases (bytes_eq raw (codes "null"))) [
      | inl null ↦ rw (there, null) (u, own, n)
      | inr given ↦
          rw (there, given)
            (checked_then-Named sub name (merge_field_defaults json u.field_defaults raw) users _
              (u, own, n)
              (λ d.
                wrote-Named faults.defaults (set_defaults d) now sub name u _ users own n refl n))
    ]
  ]

  patch_visibility-Named :
      (raw : Bytes)
      → find_sub sub users ≡ some u
      → u.display_name ≡ some name
      → Named sub name (patch_visibility json faults now raw u users)
  unfolding patch_visibility update_default_specimen_visibility changed
  patch_visibility-Named raw own n = elim (Bool-cases (eqb (length raw) 0)) [
    | inl absent ↦ rw absent (own, n)
    | inr there ↦ rw there (
        checked_then-Named sub name (new_visibility json raw) users _ (u, own, n)
          (λ v.
            wrote-Named faults.visibility (set_visibility v) now sub name u _ users own n refl n))
  ]

  patch_name-Named :
      (raw : String)
      → find_sub sub users ≡ some u
      → checked_name (trim_space raw) ≡ inr name
      → faults.name ≡ false
      → Named sub name (patch_name json faults now (some raw) u users)
  unfolding patch_name checked_then wrote update_display_name update changed
  patch_name-Named raw own good write =
      let written : update false (rename name) now u.id users
          ≡ inr (change_rows (rename name) now u.id users) =
        rw (has_id-find_sub sub users u own) refl in
      rw (good, write, has_id-find_sub sub users u own)
        (find_sub-update false (rename name) now sub u users _ own written, refl)

-- If a patch's name passes its check and neither the read nor the name's write fails, the caller's row has the
-- new name afterwards, whatever the rest of the patch answers: also if the request is refused because of its
-- field defaults or its visibility, or fails at a later write.
pub patch-partial :
    (uuids : UuidText) (json : Json) (faults : Faults) (now : Instant) (caller : Auth.User)
    (b : ProfilePatchBody) (users : List Domain.User) (u : Domain.User) (raw name : String)
    → faults.read ≡ false
    → faults.name ≡ false
    → (caller.sub == "") ≡ false
    → find_sub caller.sub users ≡ some u
    → b.display_name ≡ some raw
    → checked_name (trim_space raw) ≡ inr name
    → HasName caller.sub name (patch json faults now uuids caller b users).1
unfolding patch patch_row checked_then patch_name patch_defaults patch_visibility
patch-partial uuids json faults now caller b users u raw name read write named own given good =
    rw (read, find_sub-own_row caller users u named own, given)
      (step_then-HasName caller.sub name _ (to_profile_body uuids caller.roles) (
        step_then-Named caller.sub name _ _
          (patch_name-Named json faults now caller.sub name u users raw own good write)
          (λ u1 t1 own1 n1.
            step_then-Named caller.sub name _ _
              (patch_defaults-Named json faults now caller.sub name u1 t1
                (bytes_trim_space b.field_defaults) own1 n1)
              (λ u2 t2 own2 n2.
                patch_visibility-Named json faults now caller.sub name u2 t2
                  (bytes_trim_space b.default_specimen_visibility) own2 n2))))
