-- ===== src/Api/Guard/Specimens.antt =====
-- What the guard lets a caller do with a specimen (internal/api/authz.go over internal/authz).
use minerals.Base.{
  String, ◌==◌, Bool, true, false, not, ◌&&◌, ◌||◌, Option, none, some, List, [], ◌∷◌, ◌++◌, eqb,
  if◌then◌else◌, ◌≡◌, ◌⊎◌, refl, ap, ◌∙◌, arith, eq_iff, contains, Bool-cases, inl, inr,
}
use minerals.Uuid.{UuidText, nil_uuid}
use minerals.Auth
use minerals.Authz
use minerals.Authz.{Resource, SharesLookup, Enforcer, enforce_user, instance_match}
use minerals.Authz.Specimens.{
  specimen, owns, is_shared, Answers, enforce_user-view, enforce_user-write,
}
use minerals.Domain.{Visibility, Specimen}
use minerals.Api.Guard.{
  act_edit, act_delete, forbidden, not_found, authz_user, check, check_view, specimen_resource,
}

abbrev pub authenticated : Auth.User → Bool
authenticated u = not (eqb u.id nil_uuid)

abbrev shares_answer : Option SharesLookup → String → String → Bool
shares_answer none id user = false
shares_answer (some look) id user = elim (look "specimens" id user) [ none ↦ false | some b ↦ b ]

pub contains-append :
    (xs ys : List String) (a : String) → contains (xs ++ ys) a ≡ (contains xs a || contains ys a)
unfolding contains
contains-append [] ys a = refl
contains-append (x ∷ xs) ys a = rw (contains-append xs ys a) (ground arith)

view_bool :
    (n r a o s m : Bool)
    → (a ≡ true → r ≡ true)
    → (n && false || r && (a && o || a && s) || m) ≡ (false || a && (o || s) || m)
view_bool n r a o s m h = ground arith

write_bool : (r a o m : Bool) → (a ≡ true → r ≡ true) → (r && (a && o) || m) ≡ (a && o || m)
write_bool r a o m h = ground arith

module _ (uuids : UuidText) where
  open uuids use {to_string, injective, nonempty}

  -- The caller holds a share of the specimen.
  abbrev pub holds_share : Option SharesLookup → Auth.User → Specimen → Bool
  holds_share shares u s = shares_answer shares (to_string s.id) (to_string u.id)

  -- Who may see a specimen's content of the visibility `vis`.
  abbrev pub may_see : Option SharesLookup → Auth.User → Specimen → Visibility → Bool
  may_see shares u s vis =
      (vis == "public" || vis == "unlisted")
      || authenticated u && (eqb s.author_id u.id || holds_share shares u s)
      || contains u.roles "admin"

  abbrev pub may_write : Auth.User → Specimen → Bool
  may_write u s = authenticated u && eqb s.author_id u.id || contains u.roles "admin"

  contains-authz_roles_admin :
      (u : Auth.User) → contains (authz_user uuids u).roles "admin" ≡ contains u.roles "admin"
  unfolding authz_user contains
  contains-authz_roles_admin u = ground (arith, contains-append u.roles ("user" ∷ []) "admin")

  contains-authz_roles_user :
      (u : Auth.User) → authenticated u ≡ true → contains (authz_user uuids u).roles "user" ≡ true
  unfolding authz_user contains
  contains-authz_roles_user u h = ground (arith, contains-append u.roles ("user" ∷ []) "user")

  owns-specimen :
      (u : Auth.User) (s : Specimen) (vis : Visibility)
      → owns (authz_user uuids u).id (specimen (to_string s.id) vis (to_string s.author_id))
        ≡ (authenticated u && eqb s.author_id u.id)
  unfolding authz_user
  owns-specimen u s vis = elim (Bool-cases (eqb u.id nil_uuid)) [
    | inl z ↦ rw z refl
    | inr z ↦ rw z (
        ground (
          arith,
          eq_iff (to_string u.id) "",
          nonempty u.id,
          eq_iff (to_string s.author_id) (to_string u.id),
          injective s.author_id u.id,
        ))
  ]

  is_shared-specimen :
      (shares : Option SharesLookup) (u : Auth.User) (s : Specimen) (vis : Visibility)
      → is_shared shares
          (authz_user uuids u).id
          (specimen (to_string s.id) vis (to_string s.author_id))
        ≡ (authenticated u && holds_share shares u s)
  unfolding authz_user instance_match
  is_shared-specimen none u s vis = ground arith
  is_shared-specimen (some look) u s vis = elim (Bool-cases (eqb u.id nil_uuid)) [
    | inl z ↦ rw z refl
    | inr z ↦ rw z (
        ground (
          arith,
          eq_iff (to_string u.id) "",
          nonempty u.id,
          eq_iff (to_string s.id) "",
          nonempty s.id,
        ))
  ]

  module _ (shares : Option SharesLookup) (e : Enforcer shares) (answers : Answers shares) where
    -- What the enforcer says of the specimen's content of the visibility `vis`, behind the shortcut.
    pub enforce-view :
        (u : Auth.User) (s : Specimen) (vis : Visibility)
        → (vis == "public" || vis == "unlisted") ≡ false
        → enforce_user e.enforce
            (authz_user uuids u)
            (some (specimen (to_string s.id) vis (to_string s.author_id)))
            "view"
          ≡ Authz.ok (may_see shares u s vis)
    enforce-view u s vis h =
        enforce_user-view shares e answers (authz_user uuids u) (to_string s.id) vis
          (to_string s.author_id)
        ∙ ap Authz.ok (
            rw
              (
                h,
                owns-specimen u s vis,
                is_shared-specimen shares u s vis,
                contains-authz_roles_admin u,
              )
              (view_bool _ _ (authenticated u) _ _ _ (contains-authz_roles_user u)))

    pub enforce-write :
        (u : Auth.User) (s : Specimen) (vis : Visibility) (act : String)
        → ("view" == act) ≡ false
        → (act == "") ≡ false
        → enforce_user e.enforce
            (authz_user uuids u)
            (some (specimen (to_string s.id) vis (to_string s.author_id)))
            act
          ≡ Authz.ok (may_write u s)
    enforce-write u s vis act h k =
        enforce_user-write shares e answers (authz_user uuids u) (to_string s.id) vis
          (to_string s.author_id) act h k
        ∙ ap Authz.ok (
            rw (owns-specimen u s vis, contains-authz_roles_admin u)
              (write_bool _ (authenticated u) _ _ (contains-authz_roles_user u)))

    -- If the shares table can be read, a detail endpoint shows a specimen to exactly those who may see
    -- it: everybody if it is public or unlisted, else its author, the holders of a share of it and the
    -- admins. All others get the very envelope of a specimen that does not exist.
    pub check_view-specimen :
        (u : Auth.User) (s : Specimen) (code message : String)
        → check_view uuids (some e.enforce) u (specimen_resource uuids s) code message
          ≡ (if may_see shares u s s.visibility then none else some (not_found code message))
    unfolding check_view check specimen_resource
    check_view-specimen u s code message =
        elim (Bool-cases (s.visibility == "public" || s.visibility == "unlisted")) [
          | inl open' ↦ ground (arith, open')
          | inr closed ↦ ground (arith, closed, enforce-view u s s.visibility closed)
        ]

    -- If the shares table can be read, whatever its visibility, a specimen is edited or deleted only by its author or an admin, and all
    -- others are refused with 403.
    pub check-specimen_write :
        (u : Auth.User) (s : Specimen) (act : String)
        → (act ≡ act_edit) ⊎ (act ≡ act_delete)
        → check uuids (some e.enforce) u (specimen_resource uuids s) act
          ≡ (if may_write u s then none else some forbidden)
    unfolding check specimen_resource
    check-specimen_write u s act (inl edit) =
        rw edit (rw (enforce-write u s s.visibility "edit" refl refl) (ground arith))
    check-specimen_write u s act (inr del) =
        rw del (rw (enforce-write u s s.visibility "delete" refl refl) (ground arith))
