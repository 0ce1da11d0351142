-- ===== src/Authz/Specimens.antt =====
-- Who the default policies let act on a specimen (policies.go, enforcer.go, enforce.go).
use minerals.Base.{
  String, ◌==◌, Bool, true, false, not, ◌&&◌, ◌||◌, Option, none, some, List, [], ◌∷◌, ◌≡◌, ◌≢◌,
  refl, ap, ◌∙◌, arith, contains, any, All-of,
}
use mathlib.Core.Bool.{and-false, and-true, or-false}
use minerals.Authz.{
  Resource, User, ok, SharesLookup, Policy, default_policies, action_match, instance_match, matcher,
  is_some_true, Enforcer, next_role, enforce_roles, enforce_user, and_then,
}

-- The authorization view of a specimen.
abbrev pub specimen : (id visibility author_id : String) → Resource
specimen id visibility author_id = record {
  type = "specimens";
  id = id;
  visibility = visibility;
  author_id = author_id;
}

abbrev pub owns : String → Resource → Bool
owns sub_id obj = not (sub_id == "") && obj.author_id == sub_id

abbrev pub is_shared : Option SharesLookup → String → Resource → Bool
is_shared shares sub_id obj = is_some_true (instance_match shares "shared" sub_id obj)

abbrev pub is_open : Resource → Bool
is_open obj = obj.visibility == "public" || obj.visibility == "unlisted"

-- What the policies grant a role on a specimen.
abbrev pub role_views : Option SharesLookup → String → Resource → String → Bool
role_views shares sub_id obj role =
    role == "anonymous" && is_open obj
    || role == "user" && (owns sub_id obj || is_shared shares sub_id obj)
    || role == "admin"

abbrev pub role_writes : String → Resource → String → Bool
role_writes sub_id obj role = role == "user" && owns sub_id obj || role == "admin"

pub is_some_true-and_then :
    (b : Bool) (o : Option Bool) → is_some_true (and_then b o) ≡ (b && is_some_true o)
is_some_true-and_then true o = refl
is_some_true-and_then false o = refl

view_shape :
    (a u m p q o s : Bool)
    → (a && p || (a && q || (u && o || (u && s || m)))) ≡ (a && (p || q) || u && (o || s) || m)
view_shape a u m p q o s = ground arith

-- The shares table can be read.
abbrev pub Answers : Option SharesLookup → Type 0
Answers none = Unit
Answers (some look) = (type id user : String) → look type id user ≢ none

matcher-ne-none :
    (shares : Option SharesLookup)
    → Answers shares
    → (g : String → String → Bool) (role sub_id : String) (obj : Resource) (act : String)
      (p : Policy)
    → matcher g shares role sub_id obj act p ≢ none
unfolding matcher instance_match
matcher-ne-none none h g role sub_id obj act p = ground arith
matcher-ne-none (some look) h g role sub_id obj act p = ground (arith, h obj.type obj.id sub_id)

next_role-ok :
    (role : String) (b : Bool) (rest : Bool) → next_role role (some b) (ok rest) ≡ ok (b || rest)
next_role-ok role true rest = refl
next_role-ok role false rest = refl

any_or :
    (o w : Bool) (a u m : Bool) (x y z : Bool)
    → (a && o || u && w || m || (x && o || y && w || z))
      ≡ ((a || x) && o || (u || y) && w || (m || z))
any_or o w a u m x y z = ground arith

any-role_views :
    (shares : Option SharesLookup) (sub_id : String) (obj : Resource) (roles : List String)
    → any (role_views shares sub_id obj) roles ≡ (
        contains roles "anonymous" && is_open obj
        || contains roles "user" && (owns sub_id obj || is_shared shares sub_id obj)
        || contains roles "admin")
unfolding contains
any-role_views shares sub_id obj [] = refl
any-role_views shares sub_id obj (role ∷ roles) = rw (any-role_views shares sub_id obj roles) (
    any_or (is_open obj) (owns sub_id obj || is_shared shares sub_id obj) (role == "anonymous")
      (role == "user") (role == "admin") _ _ _)

pub any-role_writes :
    (sub_id : String) (obj : Resource) (roles : List String)
    → any (role_writes sub_id obj) roles
      ≡ (contains roles "user" && owns sub_id obj || contains roles "admin")
unfolding contains
any-role_writes sub_id obj [] = refl
any-role_writes sub_id obj (role ∷ roles) =
    rw (any-role_writes sub_id obj roles)
      (any_or false (owns sub_id obj) false (role == "user") (role == "admin") false _ _)

pub ruleset specimen_rules = (is_some_true-and_then, and-false, and-true, or-false)

module _ (shares : Option SharesLookup) (e : Enforcer shares) where
  open e use {g, g_links}

  abbrev pub matched : String → String → Resource → String → Bool
  matched role sub_id obj act =
      any (λ p. is_some_true (matcher g shares role sub_id obj act p)) default_policies

  pub g-plain : (role sub : String) → (sub == "devops-viewer") ≡ false → g role sub ≡ (role == sub)
  g-plain role sub h = g_links role sub ∙ (rw h (ground arith))

  matched-view :
      (role sub_id id vis author : String)
      → matched role sub_id (specimen id vis author) "view"
        ≡ role_views shares sub_id (specimen id vis author) role
  unfolding matcher action_match instance_match
  matched-view role sub_id id vis author =
      simp
        (
          g-plain role "anonymous" refl,
          g-plain role "user" refl,
          g-plain role "admin" refl,
          specimen_rules,
        )
        (view_shape (role == "anonymous") (role == "user") (role == "admin") _ _ _ _)

  pub matched-write :
      (role sub_id id vis author act : String)
      → ("view" == act) ≡ false
      → matched role sub_id (specimen id vis author) act
        ≡ role_writes sub_id (specimen id vis author) role
  unfolding matcher action_match instance_match
  matched-write role sub_id id vis author act h = simp (
    g-plain role "anonymous" refl,
    g-plain role "user" refl,
    g-plain role "admin" refl,
    specimen_rules,
    h,
  )

  -- What `Enforce` grants the roles `roles`, given what it grants one.
  pub enforce_roles-eq-any :
      (grants : String → Bool) (roles : List String) (id : String) (obj : Resource) (act : String)
      → ((role : String) → e.enforce role id obj act ≡ some (grants role))
      → enforce_roles e.enforce roles id obj act ≡ ok (any grants roles)
  unfolding enforce_roles
  enforce_roles-eq-any grants [] id obj act h = refl
  enforce_roles-eq-any grants (role ∷ roles) id obj act h =
      rw (h role, enforce_roles-eq-any grants roles id obj act h)
        (next_role-ok role (grants role) _)

  module _ (answers : Answers shares) where
    pub enforce-eq-matched :
        (role sub_id : String) (obj : Resource) (act : String)
        → e.enforce role sub_id obj act ≡ some (matched role sub_id obj act)
    enforce-eq-matched role sub_id obj act = e.allows role sub_id obj act (
        All-of (λ p. matcher g shares role sub_id obj act p ≢ none)
          (λ p. matcher-ne-none shares answers g role sub_id obj act p) default_policies)

    -- If the shares table can be read, the default policies let a caller view a specimen exactly if it
    -- is an admin, or it has the role `user` and owns the specimen or holds a share of it, or it has
    -- the role `anonymous` and the specimen is public or unlisted.
    pub enforce_user-view :
        (u : User) (id vis author : String)
        → enforce_user e.enforce u (some (specimen id vis author)) "view"
          ≡ ok (
              contains u.roles "anonymous" && is_open (specimen id vis author)
              || contains u.roles "user"
                && (owns u.id (specimen id vis author)
                    || is_shared shares u.id (specimen id vis author))
              || contains u.roles "admin")
    unfolding enforce_user
    enforce_user-view u id vis author =
        enforce_roles-eq-any (role_views shares u.id (specimen id vis author)) u.roles u.id _ "view"
          (λ role.
            enforce-eq-matched role u.id _ "view" ∙ ap some (matched-view role u.id id vis author))
        ∙ ap ok (any-role_views shares u.id (specimen id vis author) u.roles)

    -- If the shares table can be read, the default policies let a caller do to a specimen anything but
    -- view it exactly if the caller is an admin, or has the role `user` and owns the specimen.
    pub enforce_user-write :
        (u : User) (id vis author act : String)
        → ("view" == act) ≡ false
        → (act == "") ≡ false
        → enforce_user e.enforce u (some (specimen id vis author)) act
          ≡ ok (
              contains u.roles "user" && owns u.id (specimen id vis author)
              || contains u.roles "admin")
    unfolding enforce_user
    enforce_user-write u id vis author act h k = rw k (
        enforce_roles-eq-any (role_writes u.id (specimen id vis author)) u.roles u.id _ act (λ role.
          enforce-eq-matched role u.id _ act
          ∙ ap some (matched-write role u.id id vis author act h))
        ∙ ap ok (any-role_writes u.id (specimen id vis author) u.roles))
