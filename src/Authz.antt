-- ===== src/Authz.antt =====
-- Role-based authorization (internal/authz): the resource and user views, the policies, the matcher
-- functions that the Casbin model names, and `Enforce`, which takes the caller's roles in turn.
--
-- Casbin is not part of the program. The enforcer that `NewEnforcer` and `SeedDefaultPolicies` set
-- up is a parameter, `Enforcer`, whose laws are what Casbin documents for the model's request,
-- effect and matcher definitions.
pub mod Specimens
pub mod Owned
pub mod Devops
pub mod Examples
use minerals.Base.{
  ℕ, zero, suc, ◌+◌, ◌-◌, ◌*◌, ◌/◌, ◌%◌, ◌^◌, ◌≤◌, ◌<◌, min, String, ◌==◌, Bool, true, false, not,
  ◌&&◌, ◌||◌, Option, none, some, List, [], ◌∷◌, ◌++◌, map, ltb, leb, eqb, if◌then◌else◌, ◌≡◌, ◌≢◌,
  ◌↔◌, ◌⊎◌, refl, sym, ap, ◌∙◌, arith, eq_iff, eq_refl, trim_space, split_on, contains, Bool-cases,
  Option-cases, inl, inr, length, take, drop, any, all, All, All-append, All-of, length-append,
  length-take, length-drop, take-append-drop, take-append_left, drop-append_left, Bytes, codes,
  bytes_eq, has_prefix, be16, be32, le32, put_be16, put_le32, lt→ltb, ltb→lt, leb→le, eqb_iff, itoa,
  read_number, read_number-itoa, itoa_injective, minus-itoa,
}
use mathlib.Core.List.{Memᴰ}

pub record Resource : Type 0 where
  pub type : String
  pub id : String
  pub visibility : String
  pub author_id : String

pub record User : Type 0 where
  pub id : String
  pub roles : List String

pub data Error : Type 0 where
  unknown_action no_resource : Error
  -- `enforce role`, wrapping what Casbin or the shares lookup reported
  enforce_failed : String → Error

pub data Result : Type 0 where
  ok : Bool → Result
  err : Error → Result

-- The shares table: does the user hold a share of the resource (type, id, user)? `none` is a
-- failed query.
abbrev pub SharesLookup : Type 0
SharesLookup = String → String → String → Option Bool

pub record Policy : Type 0 where
  pub sub : String
  pub obj_type : String
  pub obj_instance : String
  pub act_set : String

abbrev policy : String → String → String → String → Policy
policy sub obj_type obj_instance act_set = record {
  sub = sub;
  obj_type = obj_type;
  obj_instance = obj_instance;
  act_set = act_set;
}

abbrev pub default_policies : List Policy
default_policies =
    policy "anonymous" "specimens" "public" "view"
    ∷ policy "anonymous" "specimens" "unlisted" "view"
    ∷ policy "anonymous" "photos" "public" "view"
    ∷ policy "anonymous" "photos" "unlisted" "view"
    ∷ policy "user" "specimens" "own" "*"
    ∷ policy "user" "photos" "own" "*"
    ∷ policy "user" "journal" "own" "*"
    ∷ policy "user" "collectors" "own" "*"
    ∷ policy "user" "qr-sheets" "own" "*"
    ∷ policy "user" "specimens" "shared" "view"
    ∷ policy "user" "photos" "shared" "view"
    ∷ policy "devops-viewer" "devops" "*" "view"
    ∷ policy "devops-admin" "devops" "*" "view,edit"
    ∷ policy "admin" "*" "*" "*"
    ∷ policy "admin" "users" "*" "*"
    ∷ []

abbrev pub default_groupings : List (String × String)
default_groupings = ("devops-admin", "devops-viewer") ∷ []

trimmed_is : String → String → Bool
trimmed_is req_act a = trim_space a == req_act

-- `actionMatchFn`
unfoldable pub action_match : String → String → Bool
unfolding trimmed_is trim_space split_on
action_match req_act pol_act =
    if pol_act == "*" then true else any (trimmed_is req_act) (split_on b',' pol_act)

-- `makeInstanceMatchFn`; a nil shares lookup is `none`, and so is a failed one's answer.
unfoldable pub instance_match : Option SharesLookup → String → String → Resource → Option Bool
instance_match shares pol_inst sub_id obj =
    if pol_inst == "*"
    then some true
    else if pol_inst == "public"
    then some (obj.visibility == "public")
    else if pol_inst == "unlisted"
    then some (obj.visibility == "unlisted")
    else if pol_inst == "own"
    then some (not (sub_id == "") && obj.author_id == sub_id)
    else if pol_inst == "shared"
    then elim shares [
      | none ↦ some false
      | some look ↦ if sub_id == "" || obj.id == "" then some false else look obj.type obj.id sub_id
    ]
    else some (obj.id == pol_inst)

-- `a && b` of the matcher expression, whose right side is not evaluated if the left is false.
abbrev pub and_then : Bool → Option Bool → Option Bool
and_then false r = some false
and_then true r = r

-- The model's matcher `m`, for one policy: `g` is the role manager's test.
unfoldable pub matcher :
    (String → String → Bool)
    → Option SharesLookup
    → String
    → String
    → Resource
    → String
    → Policy
    → Option Bool
matcher g shares role sub_id obj act p =
    and_then
      (g role p.sub && (p.obj_type == "*" || obj.type == p.obj_type) && action_match act p.act_set)
      (instance_match shares p.obj_instance sub_id obj)

abbrev pub is_some_true : Option Bool → Bool
is_some_true none = false
is_some_true (some b) = b

-- The enforcer over the default policies. `g role sub` holds if the roles are the same or a grouping
-- lists them (no grouping's target is another's source); a request is allowed if some policy
-- matches, where no matcher function fails.
pub record Enforcer (shares : Option SharesLookup) : Type 0 where
  pub g : String → String → Bool
  pub enforce : String → String → Resource → String → Option Bool
  pub g_links :
      (role sub : String)
      → g role sub ≡ (
          role == sub || any (λ (l : String × String). role == l.0 && sub == l.1) default_groupings)
  pub allows :
      (role sub_id : String) (obj : Resource) (act : String)
      → All (λ p. matcher g shares role sub_id obj act p ≢ none) default_policies
      → enforce role sub_id obj act
        ≡ some (any (λ p. is_some_true (matcher g shares role sub_id obj act p)) default_policies)

-- One round of `Enforce`'s loop, given what the enforcer said and the outcome of the rest.
abbrev next_role : String → Option Bool → Result → Result
next_role role none rest = err (enforce_failed role)
next_role role (some true) rest = ok true
next_role role (some false) rest = rest

module _ (enforce : String → String → Resource → String → Option Bool) where
  pub enforce_roles : List String → String → Resource → String → Result
  enforce_roles [] id obj act = ok false
  enforce_roles (role ∷ roles) id obj act =
      next_role role (enforce role id obj act) (enforce_roles roles id obj act)

  -- `Enforce`; a nil resource is `none`.
  pub enforce_user : User → Option Resource → String → Result
  enforce_user u obj act =
      if act == ""
      then err unknown_action
      else elim obj [ none ↦ err no_resource | some o ↦ enforce_roles u.roles u.id o act ]
