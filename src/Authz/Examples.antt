-- ===== src/Authz/Examples.antt =====
-- An enforcer that meets the laws, and callers that act on a specimen.
use minerals.Base.{
  String, ◌==◌, Bool, true, ◌&&◌, ◌||◌, Option, some, [], ◌∷◌, ◌≡◌, refl, contains, inl, any,
}
use minerals.Authz.{
  Resource, User, ok, SharesLookup, default_policies, default_groupings, matcher, is_some_true,
  Enforcer, enforce_user, enforce_roles, action_match, instance_match,
}
use minerals.Authz.Owned.{owned, enforce_user-owned}
use minerals.Authz.Specimens.{specimen, owns, Answers}

pub linked : String → String → Bool
linked role sub =
    role == sub || any (λ (l : String × String). role == l.0 && sub == l.1) default_groupings

pub evaluate : Option SharesLookup → String → String → Resource → String → Option Bool
unfolding linked
evaluate shares role sub_id obj act =
    some (any (λ p. is_some_true (matcher linked shares role sub_id obj act p)) default_policies)

linked_lem :
    (role sub : String)
    → linked role sub
      ≡ (role == sub || any (λ (l : String × String). role == l.0 && sub == l.1) default_groupings)
unfolding linked
linked_lem role sub = refl

pub casbin : (shares : Option SharesLookup) → Enforcer shares
unfolding evaluate
casbin shares = record {
  g = linked;
  enforce = evaluate shares;
  g_links = linked_lem;
  allows = λ role sub_id obj act h. refl;
}

-- Ann holds a share of specimen s1.
abbrev shares : Option SharesLookup
shares = some (λ type id user. some (id == "s1" && user == "ann"))

shares-answers : Answers shares
shares-answers type id user e = cc

abbrev ann : User
ann = record { id = "ann"; roles = "user" ∷ [] }

views_share :
    enforce_user (casbin shares).enforce ann (some (specimen "s1" "private" "bob")) "view" ≡ ok true
unfolding casbin enforce_user enforce_roles matcher action_match instance_match
views_share = refl

enforce_user-owned_example :
    enforce_user (casbin shares).enforce ann (some (owned "journal" "j1" "ann")) "delete"
    ≡ ok (
        contains ann.roles "user" && owns "ann" (owned "journal" "j1" "ann")
        || contains ann.roles "admin")
enforce_user-owned_example =
    enforce_user-owned shares (casbin shares) shares-answers ann "journal" "j1" "ann" "delete"
      (inl refl) refl
