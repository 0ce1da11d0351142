-- ===== src/Authz/Owned.antt =====
-- Who the default policies let act on journal entries, collectors and QR sheets (policies.go).
use minerals.Base.{
  String, ◌==◌, false, ◌&&◌, ◌||◌, Option, some, ◌≡◌, ◌⊎◌, refl, ap, ◌∙◌, contains, inl, inr,
}
use minerals.Authz.{
  Resource, User, ok, SharesLookup, matcher, action_match, instance_match, Enforcer, enforce_user,
}
use minerals.Authz.Specimens.{
  owns, role_writes, any-role_writes, Answers, matched, g-plain, enforce_roles-eq-any,
  enforce-eq-matched, specimen_rules,
}

-- The resource types of which only the owner's rights are granted.
abbrev pub IsOwned : String → Type 0
IsOwned type = (type ≡ "journal") ⊎ ((type ≡ "collectors") ⊎ (type ≡ "qr-sheets"))

abbrev pub owned : (type id author_id : String) → Resource
owned type id author_id = record { type = type; id = id; visibility = ""; author_id = author_id }

module _ (shares : Option SharesLookup) (e : Enforcer shares) where
  matched-owned :
      (role sub_id type id author act : String)
      → IsOwned type
      → matched shares e role sub_id (owned type id author) act
        ≡ role_writes sub_id (owned type id author) role
  unfolding matcher action_match instance_match
  matched-owned role sub_id type id author act (inl h) =
      rw h (
        simp
          (g-plain shares e role "user" refl, g-plain shares e role "admin" refl, specimen_rules))
  matched-owned role sub_id type id author act (inr (inl h)) =
      rw h (
        simp
          (g-plain shares e role "user" refl, g-plain shares e role "admin" refl, specimen_rules))
  matched-owned role sub_id type id author act (inr (inr h)) =
      rw h (
        simp
          (g-plain shares e role "user" refl, g-plain shares e role "admin" refl, specimen_rules))

  -- If the shares table can be read, the default policies let a caller do anything, viewing included, to
  -- a journal entry, a collector or a QR sheet exactly if the caller is an admin, or has the role `user`
  -- and owns it: there are no shares of them and no public ones.
  pub enforce_user-owned :
      Answers shares
      → (u : User) (type id author act : String) → IsOwned type
      → (act == "") ≡ false
      → enforce_user e.enforce u (some (owned type id author)) act
        ≡ ok (
            contains u.roles "user" && owns u.id (owned type id author) || contains u.roles "admin")
  unfolding enforce_user
  enforce_user-owned answers u type id author act h k = rw k (
      enforce_roles-eq-any shares e (role_writes u.id (owned type id author)) u.roles u.id _ act
        (λ role.
          enforce-eq-matched shares e answers role u.id _ act
          ∙ ap some (matched-owned role u.id type id author act h))
      ∙ ap ok (any-role_writes u.id (owned type id author) u.roles))
