-- ===== src/Api/Redact/Memo.antt =====
-- The redactor's memory of owners (loadOwner of internal/api/redact.go).
use minerals.Base.{some, eqb, ◌≡◌, refl, arith, Bool-cases, Option-cases, inl, inr, eqb_iff}
use minerals.Uuid.{Uuid, nil_uuid}
use minerals.Domain.{User}
use minerals.Api.Redact.{UserRepo, Owners, no_owners, load_from, load_owner}

-- Every remembered row is the repository's.
pub record IsFaithful (users : UserRepo) (owners : Owners) : Type 0 where
  pub at : (id : Uuid) (u : User) → owners id ≡ some u → users id ≡ some u

load_from-fresh :
    (users : UserRepo) (owners : Owners) (id : Uuid)
    → IsFaithful users owners
    → (load_from users owners id).0 ≡ (load_from users no_owners id).0
unfolding load_from
load_from-fresh users owners id f = elim (Option-cases (owners id)) [
  | inl new ↦ ground (arith, new)
  | inr (u, old) ↦ ground (arith, old, f.at id u old)
]

load_from-IsFaithful :
    (users : UserRepo) (owners : Owners) (id : Uuid)
    → IsFaithful users owners
    → IsFaithful users (load_from users owners id).1
unfolding load_from
load_from-IsFaithful users owners id f = record {
  at = λ k u e. ground (arith, f.at k u, eqb_iff id k);
}

-- The memory does not change the owner's row that a redaction uses, and stays faithful: if what is
-- remembered is what the repository holds, then so are the row that `loadOwner` returns and what is
-- remembered afterwards.
pub load_owner-IsFaithful :
    (users : UserRepo) (owners : Owners) (id : Uuid)
    → IsFaithful users owners
    → ((load_owner (some users) owners id).0 ≡ (load_owner (some users) no_owners id).0)
      × IsFaithful users (load_owner (some users) owners id).1
unfolding load_owner
load_owner-IsFaithful users owners id f = elim (Bool-cases (eqb id nil_uuid)) [
  | inl none' ↦ rw none' (refl, f)
  | inr some' ↦ rw some' (load_from-fresh users owners id f, load_from-IsFaithful users owners id f)
]
