-- ===== src/Users/Steps.antt =====
-- How the users table changes over time, and what never changes in it.
use minerals.Base.{
  String, ◌==◌, false, some, List, [], ◌∷◌, ◌≡◌, ◌≢◌, ap, ◌∙◌, arith, eq_iff, Bool-cases, inl, inr,
  any,
}
use mathlib.Core.Option
use minerals.Uuid.{Uuid}
use minerals.Domain.{Instant, User}
use minerals.Users.{Change, find_sub, clashes, create, change_row, delete_rows, update}
use minerals.Users.Rows.{
  change_row-id, find_sub-change_rows, IsUnique, IsUnique-change_rows, create-inr, update-inr,
  IsUnique-delete_rows, find_sub-delete_rows,
}

-- One write of some request, other than the erasure of the subject's account.
pub data Step (sub : String) : List User → List User → Type 0 where
  inserted :
      {users after : List User} (u : User) → create false u users ≡ inr after → Step sub users after
  updated :
      {users after : List User} (c : Change) (now : Instant) (id : Uuid)
      → update false c now id users ≡ inr after
      → Step sub users after
  erased :
      {users : List User} (id : Uuid)
      → ((u : User) → find_sub sub users ≡ some u → u.id ≢ id)
      → Step sub users (delete_rows id users)

-- Any number of such writes.
pub data Later (sub : String) : List User → List User → Type 0 where
  same : {users : List User} → Later sub users users
  next :
      {users mid after : List User}
      → Later sub users mid
      → Step sub mid after
      → Later sub users after

pub Step-IsUnique :
    {sub : String} {users after : List User}
    → Step sub users after
    → IsUnique users
    → IsUnique after
Step-IsUnique {sub} {users} {after} (Step.inserted u e) h =
    let (fresh, made) = create-inr u users after e in rw made (fresh, h)
Step-IsUnique {sub} {users} {after} (Step.updated c now id e) h =
    rw (update-inr c now id users after e) (IsUnique-change_rows c now id users h)
Step-IsUnique {sub} {users} {after} (Step.erased id spares) h = IsUnique-delete_rows id users h

pub Later-IsUnique :
    {sub : String} {users after : List User}
    → Later sub users after
    → IsUnique users
    → IsUnique after
Later-IsUnique Later.same h = h
Later-IsUnique (Later.next l s) h = Step-IsUnique s (Later-IsUnique l h)

-- The table has a row of the subject with the identifier.
abbrev pub HasRow : String → Uuid → List User → Type 0
HasRow sub id users = (u : User) × (find_sub sub users ≡ some u) × (u.id ≡ id)

fresh-sub :
    (u : User) (users : List User) (v : User)
    → any (clashes u) users ≡ false
    → find_sub u.keycloak_sub users ≡ some v
    → ⊥
unfolding find_sub clashes
fresh-sub u [] v fresh h = cc
fresh-sub u (r ∷ users) v fresh h = elim (Bool-cases (r.keycloak_sub == u.keycloak_sub)) [
  | inl t ↦ ground (arith, fresh, t)
  | inr f ↦ fresh-sub u users v (ground (arith, fresh)) (ground (arith, h, f))
]

HasRow-insert :
    (sub : String) (id : Uuid) (u : User) (users : List User)
    → any (clashes u) users ≡ false
    → HasRow sub id users
    → HasRow sub id (u ∷ users)
unfolding find_sub
HasRow-insert sub id u users fresh (v, h, i) = elim (Bool-cases (u.keycloak_sub == sub)) [
  | inl t ↦
      let e : u.keycloak_sub ≡ sub = ground (arith, t, eq_iff u.keycloak_sub sub) in
      absurd (fresh-sub u users v fresh (rw e h))
  | inr f ↦ (v, rw f h, i)
]

-- A subject's row keeps its identifier, whatever other requests write.
pub Step-HasRow :
    (sub : String) (id : Uuid) {users after : List User}
    → Step sub users after
    → HasRow sub id users
    → HasRow sub id after
Step-HasRow sub id {users} {after} (Step.inserted u e) row =
    let (fresh, made) = create-inr u users after e in
    rw made (HasRow-insert sub id u users fresh row)
Step-HasRow sub id {users} {after} (Step.updated c now i e) (v, h, k) =
    rw (update-inr c now i users after e) (
      change_row c now i v,
      find_sub-change_rows c now i sub users ∙ ap (Option.map (change_row c now i)) h,
      change_row-id c now i v ∙ k,
    )
Step-HasRow sub id {users} {after} (Step.erased i spares) (v, h, k) =
    (v, find_sub-delete_rows sub i users v h (spares v h), k)

pub Later-HasRow :
    (sub : String) (id : Uuid) {users after : List User}
    → Later sub users after
    → HasRow sub id users
    → HasRow sub id after
Later-HasRow sub id Later.same row = row
Later-HasRow sub id (Later.next l s) row = Step-HasRow sub id s (Later-HasRow sub id l row)
