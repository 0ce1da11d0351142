-- ===== src/Users/Rows.antt =====
-- What the queries on the users table change, and its unique keys (internal/db/user_postgres.go).
use minerals.Base.{
  String, ◌==◌, Bool, true, false, some, List, [], ◌∷◌, eqb, ◌≡◌, ◌≢◌, refl, sym, ap, ◌∙◌, arith,
  eq_iff, Bool-cases, inl, inr, any,
}
use mathlib.Core.Option
use minerals.Uuid.{Uuid}
use minerals.Domain.{Instant, User}
use minerals.Users.{
  Change, activate, rename, set_defaults, set_visibility, put_status, changed, find_sub, find_id,
  clashes, create, change_row, change_rows, delete_rows, has_id, update,
}

pub changed-sub :
    (c : Change) (now : Instant) (u : User) → (changed c now u).keycloak_sub ≡ u.keycloak_sub
unfolding changed
changed-sub (activate n) now u = refl
changed-sub (rename n) now u = refl
changed-sub (set_defaults d) now u = refl
changed-sub (set_visibility v) now u = refl
changed-sub (put_status s) now u = refl

pub changed-id : (c : Change) (now : Instant) (u : User) → (changed c now u).id ≡ u.id
unfolding changed
changed-id (activate n) now u = refl
changed-id (rename n) now u = refl
changed-id (set_defaults d) now u = refl
changed-id (set_visibility v) now u = refl
changed-id (put_status s) now u = refl

pub change_row-sub :
    (c : Change) (now : Instant) (id : Uuid) (u : User)
    → (change_row c now id u).keycloak_sub ≡ u.keycloak_sub
unfolding change_row
change_row-sub c now id u = elim (Bool-cases (eqb u.id id)) [
  | inl t ↦ rw t (changed-sub c now u)
  | inr f ↦ rw f refl
]

pub change_row-id :
    (c : Change) (now : Instant) (id : Uuid) (u : User) → (change_row c now id u).id ≡ u.id
unfolding change_row
change_row-id c now id u = elim (Bool-cases (eqb u.id id)) [
  | inl t ↦ rw t (changed-id c now u)
  | inr f ↦ rw f refl
]

-- The row of a subject after a change of some row.
pub find_sub-change_rows :
    (c : Change) (now : Instant) (id : Uuid) (sub : String) (users : List User)
    → find_sub sub (change_rows c now id users)
      ≡ Option.map (change_row c now id) (find_sub sub users)
unfolding find_sub change_rows
find_sub-change_rows c now id sub [] = refl
find_sub-change_rows c now id sub (r ∷ users) = elim (Bool-cases (r.keycloak_sub == sub)) [
  | inl t ↦
      let t' : ((change_row c now id r).keycloak_sub == sub) ≡ true =
        ap (λ (x : String). x == sub) (change_row-sub c now id r) ∙ t in
      rw (t, t') refl
  | inr f ↦
      let f' : ((change_row c now id r).keycloak_sub == sub) ≡ false =
        ap (λ (x : String). x == sub) (change_row-sub c now id r) ∙ f in
      rw (f, f') (find_sub-change_rows c now id sub users)
]

clashes-change_row :
    (c : Change) (now : Instant) (id : Uuid) (u r : User)
    → clashes (change_row c now id u) (change_row c now id r) ≡ clashes u r
unfolding clashes
clashes-change_row c now id u r =
    rw
      (
        change_row-sub c now id u,
        change_row-sub c now id r,
        change_row-id c now id u,
        change_row-id c now id r,
      )
      refl

any-clashes-change_rows :
    (c : Change) (now : Instant) (id : Uuid) (u : User) (users : List User)
    → any (clashes (change_row c now id u)) (change_rows c now id users) ≡ any (clashes u) users
unfolding change_rows
any-clashes-change_rows c now id u [] = refl
any-clashes-change_rows c now id u (r ∷ users) =
    rw (clashes-change_row c now id u r, any-clashes-change_rows c now id u users) refl

-- The unique keys of the table.
abbrev pub IsUnique : List User → Type 0
IsUnique [] = Unit
IsUnique (u ∷ users) = (any (clashes u) users ≡ false) × IsUnique users

pub IsUnique-change_rows :
    (c : Change) (now : Instant) (id : Uuid) (users : List User)
    → IsUnique users
    → IsUnique (change_rows c now id users)
unfolding change_rows
IsUnique-change_rows c now id [] h = tt
IsUnique-change_rows c now id (u ∷ users) (fresh, h) =
    (any-clashes-change_rows c now id u users ∙ fresh, IsUnique-change_rows c now id users h)

-- What `create` and `update` answer when they succeed.
pub create-inr :
    (u : User) (users after : List User)
    → create false u users ≡ inr after
    → (any (clashes u) users ≡ false) × (after ≡ u ∷ users)
unfolding create
create-inr u users after h = elim (Bool-cases (any (clashes u) users)) [
  | inl t ↦ absurd (ground (arith, h, t))
  | inr f ↦ (f, ground (arith, h, f))
]

pub update-inr :
    (c : Change) (now : Instant) (id : Uuid) (users after : List User)
    → update false c now id users ≡ inr after
    → after ≡ change_rows c now id users
unfolding update
update-inr c now id users after h = elim (Bool-cases (has_id id users)) [
  | inl t ↦ ground (arith, h, t)
  | inr f ↦ absurd (ground (arith, h, f))
]

any-delete_rows :
    (p : User → Bool) (id : Uuid) (users : List User)
    → any p users ≡ false
    → any p (delete_rows id users) ≡ false
unfolding delete_rows
any-delete_rows p id [] h = refl
any-delete_rows p id (u ∷ users) h =
    let own : p u ≡ false = ground (arith, h) in
    let rest = any-delete_rows p id users (ground (arith, h)) in
    elim (Bool-cases (eqb u.id id)) [ inl t ↦ rw t rest | inr f ↦ rw f (rw (own, rest) refl) ]

pub IsUnique-delete_rows :
    (id : Uuid) (users : List User) → IsUnique users → IsUnique (delete_rows id users)
unfolding delete_rows
IsUnique-delete_rows id [] h = tt
IsUnique-delete_rows id (u ∷ users) (fresh, h) = elim (Bool-cases (eqb u.id id)) [
  | inl t ↦ rw t (IsUnique-delete_rows id users h)
  | inr f ↦ rw f (any-delete_rows (clashes u) id users fresh, IsUnique-delete_rows id users h)
]

-- The deletion of one row leaves every other row where it is found.
pub find_sub-delete_rows :
    (sub : String) (id : Uuid) (users : List User) (v : User)
    → find_sub sub users ≡ some v
    → v.id ≢ id
    → find_sub sub (delete_rows id users) ≡ some v
unfolding find_sub delete_rows
find_sub-delete_rows sub id [] v h ne = cc
find_sub-delete_rows sub id (r ∷ users) v h ne = elim (Bool-cases (r.keycloak_sub == sub)) [
  | inl own ↦
      let e : r ≡ v = ground (arith, h, own) in
      let other : eqb r.id id ≡ false = ground (arith, ne, ap (λ (u : User). u.id) e) in
      rw other (rw own (ap some e))
  | inr away ↦
      let rest = find_sub-delete_rows sub id users v (ground (arith, h, away)) ne in
      elim (Bool-cases (eqb r.id id)) [ inl t ↦ rw t rest | inr f ↦ rw f (rw away rest) ]
]

any-clashes-id :
    (u : User) (id : Uuid) (users : List User) (v : User)
    → any (clashes u) users ≡ false
    → find_id id users ≡ some v
    → (u.keycloak_sub == v.keycloak_sub) ≡ false
unfolding clashes find_id
any-clashes-id u id [] v fresh h = cc
any-clashes-id u id (r ∷ users) v fresh h = elim (Bool-cases (eqb r.id id)) [
  | inl t ↦
      let e : r ≡ v = ground (arith, h, t) in
      ground (
        arith,
        fresh,
        eq_iff r.keycloak_sub u.keycloak_sub,
        eq_iff u.keycloak_sub v.keycloak_sub,
        ap (λ (w : User). w.keycloak_sub) e,
      )
  | inr f ↦ any-clashes-id u id users v (ground (arith, fresh)) (ground (arith, h, f))
]

-- The row of an identifier is its subject's row.
pub find_sub-find_id :
    (id : Uuid) (users : List User) (u : User)
    → IsUnique users
    → find_id id users ≡ some u
    → (find_sub u.keycloak_sub users ≡ some u) × (u.id ≡ id)
unfolding find_id find_sub
find_sub-find_id id [] u h e = absurd (cc)
find_sub-find_id id (r ∷ users) u (fresh, h) e = elim (Bool-cases (eqb r.id id)) [
  | inl t ↦
      let same : r ≡ u = ground (arith, e, t) in
      let own : (r.keycloak_sub == u.keycloak_sub) ≡ true =
        ground
          (arith, eq_iff r.keycloak_sub u.keycloak_sub, ap (λ (w : User). w.keycloak_sub) same) in
      let i : r.id ≡ id = ground (arith, t) in
      (rw own (ap some same), ap (λ (w : User). w.id) (sym same) ∙ i)
  | inr f ↦
      let found : find_id id users ≡ some u = ground (arith, e, f) in
      let (own, i) = find_sub-find_id id users u h found in
      (rw (any-clashes-id r id users u fresh found) own, i)
]

pub find_sub-of :
    (sub : String) (users : List User) (u : User)
    → find_sub sub users ≡ some u
    → u.keycloak_sub ≡ sub
unfolding find_sub
find_sub-of sub [] u h = cc
find_sub-of sub (r ∷ users) u h = elim (Bool-cases (r.keycloak_sub == sub)) [
  | inl t ↦ ground (arith, h, t, eq_iff r.keycloak_sub sub)
  | inr f ↦ find_sub-of sub users u (ground (arith, h, f))
]
