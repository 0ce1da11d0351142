-- ===== src/Api/HumaAuth/Resolve.antt =====
-- Each subject has one row, whichever request of it comes first (resolveOrCreateUser).
use minerals.Base.{
  String, Bool, true, false, some, List, ◌∷◌, ◌≡◌, ◌⊎◌, refl, sym, ap, ◌∙◌, arith, eq_refl,
  Bool-cases, Option-cases, inl, inr, any,
}
use minerals.Uuid.{Uuid}
use minerals.Domain
use minerals.Domain.{Instant}
use minerals.Auth
use minerals.Users.{
  RepoError, not_found, conflict, failed, find_sub, found, get_by_sub, clashes, create,
}
use minerals.Users.Steps.{Step, Later, Later-HasRow}
use minerals.Api.HumaAuth.{Faults, fresh_user, after_create, after_read, resolve_or_create_user}

get_by_sub-inr :
    (fault : Bool) (sub : String) (users : List Domain.User) (row : Domain.User)
    → get_by_sub fault sub users ≡ inr row
    → find_sub sub users ≡ some row
unfolding get_by_sub found
get_by_sub-inr true sub users row h = cc
get_by_sub-inr false sub users row h = elim (Option-cases (find_sub sub users)) [
  | inl e ↦ absurd (ground (arith, h, e))
  | inr (u, e) ↦ e ∙ ap some (ground (arith, h, e))
]

-- How a table that a request last saw comes after another.
create-Step :
    (fault : Bool) (u : Domain.User) (users after : List Domain.User)
    → create fault u users ≡ inr after
    → Step u.keycloak_sub users after × (find_sub u.keycloak_sub after ≡ some u)
unfolding create find_sub
create-Step true u users after h = absurd (cc)
create-Step false u users after h = elim (Bool-cases (any (clashes u) users)) [
  | inl t ↦ absurd (ground (arith, h, t))
  | inr f ↦
      let made : u ∷ users ≡ after = ground (arith, h, f) in
      (
        Step.inserted u h,
        sym (ap (find_sub u.keycloak_sub) made) ∙ (rw (eq_refl u.keycloak_sub) refl),
      )
]

module _ (fault : Bool) (row : Domain.User) (t2 t3 after : List Domain.User) (r : Domain.User) where
  after_create-find_sub :
      (answer : RepoError ⊎ List Domain.User)
      → ((made : List Domain.User) → answer ≡ inr made → find_sub row.keycloak_sub made ≡ some row)
      → after_create fault row answer t2 t3 ≡ (inr r, after)
      → find_sub row.keycloak_sub after ≡ some r
  unfolding after_create
  after_create-find_sub (inr made) h e =
      let m : made ≡ after = cc in
      let q : row ≡ r = cc in sym (ap (find_sub row.keycloak_sub) m) ∙ h made refl ∙ ap some q
  after_create-find_sub (inl conflict) h e =
      let m : t3 ≡ after = cc in
      let q : get_by_sub fault row.keycloak_sub t3 ≡ inr r = cc in
      sym (ap (find_sub row.keycloak_sub) m) ∙ get_by_sub-inr fault row.keycloak_sub t3 r q
  after_create-find_sub (inl not_found) h e = absurd (cc)
  after_create-find_sub (inl failed) h e = absurd (cc)

module _ (faults : Faults) (id : Uuid) (now : Instant) (u : Auth.User)
    (t1 t2 t3 after : List Domain.User) (r : Domain.User) where
  after_read-find_sub :
      (answer : RepoError ⊎ Domain.User)
      → get_by_sub faults.read u.sub t1 ≡ answer
      → after_read faults (fresh_user id now u) answer t1 t2 t3 ≡ (inr r, after)
      → find_sub u.sub after ≡ some r
  unfolding after_read fresh_user
  after_read-find_sub (inr found) g e =
      let m : t1 ≡ after = cc in
      let q : found ≡ r = cc in
      sym (ap (find_sub u.sub) m) ∙ get_by_sub-inr faults.read u.sub t1 found g ∙ ap some q
  after_read-find_sub (inl not_found) g e =
      after_create-find_sub faults.reread (fresh_user id now u) t2 t3 after r
        (create faults.insert (fresh_user id now u) t2)
        (λ made h. (create-Step faults.insert (fresh_user id now u) t2 made h).1) e
  after_read-find_sub (inl conflict) g e = absurd (cc)
  after_read-find_sub (inl failed) g e = absurd (cc)

  -- The row that a request gets is its subject's row in the table that it last saw or left.
  pub resolve_or_create_user-find_sub :
      resolve_or_create_user faults id now u t1 t2 t3 ≡ (inr r, after)
      → find_sub u.sub after ≡ some r
  unfolding resolve_or_create_user
  resolve_or_create_user-find_sub e = after_read-find_sub (get_by_sub faults.read u.sub t1) refl e

-- One account for one subject: of two requests of one subject, on whatever tables and with whatever failing queries
-- each of them resolved its row, both have the same row identifier, if some table comes after what either of them
-- last saw or left through insertions, updates of rows, and erasures of other subjects' accounts.
pub resolve_or_create_user-agree :
    (faults faults' : Faults) (id id' : Uuid) (now now' : Instant) (u u' : Auth.User)
    (t1 t2 t3 after s1 s2 s3 after' final : List Domain.User) (r r' : Domain.User)
    → u.sub ≡ u'.sub
    → resolve_or_create_user faults id now u t1 t2 t3 ≡ (inr r, after)
    → resolve_or_create_user faults' id' now' u' s1 s2 s3 ≡ (inr r', after')
    → Later u.sub after final
    → Later u.sub after' final
    → r.id ≡ r'.id
resolve_or_create_user-agree faults faults' id id' now now' u u' t1 t2 t3 after s1 s2 s3 after'
      final r r' same e e' l l' =
    let own = resolve_or_create_user-find_sub faults id now u t1 t2 t3 after r e in
    let own' = resolve_or_create_user-find_sub faults' id' now' u' s1 s2 s3 after' r' e' in
    let (v, f, i) = Later-HasRow u.sub r.id l (r, own, refl) in
    let own2 = ap (λ (s : String). find_sub s after') same ∙ own' in
    let (v', f', i') = Later-HasRow u.sub r'.id l' (r', own2, refl) in
    let one : some v ≡ some v' = sym f ∙ f' in cc
