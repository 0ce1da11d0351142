-- ===== src/Api/HumaAuth/Laws.antt =====
-- Who reaches a handler (the chains of internal/api/huma_auth.go).
use minerals.Base.{
  String, ◌==◌, true, false, Option, some, List, ◌≡◌, ◌⊎◌, refl, sym, ap, ◌∙◌, arith, Bool-cases,
  inl, inr,
}
use mathlib.Core.Path.{subst}
use minerals.Uuid.{Uuid}
use minerals.Domain
use minerals.Domain.{Instant, status_pending, status_suspended}
use minerals.Auth
use minerals.Auth.{Claims}
use minerals.Users.{RepoError, find_sub, found, get_by_sub}
use minerals.Api.HumaAuth.{
  Reply, next, stop, Faults, account_suspended, merged, resolved, after_read,
  resolve_or_create_user, resolve_user, optional_resolve_user, require_complete_profile, then_with,
  then_resolve, huma_auth, huma_optional_auth, protected, optional, setup_allowed,
}
use minerals.Api.HumaAuth.Resolve.{resolve_or_create_user-find_sub}

-- The identity is the row's, and the account is neither suspended nor unfinished.
pub record Admitted (u v : Auth.User) (users : List Domain.User) : Type 0 where
  pub row : Domain.User
  pub of_subject : find_sub u.sub users ≡ some row
  pub identity : v ≡ merged u row
  pub not_suspended : (row.status == status_suspended) ≡ false

merged-pending :
    (u : Auth.User) (row : Domain.User) → (merged u row).pending ≡ (row.status == status_pending)
unfolding merged
merged-pending u row = refl

module _ (faults : Faults) (id : Uuid) (now : Instant) (t1 t2 t3 after : List Domain.User)
    (u v : Auth.User) where
  resolved-next :
      (answer : (RepoError ⊎ Domain.User) × List Domain.User)
      → ((r : Domain.User) → answer ≡ (inr r, after) → find_sub u.sub after ≡ some r)
      → resolved u answer ≡ (next v, after)
      → Admitted u v after
  unfolding resolved
  resolved-next (inl e, users) h k = absurd (cc)
  resolved-next (inr row, users) h k = elim (Bool-cases (row.status == status_suspended)) [
    | inl t ↦ absurd (ground (arith, k, t))
    | inr f ↦
        let both : ◌≡◌ {A = Reply × List Domain.User} (next (merged u row), users) (next v, after) =
          rw f at k in
        let m : users ≡ after = cc in
        let i : merged u row ≡ v = cc in
        record {
          row = row;
          of_subject = h row (ap (λ (s : List Domain.User). (inr row, s)) m);
          identity = sym i;
          not_suspended = f;
        }
  ]

  resolve_user-next : resolve_user faults id now t1 t2 t3 u ≡ (next v, after) → Admitted u v after
  unfolding resolve_user
  resolve_user-next k = elim (Bool-cases (u.sub == "")) [
    | inl t ↦ absurd (ground (arith, k, t))
    | inr f ↦
        resolved-next (resolve_or_create_user faults id now u t1 t2 t3)
          (λ r e. resolve_or_create_user-find_sub faults id now u t1 t2 t3 after r e) (rw f at k)
  ]

module _ (v : Auth.User) (after : List Domain.User) where
  then_with-next :
      (middleware : Auth.User → Reply) (reply : Reply × List Domain.User)
      → then_with middleware reply ≡ (next v, after)
      → (w : Auth.User) × (reply ≡ (next w, after)) × (middleware w ≡ next v)
  unfolding then_with
  then_with-next middleware (stop e, users) k = absurd (cc)
  then_with-next middleware (next w, users) k =
      let m : users ≡ after = cc in
      (
        w,
        ap (λ (s : List Domain.User). (next w, s)) m,
        ap (λ (p : Reply × List Domain.User). p.0) k,
      )

  then_resolve-next :
      (middleware : Auth.User → Reply × List Domain.User) (reply : Reply) (users : List Domain.User)
      → then_resolve middleware reply users ≡ (next v, after)
      → (u : Auth.User) × (reply ≡ next u) × (middleware u ≡ (next v, after))
  unfolding then_resolve
  then_resolve-next middleware (stop e) users k = absurd (cc)
  then_resolve-next middleware (next u) users k = (u, refl, k)

require_complete_profile-next :
    (w v : Auth.User) → require_complete_profile w ≡ next v → (w ≡ v) × (w.pending ≡ false)
unfolding require_complete_profile
require_complete_profile-next w v k = elim (Bool-cases w.pending) [
  | inl t ↦ absurd (ground (arith, k, t))
  | inr f ↦ (ground (arith, k, f), f)
]

-- The first read finds a suspended account's row.
resolve_user-suspended :
    (faults : Faults) (id : Uuid) (now : Instant) (users t2 t3 : List Domain.User) (u : Auth.User)
    (row : Domain.User)
    → (u.sub == "") ≡ false
    → faults.read ≡ false
    → find_sub u.sub users ≡ some row
    → (row.status == status_suspended) ≡ true
    → resolve_user faults id now users t2 t3 u ≡ (stop account_suspended, users)
unfolding resolve_user resolve_or_create_user get_by_sub found after_read resolved
resolve_user-suspended faults id now users t2 t3 u row named ok own suspended =
    rw (named, ok, own) (rw suspended refl)

module _ (parse_uuid : String → Option Uuid) (verifier : Option (String → Option Claims))
    (faults : Faults) (id : Uuid) (now : Instant) (t1 t2 t3 : List Domain.User)
    (current : Auth.User) (header : String) where
  -- Where a user repository is wired, a handler behind the protected chain runs only for an account whose
  -- row in the users table, as the request last saw or left it, is neither suspended nor pending; the
  -- handler's identity has the row's identifier, email and name, and the subject and roles that the session or
  -- the verified token gave.
  pub protected-Admitted :
      (v : Auth.User) (after : List Domain.User)
      → protected parse_uuid verifier faults id now t1 t2 t3 true current header ≡ (next v, after)
      → (u : Auth.User) × (huma_auth parse_uuid verifier current header ≡ next u)
        × Admitted u v after
        × (v.pending ≡ false)
  unfolding protected
  protected-Admitted v after k =
      let (w, through, gate) = then_with-next v after require_complete_profile _ k in
      let (u, known, row) = then_resolve-next w after _ _ t1 through in
      let (same, complete) = require_complete_profile-next w v gate in
      (
        u,
        known,
        subst (λ (x : Auth.User). Admitted u x after) same
            (resolve_user-next faults id now t1 t2 t3 after u w row),
        ap (λ (x : Auth.User). x.pending) (sym same) ∙ complete,
      )

  -- A suspended account is locked out: if the first read finds the caller's row and its status is
  -- suspended, then every chain, the one for unfinished profiles and the one that
  -- admits anonymous callers included, answers 403 account_suspended, and the users table stays as it was.
  pub suspended-stop :
      (u : Auth.User) (row : Domain.User)
      → huma_auth parse_uuid verifier current header ≡ next u
      → huma_optional_auth parse_uuid verifier current header ≡ next u
      → (u.sub == "") ≡ false
      → faults.read ≡ false
      → find_sub u.sub t1 ≡ some row
      → row.status ≡ status_suspended
      → (protected parse_uuid verifier faults id now t1 t2 t3 true current header
          ≡ (stop account_suspended, t1))
        × (optional parse_uuid verifier faults id now t1 t2 t3 true current header
            ≡ (stop account_suspended, t1))
        × (setup_allowed parse_uuid verifier faults id now t1 t2 t3 true current header
            ≡ (stop account_suspended, t1))
  unfolding protected optional setup_allowed then_resolve then_with optional_resolve_user
  suspended-stop u row known known' named ok own suspended =
      let s : (row.status == status_suspended) ≡ true =
        ap (λ (x : String). x == status_suspended) suspended in
      let blocked = resolve_user-suspended faults id now t1 t2 t3 u row named ok own s in
      (rw known (rw blocked refl), rw known' (rw named (rw blocked refl)), rw known blocked)

-- A row whose account is active is let through.
pub resolve_user-active :
    (faults : Faults) (id : Uuid) (now : Instant) (users t2 t3 : List Domain.User) (u : Auth.User)
    (row : Domain.User)
    → (u.sub == "") ≡ false
    → faults.read ≡ false
    → find_sub u.sub users ≡ some row
    → (row.status == status_suspended) ≡ false
    → resolve_user faults id now users t2 t3 u ≡ (next (merged u row), users)
unfolding resolve_user resolve_or_create_user get_by_sub found after_read resolved
resolve_user-active faults id now users t2 t3 u row named ok own live =
    rw (named, ok, own) (rw live refl)
