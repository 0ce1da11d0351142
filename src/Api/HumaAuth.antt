-- ===== src/Api/HumaAuth.antt =====
-- The middlewares in front of the handlers: authentication, the caller's row in the users table, and
-- the gates for suspended and unfinished accounts (internal/api/huma_auth.go).
--
-- A middleware passes an identity on or answers with an error. Other requests may write the users
-- table between two queries of one request, so the queries have their own tables: `t1` at the first
-- read, `t2` at the insert, `t3` at the second read.
pub mod Resolve
pub mod Laws
pub mod FirstLogin
mod Examples
use minerals.Base.{
  ℕ, zero, suc, ◌+◌, ◌-◌, ◌*◌, ◌/◌, ◌%◌, ◌^◌, ◌≤◌, ◌<◌, min, String, ◌==◌, Bool, true, false, not,
  ◌&&◌, ◌||◌, Option, none, some, List, [], ◌∷◌, ◌++◌, map, ltb, leb, eqb, if◌then◌else◌, ◌≡◌, ◌≢◌,
  ◌↔◌, ◌⊎◌, refl, sym, ap, ◌∙◌, arith, eq_iff, eq_refl, trim_space, split_on, contains, Bool-cases,
  Option-cases, inl, inr, length, take, drop, any, all, All, All-append, All-of, length-append,
  length-take, length-drop, take-append-drop, take-append_left, drop-append_left, Bytes, codes,
  bytes_eq, has_prefix, be16, be32, le32, put_be16, put_le32, lt→ltb, ltb→lt, leb→le, eqb_iff, itoa,
  read_number, read_number-itoa, itoa_injective, minus-itoa,
}
use minerals.Uuid.{Uuid}
use minerals.Domain
use minerals.Domain.{Instant, status_pending, status_suspended}
use minerals.Auth
use minerals.Auth.{Claims, stub_user, bearer_token, user_from_claims}
use minerals.Users.{RepoError, not_found, conflict, failed, get_by_sub, create}
use minerals.Api.Guard.{ApiError, api_error}

pub data Reply : Type 0 where
  next : Auth.User → Reply
  stop : ApiError → Reply

-- Which queries of a request fail.
pub record Faults : Type 0 where
  pub read : Bool
  pub insert : Bool
  pub reread : Bool

abbrev pub no_faults : Faults
no_faults = record { read = false; insert = false; reread = false }

abbrev pub required : ApiError
required = api_error 401 "unauthorized" "authentication required"

abbrev pub invalid_token : ApiError
invalid_token = api_error 401 "unauthorized" "invalid or expired token"

abbrev pub resolve_failed : ApiError
resolve_failed = api_error 500 "internal_error" "failed to resolve user"

abbrev pub account_suspended : ApiError
account_suspended = api_error 403 "account_suspended" "this account has been suspended"

abbrev pub setup_required : ApiError
setup_required = api_error 403 "profile_setup_required" "profile setup required"

-- The row of a first login.
unfoldable pub fresh_user : Uuid → Instant → Auth.User → Domain.User
fresh_user id now u = record Domain.zero_user {
  id = id;
  keycloak_sub = u.sub;
  email = u.email;
  status = status_pending;
  created_at = now;
  updated_at = now;
}

-- What follows the insert, given what it answered.
unfoldable pub after_create :
    Bool
    → Domain.User
    → RepoError ⊎ List Domain.User
    → List Domain.User
    → List Domain.User
    → (RepoError ⊎ Domain.User) × List Domain.User
after_create fault row (inr after) t2 t3 = (inr row, after)
after_create fault row (inl conflict) t2 t3 = (get_by_sub fault row.keycloak_sub t3, t3)
after_create fault row (inl not_found) t2 t3 = (inl not_found, t2)
after_create fault row (inl failed) t2 t3 = (inl failed, t2)

-- What follows the first read, given what it answered.
unfoldable pub after_read :
    Faults
    → Domain.User
    → RepoError ⊎ Domain.User
    → List Domain.User
    → List Domain.User
    → List Domain.User
    → (RepoError ⊎ Domain.User) × List Domain.User
after_read faults row (inr found) t1 t2 t3 = (inr found, t1)
after_read faults row (inl not_found) t1 t2 t3 =
    after_create faults.reread row (create faults.insert row t2) t2 t3
after_read faults row (inl conflict) t1 t2 t3 = (inl conflict, t1)
after_read faults row (inl failed) t1 t2 t3 = (inl failed, t1)

-- `resolveOrCreateUser`: the answer, and the table as the request last saw or left it.
unfoldable pub resolve_or_create_user :
    Faults
    → Uuid
    → Instant
    → Auth.User
    → List Domain.User
    → List Domain.User
    → List Domain.User
    → (RepoError ⊎ Domain.User) × List Domain.User
resolve_or_create_user faults id now u t1 t2 t3 =
    after_read faults (fresh_user id now u) (get_by_sub faults.read u.sub t1) t1 t2 t3

-- The identity with the row's values.
unfoldable pub merged : Auth.User → Domain.User → Auth.User
merged u row = record u {
  id = row.id;
  email = row.email;
  display_name = row.display_name;
  pending = row.status == status_pending;
}

unfoldable pub resolved :
    Auth.User → (RepoError ⊎ Domain.User) × List Domain.User → Reply × List Domain.User
resolved u (inl e, users) = (stop resolve_failed, users)
resolved u (inr row, users) =
    (if row.status == status_suspended then stop account_suspended else next (merged u row), users)

-- `makeResolveUserMiddleware`
unfoldable pub resolve_user :
    Faults
    → Uuid
    → Instant
    → List Domain.User
    → List Domain.User
    → List Domain.User
    → Auth.User
    → Reply × List Domain.User
resolve_user faults id now t1 t2 t3 u =
    if u.sub == ""
    then (stop required, t1)
    else resolved u (resolve_or_create_user faults id now u t1 t2 t3)

unfoldable pub optional_resolve_user :
    Faults
    → Uuid
    → Instant
    → List Domain.User
    → List Domain.User
    → List Domain.User
    → Auth.User
    → Reply × List Domain.User
optional_resolve_user faults id now t1 t2 t3 u =
    if u.sub == "" then (next u, t1) else resolve_user faults id now t1 t2 t3 u

unfoldable pub require_complete_profile : Auth.User → Reply
require_complete_profile u = if u.pending then stop setup_required else next u

unfoldable pub optional_require_complete_profile : Auth.User → Reply
optional_require_complete_profile u = if u.sub == "" then next u else require_complete_profile u

-- A middleware behind another one.
unfoldable pub then_with : (Auth.User → Reply) → Reply × List Domain.User → Reply × List Domain.User
then_with middleware (stop e, users) = (stop e, users)
then_with middleware (next u, users) = (middleware u, users)

unfoldable pub then_resolve :
    (Auth.User → Reply × List Domain.User) → Reply → List Domain.User → Reply × List Domain.User
then_resolve middleware (stop e) users = (stop e, users)
then_resolve middleware (next u) users = middleware u

module _ (parse_uuid : String → Option Uuid) where
  -- The answer to a presented token.
  unfoldable pub token_reply : Option Claims → Reply
  token_reply none = stop invalid_token
  token_reply (some claims) = next (user_from_claims parse_uuid claims)

  -- `makeHumaAuth`; `current` is the identity that the session middleware attached, if any.
  unfoldable pub huma_auth : Option (String → Option Claims) → Auth.User → String → Reply
  huma_auth verifier current header =
      if not (current.sub == "") then next current else elim verifier [
        | none ↦ next stub_user
        | some verify ↦ elim (bearer_token header) [
          | none ↦ stop required
          | some tok ↦ token_reply (verify tok)
        ]
      ]

  unfoldable pub huma_optional_auth : Option (String → Option Claims) → Auth.User → String → Reply
  huma_optional_auth verifier current header =
      if not (current.sub == "") then next current else elim verifier [
        | none ↦ next stub_user
        | some verify ↦ elim (bearer_token header) [
          | none ↦ next current
          | some tok ↦ token_reply (verify tok)
        ]
      ]

  module _ (verifier : Option (String → Option Claims)) (faults : Faults) (id : Uuid)
      (now : Instant) (t1 t2 t3 : List Domain.User) where
    -- `Protected`; `wired` tells whether there is a user repository.
    unfoldable pub protected : Bool → Auth.User → String → Reply × List Domain.User
    protected wired current header =
        let reply = huma_auth verifier current header in
        if wired
        then then_with require_complete_profile
            (then_resolve (resolve_user faults id now t1 t2 t3) reply t1)
        else (reply, t1)

    -- `Optional`
    unfoldable pub optional : Bool → Auth.User → String → Reply × List Domain.User
    optional wired current header =
        let reply = huma_optional_auth verifier current header in
        if wired
        then then_with optional_require_complete_profile
            (then_resolve (optional_resolve_user faults id now t1 t2 t3) reply t1)
        else (reply, t1)

    -- `SetupAllowed`
    unfoldable pub setup_allowed : Bool → Auth.User → String → Reply × List Domain.User
    setup_allowed wired current header =
        let reply = huma_auth verifier current header in
        if wired then then_resolve (resolve_user faults id now t1 t2 t3) reply t1 else (reply, t1)
