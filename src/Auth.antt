-- ===== src/Auth.antt =====
-- The identity of a request and the bearer middlewares (internal/auth/auth.go, internal/oidc/claims.go).
--
-- The token verifier (go-oidc over the realm's keys) and uuid.Parse are parameters; no verifier is the
-- test path, in which every request is the stub user.
pub mod Laws
mod Examples
use Prim.Native.Char.{Char, code}
use Prim.Native.String
use minerals.Base.{
  ℕ, zero, suc, ◌+◌, ◌-◌, ◌*◌, ◌/◌, ◌%◌, ◌^◌, ◌≤◌, ◌<◌, min, String, ◌==◌, Bool, true, false, not,
  ◌&&◌, ◌||◌, Option, none, some, List, [], ◌∷◌, ◌++◌, map, ltb, leb, eqb, if◌then◌else◌, ◌≡◌, ◌≢◌,
  ◌↔◌, ◌⊎◌, refl, sym, ap, ◌∙◌, arith, eq_iff, eq_refl, trim_space, split_on, contains, Bool-cases,
  Option-cases, inl, inr, length, take, drop, any, all, All, All-append, All-of, length-append,
  length-take, length-drop, take-append-drop, take-append_left, drop-append_left, Bytes, codes,
  bytes_eq, has_prefix, be16, be32, le32, put_be16, put_le32, lt→ltb, ltb→lt, leb→le, eqb_iff, itoa,
  read_number, read_number-itoa, itoa_injective, minus-itoa,
}
use minerals.Uuid.{Uuid, nil_uuid}

pub record User : Type 0 where
  pub id : Uuid
  pub sub : String
  pub email : String
  pub display_name : Option String
  pub pending : Bool
  pub roles : List String

-- The zero value, which `FromContext` returns for a request with no identity.
abbrev pub anonymous : User
anonymous = record {
  id = nil_uuid;
  sub = "";
  email = "";
  display_name = none;
  pending = false;
  roles = [];
}

pub record Claims : Type 0 where
  pub subject : String
  pub email : String
  pub roles : List String

abbrev pub stub_user : User
stub_user = record anonymous { id = 1; sub = "stub-overseer"; email = "overseer@minerals.local" }

-- `strings.EqualFold` of a character and one of the lower-case letters and the blank of "bearer ".
equal_fold : ℕ → ℕ → Bool
equal_fold c l = eqb c l || (leb 65 c && leb c 90 && eqb (c + 32) l)

-- What follows a prefix, if it matches without regard to case.
unfoldable pub after_prefix : String → String → Option String
unfolding equal_fold
after_prefix String.[] s = some s
after_prefix (String.◌∷◌ p ps) String.[] = none
after_prefix (String.◌∷◌ p ps) (String.◌∷◌ c s) =
    let rest = after_prefix ps s in if equal_fold (code c) (code p) then rest else none

unfoldable pub bearer_token : String → Option String
bearer_token header = elim (after_prefix "bearer " header) [
  | none ↦ none
  | some rest ↦ let tok = trim_space rest in if tok == "" then none else some tok
]

-- What becomes of a request: the next handler runs with the identity, or the answer is 401.
pub data Outcome : Type 0 where
  served : User → Outcome
  unauthorized : Outcome

module _ (parse_uuid : String → Option Uuid) where
  unfoldable pub user_from_claims : Claims → User
  user_from_claims c =
      let u = record anonymous { sub = c.subject; email = c.email; roles = c.roles } in
      elim (parse_uuid c.subject) [ none ↦ u | some id ↦ record u { id = id } ]

  -- `v.Verify` and what follows it.
  unfoldable pub verified : (String → Option Claims) → String → Outcome
  verified verify tok = elim (verify tok) [
    | none ↦ unauthorized
    | some claims ↦ served (user_from_claims claims)
  ]

  unfoldable pub auth : Option (String → Option Claims) → String → Outcome
  auth none header = served stub_user
  auth (some verify) header = elim (bearer_token header) [
    | none ↦ unauthorized
    | some tok ↦ verified verify tok
  ]

  -- `current` is the identity that the request has already, if any.
  unfoldable pub optional_auth : Option (String → Option Claims) → User → String → Outcome
  optional_auth none current header = served stub_user
  optional_auth (some verify) current header = elim (bearer_token header) [
    | none ↦ served current
    | some tok ↦ verified verify tok
  ]

-- Does the next handler run?
unfoldable pub require_user : User → Bool
require_user u = not (eqb u.id nil_uuid && u.sub == "")
