-- ===== src/Bff/Csrf.antt =====
-- The CSRF check (internal/auth/bff/csrf.go). The session is the one that the session middleware has
-- attached, if any; a header that is absent is empty.
pub mod Laws
mod Examples
use minerals.Base.{
  ℕ, zero, suc, ◌+◌, ◌-◌, ◌*◌, ◌/◌, ◌%◌, ◌^◌, ◌≤◌, ◌<◌, min, String, ◌==◌, Bool, true, false, not,
  ◌&&◌, ◌||◌, Option, none, some, List, [], ◌∷◌, ◌++◌, map, ltb, leb, eqb, if◌then◌else◌, ◌≡◌, ◌≢◌,
  ◌↔◌, ◌⊎◌, refl, sym, ap, ◌∙◌, arith, eq_iff, eq_refl, trim_space, split_on, contains, Bool-cases,
  Option-cases, inl, inr, length, take, drop, any, all, All, All-append, All-of, length-append,
  length-take, length-drop, take-append-drop, take-append_left, drop-append_left, Bytes, codes,
  bytes_eq, has_prefix, be16, be32, le32, put_be16, put_le32, lt→ltb, ltb→lt, leb→le, eqb_iff, itoa,
  read_number, read_number-itoa, itoa_injective, minus-itoa,
}
use minerals.Bff.State.{Crypto}
use minerals.Bff.Session.{Session}

pub data CsrfError : Type 0 where
  -- 403, 403 and 401
  csrf_missing csrf_mismatch unauthorized : CsrfError

pub record Request : Type 0 where
  pub method : String
  -- X-CSRF-Token
  pub token : Bytes

unfoldable pub is_safe : String → Bool
is_safe method = method == "GET" || method == "HEAD" || method == "OPTIONS"

module _ (crypto : Crypto) where
  open crypto use {encode}

  -- `CSRFMiddleware`: `none` when the next handler runs.
  unfoldable pub check_csrf : Option Session → Request → Option CsrfError
  check_csrf none r = none
  check_csrf (some sess) r =
      if is_safe r.method
      then none
      else if bytes_eq r.token []
      then some csrf_missing
      else if bytes_eq r.token (encode sess.csrf_token)
      then none
      else some csrf_mismatch

  -- `CSRFHandler`: the token of the session.
  unfoldable pub csrf_handler : Option Session → CsrfError ⊎ Bytes
  csrf_handler none = inl unauthorized
  csrf_handler (some sess) = inr (encode sess.csrf_token)
