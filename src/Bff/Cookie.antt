-- ===== src/Bff/Cookie.antt =====
-- The session cookie and the state cookie (internal/auth/bff/cookie.go, state.go).
--
-- A cookie's maximal age is a whole number of seconds, of which -1 makes the browser drop the cookie.
pub mod Laws
mod Examples
use minerals.Base.{
  ℕ, zero, suc, ◌+◌, ◌-◌, ◌*◌, ◌/◌, ◌%◌, ◌^◌, ◌≤◌, ◌<◌, min, String, ◌==◌, Bool, true, false, not,
  ◌&&◌, ◌||◌, Option, none, some, List, [], ◌∷◌, ◌++◌, map, ltb, leb, eqb, if◌then◌else◌, ◌≡◌, ◌≢◌,
  ◌↔◌, ◌⊎◌, refl, sym, ap, ◌∙◌, arith, eq_iff, eq_refl, trim_space, split_on, contains, Bool-cases,
  Option-cases, inl, inr, length, take, drop, any, all, All, All-append, All-of, length-append,
  length-take, length-drop, take-append-drop, take-append_left, drop-append_left, Bytes, codes,
  bytes_eq, has_prefix, be16, be32, le32, put_be16, put_le32, lt→ltb, ltb→lt, leb→le, eqb_iff, itoa,
  read_number, read_number-itoa, itoa_injective, minus-itoa,
}
use minerals.Bff.State.{ℤ, pos, negsuc, Crypto}

pub data SameSite : Type 0 where
  lax strict : SameSite

pub record Cookie : Type 0 where
  pub name : String
  pub value : Bytes
  pub path : String
  pub http_only : Bool
  pub secure : Bool
  pub same_site : SameSite
  pub max_age : ℤ

pub record CookieConfig : Type 0 where
  pub path : String
  pub secure : Bool
  pub same_site : SameSite
  -- nanoseconds
  pub max_age : ℕ

abbrev pub session_cookie_name : String
session_cookie_name = "minerals_session"

abbrev pub state_cookie_name : String
state_cookie_name = "minerals_oauth_state"

abbrev pub seconds : ℕ → ℤ
seconds duration = pos (duration / 1_000_000_000)

-- Five minutes.
abbrev pub state_ttl : ℕ
state_ttl = 300_000_000_000

-- A panic is `none`.
unfoldable pub must_path : String → Option String
must_path p = if p == "" then none else some p

unfoldable pub clear_session_cookie : CookieConfig → Option Cookie
clear_session_cookie cfg = elim (must_path cfg.path) [
  | none ↦ none
  | some path ↦ some (record {
    name = session_cookie_name;
    value = [];
    path = path;
    http_only = true;
    secure = cfg.secure;
    same_site = cfg.same_site;
    max_age = negsuc 0;
  })
]

unfoldable pub set_state_cookie : Bytes → Bool → Cookie
set_state_cookie value secure = record {
  name = state_cookie_name;
  value = value;
  path = "/auth";
  http_only = true;
  secure = secure;
  same_site = lax;
  max_age = seconds state_ttl;
}

unfoldable pub clear_state_cookie : Bool → Cookie
clear_state_cookie secure = record {
  name = state_cookie_name;
  value = [];
  path = "/auth";
  http_only = true;
  secure = secure;
  same_site = lax;
  max_age = negsuc 0;
}

module _ (crypto : Crypto) where
  unfoldable pub set_session_cookie : CookieConfig → Bytes → Option Cookie
  set_session_cookie cfg id = elim (must_path cfg.path) [
    | none ↦ none
    | some path ↦ some (record {
      name = session_cookie_name;
      value = crypto.encode id;
      path = path;
      http_only = true;
      secure = cfg.secure;
      same_site = cfg.same_site;
      max_age = seconds cfg.max_age;
    })
  ]
