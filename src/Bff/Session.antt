-- ===== src/Bff/Session.antt =====
-- The session middleware (internal/auth/bff/middleware.go, session.go).
--
-- The session store, the identity provider and the users table are other systems: `World` is their
-- state, and `Services` what can be asked of them. Errors that the middleware only logs or ignores
-- (of Revoke and Touch) do not show. An instant is a number of nanoseconds, and `now.After(t.Add(-d))`
-- is read as t < now + d. The middleware reads the clock at its start (`now`) and, under the lock of a
-- refresh, once more (`later`). The lock makes a refresh one step; `others` is what other requests do to
-- the world while this one waits for it.
pub mod Laws
pub mod Refresh
pub mod Examples
use minerals.Base.{
  ℕ, zero, suc, ◌+◌, ◌-◌, ◌*◌, ◌/◌, ◌%◌, ◌^◌, ◌≤◌, ◌<◌, min, String, ◌==◌, Bool, true, false, not,
  ◌&&◌, ◌||◌, Option, none, some, List, [], ◌∷◌, ◌++◌, map, ltb, leb, eqb, if◌then◌else◌, ◌≡◌, ◌≢◌,
  ◌↔◌, ◌⊎◌, refl, sym, ap, ◌∙◌, arith, eq_iff, eq_refl, trim_space, split_on, contains, Bool-cases,
  Option-cases, inl, inr, length, take, drop, any, all, All, All-append, All-of, length-append,
  length-take, length-drop, take-append-drop, take-append_left, drop-append_left, Bytes, codes,
  bytes_eq, has_prefix, be16, be32, le32, put_be16, put_le32, lt→ltb, ltb→lt, leb→le, eqb_iff, itoa,
  read_number, read_number-itoa, itoa_injective, minus-itoa,
}
use minerals.Uuid.{Uuid}
use minerals.Auth
use minerals.Domain
use minerals.Domain.{Instant}

pub record Session : Type 0 where
  pub id : Bytes
  pub user_sub : String
  pub user_id : Uuid
  pub access_token : String
  pub refresh_token : String
  pub id_token : String
  pub access_token_expires_at : Instant
  pub refresh_token_expires_at : Instant
  pub created_at : Instant
  pub last_used_at : Instant
  pub absolute_expires_at : Instant
  pub csrf_token : Bytes
  -- an address, which the program only passes on, as text
  pub ip : String
  pub user_agent : String
  pub revoked_at : Option Instant

pub record TokenSet : Type 0 where
  pub access_token : String
  pub refresh_token : String
  pub id_token : String
  pub access_token_expires_at : Instant
  pub refresh_token_expires_at : Instant

-- What `GetByID` says: a row, `ErrSessionNotFound`, or another error.
pub data Lookup : Type 0 where
  found : Session → Lookup
  not_found failed : Lookup

pub record Services (World : Type 0) : Type 1 where
  pub get : World → Bytes → Lookup
  pub revoke : World → Bytes → World
  pub touch : World → Bytes → Instant → World
  pub update_tokens : World → Bytes → TokenSet → Option Session × World
  -- `OAuth.Refresh`
  pub refresh : World → String → Option TokenSet × World
  pub user : World → Uuid → Option Domain.User
  -- base64.RawURLEncoding
  pub decode : Bytes → Option Bytes

pub record Config : Type 0 where
  pub idle_timeout : ℕ
  pub refresh_leeway : ℕ
  pub touch_interval : ℕ

abbrev pub default_refresh_leeway : ℕ
default_refresh_leeway = 30_000_000_000

abbrev pub default_touch_interval : ℕ
default_touch_interval = 30_000_000_000

-- The checks of `SessionMiddleware` on its settings; a panic is `none`.
unfoldable pub new_config :
    (idle_timeout refresh_leeway touch_interval : ℕ) (path : String) → Option Config
new_config idle_timeout refresh_leeway touch_interval path =
    if eqb idle_timeout 0 || path == ""
    then none
    else some (record {
      idle_timeout = idle_timeout;
      refresh_leeway = if eqb refresh_leeway 0 then default_refresh_leeway else refresh_leeway;
      touch_interval = if eqb touch_interval 0 then default_touch_interval else touch_interval;
    })

-- What becomes of a request: the next handler runs, with no user or with a user and its session; or
-- the middleware answers 500; or it returns with neither (it has cleared the cookie).
pub data Outcome : Type 0 where
  anonymous : (cleared : Bool) → Outcome
  attached : Auth.User → Session → Outcome
  internal_error : String → Outcome
  unanswered : Outcome

unfoldable pub session_live : Session → Instant → ℕ → Bool
session_live s now idle_timeout = elim s.revoked_at [
  | some t ↦ false
  | none ↦
      if ltb s.absolute_expires_at now
      then false
      else if ltb (s.last_used_at + idle_timeout) now
      then false
      else true
]

-- The access token is about to expire.
abbrev pub is_due : Session → ℕ → Instant → Bool
is_due s leeway now = ltb s.access_token_expires_at (now + leeway)

abbrev pub auth_user : Domain.User → Session → Auth.User
auth_user row s = record {
  id = row.id;
  sub = s.user_sub;
  email = row.email;
  display_name = row.display_name;
  pending = row.status == "pending";
  roles = [];
}

module _ {World : Type 0} (services : Services World) (config : Config) where
  open services use {get, revoke, touch, update_tokens, refresh, user, decode}
  open config use {idle_timeout, refresh_leeway, touch_interval}

  abbrev pub keep_updated : Session → Option Session × World → (Outcome ⊎ Session) × World
  keep_updated fresh (none, w) = (inl (internal_error "session refresh failed"), revoke w fresh.id)
  keep_updated fresh (some s, w) = (inr s, w)

  -- After the identity provider's reply.
  unfoldable pub persist : Session → Option TokenSet × World → (Outcome ⊎ Session) × World
  persist fresh (none, w) = (inl unanswered, revoke w fresh.id)
  persist fresh (some tokens, w) = keep_updated fresh (update_tokens w fresh.id tokens)

  unfoldable pub refresh_session : World → Session → Instant → (Outcome ⊎ Session) × World
  refresh_session w sess later = elim (get w sess.id) [
    | not_found ↦ (inl unanswered, w)
    | failed ↦ (inl (internal_error "session lookup failed"), w)
    | found fresh ↦
        if is_due fresh refresh_leeway later
        then persist fresh (refresh w fresh.refresh_token)
        else (inr fresh, w)
  ]

  -- The session's last use is written once per interval.
  unfoldable pub touched : World → Session → Instant → World
  touched w sess now =
      if ltb (sess.last_used_at + touch_interval) now then touch w sess.id now else w

  abbrev pub attach_row : World → Session → Option Domain.User → Outcome × World
  attach_row w sess none = (internal_error "user lookup failed", w)
  attach_row w sess (some row) = (attached (auth_user row sess) sess, w)

  -- The rest of the handler, once the session is current.
  unfoldable pub attach : World → Session → Instant → Outcome × World
  attach w sess now = let w' = touched w sess now in attach_row w' sess (user w' sess.user_id)

  unfoldable pub attach_refreshed : Instant → (Outcome ⊎ Session) × World → Outcome × World
  attach_refreshed now (inl o, w) = (o, w)
  attach_refreshed now (inr s, w) = attach w s now

  unfoldable pub resolve : (World → World) → World → Bytes → Instant → Instant → Outcome × World
  resolve others w id now later = elim (get w id) [
    | not_found ↦ (anonymous true, w)
    | failed ↦ (internal_error "session lookup failed", w)
    | found sess ↦
        if not (session_live sess now idle_timeout)
        then (anonymous true, revoke w sess.id)
        else if is_due sess refresh_leeway now
        then attach_refreshed now (refresh_session (others w) sess later)
        else attach w sess now
  ]

  -- The bytes of a cookie's value, if they are the 32 of an id.
  unfoldable pub session_id : Bytes → Option Bytes
  session_id value = elim (decode value) [
    | none ↦ none
    | some raw ↦ if eqb (length raw) 32 then some raw else none
  ]

  -- The handler, of a request with or without a session cookie.
  unfoldable pub handle_session :
      (World → World) → World → Option Bytes → Instant → Instant → Outcome × World
  handle_session others w none now later = (anonymous false, w)
  handle_session others w (some value) now later = elim (session_id value) [
    | none ↦ (anonymous true, w)
    | some id ↦ resolve others w id now later
  ]
