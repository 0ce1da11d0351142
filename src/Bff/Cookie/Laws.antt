-- ===== src/Bff/Cookie/Laws.antt =====
-- The cookies that the session layer sets, clears and reads back (cookie.go, state.go, middleware.go).
use minerals.Base.{
  String, ◌==◌, Bool, true, false, Option, none, some, [], ◌≡◌, ◌≢◌, refl, sym, ap, ◌∙◌, arith,
  eq_iff, Option-cases, inl, inr, length, Bytes,
}
use minerals.Bff.State.{ℤ, negsuc, Crypto, IsBytes}
use minerals.Bff.Session.{Services, Config, session_id}
use minerals.Bff.Cookie.{
  session_cookie_name, seconds, Cookie, CookieConfig, must_path, set_session_cookie,
  clear_session_cookie, set_state_cookie, clear_state_cookie,
}

-- A browser takes `b` for the cookie `a`, and drops it.
pub record Clears (a b : Cookie) : Type 0 where
  pub name : a.name ≡ b.name
  pub path : a.path ≡ b.path
  pub secure : a.secure ≡ b.secure
  pub same_site : a.same_site ≡ b.same_site
  pub dropped : b.max_age ≡ negsuc 0

-- A cookie under the settings, with the value and the age.
abbrev cookie_of : CookieConfig → Bytes → ℤ → Cookie
cookie_of cfg value max_age = record {
  name = session_cookie_name;
  value = value;
  path = cfg.path;
  http_only = true;
  secure = cfg.secure;
  same_site = cfg.same_site;
  max_age = max_age;
}

must_path-some : (p : String) → p ≢ "" → must_path p ≡ some p
unfolding must_path
must_path-some p h = let e : (p == "") ≡ false = ground (arith, eq_iff p "", h) in rw e refl

abbrev value_of : Option Cookie → Bytes
value_of none = []
value_of (some c) = c.value

-- Logging out clears the very cookie that the login has set: under settings with a path, both cookies
-- exist, have the same name, path and attributes, and the second one has expired.
pub clear_session_cookie-Clears :
    (crypto : Crypto) (cfg : CookieConfig) (id : Bytes)
    → cfg.path ≢ ""
    → (a : Cookie) × (b : Cookie) × (set_session_cookie crypto cfg id ≡ some a)
      × (clear_session_cookie cfg ≡ some b)
      × Clears a b
unfolding set_session_cookie clear_session_cookie
clear_session_cookie-Clears crypto cfg id h = (
  cookie_of cfg (crypto.encode id) (seconds cfg.max_age),
  cookie_of cfg [] (negsuc 0),
  rw (must_path-some cfg.path h, set_session_cookie) refl,
  rw (must_path-some cfg.path h, clear_session_cookie) refl,
  record { name = refl; path = refl; secure = refl; same_site = refl; dropped = refl },
)

-- Clearing the state cookie of a login drops the very cookie that was set for it, whatever its value.
pub clear_state_cookie-Clears :
    (value : Bytes) (secure : Bool)
    → Clears (set_state_cookie value secure) (clear_state_cookie secure)
unfolding set_state_cookie clear_state_cookie
clear_state_cookie-Clears value secure = record {
  name = refl;
  path = refl;
  secure = refl;
  same_site = refl;
  dropped = refl;
}

-- The middleware reads back the id that was put in the cookie: if its decoder is that of the encoder
-- that set the cookie, an id of 32 bytes comes back from the cookie's value.
pub session_id-set_session_cookie :
    {World : Type 0} (crypto : Crypto) (services : Services World) (config : Config)
    (cfg : CookieConfig) (id : Bytes) (c : Cookie)
    → ((b : Bytes) → services.decode b ≡ crypto.decode b)
    → IsBytes id
    → length id ≡ 32
    → set_session_cookie crypto cfg id ≡ some c
    → session_id services config c.value ≡ some id
unfolding set_session_cookie session_id
session_id-set_session_cookie crypto services config cfg id c same h n set =
    let v : c.value ≡ crypto.encode id = elim (Option-cases (must_path cfg.path)) [
      | inl bad ↦ absurd (ground (arith, bad, set))
      | inr (path, good) ↦ sym (ap value_of (rw (good, set_session_cookie) at set))
    ] in
    let d : services.decode c.value ≡ some id =
      ap services.decode v ∙ same (crypto.encode id) ∙ crypto.decode-encode id h in
    ground (arith, d, n)
