-- ===== src/Bff/Cookie/Examples.antt =====
-- The cookies of a login.
use minerals.Base.{true, none, some, [], ◌∷◌, ◌≡◌, ◌≢◌, refl}
use minerals.Bff.State.Examples.{toy}
use minerals.Bff.Session.{Services}
use minerals.Bff.Session.Examples.{services, name, Store}
use minerals.Bff.Cookie.{
  Cookie, CookieConfig, lax, session_cookie_name, seconds, must_path, set_session_cookie,
  set_state_cookie, clear_state_cookie,
}
use minerals.Bff.Cookie.Laws.{Clears, clear_state_cookie-Clears}

abbrev cfg : CookieConfig
cfg = record { path = "/"; secure = true; same_site = lax; max_age = 60_000_000_000 }

path_given : cfg.path ≢ ""
path_given e = cc

clear_state_cookie-Clears_example :
    Clears (set_state_cookie (1 ∷ []) true) (clear_state_cookie true)
clear_state_cookie-Clears_example = clear_state_cookie-Clears (1 ∷ []) true

abbrev store : Services Store
store = record (services none) { decode = toy.decode }

abbrev cookie : Cookie
cookie = record {
  name = session_cookie_name;
  value = toy.encode name;
  path = "/";
  http_only = true;
  secure = true;
  same_site = lax;
  max_age = seconds 60_000_000_000;
}

cookie_set : set_session_cookie toy cfg name ≡ some cookie
unfolding set_session_cookie must_path
cookie_set = refl
