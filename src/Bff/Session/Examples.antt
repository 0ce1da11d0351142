-- ===== src/Bff/Session/Examples.antt =====
-- A store of one session, whose access token is due.
use minerals.Base.{
  true, Option, none, some, [], ◌∷◌, ◌++◌, if◌then◌else◌, ◌≡◌, refl, sym, ap, ◌∙◌, arith,
  Bool-cases, inl, inr, Bytes, bytes_eq,
}
use minerals.Auth
use minerals.Domain.{zero_user}
use minerals.Bff.State.Laws.{bytes_eq-eq}
use minerals.Bff.Session.{
  Session, TokenSet, Lookup, found, not_found, Services, Config, attached, unanswered, session_live,
  is_due, auth_user, persist, refresh_session, touched, attach, attach_refreshed, resolve,
  session_id, handle_session,
}
use minerals.Bff.Session.Laws.{
  IsCurrent, IsUserOf, handle_session-attached, handle_session-unanswered,
}
use minerals.Bff.Session.Refresh.{Stores, refresh_session-once}

abbrev pub Store : Type 0
Store = Option Session

abbrev get : Store → Bytes → Lookup
get none id = not_found
get (some s) id = if bytes_eq s.id id then found s else not_found

abbrev rotated : Session → TokenSet → Session
rotated s t = record s {
  access_token = t.access_token;
  refresh_token = t.refresh_token;
  id_token = t.id_token;
  access_token_expires_at = t.access_token_expires_at;
  refresh_token_expires_at = t.refresh_token_expires_at;
}

abbrev update_tokens : Store → Bytes → TokenSet → Option Session × Store
update_tokens none id t = (none, none)
update_tokens (some s) id t =
    if bytes_eq s.id id then (some (rotated s t), some (rotated s t)) else (none, some s)

abbrev pub new_tokens : TokenSet
new_tokens = record {
  access_token = "new";
  refresh_token = "next";
  id_token = "";
  access_token_expires_at = 500;
  refresh_token_expires_at = 900;
}

-- An identity provider that hands out the tokens it is given.
abbrev pub services : Option TokenSet → Services Store
services tokens = record {
  get = get;
  revoke = λ w id. none;
  touch = λ w id at. w;
  update_tokens = update_tokens;
  refresh = λ w token. (tokens, w);
  user = λ w id. some (record zero_user { id = id });
  decode = λ b. some b;
}

found_id : (w : Store) (id : Bytes) (s : Session) → get w id ≡ found s → s.id ≡ id
found_id none id s h = cc
found_id (some t) id s h = elim (Bool-cases (bytes_eq t.id id)) [
  | inr ne ↦ absurd (ground (arith, ne, h))
  | inl same ↦
      let e : t ≡ s = ground (arith, same, h) in
      sym (ap (λ (x : Session). x.id) e) ∙ bytes_eq-eq t.id id same
]

found_updated :
    (w w' : Store) (id : Bytes) (t : TokenSet) (s : Session)
    → update_tokens w id t ≡ (some s, w')
    → get w' id ≡ found s
found_updated none w' id t s h = cc
found_updated (some r) w' id t s h = elim (Bool-cases (bytes_eq r.id id)) [
  | inr ne ↦ absurd (ground (arith, ne, h))
  | inl same ↦ ground (arith, same, h)
]

abbrev stores : Stores (services (some new_tokens))
stores = record { found_id = found_id; found_updated = found_updated }

abbrev pub config : Config
config = record { idle_timeout = 100; refresh_leeway = 30; touch_interval = 30 }

abbrev eight : Bytes
eight = 1 ∷ 2 ∷ 3 ∷ 4 ∷ 5 ∷ 6 ∷ 7 ∷ 8 ∷ []

abbrev pub name : Bytes
name = eight ++ eight ++ eight ++ eight

abbrev pub session : Session
session = record {
  id = name;
  user_sub = "ann";
  user_id = 7;
  access_token = "old";
  refresh_token = "token";
  id_token = "";
  access_token_expires_at = 95;
  refresh_token_expires_at = 800;
  created_at = 0;
  last_used_at = 90;
  absolute_expires_at = 1000;
  csrf_token = name;
  ip = "";
  user_agent = "";
  revoked_at = none;
}

abbrev idle : Store → Store
idle w = w

abbrev ann : Auth.User
ann = auth_user (record zero_user { id = 7 }) session

let_in :
    (handle_session (services (some new_tokens)) config idle (some session) (some name) 100 101).0
    ≡ attached ann (rotated session new_tokens)
unfolding handle_session session_id resolve session_live refresh_session persist attach_refreshed
    attach touched
let_in = refl

handle_session-attached_example :
    (value : Bytes) × (id : Bytes) × (first : Session) × (some name ≡ some value)
    × (session_id (services (some new_tokens)) config value ≡ some id)
    × (get (some session) id ≡ found first)
    × (session_live first 100 100 ≡ true)
    × IsCurrent
        (services (some new_tokens))
        config
        idle
        (some session)
        first
        100
        101
        (rotated session new_tokens)
    × IsUserOf
        (services (some new_tokens))
        config
        (handle_session
          (services (some new_tokens))
          config
          idle
          (some session)
          (some name)
          100
          101).1
        (rotated session new_tokens)
        ann
handle_session-attached_example =
    handle_session-attached (services (some new_tokens)) config idle (some session) (some name) 100
      101 ann (rotated session new_tokens) let_in

refreshed :
    refresh_session (services (some new_tokens)) config (some session) session 101
    ≡ (inr (rotated session new_tokens), some (rotated session new_tokens))
unfolding refresh_session persist
refreshed = refl

refresh_session-once_example :
    refresh_session
      (services (some new_tokens))
      config
      (some (rotated session new_tokens))
      session
      102
    ≡ (inr (rotated session new_tokens), some (rotated session new_tokens))
refresh_session-once_example =
    refresh_session-once (services (some new_tokens)) config stores (some session)
      (some (rotated session new_tokens)) session session (rotated session new_tokens) 101 102 refl
      refreshed refl

left_alone :
    (handle_session (services none) config idle (some session) (some name) 100 101).0 ≡ unanswered
unfolding handle_session session_id resolve session_live refresh_session persist attach_refreshed
left_alone = refl

handle_session-unanswered_example :
    (value : Bytes) × (id : Bytes) × (first : Session) × (some name ≡ some value)
    × (session_id (services none) config value ≡ some id)
    × (get (some session) id ≡ found first)
    × (session_live first 100 100 ≡ true)
    × (is_due first 30 100 ≡ true)
    × ((refresh_session (services none) config (some session) first 101).0 ≡ inl unanswered)
handle_session-unanswered_example =
    handle_session-unanswered (services none) config idle (some session) (some name) 100 101
      left_alone
