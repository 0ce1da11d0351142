-- ===== src/Bff/Session/Refresh.antt =====
-- Concurrent requests of one session refresh its tokens once (internal/auth/bff/middleware.go).
use minerals.Base.{
  false, Option, none, some, ◌≡◌, ◌⊎◌, refl, ap, ◌∙◌, arith, Bool-cases, inl, inr, Bytes,
}
use minerals.Domain.{Instant}
use minerals.Bff.Session.{
  Session, TokenSet, found, Services, Config, Outcome, is_due, keep_updated, persist,
  refresh_session,
}
use minerals.Bff.Session.Laws.{Lookup-cases}

-- The store of sessions, one request at a time: a row is found under its id, and what an update
-- returns is what is found next.
pub record Stores {World : Type 0} (services : Services World) : Type 0 where
  pub found_id : (w : World) (id : Bytes) (s : Session) → services.get w id ≡ found s → s.id ≡ id
  pub found_updated :
      (w w' : World) (id : Bytes) (tokens : TokenSet) (s : Session)
      → services.update_tokens w id tokens ≡ (some s, w')
      → services.get w' id ≡ found s

module _ {World : Type 0} (services : Services World) (config : Config)
    (stores : Stores services) where
  open services use {get, update_tokens, refresh}
  open config use {refresh_leeway}
  open stores use {found_id, found_updated}

  inr_pair :
      {s t : Session} {w w' : World}
      → ◌≡◌ {A = (Outcome ⊎ Session) × World} (inr s, w) (inr t, w')
      → (s ≡ t) × (w ≡ w')
  inr_pair e = (cc, cc)

  keep_updated-inr :
      (fresh s : Session) (r : Option Session × World) (w' : World)
      → keep_updated services config fresh r ≡ (inr s, w')
      → r ≡ (some s, w')
  keep_updated-inr fresh s (none, w) w' h = cc
  keep_updated-inr fresh s (some t, w) w' h = let (a, b) = inr_pair h in rw (a, b) refl

  persist-found :
      (fresh s : Session) (r : Option TokenSet × World) (w' : World)
      → persist services config fresh r ≡ (inr s, w')
      → get w' fresh.id ≡ found s
  unfolding persist
  persist-found fresh s (none, w) w' h = cc
  persist-found fresh s (some tokens, w) w' h =
      found_updated w w' fresh.id tokens s
        (keep_updated-inr fresh s (update_tokens w fresh.id tokens) w' h)

  refresh_session-found :
      (w w' : World) (sess s : Session) (later : Instant)
      → refresh_session services config w sess later ≡ (inr s, w')
      → get w' sess.id ≡ found s
  unfolding refresh_session
  refresh_session-found w w' sess s later h = elim (Lookup-cases (get w sess.id)) [
    | inr (inl e) ↦ absurd (ground (arith, e, h))
    | inr (inr e) ↦ absurd (ground (arith, e, h))
    | inl (fresh, e) ↦ elim (Bool-cases (is_due fresh refresh_leeway later)) [
      | inl due ↦
          let p : persist services config fresh (refresh w fresh.refresh_token) ≡ (inr s, w') =
            ground (arith, e, due, h) in
          rw (found_id w sess.id fresh e) at (persist-found fresh s _ w' p)
      | inr current ↦
          let p : ◌≡◌ {A = (Outcome ⊎ Session) × World} (inr fresh, w) (inr s, w') =
            ground (arith, e, current, h) in
          let (a, b) = inr_pair p in rw (a, b) at e
    ]
  ]

  -- Two requests of a session whose token is due, one after the other under the session's lock: if the
  -- first one's refresh gave the session `s`, whose token is not due when the second gets the lock, then
  -- the second gets `s` as well and changes nothing; in particular it makes no call to the identity
  -- provider, which would take it for a replay.
  pub refresh_session-once :
      (w w' : World) (sess sess' s : Session) (later later' : Instant)
      → sess'.id ≡ sess.id
      → refresh_session services config w sess later ≡ (inr s, w')
      → is_due s refresh_leeway later' ≡ false
      → refresh_session services config w' sess' later' ≡ (inr s, w')
  unfolding refresh_session
  refresh_session-once w w' sess sess' s later later' same h current =
      let f : get w' sess'.id ≡ found s =
        ap (get w') same ∙ refresh_session-found w w' sess s later h in
      ground (arith, f, current)
