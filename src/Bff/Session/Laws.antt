-- ===== src/Bff/Session/Laws.antt =====
-- Whom the session middleware lets in (internal/auth/bff/middleware.go).
use minerals.Base.{
  true, false, Option, none, some, ◌≡◌, ◌≢◌, ◌⊎◌, refl, sym, ap, ◌∙◌, arith, Bool-cases,
  Option-cases, inl, inr, Bytes,
}
use minerals.Auth
use minerals.Domain
use minerals.Domain.{Instant}
use minerals.Bff.Session.{
  Session, TokenSet, Lookup, found, not_found, failed, Services, Config, Outcome, attached,
  unanswered, session_live, is_due, auth_user, keep_updated, persist, refresh_session, touched,
  attach_row, attach, attach_refreshed, resolve, session_id, handle_session,
}

pub Lookup-cases : (l : Lookup) → ((s : Session) × (l ≡ found s)) ⊎ ((l ≡ not_found) ⊎ (l ≡ failed))
Lookup-cases (found s) = inl (s, refl)
Lookup-cases not_found = inr (inl refl)
Lookup-cases failed = inr (inr refl)

attached_injective :
    (u u' : Auth.User) (s s' : Session) → attached u s ≡ attached u' s' → (u ≡ u') × (s ≡ s')
attached_injective u u' s s' e = (cc, cc)

module _ {World : Type 0} (services : Services World) (config : Config) where
  open services use {get, user}
  open config use {idle_timeout, refresh_leeway}

  -- How the session `s` of an attached user comes from the row `first` that was looked up.
  abbrev pub IsCurrent : (World → World) → World → Session → Instant → Instant → Session → Type 0
  IsCurrent others w first now later s =
      ((is_due first refresh_leeway now ≡ false) × (s ≡ first))
      ⊎ ((is_due first refresh_leeway now ≡ true)
          × ((refresh_session services config (others w) first later).0 ≡ inr s))

  -- The identity is that of the row which the users table has for the session's user in the world that
  -- the request leaves.
  abbrev pub IsUserOf : World → Session → Auth.User → Type 0
  IsUserOf after s u =
      (row : Domain.User) × (user after s.user_id ≡ some row) × (u ≡ auth_user row s)

  attach_row-attached :
      (w : World) (sess s : Session) (o : Option Domain.User) (u : Auth.User)
      → user w sess.user_id ≡ o
      → (attach_row services config w sess o).0 ≡ attached u s
      → (s ≡ sess) × IsUserOf (attach_row services config w sess o).1 s u
  attach_row-attached w sess s none u e h = cc
  attach_row-attached w sess s (some row) u e h =
      let (same_user, same) = attached_injective (auth_user row sess) u sess s h in
      (sym same, (row, rw same at e, sym same_user ∙ ap (auth_user row) same))

  attach-attached :
      (w : World) (sess s : Session) (now : Instant) (u : Auth.User)
      → (attach services config w sess now).0 ≡ attached u s
      → (s ≡ sess) × IsUserOf (attach services config w sess now).1 s u
  unfolding attach
  attach-attached w sess s now u h =
      let w' = touched services config w sess now in
      attach_row-attached w' sess s (user w' sess.user_id) u refl h

  attach_refreshed-attached :
      (r : (Outcome ⊎ Session) × World) (now : Instant) (u : Auth.User) (s : Session)
      → ((o : Outcome) → r.0 ≡ inl o → o ≢ attached u s)
      → (attach_refreshed services config now r).0 ≡ attached u s
      → (r.0 ≡ inr s) × IsUserOf (attach_refreshed services config now r).1 s u
  unfolding attach_refreshed
  attach_refreshed-attached (inl o, w) now u s no_user h = absurd (no_user o refl h)
  attach_refreshed-attached (inr sess, w) now u s no_user h =
      let (same, of_user) = attach-attached w sess s now u h in (ap inr (sym same), of_user)

  persist-refused :
      (fresh : Session) (r : Option TokenSet × World) (o : Outcome) (u : Auth.User) (s : Session)
      → (persist services config fresh r).0 ≡ inl o
      → o ≢ attached u s
  unfolding persist
  persist-refused fresh (none, w) o u s h = λ e. cc
  persist-refused fresh (some tokens, w) o u s h = go (services.update_tokens w fresh.id tokens) h
    where
      go :
          (r : Option Session × World)
          → (keep_updated services config fresh r).0 ≡ inl o
          → o ≢ attached u s
      go (none, w) h = λ e. cc
      go (some t, w) h = λ e. cc

  -- A failed refresh attaches nobody.
  refresh_session-refused :
      (w : World) (sess : Session) (later : Instant) (o : Outcome) (u : Auth.User) (s : Session)
      → (refresh_session services config w sess later).0 ≡ inl o
      → o ≢ attached u s
  unfolding refresh_session
  refresh_session-refused w sess later o u s h = elim (Lookup-cases (get w sess.id)) [
    | inr (inl e) ↦ ground (arith, e, h)
    | inr (inr e) ↦ ground (arith, e, h)
    | inl (fresh, e) ↦
        ground (arith, e, h, persist-refused fresh (services.refresh w fresh.refresh_token) o u s)
  ]

  resolve-attached :
      (others : World → World) (w : World) (id : Bytes) (now later : Instant) (u : Auth.User)
      (s : Session)
      → (resolve services config others w id now later).0 ≡ attached u s
      → (first : Session) × (get w id ≡ found first)
        × (session_live first now idle_timeout ≡ true)
        × IsCurrent others w first now later s
        × IsUserOf (resolve services config others w id now later).1 s u
  unfolding resolve
  resolve-attached others w id now later u s h = elim (Lookup-cases (get w id)) [
    | inr (inl e) ↦ absurd (ground (arith, e, h))
    | inr (inr e) ↦ absurd (ground (arith, e, h))
    | inl (first, e) ↦ elim (Bool-cases (session_live first now idle_timeout)) [
      | inr dead ↦ absurd (ground (arith, e, dead, h))
      | inl live ↦ elim (Bool-cases (is_due first refresh_leeway now)) [
        | inr current ↦
            let a : (attach services config w first now).0 ≡ attached u s =
              ground (arith, e, live, current, h) in
            let (same, of_user) = attach-attached w first s now u a in
            (first, e, live, inl (current, same), rw (e, live, current, resolve) of_user)
        | inl due ↦
            let r = refresh_session services config (others w) first later in
            let a : (attach_refreshed services config now r).0 ≡ attached u s =
              ground (arith, e, live, due, h) in
            let (same, of_user) =
              attach_refreshed-attached r now u s
                (λ o f. refresh_session-refused (others w) first later o u s f) a in
            (first, e, live, inr (due, same), rw (e, live, due, resolve) of_user)
      ]
    ]
  ]

  -- Whoever reaches a handler with an identity has shown a cookie whose 32 bytes name a stored session
  -- that is not revoked, not past its absolute end and not idle; the session that the handler gets is
  -- that row, or what the refresh made of it if its access token was due; and the identity is that
  -- of the row which the users table, in the world that the request leaves, has for the session's user,
  -- with the session's subject and no roles.
  pub handle_session-attached :
      (others : World → World) (w : World) (cookie : Option Bytes) (now later : Instant)
      (u : Auth.User) (s : Session)
      → (handle_session services config others w cookie now later).0 ≡ attached u s
      → (value : Bytes) × (id : Bytes) × (first : Session) × (cookie ≡ some value)
        × (session_id services config value ≡ some id)
        × (get w id ≡ found first)
        × (session_live first now idle_timeout ≡ true)
        × IsCurrent others w first now later s
        × IsUserOf (handle_session services config others w cookie now later).1 s u
  unfolding handle_session
  handle_session-attached others w none now later u s h = cc
  handle_session-attached others w (some value) now later u s h =
      elim (Option-cases (session_id services config value)) [
        | inl e ↦ absurd (ground (arith, e, h))
        | inr (id, e) ↦
            let (first, row, live, current, of_user) =
              resolve-attached others w id now later u s (ground (arith, e, h)) in
            (value, id, first, refl, e, row, live, current, rw (e, handle_session) of_user)
      ]

  attach-answered :
      (w : World) (sess : Session) (now : Instant)
      → (attach services config w sess now).0 ≢ unanswered
  unfolding attach
  attach-answered w sess now =
      go (touched services config w sess now)
        (user (touched services config w sess now) sess.user_id)
    where
      go :
          (w' : World) (o : Option Domain.User)
          → (attach_row services config w' sess o).0 ≢ unanswered
      go w' none e = cc
      go w' (some row) e = cc

  attach_refreshed-unanswered :
      (r : (Outcome ⊎ Session) × World) (now : Instant)
      → (attach_refreshed services config now r).0 ≡ unanswered
      → r.0 ≡ inl unanswered
  unfolding attach_refreshed
  attach_refreshed-unanswered (inl o, w) now h = ap inl h
  attach_refreshed-unanswered (inr s, w) now h = absurd (attach-answered w s now h)

  -- The middleware leaves a request without an answer only if the request has a cookie, the cookie's 32
  -- bytes name a stored session, that session is live, its access token is due, and its refresh was refused or
  -- found no row any more: every request with no cookie, with a malformed one, or with that of an unknown or a
  -- dead session reaches the next handler or gets an error.
  pub handle_session-unanswered :
      (others : World → World) (w : World) (cookie : Option Bytes) (now later : Instant)
      → (handle_session services config others w cookie now later).0 ≡ unanswered
      → (value : Bytes) × (id : Bytes) × (first : Session) × (cookie ≡ some value)
        × (session_id services config value ≡ some id)
        × (get w id ≡ found first)
        × (session_live first now idle_timeout ≡ true)
        × (is_due first refresh_leeway now ≡ true)
        × ((refresh_session services config (others w) first later).0 ≡ inl unanswered)
  unfolding handle_session resolve
  handle_session-unanswered others w none now later h = cc
  handle_session-unanswered others w (some value) now later h =
      elim (Option-cases (session_id services config value)) [
        | inl e ↦ absurd (ground (arith, e, h))
        | inr (id, e) ↦ elim (Lookup-cases (get w id)) [
          | inr (inl f) ↦ absurd (ground (arith, e, f, h))
          | inr (inr f) ↦ absurd (ground (arith, e, f, h))
          | inl (first, f) ↦ elim (Bool-cases (session_live first now idle_timeout)) [
            | inr dead ↦ absurd (ground (arith, e, f, dead, h))
            | inl live ↦ elim (Bool-cases (is_due first refresh_leeway now)) [
              | inr current ↦
                  absurd (attach-answered w first now (ground (arith, e, f, live, current, h)))
              | inl due ↦ (
                value,
                id,
                first,
                refl,
                e,
                f,
                live,
                due,
                attach_refreshed-unanswered (refresh_session services config (others w) first later)
                    now (ground (arith, e, f, live, due, h)),
              )
            ]
          ]
        ]
      ]
