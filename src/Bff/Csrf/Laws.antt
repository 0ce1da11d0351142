-- ===== src/Bff/Csrf/Laws.antt =====
-- Which requests pass the CSRF check (internal/auth/bff/csrf.go).
use minerals.Base.{
  ◌<◌, true, false, none, some, [], ◌≡◌, ◌≢◌, ◌↔◌, ◌⊎◌, sym, ap, ◌∙◌, arith, Bool-cases, inl, inr,
  length, Bytes, bytes_eq,
}
use minerals.Bff.State.{Crypto, IsBytes}
use minerals.Bff.State.Laws.{bytes_eq_refl, bytes_eq-eq}
use minerals.Bff.Session.{Session}
use minerals.Bff.Csrf.{Request, is_safe, check_csrf, csrf_handler}

some_injective {ℓ} : {A : Type ℓ} {a b : A} → some a ≡ some b → a ≡ b
some_injective e = cc

inr_injective {ℓ κ} : {A : Type ℓ} {B : Type κ} {a b : B} → ◌≡◌ {A = A ⊎ B} (inr a) (inr b) → a ≡ b
inr_injective e = cc

module _ (crypto : Crypto) where
  open crypto use {encode, decode, decode-encode, encode-nil}

  encode_injective : (a b : Bytes) → IsBytes a → IsBytes b → encode a ≡ encode b → a ≡ b
  encode_injective a b ha hb e =
      some_injective (sym (decode-encode a ha) ∙ ap decode e ∙ decode-encode b hb)

  encode_nonempty : (a : Bytes) → IsBytes a → 0 < length a → encode a ≢ []
  encode_nonempty a h p e =
      let z : a ≡ [] = encode_injective a [] h tt (e ∙ sym encode-nil) in
      absurd (ground (arith, z, p))

  -- A request that may change something, of a session with a token of bytes that is not empty, passes
  -- the check exactly when its header is the token that the CSRF endpoint gives that session.
  pub check_csrf-pass_iff :
      (sess : Session) (r : Request)
      → IsBytes sess.csrf_token
      → 0 < length sess.csrf_token
      → is_safe r.method ≡ false
      → (check_csrf crypto (some sess) r ≡ none) ↔ (csrf_handler crypto (some sess) ≡ inr r.token)
  unfolding check_csrf csrf_handler
  check_csrf-pass_iff sess r h p unsafe =
      let ne = encode_nonempty sess.csrf_token h p in
      let here = bytes_eq-eq r.token (encode sess.csrf_token) in
      let empty = bytes_eq-eq r.token [] in
      (
        λ pass. elim (Bool-cases (bytes_eq r.token [])) [
          | inl z ↦ absurd (ground (arith, unsafe, z, pass))
          | inr z ↦ elim (Bool-cases (bytes_eq r.token (encode sess.csrf_token))) [
            | inl same ↦ ap inr (sym (here same))
            | inr other ↦ absurd (ground (arith, unsafe, z, other, pass))
          ]
        ],
        λ given.
            let e : encode sess.csrf_token ≡ r.token = inr_injective given in
            let same : bytes_eq r.token (encode sess.csrf_token) ≡ true =
              rw e (bytes_eq_refl r.token) in
            elim (Bool-cases (bytes_eq r.token [])) [
              | inl z ↦ absurd (ne (e ∙ empty z))
              | inr z ↦ ground (arith, unsafe, z, same)
            ],
      )

  -- The token that the CSRF endpoint gives one session does not pass the check in another one, whose
  -- token is different.
  pub check_csrf-other_session :
      (sess other : Session) (r : Request)
      → IsBytes sess.csrf_token
      → IsBytes other.csrf_token
      → 0 < length sess.csrf_token
      → is_safe r.method ≡ false
      → csrf_handler crypto (some other) ≡ inr r.token
      → sess.csrf_token ≢ other.csrf_token
      → check_csrf crypto (some sess) r ≢ none
  unfolding csrf_handler
  check_csrf-other_session sess other r h h' p unsafe given ne pass =
      let mine : encode sess.csrf_token ≡ r.token =
        inr_injective ((check_csrf-pass_iff sess r h p unsafe).0 pass) in
      ne (encode_injective sess.csrf_token other.csrf_token h h' (mine ∙ sym (inr_injective given)))
