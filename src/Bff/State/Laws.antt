-- ===== src/Bff/State/Laws.antt =====
-- What a signed state cookie proves (internal/auth/bff/state.go).
use minerals.Base.{
  ℕ, ◌+◌, ◌/◌, ◌%◌, ◌^◌, ◌≤◌, ◌<◌, true, false, some, [], ◌∷◌, ◌++◌, ltb, eqb, ◌≡◌, refl, ap, ◌∙◌,
  arith, Bool-cases, Option-cases, inl, inr, length, take, drop, any, all, All-append,
  length-append, take-append_left, drop-append_left, Bytes, bytes_eq, be16, be32, put_be16,
}
use minerals.Bff.State.{
  ℤ, pos, negsuc, to_uint64, to_int64, is_after, StateData, IsBytes, dot, Crypto, put_be32,
  put_be64, be64, pack_state, unpack_state, cut, sign_state, accept, verify_state,
}

-- An int64.
abbrev pub IsInt64 : ℤ → Type 0
IsInt64 (pos n) = n < 2 ^ 63
IsInt64 (negsuc n) = n < 2 ^ 63

to_int64-to_uint64 : (z : ℤ) → IsInt64 z → to_int64 (to_uint64 z) ≡ z
unfolding to_int64 to_uint64
to_int64-to_uint64 (pos n) h = ground arith
to_int64-to_uint64 (negsuc n) h = ground arith

to_uint64_bound : (z : ℤ) → to_uint64 z < 2 ^ 64
unfolding to_uint64
to_uint64_bound (pos n) = omega arith
to_uint64_bound (negsuc n) = omega arith

be32-put_be32 : (n : ℕ) (rest : Bytes) → n < 2 ^ 32 → be32 (put_be32 n ++ rest) ≡ n
be32-put_be32 n rest h = omega arith

be64-put_be64 : (n : ℕ) → n < 2 ^ 64 → be64 (put_be64 n) ≡ n
be64-put_be64 n h =
    let hi = be32-put_be32 (n / 2 ^ 32 % 2 ^ 32) (put_be32 (n % 2 ^ 32)) (omega arith) in
    let lo = be32-put_be32 (n % 2 ^ 32) [] (omega arith) in omega (arith, hi, lo)

be16-put_be16 : (n : ℕ) (rest : Bytes) → n ≤ 0xFFFF → be16 (put_be16 n ++ rest) ≡ n
be16-put_be16 n rest h = omega arith

-- Unpacking a payload of the two fields and eight more bytes.
unpack_fields :
    (s r e : Bytes)
    → length s ≤ 0xFFFF
    → length r ≤ 0xFFFF
    → length e ≡ 8
    → unpack_state (put_be16 (length s) ++ (s ++ (put_be16 (length r) ++ (r ++ e))))
      ≡ some (record { state = s; return_to = r; expires = to_int64 (be64 e) })
unfolding unpack_state
unpack_fields s r e hs hr he =
    let tail = put_be16 (length r) ++ (r ++ e) in
    let sl = be16-put_be16 (length s) (s ++ tail) hs in
    let rl = be16-put_be16 (length r) (r ++ e) hr in
    let ls = length-append s tail in
    let lr = length-append r e in
    let file = put_be16 (length s) ++ (s ++ tail) in
    let head : ltb (length file) 2 ≡ false = ground arith in
    let long : ltb (length file) (2 + length s + 2) ≡ false = ground (arith, ls, lr, he) in
    let d : drop (length s) (drop 2 file) ≡ tail = drop-append_left s tail in
    let t : take (length s) (drop 2 file) ≡ s = take-append_left s tail in
    let rest : ltb (length tail) (2 + length r + 8) ≡ false = ground (arith, lr, he) in
    let d' : drop (length r) (drop 2 tail) ≡ e = drop-append_left r e in
    let t' : take (length r) (drop 2 tail) ≡ r = take-append_left r e in
    rw (head, sl) (rw (long, d, t) (rw rl (rw (rest, d', t') refl)))

packed : StateData → Bytes
packed d =
    put_be16 (length d.state)
    ++ (d.state
        ++ (put_be16 (length d.return_to) ++ (d.return_to ++ put_be64 (to_uint64 d.expires))))

pack_state-packed :
    (d : StateData)
    → length d.state ≤ 0xFFFF
    → length d.return_to ≤ 0xFFFF
    → pack_state d ≡ inr (packed d)
unfolding pack_state packed
pack_state-packed d hs hr = ground arith

unpack_state-packed :
    (d : StateData)
    → length d.state ≤ 0xFFFF
    → length d.return_to ≤ 0xFFFF
    → IsInt64 d.expires
    → unpack_state (packed d) ≡ some d
unfolding packed
unpack_state-packed d hs hr h =
    unpack_fields d.state d.return_to (put_be64 (to_uint64 d.expires)) hs hr refl
    ∙ ap (λ (z : ℤ). some (record { state = d.state; return_to = d.return_to; expires = z }))
        (ap to_int64 (be64-put_be64 (to_uint64 d.expires) (to_uint64_bound d.expires))
          ∙ to_int64-to_uint64 d.expires h)

IsBytes-put_be16 : (n : ℕ) → IsBytes (put_be16 n)
IsBytes-put_be16 n = (omega arith, (omega arith, tt))

IsBytes-put_be64 : (n : ℕ) → IsBytes (put_be64 n)
IsBytes-put_be64 n = (
  omega arith,
  (
    omega arith,
    (omega arith, (omega arith, (omega arith, (omega arith, (omega arith, (omega arith, tt)))))),
  ),
)

pub IsBytes-of : (b : Bytes) → all (λ n. ltb n 256) b ≡ true → IsBytes b
IsBytes-of [] h = tt
IsBytes-of (n ∷ b) h = (ground (arith, h), IsBytes-of b (ground (arith, h)))

abbrev IsByte : ℕ → Type 0
IsByte n = n < 256

IsBytes-packed : (d : StateData) → IsBytes d.state → IsBytes d.return_to → IsBytes (packed d)
unfolding packed
IsBytes-packed d hs hr =
    All-append IsByte (put_be16 (length d.state)) _ (IsBytes-put_be16 (length d.state)) (
      All-append IsByte d.state _ hs (
        All-append IsByte (put_be16 (length d.return_to)) _ (IsBytes-put_be16 (length d.return_to))
          (All-append IsByte d.return_to _ hr (IsBytes-put_be64 (to_uint64 d.expires)))))

cut-append : (xs ys : Bytes) → any (eqb dot) xs ≡ false → cut (xs ++ dot ∷ ys) ≡ some (xs, ys)
unfolding cut
cut-append [] ys h = refl
cut-append (x ∷ xs) ys h = ground (arith, cut-append xs ys)

pub bytes_eq_refl : (b : Bytes) → bytes_eq b b ≡ true
bytes_eq_refl [] = refl
bytes_eq_refl (x ∷ xs) = ground (arith, bytes_eq_refl xs)

pub bytes_eq-eq : (a b : Bytes) → bytes_eq a b ≡ true → a ≡ b
bytes_eq-eq [] [] h = refl
bytes_eq-eq [] (y ∷ ys) h = cc
bytes_eq-eq (x ∷ xs) [] h = cc
bytes_eq-eq (x ∷ xs) (y ∷ ys) h = ground (arith, bytes_eq-eq xs ys)

module _ (crypto : Crypto) where
  open crypto use {encode, decode, hmac, decode-encode, no_dot, hmac-bytes}

  accept-packed :
      (key : Bytes) (now : ℕ) (d : StateData)
      → length d.state ≤ 0xFFFF
      → length d.return_to ≤ 0xFFFF
      → IsInt64 d.expires
      → is_after now d.expires ≡ false
      → accept crypto key now (packed d) (hmac key (packed d)) ≡ inr d
  unfolding accept
  accept-packed key now d hs hr h fresh =
      rw (bytes_eq_refl (hmac key (packed d)), unpack_state-packed d hs hr h) (rw fresh refl)

  -- A login's state comes back as it was: with a key of at least 32 bytes, fields of at most 65535
  -- bytes and an expiry that an int64 of nanoseconds holds, signing gives a cookie, and verifying that
  -- cookie with the same key gives the same state, until its expiry has passed.
  pub verify_state-sign_state :
      (key : Bytes) (now : ℕ) (d : StateData)
      → 32 ≤ length key
      → length d.state ≤ 0xFFFF
      → length d.return_to ≤ 0xFFFF
      → IsBytes d.state
      → IsBytes d.return_to
      → IsInt64 d.expires
      → is_after now d.expires ≡ false
      → (value : Bytes) × (sign_state crypto key d ≡ inr value)
        × (verify_state crypto key value now ≡ inr d)
  unfolding sign_state verify_state
  verify_state-sign_state key now d long hs hr bs br h fresh =
      let payload = packed d in
      let mac = hmac key payload in
      let plain = IsBytes-packed d bs br in
      let key_ok : ltb (length key) 32 ≡ false = ground (arith, long) in
      (
        encode payload ++ dot ∷ encode mac,
        rw (key_ok, pack_state-packed d hs hr) refl,
        rw (key_ok, cut-append (encode payload) (encode mac) (no_dot payload plain))
            (rw (decode-encode payload plain, decode-encode mac (hmac-bytes key payload))
              (accept-packed key now d hs hr h fresh)),
      )

  accept-inr :
      (key : Bytes) (now : ℕ) (payload mac : Bytes) (d : StateData)
      → accept crypto key now payload mac ≡ inr d
      → (mac ≡ hmac key payload)
        × (unpack_state payload ≡ some d)
        × (is_after now d.expires ≡ false)
  unfolding accept
  accept-inr key now payload mac d h = elim (Bool-cases (bytes_eq mac (hmac key payload))) [
    | inr ne ↦ absurd (ground (arith, ne, h))
    | inl same ↦ elim (Option-cases (unpack_state payload)) [
      | inl none' ↦ absurd (ground (arith, same, none', h))
      | inr (d', u) ↦ elim (Bool-cases (is_after now d'.expires)) [
        | inl late ↦ absurd (ground (arith, same, u, late, h))
        | inr fresh ↦
            let e : d' ≡ d = ground (arith, same, u, fresh, h) in
            (bytes_eq-eq mac _ same, rw (u, e) refl, rw e at fresh)
      ]
    ]
  ]

  -- No state is accepted without its code: if a cookie verifies to a state, then the key has at least
  -- 32 bytes, the cookie is a text of a payload and one of a code, joined by a dot, the code is the
  -- payload's under the key, the state is what the payload holds, and its expiry has not passed.
  pub verify_state-authentic :
      (key value : Bytes) (now : ℕ) (d : StateData)
      → verify_state crypto key value now ≡ inr d
      → (32 ≤ length key)
        × (p : Bytes) × (m : Bytes) × (payload : Bytes) × (cut value ≡ some (p, m))
        × (decode p ≡ some payload)
        × (decode m ≡ some (hmac key payload))
        × (unpack_state payload ≡ some d)
        × (is_after now d.expires ≡ false)
  unfolding verify_state
  verify_state-authentic key value now d h = elim (Bool-cases (ltb (length key) 32)) [
    | inl short ↦ absurd (ground (arith, short, h))
    | inr long ↦ elim (Option-cases (cut value)) [
      | inl whole ↦ absurd (ground (arith, long, whole, h))
      | inr ((p, m), c) ↦ elim (Option-cases (decode p)) [
        | inl bad ↦ absurd (ground (arith, long, c, bad, h))
        | inr (payload, dp) ↦ elim (Option-cases (decode m)) [
          | inl bad ↦ absurd (ground (arith, long, c, dp, bad, h))
          | inr (mac, dm) ↦
              let a : accept crypto key now payload mac ≡ inr d =
                ground (arith, long, c, dp, dm, h) in
              let (same, u, fresh) = accept-inr key now payload mac d a in
              (ground (arith, long), p, m, payload, c, dp, dm ∙ ap some same, u, fresh)
        ]
      ]
    ]
  ]
