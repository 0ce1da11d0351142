-- ===== src/Bff/State.antt =====
-- The signed state cookie of a login (internal/auth/bff/state.go).
--
-- Go's strings and byte slices are lists of bytes; an int64 is an integer, and `uint64` and `int64`
-- of one another are written out.
pub mod Laws
pub mod Examples
use minerals.Base.{
  ℕ, zero, suc, ◌+◌, ◌-◌, ◌*◌, ◌/◌, ◌%◌, ◌^◌, ◌≤◌, ◌<◌, min, String, ◌==◌, Bool, true, false, not,
  ◌&&◌, ◌||◌, Option, none, some, List, [], ◌∷◌, ◌++◌, map, ltb, leb, eqb, if◌then◌else◌, ◌≡◌, ◌≢◌,
  ◌↔◌, ◌⊎◌, refl, sym, ap, ◌∙◌, arith, eq_iff, eq_refl, trim_space, split_on, contains, Bool-cases,
  Option-cases, inl, inr, length, take, drop, any, all, All, All-append, All-of, length-append,
  length-take, length-drop, take-append-drop, take-append_left, drop-append_left, Bytes, codes,
  bytes_eq, has_prefix, be16, be32, le32, put_be16, put_le32, lt→ltb, ltb→lt, leb→le, eqb_iff, itoa,
  read_number, read_number-itoa, itoa_injective, minus-itoa,
}

abbrev pub min_key_len : ℕ
min_key_len = 32

pub data ℤ : Type 0 where
  pos : ℕ → ℤ
  negsuc : ℕ → ℤ

-- `uint64(n)` and `int64(n)`.
unfoldable pub to_uint64 : ℤ → ℕ
to_uint64 (pos n) = n % 2 ^ 64
to_uint64 (negsuc n) = 2 ^ 64 - 1 - n % 2 ^ 64

unfoldable pub to_int64 : ℕ → ℤ
to_int64 n = if ltb n (2 ^ 63) then pos n else negsuc (2 ^ 64 - 1 - n)

-- `now.After(t)` for a clock that reads past 1970.
abbrev pub is_after : ℕ → ℤ → Bool
is_after now (pos t) = ltb t now
is_after now (negsuc t) = true

pub record StateData : Type 0 where
  pub state : Bytes
  pub return_to : Bytes
  -- `Expires`, in nanoseconds of Unix time
  pub expires : ℤ

pub data StateError : Type 0 where
  key_too_short field_too_long invalid : StateError

-- encoding/base64, RawURLEncoding; and HMAC-SHA256 of crypto/hmac.
abbrev pub IsBytes : Bytes → Type 0
IsBytes = All (λ n. n < 256)

abbrev pub dot : ℕ
dot = b'.'

pub record Crypto : Type 0 where
  pub encode : Bytes → Bytes
  pub decode : Bytes → Option Bytes
  pub hmac : Bytes → Bytes → Bytes
  pub decode-encode : (b : Bytes) → IsBytes b → decode (encode b) ≡ some b
  pub encode-nil : encode [] ≡ []
  pub no_dot : (b : Bytes) → IsBytes b → any (eqb dot) (encode b) ≡ false
  pub hmac-bytes : (key payload : Bytes) → IsBytes (hmac key payload)

abbrev pub put_be32 : ℕ → Bytes
put_be32 n = put_be16 (n / 65536 % 65536) ++ put_be16 (n % 65536)

abbrev pub put_be64 : ℕ → Bytes
put_be64 n = put_be32 (n / 2 ^ 32 % 2 ^ 32) ++ put_be32 (n % 2 ^ 32)

abbrev pub be64 : Bytes → ℕ
be64 b = be32 b * 2 ^ 32 + be32 (drop 4 b)

unfoldable pub pack_state : StateData → StateError ⊎ Bytes
pack_state d =
    if ltb 0xFFFF (length d.state) || ltb 0xFFFF (length d.return_to)
    then inl field_too_long
    else inr (
        put_be16 (length d.state)
        ++ (d.state
            ++ (put_be16 (length d.return_to) ++ (d.return_to ++ put_be64 (to_uint64 d.expires)))))

unfoldable pub unpack_state : Bytes → Option StateData
unpack_state b =
    if ltb (length b) 2
    then none
    else let sl = be16 b in
      if ltb (length b) (2 + sl + 2)
      then none
      else let rest = drop sl (drop 2 b) in
        let rl = be16 rest in
        if ltb (length rest) (2 + rl + 8)
        then none
        else some (record {
          state = take sl (drop 2 b);
          return_to = take rl (drop 2 rest);
          expires = to_int64 (be64 (drop rl (drop 2 rest)));
        })

-- `strings.Cut(value, ".")`
unfoldable pub cut : Bytes → Option (Bytes × Bytes)
cut [] = none
cut (c ∷ cs) =
    let rest = cut cs in
    if eqb dot c
    then some ([], cs)
    else elim rest [ none ↦ none | some (before, after) ↦ some (c ∷ before, after) ]

module _ (crypto : Crypto) where
  open crypto use {encode, decode, hmac}

  unfoldable pub sign_state : Bytes → StateData → StateError ⊎ Bytes
  sign_state key d =
      if ltb (length key) min_key_len then inl key_too_short else elim (pack_state d) [
        | inl e ↦ inl e
        | inr payload ↦ inr (encode payload ++ dot ∷ encode (hmac key payload))
      ]

  -- The checks on a decoded payload and its code.
  unfoldable pub accept : Bytes → ℕ → Bytes → Bytes → StateError ⊎ StateData
  accept key now payload mac =
      if not (bytes_eq mac (hmac key payload)) then inl invalid else elim (unpack_state payload) [
        | none ↦ inl invalid
        | some d ↦ if is_after now d.expires then inl invalid else inr d
      ]

  unfoldable pub verify_state : Bytes → Bytes → ℕ → StateError ⊎ StateData
  verify_state key value now =
      if ltb (length key) min_key_len then inl key_too_short else elim (cut value) [
        | none ↦ inl invalid
        | some (p, m) ↦ elim (decode p) [
          | none ↦ inl invalid
          | some payload ↦ elim (decode m) [
            | none ↦ inl invalid
            | some mac ↦ accept key now payload mac
          ]
        ]
      ]
