-- ===== src/Bff/State/Examples.antt =====
-- A toy code: bytes are encoded by a shift, and a message's code is one byte of its length.
use minerals.Base.{
  ◌+◌, ◌-◌, ◌%◌, ◌≤◌, false, some, [], ◌∷◌, map, eqb, ◌≡◌, refl, ap, arith, inl, inr, length, any,
  Bytes, codes,
}
use minerals.Bff.State.{
  pos, StateData, dot, Crypto, cut, unpack_state, pack_state, sign_state, verify_state, is_after,
  accept, to_uint64, to_int64,
}
use minerals.Bff.State.Laws.{verify_state-sign_state, verify_state-authentic}

pub shift_back : (b : Bytes) → map (λ n. n - 100) (map (λ n. n + 100) b) ≡ b
shift_back [] = refl
shift_back (n ∷ b) = let e : n + 100 - 100 ≡ n = omega arith in rw (e, shift_back b) refl

pub shifted-no_dot : (b : Bytes) → any (eqb dot) (map (λ n. n + 100) b) ≡ false
shifted-no_dot [] = refl
shifted-no_dot (n ∷ b) = ground (arith, shifted-no_dot b)

abbrev pub toy : Crypto
toy = record {
  encode = map (λ n. n + 100);
  decode = λ b. some (map (λ n. n - 100) b);
  hmac = λ key payload. ((length key + length payload) % 256) ∷ [];
  decode-encode = λ b h. ap some (shift_back b);
  encode-nil = refl;
  no_dot = λ b h. shifted-no_dot b;
  hmac-bytes = λ key payload. (omega arith, tt);
}

abbrev key : Bytes
key = codes "a key of thirty-two bytes or more"

abbrev login : StateData
login = record { state = 7 ∷ 8 ∷ []; return_to = codes "/"; expires = pos 500 }

abbrev value : Bytes
value = elim (sign_state toy key login) [ inl e ↦ [] | inr v ↦ v ]

verify_state-sign_state_example :
    (value : Bytes) × (sign_state toy key login ≡ inr value)
    × (verify_state toy key value 400 ≡ inr login)
verify_state-sign_state_example =
    verify_state-sign_state toy key 400 login (omega arith) (omega arith) (omega arith)
      (omega arith, (omega arith, tt)) (omega arith, tt) (omega arith) refl

verified : verify_state toy key value 400 ≡ inr login
unfolding sign_state verify_state cut accept unpack_state pack_state to_uint64 to_int64
verified = refl

verify_state-authentic_example :
    (32 ≤ length key)
    × (p : Bytes) × (m : Bytes) × (payload : Bytes) × (cut value ≡ some (p, m))
    × (toy.decode p ≡ some payload)
    × (toy.decode m ≡ some (toy.hmac key payload))
    × (unpack_state payload ≡ some login)
    × (is_after 400 login.expires ≡ false)
verify_state-authentic_example = verify_state-authentic toy key value 400 login verified
