-- ===== src/Base/Decimal.antt =====
-- Decimal texts of numbers, as bytes: strconv.Itoa and strconv.FormatInt, and how they are read back.
use Prim.Native.Nat.{ℕ, zero, suc, ◌+◌, ◌-◌, ◌*◌, ◌/◌, ◌%◌, ◌≤◌, ◌<◌}
use mathlib.Core.Path.{◌≡◌, refl, sym, ap, ◌∙◌}
use mathlib.Core.Bool.{Bool, false, ◌||◌}
use mathlib.Core.List.{[], ◌∷◌, ◌++◌}
use mathlib.Core.List.{append_assoc}
use native.Mathlib.Omega.{arith}
use mathlib.Core.Logic.{inl, inr}
use minerals.Base.Tests.{ltb, ltb→lt, eqb, if◌then◌else◌, Bool-cases}
use minerals.Base.Lists.{any}
use minerals.Base.Binary.{Bytes}

-- The last digit is cut off as long as there is another; `n` rounds are enough for a number below `n`.
unfoldable pub digits : ℕ → ℕ → Bytes
digits zero n = []
digits (suc f) n =
    let rest = digits f (n / 10) in if ltb n 10 then (n + 48) ∷ [] else rest ++ ((n % 10 + 48) ∷ [])

unfoldable pub itoa : ℕ → Bytes
unfolding digits
itoa n = digits (suc n) n

-- Reads digits up to a colon.
unfoldable pub read_number : ℕ → Bytes → ℕ × Bytes
read_number acc [] = (acc, [])
read_number acc (c ∷ cs) =
    let rest = read_number (acc * 10 + (c - 48)) cs in if eqb c b':' then (acc, cs) else rest

read_number-digit :
    (acc n : ℕ) (cs : Bytes)
    → n < 10
    → read_number acc ((n + 48) ∷ cs) ≡ read_number (acc * 10 + n) cs
unfolding read_number
read_number-digit acc n cs h =
    let e : acc * 10 + (n + 48 - 48) ≡ acc * 10 + n = omega arith in
    let t : eqb (n + 48) b':' ≡ false = ground (arith, h) in rw t (rw e refl)

read_number-digits :
    (f n : ℕ) (cs : Bytes) → n < f → read_number 0 (digits f n ++ cs) ≡ read_number n cs
unfolding digits
read_number-digits zero n cs h = absurd (omega (arith, h))
read_number-digits (suc f) n cs h = elim (Bool-cases (ltb n 10)) [
  | inl short ↦
      let zero_left : 0 * 10 + n ≡ n = omega arith in
      rw short
        (read_number-digit 0 n cs (ltb→lt n 10 short) ∙ ap (λ (m : ℕ). read_number m cs) zero_left)
  | inr long ↦
      let big : 10 ≤ n = ground (arith, long) in
      let small : n / 10 < f = omega (arith, big, h) in
      let last : n / 10 * 10 + n % 10 ≡ n = omega arith in
      rw long (
        rw (append_assoc (digits f (n / 10)) ((n % 10 + 48) ∷ []) cs) (
          read_number-digits f (n / 10) ((n % 10 + 48) ∷ cs) small
          ∙ read_number-digit (n / 10) (n % 10) cs (omega arith)
          ∙ ap (λ (m : ℕ). read_number m cs) last))
]

-- A number's text before a colon is read back as the number.
pub read_number-itoa : (n : ℕ) (cs : Bytes) → read_number 0 (itoa n ++ (b':' ∷ cs)) ≡ (n, cs)
unfolding itoa read_number
read_number-itoa n cs = read_number-digits (suc n) n (b':' ∷ cs) (omega arith)

any-append : (p : ℕ → Bool) (xs ys : Bytes) → any p (xs ++ ys) ≡ (any p xs || any p ys)
any-append p [] ys = refl
any-append p (x ∷ xs) ys = ground (arith, any-append p xs ys)

minus-digit : (n : ℕ) → eqb b'-' (n + 48) ≡ false
minus-digit n = ground arith

minus-digits : (f n : ℕ) → any (eqb b'-') (digits f n) ≡ false
unfolding digits
minus-digits zero n = refl
minus-digits (suc f) n = elim (Bool-cases (ltb n 10)) [
  | inl short ↦ rw (short, minus-digit n) refl
  | inr long ↦ rw long (
      any-append (eqb b'-') (digits f (n / 10)) ((n % 10 + 48) ∷ [])
      ∙ rw (minus-digits f (n / 10), minus-digit (n % 10)) refl)
]

-- A natural number's text has no sign.
pub minus-itoa : (n : ℕ) → any (eqb b'-') (itoa n) ≡ false
unfolding itoa
minus-itoa n = minus-digits (suc n) n

pub itoa_injective : (m n : ℕ) → itoa m ≡ itoa n → m ≡ n
itoa_injective m n e =
    ap (λ (p : ℕ × Bytes). p.0)
      (sym (read_number-itoa m [])
        ∙ ap (λ (s : Bytes). read_number 0 (s ++ (b':' ∷ []))) e
        ∙ read_number-itoa n [])
