-- ===== src/Uuid.antt =====
-- Identifiers: a `uuid.UUID` is a number of 128 bits, and `uuid.Nil` is 0. The library that prints
-- them (github.com/google/uuid) is not part of the program: its `String` is a parameter.
use Prim.Native.Char.{Char}
use minerals.Base.{ℕ, zero, suc, String, ◌≡◌, ◌≢◌, refl, sym, ap}

abbrev pub Uuid : Type 0
Uuid = ℕ

abbrev pub nil_uuid : Uuid
nil_uuid = 0

-- The canonical text of an identifier: different for different identifiers, and never empty.
pub record UuidText : Type 0 where
  pub to_string : Uuid → String
  pub injective : (a b : Uuid) → to_string a ≡ to_string b → a ≡ b
  pub nonempty : (a : Uuid) → to_string a ≢ ""

-- A text of as many strokes meets these laws.
abbrev strokes : Uuid → String
strokes zero = "1"
strokes (suc n) = String.◌∷◌ "1" (strokes n)

pub strokes_nonempty : (a : Uuid) → strokes a ≢ ""
strokes_nonempty zero e = cc
strokes_nonempty (suc a) e = cc

tail_eq : (c : Char) (s t : String) → String.◌∷◌ c s ≡ String.◌∷◌ c t → s ≡ t
tail_eq c s t e = cc

pub strokes_injective : (a b : Uuid) → strokes a ≡ strokes b → a ≡ b
strokes_injective zero zero e = refl
strokes_injective zero (suc b) e = absurd (strokes_nonempty b (sym (tail_eq "1" "" (strokes b) e)))
strokes_injective (suc a) zero e = absurd (strokes_nonempty a (tail_eq "1" (strokes a) "" e))
strokes_injective (suc a) (suc b) e = ap suc (strokes_injective a b (tail_eq "1" _ _ e))

abbrev pub tally : UuidText
tally = record { to_string = strokes; injective = strokes_injective; nonempty = strokes_nonempty }
