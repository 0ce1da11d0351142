-- ===== src/Base/Binary.antt =====
-- Byte sequences as lists of numbers, and fixed-width integers in them.
use Prim.Native.Nat.{ℕ, ◌+◌, ◌*◌, ◌/◌, ◌%◌}
use Prim.Native.Char.{code}
use Prim.Native.String.{String}
use mathlib.Core.Bool.{Bool, true, false, ◌&&◌}
use mathlib.Core.List.{List, [], ◌∷◌}
use minerals.Base.Tests.{eqb}

abbrev pub Bytes : Type 0
Bytes = List ℕ

-- The bytes of an ASCII text.
abbrev pub codes : String → Bytes
codes String.[] = []
codes (String.◌∷◌ c s) = code c ∷ codes s

-- `bytes.Equal`
abbrev pub bytes_eq : Bytes → Bytes → Bool
bytes_eq [] [] = true
bytes_eq (x ∷ xs) (y ∷ ys) = eqb x y && bytes_eq xs ys
bytes_eq _ _ = false

-- `bytes.HasPrefix`
abbrev pub has_prefix : Bytes → Bytes → Bool
has_prefix xs [] = true
has_prefix [] (y ∷ ys) = false
has_prefix (x ∷ xs) (y ∷ ys) = eqb x y && has_prefix xs ys

-- `binary.BigEndian.Uint16` and `.Uint32`, and `binary.LittleEndian.Uint32`, of the first bytes.
abbrev pub be16 : Bytes → ℕ
be16 (a ∷ b ∷ _) = a * 256 + b
be16 _ = 0

abbrev pub be32 : Bytes → ℕ
be32 (a ∷ b ∷ c ∷ d ∷ _) = ((a * 256 + b) * 256 + c) * 256 + d
be32 _ = 0

abbrev pub le32 : Bytes → ℕ
le32 (a ∷ b ∷ c ∷ d ∷ _) = a + 256 * (b + 256 * (c + 256 * d))
le32 _ = 0

-- `binary.BigEndian.PutUint16` and `binary.LittleEndian.PutUint32`.
abbrev pub put_be16 : ℕ → Bytes
put_be16 n = (n / 256 % 256) ∷ (n % 256) ∷ []

abbrev pub put_le32 : ℕ → Bytes
put_le32 n = (n % 256) ∷ (n / 256 % 256) ∷ (n / 65536 % 256) ∷ (n / 16777216 % 256) ∷ []
