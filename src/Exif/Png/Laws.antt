-- ===== src/Exif/Png/Laws.antt =====
-- Stripping a PNG removes its metadata chunks and nothing else of the image.
use mathlib.Core.List.{append-nil, append_assoc}
use minerals.Base.{
  ℕ, zero, suc, ◌+◌, ◌≤◌, ◌<◌, true, false, List, [], ◌∷◌, ◌++◌, ltb, if◌then◌else◌, ◌≡◌, ◌≢◌, refl,
  ap, ◌∙◌, arith, length, take, drop, length-append, length-drop, take-append_left,
  drop-append_left, Bytes, be32,
}
use minerals.Exif.{out_of_fuel, Result, ok, err, written}
use minerals.Exif.Png.{
  strip_round, signature, chunk_type, is_end, chunk_size, kept, strip_chunks, strip_png_metadata,
}

-- One whole chunk: its length field says how long it is.
abbrev pub IsChunk : Bytes → Type 0
IsChunk chunk = length chunk ≡ 8 + be32 chunk + 4

-- A sequence of chunks, the last one IEND and no other.
abbrev pub IsBody : List Bytes → Type 0
IsBody [] = ⊥
IsBody (c ∷ []) = IsChunk c × (is_end (chunk_type c) ≡ true)
IsBody (c ∷ d ∷ cs) = IsChunk c × (is_end (chunk_type c) ≡ false) × IsBody (d ∷ cs)

abbrev pub join : List Bytes → Bytes
join [] = []
join (c ∷ cs) = c ++ join cs

abbrev pub join_kept : List Bytes → Bytes
join_kept [] = []
join_kept (c ∷ cs) = kept c ++ join_kept cs

-- What a chunk shows does not depend on what follows it.
be32-append : (c rest : Bytes) → 4 ≤ length c → be32 (c ++ rest) ≡ be32 c
be32-append [] rest h = absurd (omega arith)
be32-append (a ∷ []) rest h = absurd (omega arith)
be32-append (a ∷ b ∷ []) rest h = absurd (omega arith)
be32-append (a ∷ b ∷ d ∷ []) rest h = absurd (omega arith)
be32-append (a ∷ b ∷ d ∷ e ∷ c) rest h = refl

take-append : (n : ℕ) (xs ys : Bytes) → n ≤ length xs → take n (xs ++ ys) ≡ take n xs
take-append zero xs ys h = refl
take-append (suc n) [] ys h = absurd (omega arith)
take-append (suc n) (x ∷ xs) ys h = rw (take-append n xs ys (omega arith))

drop-append : (n : ℕ) (xs ys : Bytes) → n ≤ length xs → drop n (xs ++ ys) ≡ drop n xs ++ ys
drop-append zero xs ys h = refl
drop-append (suc n) [] ys h = absurd (omega arith)
drop-append (suc n) (x ∷ xs) ys h = drop-append n xs ys (omega arith)

chunk_type-append : (c rest : Bytes) → 8 ≤ length c → chunk_type (c ++ rest) ≡ chunk_type c
chunk_type-append c rest h =
    ap (take 4) (drop-append 4 c rest (omega arith))
    ∙ take-append 4 (drop 4 c) rest (omega (arith, length-drop 4 c))

-- One round on a whole chunk.
strip_round-chunk :
    (more : Bytes → Result) (c rest : Bytes)
    → IsChunk c
    → strip_round more (c ++ rest)
      ≡ written (kept c) (if is_end (chunk_type c) then ok [] else more rest)
unfolding strip_round
strip_round-chunk more c rest h =
    let l = length-append c rest in
    let n = be32-append c rest (omega (arith, h)) in
    let t = chunk_type-append c rest (omega (arith, h)) in
    let long : ltb (length (c ++ rest)) 8 ≡ false = ground (arith, l, h) in
    let whole : ltb (length (c ++ rest)) (length c) ≡ false = ground (arith, l) in
    rw (n, long) (rw (← h) (rw (whole, t, take-append_left c rest, drop-append_left c rest) refl))

strip_chunks-step :
    (fuel : ℕ) (c rest : Bytes)
    → IsChunk c
    → strip_chunks (suc fuel) (c ++ rest)
      ≡ written (kept c) (if is_end (chunk_type c) then ok [] else strip_chunks fuel rest)
unfolding strip_chunks
strip_chunks-step fuel [] rest h = absurd (omega arith)
strip_chunks-step fuel (b ∷ c) rest h = strip_round-chunk (strip_chunks fuel) (b ∷ c) rest h

strip_chunks-body :
    (fuel : ℕ) (cs : List Bytes) (trailing : Bytes)
    → IsBody cs
    → length cs ≤ fuel
    → strip_chunks fuel (join cs ++ trailing) ≡ ok (join_kept cs)
strip_chunks-body fuel [] trailing b h = elim b [ ]
strip_chunks-body zero (c ∷ cs) trailing b h = absurd (omega arith)
strip_chunks-body (suc fuel) (c ∷ []) trailing (whole, last) h =
    rw (append-nil c) (strip_chunks-step fuel c trailing whole ∙ rw last refl)
strip_chunks-body (suc fuel) (c ∷ d ∷ cs) trailing (whole, more, b) h =
    rw (append_assoc c (join (d ∷ cs)) trailing) (
      strip_chunks-step fuel c _ whole
      ∙ rw more (rw (strip_chunks-body fuel (d ∷ cs) trailing b (omega arith)) refl))

length-le-join : (cs : List Bytes) → IsBody cs → length cs ≤ length (join cs)
length-le-join [] b = elim b [ ]
length-le-join (c ∷ []) (whole, last) = omega (arith, length-append c [], whole)
length-le-join (c ∷ d ∷ cs) (whole, more, b) =
    omega (arith, length-append c (join (d ∷ cs)), whole, length-le-join (d ∷ cs) b)

-- A PNG made of the signature, whole chunks up to IEND and any bytes after it comes out as the
-- signature and the same chunks byte for byte, less those of type eXIf, iTXt, tEXt and zTXt, and
-- without the trailing bytes.
pub strip_png_metadata-body :
    (cs : List Bytes) (trailing : Bytes)
    → IsBody cs
    → strip_png_metadata (signature ++ join cs ++ trailing) ≡ ok (signature ++ join_kept cs)
unfolding strip_png_metadata
strip_png_metadata-body cs trailing b =
    let l = length-append (join cs) trailing in
    ground (
      arith,
      strip_chunks-body (suc (length (signature ++ join cs ++ trailing))) cs trailing b
          (omega (arith, l, length-le-join cs b)),
    )

strip_chunks_total :
    (fuel : ℕ) (data' : Bytes) → length data' < fuel → strip_chunks fuel data' ≢ err out_of_fuel
unfolding strip_chunks
strip_chunks_total zero data' h = elim h [ ]
strip_chunks_total (suc fuel) [] h = λ e. cc
strip_chunks_total (suc fuel) (b ∷ bs) h = ground (
  arith,
  strip_chunks_total fuel (drop (chunk_size (b ∷ bs)) (b ∷ bs)),
  length-drop (chunk_size (b ∷ bs)) (b ∷ bs),
)

-- On any bytes the fuel is enough: the loop over a PNG's chunks always ends by itself.
pub strip_png_metadata_total : (data' : Bytes) → strip_png_metadata data' ≢ err out_of_fuel
unfolding strip_png_metadata
strip_png_metadata_total data' =
    ground (arith, strip_chunks_total (suc (length data')) (drop 8 data'), length-drop 8 data')
