-- ===== src/Exif/Webp/Laws.antt =====
-- Stripping a WebP removes its metadata chunks and sets the size header.
use mathlib.Core.List.{append_assoc}
use minerals.Base.{
  ℕ, zero, suc, ◌+◌, ◌%◌, ◌≤◌, ◌<◌, false, ◌&&◌, List, [], ◌∷◌, ◌++◌, ltb, eqb, if◌then◌else◌, ◌≡◌,
  ◌≢◌, refl, ◌∙◌, arith, length, take, drop, All, length-append, length-drop, take-append_left,
  drop-append_left, Bytes, codes, put_le32, lt→ltb,
}
use minerals.Exif.{out_of_fuel, Result, ok, err, written}
use minerals.Exif.Webp.{
  chunk_len, padded_end, kept, strip_round, strip_chunks, patch_size, strip_webp_metadata,
}

-- One whole chunk with its padding.
abbrev pub IsChunk : Bytes → Type 0
IsChunk c = length c ≡ 8 + chunk_len c + chunk_len c % 2

abbrev pub join : List Bytes → Bytes
join [] = []
join (c ∷ cs) = c ++ join cs

abbrev pub join_kept : List Bytes → Bytes
join_kept [] = []
join_kept (c ∷ cs) = kept c ++ join_kept cs

-- What a chunk shows does not depend on what follows it.
header-append :
    (c rest : Bytes)
    → 8 ≤ length c
    → (chunk_len (c ++ rest) ≡ chunk_len c) × (take 4 (c ++ rest) ≡ take 4 c)
header-append (a ∷ b ∷ d ∷ e ∷ f ∷ g ∷ h ∷ i ∷ c) rest p = (refl, refl)
header-append _ rest p = absurd (omega arith)

strip_round-chunk :
    (more : Bytes → Result) (c rest : Bytes)
    → IsChunk c
    → strip_round more (c ++ rest) ≡ written (kept c) (more rest)
unfolding strip_round padded_end
strip_round-chunk more c rest h =
    let l = length-append c rest in
    let (n, t) = header-append c rest (omega (arith, h)) in
    let long : ltb (length (c ++ rest)) 8 ≡ false = ground (arith, l, h) in
    let whole : ltb (length (c ++ rest)) (8 + chunk_len c) ≡ false = ground (arith, l, h) in
    let size : (if eqb (chunk_len c % 2) 1 && ltb (8 + chunk_len c) (length (c ++ rest))
          then 8 + chunk_len c + 1
          else 8 + chunk_len c)
        ≡ length c =
      ground (arith, l, h) in
    rw (n, long, whole, size, t, take-append_left c rest, drop-append_left c rest) refl

strip_chunks-short : (fuel : ℕ) (t : Bytes) → length t < 8 → strip_chunks (suc fuel) t ≡ ok []
unfolding strip_chunks strip_round
strip_chunks-short fuel t h = rw (lt→ltb (length t) 8 h) refl

strip_chunks-step :
    (fuel : ℕ) (c rest : Bytes)
    → IsChunk c
    → strip_chunks (suc fuel) (c ++ rest) ≡ written (kept c) (strip_chunks fuel rest)
unfolding strip_chunks
strip_chunks-step fuel c rest h = strip_round-chunk (strip_chunks fuel) c rest h

strip_chunks-body :
    (fuel : ℕ) (cs : List Bytes) (trailing : Bytes)
    → All IsChunk cs
    → length trailing < 8
    → length cs < fuel
    → strip_chunks fuel (join cs ++ trailing) ≡ ok (join_kept cs)
strip_chunks-body zero cs trailing b s h = elim h [ ]
strip_chunks-body (suc fuel) [] trailing b s h = strip_chunks-short fuel trailing s
strip_chunks-body (suc fuel) (c ∷ cs) trailing (whole, b) s h =
    rw (append_assoc c (join cs) trailing) (
      strip_chunks-step fuel c (join cs ++ trailing) whole
      ∙ rw (strip_chunks-body fuel cs trailing b s (omega arith)) refl)

length-le-join : (cs : List Bytes) → All IsChunk cs → length cs ≤ length (join cs)
length-le-join [] b = omega arith
length-le-join (c ∷ cs) (whole, b) =
    omega (arith, length-append c (join cs), whole, length-le-join cs b)

-- The twelve bytes that a WebP begins with, around its size field.
abbrev pub riff : Bytes → Bytes
riff size = codes "RIFF" ++ (size ++ codes "WEBP")

-- A WebP made of its header, whole padded chunks and fewer than eight more bytes comes out as its
-- header with the size of what is left, and the same chunks byte for byte, less those of type EXIF,
-- XMP and ICCP, if that size fits in 32 bits.
pub strip_webp_metadata-body :
    (a b c d : ℕ) (cs : List Bytes) (trailing : Bytes)
    → All IsChunk cs
    → length trailing < 8
    → 4 + length (join_kept cs) ≤ 0xFFFFFFFF
    → strip_webp_metadata (riff (a ∷ b ∷ c ∷ d ∷ []) ++ (join cs ++ trailing))
      ≡ ok (riff (put_le32 (4 + length (join_kept cs))) ++ join_kept cs)
unfolding strip_webp_metadata patch_size
strip_webp_metadata-body a b c d cs trailing whole short fits =
    let l = length-append (join cs) trailing in
    let file = riff (a ∷ b ∷ c ∷ d ∷ []) ++ (join cs ++ trailing) in
    ground (
      arith,
      fits,
      strip_chunks-body (suc (length file)) cs trailing whole short
          (omega (arith, l, length-le-join cs whole)),
    )

padded_end-lower : (d : Bytes) → 8 ≤ padded_end d
unfolding padded_end
padded_end-lower d = ground arith

strip_round_total :
    (more : Bytes → Result) (d : Bytes)
    → ((e : Bytes) → length e < length d → more e ≢ err out_of_fuel)
    → strip_round more d ≢ err out_of_fuel
unfolding strip_round
strip_round_total more d h =
    ground (arith, h (drop (padded_end d) d), length-drop (padded_end d) d, padded_end-lower d)

strip_chunks_total :
    (fuel : ℕ) (data' : Bytes) → length data' < fuel → strip_chunks fuel data' ≢ err out_of_fuel
unfolding strip_chunks
strip_chunks_total zero data' h = elim h [ ]
strip_chunks_total (suc fuel) data' h =
    strip_round_total (strip_chunks fuel) data'
      (λ e l. strip_chunks_total fuel e (omega (arith, h, l)))

-- On any bytes the fuel is enough: the loop over a WebP's chunks always ends by itself.
pub strip_webp_metadata_total : (data' : Bytes) → strip_webp_metadata data' ≢ err out_of_fuel
unfolding strip_webp_metadata patch_size
strip_webp_metadata_total data' =
    ground (arith, strip_chunks_total (suc (length data')) (drop 12 data'), length-drop 12 data')
