-- ===== src/Exif/Png.antt =====
-- `stripPNGMetadata` of internal/storage/exif/exif.go.
pub mod Laws
pub mod Safety
mod Examples
use minerals.Base.{
  ℕ, zero, suc, ◌+◌, ◌-◌, ◌*◌, ◌/◌, ◌%◌, ◌^◌, ◌≤◌, ◌<◌, min, String, ◌==◌, Bool, true, false, not,
  ◌&&◌, ◌||◌, Option, none, some, List, [], ◌∷◌, ◌++◌, map, ltb, leb, eqb, if◌then◌else◌, ◌≡◌, ◌≢◌,
  ◌↔◌, ◌⊎◌, refl, sym, ap, ◌∙◌, arith, eq_iff, eq_refl, trim_space, split_on, contains, Bool-cases,
  Option-cases, inl, inr, length, take, drop, any, all, All, All-append, All-of, length-append,
  length-take, length-drop, take-append-drop, take-append_left, drop-append_left, Bytes, codes,
  bytes_eq, has_prefix, be16, be32, le32, put_be16, put_le32, lt→ltb, ltb→lt, leb→le, eqb_iff, itoa,
  read_number, read_number-itoa, itoa_injective, minus-itoa,
}
use minerals.Exif.{
  Error, truncated_png_header, truncated_png_chunk, out_of_fuel, Result, ok, err, written,
}

abbrev pub signature : Bytes
signature = 0x89 ∷ b'P' ∷ b'N' ∷ b'G' ∷ 0x0D ∷ 0x0A ∷ 0x1A ∷ 0x0A ∷ []

-- `string(data[pos+4 : pos+8])`
abbrev pub chunk_type : Bytes → Bytes
chunk_type data' = take 4 (drop 4 data')

abbrev pub is_metadata : Bytes → Bool
is_metadata type =
    bytes_eq type (codes "eXIf")
    || bytes_eq type (codes "iTXt")
    || bytes_eq type (codes "tEXt")
    || bytes_eq type (codes "zTXt")

abbrev pub is_end : Bytes → Bool
is_end type = bytes_eq type (codes "IEND")

-- Header, payload and CRC.
abbrev pub chunk_size : Bytes → ℕ
chunk_size data' = 8 + be32 data' + 4

abbrev pub kept : Bytes → Bytes
kept chunk = if is_metadata (chunk_type chunk) then [] else chunk

-- One round of the loop, over the data that is left; `more` is the rest of the rounds.
unfoldable pub strip_round : (Bytes → Result) → Bytes → Result
strip_round more data' =
    if ltb (length data') 8
    then err truncated_png_header
    else if ltb (length data') (chunk_size data')
    then err truncated_png_chunk
    else written (kept (take (chunk_size data') data'))
        (if is_end (chunk_type data') then ok [] else more (drop (chunk_size data') data'))

unfoldable pub strip_chunks : ℕ → Bytes → Result
unfolding strip_round
strip_chunks zero data' = err out_of_fuel
strip_chunks (suc fuel) [] = ok []
strip_chunks (suc fuel) (b ∷ bs) = strip_round (strip_chunks fuel) (b ∷ bs)

-- Every round takes at least twelve bytes, so a unit of fuel for each byte and one more is enough.
unfoldable pub strip_png_metadata : Bytes → Result
strip_png_metadata data' =
    if ltb (length data') 8 || not (bytes_eq (take 8 data') signature)
    then ok data'
    else written signature (strip_chunks (suc (length data')) (drop 8 data'))
