-- ===== src/Exif/Webp.antt =====
-- `stripWebPMetadata` of internal/storage/exif/exif.go.
pub mod Laws
mod Examples
use minerals.Base.{
  ℕ, zero, suc, ◌+◌, ◌-◌, ◌*◌, ◌/◌, ◌%◌, ◌^◌, ◌≤◌, ◌<◌, min, String, ◌==◌, Bool, true, false, not,
  ◌&&◌, ◌||◌, Option, none, some, List, [], ◌∷◌, ◌++◌, map, ltb, leb, eqb, if◌then◌else◌, ◌≡◌, ◌≢◌,
  ◌↔◌, ◌⊎◌, refl, sym, ap, ◌∙◌, arith, eq_iff, eq_refl, trim_space, split_on, contains, Bool-cases,
  Option-cases, inl, inr, length, take, drop, any, all, All, All-append, All-of, length-append,
  length-take, length-drop, take-append-drop, take-append_left, drop-append_left, Bytes, codes,
  bytes_eq, has_prefix, be16, be32, le32, put_be16, put_le32, lt→ltb, ltb→lt, leb→le, eqb_iff, itoa,
  read_number, read_number-itoa, itoa_injective, minus-itoa,
}
use minerals.Exif.{
  Error, truncated_webp_chunk, webp_size_out_of_range, out_of_fuel, Result, ok, err, written,
}

abbrev pub is_webp : Bytes → Bool
is_webp data' =
    not (ltb (length data') 12)
    && bytes_eq (take 4 data') (codes "RIFF")
    && bytes_eq (take 4 (drop 8 data')) (codes "WEBP")

abbrev pub is_metadata : Bytes → Bool
is_metadata type =
    bytes_eq type (codes "EXIF") || bytes_eq type (codes "XMP ") || bytes_eq type (codes "ICCP")

-- The chunk's length field, and its end before padding.
abbrev pub chunk_len : Bytes → ℕ
chunk_len data' = le32 (drop 4 data')

abbrev pub chunk_end : Bytes → ℕ
chunk_end data' = 8 + chunk_len data'

-- Padded to an even boundary, where the data goes on.
unfoldable pub padded_end : Bytes → ℕ
padded_end data' =
    if eqb (chunk_len data' % 2) 1 && ltb (chunk_end data') (length data')
    then chunk_end data' + 1
    else chunk_end data'

abbrev pub kept : Bytes → Bytes
kept chunk = if is_metadata (take 4 chunk) then [] else chunk

-- One round of the loop, over the data that is left; `more` is the rest of the rounds.
unfoldable pub strip_round : (Bytes → Result) → Bytes → Result
strip_round more data' =
    if ltb (length data') 8
    then ok []
    else if ltb (length data') (chunk_end data')
    then err truncated_webp_chunk
    else written (if is_metadata (take 4 data') then [] else take (padded_end data') data')
        (more (drop (padded_end data') data'))

unfoldable pub strip_chunks : ℕ → Bytes → Result
strip_chunks zero data' = err out_of_fuel
strip_chunks (suc fuel) data' = strip_round (strip_chunks fuel) data'

-- The size header is set to the length of what follows it.
unfoldable pub patch_size : Bytes → Result
patch_size out =
    let payload_len = length out - 8 in
    if ltb 0xFFFFFFFF payload_len
    then err webp_size_out_of_range
    else ok (take 4 out ++ (put_le32 payload_len ++ drop 8 out))

abbrev pub and_patch : Result → Result
and_patch (ok out) = patch_size out
and_patch (err e) = err e

unfoldable pub strip_webp_metadata : Bytes → Result
strip_webp_metadata data' =
    if is_webp data'
    then and_patch (written (take 12 data') (strip_chunks (suc (length data')) (drop 12 data')))
    else ok data'
