-- ===== src/Exif.antt =====
-- Metadata filtering of uploaded images (internal/storage/exif/exif.go).
--
-- An image is a list of bytes. A loop that advances a position over the data runs over what is left
-- of the data from there, on fuel.
pub mod Png
pub mod Webp
pub mod Jpeg
pub mod Tags
pub mod Filter
use minerals.Base.{
  ℕ, zero, suc, ◌+◌, ◌-◌, ◌*◌, ◌/◌, ◌%◌, ◌^◌, ◌≤◌, ◌<◌, min, String, ◌==◌, Bool, true, false, not,
  ◌&&◌, ◌||◌, Option, none, some, List, [], ◌∷◌, ◌++◌, map, ltb, leb, eqb, if◌then◌else◌, ◌≡◌, ◌≢◌,
  ◌↔◌, ◌⊎◌, refl, sym, ap, ◌∙◌, arith, eq_iff, eq_refl, trim_space, split_on, contains, Bool-cases,
  Option-cases, inl, inr, length, take, drop, any, all, All, All-append, All-of, length-append,
  length-take, length-drop, take-append-drop, take-append_left, drop-append_left, Bytes, codes,
  bytes_eq, has_prefix, be16, be32, le32, put_be16, put_le32, lt→ltb, ltb→lt, leb→le, eqb_iff, itoa,
  read_number, read_number-itoa, itoa_injective, minus-itoa,
}

pub data Error : Type 0 where
  truncated_png_header truncated_png_chunk : Error
  truncated_webp_chunk webp_size_out_of_range : Error
  not_a_jpeg invalid_jpeg_segment no_marker truncated_sos_header invalid_sos_length : Error
  truncated_segment_header invalid_segment_length segment_too_large : Error
  -- no error of the code: the loop's fuel ran out
  out_of_fuel : Error

pub data Result : Type 0 where
  ok : Bytes → Result
  err : Error → Result

-- Prepends what a loop has already written to what it writes from here on.
abbrev pub written : Bytes → Result → Result
written out (ok rest) = ok (out ++ rest)
written out (err e) = err e
