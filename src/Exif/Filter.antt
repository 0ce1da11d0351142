-- ===== src/Exif/Filter.antt =====
-- `Filter` of internal/storage/exif/exif.go: the filter of an upload by its content type.
pub mod Laws
mod Examples
use minerals.Base.{
  ℕ, zero, suc, ◌+◌, ◌-◌, ◌*◌, ◌/◌, ◌%◌, ◌^◌, ◌≤◌, ◌<◌, min, String, ◌==◌, Bool, true, false, not,
  ◌&&◌, ◌||◌, Option, none, some, List, [], ◌∷◌, ◌++◌, map, ltb, leb, eqb, if◌then◌else◌, ◌≡◌, ◌≢◌,
  ◌↔◌, ◌⊎◌, refl, sym, ap, ◌∙◌, arith, eq_iff, eq_refl, trim_space, split_on, contains, Bool-cases,
  Option-cases, inl, inr, length, take, drop, any, all, All, All-append, All-of, length-append,
  length-take, length-drop, take-append-drop, take-append_left, drop-append_left, Bytes, codes,
  bytes_eq, has_prefix, be16, be32, le32, put_be16, put_le32, lt→ltb, ltb→lt, leb→le, eqb_iff, itoa,
  read_number, read_number-itoa, itoa_injective, minus-itoa,
}
use minerals.Exif.{Result, ok}
use minerals.Exif.Png.{strip_png_metadata}
use minerals.Exif.Webp.{strip_webp_metadata}
use minerals.Exif.Jpeg.{filter_jpeg}
use minerals.Exif.Tags.{Ifd, Item, Items, filter_exif_blob}

abbrev pub content_type_jpeg : String
content_type_jpeg = "image/jpeg"

abbrev pub content_type_png : String
content_type_png = "image/png"

abbrev pub content_type_webp : String
content_type_webp = "image/webp"

-- The parameters are go-exif's, as in `filter_exif_blob`.
unfoldable pub filter :
    (String → Bool → Items → Item → Bool)
    → (Bytes → Option Ifd)
    → (Ifd → Items → Option Bytes)
    → Bytes
    → String
    → Result
filter accepts collect encode data' content_type =
    if content_type == content_type_jpeg
    then filter_jpeg (filter_exif_blob accepts collect encode) data'
    else if content_type == content_type_png
    then strip_png_metadata data'
    else if content_type == content_type_webp
    then strip_webp_metadata data'
    else ok data'
