-- ===== src/Exif/Jpeg.antt =====
-- `filterJPEG` of internal/storage/exif/exif.go: `walkJPEGSegments` with filter=true.
--
-- `filter_blob` is `filterEXIFBlob`, which the module Tags models; `none` is its error.
pub mod Laws
pub mod Privacy
pub mod Total
mod Examples
use minerals.Base.{
  ℕ, zero, suc, ◌+◌, ◌-◌, ◌*◌, ◌/◌, ◌%◌, ◌^◌, ◌≤◌, ◌<◌, min, String, ◌==◌, Bool, true, false, not,
  ◌&&◌, ◌||◌, Option, none, some, List, [], ◌∷◌, ◌++◌, map, ltb, leb, eqb, if◌then◌else◌, ◌≡◌, ◌≢◌,
  ◌↔◌, ◌⊎◌, refl, sym, ap, ◌∙◌, arith, eq_iff, eq_refl, trim_space, split_on, contains, Bool-cases,
  Option-cases, inl, inr, length, take, drop, any, all, All, All-append, All-of, length-append,
  length-take, length-drop, take-append-drop, take-append_left, drop-append_left, Bytes, codes,
  bytes_eq, has_prefix, be16, be32, le32, put_be16, put_le32, lt→ltb, ltb→lt, leb→le, eqb_iff, itoa,
  read_number, read_number-itoa, itoa_injective, minus-itoa,
}
use minerals.Exif.{
  not_a_jpeg, invalid_jpeg_segment, no_marker, truncated_sos_header, invalid_sos_length,
  truncated_segment_header, invalid_segment_length, segment_too_large, out_of_fuel, Result, ok, err,
  written,
}

abbrev pub jpeg_soi : ℕ
jpeg_soi = 0xD8

abbrev pub jpeg_eoi : ℕ
jpeg_eoi = 0xD9

abbrev pub jpeg_sos : ℕ
jpeg_sos = 0xDA

abbrev pub jpeg_app1 : ℕ
jpeg_app1 = 0xE1

abbrev pub jpeg_com : ℕ
jpeg_com = 0xFE

abbrev pub is_restart : ℕ → Bool
is_restart marker = leb 0xD0 marker && leb marker 0xD7

abbrev pub exif_header : Bytes
exif_header = codes "Exif" ++ (0 ∷ 0 ∷ [])

abbrev pub xmp_header : Bytes
xmp_header = codes "http://ns.adobe.com/xap/1.0/"

abbrev cons_first : ℕ → Bytes × Bytes → Bytes × Bytes
cons_first x (before, after) = (x ∷ before, after)

-- The leading 0xFF bytes, and what follows them.
unfoldable pub fills : Bytes → Bytes × Bytes
fills [] = ([], [])
fills (x ∷ xs) = let rest = fills xs in if eqb x 0xFF then cons_first x rest else ([], x ∷ xs)

-- The entropy-coded data that is streamed verbatim, and what follows it from the next marker on.
unfoldable pub scan : Bytes → Bytes × Bytes
scan [] = ([], [])
scan (x ∷ []) = (x ∷ [], [])
scan (x ∷ next ∷ xs) =
    let one = scan (next ∷ xs) in
    let two = scan xs in
    if not (eqb x 0xFF)
    then cons_first x one
    else if eqb next 0 || is_restart next
    then cons_first x (cons_first next two)
    else ([], x ∷ next ∷ xs)

-- What is left of a segment's fill bytes and marker when it is dropped: the last two bytes go.
abbrev pub rolled_back : Bytes → Bytes
rolled_back head = take (length head - 2) head

abbrev pub and_more : Result → Result → Result
and_more (ok out) rest = written out rest
and_more (err e) rest = err e

unfoldable pub replaced : Bytes → Bytes → Result
replaced head replacement =
    let new_len = length replacement + 2 in
    if ltb 0xFFFF new_len
    then err segment_too_large
    else ok (head ++ (put_be16 new_len ++ replacement))

module _ (filter_blob : Bytes → Option Bytes) where
  unfoldable pub filtered_exif : Bytes → Bytes → Result
  filtered_exif head raw_exif = elim (filter_blob raw_exif) [
    | none ↦ ok (rolled_back head)
    | some filtered ↦
        if eqb (length filtered) 0
        then ok (rolled_back head)
        else replaced head (exif_header ++ filtered)
  ]

  -- What is written of a segment, of which `head` is the fill bytes and the marker and `body` the length
  -- field and the payload.
  unfoldable pub kept_segment : ℕ → Bytes → Bytes → Result
  kept_segment marker head body =
      let payload = drop 2 body in
      if eqb marker jpeg_app1 && has_prefix payload exif_header
      then filtered_exif head (drop 6 payload)
      else if (eqb marker jpeg_app1 && has_prefix payload xmp_header) || eqb marker jpeg_com
      then ok (rolled_back head)
      else ok (head ++ body)

  -- The cases of the marker, over the data after it; `more` is the rest of the rounds.
  unfoldable pub sos_round : (Bytes → Result) → Bytes → Bytes → Result
  sos_round more head d =
      if ltb (length d) 2
      then err truncated_sos_header
      else let seg_len = be16 d in
        if ltb (length d) seg_len || ltb seg_len 2
        then err invalid_sos_length
        else let (entropy, rest) = scan (drop seg_len d) in
          written (head ++ (take seg_len d ++ entropy)) (more rest)

  unfoldable pub segment_round : (Bytes → Result) → ℕ → Bytes → Bytes → Result
  segment_round more marker head d =
      if ltb (length d) 2
      then err truncated_segment_header
      else let seg_len = be16 d in
        if ltb seg_len 2 || ltb (length d) seg_len
        then err invalid_segment_length
        else and_more (kept_segment marker head (take seg_len d)) (more (drop seg_len d))

  unfoldable pub marker_round : (Bytes → Result) → Bytes → ℕ → Bytes → Result
  marker_round more ffs marker d =
      let head = ffs ++ (marker ∷ []) in
      if eqb marker jpeg_soi
      then written head (more d)
      else if eqb marker jpeg_eoi
      then ok head
      else if is_restart marker
      then written head (more d)
      else if eqb marker jpeg_sos
      then sos_round more head d
      else segment_round more marker head d

  abbrev pub after_fills : (Bytes → Result) → Bytes × Bytes → Result
  after_fills more (ffs, []) = err no_marker
  after_fills more (ffs, marker ∷ d) = marker_round more ffs marker d

  unfoldable pub walk_round : (Bytes → Result) → Bytes → Result
  walk_round more [] = ok []
  walk_round more (x ∷ xs) =
      if not (eqb x 0xFF) then err invalid_jpeg_segment else after_fills more (fills (x ∷ xs))

  unfoldable pub walk : ℕ → Bytes → Result
  walk zero d = err out_of_fuel
  walk (suc fuel) d = walk_round (walk fuel) d

  unfoldable pub filter_jpeg : Bytes → Result
  filter_jpeg (a ∷ b ∷ d) =
      if not (eqb a 0xFF) || not (eqb b jpeg_soi)
      then err not_a_jpeg
      else written (a ∷ b ∷ []) (walk (suc (length d)) d)
  filter_jpeg _ = err not_a_jpeg
