-- ===== src/Exif/Jpeg/Examples.antt =====
-- A small JPEG: a comment, an APP0 segment and a scan.
use minerals.Base.{Option, none, [], ◌∷◌, ◌≡◌, refl, arith, inl, inr, Bytes}
use minerals.Exif.{ok}
use minerals.Exif.Jpeg.{filter_jpeg}
use minerals.Exif.Jpeg.Laws.{Segment, sized, stream, jpeg}
use minerals.Exif.Jpeg.Privacy.{filter_jpeg-hidden, filter_jpeg-verbatim}

abbrev unfiltered : Bytes → Option Bytes
unfiltered b = none

abbrev comment : Segment
comment = sized 0xFE (0 ∷ 4 ∷ b'h' ∷ b'i' ∷ [])

abbrev app0 : Segment
app0 = sized 0xE0 (0 ∷ 3 ∷ 1 ∷ [])

abbrev picture : Segment
picture = stream (0 ∷ 2 ∷ []) (1 ∷ 0xFF ∷ 0 ∷ 7 ∷ [])

filter_jpeg-hidden_example :
    filter_jpeg unfiltered (jpeg (app0 ∷ comment ∷ picture ∷ []) (9 ∷ []))
    ≡ filter_jpeg unfiltered (jpeg (app0 ∷ picture ∷ []) (9 ∷ []))
filter_jpeg-hidden_example =
    filter_jpeg-hidden unfiltered (app0 ∷ []) (picture ∷ []) comment (9 ∷ [])
      (
        (refl, (refl, omega arith)),
        (
          (refl, (refl, omega arith)),
          (((refl, omega arith), inl (refl, inr (refl, refl, refl))), tt),
        ),
      )
      (inl refl)

filter_jpeg-verbatim_example :
    filter_jpeg unfiltered (jpeg (app0 ∷ picture ∷ []) (9 ∷ []))
    ≡ ok (jpeg (app0 ∷ picture ∷ []) [])
filter_jpeg-verbatim_example =
    filter_jpeg-verbatim unfiltered (app0 ∷ picture ∷ []) (9 ∷ [])
      ((refl, (refl, omega arith)), (((refl, omega arith), inl (refl, inr (refl, refl, refl))), tt))
      (refl, (tt, tt))
