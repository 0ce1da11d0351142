-- ===== src/Exif/Png/Examples.antt =====
-- A small PNG: a text chunk before its end, and a byte after it.
use minerals.Base.{[], ◌∷◌, ◌++◌, ◌≡◌, refl, Bytes, codes}
use minerals.Exif.{ok}
use minerals.Exif.Png.{strip_png_metadata, signature}
use minerals.Exif.Png.Laws.{strip_png_metadata-body}
use minerals.Exif.Png.Safety.{strip_png_metadata-IsClean, IsClean}

abbrev text : Bytes
text = (0 ∷ 0 ∷ 0 ∷ 2 ∷ []) ++ codes "tEXt" ++ (7 ∷ 8 ∷ []) ++ (1 ∷ 2 ∷ 3 ∷ 4 ∷ [])

abbrev end : Bytes
end = (0 ∷ 0 ∷ 0 ∷ 0 ∷ []) ++ codes "IEND" ++ (5 ∷ 6 ∷ 7 ∷ 8 ∷ [])

stripped : strip_png_metadata (signature ++ ((text ++ end) ++ (9 ∷ []))) ≡ ok (signature ++ end)
stripped = strip_png_metadata-body (text ∷ end ∷ []) (9 ∷ []) (refl, refl, (refl, refl))

strip_png_metadata-IsClean_example :
    (rest : Bytes) × (signature ++ end ≡ signature ++ rest) × IsClean rest
strip_png_metadata-IsClean_example =
    strip_png_metadata-IsClean ((text ++ end) ++ (9 ∷ [])) (signature ++ end) stripped
