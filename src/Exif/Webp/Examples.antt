-- ===== src/Exif/Webp/Examples.antt =====
-- A small WebP: an image chunk with its padding, and an Exif chunk.
use minerals.Base.{[], ◌∷◌, ◌++◌, ◌≡◌, refl, arith, Bytes, codes}
use minerals.Exif.{ok}
use minerals.Exif.Webp.{strip_webp_metadata}
use minerals.Exif.Webp.Laws.{riff, strip_webp_metadata-body}

abbrev image : Bytes
image = codes "VP8 " ++ (3 ∷ 0 ∷ 0 ∷ 0 ∷ []) ++ (7 ∷ 8 ∷ 9 ∷ 0 ∷ [])

abbrev meta : Bytes
meta = codes "EXIF" ++ (2 ∷ 0 ∷ 0 ∷ 0 ∷ []) ++ (1 ∷ 2 ∷ [])

abbrev upload : Bytes
upload = riff (26 ∷ 0 ∷ 0 ∷ 0 ∷ []) ++ ((image ++ (meta ++ [])) ++ [])

strip_webp_metadata-body_example :
    strip_webp_metadata upload ≡ ok (riff (16 ∷ 0 ∷ 0 ∷ 0 ∷ []) ++ image)
strip_webp_metadata-body_example =
    strip_webp_metadata-body 26 0 0 0 (image ∷ meta ∷ []) [] (refl, (refl, tt)) (omega arith)
      (omega arith)
