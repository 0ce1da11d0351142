-- ===== src/Exif/Filter/Examples.antt =====
-- A truncated JPEG.
use minerals.Base.{true, none, [], ◌∷◌, ◌≢◌}
use minerals.Exif.{out_of_fuel, err}
use minerals.Exif.Filter.{filter, content_type_jpeg}
use minerals.Exif.Filter.Laws.{filter_total}

filter_total_example :
    filter
      (λ identity big_endian items item. true)
      (λ raw. none)
      (λ root items. none)
      (0xFF ∷ 0xD8 ∷ 0xFF ∷ [])
      content_type_jpeg
    ≢ err out_of_fuel
filter_total_example =
    filter_total (λ identity big_endian items item. true) (λ raw. none) (λ root items. none)
      (0xFF ∷ 0xD8 ∷ 0xFF ∷ []) content_type_jpeg
