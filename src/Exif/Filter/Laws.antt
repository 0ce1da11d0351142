-- ===== src/Exif/Filter/Laws.antt =====
-- The filter of an upload ends on any bytes (internal/storage/exif/exif.go).
use minerals.Base.{String, Bool, Option, ◌≢◌, arith, Bytes}
use minerals.Exif.{out_of_fuel, err}
use minerals.Exif.Png.Laws.{strip_png_metadata_total}
use minerals.Exif.Webp.Laws.{strip_webp_metadata_total}
use minerals.Exif.Jpeg.Total.{filter_jpeg_total}
use minerals.Exif.Tags.{Ifd, Item, Items, filter_exif_blob}
use minerals.Exif.Filter.{filter}

-- Whatever the bytes of an upload and its content type, the fuel is enough: the loops over the segments
-- of a JPEG and the chunks of a PNG and of a WebP end by themselves, with an image or an error of the
-- code.
pub filter_total :
    (accepts : String → Bool → Items → Item → Bool) (collect : Bytes → Option Ifd)
    (encode : Ifd → Items → Option Bytes) (data' : Bytes) (content_type : String)
    → filter accepts collect encode data' content_type ≢ err out_of_fuel
unfolding filter
filter_total accepts collect encode data' content_type = ground (
  arith,
  filter_jpeg_total (filter_exif_blob accepts collect encode) data',
  strip_png_metadata_total data',
  strip_webp_metadata_total data',
)
