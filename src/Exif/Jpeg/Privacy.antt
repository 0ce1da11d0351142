-- ===== src/Exif/Jpeg/Privacy.antt =====
-- What survives in a filtered JPEG (internal/storage/exif/exif.go).
use minerals.Base.{
  true, false, ◌||◌, Option, none, List, [], ◌∷◌, ◌++◌, eqb, ◌≡◌, ◌⊎◌, refl, sym, ap, ◌∙◌, arith,
  inl, inr, drop, All, Bytes, has_prefix,
}
use minerals.Exif.{Result, ok, err, written}
use minerals.Exif.Jpeg.{
  jpeg_soi, jpeg_app1, jpeg_com, exif_header, xmp_header, and_more, filtered_exif, kept_segment,
  filter_jpeg,
}
use minerals.Exif.Jpeg.Laws.{
  Segment, sized, stream, IsSegment, segment_bytes, tail_bytes, jpeg, kept_of, all_kept,
  filter_jpeg-eq-all_kept,
}

-- Exif data does not begin like XMP.
xmp_not_exif : (p : Bytes) → has_prefix p xmp_header ≡ true → has_prefix p exif_header ≡ false
xmp_not_exif [] h = refl
xmp_not_exif (x ∷ p) h = let first : eqb x b'h' ≡ true = ground (arith, h) in ground (arith, first)

module _ (filter_blob : Bytes → Option Bytes) where
  and_more-nil : (r : Result) → and_more (ok []) r ≡ r
  and_more-nil (ok out) = refl
  and_more-nil (err e) = refl

  all_kept-insert :
      (before after : List Segment) (s : Segment)
      → kept_of filter_blob s ≡ ok []
      → all_kept filter_blob (before ++ s ∷ after) ≡ all_kept filter_blob (before ++ after)
  all_kept-insert [] after s h = rw h (and_more-nil (all_kept filter_blob after))
  all_kept-insert (b ∷ before) after s h = rw (all_kept-insert before after s h) refl

  -- A comment, XMP data, or Exif data that cannot be filtered.
  abbrev pub IsHidden : Segment → Type 0
  IsHidden (stream h e) = ⊥
  IsHidden (sized m body) =
      (m ≡ jpeg_com)
      ⊎ (((m ≡ jpeg_app1) × (has_prefix (drop 2 body) xmp_header ≡ true))
          ⊎ ((m ≡ jpeg_app1)
              × (has_prefix (drop 2 body) exif_header ≡ true)
              × (filter_blob (drop 6 (drop 2 body)) ≡ none)))

  kept_of-IsHidden : (s : Segment) → IsHidden s → kept_of filter_blob s ≡ ok []
  unfolding kept_segment filtered_exif
  kept_of-IsHidden (sized m body) (inl h) = rw h refl
  kept_of-IsHidden (sized m body) (inr (inl (h, x))) =
      rw h (rw (xmp_not_exif (drop 2 body) x) (rw x refl))
  kept_of-IsHidden (sized m body) (inr (inr (h, x, f))) = rw h (rw x (rw (f, filtered_exif) refl))
  kept_of-IsHidden (stream a e) h = elim h [ ]

  All-remove :
      (before after : List Segment) (s : Segment)
      → All IsSegment (before ++ s ∷ after)
      → All IsSegment (before ++ after)
  All-remove [] after s (h, hs) = hs
  All-remove (b ∷ before) after s (h, hs) = (h, All-remove before after s hs)

  -- A comment, an XMP packet or Exif data that cannot be filtered leaves no trace: for a JPEG of whole
  -- segments, scans included, the filter returns the same bytes, or the same error, as for the JPEG
  -- without that segment, wherever it stands and whatever it holds.
  pub filter_jpeg-hidden :
      (before after : List Segment) (s : Segment) (trailing : Bytes)
      → All IsSegment (before ++ s ∷ after)
      → IsHidden s
      → filter_jpeg filter_blob (jpeg (before ++ s ∷ after) trailing)
        ≡ filter_jpeg filter_blob (jpeg (before ++ after) trailing)
  filter_jpeg-hidden before after s trailing h hidden =
      filter_jpeg-eq-all_kept filter_blob (before ++ s ∷ after) trailing h
      ∙ ap (written (0xFF ∷ jpeg_soi ∷ []))
          (all_kept-insert before after s (kept_of-IsHidden s hidden))
      ∙ sym (
          filter_jpeg-eq-all_kept filter_blob (before ++ after) trailing
            (All-remove before after s h))

  -- A segment that is neither a comment nor APP1.
  abbrev pub IsPlain : Segment → Type 0
  IsPlain (stream h e) = Unit
  IsPlain (sized m body) = (eqb m jpeg_com || eqb m jpeg_app1) ≡ false

  kept_of-IsPlain : (s : Segment) → IsPlain s → kept_of filter_blob s ≡ ok (segment_bytes s)
  unfolding kept_segment
  kept_of-IsPlain (stream h e) p = refl
  kept_of-IsPlain (sized m body) p = ground (arith, p)

  all_kept-IsPlain :
      (ss : List Segment) → All IsPlain ss → all_kept filter_blob ss ≡ ok (tail_bytes ss [])
  all_kept-IsPlain [] h = refl
  all_kept-IsPlain (s ∷ ss) (p, h) = rw (kept_of-IsPlain s p, all_kept-IsPlain ss h) refl

  -- Nothing else is touched: a JPEG of whole segments with no comment and no APP1 segment comes out byte
  -- for byte as it was, its scans and its APP13 segments included, but for the bytes after the end of the
  -- image.
  pub filter_jpeg-verbatim :
      (ss : List Segment) (trailing : Bytes)
      → All IsSegment ss
      → All IsPlain ss
      → filter_jpeg filter_blob (jpeg ss trailing) ≡ ok (jpeg ss [])
  filter_jpeg-verbatim ss trailing h p =
      filter_jpeg-eq-all_kept filter_blob ss trailing h
      ∙ ap (written (0xFF ∷ jpeg_soi ∷ [])) (all_kept-IsPlain ss p)
