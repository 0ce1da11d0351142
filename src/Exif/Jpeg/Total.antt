-- ===== src/Exif/Jpeg/Total.antt =====
-- The walk over any bytes ends by itself (internal/storage/exif/exif.go).
use minerals.Base.{
  ℕ, zero, suc, ◌≤◌, ◌<◌, Option, [], ◌∷◌, ◌++◌, ◌≢◌, arith, Option-cases, length, take, drop,
  length-drop, Bytes, be16,
}
use minerals.Exif.{out_of_fuel, Result, ok, err, written}
use minerals.Exif.Jpeg.{
  and_more, replaced, filtered_exif, kept_segment, fills, scan, sos_round, segment_round,
  marker_round, after_fills, walk_round, walk, filter_jpeg,
}

fills-length : (d : Bytes) → length (fills d).1 ≤ length d
unfolding fills
fills-length [] = omega arith
fills-length (x ∷ xs) = ground (arith, fills-length xs)

scan-length : (d : Bytes) → length (scan d).1 ≤ length d
unfolding scan
scan-length [] = omega arith
scan-length (x ∷ []) = omega arith
scan-length (x ∷ y ∷ d) = ground (arith, scan-length (y ∷ d), scan-length d)

written_total : (out : Bytes) (r : Result) → r ≢ err out_of_fuel → written out r ≢ err out_of_fuel
written_total out (ok rest) h = λ e. cc
written_total out (err x) h = h

module _ (filter_blob : Bytes → Option Bytes) where
  -- The rest of the rounds ends on whatever is shorter than `d`.
  abbrev Ends : (Bytes → Result) → ℕ → Type 0
  Ends more n = (e : Bytes) → length e < n → more e ≢ err out_of_fuel

  kept_segment_total :
      (m : ℕ) (head body : Bytes) → kept_segment filter_blob m head body ≢ err out_of_fuel
  unfolding kept_segment filtered_exif replaced
  kept_segment_total m head body = ground (arith, Option-cases (filter_blob (drop 6 (drop 2 body))))

  and_more_total :
      (a b : Result) → a ≢ err out_of_fuel → b ≢ err out_of_fuel → and_more a b ≢ err out_of_fuel
  and_more_total (ok out) b h k = written_total out b k
  and_more_total (err x) b h k = h

  sos_round_total :
      (more : Bytes → Result) (head d : Bytes)
      → Ends more (length d)
      → sos_round filter_blob more head d ≢ err out_of_fuel
  unfolding sos_round
  sos_round_total more head d h = ground (
    arith,
    h (scan (drop (be16 d) d)).1,
    scan-length (drop (be16 d) d),
    length-drop (be16 d) d,
    written_total (head ++ (take (be16 d) d ++ (scan (drop (be16 d) d)).0))
        (more (scan (drop (be16 d) d)).1),
  )

  segment_round_total :
      (more : Bytes → Result) (m : ℕ) (head d : Bytes)
      → Ends more (length d)
      → segment_round filter_blob more m head d ≢ err out_of_fuel
  unfolding segment_round
  segment_round_total more m head d h = ground (
    arith,
    h (drop (be16 d) d),
    length-drop (be16 d) d,
    kept_segment_total m head (take (be16 d) d),
    and_more_total (kept_segment filter_blob m head (take (be16 d) d)) (more (drop (be16 d) d)),
  )

  marker_round_total :
      (more : Bytes → Result) (ffs : Bytes) (m : ℕ) (d : Bytes)
      → Ends more (suc (length d))
      → marker_round filter_blob more ffs m d ≢ err out_of_fuel
  unfolding marker_round
  marker_round_total more ffs m d h =
      let shorter : Ends more (length d) = λ e l. h e (omega (arith, l)) in
      ground (
        arith,
        written_total (ffs ++ (m ∷ [])) (more d) (h d (omega arith)),
        sos_round_total more (ffs ++ (m ∷ [])) d shorter,
        segment_round_total more m (ffs ++ (m ∷ [])) d shorter,
      )

  after_fills_total :
      (more : Bytes → Result) (f : Bytes × Bytes)
      → Ends more (length f.1)
      → after_fills filter_blob more f ≢ err out_of_fuel
  after_fills_total more (ffs, []) h = λ e. cc
  after_fills_total more (ffs, m ∷ d) h = marker_round_total more ffs m d h

  walk_total : (fuel : ℕ) (d : Bytes) → length d < fuel → walk filter_blob fuel d ≢ err out_of_fuel
  unfolding walk walk_round
  walk_total zero d h = elim h [ ]
  walk_total (suc fuel) [] h = λ e. cc
  walk_total (suc fuel) (x ∷ xs) h =
      let ends : Ends (walk filter_blob fuel) (length (fills (x ∷ xs)).1) =
        λ e l. walk_total fuel e (omega (arith, l, fills-length (x ∷ xs), h)) in
      ground (arith, after_fills_total (walk filter_blob fuel) (fills (x ∷ xs)) ends)

  -- On any bytes the fuel is enough: the walk over a JPEG's segments always ends by itself.
  pub filter_jpeg_total : (d : Bytes) → filter_jpeg filter_blob d ≢ err out_of_fuel
  unfolding filter_jpeg
  filter_jpeg_total [] = λ e. cc
  filter_jpeg_total (a ∷ []) = λ e. cc
  filter_jpeg_total (a ∷ b ∷ d) = ground (
    arith,
    written_total (a ∷ b ∷ []) (walk filter_blob (suc (length d)) d)
        (walk_total (suc (length d)) d (omega arith)),
  )
