-- ===== src/Exif/Jpeg/Laws.antt =====
-- The walk over a JPEG made of whole segments (internal/storage/exif/exif.go).
use mathlib.Core.List.{append_assoc}
use minerals.Base.{
  ℕ, zero, suc, ◌≤◌, ◌<◌, Bool, true, false, not, ◌&&◌, ◌||◌, Option, List, [], ◌∷◌, ◌++◌, ltb, eqb,
  ◌≡◌, ◌⊎◌, refl, sym, ap, ◌∙◌, arith, inl, inr, length, All, length-append, take-append_left,
  drop-append_left, Bytes, be16,
}
use minerals.Exif.{Result, ok, written}
use minerals.Exif.Jpeg.{
  jpeg_soi, jpeg_eoi, jpeg_sos, is_restart, fills, scan, and_more, kept_segment, sos_round,
  segment_round, marker_round, after_fills, walk_round, walk, filter_jpeg,
}

-- The markers of segments with a length, other than the start of a scan.
abbrev pub is_sized : ℕ → Bool
is_sized m =
    not (eqb m jpeg_soi)
    && not (eqb m jpeg_eoi)
    && not (is_restart m)
    && not (eqb m jpeg_sos)
    && not (eqb m 0xFF)
    && not (eqb m 0)

-- Stuffed entropy-coded data: every 0xFF is followed by 0 or a restart marker.
abbrev pub IsEntropy : Bytes → Type 0
IsEntropy [] = Unit
IsEntropy (x ∷ []) = eqb x 0xFF ≡ false
IsEntropy (x ∷ y ∷ d) =
    ((eqb x 0xFF ≡ false) × IsEntropy (y ∷ d))
    ⊎ ((eqb x 0xFF ≡ true) × ((eqb y 0 || is_restart y) ≡ true) × IsEntropy d)

-- Scanning stuffed data stops at the marker after it.
scan-entropy :
    (e : Bytes) (m : ℕ) (rest : Bytes)
    → IsEntropy e
    → (eqb m 0 || is_restart m) ≡ false
    → scan (e ++ 0xFF ∷ m ∷ rest) ≡ (e, 0xFF ∷ m ∷ rest)
unfolding scan
scan-entropy [] m rest h s = ground (arith, s)
scan-entropy (x ∷ []) m rest h s = rw (h, s) refl
scan-entropy (x ∷ y ∷ d) m rest (inl (n, h)) s = rw (n, scan-entropy (y ∷ d) m rest h s) refl
scan-entropy (x ∷ y ∷ d) m rest (inr (n, st, h)) s = rw (n, st, scan-entropy d m rest h s) refl

-- A segment after one fill byte and its marker: its length field and payload; or the header of a
-- scan and its data.
pub data Segment : Type 0 where
  sized : (marker : ℕ) (body : Bytes) → Segment
  stream : (header entropy : Bytes) → Segment

-- The length field counts itself and the payload.
abbrev pub IsBody : Bytes → Type 0
IsBody body = (length body ≡ be16 body) × (2 ≤ length body)

abbrev pub IsSegment : Segment → Type 0
IsSegment (sized m body) = (is_sized m ≡ true) × IsBody body
IsSegment (stream h e) = IsBody h × IsEntropy e

abbrev pub segment_bytes : Segment → Bytes
segment_bytes (sized m body) = 0xFF ∷ m ∷ body
segment_bytes (stream h e) = 0xFF ∷ jpeg_sos ∷ (h ++ e)

-- The segments, the end marker and what trails it.
abbrev pub tail_bytes : List Segment → Bytes → Bytes
tail_bytes [] trailing = 0xFF ∷ jpeg_eoi ∷ trailing
tail_bytes (s ∷ ss) trailing = segment_bytes s ++ tail_bytes ss trailing

abbrev pub jpeg : List Segment → Bytes → Bytes
jpeg ss trailing = 0xFF ∷ jpeg_soi ∷ tail_bytes ss trailing

-- What follows a segment begins with a marker that ends a scan.
record IsMarked (d : Bytes) : Type 0 where
  marker : ℕ
  rest : Bytes
  shape : d ≡ 0xFF ∷ marker ∷ rest
  ends : (eqb marker 0 || is_restart marker) ≡ false

IsMarked-tail :
    (ss : List Segment) (trailing : Bytes) → All IsSegment ss → IsMarked (tail_bytes ss trailing)
IsMarked-tail [] trailing h = record {
  marker = jpeg_eoi;
  rest = trailing;
  shape = refl;
  ends = refl;
}
IsMarked-tail (sized m body ∷ ss) trailing ((ok', b), h) = record {
  marker = m;
  rest = body ++ tail_bytes ss trailing;
  shape = refl;
  ends = ground arith;
}
IsMarked-tail (stream e d ∷ ss) trailing (b, h) = record {
  marker = jpeg_sos;
  rest = (e ++ d) ++ tail_bytes ss trailing;
  shape = refl;
  ends = refl;
}

fills-one : (m : ℕ) (d : Bytes) → eqb m 0xFF ≡ false → fills (0xFF ∷ m ∷ d) ≡ (0xFF ∷ [], m ∷ d)
unfolding fills
fills-one m d h = rw h refl

be16-append : (b rest : Bytes) → 2 ≤ length b → be16 (b ++ rest) ≡ be16 b
be16-append [] rest h = absurd (omega arith)
be16-append (x ∷ []) rest h = absurd (omega arith)
be16-append (x ∷ y ∷ b) rest h = refl

length-tail_bytes :
    (ss : List Segment) (trailing : Bytes) → length ss < length (tail_bytes ss trailing)
length-tail_bytes [] trailing = omega arith
length-tail_bytes (sized m body ∷ ss) trailing =
    omega (arith, length-append body (tail_bytes ss trailing), length-tail_bytes ss trailing)
length-tail_bytes (stream h e ∷ ss) trailing =
    omega (arith, length-append (h ++ e) (tail_bytes ss trailing), length-tail_bytes ss trailing)

module _ (filter_blob : Bytes → Option Bytes) where
  marker_round-sos :
      (more : Bytes → Result) (d : Bytes)
      → marker_round filter_blob more (0xFF ∷ []) jpeg_sos d
        ≡ sos_round filter_blob more (0xFF ∷ jpeg_sos ∷ []) d
  unfolding marker_round
  marker_round-sos more d = refl

  marker_round-eoi :
      (more : Bytes → Result) (d : Bytes)
      → marker_round filter_blob more (0xFF ∷ []) jpeg_eoi d ≡ ok (0xFF ∷ jpeg_eoi ∷ [])
  unfolding marker_round
  marker_round-eoi more d = refl

  abbrev pub kept_of : Segment → Result
  kept_of (sized m body) = kept_segment filter_blob m (0xFF ∷ m ∷ []) body
  kept_of (stream h e) = ok (0xFF ∷ jpeg_sos ∷ (h ++ e))

  abbrev pub all_kept : List Segment → Result
  all_kept [] = ok (0xFF ∷ jpeg_eoi ∷ [])
  all_kept (s ∷ ss) = and_more (kept_of s) (all_kept ss)

  segment_round-body :
      (more : Bytes → Result) (m : ℕ) (head body rest : Bytes)
      → IsBody body
      → segment_round filter_blob more m head (body ++ rest)
        ≡ and_more (kept_segment filter_blob m head body) (more rest)
  unfolding segment_round
  segment_round-body more m head body rest (n, two) =
      let l = length-append body rest in
      let field : be16 (body ++ rest) ≡ length body = be16-append body rest two ∙ sym n in
      let a : ltb (length (body ++ rest)) 2 ≡ false = ground (arith, l, two) in
      let b : (ltb (length body) 2 || ltb (length (body ++ rest)) (length body)) ≡ false =
        ground (arith, l, two) in
      rw (a, field) (rw (b, take-append_left body rest, drop-append_left body rest) refl)

  sos_round-body :
      (more : Bytes → Result) (head body rest entropy after : Bytes)
      → IsBody body
      → scan rest ≡ (entropy, after)
      → sos_round filter_blob more head (body ++ rest)
        ≡ written (head ++ (body ++ entropy)) (more after)
  unfolding sos_round
  sos_round-body more head body rest entropy after (n, two) e =
      let l = length-append body rest in
      let field : be16 (body ++ rest) ≡ length body = be16-append body rest two ∙ sym n in
      let a : ltb (length (body ++ rest)) 2 ≡ false = ground (arith, l, two) in
      let b : (ltb (length (body ++ rest)) (length body) || ltb (length body) 2) ≡ false =
        ground (arith, l, two) in
      rw (a, field) (rw (b, take-append_left body rest, drop-append_left body rest, e) refl)

  marker_round-sized :
      (more : Bytes → Result) (ffs : Bytes) (m : ℕ) (d : Bytes)
      → is_sized m ≡ true
      → marker_round filter_blob more ffs m d ≡ segment_round filter_blob more m (ffs ++ m ∷ []) d
  unfolding marker_round
  marker_round-sized more ffs m d h = ground (arith, h)

  walk-marker :
      (fuel m : ℕ) (d : Bytes)
      → eqb m 0xFF ≡ false
      → walk filter_blob (suc fuel) (0xFF ∷ m ∷ d)
        ≡ marker_round filter_blob (walk filter_blob fuel) (0xFF ∷ []) m d
  unfolding walk walk_round
  walk-marker fuel m d h = ap (after_fills filter_blob (walk filter_blob fuel)) (fills-one m d h)

  walk-segment :
      (fuel : ℕ) (s : Segment) (rest : Bytes)
      → IsSegment s
      → IsMarked rest
      → walk filter_blob (suc fuel) (segment_bytes s ++ rest)
        ≡ and_more (kept_of s) (walk filter_blob fuel rest)
  walk-segment fuel (sized m body) rest (good, b) marked =
      walk-marker fuel m (body ++ rest) (ground (arith, good))
      ∙ marker_round-sized (walk filter_blob fuel) (0xFF ∷ []) m (body ++ rest) good
      ∙ segment_round-body (walk filter_blob fuel) m (0xFF ∷ m ∷ []) body rest b
  walk-segment fuel (stream h e) rest (b, entropy) marked =
      let tail = ap (λ d. e ++ d) marked.shape in
      let scanned : scan (e ++ rest) ≡ (e, rest) =
        ap scan tail
        ∙ scan-entropy e marked.marker marked.rest entropy marked.ends
        ∙ ap (λ d. (e, d)) (sym marked.shape) in
      rw (append_assoc h e rest) (
        walk-marker fuel jpeg_sos (h ++ (e ++ rest)) refl
        ∙ marker_round-sos (walk filter_blob fuel) (h ++ (e ++ rest))
        ∙ sos_round-body (walk filter_blob fuel) (0xFF ∷ jpeg_sos ∷ []) h (e ++ rest) e rest b
            scanned)

  walk-tail :
      (fuel : ℕ) (ss : List Segment) (trailing : Bytes)
      → All IsSegment ss
      → length ss < fuel
      → walk filter_blob fuel (tail_bytes ss trailing) ≡ all_kept ss
  walk-tail zero ss trailing h n = elim n [ ]
  walk-tail (suc fuel) [] trailing h n =
      walk-marker fuel jpeg_eoi trailing refl ∙ marker_round-eoi (walk filter_blob fuel) trailing
  walk-tail (suc fuel) (s ∷ ss) trailing (h, hs) n =
      walk-segment fuel s (tail_bytes ss trailing) h (IsMarked-tail ss trailing hs)
      ∙ rw (walk-tail fuel ss trailing hs (omega arith)) refl

  -- What the filter makes of a JPEG of whole segments.
  pub filter_jpeg-eq-all_kept :
      (ss : List Segment) (trailing : Bytes)
      → All IsSegment ss
      → filter_jpeg filter_blob (jpeg ss trailing) ≡ written (0xFF ∷ jpeg_soi ∷ []) (all_kept ss)
  unfolding filter_jpeg
  filter_jpeg-eq-all_kept ss trailing h = ap (written (0xFF ∷ jpeg_soi ∷ [])) (
      walk-tail (suc (length (tail_bytes ss trailing))) ss trailing h
        (omega (arith, length-tail_bytes ss trailing)))
