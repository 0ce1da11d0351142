-- ===== src/Exif/Png/Safety.antt =====
-- No metadata chunk survives in what the filter returns for a PNG, whatever the upload's bytes.
use minerals.Base.{
  ℕ, zero, suc, ◌+◌, ◌≤◌, false, List, [], ◌∷◌, ◌++◌, if◌then◌else◌, ◌≡◌, refl, sym, ap, ◌∙◌, arith,
  Bool-cases, inl, inr, length, take, drop, All, length-take, Bytes, be32,
}
use minerals.Exif.{Result, ok, err, written}
use minerals.Exif.Png.{
  strip_round, signature, chunk_type, is_metadata, is_end, chunk_size, kept, strip_chunks,
  strip_png_metadata,
}
use minerals.Exif.Png.Laws.{IsChunk, join}

-- Whole chunks, none of them metadata.
pub record IsClean (out : Bytes) : Type 0 where
  pub chunks : List Bytes
  pub joined : out ≡ join chunks
  pub clean : All (λ c. IsChunk c × (is_metadata (chunk_type c) ≡ false)) chunks

IsClean-nil : IsClean []
IsClean-nil = record { chunks = []; joined = refl; clean = tt }

IsClean-kept : (c out : Bytes) → IsChunk c → IsClean out → IsClean (kept c ++ out)
IsClean-kept c out whole o = elim (Bool-cases (is_metadata (chunk_type c))) [
  | inl meta ↦ rw meta o
  | inr plain ↦ rw plain (record {
    chunks = c ∷ o.chunks;
    joined = ap (λ r. c ++ r) o.joined;
    clean = ((whole, plain), o.clean);
  })
]

ok_injective : {a b : Bytes} → ok a ≡ ok b → a ≡ b
ok_injective e = cc

written-ok :
    (pre : Bytes) (r : Result) {out : Bytes}
    → written pre r ≡ ok out
    → (rest : Bytes) × (r ≡ ok rest) × (out ≡ pre ++ rest)
written-ok pre (ok rest) h = (rest, refl, cc)
written-ok pre (err e) h = cc

be32-take : (n : ℕ) (d : Bytes) → 4 ≤ n → be32 (take n d) ≡ be32 d
be32-take zero d h = absurd (omega arith)
be32-take (suc zero) d h = absurd (omega arith)
be32-take (suc (suc zero)) d h = absurd (omega arith)
be32-take (suc (suc (suc zero))) d h = absurd (omega arith)
be32-take (suc (suc (suc (suc n)))) [] h = refl
be32-take (suc (suc (suc (suc n)))) (a ∷ []) h = refl
be32-take (suc (suc (suc (suc n)))) (a ∷ b ∷ []) h = refl
be32-take (suc (suc (suc (suc n)))) (a ∷ b ∷ c ∷ []) h = refl
be32-take (suc (suc (suc (suc n)))) (a ∷ b ∷ c ∷ e ∷ d) h = refl

IsChunk-take : (d : Bytes) → chunk_size d ≤ length d → IsChunk (take (chunk_size d) d)
IsChunk-take d h =
    length-take (chunk_size d) d h
    ∙ sym (ap (λ n. 8 + n + 4) (be32-take (chunk_size d) d (omega arith)))

-- What a successful round wrote, and what the rest wrote after it.
strip_round-ok :
    (more : Bytes → Result) (d out : Bytes)
    → strip_round more d ≡ ok out
    → (chunk_size d ≤ length d)
      × (written
            (kept (take (chunk_size d) d))
            (if is_end (chunk_type d) then ok [] else more (drop (chunk_size d) d))
          ≡ ok out)
unfolding strip_round
strip_round-ok more d out h = ground arith

strip_chunks-IsClean : (fuel : ℕ) (d out : Bytes) → strip_chunks fuel d ≡ ok out → IsClean out
unfolding strip_chunks
strip_chunks-IsClean zero d out h = cc
strip_chunks-IsClean (suc fuel) [] out h = let e : out ≡ [] = cc in rw e IsClean-nil
strip_chunks-IsClean (suc fuel) (b ∷ bs) out h =
    let d = b ∷ bs in
    let (fits, w) = strip_round-ok (strip_chunks fuel) d out h in
    let (rest, r, e) = written-ok (kept (take (chunk_size d) d)) _ w in
    rw e (
      IsClean-kept (take (chunk_size d) d) rest (IsChunk-take d fits)
        (elim (Bool-cases (is_end (chunk_type d))) [
          | inl last ↦ let z : rest ≡ [] = ok_injective (sym (rw last at r)) in rw z IsClean-nil
          | inr next ↦ strip_chunks-IsClean fuel (drop (chunk_size d) d) rest (rw next at r)
        ]))

-- Whatever the bytes of an upload that begins like a PNG: what the filter returns, if it returns any,
-- is the signature and whole chunks, none of them of type eXIf, iTXt, tEXt or zTXt.
pub strip_png_metadata-IsClean :
    (body out : Bytes)
    → strip_png_metadata (signature ++ body) ≡ ok out
    → (rest : Bytes) × (out ≡ signature ++ rest) × IsClean rest
unfolding strip_png_metadata
strip_png_metadata-IsClean body out h =
    let w : written signature (strip_chunks (suc (length (signature ++ body))) body) ≡ ok out =
      ground (arith, h) in
    let (rest, r, e) = written-ok signature _ w in
    (rest, e, strip_chunks-IsClean (suc (length (signature ++ body))) body rest r)
