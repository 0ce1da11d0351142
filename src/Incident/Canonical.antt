-- ===== src/Incident/Canonical.antt =====
-- The canonical form of a register entry determines the entry (canonicalBytes).
use minerals.Base.{
  ℕ, zero, suc, Bool, true, false, List, [], ◌∷◌, ◌++◌, eqb, ◌≡◌, refl, sym, ap, ◌∙◌, arith, length,
  take, drop, any, take-append_left, drop-append_left, Bytes, read_number, read_number-itoa,
  itoa_injective, minus-itoa,
}
use minerals.Bff.State.{ℤ, pos, negsuc}
use minerals.Incident.{
  Platform, Incident, format_int, format_bool, write_field, write_fields, canonical_fields,
  canonical_bytes,
}

format_int_injective : (a b : ℤ) → format_int a ≡ format_int b → a ≡ b
unfolding format_int
format_int_injective (pos m) (pos n) e = ap pos (itoa_injective m n e)
format_int_injective (pos m) (negsuc n) e =
    absurd (ground (arith, sym (minus-itoa m) ∙ ap (any (eqb b'-')) e))
format_int_injective (negsuc m) (pos n) e =
    absurd (ground (arith, sym (minus-itoa n) ∙ ap (any (eqb b'-')) (sym e)))
format_int_injective (negsuc m) (negsuc n) e =
    let same : suc m ≡ suc n = itoa_injective (suc m) (suc n) (ap (drop 1) e) in
    ap negsuc (omega (arith, same))

format_bool_injective : (a b : Bool) → format_bool a ≡ format_bool b → a ≡ b
unfolding format_bool
format_bool_injective true true e = refl
format_bool_injective true false e = absurd (omega (arith, ap length e))
format_bool_injective false true e = absurd (omega (arith, ap length e))
format_bool_injective false false e = refl

write_field_injective :
    (s t xs ys : Bytes) → write_field s xs ≡ write_field t ys → (s ≡ t) × (xs ≡ ys)
unfolding write_field
write_field_injective s t xs ys e =
    let both : ◌≡◌ {A = ℕ × Bytes} (length s, s ++ (0x1F ∷ xs)) (length t, t ++ (0x1F ∷ ys)) =
      sym (read_number-itoa (length s) (s ++ (0x1F ∷ xs)))
      ∙ ap (read_number 0) e
      ∙ read_number-itoa (length t) (t ++ (0x1F ∷ ys)) in
    let n : length s ≡ length t = ap (λ (p : ℕ × Bytes). p.0) both in
    let text : s ++ (0x1F ∷ xs) ≡ t ++ (0x1F ∷ ys) = ap (λ (p : ℕ × Bytes). p.1) both in
    let d = drop-append_left s (0x1F ∷ xs) in
    let d' = drop-append_left t (0x1F ∷ ys) in
    (
      sym (take-append_left s (0x1F ∷ xs))
          ∙ ap (take (length s)) text
          ∙ ap (λ (k : ℕ). take k (t ++ (0x1F ∷ ys))) n
          ∙ take-append_left t (0x1F ∷ ys),
      ap (drop 1)
          (sym d ∙ ap (drop (length s)) text ∙ ap (λ (k : ℕ). drop k (t ++ (0x1F ∷ ys))) n ∙ d'),
    )

-- The framing is unambiguous: as many fields with the same frames are the same fields.
write_fields_injective :
    (ss ts : List Bytes) → length ss ≡ length ts → write_fields ss ≡ write_fields ts → ss ≡ ts
unfolding write_fields
write_fields_injective [] [] n e = refl
write_fields_injective [] (t ∷ ts) n e = absurd (omega (arith, n))
write_fields_injective (s ∷ ss) [] n e = absurd (omega (arith, n))
write_fields_injective (s ∷ ss) (t ∷ ts) n e =
    let (same, rest) = write_field_injective s t (write_fields ss) (write_fields ts) e in
    let tail = write_fields_injective ss ts (omega (arith, n)) rest in λ i. same i ∷ tail i

-- The field at a place.
nth : ℕ → List Bytes → Bytes
nth n [] = []
nth zero (s ∷ ss) = s
nth (suc n) (s ∷ ss) = nth n ss

module _ (platform : Platform) where
  open platform use {uuid_text_injective, time_text_injective}

  -- Two entries with the same canonical form agree in every field that an operator or the store set:
  -- they are the same entry, if their two hashes are the same as well.
  pub canonical_bytes_injective :
      (a b : Incident)
      → canonical_bytes platform a ≡ canonical_bytes platform b
      → a.prev_hash ≡ b.prev_hash
      → a.entry_hash ≡ b.entry_hash
      → a ≡ b
  unfolding canonical_bytes canonical_fields nth
  canonical_bytes_injective a b e prev entry =
      let fields =
        write_fields_injective (canonical_fields platform a) (canonical_fields platform b) refl e in
      λ i. record {
        id = uuid_text_injective a.id b.id (ap (nth 1) fields) i;
        seq = format_int_injective a.seq b.seq (ap (nth 0) fields) i;
        personal_info_involved = nth 2 (fields i);
        circumstances = nth 3 (fields i);
        incident_occurred_at = nth 4 (fields i);
        became_aware_date =
            time_text_injective a.became_aware_date b.became_aware_date (ap (nth 5) fields) i;
        people_affected = nth 6 (fields i);
        risk_assessment = nth 7 (fields i);
        cai_notified = format_bool_injective a.cai_notified b.cai_notified (ap (nth 8) fields) i;
        cai_notified_detail = nth 9 (fields i);
        individuals_notified =
            format_bool_injective a.individuals_notified b.individuals_notified (ap (nth 10) fields)
              i;
        individuals_notified_detail = nth 11 (fields i);
        measures_taken = nth 12 (fields i);
        recorded_by = nth 13 (fields i);
        recorded_at = time_text_injective a.recorded_at b.recorded_at (ap (nth 14) fields) i;
        retain_until = time_text_injective a.retain_until b.retain_until (ap (nth 15) fields) i;
        prev_hash = prev i;
        entry_hash = entry i;
      }
