-- ===== src/Incident/Examples.antt =====
-- A register of two entries over a platform that meets the laws.
use minerals.Base.{
  ℕ, zero, suc, ◌+◌, ◌*◌, ◌%◌, true, false, none, some, List, [], ◌∷◌, ◌++◌, ◌≡◌, ◌⊎◌, refl, ap,
  arith, inl, inr, length, any, Bytes, codes, itoa, itoa_injective,
}
use minerals.Uuid.{tally}
use minerals.Domain.{Instant}
use minerals.Auth
use minerals.Authz.Examples.{casbin}
use minerals.Api.Guard.{ApiError, forbidden}
use minerals.Api.Guard.Devops.{may_edit_console}
use minerals.Bff.State.{pos, to_uint64, to_int64}
use minerals.Incident.{
  Platform, NewIncident, Incident, day, genesis_hash, format_int, format_bool, write_field,
  write_fields, retain_until, canonical_fields, canonical_bytes, compute_hash, verify_from,
  verify_chain,
}
use minerals.Incident.Chain.{
  Linked, Chain, last_hash, FailsAt, Collision, verify_chain_lem, verify_chain-tamper_evident,
}
use minerals.Incident.Store.{
  StoreError, no_faults, create, get_by_id, sealed_entry, new_entry, next_seq,
}
use minerals.Incident.Store.Laws.{next_entry, same_id_or_hash, create_lem}
use minerals.Incident.Handlers.{FileIncidentBody, recorded_by, file}
use minerals.Incident.Handlers.Laws.{file_lem}

-- A checksum of 64 digits, and numbers in decimal.
checksum : ℕ → Bytes → ℕ
checksum acc [] = acc
checksum acc (b ∷ bs) = checksum ((acc * 31 + b) % 65521) bs

zeros : ℕ → Bytes
zeros zero = []
zeros (suc n) = b'0' ∷ zeros n

toy_hash : Bytes → Bytes
toy_hash b = checksum 7 b ∷ zeros 63

length-zeros : (n : ℕ) → length (zeros n) ≡ n
unfolding zeros
length-zeros zero = refl
length-zeros (suc n) = ap suc (length-zeros n)

length-toy_hash : (b : Bytes) → length (toy_hash b) ≡ 64
unfolding toy_hash
length-toy_hash b = ap suc (length-zeros 63)

later : ℕ → Instant → Instant
later n t = t + n * (365 * day)

later-day : (n : ℕ) (t : Instant) → t % day ≡ 0 → later n t % day ≡ 0
unfolding later
later-day n t h = omega (arith, h)

toy : Platform
toy = record {
  sha256_hex = toy_hash;
  length-sha256_hex = length-toy_hash;
  uuid_text = itoa;
  uuid_text_injective = itoa_injective;
  time_text = itoa;
  time_text_injective = itoa_injective;
  add_years = later;
  add_years_day = later-day;
}

abbrev report : NewIncident
report = record {
  personal_info_involved = codes "email";
  circumstances = codes "mail sent to a wrong list";
  incident_occurred_at = codes "May";
  became_aware_date = 3 * day + 5;
  people_affected = codes "4";
  risk_assessment = codes "No";
  cai_notified = false;
  cai_notified_detail = [];
  individuals_notified = true;
  individuals_notified_detail = codes "by mail";
  measures_taken = codes "list checked";
  recorded_by = codes "7";
}

first : Incident
first = next_entry toy 11 2500 report []

second : Incident
unfolding first
second = next_entry toy 12 7700 report (first ∷ [])

register : List Incident
unfolding first second
register = first ∷ (second ∷ [])

verified : (verify_chain toy register).ok ≡ true
unfolding register first second verify_chain verify_from compute_hash canonical_bytes
    canonical_fields write_fields write_field format_int format_bool itoa toy toy_hash checksum
    zeros sealed_entry new_entry next_seq retain_until later to_int64 to_uint64
verified = refl

verify_chain_lem_example :
    (Chain toy genesis_hash 0 register
      × (verify_chain toy register
          ≡ record { ok = true; count = length register; broken_at_seq = pos 0; detail = [] }))
    ⊎ ((xs : List Incident) × (e : Incident) × (ys : List Incident) × (register ≡ xs ++ (e ∷ ys))
        × Chain toy genesis_hash 0 xs
        × ¬ Linked toy (last_hash toy genesis_hash xs) (length xs) e
        × FailsAt toy e (length register) (verify_chain toy register))
verify_chain_lem_example = verify_chain_lem toy register

verify_chain-tamper_evident_example : (register ≡ register) ⊎ Collision toy
verify_chain-tamper_evident_example =
    verify_chain-tamper_evident toy register register verified verified refl refl

create_lem_example :
    (((err : StoreError) × (create toy no_faults 13 9900 report register ≡ (inl err, register)))
      × (any (same_id_or_hash (next_entry toy 13 9900 report register)) register ≡ true))
    ⊎ ((create toy no_faults 13 9900 report register ≡ (
      inr (next_entry toy 13 9900 report register),
      register ++ (next_entry toy 13 9900 report register ∷ []),
    ))
        × ((next_entry toy 13 9900 report register).seq ≡ pos (suc (length register)))
        × ((verify_chain toy (register ++ (next_entry toy 13 9900 report register ∷ []))).ok ≡ true)
        × (get_by_id no_faults 13 (register ++ (next_entry toy 13 9900 report register ∷ []))
            ≡ inr (next_entry toy 13 9900 report register)))
unfolding register
create_lem_example = create_lem toy no_faults 13 9900 report register verified (omega arith)

abbrev operator : Auth.User
operator = record Auth.anonymous { id = 7; roles = "devops-admin" ∷ [] }

abbrev form : FileIncidentBody
form = record {
  personal_info_involved = codes "email";
  circumstances = codes "mail sent to a wrong list";
  incident_occurred_at = codes "May";
  became_aware_date = 3 * day;
  people_affected = codes "4";
  risk_assessment = codes "No";
  cai_notified = false;
  cai_notified_detail = [];
  individuals_notified = true;
  individuals_notified_detail = [];
  measures_taken = codes "list checked";
}

file_lem_example :
    ((err : ApiError) × (file toy tally
          (some (casbin none).enforce)
          no_faults
          13
          9900
          operator
          form
          register
        ≡ (inl err, register))
      × ((may_edit_console operator ≡ true) ⊎ (err ≡ forbidden)))
    ⊎ ((entry : Incident) × (file toy tally
            (some (casbin none).enforce)
            no_faults
            13
            9900
            operator
            form
            register
          ≡ (inr entry, register ++ (entry ∷ [])))
        × (may_edit_console operator ≡ true)
        × (entry.recorded_by ≡ recorded_by toy operator)
        × ((verify_chain toy (register ++ (entry ∷ []))).ok ≡ true))
unfolding register
file_lem_example =
    file_lem toy tally none (casbin none) tt no_faults 13 9900 operator form register verified
      (omega arith)
