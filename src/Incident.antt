-- ===== src/Incident.antt =====
-- The confidentiality-incident register: an append-only chain of entries
-- (internal/incidentregister/incidentregister.go).
--
-- Go's strings are lists of bytes, an int64 is an integer, and an instant is a number of nanoseconds
-- since the year 1. SHA-256 with hex (crypto/sha256, encoding/hex), the printed forms of an
-- identifier and of an instant, and the calendar are parameters.
pub mod Canonical
pub mod Chain
pub mod Store
pub mod Handlers
mod Examples
use minerals.Base.{
  ℕ, zero, suc, ◌+◌, ◌-◌, ◌*◌, ◌/◌, ◌%◌, ◌^◌, ◌≤◌, ◌<◌, min, String, ◌==◌, Bool, true, false, not,
  ◌&&◌, ◌||◌, Option, none, some, List, [], ◌∷◌, ◌++◌, map, ltb, leb, eqb, if◌then◌else◌, ◌≡◌, ◌≢◌,
  ◌↔◌, ◌⊎◌, refl, sym, ap, ◌∙◌, arith, eq_iff, eq_refl, trim_space, split_on, contains, Bool-cases,
  Option-cases, inl, inr, length, take, drop, any, all, All, All-append, All-of, length-append,
  length-take, length-drop, take-append-drop, take-append_left, drop-append_left, Bytes, codes,
  bytes_eq, has_prefix, be16, be32, le32, put_be16, put_le32, lt→ltb, ltb→lt, leb→le, eqb_iff, itoa,
  read_number, read_number-itoa, itoa_injective, minus-itoa,
}
use minerals.Uuid.{Uuid}
use minerals.Domain.{Instant}
use minerals.Bff.State.{ℤ, pos, negsuc}

-- A day in nanoseconds.
abbrev pub day : ℕ
day = 86400000000000

abbrev pub retention_years : ℕ
retention_years = 5

abbrev pub genesis_hash : Bytes
genesis_hash = codes "GENESIS"

pub record Platform : Type 0 where
  -- SHA-256 in hex, which has 64 digits
  pub sha256_hex : Bytes → Bytes
  pub length-sha256_hex : (b : Bytes) → length (sha256_hex b) ≡ 64
  pub uuid_text : Uuid → Bytes
  pub uuid_text_injective : (a b : Uuid) → uuid_text a ≡ uuid_text b → a ≡ b
  -- `t.UTC().Format(time.RFC3339Nano)`
  pub time_text : Instant → Bytes
  pub time_text_injective : (a b : Instant) → time_text a ≡ time_text b → a ≡ b
  -- `t.AddDate(years, 0, 0)` keeps the time of day
  pub add_years : ℕ → Instant → Instant
  pub add_years_day : (n : ℕ) (t : Instant) → t % day ≡ 0 → add_years n t % day ≡ 0

pub record NewIncident : Type 0 where
  pub personal_info_involved : Bytes
  pub circumstances : Bytes
  pub incident_occurred_at : Bytes
  pub became_aware_date : Instant
  pub people_affected : Bytes
  pub risk_assessment : Bytes
  pub cai_notified : Bool
  pub cai_notified_detail : Bytes
  pub individuals_notified : Bool
  pub individuals_notified_detail : Bytes
  pub measures_taken : Bytes
  pub recorded_by : Bytes

pub record Incident : Type 0 where
  pub id : Uuid
  pub seq : ℤ
  pub personal_info_involved : Bytes
  pub circumstances : Bytes
  pub incident_occurred_at : Bytes
  pub became_aware_date : Instant
  pub people_affected : Bytes
  pub risk_assessment : Bytes
  pub cai_notified : Bool
  pub cai_notified_detail : Bytes
  pub individuals_notified : Bool
  pub individuals_notified_detail : Bytes
  pub measures_taken : Bytes
  pub recorded_by : Bytes
  pub recorded_at : Instant
  pub retain_until : Instant
  pub prev_hash : Bytes
  pub entry_hash : Bytes

pub record VerifyResult : Type 0 where
  pub ok : Bool
  pub count : ℕ
  pub broken_at_seq : ℤ
  pub detail : Bytes

-- `strconv.FormatInt(n, 10)` and `strconv.FormatBool`.
unfoldable pub format_int : ℤ → Bytes
format_int (pos n) = itoa n
format_int (negsuc n) = b'-' ∷ itoa (suc n)

unfoldable pub format_bool : Bool → Bytes
format_bool true = codes "true"
format_bool false = codes "false"

-- `a == b` of two int64.
abbrev pub int_eq : ℤ → ℤ → Bool
int_eq (pos a) (pos b) = eqb a b
int_eq (negsuc a) (negsuc b) = eqb a b
int_eq (pos a) (negsuc b) = false
int_eq (negsuc a) (pos b) = false

-- `write` of canonicalBytes: one field in its frame, before what follows it.
unfoldable pub write_field : Bytes → Bytes → Bytes
write_field s rest = itoa (length s) ++ (b':' ∷ (s ++ (0x1F ∷ rest)))

unfoldable pub write_fields : List Bytes → Bytes
write_fields [] = []
write_fields (s ∷ ss) = write_field s (write_fields ss)

-- The result for an entry that fails.
unfoldable pub broken : ℕ → Incident → Bytes → VerifyResult
broken count e detail = record { ok = false; count = count; broken_at_seq = e.seq; detail = detail }

module _ (platform : Platform) where
  open platform use {sha256_hex, uuid_text, time_text, add_years}

  unfoldable pub retain_until : Instant → Instant
  retain_until aware = add_years retention_years aware

  unfoldable pub canonical_fields : Incident → List Bytes
  canonical_fields e =
      format_int e.seq
      ∷ uuid_text e.id
      ∷ e.personal_info_involved
      ∷ e.circumstances
      ∷ e.incident_occurred_at
      ∷ time_text e.became_aware_date
      ∷ e.people_affected
      ∷ e.risk_assessment
      ∷ format_bool e.cai_notified
      ∷ e.cai_notified_detail
      ∷ format_bool e.individuals_notified
      ∷ e.individuals_notified_detail
      ∷ e.measures_taken
      ∷ e.recorded_by
      ∷ time_text e.recorded_at
      ∷ time_text e.retain_until
      ∷ []

  unfoldable pub canonical_bytes : Incident → Bytes
  canonical_bytes e = write_fields (canonical_fields e)

  unfoldable pub compute_hash : Bytes → Incident → Bytes
  compute_hash prev_hash e = sha256_hex (prev_hash ++ canonical_bytes e)

  -- The loop of verifyChain from the index `i` on: `prev` is the last hash, `count` is `len(entries)`.
  unfoldable pub verify_from : ℕ → Bytes → ℕ → List Incident → VerifyResult
  verify_from count prev i [] = record {
    ok = true;
    count = count;
    broken_at_seq = pos 0;
    detail = [];
  }
  verify_from count prev i (e ∷ es) =
      let rest = verify_from count e.entry_hash (suc i) es in
      let want_seq = pos (suc i) in
      if not (int_eq e.seq want_seq)
      then broken count e (
          codes "non-contiguous seq: got "
          ++ (format_int e.seq ++ (codes ", expected " ++ format_int want_seq)))
      else if not (bytes_eq e.prev_hash prev)
      then broken count e (codes "prev_hash does not link to the preceding entry")
      else if not (bytes_eq (compute_hash prev e) e.entry_hash)
      then broken count e (codes "entry_hash mismatch: record has been altered")
      else rest

  unfoldable pub verify_chain : List Incident → VerifyResult
  verify_chain entries = verify_from (length entries) genesis_hash 0 entries
