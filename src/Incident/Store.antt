-- ===== src/Incident/Store.antt =====
-- The register's table and its operations (internal/incidentregister/store.go).
--
-- The table is the list of its rows by ascending `seq`, its primary key. A transaction that fails
-- leaves the table as it was; which statement fails is an argument (`Faults`). The lock that Create
-- takes is held to the end of its transaction, so appends run one after another.
pub mod Laws
use minerals.Base.{
  ℕ, zero, suc, ◌+◌, ◌-◌, ◌*◌, ◌/◌, ◌%◌, ◌^◌, ◌≤◌, ◌<◌, min, String, ◌==◌, Bool, true, false, not,
  ◌&&◌, ◌||◌, Option, none, some, List, [], ◌∷◌, ◌++◌, map, ltb, leb, eqb, if◌then◌else◌, ◌≡◌, ◌≢◌,
  ◌↔◌, ◌⊎◌, refl, sym, ap, ◌∙◌, arith, eq_iff, eq_refl, trim_space, split_on, contains, Bool-cases,
  Option-cases, inl, inr, length, take, drop, any, all, All, All-append, All-of, length-append,
  length-take, length-drop, take-append-drop, take-append_left, drop-append_left, Bytes, codes,
  bytes_eq, has_prefix, be16, be32, le32, put_be16, put_le32, lt→ltb, ltb→lt, leb→le, eqb_iff, itoa,
  read_number, read_number-itoa, itoa_injective, minus-itoa,
}
use minerals.Uuid.{Uuid}
use minerals.Domain.{Instant}
use minerals.Bff.State.{ℤ, pos, negsuc, to_uint64, to_int64}
use minerals.Incident.{
  Platform, NewIncident, Incident, VerifyResult, day, genesis_hash, int_eq, retain_until,
  compute_hash, verify_chain,
}

pub data StoreError : Type 0 where
  lock_failed tail_failed insert_failed query_failed not_found : StoreError

-- Which statements the database refuses.
pub record Faults : Type 0 where
  pub lock : Bool
  pub tail : Bool
  pub insert : Bool
  pub query : Bool

abbrev pub no_faults : Faults
no_faults = record { lock = false; tail = false; insert = false; query = false }

abbrev pub microsecond : ℕ
microsecond = 1000

-- `t.Truncate(d)`
abbrev pub truncate : ℕ → Instant → Instant
truncate d t = t - t % d

-- What the columns keep of a row: DATE a day, TIMESTAMPTZ a microsecond.
unfoldable pub stored : Incident → Incident
stored e = record e {
  became_aware_date = truncate day e.became_aware_date;
  recorded_at = truncate microsecond e.recorded_at;
  retain_until = truncate day e.retain_until;
}

abbrev pub int_lt : ℤ → ℤ → Bool
int_lt (pos a) (pos b) = ltb a b
int_lt (pos a) (negsuc b) = false
int_lt (negsuc a) (pos b) = true
int_lt (negsuc a) (negsuc b) = ltb b a

-- Two rows that the keys `seq`, `id` and `entry_hash` do not admit together.
unfoldable pub conflicts : Incident → Incident → Bool
conflicts e r = int_eq r.seq e.seq || eqb r.id e.id || bytes_eq r.entry_hash e.entry_hash

-- The row at its place in the order.
unfoldable pub insert_row : Incident → List Incident → List Incident
insert_row e [] = e ∷ []
insert_row e (r ∷ rows) =
    let rest = insert_row e rows in if int_lt e.seq r.seq then e ∷ (r ∷ rows) else r ∷ rest

unfoldable pub insert_entry : Incident → List Incident → Option (List Incident)
insert_entry e rows = if any (conflicts e) rows then none else some (insert_row (stored e) rows)

-- `SELECT seq, entry_hash … ORDER BY seq DESC LIMIT 1`, and 0 and the genesis hash for no row.
unfoldable pub chain_tail : List Incident → ℤ × Bytes
chain_tail [] = (pos 0, genesis_hash)
chain_tail (r ∷ []) = (r.seq, r.entry_hash)
chain_tail (_ ∷ (r ∷ rows)) = chain_tail (r ∷ rows)

-- `n + 1` in an int64.
unfoldable pub next_seq : ℤ → ℤ
next_seq z = to_int64 ((to_uint64 z + 1) % 2 ^ 64)

-- The end of Create's transaction: the insert, and the answer.
unfoldable pub append_entry :
    Faults → Incident → List Incident → (StoreError ⊎ Incident) × List Incident
append_entry faults e rows =
    if faults.insert then (inl insert_failed, rows) else elim (insert_entry e rows) [
      | none ↦ (inl insert_failed, rows)
      | some rows' ↦ (inr e, rows')
    ]

module _ (platform : Platform) where
  -- The entry that Create makes, before its hash.
  unfoldable pub new_entry : Uuid → Instant → ℤ → Bytes → NewIncident → Incident
  new_entry id now prev_seq prev_hash n =
      let aware = truncate day n.became_aware_date in
      record {
        id = id;
        seq = next_seq prev_seq;
        personal_info_involved = n.personal_info_involved;
        circumstances = n.circumstances;
        incident_occurred_at = n.incident_occurred_at;
        became_aware_date = aware;
        people_affected = n.people_affected;
        risk_assessment = n.risk_assessment;
        cai_notified = n.cai_notified;
        cai_notified_detail = n.cai_notified_detail;
        individuals_notified = n.individuals_notified;
        individuals_notified_detail = n.individuals_notified_detail;
        measures_taken = n.measures_taken;
        recorded_by = n.recorded_by;
        recorded_at = truncate microsecond now;
        retain_until = retain_until platform aware;
        prev_hash = prev_hash;
        entry_hash = [];
      }

  unfoldable pub sealed_entry : Uuid → Instant → ℤ × Bytes → NewIncident → Incident
  sealed_entry id now (prev_seq, prev_hash) n =
      let e = new_entry id now prev_seq prev_hash n in
      record e { entry_hash = compute_hash platform prev_hash e }

  -- `Create` at the time `now`, where `domain.NewID()` is `id`: the answer, and the table after.
  unfoldable pub create :
      Faults
      → Uuid
      → Instant
      → NewIncident
      → List Incident
      → (StoreError ⊎ Incident) × List Incident
  create faults id now n rows =
      if faults.lock
      then (inl lock_failed, rows)
      else if faults.tail
      then (inl tail_failed, rows)
      else append_entry faults (sealed_entry id now (chain_tail rows) n) rows

  -- `List`
  unfoldable pub list : Faults → List Incident → StoreError ⊎ List Incident
  list faults rows = if faults.query then inl query_failed else inr rows

  unfoldable pub verify : Faults → List Incident → StoreError ⊎ VerifyResult
  verify faults rows = elim (list faults rows) [
    | inl e ↦ inl e
    | inr entries ↦ inr (verify_chain platform entries)
  ]

  -- `Export`: the entries and their integrity.
  unfoldable pub export : Faults → List Incident → StoreError ⊎ (List Incident × VerifyResult)
  export faults rows = elim (list faults rows) [
    | inl e ↦ inl e
    | inr entries ↦ inr (entries, verify_chain platform entries)
  ]

-- The first row with the identifier.
unfoldable pub find : Uuid → List Incident → Option Incident
find id [] = none
find id (r ∷ rows) = let rest = find id rows in if eqb r.id id then some r else rest

unfoldable pub get_by_id : Faults → Uuid → List Incident → StoreError ⊎ Incident
get_by_id faults id rows =
    if faults.query
    then inl query_failed
    else elim (find id rows) [ none ↦ inl not_found | some e ↦ inr e ]
