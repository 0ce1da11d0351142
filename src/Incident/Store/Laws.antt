-- ===== src/Incident/Store/Laws.antt =====
-- What filing an entry does to the register (Create, and the reads after it).
use minerals.Base.{
  ℕ, suc, ◌+◌, ◌-◌, ◌%◌, ◌^◌, ◌<◌, Bool, true, false, ◌||◌, none, some, List, [], ◌∷◌, ◌++◌, ltb,
  eqb, ◌≡◌, ◌⊎◌, refl, sym, ap, ◌∙◌, arith, Bool-cases, inl, inr, length, any, Bytes, bytes_eq,
}
use minerals.Uuid.{Uuid}
use minerals.Domain.{Instant}
use minerals.Bff.State.{ℤ, pos, to_uint64, to_int64}
use minerals.Incident.{
  Platform, NewIncident, Incident, int_eq, day, genesis_hash, retain_until, canonical_fields,
  canonical_bytes, compute_hash, verify_chain,
}
use minerals.Incident.Chain.{
  Linked, Chain, last_hash, Chain-append, verify_chain-Chain, Chain-verify_chain,
}
use minerals.Incident.Store.{
  StoreError, lock_failed, tail_failed, insert_failed, Faults, no_faults, microsecond, truncate,
  stored, int_lt, conflicts, insert_row, insert_entry, chain_tail, next_seq, new_entry,
  sealed_entry, append_entry, create, find, get_by_id,
}

next_seq-pos : (n : ℕ) → n < 2 ^ 63 - 1 → next_seq (pos n) ≡ pos (suc n)
unfolding next_seq to_uint64 to_int64
next_seq-pos n h =
    let m : (n % 2 ^ 64 + 1) % 2 ^ 64 ≡ suc n = omega (arith, h) in
    let t : ltb (suc n) (2 ^ 63) ≡ true = ground (arith, h) in rw m (rw t refl)

truncate-truncate : (d t : ℕ) → (t - t % d) % d ≡ 0 → truncate d (truncate d t) ≡ truncate d t
truncate-truncate d t h = rw h (omega arith)

day_mod : (t : ℕ) → (t - t % day) % day ≡ 0
day_mod t = omega arith

microsecond_mod : (t : ℕ) → (t - t % microsecond) % microsecond ≡ 0
microsecond_mod t = omega arith

truncate-whole : (d t : ℕ) → t % d ≡ 0 → truncate d t ≡ t
truncate-whole d t h = rw h (omega arith)

find-append :
    (id : Uuid) (rows : List Incident) (e : Incident)
    → e.id ≡ id
    → any (λ r. eqb r.id id) rows ≡ false
    → find id (rows ++ (e ∷ [])) ≡ some e
unfolding find
find-append id [] e same fresh = rw same (ground arith)
find-append id (r ∷ rows) e same fresh =
    let other : eqb r.id id ≡ false = ground (arith, fresh) in
    let rest : any (λ r. eqb r.id id) rows ≡ false = ground (arith, fresh) in
    rw other (find-append id rows e same rest)

conflicts-id :
    (e : Incident) (rows : List Incident)
    → any (conflicts e) rows ≡ false
    → any (λ r. eqb r.id e.id) rows ≡ false
unfolding conflicts
conflicts-id e [] h = refl
conflicts-id e (r ∷ rows) h =
    let rest = conflicts-id e rows (ground (arith, h)) in ground (arith, h, rest)

-- Two rows of one identifier or one hash.
abbrev pub same_id_or_hash : Incident → Incident → Bool
same_id_or_hash e r = eqb r.id e.id || bytes_eq r.entry_hash e.entry_hash

module _ (platform : Platform) where
  open platform use {add_years_day}

  -- The columns keep the entry as it was hashed.
  stored-sealed_entry :
      (id : Uuid) (now : Instant) (tail : ℤ × Bytes) (n : NewIncident)
      → stored (sealed_entry platform id now tail n) ≡ sealed_entry platform id now tail n
  unfolding stored sealed_entry new_entry retain_until
  stored-sealed_entry id now (s, p) n =
      let e = sealed_entry platform id now (s, p) n in
      let aware = day_mod n.became_aware_date in
      λ i. record e {
        became_aware_date = truncate-truncate day n.became_aware_date aware i;
        recorded_at = truncate-truncate microsecond now (microsecond_mod now) i;
        retain_until = truncate-whole day e.retain_until (add_years_day 5 _ aware) i;
      }

  sealed_entry-Linked :
      (id : Uuid) (now : Instant) (k : ℕ) (prev : Bytes) (n : NewIncident)
      → k < 2 ^ 63 - 1
      → Linked platform prev k (sealed_entry platform id now (pos k, prev) n)
  unfolding sealed_entry new_entry compute_hash canonical_bytes canonical_fields
  sealed_entry-Linked id now k prev n h = (next_seq-pos k h, refl, refl)

  chain_tail-cons :
      (p : Bytes) (i : ℕ) (r : Incident) (rows : List Incident)
      → Chain platform p i (r ∷ rows)
      → chain_tail (r ∷ rows) ≡ (pos (i + suc (length rows)), last_hash platform p (r ∷ rows))
  unfolding chain_tail
  chain_tail-cons p i r [] ((s, _, _), c) =
      let n : suc i ≡ i + 1 = omega arith in λ j. ((s ∙ ap pos n) j, r.entry_hash)
  chain_tail-cons p i r (x ∷ rows) (l, c) =
      let n : suc i + suc (length rows) ≡ i + suc (suc (length rows)) = omega arith in
      chain_tail-cons r.entry_hash (suc i) x rows c
      ∙ ap (λ (m : ℕ). (pos m, last_hash platform p (r ∷ (x ∷ rows)))) n

  chain_tail-Chain :
      (rows : List Incident)
      → Chain platform genesis_hash 0 rows
      → chain_tail rows ≡ (pos (length rows), last_hash platform genesis_hash rows)
  unfolding chain_tail
  chain_tail-Chain [] c = refl
  chain_tail-Chain (r ∷ rows) c =
      let n : 0 + suc (length rows) ≡ suc (length rows) = omega arith in
      chain_tail-cons genesis_hash 0 r rows c
      ∙ ap (λ (m : ℕ). (pos m, last_hash platform genesis_hash (r ∷ rows))) n

  -- A row with a number above all others goes to the end.
  insert_row-Chain :
      (p : Bytes) (i s : ℕ) (e : Incident) (rows : List Incident)
      → Chain platform p i rows
      → e.seq ≡ pos s
      → i + length rows < s
      → insert_row e rows ≡ rows ++ (e ∷ [])
  unfolding insert_row
  insert_row-Chain p i s e [] c q h = refl
  insert_row-Chain p i s e (r ∷ rows) ((t, _, _), c) q h =
      let above : int_lt e.seq r.seq ≡ false =
        ap (λ (z : ℤ). int_lt z r.seq) q ∙ ap (int_lt (pos s)) t ∙ (ground (arith, h)) in
      rw above (
        ap (λ (l : List Incident). r ∷ l)
          (insert_row-Chain r.entry_hash (suc i) s e rows c q (omega (arith, h))))

  -- The entry that Create makes of the register's state.
  abbrev pub next_entry : Uuid → Instant → NewIncident → List Incident → Incident
  next_entry id now n rows =
      sealed_entry platform id now (pos (length rows), last_hash platform genesis_hash rows) n

  next_entry-Linked :
      (id : Uuid) (now : Instant) (n : NewIncident) (rows : List Incident)
      → length rows < 2 ^ 63 - 1
      → Linked platform
          (last_hash platform genesis_hash rows)
          (length rows)
          (next_entry id now n rows)
  next_entry-Linked id now n rows h = sealed_entry-Linked id now (length rows) _ n h

  -- What is written if no row conflicts.
  insert_entry-Chain :
      (id : Uuid) (now : Instant) (n : NewIncident) (rows : List Incident)
      → Chain platform genesis_hash 0 rows
      → length rows < 2 ^ 63 - 1
      → any (conflicts (next_entry id now n rows)) rows ≡ false
      → insert_entry (next_entry id now n rows) rows
        ≡ some (rows ++ (next_entry id now n rows ∷ []))
  unfolding insert_entry
  insert_entry-Chain id now n rows c h fresh =
      let (s, _, _) = next_entry-Linked id now n rows h in
      rw fresh (
        ap some (
          ap (λ (e : Incident). insert_row e rows)
            (stored-sealed_entry id now (pos (length rows), last_hash platform genesis_hash rows) n)
          ∙ insert_row-Chain genesis_hash 0 (suc (length rows)) (next_entry id now n rows) rows c s
              (omega arith)))

  -- No row of a chain has a number above its length, so the number never conflicts.
  conflicts-Chain :
      (p : Bytes) (i s : ℕ) (e : Incident) (rows : List Incident)
      → Chain platform p i rows
      → e.seq ≡ pos s
      → i + length rows < s
      → any (conflicts e) rows ≡ any (same_id_or_hash e) rows
  unfolding conflicts
  conflicts-Chain p i s e [] c q h = refl
  conflicts-Chain p i s e (r ∷ rows) ((t, _, _), c) q h =
      let apart : int_eq r.seq e.seq ≡ false =
        ap (λ (z : ℤ). int_eq z e.seq) t ∙ ap (int_eq (pos (suc i))) q ∙ (ground (arith, h)) in
      rw (apart, conflicts-Chain r.entry_hash (suc i) s e rows c q (omega (arith, h))) refl

  insert_entry-conflict :
      (e : Incident) (rows : List Incident)
      → any (conflicts e) rows ≡ true
      → insert_entry e rows ≡ none
  unfolding insert_entry
  insert_entry-conflict e rows f = rw f refl

  at_end : (p : Bytes) (k : ℕ) (e : Incident) → Linked platform p k e → Linked platform p (0 + k) e
  at_end p k e l = let n : 0 + k ≡ k = omega arith in rw n l

  -- Filing on a register that verifies, with fewer than 2^63 - 1 entries: either an error is returned and
  -- the register is as before, or the new entry is returned and stands behind the others, unaltered by its
  -- columns and with the next number; the register verifies, and reading the entry by its identifier gives it back. The
  -- second happens whenever no statement fails and no row has the new entry's identifier or hash; its number is never
  -- the reason of a refusal.
  pub create_lem :
      (faults : Faults) (id : Uuid) (now : Instant) (n : NewIncident) (rows : List Incident)
      → (verify_chain platform rows).ok ≡ true
      → length rows < 2 ^ 63 - 1
      → let e = next_entry id now n rows in
        let after = create platform faults id now n rows in
        (((err : StoreError) × (after ≡ (inl err, rows)))
          × ((faults.lock || faults.tail || faults.insert || any (same_id_or_hash e) rows) ≡ true))
        ⊎ ((after ≡ (inr e, rows ++ (e ∷ [])))
            × (e.seq ≡ pos (suc (length rows)))
            × ((verify_chain platform (rows ++ (e ∷ []))).ok ≡ true)
            × (get_by_id no_faults id (rows ++ (e ∷ [])) ≡ inr e))
  unfolding create append_entry get_by_id sealed_entry new_entry
  create_lem faults id now n rows v h =
      let c = verify_chain-Chain platform rows v in
      let e = next_entry id now n rows in
      let linked = next_entry-Linked id now n rows h in
      let keys =
        conflicts-Chain genesis_hash 0 (suc (length rows)) e rows c (linked.0) (omega arith) in
      let answer =
        ap (λ (t : ℤ × Bytes). append_entry faults (sealed_entry platform id now t n) rows)
          (chain_tail-Chain rows c) in
      elim (Bool-cases faults.lock) [
        | inl f ↦ inl ((lock_failed, rw f refl), rw f refl)
        | inr a ↦ elim (Bool-cases faults.tail) [
          | inl f ↦ inl ((tail_failed, rw (a, f) refl), rw (a, f) refl)
          | inr b ↦ elim (Bool-cases faults.insert) [
            | inl f ↦ inl ((insert_failed, rw (a, b) (rw f refl)), rw (a, b, f) refl)
            | inr d ↦ elim (Bool-cases (any (conflicts e) rows)) [
              | inl f ↦ inl (
                (
                  insert_failed,
                  rw (a, b) (answer ∙ (rw d (rw (insert_entry-conflict e rows f) refl))),
                ),
                rw (a, b, d, sym keys ∙ f) refl,
              )
              | inr fresh ↦ inr (
                rw (a, b) (answer ∙ (rw d (rw (insert_entry-Chain id now n rows c h fresh) refl))),
                linked.0,
                Chain-verify_chain platform (rows ++ (e ∷ []))
                    (Chain-append platform genesis_hash 0 rows e c (at_end _ _ e linked)),
                rw (find-append e.id rows e refl (conflicts-id e rows fresh)) refl,
              )
            ]
          ]
        ]
      ]
