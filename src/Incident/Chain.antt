-- ===== src/Incident/Chain.antt =====
-- What the register's integrity check proves (verifyChain).
use minerals.Base.{
  ℕ, suc, ◌+◌, true, false, List, [], ◌∷◌, ◌++◌, ◌≡◌, ◌≢◌, ◌⊎◌, refl, sym, ap, ◌∙◌, arith,
  Bool-cases, inl, inr, length, take, drop, take-append_left, drop-append_left, Bytes, bytes_eq,
}
use mathlib.Core.Path.{subst}
use minerals.Bff.State.{ℤ, pos, negsuc}
use minerals.Bff.State.Laws.{bytes_eq_refl, bytes_eq-eq}
use minerals.Incident.{
  Platform, Incident, VerifyResult, int_eq, broken, genesis_hash, canonical_bytes, compute_hash,
  verify_from, verify_chain,
}
use minerals.Incident.Canonical.{canonical_bytes_injective}

int_eq-eq : (a b : ℤ) → int_eq a b ≡ true → a ≡ b
int_eq-eq (pos a) (pos b) h = ap pos (ground (arith, h))
int_eq-eq (negsuc a) (negsuc b) h = ap negsuc (ground (arith, h))
int_eq-eq (pos a) (negsuc b) h = cc
int_eq-eq (negsuc a) (pos b) h = cc

int_eq_refl : (a : ℤ) → int_eq a a ≡ true
int_eq_refl (pos a) = ground arith
int_eq_refl (negsuc a) = ground arith

module _ (platform : Platform) where
  open platform use {sha256_hex, length-sha256_hex}

  -- The entry stands at the index `i` of a chain whose last hash is `prev`.
  abbrev pub Linked : Bytes → ℕ → Incident → Type 0
  Linked prev i e =
      (e.seq ≡ pos (suc i)) × (e.prev_hash ≡ prev) × (compute_hash platform prev e ≡ e.entry_hash)

  abbrev pub Chain : Bytes → ℕ → List Incident → Type 0
  Chain prev i [] = Unit
  Chain prev i (e ∷ es) = Linked prev i e × Chain e.entry_hash (suc i) es

  -- The hash of the last entry.
  abbrev pub last_hash : Bytes → List Incident → Bytes
  last_hash prev [] = prev
  last_hash prev (e ∷ es) = last_hash e.entry_hash es

  pub Chain-append :
      (prev : Bytes) (i : ℕ) (es : List Incident) (e : Incident)
      → Chain prev i es
      → Linked (last_hash prev es) (i + length es) e
      → Chain prev i (es ++ e ∷ [])
  Chain-append prev i [] e c (s, p, h) =
      let n : suc (i + 0) ≡ suc i = omega arith in ((s ∙ ap pos n, p, h), tt)
  Chain-append prev i (x ∷ es) e (l, c) (s, p, h) =
      let n : suc (i + suc (length es)) ≡ suc (suc i + length es) = omega arith in
      (l, Chain-append x.entry_hash (suc i) es e c (s ∙ ap pos n, p, h))

  verify_from-Linked :
      (count : ℕ) (prev : Bytes) (i : ℕ) (e : Incident) (es : List Incident)
      → Linked prev i e
      → verify_from platform count prev i (e ∷ es)
        ≡ verify_from platform count e.entry_hash (suc i) es
  unfolding verify_from
  verify_from-Linked count prev i e es (s, p, h) =
      let t : int_eq e.seq (pos (suc i)) ≡ true =
        ap (λ (z : ℤ). int_eq z (pos (suc i))) s ∙ int_eq_refl (pos (suc i)) in
      let u : bytes_eq e.prev_hash prev ≡ true =
        ap (λ (b : Bytes). bytes_eq b prev) p ∙ bytes_eq_refl prev in
      let v : bytes_eq (compute_hash platform prev e) e.entry_hash ≡ true =
        ap (λ (b : Bytes). bytes_eq b e.entry_hash) h ∙ bytes_eq_refl e.entry_hash in
      rw (t, u, v) refl

  -- The check fails at the entry `e`.
  abbrev pub FailsAt : Incident → ℕ → VerifyResult → Type 0
  FailsAt e count r = (r.ok ≡ false) × (r.count ≡ count) × (r.broken_at_seq ≡ e.seq)

  verify_from-step :
      (count : ℕ) (prev : Bytes) (i : ℕ) (e : Incident) (es : List Incident)
      → Linked prev i e
        ⊎ (¬ Linked prev i e × FailsAt e count (verify_from platform count prev i (e ∷ es)))
  unfolding verify_from broken
  verify_from-step count prev i e es = elim (Bool-cases (int_eq e.seq (pos (suc i)))) [
    | inr f ↦ inr (
      λ (s, p, h).
          ground (arith, f, ap (λ (z : ℤ). int_eq z (pos (suc i))) s, int_eq_refl (pos (suc i))),
      (rw f refl, rw f refl, rw f refl),
    )
    | inl t ↦ elim (Bool-cases (bytes_eq e.prev_hash prev)) [
      | inr f ↦ inr (
        λ (s, p, h). ground (arith, f, ap (λ (b : Bytes). bytes_eq b prev) p, bytes_eq_refl prev),
        (rw (t, f) refl, rw (t, f) refl, rw (t, f) refl),
      )
      | inl u ↦ elim (Bool-cases (bytes_eq (compute_hash platform prev e) e.entry_hash)) [
        | inr f ↦ inr (
          λ (s, p, h).
              ground (
                arith,
                f,
                ap (λ (b : Bytes). bytes_eq b e.entry_hash) h,
                bytes_eq_refl e.entry_hash,
              ),
          (rw (t, u, f) refl, rw (t, u, f) refl, rw (t, u, f) refl),
        )
        | inl v ↦ inl (int_eq-eq _ _ t, bytes_eq-eq _ _ u, bytes_eq-eq _ _ v)
      ]
    ]
  ]

  verify_from_lem :
      (count : ℕ) (prev : Bytes) (i : ℕ) (es : List Incident)
      → (Chain prev i es
          × (verify_from platform count prev i es
              ≡ record { ok = true; count = count; broken_at_seq = pos 0; detail = [] }))
        ⊎ ((xs : List Incident) × (e : Incident) × (ys : List Incident) × (es ≡ xs ++ (e ∷ ys))
            × Chain prev i xs
            × ¬ Linked (last_hash prev xs) (i + length xs) e
            × FailsAt e count (verify_from platform count prev i es))
  unfolding verify_from
  verify_from_lem count prev i [] = inl (tt, refl)
  verify_from_lem count prev i (e ∷ es) = elim (verify_from-step count prev i e es) [
    | inr (not_linked, fails) ↦
        inr ([], e, es, refl, tt, (let n : i + 0 ≡ i = omega arith in rw n not_linked), fails)
    | inl linked ↦ elim (verify_from_lem count e.entry_hash (suc i) es) [
      | inl (chain, good) ↦
          inl ((linked, chain), verify_from-Linked count prev i e es linked ∙ good)
      | inr (xs, x, ys, split, chain, not_linked, fails) ↦ inr (
        e ∷ xs,
        x,
        ys,
        ap (λ (l : List Incident). e ∷ l) split,
        (linked, chain),
        (let n : i + suc (length xs) ≡ suc i + length xs = omega arith in rw n not_linked),
        subst (FailsAt x count) (sym (verify_from-Linked count prev i e es linked)) fails,
      )
    ]
  ]

  -- The integrity check says exactly where a register breaks: either every entry is linked, that is, it has
  -- the next number, the hash of the entry before it and the hash of its own content, and the check
  -- is OK and counts all; or the check fails with the number of the first entry that is not linked.
  pub verify_chain_lem :
      (es : List Incident)
      → (Chain genesis_hash 0 es
          × (verify_chain platform es
              ≡ record { ok = true; count = length es; broken_at_seq = pos 0; detail = [] }))
        ⊎ ((xs : List Incident) × (e : Incident) × (ys : List Incident) × (es ≡ xs ++ (e ∷ ys))
            × Chain genesis_hash 0 xs
            × ¬ Linked (last_hash genesis_hash xs) (length xs) e
            × FailsAt e (length es) (verify_chain platform es))
  unfolding verify_chain
  verify_chain_lem es = elim (verify_from_lem (length es) genesis_hash 0 es) [
    | inl good ↦ inl good
    | inr (xs, e, ys, split, chain, not_linked, fails) ↦ inr (
      xs,
      e,
      ys,
      split,
      chain,
      (let n : 0 + length xs ≡ length xs = omega arith in rw n at not_linked),
      fails,
    )
  ]

  pub verify_chain-Chain :
      (es : List Incident) → (verify_chain platform es).ok ≡ true → Chain genesis_hash 0 es
  verify_chain-Chain es h = elim (verify_chain_lem es) [
    | inl (chain, good) ↦ chain
    | inr (xs, e, ys, split, chain, not_linked, (bad, _, _)) ↦ absurd (cc)
  ]

  pub Chain-verify_chain :
      (es : List Incident) → Chain genesis_hash 0 es → (verify_chain platform es).ok ≡ true
  unfolding verify_chain verify_from
  Chain-verify_chain es c = go (length es) genesis_hash 0 es c
    where
      go :
          (count : ℕ) (prev : Bytes) (i : ℕ) (es : List Incident)
          → Chain prev i es
          → (verify_from platform count prev i es).ok ≡ true
      go count prev i [] c = refl
      go count prev i (e ∷ es) (l, c) =
          ap (λ (r : VerifyResult). r.ok) (verify_from-Linked count prev i e es l)
          ∙ go count e.entry_hash (suc i) es c

  -- Two texts with one hash.
  abbrev pub Collision : Type 0
  Collision = (a : Bytes) × (b : Bytes) × (sha256_hex a ≡ sha256_hex b) × (a ≢ b)

  same_text : (p q a b : Bytes) → length p ≡ length q → p ++ a ≡ q ++ b → (p ≡ q) × (a ≡ b)
  same_text p q a b n e = (
    sym (take-append_left p a)
        ∙ ap (take (length p)) e
        ∙ ap (λ (k : ℕ). take k (q ++ b)) n
        ∙ take-append_left q b,
    sym (drop-append_left p a)
        ∙ ap (drop (length p)) e
        ∙ ap (λ (k : ℕ). drop k (q ++ b)) n
        ∙ drop-append_left q b,
  )

  bytes_eq-cases : (a b : Bytes) → (a ≡ b) ⊎ (a ≢ b)
  bytes_eq-cases a b = elim (Bool-cases (bytes_eq a b)) [
    | inl t ↦ inl (bytes_eq-eq a b t)
    | inr f ↦ inr (λ e. ground (arith, f, ap (bytes_eq a) e, bytes_eq_refl a))
  ]

  -- One hash for two linked entries: they are the same entry, or the two hashed texts collide.
  entry_hash-Linked :
      (p q : Bytes) (i : ℕ) (x y : Incident)
      → length p ≡ length q
      → Linked p i x
      → Linked q i y
      → x.entry_hash ≡ y.entry_hash
      → ((p ≡ q) × (x ≡ y)) ⊎ Collision
  unfolding compute_hash
  entry_hash-Linked p q i x y n (sx, px, hx) (sy, py, hy) e =
      let a = p ++ canonical_bytes platform x in
      let b = q ++ canonical_bytes platform y in
      elim (bytes_eq-cases a b) [
        | inr different ↦ inr (a, b, hx ∙ e ∙ sym hy, different)
        | inl same ↦
            let (prev, content) = same_text p q _ _ n same in
            inl (prev, canonical_bytes_injective platform x y content (px ∙ prev ∙ sym py) e)
      ]

  Chain-eq :
      (p q : Bytes) (i : ℕ) (xs ys : List Incident)
      → length p ≡ length q
      → length xs ≡ length ys
      → Chain p i xs
      → Chain q i ys
      → last_hash p xs ≡ last_hash q ys
      → ((p ≡ q) × (xs ≡ ys)) ⊎ Collision
  unfolding compute_hash
  Chain-eq p q i [] [] m n cx cy e = inl (e, refl)
  Chain-eq p q i [] (y ∷ ys) m n cx cy e = absurd (omega (arith, n))
  Chain-eq p q i (x ∷ xs) [] m n cx cy e = absurd (omega (arith, n))
  Chain-eq p q i (x ∷ xs) (y ∷ ys) m n ((sx, px, hx), cx) ((sy, py, hy), cy) e =
      let lx = ap length (sym hx) ∙ length-sha256_hex _ in
      let ly = ap length (sym hy) ∙ length-sha256_hex _ in
      elim (Chain-eq x.entry_hash y.entry_hash (suc i) xs ys (lx ∙ sym ly) (omega (arith, n)) cx cy
        e) [
          | inr c ↦ inr c
          | inl (hash, rest) ↦ elim (entry_hash-Linked p q i x y m (sx, px, hx) (sy, py, hy) hash) [
            | inr c ↦ inr c
            | inl (prev, entry) ↦ inl (prev, λ j. entry j ∷ rest j)
          ]
        ]

  -- Tamper evidence: of two registers that both verify, have as many entries and end in the same
  -- hash, either every entry is the same in every field, or two different texts with the same
  -- SHA-256 are at hand.
  pub verify_chain-tamper_evident :
      (xs ys : List Incident)
      → (verify_chain platform xs).ok ≡ true
      → (verify_chain platform ys).ok ≡ true
      → length xs ≡ length ys
      → last_hash genesis_hash xs ≡ last_hash genesis_hash ys
      → (xs ≡ ys) ⊎ Collision
  verify_chain-tamper_evident xs ys vx vy n e =
      elim (Chain-eq genesis_hash genesis_hash 0 xs ys refl n (verify_chain-Chain xs vx)
        (verify_chain-Chain ys vy) e) [ inl (_, same) ↦ inl same | inr c ↦ inr c ]
