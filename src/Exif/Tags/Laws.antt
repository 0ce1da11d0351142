-- ===== src/Exif/Tags/Laws.antt =====
-- Which tags survive in a filtered Exif blob (internal/storage/exif/exif.go).
use minerals.Base.{
  ℕ, zero, suc, ◌+◌, String, Bool, true, false, Option, none, some, List, [], ◌∷◌, eqb,
  if◌then◌else◌, ◌≡◌, ◌⊎◌, refl, sym, ap, ◌∙◌, arith, Bool-cases, Option-cases, inl, inr, Bytes,
  eqb_iff,
}
use mathlib.Core.Path.{subst}
use minerals.Exif.Tags.{
  Entry, Ifd, ifd, Children, no_children, child, Item, tag, sub, Items, empty, add, has_id,
  allowed_root_tag_ids, allowed_exif_tag_ids, tag_exif_sub_ifd, Built, find_child, add_item,
  add_child, build_entry, build_entries, build_filtered_ifd, build_children, encoded,
  filter_exif_blob,
}

-- What go-exif read: the entry at an index, and the first child directory that hangs on it.
abbrev pub entry_at : ℕ → List Entry → Option Entry
entry_at i [] = none
entry_at zero (e ∷ es) = some e
entry_at (suc i) (e ∷ es) = entry_at i es

abbrev pub child_at : ℕ → Children → Option Ifd
child_at i no_children = none
child_at i (child j d rest) = let later = child_at i rest in if eqb j i then some d else later

abbrev pub entries_of : Ifd → List Entry
entries_of (ifd identity big_endian entries _) = entries

abbrev pub children_of : Ifd → Children
children_of (ifd identity big_endian entries dirs) = dirs

abbrev pub identity_of : Ifd → String
identity_of (ifd identity big_endian entries _) = identity

abbrev mutual
  -- Every item of the builder comes from the directory `d`, as one that the list allows there.
  pub AreAllowed : Ifd → List ℕ → Items → Type 0
  AreAllowed d allowed empty = Unit
  AreAllowed d allowed (add items item) = AreAllowed d allowed items × IsAllowed d allowed item

  -- A tag is on the list, and an entry of `d` that neither describes a thumbnail nor points to another
  -- directory has it and its value. A directory is the one that an entry with the Exif pointer's tag
  -- points to, and what it holds comes from it, as what the Exif list allows.
  pub IsAllowed : Ifd → List ℕ → Item → Type 0
  IsAllowed d allowed (tag path id type value big_endian) =
      (i : ℕ) × (e : Entry) × (entry_at i (entries_of d) ≡ some e)
      × (e.is_thumbnail ≡ false)
      × (e.has_child ≡ false)
      × (e.tag_id ≡ id)
      × (e.raw_bytes ≡ some value)
      × (has_id allowed id ≡ true)
  IsAllowed d allowed (sub identity big_endian items) =
      (i : ℕ) × (e : Entry) × (c : Ifd) × (entry_at i (entries_of d) ≡ some e)
      × (e.tag_id ≡ tag_exif_sub_ifd)
      × (child_at i (children_of d) ≡ some c)
      × (identity_of c ≡ identity)
      × AreAllowed c allowed_exif_tag_ids items

-- What was built of the directory `c`.
pub record IsBuiltOf (c : Ifd) (b : Built) : Type 0 where
  pub identity : identity_of c ≡ b.identity
  pub sound : (items : Items) → b.items ≡ some items → AreAllowed c allowed_exif_tag_ids items

-- Each child directory has its builder, at its place.
abbrev AreBuilt : Children → List Built → Type 0
AreBuilt no_children [] = Unit
AreBuilt no_children (b ∷ bs) = ⊥
AreBuilt (child i c rest) [] = ⊥
AreBuilt (child i c rest) (b ∷ bs) = (b.parent_tag_index ≡ i) × IsBuiltOf c b × AreBuilt rest bs

find_child-child_at :
    (i : ℕ) (cs : Children) (bs : List Built) (b : Built)
    → AreBuilt cs bs
    → find_child i bs ≡ some b
    → (c : Ifd) × (child_at i cs ≡ some c) × IsBuiltOf c b
find_child-child_at i no_children [] b h e = absurd (cc)
find_child-child_at i no_children (d ∷ bs) b h e = elim h [ ]
find_child-child_at i (child j c rest) [] b h e = elim h [ ]
find_child-child_at i (child j c rest) (d ∷ bs) b (p, s, h) e =
    elim (Bool-cases (eqb d.parent_tag_index i)) [
      | inl here ↦
          let same : d ≡ b = ground (arith, here, e) in
          let at : eqb j i ≡ true = rw p at here in (c, rw at refl, subst (IsBuiltOf c) same s)
      | inr there ↦
          let away : eqb j i ≡ false = rw p at there in
          let (c', f, s') = find_child-child_at i rest bs b h (ground (arith, there, e)) in
          (c', rw away f, s')
    ]

module _ (accepts : String → Bool → Items → Item → Bool) (identity : String)
    (big_endian : Bool) where
  add_item-AreAllowed :
      (d : Ifd) (allowed : List ℕ) (target out : Items) (item : Item)
      → AreAllowed d allowed target
      → IsAllowed d allowed item
      → add_item accepts identity big_endian target item ≡ some out
      → AreAllowed d allowed out
  unfolding add_item
  add_item-AreAllowed d allowed target out item t i h =
      let same : add target item ≡ out = ground (arith, h) in
      subst (AreAllowed d allowed) same (t, i)

  add_child-AreAllowed :
      (d : Ifd) (allowed : List ℕ) (target out : Items) (i : ℕ) (e : Entry) (c : Ifd) (b : Built)
      → AreAllowed d allowed target
      → entry_at i (entries_of d) ≡ some e
      → e.tag_id ≡ tag_exif_sub_ifd
      → child_at i (children_of d) ≡ some c
      → IsBuiltOf c b
      → add_child accepts identity big_endian target b ≡ some out
      → AreAllowed d allowed out
  unfolding add_child
  add_child-AreAllowed d allowed target out i e c b t at exif under s h = go b.items refl h
    where
      go :
          (o : Option Items)
          → b.items ≡ o
          → add_child accepts identity big_endian target (record b { items = o }) ≡ some out
          → AreAllowed d allowed out
      go none q k = cc
      go (some empty) q k = let same : target ≡ out = cc in subst (AreAllowed d allowed) same t
      go (some (add items last)) q k =
          add_item-AreAllowed d allowed target out (sub b.identity b.big_endian (add items last)) t
            (i, e, c, at, exif, under, s.identity, s.sound (add items last) q) k

  build_entry-AreAllowed :
      (d : Ifd) (allowed : List ℕ) (built : List Built) (i : ℕ) (e : Entry) (target out : Items)
      → AreBuilt (children_of d) built
      → entry_at i (entries_of d) ≡ some e
      → AreAllowed d allowed target
      → build_entry accepts identity big_endian allowed built i e target ≡ some out
      → AreAllowed d allowed out
  unfolding build_entry
  build_entry-AreAllowed d allowed built i e target out s at t h =
      let keep : some target ≡ some out → AreAllowed d allowed out =
        λ k. let same : target ≡ out = cc in subst (AreAllowed d allowed) same t in
      elim (Bool-cases e.is_thumbnail) [
        | inl thumb ↦ keep (ground (arith, thumb, h))
        | inr other ↦ elim (Bool-cases e.has_child) [
          | inl parent ↦ elim (Bool-cases (eqb e.tag_id tag_exif_sub_ifd)) [
            | inr pointer ↦ keep (ground (arith, other, parent, pointer, h))
            | inl exif ↦ elim (Option-cases (find_child i built)) [
              | inl gone ↦ keep (ground (arith, other, parent, exif, gone, h))
              | inr (b, f) ↦
                  let (c, under, of) = find_child-child_at i (children_of d) built b s f in
                  add_child-AreAllowed d allowed target out i e c b t at
                    ((eqb_iff e.tag_id tag_exif_sub_ifd).0 exif) under of
                    (ground (arith, other, parent, exif, f, h))
            ]
          ]
          | inr leaf ↦ elim (Bool-cases (has_id allowed e.tag_id)) [
            | inr off ↦ keep (ground (arith, other, leaf, off, h))
            | inl on ↦ elim (Option-cases e.raw_bytes) [
              | inl unread ↦ keep (ground (arith, other, leaf, on, unread, h))
              | inr (value, r) ↦
                  add_item-AreAllowed d allowed target out
                    (tag identity e.tag_id e.tag_type value big_endian) t
                    (i, e, at, other, leaf, refl, r, on) (ground (arith, other, leaf, on, r, h))
            ]
          ]
        ]
      ]

  -- `es` are the entries from the index `i` on.
  build_entries-AreAllowed :
      (d : Ifd) (allowed : List ℕ) (built : List Built) (i : ℕ) (es : List Entry)
      (target out : Items)
      → AreBuilt (children_of d) built
      → ((j : ℕ) → entry_at (i + j) (entries_of d) ≡ entry_at j es)
      → AreAllowed d allowed target
      → build_entries accepts identity big_endian allowed built i es target ≡ some out
      → AreAllowed d allowed out
  unfolding build_entries
  build_entries-AreAllowed d allowed built i [] target out s at t h =
      let same : target ≡ out = cc in subst (AreAllowed d allowed) same t
  build_entries-AreAllowed d allowed built i (e ∷ es) target out s at t h =
      let n : i ≡ i + 0 = omega arith in
      let here = ap (λ (k : ℕ). entry_at k (entries_of d)) n ∙ at 0 in
      elim (Option-cases (build_entry accepts identity big_endian allowed built i e target)) [
        | inl bad ↦ absurd (ground (arith, bad, h))
        | inr (target', r) ↦
            build_entries-AreAllowed d allowed built (suc i) es target' out s
              (λ j.
                let m : suc i + j ≡ i + suc j = omega arith in
                ap (λ (k : ℕ). entry_at k (entries_of d)) m ∙ at (suc j))
              (build_entry-AreAllowed d allowed built i e target target' s here t r)
              (ground (arith, r, h))
      ]

module _ (accepts : String → Bool → Items → Item → Bool) where
  mutual
    unfolding build_filtered_ifd

    build_filtered_ifd-AreAllowed :
        (d : Ifd) (allowed : List ℕ) (out : Items)
        → build_filtered_ifd accepts d allowed ≡ some out
        → AreAllowed d allowed out
    build_filtered_ifd-AreAllowed (ifd identity big_endian entries children) allowed out h =
        build_entries-AreAllowed accepts identity big_endian
          (ifd identity big_endian entries children) allowed (build_children accepts children) 0
          entries empty out (build_children-AreBuilt children)
          (λ j. let n : 0 + j ≡ j = omega arith in ap (λ (k : ℕ). entry_at k entries) n) tt h

    build_children-AreBuilt : (c : Children) → AreBuilt c (build_children accepts c)
    build_children-AreBuilt no_children = tt
    build_children-AreBuilt (child i (ifd identity big_endian entries children) rest) = (
      refl,
      record {
        identity = refl;
        sound = λ items e.
            build_filtered_ifd-AreAllowed (ifd identity big_endian entries children)
              allowed_exif_tag_ids items e;
      },
      build_children-AreBuilt rest,
    )

  -- What is written back of an Exif blob is nothing, or the encoding of items that come from the root directory
  -- go-exif read: tags of the root's allowlist, and the directories that its entries with the Exif pointer's tag
  -- point to, nested to any depth, with tags of the Exif allowlist only. Each tag has the value of an entry that
  -- describes no thumbnail; no directory behind another pointer (GPS, Interop) is followed.
  pub filter_exif_blob-AreAllowed :
      (collect : Bytes → Option Ifd) (encode : Ifd → Items → Option Bytes) (raw out : Bytes)
      → filter_exif_blob accepts collect encode raw ≡ some out
      → (out ≡ [])
        ⊎ ((root : Ifd) × (items : Items) × (collect raw ≡ some root)
            × (encode root items ≡ some out)
            × AreAllowed root allowed_root_tag_ids items)
  unfolding filter_exif_blob
  filter_exif_blob-AreAllowed collect encode raw out h = elim (Option-cases (collect raw)) [
    | inl bad ↦ absurd (ground (arith, bad, h))
    | inr (root, c) ↦
        go root (build_filtered_ifd accepts root allowed_root_tag_ids) c
          (build_filtered_ifd-AreAllowed root allowed_root_tag_ids) (ground (arith, c, h))
  ]
    where
      go :
          (root : Ifd) (o : Option Items)
          → collect raw ≡ some root
          → ((items : Items) → o ≡ some items → AreAllowed root allowed_root_tag_ids items)
          → encoded accepts (encode root) o ≡ some out
          → (out ≡ [])
            ⊎ ((root : Ifd) × (items : Items) × (collect raw ≡ some root)
                × (encode root items ≡ some out)
                × AreAllowed root allowed_root_tag_ids items)
      go root none c a k = cc
      go root (some empty) c a k = inl (let same : [] ≡ out = cc in sym same)
      go root (some (add items last)) c a k =
          inr (root, add items last, c, k, a (add items last) refl)
