-- ===== src/Exif/Tags.antt =====
-- `filterEXIFBlob`, `buildFilteredIfd` and the allowlists of internal/storage/exif/exif.go.
--
-- What go-exif reads from a blob is a tree of directories (`Ifd`), and what it is given to write a tree
-- of builders (`Items`). Its `Collect`, `Add` and `EncodeToExif` are parameters; `none` is an error.
pub mod Laws
mod Examples
use minerals.Base.{
  ℕ, zero, suc, ◌+◌, ◌-◌, ◌*◌, ◌/◌, ◌%◌, ◌^◌, ◌≤◌, ◌<◌, min, String, ◌==◌, Bool, true, false, not,
  ◌&&◌, ◌||◌, Option, none, some, List, [], ◌∷◌, ◌++◌, map, ltb, leb, eqb, if◌then◌else◌, ◌≡◌, ◌≢◌,
  ◌↔◌, ◌⊎◌, refl, sym, ap, ◌∙◌, arith, eq_iff, eq_refl, trim_space, split_on, contains, Bool-cases,
  Option-cases, inl, inr, length, take, drop, any, all, All, All-append, All-of, length-append,
  length-take, length-drop, take-append-drop, take-append_left, drop-append_left, Bytes, codes,
  bytes_eq, has_prefix, be16, be32, le32, put_be16, put_le32, lt→ltb, ltb→lt, leb→le, eqb_iff, itoa,
  read_number, read_number-itoa, itoa_injective, minus-itoa,
}

pub record Entry : Type 0 where
  -- `IsThumbnailOffset() || IsThumbnailSize()`
  pub is_thumbnail : Bool
  pub tag_id : ℕ
  pub tag_type : ℕ
  -- `ChildIfdPath() != ""`
  pub has_child : Bool
  pub raw_bytes : Option Bytes

mutual
  -- An identity, a byte order, the entries and the child directories, each with `ParentTagIndex()`.
  pub data Ifd : Type 0 where
    ifd : (identity : String) (big_endian : Bool) (entries : List Entry) (children : Children) → Ifd

  pub data Children : Type 0 where
    no_children : Children
    child : (parent_tag_index : ℕ) (i : Ifd) (rest : Children) → Children

mutual
  pub data Item : Type 0 where
    tag : (path : String) (id type : ℕ) (value : Bytes) (big_endian : Bool) → Item
    sub : (identity : String) (big_endian : Bool) (items : Items) → Item

  -- The items of a builder, the last one added outermost.
  pub data Items : Type 0 where
    empty : Items
    add : Items → Item → Items

abbrev pub has_id : List ℕ → ℕ → Bool
has_id ids id = any (eqb id) ids

abbrev pub allowed_root_tag_ids : List ℕ
allowed_root_tag_ids =
    0x0100 ∷ 0x0101 ∷ 0x0102 ∷ 0x0103 ∷ 0x0106 ∷ 0x0115 ∷ 0x011C ∷ 0x0112 ∷ 0x011A ∷ 0x011B ∷ 0x0128
    ∷ 0x010F ∷ 0x0110 ∷ 0x0132 ∷ []

abbrev pub allowed_exif_tag_ids : List ℕ
allowed_exif_tag_ids =
    0x9003 ∷ 0x9004 ∷ 0x9290 ∷ 0x9291 ∷ 0x9292 ∷ 0x829A ∷ 0x829D ∷ 0x8827 ∷ 0x8822 ∷ 0x9204 ∷ 0x9201
    ∷ 0x9202 ∷ 0x9203 ∷ 0x9207 ∷ 0x9208 ∷ 0x9209 ∷ 0x920A ∷ 0xA405 ∷ 0xA433 ∷ 0xA434 ∷ 0xA435
    ∷ 0xA432 ∷ 0xA403 ∷ 0xA402 ∷ 0xA406 ∷ 0xA301 ∷ 0xA001 ∷ 0xA302 ∷ 0xA401 ∷ 0xA404 ∷ 0xA408
    ∷ 0xA409 ∷ 0xA40A ∷ []

abbrev pub tag_exif_sub_ifd : ℕ
tag_exif_sub_ifd = 0x8769

-- A child directory's place, and what was built of it.
pub record Built : Type 0 where
  pub parent_tag_index : ℕ
  pub identity : String
  pub big_endian : Bool
  pub items : Option Items

abbrev pub find_child : ℕ → List Built → Option Built
find_child i [] = none
find_child i (b ∷ bs) =
    let rest = find_child i bs in if eqb b.parent_tag_index i then some b else rest

-- `accepts` is given the identity and the byte order of the builder that is added to, and its items.
module _ (accepts : String → Bool → Items → Item → Bool) where
  -- `Add` and `AddChildIb`.
  unfoldable pub add_item : String → Bool → Items → Item → Option Items
  add_item identity big_endian target item =
      if accepts identity big_endian target item then some (add target item) else none

  unfoldable pub add_child : String → Bool → Items → Built → Option Items
  add_child identity big_endian target b = elim b.items [
    | none ↦ none
    | some empty ↦ some target
    | some (add items last) ↦
        add_item identity big_endian target (sub b.identity b.big_endian (add items last))
  ]

  -- One round of the loop over the entries, of the entry with the index `i`.
  unfoldable pub build_entry :
      String → Bool → List ℕ → List Built → ℕ → Entry → Items → Option Items
  build_entry identity big_endian allowed children i e target =
      if e.is_thumbnail
      then some target
      else if e.has_child
      then if not (eqb e.tag_id tag_exif_sub_ifd)
        then some target
        else elim (find_child i children) [
          | none ↦ some target
          | some b ↦ add_child identity big_endian target b
        ]
      else if not (has_id allowed e.tag_id)
      then some target
      else elim e.raw_bytes [
        | none ↦ some target
        | some value ↦
            add_item identity big_endian target (tag identity e.tag_id e.tag_type value big_endian)
      ]

  unfoldable pub build_entries :
      String → Bool → List ℕ → List Built → ℕ → List Entry → Items → Option Items
  build_entries identity big_endian allowed children i [] target = some target
  build_entries identity big_endian allowed children i (e ∷ es) target =
      elim (build_entry identity big_endian allowed children i e target) [
        | none ↦ none
        | some target' ↦ build_entries identity big_endian allowed children (suc i) es target'
      ]

  unfoldable mutual
    pub build_filtered_ifd : Ifd → List ℕ → Option Items
    build_filtered_ifd (ifd identity big_endian entries children) allowed =
        build_entries identity big_endian allowed (build_children children) 0 entries empty

    pub build_children : Children → List Built
    build_children no_children = []
    build_children (child parent_tag_index (ifd identity big_endian entries children) rest) =
        record {
          parent_tag_index = parent_tag_index;
          identity = identity;
          big_endian = big_endian;
          items =
              build_filtered_ifd (ifd identity big_endian entries children) allowed_exif_tag_ids;
        }
        ∷ build_children rest

  abbrev pub encoded : (Items → Option Bytes) → Option Items → Option Bytes
  encoded encode none = none
  encoded encode (some empty) = some []
  encoded encode (some (add items last)) = encode (add items last)

  -- The root's builder has the identity and the byte order of the root, which `encode` is given.
  unfoldable pub filter_exif_blob :
      (Bytes → Option Ifd) → (Ifd → Items → Option Bytes) → Bytes → Option Bytes
  filter_exif_blob collect encode raw_exif = elim (collect raw_exif) [
    | none ↦ none
    | some root ↦ encoded (encode root) (build_filtered_ifd root allowed_root_tag_ids)
  ]
