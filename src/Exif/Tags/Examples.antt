-- ===== src/Exif/Tags/Examples.antt =====
-- A blob with a maker's tag, a place and an Exif directory with a date.
use minerals.Base.{
  ℕ, suc, String, Bool, true, false, Option, none, some, [], ◌∷◌, ◌≡◌, ◌⊎◌, refl, Bytes,
}
use minerals.Exif.Tags.{
  Entry, Ifd, ifd, no_children, child, Items, Item, empty, add, allowed_root_tag_ids,
  build_filtered_ifd, build_entries, build_entry, add_item, add_child, filter_exif_blob,
}
use minerals.Exif.Tags.Laws.{AreAllowed, filter_exif_blob-AreAllowed}

abbrev plain : ℕ → Entry
plain id = record {
  is_thumbnail = false;
  tag_id = id;
  tag_type = 2;
  has_child = false;
  raw_bytes = some (65 ∷ []);
}

abbrev pointer : ℕ → Entry
pointer id = record {
  is_thumbnail = false;
  tag_id = id;
  tag_type = 4;
  has_child = true;
  raw_bytes = none;
}

abbrev root : Ifd
root = ifd "IFD" true (plain 0x010F ∷ pointer 0x8825 ∷ pointer 0x8769 ∷ []) (
    child 1 (ifd "GPS" true (plain 2 ∷ []) no_children)
      (child 2 (ifd "Exif" true (plain 0x9003 ∷ plain 0x927C ∷ []) no_children) no_children))

abbrev collect : Bytes → Option Ifd
collect raw = some root

-- The number of items stands for their encoding.
abbrev count : Items → ℕ
count empty = 0
count (add items item) = suc (count items)

abbrev encode : Ifd → Items → Option Bytes
encode r items = some (count items ∷ [])

abbrev accepts : String → Bool → Items → Item → Bool
accepts identity big_endian target item = true

two_kept : filter_exif_blob accepts collect encode [] ≡ some (2 ∷ [])
unfolding filter_exif_blob build_filtered_ifd build_entries build_entry add_item add_child
two_kept = refl

filter_exif_blob-AreAllowed_example :
    (◌≡◌ {A = Bytes} (2 ∷ []) [])
    ⊎ ((r : Ifd) × (items : Items) × (collect [] ≡ some r)
        × (encode r items ≡ some (2 ∷ []))
        × AreAllowed r allowed_root_tag_ids items)
filter_exif_blob-AreAllowed_example =
    filter_exif_blob-AreAllowed accepts collect encode [] (2 ∷ []) two_kept
