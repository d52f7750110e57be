-- ===== src/Giga/Update.antt =====
-- common/giga_index.c: `giga_update_mapping` and `giga_update_mapping_remove` as operations on
-- sets.
use skyefs.Prelude.{ℕ, ◌<◌, ◌≡◌, ◌≢◌, refl, arith, ok}
use skyefs.Giga.Bitmap.{get_radix_from_index}
use skyefs.Giga.Bitmap.Members.{IsBitmap, capacity, set_bit_lem, clear_bit_lem}
use skyefs.Giga.Bitmap.Highest.{get_radix_from_bmap_lem}
use skyefs.Giga.Mapping.{GigaMapping, giga_update_mapping, giga_update_mapping_remove}
use skyefs.Giga.Mapping.Invariant.{partitions, IsUsable}
use skyefs.Giga.Tree.Splitting.{Adds, Removes}

-- The servers of a table.
abbrev pub SameServers : GigaMapping → GigaMapping → Type 0
SameServers m m' = (m'.zeroth_server ≡ m.zeroth_server) × (m'.server_count ≡ m.server_count)

module _ {m : GigaMapping} (v : IsUsable m) (c : ℕ) (room : c < capacity) where
  -- For a table with a well-formed bitmap, partition 0 and a server, and an index within the
  -- bitmap, giga_update_mapping succeeds with a well-formed bitmap that has this partition and
  -- the old ones, and keeps the servers.
  pub giga_update_mapping_lem :
      (m' : GigaMapping) × (giga_update_mapping m c ≡ ok m')
      × IsBitmap m'.bitmap
      × Adds (partitions m) c (partitions m')
      × SameServers m m'
  unfolding giga_update_mapping
  giga_update_mapping_lem =
      let (bmap, e, b, add) = set_bit_lem v.bits c room in
      let (h, f, top) = get_radix_from_bmap_lem b 0 (ground (arith, add 0, v.root)) in
      (
        record m { bitmap = bmap; curr_radix = get_radix_from_index h },
        rw (e, f) refl,
        b,
        add,
        (refl, refl),
      )

  -- For a table with a well-formed bitmap, partition 0 and a server, and an index within the
  -- bitmap other than 0, giga_update_mapping_remove succeeds with a well-formed bitmap that has
  -- the old partitions but this one, and keeps the servers.
  pub giga_update_mapping_remove_lem :
      c ≢ 0
      → (m' : GigaMapping) × (giga_update_mapping_remove m c ≡ ok m')
        × IsBitmap m'.bitmap
        × Removes (partitions m) c (partitions m')
        × SameServers m m'
  unfolding giga_update_mapping_remove
  giga_update_mapping_remove_lem ne =
      let (bmap, e, b, del) = clear_bit_lem v.bits c room in
      let (h, f, top) = get_radix_from_bmap_lem b 0 (ground (arith, del 0, v.root)) in
      (
        record m { bitmap = bmap; curr_radix = get_radix_from_index h },
        rw (e, f) refl,
        b,
        del,
        (refl, refl),
      )
