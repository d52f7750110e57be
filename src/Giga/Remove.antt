-- ===== src/Giga/Remove.antt =====
-- common/giga_index.c: the removal of a partition without children, which is how the server
-- empties a directory.
use skyefs.Prelude.{ℕ, ◌<◌, ◌≡◌, ◌≢◌, ok}
use skyefs.Giga.Bitmap.Members.{capacity}
use skyefs.Giga.Mapping.{GigaMapping, giga_update_mapping_remove}
use skyefs.Giga.Mapping.Invariant.{partitions, IsValid, usable}
use skyefs.Giga.Tree.Splitting.{Removes, IsLeaf, Removes-IsTree}
use skyefs.Giga.Update.{giga_update_mapping_remove_lem}

-- For a valid table and a partition within the bitmap that is not 0 and has no child,
-- giga_update_mapping_remove succeeds, and the table is valid with the old partitions but this
-- one.
pub remove-IsValid :
    {m : GigaMapping} (v : IsValid m) (c : ℕ)
    → c < capacity
    → c ≢ 0
    → IsLeaf (partitions m) c
    → (m' : GigaMapping) × (giga_update_mapping_remove m c ≡ ok m')
      × IsValid m'
      × Removes (partitions m) c (partitions m')
remove-IsValid {m} v c room ne leaf =
    let (m', e, b, del, same) = giga_update_mapping_remove_lem (usable v) c room ne in
    (
      m',
      e,
      record {
        bits = b;
        tree = Removes-IsTree v.tree c (partitions m') ne leaf del;
        served = rw same.1 v.served;
      },
      del,
    )
