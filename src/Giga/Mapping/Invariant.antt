-- ===== src/Giga/Mapping/Invariant.antt =====
-- common/giga_index.h: the invariant of header tables.
use skyefs.Prelude.{ℕ, ◌<◌, ◌≡◌, true}
use skyefs.Giga.Bitmap.Members.{has, IsBitmap}
use skyefs.Giga.Tree.{Partitions, IsTree}
use skyefs.Giga.Mapping.{GigaMapping}

-- The partitions of a table.
abbrev pub partitions : GigaMapping → Partitions
partitions m = has m.bitmap

pub record IsValid (m : GigaMapping) : Type 0 where
  pub bits : IsBitmap m.bitmap
  pub tree : IsTree (partitions m)
  pub served : 0 < m.server_count

-- What remains of it on a server that was told of a partition but not of its ancestors.
pub record IsUsable (m : GigaMapping) : Type 0 where
  pub bits : IsBitmap m.bitmap
  pub root : partitions m 0 ≡ true
  pub served : 0 < m.server_count

pub usable : {m : GigaMapping} → IsValid m → IsUsable m
usable v = record { bits = v.bits; root = v.tree.root; served = v.served }

-- All partitions are below n.
abbrev pub IsBounded : GigaMapping → ℕ → Type 0
IsBounded m n = (i : ℕ) → partitions m i ≡ true → i < n
