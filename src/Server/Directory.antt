-- ===== src/Server/Directory.antt =====
-- server/cache.h: the record of a directory, and what the server takes from PVFS.
use skyefs.Prelude.{ℕ, ◌+◌, ◌==◌, if◌then◌else◌, List, Bool, Option}
use skyefs.Rpc.{ObjectRef, Credentials}
use skyefs.Giga.Mapping.{GigaMapping}

-- The lock: how many readers have it, and whether a writer has.
pub record RwLock : Type 0 where
  pub readers : ℕ
  pub writer : Bool

-- struct skye_directory. `splitting_index` is `none` for -1; the length of the array of handles is
-- that of the list.
pub record SkyeDirectory : Type 0 where
  pub mapping : GigaMapping
  pub refcount : ℕ
  pub handle : ObjectRef
  pub splitting_index : Option ℕ
  pub rwlock : RwLock
  pub partition_handles : List ℕ

-- The place in a directory where PVFS_sys_readdir goes on from a token, 0 being PVFS_READDIR_START.
unfoldable pub position : ℕ → ℕ
position token = if token == 0 then 0 else token + 1

-- A reply of PVFS that carries a reference: 0 with it, or an error, as the errno that
-- PVFS_get_errno_mapping gives it, which is taken not to be EAGAIN.
pub data PvfsLookup : Type 0 where
  at_ref : ObjectRef → PvfsLookup
  pvfs_error : ℕ → PvfsLookup

-- What the server calls: PVFS_sys_ref_lookup of a path in a directory, PVFS_sys_create and
-- PVFS_sys_mkdir of a name with a mode, PVFS_sys_rename and PVFS_sys_remove with 0 or an errno, the
-- directory entry count of PVFS_sys_getattr if it succeeds, and whether its type is that of a
-- directory, PVFS_sys_readdir of so many entries from a token on, where 0
-- stands for PVFS_READDIR_START, `pvfs_get_mds`, what snprintf writes for "p%05d" and for "p%05d/%s",
-- and sscanf with "p%u".
pub record Pvfs (W : Type 0) : Type 0 where
  pub ref_lookup : Credentials → ObjectRef → List ℕ → W → PvfsLookup × W
  pub sys_create : Credentials → ObjectRef → List ℕ → ℕ → W → PvfsLookup × W
  pub sys_mkdir : Credentials → ObjectRef → List ℕ → ℕ → W → PvfsLookup × W
  pub sys_rename : Credentials → List ℕ → ObjectRef → List ℕ → ObjectRef → W → ℕ × W
  pub sys_remove : Credentials → List ℕ → ObjectRef → W → ℕ × W
  pub dirent_count : Credentials → ObjectRef → W → Option ℕ × W
  pub is_directory : Credentials → ObjectRef → W → Option Bool × W
  pub readdir : ObjectRef → ℕ → ℕ → W → Option (List (List ℕ)) × W
  pub get_mds : ObjectRef → ℕ
  pub partition_name : ℕ → List ℕ
  pub partition_path : ℕ → List ℕ → List ℕ
  pub sscanf_index : List ℕ → Option ℕ
