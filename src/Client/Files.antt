-- ===== src/Client/Files.antt =====
-- client/operations.c: files and attributes, which the client asks PVFS for.
pub mod Attributes
pub mod Listing
pub mod Windows
pub mod Opening
pub mod Sizes
use skyefs.Prelude.{
  ℕ, ◌+◌, ◌-◌, ◌*◌, ◌/◌, ◌%◌, ◌^◌, bit_and, bit_or, List, [], ◌∷◌, length, Bool, true, false, ltb,
  ◌==◌, if◌then◌else◌, Option, none, some,
}
use skyefs.Rpc.{ObjectRef, Credentials}
use skyefs.Server.Directory.{PvfsLookup, at_ref, pvfs_error}

pub data ObjType : Type 0 where
  metafile directory symlink other_type : ObjType

-- What PVFS_sys_getattr gives: the size if the mask has it, the length of the link's target if there
-- is one, and the bits of `perms` as tests.
pub record SysAttr : Type 0 where
  pub objtype : ObjType
  pub size : Option ℕ
  pub link_target : Option ℕ
  pub owner : ℕ
  pub group : ℕ
  pub atime : ℕ
  pub mtime : ℕ
  pub ctime : ℕ
  pub o_execute : Bool
  pub o_write : Bool
  pub o_read : Bool
  pub g_execute : Bool
  pub g_write : Bool
  pub g_read : Bool
  pub u_execute : Bool
  pub u_write : Bool
  pub u_read : Bool
  pub g_sgid : Bool
  pub u_suid : Bool

-- struct stat. st_rdev is 0, st_nlink 1 and st_blksize 4096.
pub record Stat : Type 0 where
  pub st_size : ℕ
  pub st_blocks : ℕ
  pub st_uid : ℕ
  pub st_gid : ℕ
  pub st_atime : ℕ
  pub st_mtime : ℕ
  pub st_ctime : ℕ
  pub st_mode : ℕ
  pub st_dev : ℕ
  pub st_ino : ℕ

-- The statements `if (attrs->perms & ...) perm_mode |= ...`, each with the place of its bit.
unfoldable pub or_flags : List (Bool × ℕ) → ℕ → ℕ
or_flags [] mode = mode
or_flags (flag ∷ flags) mode = or_flags flags (if flag.0 then bit_or mode (2 ^ flag.1) else mode)

-- S_IXOTH to S_IRUSR, S_ISGID and S_ISUID.
abbrev pub mode_flags : SysAttr → List (Bool × ℕ)
mode_flags a =
    (a.o_execute, 0)
    ∷ (a.o_write, 1)
    ∷ (a.o_read, 2)
    ∷ (a.g_execute, 3)
    ∷ (a.g_write, 4)
    ∷ (a.g_read, 5)
    ∷ (a.u_execute, 6)
    ∷ (a.u_write, 7)
    ∷ (a.u_read, 8)
    ∷ (a.g_sgid, 10)
    ∷ (a.u_suid, 11)
    ∷ []

-- S_IFREG, S_IFDIR, S_IFLNK, or nothing.
unfoldable pub type_mode : ObjType → ℕ
type_mode metafile = 0o100000
type_mode directory = 0o040000
type_mode symlink = 0o120000
type_mode other_type = 0

-- In size_t.
unfoldable pub rounded_up_size : ℕ → ℕ
rounded_up_size inode_size = (inode_size + (4096 - inode_size % 4096)) % 2 ^ 64

-- The 64 bits of a size_t, and of the off_t that it is stored in; from 2 ^ 63 on this is negative.
abbrev pub of_64 : ℕ → ℕ
of_64 n = n % 2 ^ 64

-- st_size and st_blocks.
unfoldable pub sizes : SysAttr → ℕ × ℕ
unfolding rounded_up_size
sizes a =
    let page : ℕ × ℕ = (4096, 4096 / 512) in
    let of_file : ℕ × ℕ = elim a.size [
      | some s ↦ (of_64 s, rounded_up_size (of_64 s) / 512)
      | none ↦ (0, 0)
    ] in
    let of_link : ℕ × ℕ = elim a.link_target [ some n ↦ (of_64 n, 0) | none ↦ page ] in
    elim a.objtype [ metafile ↦ of_file | symlink ↦ of_link | directory ↦ page | other_type ↦ page ]

unfoldable pub stat_of : ObjectRef → SysAttr → Stat
unfolding sizes or_flags type_mode
stat_of ref a =
    let (size, blocks) = sizes a in
    record {
      st_size = size;
      st_blocks = blocks;
      st_uid = a.owner;
      st_gid = a.group;
      st_atime = a.atime;
      st_mtime = a.mtime;
      st_ctime = a.ctime;
      st_mode = bit_or (or_flags (mode_flags a) 0) (type_mode a.objtype);
      st_dev = ref.fs_id;
      st_ino = ref.handle;
    }
