-- ===== src/Rpc.antt =====
-- common/skye_rpc.x: what the procedures of the server take and return.
pub mod Encoding
pub mod RoundTrip
use skyefs.Prelude.{ℕ, ◌==◌, ◌&&◌, Bool}
use skyefs.Giga.Mapping.{GigaMapping}

-- PVFS_object_ref.
pub record ObjectRef : Type 0 where
  pub handle : ℕ
  pub fs_id : ℕ

-- memcmp of two of them.
abbrev pub same_ref : ObjectRef → ObjectRef → Bool
same_ref a b = a.handle == b.handle && a.fs_id == b.fs_id

-- The numbers of <errno.h> that the code names.
abbrev pub enoent : ℕ
enoent = 2

abbrev pub eio : ℕ
eio = 5

abbrev pub eagain : ℕ
eagain = 11

abbrev pub enomem : ℕ
enomem = 12

abbrev pub eacces : ℕ
eacces = 13

abbrev pub enametoolong : ℕ
enametoolong = 36

abbrev pub enosys : ℕ
enosys = 38

-- union skye_lookup: errnum 0 carries a reference, -EAGAIN a table; `errno e` is any other
-- errnum, -e.
pub data SkyeLookup : Type 0 where
  ref : ObjectRef → SkyeLookup
  bitmap : GigaMapping → SkyeLookup
  errno : ℕ → SkyeLookup

-- union skye_result: `status e` is errnum -e, which is 0 or not -EAGAIN.
pub data SkyeResult : Type 0 where
  bitmap : GigaMapping → SkyeResult
  status : ℕ → SkyeResult

-- What a call of a client stub gives: a retval that is not RPC_SUCCESS, or the result.
pub data Call (A : Type 0) : Type 0 where
  rpc_failed : Call A
  returned : A → Call A

-- PVFS_credentials.
pub record Credentials : Type 0 where
  pub uid : ℕ
  pub gid : ℕ
