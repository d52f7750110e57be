-- ===== src/Client/Operations.antt =====
-- client/operations.c: the operations on names. Each finds the server of the name in the cached table,
-- calls it, and translates its reply for FUSE.
use skyefs.Prelude.{
  ℕ, List, ltb, leb, if◌then◌else◌, Outcome, ok, ◌>>=◌, Bool, Option, none, some, length,
}
use skyefs.Rpc.{
  ObjectRef, SkyeLookup, SkyeResult, Call, rpc_failed, returned, Credentials, ref, errno, status,
  enoent, eio, enametoolong,
}
use skyefs.Client.Files.{Stat}
use skyefs.Client.Files.Attributes.{Storage, failed, replied, inode_ref, pvfs_getattr}
use skyefs.Client.Cache.{SkyeDirectory, cache_fetch, cache_return, write}
use skyefs.Client.Retry.{Answer, again, final, ask}

abbrev pub max_filename_len : ℕ
max_filename_len = 256

-- What the client is connected to: its servers' stubs, the first of whose arguments is the number of
-- the server, `pvfs_get_mds`, whether malloc succeeds, skye_options.servercount, and PVFS.
pub record Services (W : Type 0) : Type 0 where
  pub rpc_lookup : ℕ → Credentials → ObjectRef → List ℕ → W → Call SkyeLookup × W
  pub rpc_partition : ℕ → Credentials → ObjectRef → List ℕ → W → Call SkyeLookup × W
  pub rpc_create : ℕ → Credentials → ObjectRef → List ℕ → ℕ → W → Call SkyeLookup × W
  pub rpc_mkdir : ℕ → Credentials → ObjectRef → List ℕ → ℕ → W → Call SkyeLookup × W
  pub rpc_rename :
      ℕ → Credentials → List ℕ → ObjectRef → List ℕ → ObjectRef → W → Call SkyeResult × W
  pub rpc_remove : ℕ → Credentials → ObjectRef → List ℕ → W → Call SkyeResult × W
  pub get_mds : ObjectRef → ℕ
  pub memory : Bool
  pub servercount : ℕ
  pub storage : Storage W

pub record ClientState (W : Type 0) : Type 0 where
  pub dircache : List SkyeDirectory
  pub root_handle : ℕ
  pub world : W

-- struct fuse_entry_param; the two times in it are the constant FUSE_CACHE_TIME_S.
pub record EntryParam : Type 0 where
  pub ino : ℕ
  pub attr : Stat

-- A struct stat of zeros.
abbrev pub no_stat : Stat
no_stat = record {
  st_size = 0;
  st_blocks = 0;
  st_uid = 0;
  st_gid = 0;
  st_atime = 0;
  st_mtime = 0;
  st_ctime = 0;
  st_mode = 0;
  st_dev = 0;
  st_ino = 0;
}

-- What an operation tells FUSE.
pub data FuseReply : Type 0 where
  reply_err : ℕ → FuseReply
  reply_entry : EntryParam → FuseReply
  reply_create : EntryParam → ℕ → FuseReply
  -- fuse_reply_err with -e in place of e.
  reply_negated : ℕ → FuseReply

unfoldable pub read_lookup : Call SkyeLookup → Answer (Call SkyeLookup)
read_lookup rpc_failed = final rpc_failed
read_lookup (returned (SkyeLookup.bitmap table)) = again table
read_lookup (returned (ref r)) = final (returned (ref r))
read_lookup (returned (errno e)) = final (returned (errno e))

unfoldable pub read_result : Call SkyeResult → Answer (Call SkyeResult)
read_result rpc_failed = final rpc_failed
read_result (returned (SkyeResult.bitmap table)) = again table
read_result (returned (status e)) = final (returned (status e))

module _ {W : Type 0} (shahash : List ℕ → List ℕ) (services : Services W) (rounds : ℕ) where
  open services use {
    rpc_lookup, rpc_partition, rpc_create, rpc_mkdir, rpc_rename, rpc_remove, get_mds, memory,
    servercount, storage,
  }

  -- `cache_fetch` and the loop at `bitmap`, which writes through the pointer to the directory. The
  -- directory is returned as it is then; `none` is a fetch that failed.
  unfoldable pub ask_directory :
      {A : Type 0}
      → (ℕ → W → Answer A × W)
      → ObjectRef
      → List ℕ
      → ClientState W
      → Outcome (Option (A × SkyeDirectory) × ClientState W)
  ask_directory stub parent name st =
      let (dir?, dircache) = cache_fetch memory (get_mds parent) servercount parent st.dircache in
      elim dir? [
        | none ↦ ok (none, record st { dircache = dircache })
        | some dir ↦ ask shahash servercount stub rounds name dir.mapping st.world >>= λ r.
            let dir' = record dir { mapping = r.1 } in
            ok (
              some (r.0, dir'),
              record st { dircache = write dir.handle dir' dircache; world = r.2 },
            )
      ]

  -- The same, and `cache_return`.
  unfoldable pub in_directory :
      {A : Type 0}
      → (ℕ → W → Answer A × W)
      → ObjectRef
      → List ℕ
      → ClientState W
      → Outcome (Option A × ClientState W)
  unfolding ask_directory
  in_directory stub parent name st = ask_directory stub parent name st >>= λ r. elim r.0 [
    | none ↦ ok (none, r.1)
    | some (a, dir) ↦ cache_return dir r.1.dircache >>= λ dircache.
        ok (some a, record r.1 { dircache = dircache })
  ]

  -- The value of `ret` after the loop, 0 or the error, and what the reference is then.
  unfoldable pub lookup_ret : Option (Call SkyeLookup) → ObjectRef → ℕ × ObjectRef
  lookup_ret none parent = (eio, parent)
  lookup_ret (some rpc_failed) parent = (eio, parent)
  lookup_ret (some (returned (ref r))) parent = (0, r)
  lookup_ret (some (returned (errno e))) parent = (e, parent)
  lookup_ret (some (returned (SkyeLookup.bitmap table))) parent = (0, parent)

  unfoldable pub lookup :
      Credentials → ObjectRef → List ℕ → ClientState W → Outcome ((ℕ × ObjectRef) × ClientState W)
  unfolding in_directory lookup_ret read_lookup
  lookup creds parent pathname st =
      let asked =
        in_directory
          (λ s w. let (c, w') = rpc_lookup s creds parent pathname w in (read_lookup c, w')) parent
          pathname st in
      if leb max_filename_len (length pathname)
      then ok ((enametoolong, parent), st)
      else (asked >>= λ r. ok (lookup_ret r.0 parent, r.1))

  unfoldable pub partition :
      Credentials → ObjectRef → List ℕ → ClientState W → Outcome ((ℕ × ObjectRef) × ClientState W)
  unfolding in_directory lookup_ret read_lookup
  partition creds parent pathname st =
      let asked =
        in_directory
          (λ s w. let (c, w') = rpc_partition s creds parent pathname w in (read_lookup c, w'))
          parent pathname st in
      if leb max_filename_len (length pathname)
      then ok ((enametoolong, parent), st)
      else (asked >>= λ r. ok (lookup_ret r.0 parent, r.1))

  -- The reference of a parent that is given by its inode number.
  unfoldable pub parent_ref : Credentials → ℕ → ClientState W → ObjectRef × ClientState W
  unfolding inode_ref
  parent_ref creds ino st =
      let (of_ino, files) =
        inode_ref storage creds ino (record { root_handle = st.root_handle; world = st.world }) in
      (of_ino, record st { root_handle = files.root_handle; world = files.world })

  -- memset to 0, which stays where PVFS_sys_getattr fails: the callers do not look at the error.
  unfoldable pub generate_fuse_entry :
      Credentials → ObjectRef → ClientState W → EntryParam × ClientState W
  unfolding pvfs_getattr
  generate_fuse_entry creds object st =
      let got = pvfs_getattr storage creds object st.world in
      let attr : Stat = elim got.0 [ failed e ↦ no_stat | replied s ↦ s ] in
      (record { ino = object.handle; attr = attr }, record st { world = got.1 })

  -- What follows `lookup` in skye_ll_lookup.
  unfoldable pub reply_lookup :
      Credentials → ℕ × ObjectRef → ClientState W → FuseReply × ClientState W
  unfolding generate_fuse_entry
  reply_lookup creds (ret, object) st =
      let (e, st') = generate_fuse_entry creds object st in
      if ltb 0 ret then (reply_err enoent, st) else (reply_entry e, st')

  unfoldable pub skye_ll_lookup :
      Credentials → ℕ → List ℕ → ClientState W → Outcome (FuseReply × ClientState W)
  unfolding lookup parent_ref reply_lookup
  skye_ll_lookup creds parent name st =
      let (above, st') = parent_ref creds parent st in
      lookup creds above name st' >>= λ r. ok (reply_lookup creds r.0 r.1)
