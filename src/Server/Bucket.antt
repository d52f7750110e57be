-- ===== src/Server/Bucket.antt =====
-- server/handlers.c: which partition a server uses for a name.
pub mod Entering
use skyefs.Prelude.{
  ℕ, ◌+◌, ◌-◌, ◌*◌, List, ◌++◌, length, set, replicate, Bool, false, leb, ◌==◌, if◌then◌else◌,
  Option, none, some, Outcome, ok, fault, assertion, load, store, ◌>>=◌,
}
use skyefs.Rpc.{ObjectRef, Credentials, eagain}
use skyefs.Giga.Mapping.{GigaMapping, giga_get_server_for_index, giga_get_bucket_num_for_server}
use skyefs.Giga.Index.{
  giga_get_index_for_file, giga_index_for_splitting, giga_file_migration_status,
}
use skyefs.Server.Directory.{SkyeDirectory, PvfsLookup, at_ref, pvfs_error, Pvfs}

-- index == dir->splitting_index
unfoldable pub is_splitting : Option ℕ → ℕ → Bool
is_splitting none index = false
is_splitting (some s) index = index == s

-- What `enter_bucket` gives its caller: -EAGAIN with the table, a bucket to work in, or an error.
pub data Entered : Type 0 where
  redirect : GigaMapping → Entered
  bucket : ObjectRef → Entered
  refused : ℕ → Entered

unfoldable pub entered : PvfsLookup → Entered
entered (at_ref r) = bucket r
entered (pvfs_error e) = refused e

-- The array is doubled if needed; realloc is taken to succeed, as the code asserts.
unfoldable pub grown_handles : ℕ → List ℕ → List ℕ
grown_handles bucket_number handles =
    if leb (length handles - 1) bucket_number
    then handles ++ replicate (length handles) 0
    else handles

module _ {W : Type 0} (shahash : List ℕ → List ℕ) (servernum : ℕ) (pvfs : Pvfs W) where
  open pvfs use {ref_lookup, partition_name}

  -- The assertion that the lookup succeeds, and the write of its handle.
  unfoldable pub looked_up_handle :
      ℕ → SkyeDirectory → PvfsLookup × W → Outcome (ℕ × SkyeDirectory × W)
  looked_up_handle bucket_number dir (at_ref r, w) = do
    handles ← store dir.partition_handles bucket_number r.handle
    ok (r.handle, record dir { partition_handles = handles }, w)
  looked_up_handle bucket_number dir (pvfs_error e, w) = fault assertion

  unfoldable pub get_partition_handle :
      Credentials → SkyeDirectory → ℕ → W → Outcome (ℕ × SkyeDirectory × W)
  unfolding looked_up_handle grown_handles
  get_partition_handle creds dir index w =
      giga_get_bucket_num_for_server dir.mapping index >>= λ bucket_number.
      let handles = grown_handles bucket_number dir.partition_handles in
      let dir' = record dir { partition_handles = handles } in
      load handles bucket_number >>= λ cached.
      if cached == 0
      then looked_up_handle bucket_number dir'
          (ref_lookup creds dir.handle (partition_name index) w)
      else ok (cached, dir', w)

  -- The branch of a partition that is being split.
  unfoldable pub enter_split :
      Credentials
      → SkyeDirectory
      → List ℕ
      → ObjectRef
      → ℕ
      → W
      → Outcome (Entered × SkyeDirectory × W)
  unfolding entered
  enter_split creds dir name handle index w = do
    cindex ← giga_index_for_splitting dir.mapping index
    moves ← giga_file_migration_status shahash name cindex
    let index' = if moves then cindex else index
    let (reply, w') = ref_lookup creds handle (partition_name index') w
    ok (entered reply, dir, w')

  unfoldable pub enter_whole :
      Credentials → SkyeDirectory → ℕ → W → Outcome (Entered × SkyeDirectory × W)
  unfolding get_partition_handle
  enter_whole creds dir index w = get_partition_handle creds dir index w >>= λ r.
      ok (bucket (record { handle = r.0; fs_id = dir.handle.fs_id }), r.1, r.2)

  -- Every caller passes a place for the table, so the server is always checked.
  unfoldable pub enter_bucket :
      Credentials → SkyeDirectory → List ℕ → ObjectRef → W → Outcome (Entered × SkyeDirectory × W)
  unfolding enter_split enter_whole is_splitting
  enter_bucket creds dir name handle w =
      giga_get_index_for_file shahash dir.mapping name >>= λ index.
      giga_get_server_for_index dir.mapping index >>= λ server.
      let here =
        if is_splitting dir.splitting_index index
        then enter_split creds dir name handle index w
        else enter_whole creds dir index w in
      if server == servernum then here else ok (redirect dir.mapping, dir, w)
