-- ===== src/Server/Split/Whole.antt =====
-- server/split.c: do_split from the fetch of the directory to its return.
use skyefs.Prelude.{
  ℕ, ◌+◌, ◌<◌, ◌≡◌, refl, List, length, set, Bool, true, false, ◌||◌, some, ok, load,
}
use skyefs.Rpc.{ObjectRef, Credentials}
use skyefs.Giga.Mapping.{GigaMapping, giga_update_mapping, giga_get_server_for_index}
use skyefs.Giga.Mapping.Invariant.{partitions, IsValid, IsBounded}
use skyefs.Giga.Hash.RoundTrip.{IsDigest}
use skyefs.Giga.Index.{giga_get_index_for_file, giga_index_for_splitting}
use skyefs.Server.Directory.{SkyeDirectory, Pvfs, at_ref}
use skyefs.Server.Cache.{hash_find}
use skyefs.Server.Cache.Balance.{
  reading, writing, load-set, set-set, cache_fetch_w-writing, cache_return-writing,
}
use skyefs.Server.Handlers.{ServerState, Setup}
use skyefs.Server.Queue.{isdir_overflow, pvfs_mkdir_server}
use skyefs.Server.Split.{split_held, do_split}
use skyefs.Server.Split.Names.{contains}
use skyefs.Server.Split.Moving.Entries.{IsListing}
use skyefs.Server.Split.Places.{IsInformed, after_split, split_into_lem}

-- What PVFS answers before the files move: the partition is found, has overflowed, and the new
-- directory is made for the server of the new partition.
pub record IsPrepared {W : Type 0} (setup : Setup) (pvfs : Pvfs W) (creds : Credentials)
    (parent phandle chandle : ObjectRef) (m : GigaMapping) (pindex c server : ℕ) (w w3 : W)
    : Type 0 where
  pub found : (pvfs.ref_lookup creds parent (pvfs.partition_name pindex) w).0 ≡ at_ref phandle
  pub full :
      (isdir_overflow pvfs creds phandle
        (pvfs.ref_lookup creds parent (pvfs.partition_name pindex) w).1).0
      ≡ true
  pub at_server : giga_get_server_for_index m c ≡ ok server
  pub made :
      pvfs_mkdir_server pvfs setup.rounds creds parent
        (pvfs.partition_name c)
        0o777
        server
        (isdir_overflow pvfs creds phandle
          (pvfs.ref_lookup creds parent (pvfs.partition_name pindex) w).1).1
      ≡ ok (at_ref chandle, w3)

module _ {W : Type 0} (shahash : List ℕ → List ℕ) (setup : Setup) {pvfs : Pvfs W}
    {creds : Credentials} {phandle chandle : ObjectRef} (l : IsListing pvfs creds phandle chandle)
    {rpc_bucket_add : ℕ → ObjectRef → ℕ → W → Bool × W} (informed : IsInformed l rpc_bucket_add)
    (parent : ObjectRef) (st : ServerState W) (d : SkyeDirectory) (v : IsValid d.mapping)
    (listed : Bool) (n p pindex c server : ℕ) (w3 : W) where
  -- If the directory is in the hash table and not freed, has a reference, neither a writer nor a
  -- reader, and a valid table with all partitions below 512; the partition exists,
  -- giga_index_for_splitting makes c < 512 of it, and PVFS finds it and counts too many entries;
  -- PVFS makes the new directory, without files, for the server of c, which is one of the
  -- servers; digests have 20 bytes; the files in the partition are fewer than the rounds of the
  -- loops and all looked up there; PVFS lists by position and renames without errors, and
  -- rpc_bucket_add succeeds: do_split returns, without a fault; the table has c, splitting_index
  -- is -1, the lock and the reference count are as before; each file is in one of the two
  -- directories, one that stayed is looked up in the old partition and one that moved in c.
  pub do_split_lem :
      hash_find 0 parent st.heap ≡ some p
      → load st.heap p ≡ ok (reading d listed n 0)
      → 0 < n
      → ((x : List ℕ) → IsDigest (shahash x))
      → partitions d.mapping pindex ≡ true
      → giga_index_for_splitting d.mapping pindex ≡ ok c
      → c < 512
      → IsBounded d.mapping 512
      → IsPrepared setup pvfs creds parent phandle chandle d.mapping pindex c server st.world w3
      → length (l.source w3) < setup.rounds
      → server < setup.servercount
      → ((x : List ℕ)
          → contains (l.source w3) x ≡ true
          → giga_get_index_for_file shahash d.mapping x ≡ ok pindex)
      → ((x : List ℕ) → contains (l.target w3) x ≡ false)
      → (m : GigaMapping) × (w' : W) × (giga_update_mapping d.mapping c ≡ ok m)
        × (do_split shahash setup pvfs creds rpc_bucket_add parent pindex st
            ≡ ok (record st {
              heap = set st.heap p (reading (after_split d m) listed n 0);
              world = w';
            }))
        × ((x : List ℕ)
            → contains (l.source w3) x ≡ (contains (l.source w') x || contains (l.target w') x))
        × ((x : List ℕ)
            → contains (l.source w') x ≡ true
            → giga_get_index_for_file shahash m x ≡ ok pindex)
        × ((x : List ℕ)
            → contains (l.target w') x ≡ true
            → giga_get_index_for_file shahash m x ≡ ok c)
  unfolding do_split split_held
  do_split_lem in_table at_p some_n digests exists_p chosen small bounded prepared long in_range
        placed fresh =
      let heap1 = set st.heap p (writing d listed (n + 1)) in
      let at_1 = load-set st.heap p (writing d listed (n + 1)) at_p in
      let (m, w', updated, e, kept, stayed, moved) =
        split_into_lem shahash setup l informed parent d v listed (n + 1) p heap1 pindex c server
          at_1 w3 digests exists_p chosen small bounded long in_range placed fresh in
      let after = after_split d m in
      let heap2 = set heap1 p (writing after listed (n + 1)) in
      let at_2 = load-set heap1 p (writing after listed (n + 1)) at_1 in
      (
        m,
        w',
        updated,
        rw
            (
              cache_fetch_w-writing pvfs.readdir pvfs.sscanf_index setup.memory setup.lockable
                  (pvfs.get_mds parent) setup.servercount setup.rounds parent st.heap st.world p
                  in_table d listed n at_p,
              at_1,
              chosen,
              prepared.found,
              prepared.full,
              prepared.at_server,
              prepared.made,
              e,
              cache_return-writing after listed n p heap2 some_n at_2,
              set-set heap1 p (writing after listed (n + 1)) (reading after listed n 0),
              set-set st.heap p (writing d listed (n + 1)) (reading after listed n 0),
            )
            refl,
        kept,
        stayed,
        moved,
      )
