-- ===== src/Server/Handlers/BucketAdd.antt =====
-- server/handlers.c: the procedure by which a server is told of a new partition.
use skyefs.Prelude.{ℕ, ◌+◌, ◌<◌, ◌≡◌, refl, sym, ap, ◌∙◌, false, set, some, ok, load, ◌>>=◌}
use skyefs.Rpc.{ObjectRef}
use skyefs.Giga.Bitmap.Members.{capacity}
use skyefs.Giga.Mapping.{GigaMapping, giga_update_mapping}
use skyefs.Giga.Mapping.Invariant.{partitions, IsUsable}
use skyefs.Giga.Tree.Splitting.{Adds}
use skyefs.Giga.Update.{SameServers, giga_update_mapping_lem}
use skyefs.Server.Directory.{Pvfs}
use skyefs.Server.Cache.{Slot, hash_find, at_slot}
use skyefs.Server.Cache.Balance.{
  reading, reading-idle, writing, load-set, set-set, at_slot_lem, cache_fetch_w-writing,
  cache_return-writing,
}
use skyefs.Server.Handlers.{ServerState, Setup, skye_rpc_bucket_add}

-- The slot with another table.
abbrev pub with_mapping : Slot → GigaMapping → Slot
with_mapping s m = record s { dir = record s.dir { mapping = m } }

module _ {W : Type 0} (setup : Setup) (pvfs : Pvfs W) (handle : ObjectRef) (index : ℕ)
    (st : ServerState W) (p : ℕ) {s : Slot} (in_table : hash_find 0 handle st.heap ≡ some p)
    (at_p : load st.heap p ≡ ok s) (live : s.freed ≡ false) (referenced : 0 < s.dir.refcount)
    (unwritten : s.dir.rwlock.writer ≡ false) (unread : s.dir.rwlock.readers ≡ 0) where
  -- If the directory is in the hash table and not freed, has a reference, neither a writer nor a
  -- reader, and a table with a well-formed bitmap, partition 0 and a server, skye_rpc_bucket_add
  -- with an index within the bitmap returns, the table has this partition and the old ones and
  -- the same servers, and nothing else in memory changes.
  pub skye_rpc_bucket_add_lem :
      IsUsable s.dir.mapping
      → index < capacity
      → (m' : GigaMapping) × (after : ServerState W) × (skye_rpc_bucket_add setup pvfs handle index
            st
          ≡ ok after)
        × (after.heap ≡ set st.heap p (with_mapping s m'))
        × Adds (partitions s.dir.mapping) index (partitions m')
        × SameServers s.dir.mapping m'
  unfolding skye_rpc_bucket_add
  skye_rpc_bucket_add_lem v room =
      let n = s.dir.refcount in
      let (m', updated, b, add, same) = giga_update_mapping_lem v index room in
      let idle_eq = reading-idle s live unwritten ∙ ap (reading s.dir s.listed n) unread in
      let at_idle = at_p ∙ ap ok idle_eq in
      let during = writing s.dir s.listed (n + 1) in
      let d' = record s.dir { mapping = m' } in
      let changed = writing d' s.listed (n + 1) in
      let at_during = load-set st.heap p during at_idle in
      let stored : at_slot p
            (λ s. giga_update_mapping s.dir.mapping index >>= λ mapping.
              ok (record s { dir = record s.dir { mapping = mapping } }))
            (set st.heap p during)
          ≡ ok (set st.heap p changed) =
        at_slot_lem p _ (set st.heap p during) {s' = changed} at_during refl (rw updated refl)
        ∙ ap ok (set-set st.heap p during changed) in
      (
        m',
        record st { heap = set (set st.heap p changed) p (reading d' s.listed n 0) },
        rw
            (
              cache_fetch_w-writing pvfs.readdir pvfs.sscanf_index setup.memory setup.lockable
                  (pvfs.get_mds handle) setup.servercount setup.rounds handle st.heap st.world p
                  in_table s.dir s.listed n at_idle,
              stored,
              cache_return-writing d' s.listed n p (set st.heap p changed) referenced
                  (load-set st.heap p changed at_idle),
            )
            refl,
        set-set st.heap p changed (reading d' s.listed n 0)
            ∙ ap (λ r. set st.heap p (reading d' s.listed n r)) (sym unread)
            ∙ ap (set st.heap p) (sym (reading-idle (with_mapping s m') live unwritten)),
        add,
        same,
      )
