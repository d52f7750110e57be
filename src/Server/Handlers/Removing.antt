-- ===== src/Server/Handlers/Removing.antt =====
-- server/handlers.c: a removal of a file at a server that has the directory in memory.
use skyefs.Prelude.{ℕ, ◌<◌, ◌≡◌, refl, sym, ap, ◌∙◌, List, set, false, some, ok, load, store}
use skyefs.Rpc.{ObjectRef, Call, SkyeResult, Credentials, status}
use skyefs.Giga.Mapping.{GigaMapping}
use skyefs.Server.Directory.{Pvfs, at_ref}
use skyefs.Server.Bucket.{redirect, bucket, enter_bucket}
use skyefs.Server.Cache.{Slot, hash_find, cache_fetch, cache_return}
use skyefs.Server.Cache.Balance.{
  reading, reading-idle, load-set, set-set, store-load, cache_fetch-reading, cache_return-reading,
}
use skyefs.Server.Handlers.{ServerState, Setup, keep_handles, flow_start, flow_stop}
use skyefs.Server.Handlers.Balance.{held, with_handles}
use skyefs.Server.Handlers.Remove.{remove_in, skye_rpc_remove, isdir}

module _ {W : Type 0} (setup : Setup) (pvfs : Pvfs W) (readdir_error : ℕ)
    (rpc_bucket_remove : ℕ → Credentials → ObjectRef → ℕ → W → Call ℕ × W)
    (creds : Credentials) where
  pub remove_in_file :
      (b : ObjectRef) (filename : List ℕ) (p : ℕ) (heap heap' : List Slot) (w : W)
      {child : ObjectRef}
      → (pvfs.ref_lookup creds b filename w).0 ≡ at_ref child
      → (pvfs.is_directory creds child (pvfs.ref_lookup creds b filename w).1).0 ≡ some false
      → cache_return p heap ≡ ok heap'
      → remove_in setup pvfs readdir_error rpc_bucket_remove creds b filename p heap w
        ≡ ok (
          status
              (pvfs.sys_remove creds filename b
                (pvfs.is_directory creds child (pvfs.ref_lookup creds b filename w).1).1).0,
          heap',
          (pvfs.sys_remove creds filename b
              (pvfs.is_directory creds child (pvfs.ref_lookup creds b filename w).1).1).1,
        )
  unfolding remove_in isdir
  remove_in_file b filename p heap heap' w found plain returned =
      rw (remove_in, found, isdir, plain, returned) refl

  module _ (shahash : List ℕ → List ℕ) (parent : ObjectRef) (filename : List ℕ) (st : ServerState W)
      (p : ℕ) {s : Slot} (in_table : hash_find 0 parent st.heap ≡ some p)
      (at_p : load st.heap p ≡ ok s) (live : s.freed ≡ false) (referenced : 0 < s.dir.refcount)
      (unwritten : s.dir.rwlock.writer ≡ false) (handles : List ℕ) where
    -- The memory after the handles are kept, and that after the directory is returned.
    during : List Slot
    during = set (set st.heap p (held s)) p (with_handles (held s) handles)

    after : List Slot
    after = set st.heap p (with_handles s handles)

    at_held : load (set st.heap p (held s)) p ≡ ok (held s)
    at_held = load-set st.heap p (held s) at_p

    fetched :
        cache_fetch pvfs.readdir pvfs.sscanf_index setup.memory setup.lockable
          (pvfs.get_mds parent)
          setup.servercount
          setup.rounds
          parent
          st.heap
          st.world
        ≡ ok (some p, set st.heap p (held s), st.world)
    fetched =
        cache_fetch-reading pvfs.readdir pvfs.sscanf_index setup.memory setup.lockable
          (pvfs.get_mds parent) setup.servercount setup.rounds parent st.heap st.world p in_table
          s.dir s.listed s.dir.refcount s.dir.rwlock.readers
          (at_p ∙ ap ok (reading-idle s live unwritten))

    stored : store (set st.heap p (held s)) p (with_handles (held s) handles) ≡ ok during
    unfolding during
    stored = store-load (set st.heap p (held s)) p (with_handles (held s) handles) at_held

    returned : cache_return p during ≡ ok after
    unfolding during after
    returned =
        let kept = with_handles (held s) handles in
        let n = s.dir.refcount in
        let r = s.dir.rwlock.readers in
        let dir = record s.dir { partition_handles = handles } in
        let idle = reading dir s.listed n r in
        cache_return-reading dir s.listed n r p (set (set st.heap p (held s)) p kept) referenced
          (load-set (set st.heap p (held s)) p kept at_held)
        ∙ ap ok (
            set-set (set st.heap p (held s)) p kept idle
            ∙ set-set st.heap p (held s) idle
            ∙ ap (set st.heap p) (sym (reading-idle (with_handles s handles) live unwritten)))

    -- The state at the end.
    abbrev pub left_with : W → ServerState W
    left_with w = record st {
      heap = set st.heap p (with_handles s handles);
      flow = flow_stop (flow_start st.flow).0 (flow_start st.flow).1;
      world = w;
    }

    pub skye_rpc_remove-redirect :
        {t : GigaMapping} {w : W}
        → enter_bucket shahash setup.servernum pvfs creds (held s).dir filename parent st.world
          ≡ ok (redirect t, record (held s).dir { partition_handles = handles }, w)
        → skye_rpc_remove setup pvfs readdir_error rpc_bucket_remove shahash creds parent filename
            st
          ≡ ok (SkyeResult.bitmap t, left_with w)
    unfolding skye_rpc_remove after keep_handles
    skye_rpc_remove-redirect e = rw (fetched, at_held, e, stored, returned) refl

    pub skye_rpc_remove-bucket :
        {b : ObjectRef} {w w' : W} {reply : SkyeResult}
        → enter_bucket shahash setup.servernum pvfs creds (held s).dir filename parent st.world
          ≡ ok (bucket b, record (held s).dir { partition_handles = handles }, w)
        → ((heap heap' : List Slot)
            → cache_return p heap ≡ ok heap'
            → remove_in setup pvfs readdir_error rpc_bucket_remove creds b filename p heap w
              ≡ ok (reply, heap', w'))
        → skye_rpc_remove setup pvfs readdir_error rpc_bucket_remove shahash creds parent filename
            st
          ≡ ok (reply, left_with w')
    unfolding skye_rpc_remove after keep_handles
    skye_rpc_remove-bucket e removes =
        rw (fetched, at_held, e, stored, removes during _ returned) refl
