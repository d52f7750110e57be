-- ===== src/Server/Handlers/Remove.antt =====
-- server/handlers.c: remove_all_buckets and skye_rpc_remove.
use skyefs.Prelude.{
  ℕ, zero, suc, ◌+◌, ◌-◌, List, [], ◌∷◌, length, Bool, false, ◌==◌, if◌then◌else◌, none, some,
  Outcome, ok, fault, out_of_rounds, out_of_bounds, uninitialized, load, ◌>>=◌,
}
use skyefs.Rpc.{ObjectRef, SkyeResult, Credentials, status, eio, Call, rpc_failed, returned}
use skyefs.Connection.{get_connection}
use skyefs.Giga.Mapping.{giga_get_server_for_index}
use skyefs.Server.Directory.{SkyeDirectory, at_ref, pvfs_error, Pvfs}
use skyefs.Server.Bucket.{redirect, bucket, refused, enter_bucket}
use skyefs.Server.Cache.{Slot, at_slot, cache_fetch, cache_fetch_w, cache_return, cache_destroy}
use skyefs.Server.Handlers.{ServerState, Setup, flow_start, flow_stop, keep_handles, remove_bucket}
use skyefs.Server.Handlers.Procedures.{zeroth_name}

-- `rpc_bucket_remove` is the stub of the procedure at another server, `readdir_error` the errno of a
-- PVFS_sys_readdir that fails.
module _ {W : Type 0} (setup : Setup) (pvfs : Pvfs W) (readdir_error : ℕ)
    (rpc_bucket_remove : ℕ → Credentials → ObjectRef → ℕ → W → Call ℕ × W) where
  open setup use {servernum, servercount, memory, lockable, rounds}
  open pvfs use {sscanf_index, readdir, get_mds, sys_remove}

  -- The call for a partition of another server.
  unfoldable pub remove_remote : Credentials → ObjectRef → ℕ → ℕ → W → Outcome (ℕ × W)
  remove_remote creds parent server index w = get_connection servercount server >>= λ client.
      let told = rpc_bucket_remove client creds parent index w in
      elim told.0 [ rpc_failed ↦ ok (eio, told.1) | returned e ↦ ok (e, told.1) ]

  -- The for loop over the entries of a reply, with 0 or the error that ends it.
  unfoldable pub remove_entries :
      Credentials → List (List ℕ) → SkyeDirectory → W → Outcome (ℕ × SkyeDirectory × W)
  unfolding remove_bucket remove_remote
  remove_entries creds [] dir w = ok (0, dir, w)
  remove_entries creds (name ∷ names) dir w = elim (sscanf_index name) [
    | none ↦ fault uninitialized
    | some index ↦
        let here : Outcome (ℕ × SkyeDirectory × W) =
          (giga_get_server_for_index dir.mapping index >>= λ server.
          let local = remove_bucket setup pvfs creds dir index w in
          let remote : Outcome (ℕ × SkyeDirectory × W) =
            (remove_remote creds dir.handle server index w >>= λ r. ok (r.0, dir, r.1)) in
          (if server == servernum then local else remote) >>= λ r.
          let rest = remove_entries creds names r.1 r.2 in if r.0 == 0 then rest else ok r) in
        let next = remove_entries creds names dir w in if index == 0 then next else here
  ]

  -- The do loop, 32 entries at a time.
  unfoldable pub remove_all_buckets :
      (fuel : ℕ) → ℕ → Credentials → SkyeDirectory → W → Outcome (ℕ × SkyeDirectory × W)
  unfolding remove_entries
  remove_all_buckets zero token creds dir w = fault out_of_rounds
  remove_all_buckets (suc f) token creds dir w = elim (readdir dir.handle token 32 w).0 [
    | none ↦ ok (readdir_error, dir, (readdir dir.handle token 32 w).1)
    | some names ↦ remove_entries creds names dir (readdir dir.handle token 32 w).1 >>= λ r.
        let token' = if token == 0 then length names - 1 else token + length names in
        let rest = remove_all_buckets f token' creds r.1 r.2 in
        if r.0 == 0 then if length names == 32 then rest else ok r else ok r
  ]

  unfoldable pub isdir : Credentials → ObjectRef → W → Bool × W
  isdir creds handle w =
      let reply = pvfs.is_directory creds handle w in
      elim reply.0 [ none ↦ (false, reply.1) | some directory ↦ (directory, reply.1) ]

  -- The removal of the directory `child` from the partition b: the directory is used without a test
  -- whether there is one, and is not unlocked when it is destroyed.
  unfoldable pub remove_directory :
      Credentials
      → ObjectRef
      → List ℕ
      → ObjectRef
      → List Slot
      → W
      → Outcome (SkyeResult × List Slot × W)
  unfolding remove_all_buckets cache_fetch_w cache_return cache_destroy at_slot
  remove_directory creds b filename child heap w =
      cache_fetch_w readdir sscanf_index memory lockable (get_mds child) servercount rounds child
        heap w
      >>= λ r. elim r.0 [
        | none ↦ fault out_of_bounds
        | some q ↦ load r.1 q >>= λ s. remove_all_buckets rounds 0 creds s.dir r.2 >>= λ cleared.
            at_slot q (λ t. ok (record t { dir = cleared.1 })) r.1 >>= λ heap1.
            let failed : ℕ → W → Outcome (SkyeResult × List Slot × W) =
              (λ e w'. cache_return q heap1 >>= λ heap2. ok (status e, heap2, w')) in
            let zeroth = sys_remove creds zeroth_name cleared.1.handle cleared.2 in
            let last = sys_remove creds filename b zeroth.1 in
            let removed = (cache_destroy q heap1 >>= λ heap2. ok (status last.0, heap2, last.1)) in
            if cleared.0 == 0
            then if zeroth.0 == 0 then removed else failed zeroth.0 zeroth.1
            else failed cleared.0 cleared.2
      ]

  -- What follows enter_bucket, with the directory at p, up to flow_stop.
  unfoldable pub remove_in :
      Credentials → ObjectRef → List ℕ → ℕ → List Slot → W → Outcome (SkyeResult × List Slot × W)
  unfolding isdir remove_directory cache_return
  remove_in creds b filename p heap w =
      let back : SkyeResult → W → Outcome (SkyeResult × List Slot × W) =
        (λ reply w'. cache_return p heap >>= λ heap'. ok (reply, heap', w')) in
      let found = pvfs.ref_lookup creds b filename w in
      elim found.0 [
        | pvfs_error e ↦ back (status e) found.1
        | at_ref child ↦
            let directory = isdir creds child found.1 in
            let file = sys_remove creds filename b directory.1 in
            let below =
              (cache_return p heap >>= λ heap'.
              remove_directory creds b filename child heap' directory.1) in
            if directory.0 then below else back (status file.0) file.1
      ]

  module _ (shahash : List ℕ → List ℕ) where
    unfoldable pub skye_rpc_remove :
        Credentials → ObjectRef → List ℕ → ServerState W → Outcome (SkyeResult × ServerState W)
    unfolding cache_fetch cache_return at_slot keep_handles flow_start flow_stop enter_bucket
        remove_in
    skye_rpc_remove creds parent filename st =
        let (flow, n) = flow_start st.flow in
        cache_fetch readdir sscanf_index memory lockable (get_mds parent) servercount rounds parent
          st.heap st.world
        >>= λ r. elim r.0 [
          | none ↦ ok (status eio, record st { heap = r.1; flow = flow_stop flow n; world = r.2 })
          | some p ↦ load r.1 p >>= λ s.
              enter_bucket shahash servernum pvfs creds s.dir filename parent r.2 >>= λ e.
              at_slot p (keep_handles setup pvfs e.1) r.1 >>= λ heap.
              let refuse : SkyeResult → Outcome (SkyeResult × List Slot × W) =
                (λ reply. cache_return p heap >>= λ heap'. ok (reply, heap', e.2)) in
              let done : Outcome (SkyeResult × List Slot × W) = elim e.0 [
                | redirect t ↦ refuse (SkyeResult.bitmap t)
                | refused rc ↦ refuse (status rc)
                | bucket b ↦ remove_in creds b filename p heap e.2
              ] in
              done >>= λ b. ok (b.0, record st { heap = b.1; flow = flow_stop flow n; world = b.2 })
        ]
