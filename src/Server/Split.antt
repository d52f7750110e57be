-- ===== src/Server/Split.antt =====
-- server/split.c: do_split and the thread that makes the splits.
pub mod Names
pub mod Moving
pub mod Places
pub mod Whole
use skyefs.Prelude.{
  ℕ, zero, suc, ◌+◌, ◌-◌, List, [], ◌∷◌, length, Bool, true, false, ◌==◌, if◌then◌else◌, Option,
  none, some, Outcome, ok, fault, aborted, out_of_rounds, blocked, load, ◌>>=◌,
}
use skyefs.Rpc.{ObjectRef, Credentials}
use skyefs.Connection.{get_connection}
use skyefs.Giga.Mapping.{GigaMapping, giga_update_mapping, giga_get_server_for_index}
use skyefs.Giga.Index.{giga_index_for_splitting, giga_file_migration_status}
use skyefs.Server.Directory.{SkyeDirectory, PvfsLookup, at_ref, pvfs_error, Pvfs}
use skyefs.Server.Cache.{Slot, at_slot, wrlock, unlock, cache_fetch_w, cache_return}
use skyefs.Server.Queue.{SplitTask, SplitQueue, isdir_overflow, pvfs_mkdir_server}
use skyefs.Server.Handlers.{ServerState, Setup}

-- pthread_rwlock_wrlock by the thread that may have the lock for writing already: it then returns
-- EDEADLK, which do_split does not look at.
unfoldable pub wrlock_again : Slot → Outcome Slot
unfolding wrlock
wrlock_again s = if s.dir.rwlock.writer then ok s else wrlock s

-- `token` after a reply with n entries.
abbrev pub next_token : ℕ → ℕ → ℕ
next_token token n = if token == 0 then n - 1 else token + n

module _ {W : Type 0} (shahash : List ℕ → List ℕ) (pvfs : Pvfs W) (creds : Credentials)
    (phandle chandle : ObjectRef) (cindex : ℕ) where
  open pvfs use {sys_rename, readdir}

  -- The for loop over the entries of a reply: how many are tried, `moved`.
  unfoldable pub move_entries : List (List ℕ) → W → Outcome (ℕ × W)
  move_entries [] w = ok (0, w)
  move_entries (name ∷ names) w = giga_file_migration_status shahash name cindex >>= λ moves.
      let w' = if moves then (sys_rename creds name phandle name chandle w).1 else w in
      move_entries names w' >>= λ r. ok (if moves then r.0 + 1 else r.0, r.1)

  -- The inner do loop, 128 entries at a time. After an empty reply the lock is kept.
  unfoldable pub move_pages : (fuel : ℕ) → ℕ → ℕ → List Slot → W → Outcome (ℕ × List Slot × W)
  unfolding move_entries at_slot wrlock_again unlock
  move_pages zero p token heap w = fault out_of_rounds
  move_pages (suc f) p token heap w = at_slot p wrlock_again heap >>= λ heap1.
      elim (readdir phandle token 128 w).0 [
        | none ↦ fault aborted
        | some [] ↦ ok (0, heap1, (readdir phandle token 128 w).1)
        | some (name ∷ names) ↦ move_entries (name ∷ names) (readdir phandle token 128 w).1 >>= λ r.
            at_slot p unlock heap1 >>= λ heap2.
            let n = length (name ∷ names) in
            let rest =
              (move_pages f p (next_token token n) heap2 r.1 >>= λ q. ok (r.0 + q.0, q.1, q.2)) in
            if n == 128 then rest else ok (r.0, heap2, r.1)
      ]

  -- The outer do loop, which ends when nothing was moved.
  unfoldable pub move_passes : (fuel : ℕ) → ℕ → ℕ → List Slot → W → Outcome (List Slot × W)
  unfolding move_pages
  move_passes zero rounds p heap w = fault out_of_rounds
  move_passes (suc f) rounds p heap w = move_pages rounds p 0 heap w >>= λ r.
      let rest = move_passes f rounds p r.1 r.2 in if r.0 == 0 then ok (r.1, r.2) else rest

unfoldable pub set_splitting : Option ℕ → Slot → Outcome Slot
set_splitting index s = ok (record s { dir = record s.dir { splitting_index = index } })

-- The end of a split at the server: no partition is splitting, and the table has the new one.
unfoldable pub take_child : ℕ → Slot → Outcome Slot
unfolding giga_update_mapping
take_child cindex s = giga_update_mapping s.dir.mapping cindex >>= λ mapping.
    ok (record s { dir = record s.dir { mapping = mapping; splitting_index = none } })

-- `creds` is what PVFS_util_gen_credentials fills in, `rpc_bucket_add` the stub of the procedure at
-- another server, which says whether the call succeeded.
module _ {W : Type 0} (shahash : List ℕ → List ℕ) (setup : Setup) (pvfs : Pvfs W)
    (creds : Credentials) (rpc_bucket_add : ℕ → ObjectRef → ℕ → W → Bool × W) where
  open setup use {servernum, servercount, memory, lockable, rounds}
  open pvfs use {ref_lookup, readdir, get_mds, partition_name, sscanf_index}

  -- The bucket on another server is announced there; a call that fails aborts the process.
  unfoldable pub tell_server : ObjectRef → ℕ → ℕ → W → Outcome W
  tell_server parent cindex server w =
      let told : Outcome W =
        (get_connection servercount server >>= λ client.
        let (success, w') = rpc_bucket_add client parent cindex w in
        if success then ok w' else fault aborted) in
      if server == servernum then ok w else told

  -- From the child directory on: the files are moved and the new partition is made visible.
  unfoldable pub split_into :
      ObjectRef → ℕ → ℕ → ℕ → ObjectRef → ObjectRef → ℕ → List Slot → W → Outcome (List Slot × W)
  unfolding move_passes tell_server take_child set_splitting
  split_into parent pindex cindex server phandle chandle p heap w = do
    heap1 ← at_slot p (set_splitting (some pindex)) heap
    heap2 ← at_slot p unlock heap1
    r ← move_passes shahash pvfs creds phandle chandle cindex rounds rounds p heap2 w
    heap3 ← at_slot p wrlock_again r.0
    w' ← tell_server parent cindex server r.1
    heap4 ← at_slot p (take_child cindex) heap3
    ok (heap4, w')

  -- What do_split does with the directory in its hands, up to `exit`.
  unfoldable pub split_held :
      ObjectRef → ℕ → SkyeDirectory → ℕ → List Slot → W → Outcome (List Slot × W)
  unfolding split_into isdir_overflow pvfs_mkdir_server
  split_held parent pindex dir p heap w = giga_index_for_splitting dir.mapping pindex >>= λ cindex.
      let found = ref_lookup creds parent (partition_name pindex) w in
      elim found.0 [
        | pvfs_error e ↦ ok (heap, found.1)
        | at_ref phandle ↦
            let full = isdir_overflow pvfs creds phandle found.1 in
            let splits : Outcome (List Slot × W) =
              (giga_get_server_for_index dir.mapping cindex >>= λ server.
              pvfs_mkdir_server pvfs rounds creds parent (partition_name cindex) 0o777 server full.1
              >>= λ made. elim made.0 [
                | pvfs_error e ↦ ok (heap, made.1)
                | at_ref chandle ↦
                    split_into parent pindex cindex server phandle chandle p heap made.1
              ]) in
            if full.0 then splits else ok (heap, full.1)
      ]

  unfoldable pub do_split : ObjectRef → ℕ → ServerState W → Outcome (ServerState W)
  unfolding split_held cache_fetch_w cache_return
  do_split parent pindex st =
      cache_fetch_w readdir sscanf_index memory lockable (get_mds parent) servercount rounds parent
        st.heap st.world
      >>= λ r. elim r.0 [
        | none ↦ ok (record st { heap = r.1; world = r.2 })
        | some p ↦ load r.1 p >>= λ s. split_held parent pindex s.dir p r.1 r.2 >>= λ b.
            cache_return p b.0 >>= λ heap. ok (record st { heap = heap; world = b.1 })
      ]

  -- The loop `while (queue)` of split_thread, after a signal.
  unfoldable pub split_tasks : (fuel : ℕ) → ServerState W → Outcome (ServerState W)
  unfolding do_split
  split_tasks zero st = fault out_of_rounds
  split_tasks (suc f) st = elim st.queue.tasks [
    | [] ↦ ok (record st { queue = record st.queue { signalled = false } })
    | task ∷ tasks ↦
        do_split task.parent task.pindex (record st { queue = record st.queue { tasks = tasks } })
        >>= λ st'. split_tasks f st'
  ]
