-- ===== src/Server/Queue.antt =====
-- server/split.c: the queue of splits to make, and what the server asks PVFS about a directory.
pub mod Requests
use skyefs.Prelude.{
  ℕ, zero, suc, List, [], ◌∷◌, ◌++◌, Bool, true, false, ◌&&◌, ltb, ◌==◌, if◌then◌else◌, none, some,
  Outcome, ok, fault, blocked, out_of_rounds,
}
use skyefs.Rpc.{ObjectRef, Credentials}
use skyefs.Server.Directory.{PvfsLookup, at_ref, pvfs_error, Pvfs}

-- struct split_task.
pub record SplitTask : Type 0 where
  pub parent : ObjectRef
  pub pindex : ℕ

-- `queue` with `queue_mutex`, and whether the condition was signalled since the thread last waited.
pub record SplitQueue : Type 0 where
  pub tasks : List SplitTask
  pub locked : Bool
  pub signalled : Bool

-- The test of `perform_split` on `queue->prev`, the last task. It compares sizeof(parent) = 8 bytes
-- of the references, which are the handle.
unfoldable pub is_last : ObjectRef → ℕ → List SplitTask → Bool
is_last parent pindex [] = false
is_last parent pindex (task ∷ []) = task.parent.handle == parent.handle && task.pindex == pindex
is_last parent pindex (task ∷ next ∷ queue) = is_last parent pindex (next ∷ queue)

-- `memory` is whether malloc succeeds; without it the function returns with the mutex.
unfoldable pub perform_split : Bool → ObjectRef → ℕ → SplitQueue → Outcome SplitQueue
unfolding is_last
perform_split memory parent pindex queue =
    if queue.locked
    then fault blocked
    else if is_last parent pindex queue.tasks
    then ok queue
    else if memory
    then ok (record {
      tasks = queue.tasks ++ record { parent = parent; pindex = pindex } ∷ [];
      locked = false;
      signalled = true;
    })
    else ok (record queue { locked = true })

abbrev pub split_threshold : ℕ
split_threshold = 4000

module _ {W : Type 0} (pvfs : Pvfs W) where
  open pvfs use {sys_mkdir, sys_remove, dirent_count, get_mds}

  -- -1 is true for the callers, so a failed getattr counts as an overflow.
  unfoldable pub isdir_overflow : Credentials → ObjectRef → W → Bool × W
  isdir_overflow creds handle w = elim (dirent_count creds handle w).0 [
    | none ↦ (true, (dirent_count creds handle w).1)
    | some n ↦ (ltb split_threshold n, (dirent_count creds handle w).1)
  ]

  -- The directory is made and removed until PVFS places it on the server.
  unfoldable pub pvfs_mkdir_server :
      (fuel : ℕ) → Credentials → ObjectRef → List ℕ → ℕ → ℕ → W → Outcome (PvfsLookup × W)
  pvfs_mkdir_server zero creds parent dirname mode server w = fault out_of_rounds
  pvfs_mkdir_server (suc f) creds parent dirname mode server w =
      let made = sys_mkdir creds parent dirname mode w in
      elim made.0 [
        | pvfs_error e ↦ ok (pvfs_error e, made.1)
        | at_ref r ↦
            let (rc, w') = sys_remove creds dirname parent made.1 in
            let rest = pvfs_mkdir_server f creds parent dirname mode server w' in
            if get_mds r == server
            then ok (at_ref r, made.1)
            else if rc == 0
            then rest
            else ok (pvfs_error rc, w')
      ]
