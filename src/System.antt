-- ===== src/System.antt =====
-- client/operations.c and server/handlers.c together: clients and servers of one file system, where a
-- call of a stub runs the procedure on the server that it names.
pub mod Handles
pub mod Serving
pub mod Resting
pub mod Calls
pub mod LookupCalls
pub mod Lookup
pub mod Checking
pub mod Entering
pub mod Creating
pub mod CreateCalls
pub mod Create
pub mod Removing
pub mod RemoveCalls
pub mod Remove
use skyefs.Prelude.{
  ℕ, ◌/◌, ◌≤◌, ◌<◌, ◌≡◌, ◌⊎◌, false, true, List, length, none, some, Outcome, ok, load,
}
use skyefs.Prelude.Strings.{same_name}
use skyefs.Prelude.{◌==◌, ◌&&◌, if◌then◌else◌}
use skyefs.Rpc.{ObjectRef, Credentials, enoent, SkyeLookup, SkyeResult, Call, returned}
use skyefs.Giga.Tree.{Partitions}
use skyefs.Giga.Mapping.{GigaMapping, giga_get_server_for_index}
use skyefs.Server.Directory.{Pvfs, PvfsLookup, at_ref, pvfs_error}
use skyefs.Server.Cache.{Slot, hash_find}
use skyefs.Server.Queue.{SplitQueue}
use skyefs.Server.Handlers.{ServerState, Setup}
use skyefs.Server.Handlers.Procedures.{skye_rpc_lookup, skye_rpc_create}
use skyefs.Server.Handlers.Remove.{skye_rpc_remove}
use skyefs.Client.Files.{SysAttr}
use skyefs.Client.Files.Attributes.{Storage, replied}
use skyefs.Client.Operations.{Services}
use skyefs.Cluster.{put}

-- What PVFS finds by a name in each partition.
abbrev pub Files : Type 0
Files = ℕ → List ℕ → PvfsLookup

-- What each server has in memory, and the disks.
pub record System (V : Type 0) : Type 0 where
  pub memory : ℕ → ServerState (Unit {0})
  pub disk : V

module _ {V : Type 0} where
  abbrev pub state_of : ℕ → System V → ServerState V
  state_of s sys = record {
    heap = (sys.memory s).heap;
    flow = (sys.memory s).flow;
    create_count = (sys.memory s).create_count;
    queue = (sys.memory s).queue;
    world = sys.disk;
  }

  abbrev pub memory_of : ServerState V → ServerState (Unit {0})
  memory_of st = record {
    heap = st.heap;
    flow = st.flow;
    create_count = st.create_count;
    queue = st.queue;
    world = tt;
  }

  abbrev pub with_state : ℕ → ServerState V → System V → System V
  with_state s st sys = record { memory = put sys.memory s (memory_of st); disk = st.world }

  -- ONC RPC: if the procedure returns, the call of the stub returns its reply.
  pub record Delivers (shahash : List ℕ → List ℕ) (setups : ℕ → Setup) (pvfs : Pvfs V)
      (services : Services (System V)) : Type 0 where
    pub numbered : (s : ℕ) → (setups s).servernum ≡ s
    pub memory : (s : ℕ) → (setups s).memory ≡ true
    pub lookups :
        (s : ℕ) (creds : Credentials) (parent : ObjectRef) (name : List ℕ) (sys : System V)
        (a : SkyeLookup) (after : ServerState V)
        → skye_rpc_lookup shahash (setups s) pvfs creds parent name (state_of s sys) ≡ ok (a, after)
        → services.rpc_lookup s creds parent name sys ≡ (returned a, with_state s after sys)
    pub creates :
        (s : ℕ) (creds : Credentials) (parent : ObjectRef) (name : List ℕ) (mode : ℕ)
        (sys : System V) (a : SkyeLookup) (after : ServerState V)
        → skye_rpc_create shahash (setups s) pvfs creds parent name mode (state_of s sys)
          ≡ ok (a, after)
        → services.rpc_create s creds parent name mode sys ≡ (returned a, with_state s after sys)

  -- PVFS has the directory of each partition, and in it the files that `contents` gives of the disk,
  -- which a lookup does not change.
  pub record IsStore (pvfs : Pvfs V) (parent : ObjectRef) (all : Partitions) (bucket_of : ℕ → ℕ)
      (contents : V → Files) : Type 0 where
    pub partition_found :
        (creds : Credentials) (i : ℕ) (w : V)
        → all i ≡ true
        → (pvfs.ref_lookup creds parent (pvfs.partition_name i) w).0
          ≡ at_ref (record { handle = bucket_of i; fs_id = parent.fs_id })
    pub partition_kept :
        (creds : Credentials) (i : ℕ) (w : V)
        → contents (pvfs.ref_lookup creds parent (pvfs.partition_name i) w).1 ≡ contents w
    pub file_found :
        (creds : Credentials) (i : ℕ) (name : List ℕ) (w : V)
        → all i ≡ true
        → (pvfs.ref_lookup creds (record parent { handle = bucket_of i }) name w).0
          ≡ contents w i name
    pub file_kept :
        (creds : Credentials) (i : ℕ) (name : List ℕ) (w : V)
        → contents (pvfs.ref_lookup creds (record parent { handle = bucket_of i }) name w).1
          ≡ contents w
    pub errors : (w : V) (i : ℕ) (name : List ℕ) (e : ℕ) → contents w i name ≡ pvfs_error e → 0 < e

-- The files with one more.
abbrev pub with_file : Files → ℕ → List ℕ → ObjectRef → Files
with_file files i name object j path =
    if i == j && same_name name path then at_ref object else files j path

module _ {V : Type 0} where
  -- PVFS_sys_create of a name that is not there makes a file, and nothing else changes; the count of
  -- entries changes nothing.
  pub record IsCreating (pvfs : Pvfs V) (parent : ObjectRef) (all : Partitions) (bucket_of : ℕ → ℕ)
      (contents : V → Files) : Type 0 where
    pub new : Credentials → ℕ → List ℕ → ℕ → V → ObjectRef
    pub created :
        (creds : Credentials) (i : ℕ) (name : List ℕ) (mode : ℕ) (w : V)
        → all i ≡ true
        → contents w i name ≡ pvfs_error enoent
        → (pvfs.sys_create creds (record parent { handle = bucket_of i }) name mode w).0
          ≡ at_ref (new creds i name mode w)
    pub added :
        (creds : Credentials) (i : ℕ) (name : List ℕ) (mode : ℕ) (w : V)
        → all i ≡ true
        → contents w i name ≡ pvfs_error enoent
        → contents (pvfs.sys_create creds (record parent { handle = bucket_of i }) name mode w).1
          ≡ with_file (contents w) i name (new creds i name mode w)
    pub counted :
        (creds : Credentials) (b : ObjectRef) (w : V)
        → contents (pvfs.dirent_count creds b w).1 ≡ contents w

-- The files without one.
abbrev pub without_file : Files → ℕ → List ℕ → Files
without_file files i name j path =
    if i == j && same_name name path then pvfs_error enoent else files j path

module _ {V : Type 0} where
  -- The object is no directory, and PVFS_sys_remove of its name succeeds and changes nothing else.
  pub record IsRemoving (pvfs : Pvfs V) (parent : ObjectRef) (all : Partitions) (bucket_of : ℕ → ℕ)
      (contents : V → Files) (object : ObjectRef) : Type 0 where
    pub plain : (creds : Credentials) (w : V) → (pvfs.is_directory creds object w).0 ≡ some false
    pub plain_kept :
        (creds : Credentials) (w : V) → contents (pvfs.is_directory creds object w).1 ≡ contents w
    pub removed :
        (creds : Credentials) (i : ℕ) (name : List ℕ) (w : V)
        → all i ≡ true
        → contents w i name ≡ at_ref object
        → (pvfs.sys_remove creds name (record parent { handle = bucket_of i }) w).0 ≡ 0
    pub taken :
        (creds : Credentials) (i : ℕ) (name : List ℕ) (w : V)
        → all i ≡ true
        → contents w i name ≡ at_ref object
        → contents (pvfs.sys_remove creds name (record parent { handle = bucket_of i }) w).1
          ≡ without_file (contents w) i name

  -- The calls of rpc_remove run the procedure as well.
  pub record DeliversRemoves (shahash : List ℕ → List ℕ) (setups : ℕ → Setup) (pvfs : Pvfs V)
      (services : Services (System V)) (readdir_error : ℕ)
      (rpc_bucket_remove : ℕ → Credentials → ObjectRef → ℕ → V → Call ℕ × V) : Type 0 where
    pub removes :
        (s : ℕ) (creds : Credentials) (parent : ObjectRef) (name : List ℕ) (sys : System V)
        (a : SkyeResult) (after : ServerState V)
        → skye_rpc_remove
            (setups s)
            pvfs
            readdir_error
            rpc_bucket_remove
            shahash
            creds
            parent
            name
            (state_of s sys)
          ≡ ok (a, after)
        → services.rpc_remove s creds parent name sys ≡ (returned a, with_state s after sys)

-- PVFS_sys_getattr of the client: the attributes that `attrs` gives, and no change at the servers.
pub record IsStatable {V : Type 0} (storage : Storage (System V)) (contents : V → Files)
    (attrs : ObjectRef → SysAttr) : Type 0 where
  pub answered :
      (object : ObjectRef) (creds : Credentials) (sys : System V)
      → (storage.sys_getattr object creds sys).0 ≡ replied (attrs object)
  pub left_alone :
      (object : ObjectRef) (creds : Credentials) (sys : System V)
      → (storage.sys_getattr object creds sys).1.memory ≡ sys.memory
  pub files_kept :
      (object : ObjectRef) (creds : Credentials) (sys : System V)
      → contents (storage.sys_getattr object creds sys).1.disk ≡ contents sys.disk

-- The array of a server for the handles of its partitions: what is not 0 is right.
pub record IsHandles (all : Partitions) (bucket_of : ℕ → ℕ) (m : GigaMapping) (s : ℕ)
    (handles : List ℕ) : Type 0 where
  pub room : 4 ≤ length handles
  pub right :
      (i : ℕ)
      → all i ≡ true
      → giga_get_server_for_index m i ≡ ok s
      → (load handles (i / m.server_count) ≡ ok 0)
        ⊎ (load handles (i / m.server_count) ≡ ok (bucket_of i))

-- Server s has the directory in memory with table m, idle or with readers, and is not splitting it; no
-- thread has the lock of the queue.
pub record Holds (parent : ObjectRef) (all : Partitions) (bucket_of : ℕ → ℕ) (m : GigaMapping)
    (s : ℕ) (heap : List Slot) (queue : SplitQueue) : Type 0 where
  pub place : ℕ
  pub slot : Slot
  pub in_table : hash_find 0 parent heap ≡ some place
  pub stored : load heap place ≡ ok slot
  pub live : slot.freed ≡ false
  pub referenced : 0 < slot.dir.refcount
  pub unwritten : slot.dir.rwlock.writer ≡ false
  pub whole : slot.dir.splitting_index ≡ none
  pub own : slot.dir.handle ≡ parent
  pub table : slot.dir.mapping ≡ m
  pub handles : IsHandles all bucket_of m s slot.dir.partition_handles
  pub unlocked : queue.locked ≡ false
