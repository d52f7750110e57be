-- ===== src/Tests/Serving.antt =====
-- A server with a directory of two partitions that is being split, over a PVFS whose state counts the
-- calls.
use skyefs.Prelude.{
  ◌⊎◌, ℕ, Outcome, set, ◌+◌, ◌≡◌, refl, arith, List, [], ◌∷◌, replicate, true, false, some, none,
  ok, ◌>>=◌,
}
use skyefs.Rpc.{ObjectRef, Credentials, SkyeResult, status, eio}
use skyefs.Giga.Mapping.{GigaMapping, giga_get_server_for_index}
use skyefs.Giga.Index.{giga_get_index_for_file}
use skyefs.Server.Directory.{SkyeDirectory, Pvfs, at_ref}
use skyefs.Server.Bucket.{bucket, entered, enter_bucket}
use skyefs.Server.Bucket.Entering.{enter_bucket-split, enter_bucket-IsRight, IsRight}
use skyefs.Server.Cache.{Slot, cache_fetch, cache_return, hash_find}
use skyefs.Server.Cache.Balance.{cache_return-cache_fetch}
use skyefs.Giga.Mapping.Invariant.{usable, partitions}
use skyefs.Giga.Tree.Splitting.{Adds}
use skyefs.Giga.Update.{SameServers}
use skyefs.Server.Handlers.BucketAdd.{with_mapping, skye_rpc_bucket_add_lem}
use skyefs.Server.Handlers.{ServerState, Setup, serve, skye_rpc_bucket_add}
use skyefs.Server.Handlers.Procedures.{rename_body}
use skyefs.Server.Queue.{SplitQueue, perform_split}
use skyefs.Server.Queue.Requests.{IsRequested, perform_split_twice}
use skyefs.Server.Handlers.Balance.{serve-balance, held, with_handles}
use skyefs.Tests.{
  giga, toy_sha, name, name-IsDigest, fresh, grown, fresh-IsValid, fresh-IsBounded, root_exists,
  splits_to_one, grows, at_root,
}

abbrev pub directory : ObjectRef
directory = record { handle = 9; fs_id = 1 }

abbrev pub user : Credentials
user = record { uid = 0; gid = 0 }

abbrev pub pvfs : Pvfs ℕ
pvfs = record {
  ref_lookup = λ creds parent path w. (at_ref parent, w + 1);
  sys_create = λ creds parent path mode w. (at_ref parent, w + 1);
  sys_mkdir = λ creds parent path mode w. (at_ref parent, w + 1);
  sys_rename = λ creds a b c d w. (0, w + 1);
  sys_remove = λ creds a b w. (0, w + 1);
  dirent_count = λ creds a w. (some 0, w + 1);
  is_directory = λ creds a w. (some false, w + 1);
  readdir = λ handle token count w. (some [], w + 1);
  get_mds = λ handle. 0;
  partition_name = λ index. 0x70 ∷ index ∷ [];
  partition_path = λ index path. 0x70 ∷ index ∷ path;
  sscanf_index = λ path. none;
}

abbrev pub splitting : SkyeDirectory
splitting = record {
  mapping = fresh;
  refcount = 1;
  handle = directory;
  splitting_index = some 0;
  rwlock = record { readers = 0; writer = false };
  partition_handles = replicate 4 0;
}

pub at_server : giga_get_server_for_index fresh 0 ≡ ok 0
unfolding giga
at_server = refl

enter_bucket-split_example : enter_bucket toy_sha 0 pvfs user splitting name directory 0 ≡ (
    giga_get_index_for_file toy_sha grown name >>= λ index.
    ok (entered (at_ref directory), splitting, 1))
enter_bucket-split_example =
    enter_bucket-split toy_sha 0 pvfs user splitting name directory 0 fresh-IsValid name-IsDigest
      (fresh-IsBounded 512 (omega arith)) root_exists refl at_root at_server splits_to_one
      (omega arith) grows

runs :
    enter_bucket toy_sha 0 pvfs user splitting name directory 0
    ≡ ok (bucket directory, splitting, 1)
unfolding giga enter_bucket entered
runs = refl

IsRight_example : IsRight toy_sha 0 pvfs user splitting name directory 0 (bucket directory)
IsRight_example = enter_bucket-IsRight toy_sha 0 pvfs user splitting name directory 0 runs

abbrev pub in_memory : List Slot
in_memory = record { dir = splitting; listed = true; freed = false } ∷ []

fetch_example :
    (heap : List Slot) × (cache_fetch pvfs.readdir pvfs.sscanf_index true true 0 2 5 directory
        in_memory 0
      ≡ ok (some 0, heap, 0))
    × (cache_return 0 heap ≡ ok in_memory)
unfolding hash_find
fetch_example =
    cache_return-cache_fetch pvfs.readdir pvfs.sscanf_index true true 0 2 5 directory in_memory 0 0
      refl refl refl (omega arith) refl

abbrev idle_state : ServerState ℕ
idle_state = record {
  heap = in_memory;
  flow = 3;
  create_count = 0;
  queue = record { tasks = []; locked = false; signalled = false };
  world = 0;
}

abbrev setup : Setup
setup = record { servernum = 0; servercount = 2; memory = true; lockable = true; rounds = 5 }

abbrev renames :
    SkyeDirectory → ServerState ℕ → Outcome (SkyeResult × SkyeDirectory × ServerState ℕ)
renames = rename_body toy_sha setup pvfs user name directory name directory

serve-balance_example :
    (a : SkyeResult) × (after : ServerState ℕ) × (handles : List ℕ) × (serve setup pvfs true
        (status eio)
        directory
        renames
        idle_state
      ≡ ok (a, after))
    × (a ≡ status 0)
    × (after.heap
        ≡ set in_memory 0
            (with_handles (record { dir = splitting; listed = true; freed = false }) handles))
    × (after.flow ≡ 3)
unfolding hash_find giga enter_bucket rename_body entered
serve-balance_example =
    serve-balance setup pvfs true (status eio) directory renames (λ a handles queue w. a ≡ status 0)
      idle_state 0 refl refl refl (omega arith) refl
      (λ heap flow. (
        status 0,
        (held (record { dir = splitting; listed = true; freed = false })).dir,
        record idle_state { heap = heap; flow = flow; world = 2 },
        refl,
        refl,
        refl,
        refl,
      ))

-- Server 1, to which the name does not belong before the split.
add_example :
    (m' : GigaMapping) × (after : ServerState ℕ) × (skye_rpc_bucket_add setup pvfs directory 1
        idle_state
      ≡ ok after)
    × (after.heap
        ≡ set in_memory 0
            (with_mapping (record { dir = splitting; listed = true; freed = false }) m'))
    × Adds (partitions fresh) 1 (partitions m')
    × SameServers fresh m'
unfolding hash_find
add_example =
    skye_rpc_bucket_add_lem setup pvfs directory 1 idle_state 0 refl refl refl (omega arith) refl
      refl (usable fresh-IsValid) (omega arith)

twice_example :
    (after : SplitQueue) × (perform_split true directory 0 idle_state.queue ≡ ok after)
    × IsRequested directory 0 after.tasks
    × ((after ≡ idle_state.queue)
        ⊎ ((after.tasks ≡ record { parent = directory; pindex = 0 } ∷ [])
            × (after.signalled ≡ true)))
    × (after.locked ≡ false)
    × (perform_split true directory 0 after ≡ ok after)
twice_example = perform_split_twice directory 0 idle_state.queue refl
