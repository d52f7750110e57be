-- ===== src/Tests/Looking.antt =====
-- A client with a new table looks a name up that is in partition 1, on server 1.
use skyefs.Prelude.{
  ℕ, zero, suc, ◌+◌, ◌-◌, ◌<◌, ◌≡◌, ◌==◌, ◌&&◌, if◌then◌else◌, refl, arith, inl, List, [], ◌∷◌,
  replicate, true, false, none, some, Outcome, ok, fault, load,
}
use native.Mathlib.Nat.{div-le_self}
use skyefs.Cluster.{put, add, start}
use skyefs.Prelude.Strings.{same_name}
use skyefs.Rpc.{ObjectRef, Credentials, Call, rpc_failed, returned}
use skyefs.Giga.Mapping.{GigaMapping}
use skyefs.Giga.Tree.{locate}
use skyefs.Giga.Hash.Suffix.{number}
use skyefs.Server.Directory.{SkyeDirectory, Pvfs, PvfsLookup, at_ref, pvfs_error}
use skyefs.Server.Cache.{hash_find}
use skyefs.Server.Handlers.{ServerState, Setup}
use skyefs.Server.Handlers.Procedures.{skye_rpc_lookup, skye_rpc_create}
use skyefs.Server.Handlers.Remove.{skye_rpc_remove}
use skyefs.Client.Cache.{find, write}
use skyefs.Client.Operations.{Services, ClientState, parent_ref, skye_ll_lookup}
use skyefs.Client.Retry.Ends.{IsTableOf}
use skyefs.System.{
  Files, System, with_file, state_of, with_state, Delivers, IsStore, IsStatable, Holds,
}
use skyefs.System.Resting.{IsResting, Ready}
use skyefs.System.Lookup.{found_reply, skye_ll_lookup_lem}
use skyefs.Tests.{giga, toy_sha, name, name-IsDigest, fresh}
use skyefs.Tests.Serving.{directory, user}
use skyefs.Tests.Splitting.{rests, finished, split_run, finished_small, new_table}
use skyefs.Tests.Cluster.{attrs, storage}

-- The handle of a partition is 20 more than its index, and the disk is the files.
abbrev pub bucket_of : ℕ → ℕ
bucket_of i = i + 20

abbrev pub file : ObjectRef
file = record { handle = 77; fs_id = 1 }

abbrev partition_in : List ℕ → PvfsLookup
partition_in [] = pvfs_error 2
partition_in (c ∷ []) = pvfs_error 2
partition_in (c ∷ i ∷ rest) = at_ref (record { handle = bucket_of i; fs_id = 1 })

-- An error of PVFS is never 0.
abbrev pub checked : PvfsLookup → PvfsLookup
checked (at_ref r) = at_ref r
checked (pvfs_error e) = pvfs_error (e + 1)

abbrev pub contents : Files → Files
contents w i path = checked (w i path)

-- The disk without a file.
abbrev pub erased : Files → ℕ → List ℕ → Files
erased w i name j path = if i == j && same_name name path then pvfs_error 1 else w j path

abbrev pub pvfs : Pvfs Files
pvfs = record {
  ref_lookup = λ creds parent path w.
      (if parent.handle == 9 then partition_in path else contents w (parent.handle - 20) path, w);
  sys_create =
      λ creds parent path mode w. (at_ref file, with_file w (parent.handle - 20) path file);
  sys_mkdir = λ creds parent path mode w. (at_ref parent, w);
  sys_rename = λ creds a b c d w. (0, w);
  sys_remove = λ creds path b w. (0, erased w (b.handle - 20) path);
  dirent_count = λ creds a w. (some 0, w);
  is_directory = λ creds a w. (some false, w);
  readdir = λ handle token count w. (some [], w);
  get_mds = λ handle. 0;
  partition_name = λ index. 0x70 ∷ index ∷ [];
  partition_path = λ index path. 0x70 ∷ index ∷ path;
  sscanf_index = λ path. none;
}

not_directory : (i : ℕ) → (bucket_of i == 9) ≡ false
not_directory i = ground arith

pub bucket_back : (i : ℕ) → bucket_of i - 20 ≡ i
bucket_back i = omega arith

checked-error : (x : PvfsLookup) (e : ℕ) → checked x ≡ pvfs_error e → 0 < e
checked-error (at_ref r) e h = cc
checked-error (pvfs_error n) e h = ground (arith, h)

pub pvfs-IsStore : IsStore pvfs directory finished.all bucket_of contents
pvfs-IsStore = record {
  partition_found = λ creds i w seen. refl;
  partition_kept = λ creds i w. refl;
  file_found = λ creds i path w seen. rw (not_directory i, bucket_back i) refl;
  file_kept = λ creds i path w. refl;
  errors = λ w i path e h. checked-error (w i path) e h;
}

abbrev pub setups : ℕ → Setup
setups s = record { servernum = s; servercount = 2; memory = true; lockable = true; rounds = 5 }

-- A call runs the procedure.
abbrev call :
    {A : Type 0} → ℕ → System Files → Outcome (A × ServerState Files) → Call A × System Files
call s sys (ok (a, after)) = (returned a, with_state s after sys)
call s sys (fault why) = (rpc_failed, sys)

-- A partition of another server is never removed.
abbrev pub rpc_bucket_remove : ℕ → Credentials → ObjectRef → ℕ → Files → Call ℕ × Files
rpc_bucket_remove s creds object index w = (rpc_failed, w)

abbrev pub services : Services (System Files)
services = record {
  rpc_lookup = λ s creds parent path sys.
      call s sys (skye_rpc_lookup toy_sha (setups s) pvfs creds parent path (state_of s sys));
  rpc_partition = λ s creds parent path w. (rpc_failed, w);
  rpc_create = λ s creds parent path mode sys.
      call s sys (skye_rpc_create toy_sha (setups s) pvfs creds parent path mode (state_of s sys));
  rpc_mkdir = λ s creds parent path mode w. (rpc_failed, w);
  rpc_rename = λ s creds a b c d w. (rpc_failed, w);
  rpc_remove = λ s creds parent path sys. call s sys (
      skye_rpc_remove (setups s) pvfs 5 rpc_bucket_remove toy_sha creds parent path
        (state_of s sys));
  get_mds = λ handle. 0;
  memory = true;
  servercount = 2;
  storage = storage;
}

pub delivers : Delivers toy_sha setups pvfs services
delivers = record {
  numbered = λ s. refl;
  memory = λ s. refl;
  lookups = λ s creds parent path sys a after ran. rw ran refl;
  creates = λ s creds parent path mode sys a after ran. rw ran refl;
}

pub statable : IsStatable services.storage contents attrs
statable = record {
  answered = λ object creds sys. refl;
  left_alone = λ object creds sys. refl;
  files_kept = λ object creds sys. refl;
}

abbrev dir_of : ℕ → SkyeDirectory
dir_of s = record {
  mapping = finished.tables s;
  refcount = 1;
  handle = directory;
  splitting_index = none;
  rwlock = record { readers = 0; writer = false };
  partition_handles = replicate 4 0;
}

abbrev pub everything : System Files
everything = record {
  memory = λ s. record {
    heap = record { dir = dir_of s; listed = true; freed = false } ∷ [];
    flow = 3;
    create_count = 0;
    queue = record { tasks = []; locked = false; signalled = false };
    world = tt;
  };
  disk = λ i path. if i == 1 then at_ref file else pvfs_error 2;
}

no_handle : (n k : ℕ) → k < n → load (replicate {A = ℕ} n 0) k ≡ ok 0
no_handle zero k h = elim h [ ]
no_handle (suc n) zero h = refl
no_handle (suc n) (suc k) h = no_handle n k (omega (arith, h))

few : (i : ℕ) → finished.all i ≡ true → i < 2
unfolding add start
few i h = ground (arith, h)

pub ready :
    (s : ℕ)
    → s < 2
    → Holds directory finished.all bucket_of
        (finished.tables s)
        s
        (everything.memory s).heap
        (everything.memory s).queue
unfolding hash_find
ready s lt = record {
  place = 0;
  slot = record { dir = dir_of s; listed = true; freed = false };
  in_table = refl;
  stored = refl;
  live = refl;
  referenced = omega arith;
  unwritten = refl;
  whole = refl;
  own = refl;
  table = refl;
  handles = record {
    room = omega arith;
    right = λ i seen at.
        inl (
          no_handle 4 _
            (omega (arith, div-le_self i (finished.tables s).server_count, few i seen)));
  };
  unlocked = refl;
}

abbrev pub client : ClientState (System Files)
client = record {
  dircache = record { mapping = fresh; refcount = 0; handle = directory } ∷ [];
  root_handle = 0;
  world = everything;
}

client_ref : parent_ref toy_sha services 10 user 9 client ≡ (directory, client)
unfolding parent_ref
client_ref = refl

loads : (s : ℕ) → s < 2 → finished.loaded s ≡ true
unfolding put start
loads zero h = refl
loads (suc zero) h = refl
loads (suc (suc s)) h = absurd (omega (arith, h))

pub resting : IsResting 0 2 finished
resting = record {
  served = omega arith;
  near = omega arith;
  steps = split_run;
  rests = rests;
  loads = loads;
  small = finished_small;
  few = λ i e. omega (arith, few i e);
}

skye_ll_lookup_example :
    (m' : GigaMapping) × (after : ClientState (System Files)) × (skye_ll_lookup toy_sha services 10
        user 9 name client
      ≡ ok (
        found_reply attrs
            (contents everything.disk (locate finished.all 9 (number (toy_sha name))) name),
        after,
      ))
    × IsTableOf finished.all 0 2 m'
    × (after.dircache
        ≡ write directory
            (record { mapping = m'; refcount = 0; handle = directory })
            client.dircache)
    × Ready directory bucket_of finished 2 after.world.memory
    × (contents after.world.disk ≡ contents everything.disk)
unfolding find
skye_ll_lookup_example =
    skye_ll_lookup_lem toy_sha setups services resting delivers pvfs-IsStore statable user name
      name-IsDigest 9 client client_ref (omega arith) refl new_table ready

-- Which is this file.
found_here :
    found_reply attrs
      (contents everything.disk (locate finished.all 9 (number (toy_sha name))) name)
    ≡ found_reply attrs (at_ref file)
unfolding locate number giga add start
found_here = refl
