-- ===== src/Tests/Moving.antt =====
-- Server 0 splits its partition of two files, over a PVFS whose state is the two lists of names.
use skyefs.Prelude.{
  ℕ, ◌≡◌, refl, arith, List, [], ◌∷◌, take, drop, true, false, ◌||◌, if◌then◌else◌, Bool-cases, inl,
  inr, none, some, ok,
}
use skyefs.Giga.Mapping.{GigaMapping, giga_update_mapping}
use skyefs.Giga.Hash.RoundTrip.{IsDigest}
use skyefs.Giga.Index.{giga_get_index_for_file}
use skyefs.Rpc.{ObjectRef}
use skyefs.Server.Directory.{SkyeDirectory, Pvfs, at_ref, position}
use skyefs.Server.Cache.Balance.{reading}
use skyefs.Server.Handlers.{Setup, ServerState}
use skyefs.Server.Split.{do_split}
use skyefs.Prelude.Strings.{same_name, same_name_lem, same_name_refl}
use skyefs.Server.Split.Names.{contains, without}
use skyefs.Server.Split.Moving.Entries.{IsListing}
use skyefs.Server.Split.Whole.{IsPrepared, do_split_lem}
use skyefs.Server.Cache.{hash_find}
use skyefs.Server.Queue.{isdir_overflow, pvfs_mkdir_server}
use skyefs.Server.Split.Places.{IsInformed, after_split}
use skyefs.Tests.{
  giga, toy_sha, name, fresh, fresh-IsValid, fresh-IsBounded, root_exists, splits_to_one, at_root,
}
use skyefs.Tests.Serving.{user, directory, splitting}

abbrev Names : Type 0
Names = List (List ℕ)

abbrev rename_file : List ℕ → Names × Names → ℕ × (Names × Names)
rename_file x w = if contains w.0 x then (0, (without x w.0, x ∷ w.1)) else (2, w)

-- The directories of partitions 0 and 1.
abbrev old_bucket : ObjectRef
old_bucket = record { handle = 20; fs_id = 1 }

abbrev new_bucket : ObjectRef
new_bucket = record { handle = 21; fs_id = 1 }

abbrev disk : Pvfs (Names × Names)
disk = record {
  ref_lookup = λ creds parent path w. (at_ref old_bucket, w);
  sys_create = λ creds parent path mode w. (at_ref parent, w);
  sys_mkdir = λ creds parent path mode w. (at_ref new_bucket, w);
  sys_rename = λ creds a b c d w. rename_file a w;
  sys_remove = λ creds a b w. (0, w);
  dirent_count = λ creds a w. (some 10000, w);
  is_directory = λ creds a w. (some false, w);
  readdir = λ handle token count w. (some (take count (drop (position token) w.0)), w);
  get_mds = λ handle. 1;
  partition_name = λ index. 0x70 ∷ index ∷ [];
  partition_path = λ index path. 0x70 ∷ index ∷ path;
  sscanf_index = λ path. none;
}

without_absent : (x : List ℕ) (names : Names) → contains names x ≡ false → without x names ≡ names
unfolding contains without
without_absent x [] h = refl
without_absent x (n ∷ names) h = elim (Bool-cases (same_name x n)) [
  | inl same ↦
      let e = same_name_lem x n same in
      let there : same_name n x ≡ true = rw (e) (same_name_refl n) in
      absurd (ground (arith, h, there))
  | inr other ↦ rw (other, without_absent x names (ground (arith, h))) refl
]

disk-IsListing : IsListing disk user old_bucket new_bucket
unfolding contains
disk-IsListing = record {
  source = λ w. w.0;
  target = λ w. w.1;
  listed = λ token n w. refl;
  source_kept = λ token n w. refl;
  target_kept = λ token n w. refl;
  taken = λ n w. elim (Bool-cases (contains w.0 n)) [
    | inl inside ↦ rw inside refl
    | inr absent ↦ rw (absent, without_absent n w.0 absent) refl
  ];
  arrived = λ n w x. elim (Bool-cases (contains w.0 n)) [
    | inl inside ↦ rw inside (ground arith)
    | inr absent ↦ rw absent (ground arith)
  ];
}

setup : Setup
setup = record { servernum = 0; servercount = 2; memory = true; lockable = true; rounds = 3 }

all-IsDigest : (x : List ℕ) → IsDigest (toy_sha x)
all-IsDigest [] = record { size = refl; bytes = omega arith }
all-IsDigest (c ∷ x) = record { size = refl; bytes = omega arith }

abbrev files : Names
files = name ∷ (4 ∷ []) ∷ []

other_at_root : giga_get_index_for_file toy_sha fresh (4 ∷ []) ≡ ok 0
unfolding giga
other_at_root = refl

in_root : (x : List ℕ) → contains files x ≡ true → giga_get_index_for_file toy_sha fresh x ≡ ok 0
unfolding contains
in_root x h = elim (Bool-cases (same_name name x)) [
  | inl same ↦ rw (← same_name_lem name x same) at_root
  | inr other ↦ elim (Bool-cases (same_name (4 ∷ []) x)) [
    | inl same ↦ rw (← same_name_lem (4 ∷ []) x same) other_at_root
    | inr neither ↦ absurd (ground (arith, h, other, neither))
  ]
]

informs : IsInformed disk-IsListing (λ s h i w. (true, w))
informs = record {
  answered = λ s h i w. refl;
  source_kept = λ s h i w. refl;
  target_kept = λ s h i w. refl;
}

abbrev whole : SkyeDirectory
whole = record splitting { splitting_index = none }

abbrev serving : ServerState (Names × Names)
serving = record {
  heap = reading whole true 1 0 ∷ [];
  flow = 3;
  create_count = 0;
  queue = record { tasks = []; locked = false; signalled = false };
  world = (files, []);
}

found_here : hash_find 0 directory serving.heap ≡ some 0
unfolding hash_find
found_here = refl

prepared :
    IsPrepared setup disk user directory old_bucket new_bucket fresh 0 1 1 (files, []) (files, [])
unfolding isdir_overflow pvfs_mkdir_server giga setup
prepared = record { found = refl; full = refl; at_server = refl; made = refl }

do_split_example :
    (m : GigaMapping) × (w' : Names × Names) × (giga_update_mapping fresh 1 ≡ ok m)
    × (do_split toy_sha setup disk user (λ s h i w. (true, w)) directory 0 serving
        ≡ ok (record serving { heap = reading (after_split whole m) true 1 0 ∷ []; world = w' }))
    × ((x : List ℕ) → contains files x ≡ (contains w'.0 x || contains w'.1 x))
    × ((x : List ℕ) → contains w'.0 x ≡ true → giga_get_index_for_file toy_sha m x ≡ ok 0)
    × ((x : List ℕ) → contains w'.1 x ≡ true → giga_get_index_for_file toy_sha m x ≡ ok 1)
unfolding contains disk-IsListing setup
do_split_example =
    do_split_lem toy_sha setup disk-IsListing informs directory serving whole fresh-IsValid true 1 0
      0 1 1 (files, []) found_here refl (omega arith) all-IsDigest root_exists splits_to_one
      (omega arith) (fresh-IsBounded 512 (omega arith)) prepared (omega arith) (omega arith) in_root
      (λ x. refl)
