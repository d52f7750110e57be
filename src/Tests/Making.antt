-- ===== src/Tests/Making.antt =====
-- A client with a new table creates a file in partition 1, on server 1, and looks it up.
use skyefs.Prelude.{ℕ, ◌≡◌, ◌==◌, ◌&&◌, if◌then◌else◌, refl, arith, Bool, List, ok, true, false}
use skyefs.Prelude.Strings.{same_name}
use skyefs.Rpc.{ObjectRef}
use skyefs.Giga.Tree.{locate}
use skyefs.Giga.Hash.Suffix.{number}
use skyefs.Server.Directory.{PvfsLookup, at_ref, pvfs_error}
use skyefs.Client.Cache.{find}
use skyefs.Client.Operations.{ClientState, parent_ref, skye_ll_lookup, reply_entry, reply_create}
use skyefs.Client.Modify.{skye_ll_create}
use skyefs.System.{Files, System, IsCreating, with_file}
use skyefs.System.Resting.{Ready}
use skyefs.System.Create.{entry_of, skye_ll_lookup-skye_ll_create}
use skyefs.Tests.{toy_sha, name, name-IsDigest}
use skyefs.Tests.Serving.{directory, user}
use skyefs.Tests.Splitting.{finished, new_table}
use skyefs.Tests.Cluster.{attrs}
use skyefs.Tests.Looking.{
  bucket_of, bucket_back, file, checked, contents, pvfs, pvfs-IsStore, setups, services, delivers,
  statable, everything, client, resting, ready,
}

checked-there :
    (b : Bool) (x : PvfsLookup)
    → checked (if b then at_ref file else x) ≡ (if b then at_ref file else checked x)
checked-there true x = refl
checked-there false x = refl

contents-with_file :
    (w : Files) (i : ℕ) (path : List ℕ)
    → contents (with_file w i path file) ≡ with_file (contents w) i path file
contents-with_file w i path k j other = checked-there (i == j && same_name path other) (w j other) k

creating : IsCreating pvfs directory finished.all bucket_of contents
creating = record {
  new = λ creds i path mode w. file;
  created = λ creds i path mode w seen absent. refl;
  added = λ creds i path mode w seen absent. rw (bucket_back i) (contents-with_file w i path);
  counted = λ creds b w. refl;
}

-- No file is there yet.
abbrev nothing : System Files
nothing = record everything { disk = λ i path. pvfs_error 1 }

abbrev beginner : ClientState (System Files)
beginner = record client { world = nothing }

skye_ll_create_example :
    (object : ObjectRef) × (after : ClientState (System Files)) × (later : ClientState
      (System Files))
    × (skye_ll_create toy_sha services 10 user 9 name 0 beginner
        ≡ ok (reply_create (entry_of attrs object) object.handle, after))
    × (skye_ll_lookup toy_sha services 10 user 9 name after
        ≡ ok (reply_entry (entry_of attrs object), later))
    × Ready directory bucket_of finished 2 later.world.memory
    × (contents later.world.disk
        ≡ with_file
            (contents nothing.disk)
            (locate finished.all 9 (number (toy_sha name)))
            name
            object)
unfolding find parent_ref
skye_ll_create_example =
    skye_ll_lookup-skye_ll_create toy_sha setups services resting delivers pvfs-IsStore creating
      statable name name-IsDigest user user 0 9 beginner (λ c w same. refl) (omega arith) refl
      new_table ready refl
