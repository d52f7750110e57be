-- ===== src/Tests/Unlinking.antt =====
-- A client with a new table removes the file that is in partition 1, on server 1, and looks it up.
use skyefs.Prelude.{ℕ, ◌≡◌, ◌==◌, ◌&&◌, if◌then◌else◌, refl, arith, Bool, List, ok, true, false}
use skyefs.Prelude.Strings.{same_name}
use skyefs.Rpc.{enoent}
use skyefs.Cluster.{add, start}
use skyefs.Giga.Tree.{locate}
use skyefs.Giga.Hash.Suffix.{number}
use skyefs.Server.Directory.{PvfsLookup, at_ref, pvfs_error}
use skyefs.Client.Cache.{find}
use skyefs.Client.Operations.{ClientState, parent_ref, skye_ll_lookup, reply_err}
use skyefs.Client.Modify.{skye_ll_unlink}
use skyefs.System.{Files, System, DeliversRemoves, IsRemoving, without_file}
use skyefs.System.Resting.{Ready}
use skyefs.System.Remove.{skye_ll_lookup-skye_ll_unlink}
use skyefs.Tests.{giga, toy_sha, name, name-IsDigest}
use skyefs.Tests.Serving.{directory, user}
use skyefs.Tests.Splitting.{finished, new_table}
use skyefs.Tests.Looking.{
  bucket_of, bucket_back, file, checked, contents, erased, pvfs, pvfs-IsStore, setups, services,
  rpc_bucket_remove, delivers, statable, everything, client, resting, ready,
}

checked-there :
    (b : Bool) (x : PvfsLookup)
    → checked (if b then pvfs_error 1 else x) ≡ (if b then pvfs_error enoent else checked x)
checked-there true x = refl
checked-there false x = refl

contents-erased :
    (w : Files) (i : ℕ) (path : List ℕ)
    → contents (erased w i path) ≡ without_file (contents w) i path
contents-erased w i path k j other = checked-there (i == j && same_name path other) (w j other) k

removing : IsRemoving pvfs directory finished.all bucket_of contents file
removing = record {
  plain = λ creds w. refl;
  plain_kept = λ creds w. refl;
  removed = λ creds i path w seen present. refl;
  taken = λ creds i path w seen present. rw (bucket_back i) (contents-erased w i path);
}

removes : DeliversRemoves toy_sha setups pvfs services 5 rpc_bucket_remove
removes = record { removes = λ s creds parent path sys a after ran. rw ran refl }

present :
    contents everything.disk (locate finished.all 9 (number (toy_sha name))) name ≡ at_ref file
unfolding locate number giga add start
present = refl

skye_ll_unlink_example :
    (after : ClientState (System Files)) × (later : ClientState (System Files)) × (skye_ll_unlink
        toy_sha services 10 user 9 name client
      ≡ ok (reply_err 0, after))
    × (skye_ll_lookup toy_sha services 10 user 9 name after ≡ ok (reply_err enoent, later))
    × Ready directory bucket_of finished 2 later.world.memory
    × (contents later.world.disk
        ≡ without_file
            (contents everything.disk)
            (locate finished.all 9 (number (toy_sha name)))
            name)
unfolding find parent_ref
skye_ll_unlink_example =
    skye_ll_lookup-skye_ll_unlink toy_sha setups services resting delivers pvfs-IsStore removes
      removing statable name name-IsDigest user user 9 client (λ c w same. refl) (omega arith) refl
      new_table ready present
