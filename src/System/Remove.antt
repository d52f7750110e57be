-- ===== src/System/Remove.antt =====
-- client/operations.c and server/handlers.c together: a client removes a file while the directory
-- rests, whatever stale tables the client and the servers have of it.
use skyefs.Prelude.{ℕ, ◌<◌, ◌≡◌, refl, ap, ◌∙◌, ==_iff, List, length, some, ok, ◌>>=◌}
use skyefs.Prelude.Strings.{same_name_refl}
use skyefs.Rpc.{ObjectRef, Credentials, Call, enoent}
use skyefs.Giga.Mapping.{GigaMapping}
use skyefs.Giga.Hash.RoundTrip.{IsDigest}
use skyefs.Giga.Hash.Suffix.{number}
use skyefs.Giga.Tree.{locate}
use skyefs.Server.Directory.{Pvfs, at_ref, pvfs_error}
use skyefs.Server.Handlers.{Setup}
use skyefs.Client.Files.{SysAttr}
use skyefs.Client.Cache.{SkyeDirectory, find, write}
use skyefs.Client.Retry.Ends.{IsTableOf}
use skyefs.Client.Operations.{
  Services, ClientState, reply_err, read_result, parent_ref, skye_ll_lookup, in_directory,
}
use skyefs.Client.Modify.{removed, skye_remove, skye_ll_unlink}
use skyefs.Client.Returns.{in_directory-returns, find-write}
use skyefs.Cluster.{Cluster}
use skyefs.System.Resting.{IsResting, Ready, ReadyWith}
use skyefs.System.Lookup.{found_reply, skye_ll_lookup_lem}
use skyefs.System.{
  Files, System, without_file, Delivers, DeliversRemoves, IsStore, IsRemoving, IsStatable,
}
use skyefs.System.Calls.{cluster, final_reply}
use skyefs.System.RemoveCalls.{stub, serves, Result}

without_file-there :
    (files : Files) (i : ℕ) (name : List ℕ) → without_file files i name i name ≡ pvfs_error enoent
without_file-there files i name = rw ((==_iff i i).1 refl, same_name_refl name) refl

module _ {V : Type 0} (shahash : List ℕ → List ℕ) (setups : ℕ → Setup) {pvfs : Pvfs V}
    (services : Services (System V)) {parent : ObjectRef} {bucket_of : ℕ → ℕ} {contents : V → Files}
    {first : ℕ} {σ : Cluster} {attrs : ObjectRef → SysAttr}
    (q : IsResting first services.servercount σ) (delivers : Delivers shahash setups pvfs services)
    (store_of : IsStore pvfs parent σ.all bucket_of contents) {readdir_error : ℕ}
    {rpc_bucket_remove : ℕ → Credentials → ObjectRef → ℕ → V → Call ℕ × V}
    (removes : DeliversRemoves shahash setups pvfs services readdir_error rpc_bucket_remove)
    {object : ObjectRef} (removing : IsRemoving pvfs parent σ.all bucket_of contents object)
    (statable : IsStatable services.storage contents attrs) (name : List ℕ)
    (d : IsDigest (shahash name)) where
  -- The state of client, servers and disk before and after a removal.
  record IsGone (dir : SkyeDirectory) (st after : ClientState (System V)) : Type 0 where
    m' : GigaMapping
    is_table : IsTableOf σ.all first services.servercount m'
    dirs : after.dircache ≡ write dir.handle (record dir { mapping = m' }) st.dircache
    root : after.root_handle ≡ st.root_handle
    ready : Ready parent bucket_of σ services.servercount after.world.memory
    files :
        contents after.world.disk
        ≡ without_file (contents st.world.disk) (locate σ.all 9 (number (shahash name))) name

  skye_remove-IsGone :
      (creds : Credentials) (ino : ℕ) (st : ClientState (System V)) {dir : SkyeDirectory}
      → parent_ref shahash services 10 creds ino st ≡ (parent, st)
      → find parent st.dircache ≡ some dir
      → IsTableOf σ.all first services.servercount dir.mapping
      → Ready parent bucket_of σ services.servercount st.world.memory
      → contents st.world.disk (locate σ.all 9 (number (shahash name))) name ≡ at_ref object
      → (after : ClientState (System V)) × (skye_remove shahash services 10 creds ino name st
          ≡ ok (0, after))
        × IsGone dir st after
  unfolding skye_remove stub removed
  skye_remove-IsGone creds ino st {dir} above cached t ready present =
      let files = contents st.world.disk in
      let called =
        stub shahash setups services q delivers store_of removes removing creds name d files
          present in
      let good = ReadyWith parent bucket_of σ services.servercount contents files in
      let result =
        Result shahash setups services q delivers store_of removes removing creds name d files
          present in
      let answered =
        serves shahash setups services q delivers store_of removes removing creds name d files
          present in
      let (a, m', after, ran, t', dirs, root, (s, sys, lt, at_s, e)) =
        in_directory-returns shahash services called parent name st d
          (cluster q shahash name d called good result answered) (ready, refl) cached t in
      let (right, (ready', files')) =
        final_reply q shahash name d called good result answered s sys at_s lt e in
      (
        after,
        ap
              (λ (p : ObjectRef × ClientState (System V)).
                in_directory shahash services 10
                  (λ s w.
                    let (c, w') = services.rpc_remove s creds p.0 name w in (read_result c, w'))
                  p.0 name p.1
                >>= λ r. ok (removed shahash services 10 r.0, r.1))
              above
            ∙ rw ran (ap (λ c. ok (removed shahash services 10 (some c), after)) right),
        record { m' = m'; is_table = t'; dirs = dirs; root = root; ready = ready'; files = files' },
      )

  -- Let the servers, their directory and the client be as for skye_ll_lookup: the tables of the
  -- servers come from the start by loads and steps of splits, with no split under way, every
  -- server has loaded the directory, all partitions below 512 and below twice the number of
  -- servers, of which there is one, and the first server below 2 ^ 31; calls of rpc_lookup,
  -- rpc_create and rpc_remove run the procedures of the servers, every server has the directory
  -- with its table in memory, unlocked for writing, with an array of four or more handles that
  -- are 0 or right, and its queue unlocked, PVFS finds the partitions and the files that the disk
  -- has in them, and attributes, which changes no files; the client always finds the handle of
  -- the parent and has the directory in its cache with a table of it, the name is shorter than
  -- 256, and its digest has 20 bytes. If the disk has an object in the partition that the longest
  -- suffix of the digest names, which is no directory and which PVFS removes without a change of
  -- other files, then skye_ll_unlink returns with error 0, and skye_ll_lookup of the name after
  -- it, of the same or another user, with ENOENT; the servers have the directory as before, and
  -- the files are as before without this one.
  pub skye_ll_lookup-skye_ll_unlink :
      (creds other : Credentials) (ino : ℕ) (st : ClientState (System V)) {dir : SkyeDirectory}
      → ((c : Credentials) (w : ClientState (System V))
          → w.root_handle ≡ st.root_handle
          → parent_ref shahash services 10 c ino w ≡ (parent, w))
      → length name < 256
      → find parent st.dircache ≡ some dir
      → IsTableOf σ.all first services.servercount dir.mapping
      → Ready parent bucket_of σ services.servercount st.world.memory
      → contents st.world.disk (locate σ.all 9 (number (shahash name))) name ≡ at_ref object
      → (after : ClientState (System V)) × (later : ClientState (System V)) × (skye_ll_unlink
            shahash services 10 creds ino name st
          ≡ ok (reply_err 0, after))
        × (skye_ll_lookup shahash services 10 other ino name after ≡ ok (reply_err enoent, later))
        × Ready parent bucket_of σ services.servercount later.world.memory
        × (contents later.world.disk
            ≡ without_file (contents st.world.disk) (locate σ.all 9 (number (shahash name))) name)
  unfolding skye_ll_unlink
  skye_ll_lookup-skye_ll_unlink creds other ino st {dir} above short cached t ready present =
      let i = locate σ.all 9 (number (shahash name)) in
      let (after, ran, is) =
        skye_remove-IsGone creds ino st (above creds st refl) cached t ready present in
      let found =
        ap (λ dirs. find parent dirs) is.dirs
        ∙ find-write parent (record dir { mapping = is.m' }) st.dircache cached refl in
      let (m'', later, looked, _, _, ready', files') =
        skye_ll_lookup_lem shahash setups services q delivers store_of statable other name d ino
          after (above other after is.root) short found is.is_table is.ready in
      (
        after,
        later,
        rw ran refl,
        looked
            ∙ ap (λ (f : Files). ok (found_reply attrs (f i name), later)) is.files
            ∙ ap (λ x. ok (found_reply attrs x, later))
                (without_file-there (contents st.world.disk) i name),
        ready',
        files' ∙ is.files,
      )
