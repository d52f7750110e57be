-- ===== src/System/Create.antt =====
-- client/operations.c and server/handlers.c together: a client creates a file while the directory
-- rests, whatever stale tables the client and the servers have of it.
use mathlib.Core.Path.{subst}
use skyefs.Prelude.{ℕ, ◌<◌, ◌≡◌, refl, ap, sym, ◌∙◌, ==_iff, List, length, some, ok, ◌>>=◌}
use skyefs.Prelude.Strings.{same_name_refl}
use skyefs.Rpc.{ObjectRef, Credentials, ref, returned, enoent}
use skyefs.Giga.Mapping.{GigaMapping}
use skyefs.Giga.Hash.RoundTrip.{IsDigest}
use skyefs.Giga.Hash.Suffix.{number}
use skyefs.Giga.Tree.{locate}
use skyefs.Server.Directory.{Pvfs, at_ref, pvfs_error}
use skyefs.Server.Handlers.{Setup}
use skyefs.Client.Files.{SysAttr, stat_of}
use skyefs.Client.Files.Attributes.{pvfs_getattr}
use skyefs.Client.Cache.{SkyeDirectory, find, write}
use skyefs.Client.Retry.Ends.{IsTableOf}
use skyefs.Client.Operations.{
  Services, ClientState, FuseReply, EntryParam, reply_entry, reply_create, read_lookup, parent_ref,
  generate_fuse_entry, skye_ll_lookup, in_directory,
}
use skyefs.Client.Modify.{created, create_entry, skye_ll_create}
use skyefs.Client.Returns.{in_directory-returns, find-write}
use skyefs.Cluster.{Cluster}
use skyefs.System.Resting.{IsResting, Ready, ReadyWith}
use skyefs.System.Lookup.{found_reply, skye_ll_lookup_lem}
use skyefs.System.{Files, System, with_file, Delivers, IsStore, IsCreating, IsStatable}
use skyefs.System.Calls.{cluster, final_reply}
use skyefs.System.CreateCalls.{stub, serves, Result}

with_file-there :
    (files : Files) (i : ℕ) (name : List ℕ) (object : ObjectRef)
    → with_file files i name object i name ≡ at_ref object
with_file-there files i name object = rw ((==_iff i i).1 refl, same_name_refl name) refl

-- What FUSE is told of a file.
abbrev pub entry_of : (ObjectRef → SysAttr) → ObjectRef → EntryParam
entry_of attrs object = record { ino = object.handle; attr = stat_of object (attrs object) }

module _ {V : Type 0} (shahash : List ℕ → List ℕ) (setups : ℕ → Setup) {pvfs : Pvfs V}
    (services : Services (System V)) {parent : ObjectRef} {bucket_of : ℕ → ℕ} {contents : V → Files}
    {first : ℕ} {σ : Cluster} {attrs : ObjectRef → SysAttr}
    (q : IsResting first services.servercount σ) (delivers : Delivers shahash setups pvfs services)
    (store_of : IsStore pvfs parent σ.all bucket_of contents)
    (creating : IsCreating pvfs parent σ.all bucket_of contents)
    (statable : IsStatable services.storage contents attrs) (name : List ℕ)
    (d : IsDigest (shahash name)) where
  created_lem :
      (reply : EntryParam → FuseReply) (creds : Credentials) (object : ObjectRef)
      (before : ClientState (System V))
      → created shahash services 10 reply creds (some (returned (ref object))) before ≡ (
        reply (entry_of attrs object),
        record before { world = (services.storage.sys_getattr object creds before.world).1 },
      )
  unfolding created
  created_lem reply creds object before =
      rw (generate_fuse_entry, pvfs_getattr, statable.answered object creds before.world) refl

  -- The state of client, servers and disk before and after a create.
  record IsMade (dir : SkyeDirectory) (object : ObjectRef) (st after : ClientState (System V))
      : Type 0 where
    m' : GigaMapping
    is_table : IsTableOf σ.all first services.servercount m'
    dirs : after.dircache ≡ write dir.handle (record dir { mapping = m' }) st.dircache
    root : after.root_handle ≡ st.root_handle
    ready : Ready parent bucket_of σ services.servercount after.world.memory
    files :
        contents after.world.disk
        ≡ with_file (contents st.world.disk) (locate σ.all 9 (number (shahash name))) name object

  create_entry-IsMade :
      (reply : EntryParam → FuseReply) (creds : Credentials) (mode ino : ℕ)
      (st : ClientState (System V)) {dir : SkyeDirectory}
      → parent_ref shahash services 10 creds ino st ≡ (parent, st)
      → find parent st.dircache ≡ some dir
      → IsTableOf σ.all first services.servercount dir.mapping
      → Ready parent bucket_of σ services.servercount st.world.memory
      → contents st.world.disk (locate σ.all 9 (number (shahash name))) name ≡ pvfs_error enoent
      → (object : ObjectRef) × (after : ClientState (System V)) × (create_entry shahash services 10
            reply creds ino name mode st
          ≡ ok (reply (entry_of attrs object), after))
        × IsMade dir object st after
  unfolding create_entry stub
  create_entry-IsMade reply creds mode ino st {dir} above cached t ready absent =
      let files = contents st.world.disk in
      let called =
        stub shahash setups services q delivers store_of creating creds name mode d files absent in
      let good = ReadyWith parent bucket_of σ services.servercount contents files in
      let result =
        Result shahash setups services q delivers store_of creating creds name mode d files
          absent in
      let answered =
        serves shahash setups services q delivers store_of creating creds name mode d files
          absent in
      let (a, m', before, ran, t', dirs, root, (s, sys, lt, at_s, e)) =
        in_directory-returns shahash services called parent name st d
          (cluster q shahash name d called good result answered) (ready, refl) cached t in
      let (object, right, (ready', files')) =
        final_reply q shahash name d called good result answered s sys at_s lt e in
      let w = (services.storage.sys_getattr object creds before.world).1 in
      (
        object,
        record before { world = w },
        ap
              (λ (p : ObjectRef × ClientState (System V)).
                in_directory shahash services 10
                  (λ s w.
                    let (c, w') = services.rpc_create s creds p.0 name mode w in
                    (read_lookup c, w'))
                  p.0 name p.1
                >>= λ r. ok (created shahash services 10 reply creds r.0 r.1))
              above
            ∙ rw ran (
                ap (λ c. ok (created shahash services 10 reply creds (some c) before)) right
                ∙ ap ok (created_lem reply creds object before)),
        record {
          m' = m';
          is_table = t';
          dirs = dirs;
          root = root;
          ready =
              subst (Ready parent bucket_of σ services.servercount)
                (sym (statable.left_alone object creds before.world)) ready';
          files = statable.files_kept object creds before.world ∙ files';
        },
      )

  -- Let the tables of the servers come from the start by loads and steps of splits, with no split
  -- under way, every server has loaded the directory, all partitions below 512 and below twice
  -- the number of servers, of which there is one, and the first server below 2 ^ 31. If calls run
  -- the procedures of the servers, where malloc succeeds, every server has the directory with its
  -- table in memory, unlocked for writing, with an array of four or more handles that are 0 or
  -- right, and its queue unlocked, PVFS finds the partitions and the files that the disk has in
  -- them, and attributes, which changes no files, as counting entries does not, it creates a name
  -- that is not there as one more file and changes no other, the client always finds the handle
  -- of the parent and has the directory in its cache with a table of it, the name is shorter than
  -- 256, its digest has 20 bytes, and the disk has no such file in the partition that the longest
  -- suffix of the digest names, then skye_ll_create returns with the entry and the handle of some
  -- object, and skye_ll_lookup of the name after it, of the same or another user, with the same
  -- entry; the servers have the directory as before, and the files are as before with this object
  -- by this name in this partition.
  pub skye_ll_lookup-skye_ll_create :
      (creds other : Credentials) (mode ino : ℕ) (st : ClientState (System V)) {dir : SkyeDirectory}
      → ((c : Credentials) (w : ClientState (System V))
          → w.root_handle ≡ st.root_handle
          → parent_ref shahash services 10 c ino w ≡ (parent, w))
      → length name < 256
      → find parent st.dircache ≡ some dir
      → IsTableOf σ.all first services.servercount dir.mapping
      → Ready parent bucket_of σ services.servercount st.world.memory
      → contents st.world.disk (locate σ.all 9 (number (shahash name))) name ≡ pvfs_error enoent
      → (object : ObjectRef) × (after : ClientState (System V)) × (later : ClientState (System V))
        × (skye_ll_create shahash services 10 creds ino name mode st
            ≡ ok (reply_create (entry_of attrs object) object.handle, after))
        × (skye_ll_lookup shahash services 10 other ino name after
            ≡ ok (reply_entry (entry_of attrs object), later))
        × Ready parent bucket_of σ services.servercount later.world.memory
        × (contents later.world.disk
            ≡ with_file
                (contents st.world.disk)
                (locate σ.all 9 (number (shahash name)))
                name
                object)
  unfolding skye_ll_create
  skye_ll_lookup-skye_ll_create creds other mode ino st {dir} above short cached t ready absent =
      let i = locate σ.all 9 (number (shahash name)) in
      let (object, after, ran, is) =
        create_entry-IsMade (λ e. reply_create e e.ino) creds mode ino st (above creds st refl)
          cached t ready absent in
      let found =
        ap (λ dirs. find parent dirs) is.dirs
        ∙ find-write parent (record dir { mapping = is.m' }) st.dircache cached refl in
      let (m'', later, looked, _, _, ready', files') =
        skye_ll_lookup_lem shahash setups services q delivers store_of statable other name d ino
          after (above other after is.root) short found is.is_table is.ready in
      (
        object,
        after,
        later,
        ran,
        looked
            ∙ ap (λ (f : Files). ok (found_reply attrs (f i name), later)) is.files
            ∙ ap (λ x. ok (found_reply attrs x, later))
                (with_file-there (contents st.world.disk) i name object),
        ready',
        files' ∙ is.files,
      )
