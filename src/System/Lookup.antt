-- ===== src/System/Lookup.antt =====
-- client/operations.c and server/handlers.c together: a client looks a name up while the directory
-- rests, whatever stale tables the client and the servers have of it.
use mathlib.Core.Path.{subst}
use skyefs.Prelude.{
  ℕ, ◌<◌, ◌≡◌, refl, ap, sym, ◌∙◌, arith, false, lt→ltb, leb, List, length, some, ok, ◌>>=◌,
}
use skyefs.Rpc.{ObjectRef, SkyeLookup, Credentials, Call, returned, enoent}
use skyefs.Giga.Mapping.{GigaMapping}
use skyefs.Giga.Hash.RoundTrip.{IsDigest}
use skyefs.Giga.Hash.Suffix.{number}
use skyefs.Giga.Tree.{locate}
use skyefs.Server.Directory.{Pvfs, PvfsLookup, at_ref, pvfs_error}
use skyefs.Server.Handlers.{Setup}
use skyefs.Server.Handlers.Procedures.{lookup_result}
use skyefs.Client.Files.{SysAttr, stat_of}
use skyefs.Client.Files.Attributes.{pvfs_getattr}
use skyefs.Client.Cache.{SkyeDirectory, find, write}
use skyefs.Client.Retry.Ends.{IsTableOf}
use skyefs.Client.Operations.{
  Services, ClientState, FuseReply, reply_err, reply_entry, lookup_ret, lookup, skye_ll_lookup,
  parent_ref, reply_lookup, generate_fuse_entry,
}
use skyefs.Client.Returns.{in_directory-returns}
use skyefs.Cluster.{Cluster}
use skyefs.System.Resting.{IsResting, Ready, ReadyWith}
use skyefs.System.{Files, System, Delivers, IsStore, IsStatable}
use skyefs.System.Calls.{cluster, final_reply}
use skyefs.System.LookupCalls.{stub, serves, Result}

-- What FUSE is told of a file that PVFS has or has not.
abbrev pub found_reply : (ObjectRef → SysAttr) → PvfsLookup → FuseReply
found_reply attrs (at_ref r) = reply_entry (record { ino = r.handle; attr = stat_of r (attrs r) })
found_reply attrs (pvfs_error e) = reply_err enoent

module _ {V : Type 0} (shahash : List ℕ → List ℕ) (setups : ℕ → Setup) {pvfs : Pvfs V}
    (services : Services (System V)) {parent : ObjectRef} {bucket_of : ℕ → ℕ} {contents : V → Files}
    {first : ℕ} {σ : Cluster} {attrs : ObjectRef → SysAttr}
    (q : IsResting first services.servercount σ) (delivers : Delivers shahash setups pvfs services)
    (store_of : IsStore pvfs parent σ.all bucket_of contents)
    (statable : IsStatable services.storage contents attrs) (creds : Credentials) (name : List ℕ)
    (d : IsDigest (shahash name)) where
  -- How skye_ll_lookup ends after a final reply.
  record IsEnded (files : Files) (x : PvfsLookup) (before : ClientState (System V)) : Type 0 where
    after : ClientState (System V)
    reply :
        reply_lookup shahash services 10 creds
          (lookup_ret shahash services 10 (some (returned (lookup_result x))) parent)
          before
        ≡ (found_reply attrs x, after)
    dirs : after.dircache ≡ before.dircache
    handle : after.root_handle ≡ before.root_handle
    good : ReadyWith parent bucket_of σ services.servercount contents files after.world

  ends :
      (files : Files) (x : PvfsLookup) (before : ClientState (System V))
      → ReadyWith parent bucket_of σ services.servercount contents files before.world
      → ((e : ℕ) → x ≡ pvfs_error e → 0 < e)
      → IsEnded files x before
  unfolding lookup_ret lookup_result reply_lookup
  ends files (at_ref r) before (ready, same) errs =
      let w = (services.storage.sys_getattr r creds before.world).1 in
      record {
        after = record before { world = w };
        reply = rw (generate_fuse_entry, pvfs_getattr, statable.answered r creds before.world) refl;
        dirs = refl;
        handle = refl;
        good = (
          subst (Ready parent bucket_of σ services.servercount)
              (sym (statable.left_alone r creds before.world)) ready,
          statable.files_kept r creds before.world ∙ same,
        );
      }
  ends files (pvfs_error n) before good errs = record {
    after = before;
    reply = rw (lt→ltb 0 n (errs n refl)) refl;
    dirs = refl;
    handle = refl;
    good = good;
  }

  -- Let the tables of the servers come from the start by loads and steps of splits, with no split
  -- under way, every server has loaded the directory, all partitions below 512 and below twice
  -- the number of servers, of which there is one, and the first server below 2 ^ 31. If calls run
  -- the procedures of the servers, every server has the directory with its table in memory,
  -- unlocked for writing, with an array of four or more handles that are 0 or right, and its
  -- queue unlocked, PVFS finds the partitions and the files that the disk has in them, and
  -- attributes, which changes no files, the client knows the handle of the parent and has the
  -- directory in its cache with a table of it, the name is shorter than 256 and its digest has 20
  -- bytes, then skye_ll_lookup returns: its reply is the file that the disk has in the partition
  -- that the longest suffix of the digest names, with its attributes, or ENOENT if it has none
  -- there; the servers have the directory as before, the files are the same, and the cache is as
  -- before but for the table, which is one of the directory.
  pub skye_ll_lookup_lem :
      (ino : ℕ) (st : ClientState (System V)) {dir : SkyeDirectory}
      → parent_ref shahash services 10 creds ino st ≡ (parent, st)
      → length name < 256
      → find parent st.dircache ≡ some dir
      → IsTableOf σ.all first services.servercount dir.mapping
      → Ready parent bucket_of σ services.servercount st.world.memory
      → (m' : GigaMapping) × (after : ClientState (System V)) × (skye_ll_lookup shahash services 10
            creds ino name st
          ≡ ok (
            found_reply attrs
                (contents st.world.disk (locate σ.all 9 (number (shahash name))) name),
            after,
          ))
        × IsTableOf σ.all first services.servercount m'
        × (after.dircache ≡ write dir.handle (record dir { mapping = m' }) st.dircache)
        × Ready parent bucket_of σ services.servercount after.world.memory
        × (contents after.world.disk ≡ contents st.world.disk)
  unfolding skye_ll_lookup lookup stub
  skye_ll_lookup_lem ino st {dir} above short cached t ready =
      let files = contents st.world.disk in
      let called = stub shahash setups services q delivers store_of creds name d files in
      let good = ReadyWith parent bucket_of σ services.servercount contents files in
      let result = Result shahash setups services q delivers store_of creds name d files in
      let answered = serves shahash setups services q delivers store_of creds name d files in
      let (a, m', before, ran, t', dirs, _, (s, sys, lt, at_s, e)) =
        in_directory-returns shahash services called parent name st d
          (cluster q shahash name d called good result answered) (ready, refl) cached t in
      let i = locate σ.all 9 (number (shahash name)) in
      let fits : leb 256 (length name) ≡ false = ground (arith, short) in
      let (right, good') =
        final_reply q shahash name d called good result answered s sys at_s lt e in
      let end = ends files (files i name) before good' (store_of.errors st.world.disk i name) in
      (
        m',
        end.after,
        ap
              (λ (p : ObjectRef × ClientState (System V)).
                lookup shahash services 10 creds p.0 name p.1 >>= λ r.
                ok (reply_lookup shahash services 10 creds r.0 r.1))
              above
            ∙ rw (fits, ran)
                (ap
                    (λ (c : Call SkyeLookup). ok (
                      reply_lookup shahash services 10 creds
                        (lookup_ret shahash services 10 (some c) parent) before))
                    right
                  ∙ ap ok end.reply),
        t',
        end.dirs ∙ dirs,
        end.good.0,
        end.good.1,
      )
