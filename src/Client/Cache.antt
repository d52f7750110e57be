-- ===== src/Client/Cache.antt =====
-- client/cache.c: the tables that the client has of the directories that it used.
use skyefs.Prelude.{
  ℕ, ◌+◌, ◌-◌, List, [], ◌∷◌, ltb, if◌then◌else◌, Outcome, ok, assert, ◌>>◌, Bool, Option, none,
  some,
}
use skyefs.Rpc.{ObjectRef, same_ref}
use skyefs.Giga.Mapping.{GigaMapping, giga_init_mapping}

-- struct skye_directory. A pointer to one is its handle, which is its key in the hash table.
pub record SkyeDirectory : Type 0 where
  pub mapping : GigaMapping
  pub refcount : ℕ
  pub handle : ObjectRef

-- HASH_FIND
unfoldable pub find : ObjectRef → List SkyeDirectory → Option SkyeDirectory
find handle [] = none
find handle (dir ∷ dirs) = if same_ref dir.handle handle then some dir else find handle dirs

-- A write through a pointer to the directory.
unfoldable pub write : ObjectRef → SkyeDirectory → List SkyeDirectory → List SkyeDirectory
write handle new [] = []
write handle new (dir ∷ dirs) =
    if same_ref dir.handle handle then new ∷ dirs else dir ∷ write handle new dirs

-- `memory` is whether malloc succeeds, `mds` what `pvfs_get_mds` returns for the handle.
unfoldable pub new_directory :
    Bool → ℕ → ℕ → ObjectRef → List SkyeDirectory → Option SkyeDirectory × List SkyeDirectory
new_directory memory mds servercount handle dircache =
    let dir : SkyeDirectory = record {
      mapping = giga_init_mapping mds servercount;
      refcount = 0;
      handle = handle;
    } in
    if memory then (some dir, dir ∷ dircache) else (none, dircache)

unfoldable pub fetched :
    Option SkyeDirectory × List SkyeDirectory → Option SkyeDirectory × List SkyeDirectory
fetched (none, dircache) = (none, dircache)
fetched (some dir, dircache) =
    let dir' = record dir { refcount = dir.refcount + 1 } in
    (some dir', write dir.handle dir' dircache)

unfoldable pub found_or_new :
    Option SkyeDirectory
    → Bool
    → ℕ
    → ℕ
    → ObjectRef
    → List SkyeDirectory
    → Option SkyeDirectory × List SkyeDirectory
found_or_new (some dir) memory mds servercount handle dircache = (some dir, dircache)
found_or_new none memory mds servercount handle dircache =
    new_directory memory mds servercount handle dircache

unfoldable pub cache_fetch :
    Bool → ℕ → ℕ → ObjectRef → List SkyeDirectory → Option SkyeDirectory × List SkyeDirectory
unfolding fetched found_or_new new_directory
cache_fetch memory mds servercount handle dircache =
    fetched (found_or_new (find handle dircache) memory mds servercount handle dircache)

unfoldable pub cache_return : SkyeDirectory → List SkyeDirectory → Outcome (List SkyeDirectory)
cache_return dir dircache =
    assert (ltb 0 dir.refcount)
    >> ok (write dir.handle (record dir { refcount = dir.refcount - 1 }) dircache)
