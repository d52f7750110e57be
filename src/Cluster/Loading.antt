-- ===== src/Cluster/Loading.antt =====
-- server/cache.c: the load of a directory, which cache_fetch makes, as a step of the servers.
use skyefs.Prelude.{
  ℕ, ◌<◌, ◌≡◌, refl, sym, ◌∙◌, List, length, take, drop, true, false, ◌==◌, ◌||◌, Option, none,
  some, ok,
}
use mathlib.Core.Path.{subst}
use skyefs.Rpc.{ObjectRef}
use skyefs.Giga.Mapping.{GigaMapping, giga_init_mapping}
use skyefs.Server.Directory.{position}
use skyefs.Server.Cache.{Slot, hash_find, cache_fetch}
use skyefs.Server.Cache.Filling.{Fits, lists}
use skyefs.Server.Cache.Fetching.{cache_fetch-absent}
use skyefs.Cluster.{Cluster, IsLoaded, SplitStep, load_directory, put}

module _ {W : Type 0} (readdir : ObjectRef → ℕ → ℕ → W → Option (List (List ℕ)) × W)
    (sscanf_index : List ℕ → Option ℕ) (mds servercount rounds : ℕ) (handle : ObjectRef)
    (heap : List Slot) (w : W) (absent : hash_find 0 handle heap ≡ none) (names : List (List ℕ))
    (paged : (token n : ℕ) (w : W)
      → (readdir handle token n w).0 ≡ some (take n (drop (position token) names)))
    (fits : Fits sscanf_index names) (long : length names < rounds) where
  -- If PVFS lists the partitions that there are, and cache_fetch is as in cache_fetch-absent, a server
  -- that has not loaded the directory takes the step with the table of the new directory.
  pub cache_fetch-load_directory :
      (σ : Cluster) (s : ℕ)
      → σ.loaded s ≡ false
      → σ.tables s ≡ giga_init_mapping mds servercount
      → ((i : ℕ) → σ.all i ≡ (0 == i || lists sscanf_index names i))
      → (m : GigaMapping) × (heap' : List Slot) × (w' : W) × (cache_fetch readdir sscanf_index true
            true mds servercount rounds handle heap w
          ≡ ok (some (length heap), heap', w'))
        × SplitStep σ (record σ { tables = put σ.tables s m; loaded = put σ.loaded s true })
  cache_fetch-load_directory σ s new begins listed =
      let (m, w', ran, found, usable, has, same) =
        cache_fetch-absent readdir sscanf_index mds servercount rounds handle heap w absent names
          paged fits long in
      let filled : IsLoaded σ.all (giga_init_mapping mds servercount) m = record {
        usable = usable;
        listed = λ i. has i ∙ sym (listed i);
        same = same;
      } in
      (
        m,
        _,
        w',
        ran,
        load_directory s m new (subst (λ t. IsLoaded σ.all t m) (sym begins) filled) refl,
      )
