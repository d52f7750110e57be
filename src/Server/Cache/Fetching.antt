-- ===== src/Server/Cache/Fetching.antt =====
-- server/cache.c: a fetch of a directory that is not in memory.
use skyefs.Prelude.{
  ℕ, ◌+◌, ◌<◌, ◌≡◌, refl, ap, ◌∙◌, arith, List, [], ◌∷◌, ◌++◌, length, take, drop, set, replicate,
  true, false, ◌==◌, ◌||◌, Option, none, some, ok, load,
}
use skyefs.Rpc.{ObjectRef}
use skyefs.Giga.Mapping.{GigaMapping, giga_init_mapping}
use skyefs.Giga.Mapping.Invariant.{partitions, IsUsable, usable}
use skyefs.Giga.Init.{giga_init_mapping-IsValid}
use skyefs.Giga.Update.{SameServers}
use skyefs.Server.Directory.{SkyeDirectory, position}
use skyefs.Server.Cache.{
  Slot, hash_find, take_reference, rdlock, new_directory, fetch_locked, cache_fetch,
}
use skyefs.Server.Cache.Balance.{reading, at_slot_lem, load-set, set-set}
use skyefs.Server.Cache.Filling.{Fits, lists, fill_bitmap_lem}

-- The memory with one more directory, which is in the hash table.
abbrev pub made_directory : GigaMapping → ObjectRef → SkyeDirectory
made_directory m handle = record {
  mapping = m;
  refcount = 1;
  handle = handle;
  splitting_index = none;
  rwlock = record { readers = 0; writer = false };
  partition_handles = replicate 4 0;
}

load-append : {A : Type 0} (xs : List A) (a : A) → load (xs ++ a ∷ []) (length xs) ≡ ok a
load-append [] a = refl
load-append (x ∷ xs) a = load-append xs a

set-append : {A : Type 0} (xs : List A) (a b : A) → set (xs ++ a ∷ []) (length xs) b ≡ xs ++ b ∷ []
set-append [] a b = refl
set-append (x ∷ xs) a b = ap (◌∷◌ x) (set-append xs a b)

hash_find-append :
    (p : ℕ) (handle : ObjectRef) (heap : List Slot) (d : SkyeDirectory) (n r : ℕ)
    → hash_find p handle heap ≡ none
    → d.handle ≡ handle
    → hash_find p handle (heap ++ reading d true n r ∷ []) ≡ some (p + length heap)
unfolding hash_find
hash_find-append p handle [] d n r absent e = rw e (ground arith)
hash_find-append p handle (s ∷ heap) d n r absent e =
    ground (arith, hash_find-append (p + 1) handle heap d n r)

module _ {W : Type 0} (readdir : ObjectRef → ℕ → ℕ → W → Option (List (List ℕ)) × W)
    (sscanf_index : List ℕ → Option ℕ) (mds servercount rounds : ℕ) (handle : ObjectRef)
    (heap : List Slot) (w : W) (absent : hash_find 0 handle heap ≡ none) (names : List (List ℕ))
    (paged : (token n : ℕ) (w : W)
      → (readdir handle token n w).0 ≡ some (take n (drop (position token) names)))
    (fits : Fits sscanf_index names) (long : length names < rounds) where
  -- If a directory is not in the hash table, malloc and pthread_rwlock_init succeed, PVFS lists
  -- the directory by position and without errors, with fewer entries than the rounds of the loop,
  -- and the indices that sscanf reads are within the bitmap, then cache_fetch returns, without a
  -- fault, a new directory that is found in the hash table from then on, with two references and
  -- one reader; its table is well-formed and has partition 0 and exactly the partitions that are
  -- listed, and the servers that it was made with.
  pub cache_fetch-absent :
      (m : GigaMapping) × (w' : W) × (cache_fetch readdir sscanf_index true true mds servercount
          rounds handle heap w
        ≡ ok (some (length heap), heap ++ reading (made_directory m handle) true 2 1 ∷ [], w'))
      × (hash_find 0 handle (heap ++ reading (made_directory m handle) true 2 1 ∷ [])
          ≡ some (length heap))
      × IsUsable m
      × ((i : ℕ) → partitions m i ≡ (0 == i || lists sscanf_index names i))
      × SameServers (giga_init_mapping mds servercount) m
  unfolding cache_fetch fetch_locked new_directory take_reference rdlock position
  cache_fetch-absent =
      let (v, root) = giga_init_mapping-IsValid mds servercount in
      let (m, w', e, f) =
        fill_bitmap_lem readdir sscanf_index handle names paged fits rounds 0 w (usable v)
          (omega (arith, long)) (omega (arith, long)) in
      let d = made_directory m handle in
      let heap1 = heap ++ reading d true 1 0 ∷ [] in
      let at_p = load-append heap (reading d true 1 0) in
      let heap2 = set heap1 (length heap) (reading d true 2 0) in
      (
        m,
        w',
        rw
            (
              absent,
              e,
              at_slot_lem (length heap) take_reference heap1 {s' = reading d true 2 0} at_p refl
                  refl,
              at_slot_lem (length heap) rdlock heap2 {s' = reading d true 2 1}
                  (load-set heap1 (length heap) (reading d true 2 0) at_p) refl refl,
              set-set heap1 (length heap) (reading d true 2 0) (reading d true 2 1),
              set-append heap (reading d true 1 0) (reading d true 2 1),
            )
            refl,
        hash_find-append 0 handle heap d 2 1 absent refl ∙ ap some (omega arith),
        f.usable,
        λ i. f.filled i ∙ ap (λ b. b || lists sscanf_index names i) (root i),
        f.servers,
      )
