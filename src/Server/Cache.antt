-- ===== src/Server/Cache.antt =====
-- server/cache.c: the directories that a server has in memory. A pointer is the place of a slot in a
-- list that grows with each malloc; a slot remembers whether it is in the hash table and freed.
pub mod Balance
pub mod Filling
pub mod Fetching
use skyefs.Prelude.{
  ℕ, zero, suc, ◌+◌, ◌-◌, ◌*◌, ◌%◌, ◌^◌, List, [], ◌∷◌, ◌++◌, length, replicate, Bool, true, false,
  ◌&&◌, ◌||◌, ltb, ◌==◌, if◌then◌else◌, Option, none, some, Outcome, ok, fault, out_of_bounds,
  out_of_rounds, blocked, not_locked, assert, load, store, ◌>>=◌, ◌>>◌,
}
use skyefs.Rpc.{ObjectRef, same_ref}
use skyefs.Giga.Mapping.{GigaMapping, giga_init_mapping, giga_update_mapping}
use skyefs.Server.Directory.{RwLock, SkyeDirectory}

pub record Slot : Type 0 where
  pub dir : SkyeDirectory
  pub listed : Bool
  pub freed : Bool

-- An access through a pointer.
unfoldable pub at_slot : ℕ → (Slot → Outcome Slot) → List Slot → Outcome (List Slot)
at_slot p f heap =
    load heap p >>= λ s. if s.freed then fault out_of_bounds else (f s >>= λ s'. store heap p s')

-- HASH_FIND, from the slot with number p on.
unfoldable pub hash_find : ℕ → ObjectRef → List Slot → Option ℕ
hash_find p handle [] = none
hash_find p handle (s ∷ heap) =
    let rest = hash_find (p + 1) handle heap in
    if s.listed && same_ref s.dir.handle handle then some p else rest

-- pthread_rwlock_rdlock, pthread_rwlock_wrlock and pthread_rwlock_unlock.
unfoldable pub rdlock : Slot → Outcome Slot
rdlock s =
    if s.dir.rwlock.writer
    then fault blocked
    else ok (record s {
      dir = record s.dir { rwlock = record { readers = s.dir.rwlock.readers + 1; writer = false } };
    })

unfoldable pub wrlock : Slot → Outcome Slot
wrlock s =
    if s.dir.rwlock.writer || ltb 0 s.dir.rwlock.readers
    then fault blocked
    else ok (record s { dir = record s.dir { rwlock = record { readers = 0; writer = true } } })

unfoldable pub unlock : Slot → Outcome Slot
unlock s =
    let readers = s.dir.rwlock.readers in
    if s.dir.rwlock.writer
    then ok
        (record s { dir = record s.dir { rwlock = record { readers = readers; writer = false } } })
    else if ltb 0 readers
    then ok (record s {
      dir = record s.dir { rwlock = record { readers = readers - 1; writer = false } };
    })
    else fault not_locked

-- __sync_fetch_and_add(&dir->refcount, 1)
unfoldable pub take_reference : Slot → Outcome Slot
take_reference s = ok (record s { dir = record s.dir { refcount = s.dir.refcount + 1 } })

-- __sync_sub_and_fetch(&dir->refcount, 1), and free at 0.
unfoldable pub drop_reference : Slot → Outcome Slot
drop_reference s = ok (record s {
  dir = record s.dir { refcount = s.dir.refcount - 1 };
  freed = s.dir.refcount - 1 == 0;
})

unfoldable pub cache_return : ℕ → List Slot → Outcome (List Slot)
unfolding unlock drop_reference
cache_return p =
    at_slot p (λ s. unlock s >>= λ t. assert (ltb 0 t.dir.refcount) >> drop_reference t)

unfoldable pub cache_destroy : ℕ → List Slot → Outcome (List Slot)
unfolding drop_reference
cache_destroy p = at_slot p (λ s.
    assert (ltb 1 s.dir.refcount)
    >> drop_reference
        (record s { dir = record s.dir { refcount = s.dir.refcount - 1 }; listed = false }))

-- `readdir` gives at most so many names from a token on, where token 0 stands for PVFS_READDIR_START, or an
-- error; `sscanf_index` is sscanf with "p%u".
module _ {W : Type 0} (readdir : ObjectRef → ℕ → ℕ → W → Option (List (List ℕ)) × W)
    (sscanf_index : List ℕ → Option ℕ) where
  -- The for loop over the entries of a reply.
  unfoldable pub fill_entries : List (List ℕ) → GigaMapping → Outcome GigaMapping
  fill_entries [] mapping = ok mapping
  fill_entries (name ∷ names) mapping = elim (sscanf_index name) [
    | none ↦ fill_entries names mapping
    | some index ↦ giga_update_mapping mapping index >>= λ mapping'. fill_entries names mapping'
  ]

  -- Its do loop, 32 entries at a time.
  unfoldable pub fill_bitmap :
      (fuel : ℕ) → ℕ → ObjectRef → GigaMapping → W → Outcome (GigaMapping × W)
  unfolding fill_entries
  fill_bitmap zero token handle mapping w = fault out_of_rounds
  fill_bitmap (suc f) token handle mapping w = elim (readdir handle token 32 w).0 [
    | none ↦ ok (mapping, (readdir handle token 32 w).1)
    | some names ↦ fill_entries names mapping >>= λ mapping'.
        let token' = if token == 0 then length names - 1 else token + length names in
        let rest = fill_bitmap f token' handle mapping' (readdir handle token 32 w).1 in
        if length names == 32 then rest else ok (mapping', (readdir handle token 32 w).1)
  ]

  -- `memory` and `lockable` are whether malloc and pthread_rwlock_init succeed, `mds` is
  -- `pvfs_get_mds`. The array of handles has MAX_BKTS_PER_SERVER * 2 zeros.
  module _ (memory lockable : Bool) (mds servercount rounds : ℕ) where
    unfoldable pub new_directory : ObjectRef → List Slot → W → Outcome (Option ℕ × List Slot × W)
    unfolding fill_bitmap
    new_directory handle heap w =
        if memory && lockable
        then (fill_bitmap rounds 0 handle (giga_init_mapping mds servercount) w >>= λ r.
            let dir : SkyeDirectory = record {
              mapping = r.0;
              refcount = 1;
              handle = handle;
              splitting_index = none;
              rwlock = record { readers = 0; writer = false };
              partition_handles = replicate 4 0;
            } in
            ok (
              some (length heap),
              heap ++ record { dir = dir; listed = true; freed = false } ∷ [],
              r.1,
            ))
        else ok (none, heap, w)

    -- `lock` is `rdlock` in `cache_fetch` and `wrlock` in `cache_fetch_w`.
    unfoldable pub fetch_locked :
        (Slot → Outcome Slot) → ObjectRef → List Slot → W → Outcome (Option ℕ × List Slot × W)
    unfolding new_directory at_slot take_reference
    fetch_locked lock handle heap w =
        let made : Outcome (Option ℕ × List Slot × W) = elim (hash_find 0 handle heap) [
          | some p ↦ ok (some p, heap, w)
          | none ↦ new_directory handle heap w
        ] in
        made >>= λ r. elim r.0 [
          | none ↦ ok (none, r.1, r.2)
          | some p ↦
              at_slot p take_reference r.1 >>= at_slot p lock >>= λ heap'. ok (some p, heap', r.2)
        ]

    unfoldable pub cache_fetch : ObjectRef → List Slot → W → Outcome (Option ℕ × List Slot × W)
    unfolding fetch_locked rdlock
    cache_fetch = fetch_locked rdlock

    unfoldable pub cache_fetch_w : ObjectRef → List Slot → W → Outcome (Option ℕ × List Slot × W)
    unfolding fetch_locked wrlock
    cache_fetch_w = fetch_locked wrlock
