-- ===== src/Server/Cache/Balance.antt =====
-- server/cache.c: a fetch of a directory in memory followed by its return.
use skyefs.Prelude.{
  ℕ, zero, suc, ◌+◌, ◌-◌, ◌<◌, ◌≡◌, refl, ap, ◌∙◌, arith, List, [], ◌∷◌, set, Bool, true, false,
  ltb, ◌==◌, if◌then◌else◌, Option, some, Outcome, ok, load, store, ◌>>=◌, ◌>>◌, assert, lt→ltb,
}
use skyefs.Rpc.{ObjectRef}
use skyefs.Server.Directory.{SkyeDirectory}
use skyefs.Server.Cache.{
  Slot, at_slot, hash_find, rdlock, wrlock, unlock, take_reference, drop_reference, cache_return,
  fetch_locked, cache_fetch, cache_fetch_w,
}

module _ {A : Type 0} where
  pub load-set :
      (xs : List A) (i : ℕ) {a : A} (b : A) → load xs i ≡ ok a → load (set xs i b) i ≡ ok b
  load-set [] i b h = cc
  load-set (x ∷ xs) zero b h = refl
  load-set (x ∷ xs) (suc i) b h = load-set xs i b h

  pub store-load :
      (xs : List A) (i : ℕ) {a : A} (b : A) → load xs i ≡ ok a → store xs i b ≡ ok (set xs i b)
  store-load [] i b h = cc
  store-load (x ∷ xs) zero b h = refl
  store-load (x ∷ xs) (suc i) b h = rw (store-load xs i b h)

  pub set-set : (xs : List A) (i : ℕ) (a b : A) → set (set xs i a) i b ≡ set xs i b
  set-set [] i a b = refl
  set-set (x ∷ xs) zero a b = refl
  set-set (x ∷ xs) (suc i) a b = ap (◌∷◌ x) (set-set xs i a b)

  set-load : (xs : List A) (i : ℕ) {a : A} → load xs i ≡ ok a → set xs i a ≡ xs
  set-load [] i h = refl
  set-load (x ∷ xs) zero h = cc
  set-load (x ∷ xs) (suc i) h = ap (◌∷◌ x) (set-load xs i h)

if_false : {A : Type 0} {b : Bool} (x y : A) → b ≡ false → (if b then x else y) ≡ y
if_false x y e = rw e refl

pub at_slot_lem :
    (p : ℕ) (f : Slot → Outcome Slot) (heap : List Slot) {s s' : Slot}
    → load heap p ≡ ok s
    → s.freed ≡ false
    → f s ≡ ok s'
    → at_slot p f heap ≡ ok (set heap p s')
unfolding at_slot
at_slot_lem p f heap {s} {s'} at_p live e =
    rw at_p (if_false _ _ live ∙ ap (λ r. r >>= λ t. store heap p t) e ∙ store-load heap p s' at_p)

-- The slot of d with n references and r readers.
abbrev pub reading : SkyeDirectory → Bool → ℕ → ℕ → Slot
reading d listed n r = record {
  dir = record d { refcount = n; rwlock = record { readers = r; writer = false } };
  listed = listed;
  freed = false;
}

abbrev pub writing : SkyeDirectory → Bool → ℕ → Slot
writing d listed n = record {
  dir = record d { refcount = n; rwlock = record { readers = 0; writer = true } };
  listed = listed;
  freed = false;
}

pub reading-idle :
    (s : Slot)
    → s.freed ≡ false
    → s.dir.rwlock.writer ≡ false
    → s ≡ reading s.dir s.listed s.dir.refcount s.dir.rwlock.readers
reading-idle s live free = λ i. record {
  dir = record s.dir { rwlock = record { readers = s.dir.rwlock.readers; writer = free i } };
  listed = s.listed;
  freed = live i;
}

module _ (d : SkyeDirectory) (listed : Bool) (n : ℕ) where
  released : Slot → Outcome Slot
  released s = unlock s >>= λ t. assert (ltb 0 t.dir.refcount) >> drop_reference t

  dropped :
      (r : ℕ) → 0 < n → drop_reference (reading d listed (n + 1) r) ≡ ok (reading d listed n r)
  unfolding drop_reference
  dropped r h =
      let e : n + 1 - 1 ≡ n = omega arith in
      let f : (n == 0) ≡ false = ground arith in rw (e, f) refl

  unlock-reading : (r : ℕ) → unlock (reading d listed n (r + 1)) ≡ ok (reading d listed n r)
  unfolding unlock
  unlock-reading r =
      let e : r + 1 - 1 ≡ r = omega arith in rw (lt→ltb 0 (r + 1) (omega arith), e) refl

  released-reading :
      (r : ℕ) → 0 < n → released (reading d listed (n + 1) (r + 1)) ≡ ok (reading d listed n r)
  unfolding released unlock
  released-reading r h =
      let e : r + 1 - 1 ≡ r = omega arith in
      rw (lt→ltb 0 (r + 1) (omega arith), e, lt→ltb 0 (n + 1) (omega arith)) (dropped r h)

  released-writing : 0 < n → released (writing d listed (n + 1)) ≡ ok (reading d listed n 0)
  unfolding released unlock
  released-writing h = rw (lt→ltb 0 (n + 1) (omega arith)) (dropped 0 h)

module _ {W : Type 0} (readdir : ObjectRef → ℕ → ℕ → W → Option (List (List ℕ)) × W)
    (sscanf_index : List ℕ → Option ℕ) (memory lockable : Bool) (mds servercount rounds : ℕ)
    (handle : ObjectRef) (heap : List Slot) (w : W) (p : ℕ)
    (in_table : hash_find 0 handle heap ≡ some p) where
  balance :
      (lock : Slot → Outcome Slot) (d : SkyeDirectory) (listed : Bool) (n r : ℕ) (locked : Slot)
      → load heap p ≡ ok (reading d listed n r)
      → lock (reading d listed (n + 1) r) ≡ ok locked
      → locked.freed ≡ false
      → released d listed n locked ≡ ok (reading d listed n r)
      → (heap' : List Slot) × (fetch_locked readdir sscanf_index memory lockable mds servercount
            rounds lock handle heap w
          ≡ ok (some p, heap', w))
        × (cache_return p heap' ≡ ok heap)
  unfolding fetch_locked cache_return released take_reference
  balance lock d listed n r locked at_p takes live gives =
      let counted = reading d listed (n + 1) r in
      let heap1 = set heap p counted in
      let at_p1 = load-set heap p counted at_p in
      let heap2 = set heap1 p locked in
      let at_p2 = load-set heap1 p locked at_p1 in
      (
        heap2,
        rw
            (
              in_table,
              at_slot_lem p take_reference heap {s' = counted} at_p refl refl,
              at_slot_lem p lock heap1 {s' = locked} at_p1 refl takes,
            )
            refl,
        at_slot_lem p _ heap2 at_p2 live gives
            ∙ ap ok (
                set-set heap1 p locked (reading d listed n r)
                ∙ set-set heap p counted (reading d listed n r)
                ∙ set-load heap p at_p),
      )

  -- The memory while a reader has the directory.
  pub cache_fetch-reading :
      (d : SkyeDirectory) (listed : Bool) (n r : ℕ)
      → load heap p ≡ ok (reading d listed n r)
      → cache_fetch readdir sscanf_index memory lockable mds servercount rounds handle heap w
        ≡ ok (some p, set heap p (reading d listed (n + 1) (r + 1)), w)
  unfolding cache_fetch fetch_locked take_reference rdlock
  cache_fetch-reading d listed n r at_p =
      let counted = reading d listed (n + 1) r in
      let locked = reading d listed (n + 1) (r + 1) in
      rw
        (
          in_table,
          at_slot_lem p take_reference heap {s' = counted} at_p refl refl,
          at_slot_lem p rdlock (set heap p counted) {s' = locked} (load-set heap p counted at_p)
              refl refl,
          set-set heap p counted locked,
        )
        refl

  -- The memory while a writer has the directory.
  pub cache_fetch_w-writing :
      (d : SkyeDirectory) (listed : Bool) (n : ℕ)
      → load heap p ≡ ok (reading d listed n 0)
      → cache_fetch_w readdir sscanf_index memory lockable mds servercount rounds handle heap w
        ≡ ok (some p, set heap p (writing d listed (n + 1)), w)
  unfolding cache_fetch_w fetch_locked take_reference wrlock
  cache_fetch_w-writing d listed n at_p =
      let counted = reading d listed (n + 1) 0 in
      let locked = writing d listed (n + 1) in
      rw
        (
          in_table,
          at_slot_lem p take_reference heap {s' = counted} at_p refl refl,
          at_slot_lem p wrlock (set heap p counted) {s' = locked} (load-set heap p counted at_p)
              refl refl,
          set-set heap p counted locked,
        )
        refl

  module _ {s : Slot} (at_p : load heap p ≡ ok s) (live : s.freed ≡ false)
      (referenced : 0 < s.dir.refcount) (unwritten : s.dir.rwlock.writer ≡ false) where
    -- If a directory is in the hash table and not freed, has a reference, and no writer,
    -- cache_fetch succeeds, and cache_return then restores the memory as it was before, the
    -- reference count and the lock included.
    pub cache_return-cache_fetch :
        (heap' : List Slot) × (cache_fetch readdir sscanf_index memory lockable mds servercount
            rounds handle heap w
          ≡ ok (some p, heap', w))
        × (cache_return p heap' ≡ ok heap)
    unfolding cache_fetch rdlock
    cache_return-cache_fetch =
        balance rdlock s.dir s.listed s.dir.refcount s.dir.rwlock.readers
          (reading s.dir s.listed (s.dir.refcount + 1) (s.dir.rwlock.readers + 1))
          (at_p ∙ ap ok (reading-idle s live unwritten)) refl refl
          (released-reading s.dir s.listed s.dir.refcount s.dir.rwlock.readers referenced)

    -- If a directory is in the hash table and not freed, has a reference, and neither a writer
    -- nor a reader, cache_fetch_w succeeds, and cache_return then restores the memory as it was
    -- before, the reference count and the lock included.
    pub cache_return-cache_fetch_w :
        s.dir.rwlock.readers ≡ 0
        → (heap' : List Slot) × (cache_fetch_w readdir sscanf_index memory lockable mds servercount
              rounds handle heap w
            ≡ ok (some p, heap', w))
          × (cache_return p heap' ≡ ok heap)
    unfolding cache_fetch_w wrlock
    cache_return-cache_fetch_w unread =
        balance wrlock s.dir s.listed s.dir.refcount 0 (writing s.dir s.listed (s.dir.refcount + 1))
          (at_p
            ∙ ap ok (reading-idle s live unwritten)
            ∙ ap (λ r. ok (reading s.dir s.listed s.dir.refcount r)) unread)
          refl refl (released-writing s.dir s.listed s.dir.refcount referenced)

pub cache_return-reading :
    (d : SkyeDirectory) (listed : Bool) (n r p : ℕ) (heap : List Slot)
    → 0 < n
    → load heap p ≡ ok (reading d listed (n + 1) (r + 1))
    → cache_return p heap ≡ ok (set heap p (reading d listed n r))
unfolding cache_return released
cache_return-reading d listed n r p heap h at_p =
    at_slot_lem p _ heap at_p refl (released-reading d listed n r h)

pub cache_return-writing :
    (d : SkyeDirectory) (listed : Bool) (n p : ℕ) (heap : List Slot)
    → 0 < n
    → load heap p ≡ ok (writing d listed (n + 1))
    → cache_return p heap ≡ ok (set heap p (reading d listed n 0))
unfolding cache_return released
cache_return-writing d listed n p heap h at_p =
    at_slot_lem p _ heap at_p refl (released-writing d listed n h)
