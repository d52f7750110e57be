-- ===== src/System/Checking.antt =====
-- server/handlers.c: what a server does after a create, that a split may follow.
use skyefs.Prelude.{
  ℕ, ◌+◌, ◌*◌, ◌%◌, ◌^◌, ◌<◌, ◌≡◌, refl, ap, ◌∙◌, arith, true, false, Bool, Bool-cases, inl, inr,
  ◌==◌, ltb, List, Option, none, some, ok, ◌>>=◌,
}
use skyefs.Rpc.{ObjectRef, Credentials}
use skyefs.Giga.Bitmap.{get_radix_from_index}
use skyefs.Giga.Bitmap.Radix.{radix_least}
use skyefs.Giga.Mapping.{GigaMapping}
use skyefs.Giga.Mapping.Invariant.{partitions, IsUsable}
use skyefs.Giga.Child.{IsChoice, giga_index_for_splitting-IsChoice}
use skyefs.Giga.Index.{giga_get_index_for_file, giga_index_for_splitting, giga_is_splittable}
use skyefs.Server.Directory.{SkyeDirectory, Pvfs}
use skyefs.Server.Queue.{isdir_overflow, split_threshold}
use skyefs.Server.Queue.Requests.{perform_split-unlocked}
use skyefs.Server.Handlers.{ServerState, Setup}
use skyefs.Server.Handlers.Procedures.{split_check}
use skyefs.System.{Files}

-- With all partitions below 512 there is a child to make.
pub giga_is_splittable-returns :
    {m : GigaMapping} (v : IsUsable m) (r : ℕ)
    → partitions m r ≡ true
    → ((i : ℕ) → partitions m i ≡ true → i < 512)
    → (b : Bool) × (giga_is_splittable m r ≡ ok b)
unfolding giga_is_splittable
giga_is_splittable-returns {m} v r mem small = chosen (giga_index_for_splitting-IsChoice v r mem)
  where
    chosen :
        IsChoice (partitions m) r (get_radix_from_index r) (giga_index_for_splitting m r)
        → (b : Bool) × ((giga_index_for_splitting m r >>= λ new_index.
              ok (ltb new_index (2 * m.server_count)))
            ≡ ok b)
    chosen (inl (k, le, lt, e, free, below)) = (ltb (r + 2 ^ k) (2 * m.server_count), rw e refl)
    chosen (inr (e, below)) =
        let far = small (r + 2 ^ 9) (below 9 (radix_least r 9 (small r mem)) (omega arith)) in
        absurd (omega arith)

overflow_world :
    {V : Type 0} (o : Option ℕ) (w : V)
    → (elim o as (λ _. Bool × V) [ none ↦ (true, w) | some n ↦ (ltb split_threshold n, w) ]).1 ≡ w
overflow_world none w = refl
overflow_world (some n) w = refl

module _ {V : Type 0} {contents : V → Files} (shahash : List ℕ → List ℕ) (setup : Setup)
    (pvfs : Pvfs V)
    (counted : (creds : Credentials) (b : ObjectRef) (w : V)
      → contents (pvfs.dirent_count creds b w).1 ≡ contents w)
    (creds : Credentials) where
  isdir_overflow-kept :
      (b : ObjectRef) (w : V) → contents (isdir_overflow pvfs creds b w).1 ≡ contents w
  unfolding isdir_overflow
  isdir_overflow-kept b w =
      ap contents (overflow_world (pvfs.dirent_count creds b w).0 (pvfs.dirent_count creds b w).1)
      ∙ counted creds b w

  -- What the split check leaves as it was.
  pub record Checked (st after : ServerState V) : Type 0 where
    pub heap : after.heap ≡ st.heap
    pub flow : after.flow ≡ st.flow
    pub files : contents after.world ≡ contents st.world
    pub unlocked : after.queue.locked ≡ false

  pub split_check-returns :
      (b : ObjectRef) (name : List ℕ) (dir : SkyeDirectory) (st : ServerState V) {r : ℕ}
      {yes : Bool}
      → setup.memory ≡ true
      → dir.splitting_index ≡ none
      → giga_get_index_for_file shahash dir.mapping name ≡ ok r
      → giga_is_splittable dir.mapping r ≡ ok yes
      → st.queue.locked ≡ false
      → (after : ServerState V) × (split_check shahash setup pvfs creds b name dir st ≡ ok after)
        × Checked st after
  unfolding split_check
  split_check-returns b name dir st {r} {yes} mem whole index_at splittable free =
      let st' = record st { create_count = st.create_count + 1 } in
      let full = isdir_overflow pvfs creds b st.world in
      elim (Bool-cases (st.create_count % 100 == 0)) [
        | inr not ↦ (
          st',
          rw (whole, not) refl,
          record { heap = refl; flow = refl; files = refl; unlocked = free },
        )
        | inl due ↦ elim (Bool-cases yes) [
          | inr not ↦ (
            st',
            rw (whole, due, index_at, splittable, not) refl,
            record { heap = refl; flow = refl; files = refl; unlocked = free },
          )
          | inl can ↦ elim (Bool-cases full.0) [
            | inr not ↦ (
              record st' { world = full.1 },
              rw (whole, due, index_at, splittable, can, not) refl,
              record {
                heap = refl;
                flow = refl;
                files = isdir_overflow-kept b st.world;
                unlocked = free;
              },
            )
            | inl over ↦
                let (queue, ran, later) = perform_split-unlocked dir.handle r st.queue free in
                (
                  record st' { queue = queue; world = full.1 },
                  rw (whole, due, index_at, splittable, can, over, mem, ran) refl,
                  record {
                    heap = refl;
                    flow = refl;
                    files = isdir_overflow-kept b st.world;
                    unlocked = later;
                  },
                )
          ]
        ]
      ]
