-- ===== src/Server/Handlers.antt =====
-- server/handlers.c: the procedures of the server. Each takes a slot of `flow_sem` and works in
-- the directory under its lock.
pub mod Procedures
pub mod Balance
pub mod BucketAdd
pub mod Remove
pub mod Removing
pub mod Clearing
use skyefs.Prelude.{
  ℕ, ◌+◌, ◌-◌, List, Bool, true, false, ltb, if◌then◌else◌, Option, none, some, Outcome, ok, fault,
  out_of_bounds, load, ◌>>=◌,
}
use skyefs.Rpc.{ObjectRef, SkyeLookup, SkyeResult, Credentials, errno, eio, enomem}
use skyefs.Giga.Mapping.{giga_update_mapping, giga_update_mapping_remove}
use skyefs.Server.Directory.{SkyeDirectory, Pvfs}
use skyefs.Server.Cache.{Slot, at_slot, cache_fetch, cache_fetch_w, cache_return}
use skyefs.Server.Queue.{SplitQueue}

-- `flow` is the value of `flow_sem`; `create_count` is the static counter of the create procedure.
pub record ServerState (W : Type 0) : Type 0 where
  pub heap : List Slot
  pub flow : ℕ
  pub create_count : ℕ
  pub queue : SplitQueue
  pub world : W

-- sem_timedwait: a slot, or a timeout, after which the procedure goes on without one.
unfoldable pub flow_start : ℕ → Bool × ℕ
flow_start n = if ltb 0 n then (true, n - 1) else (false, n)

unfoldable pub flow_stop : Bool → ℕ → ℕ
flow_stop start_ret n = if start_ret then n + 1 else n

-- How a server is set up: its number, the number of servers, whether malloc and pthread_rwlock_init
-- succeed, and the rounds given to the loops that ask PVFS.
pub record Setup : Type 0 where
  pub servernum : ℕ
  pub servercount : ℕ
  pub memory : Bool
  pub lockable : Bool
  pub rounds : ℕ

module _ {W : Type 0} (setup : Setup) (pvfs : Pvfs W) where
  open setup use {servercount, memory, lockable, rounds}
  open pvfs use {readdir, get_mds, sscanf_index, sys_remove, partition_name}

  -- The handle array is what a procedure changes in the directory.
  unfoldable pub keep_handles : SkyeDirectory → Slot → Outcome Slot
  keep_handles dir s =
      ok (record s { dir = record s.dir { partition_handles = dir.partition_handles } })

  -- The frame of the procedures. `stops` is whether flow_stop is called if there is no directory,
  -- and `missing` the reply then.
  unfoldable pub serve :
      {A : Type 0}
      → Bool
      → A
      → ObjectRef
      → (SkyeDirectory → ServerState W → Outcome (A × SkyeDirectory × ServerState W))
      → ServerState W
      → Outcome (A × ServerState W)
  unfolding cache_fetch cache_return at_slot keep_handles flow_start flow_stop
  serve stops missing parent body st =
      let (flow, n) = flow_start st.flow in
      cache_fetch readdir sscanf_index memory lockable (get_mds parent) servercount rounds parent
        st.heap st.world
      >>= λ r. elim r.0 [
        | none ↦ ok (
          missing,
          record st { heap = r.1; flow = if stops then flow_stop flow n else n; world = r.2 },
        )
        | some p ↦ load r.1 p >>= λ s.
            body s.dir (record st { heap = r.1; flow = n; world = r.2 }) >>= λ b.
            at_slot p (keep_handles b.1) b.2.heap >>= λ heap. cache_return p heap >>= λ heap'.
            ok (b.0, record b.2 { heap = heap'; flow = flow_stop flow b.2.flow })
      ]

  -- The directory is used without a test whether there is one.
  unfoldable pub skye_rpc_bucket_add : ObjectRef → ℕ → ServerState W → Outcome (ServerState W)
  unfolding cache_fetch_w cache_return at_slot giga_update_mapping
  skye_rpc_bucket_add handle index st =
      cache_fetch_w readdir sscanf_index memory lockable (get_mds handle) servercount rounds handle
        st.heap st.world
      >>= λ r. elim r.0 [
        | none ↦ fault out_of_bounds
        | some p ↦
            at_slot p
              (λ s. giga_update_mapping s.dir.mapping index >>= λ mapping.
                ok (record s { dir = record s.dir { mapping = mapping } }))
              r.1
            >>= λ heap.
                cache_return p heap >>= λ heap'. ok (record st { heap = heap'; world = r.2 })
      ]

  unfoldable pub remove_bucket :
      Credentials → SkyeDirectory → ℕ → W → Outcome (ℕ × SkyeDirectory × W)
  unfolding giga_update_mapping_remove
  remove_bucket creds dir index w =
      let (rc, w') = sys_remove creds (partition_name index) dir.handle w in
      let cleared = giga_update_mapping_remove dir.mapping index in
      if ltb 0 rc
      then ok (rc, dir, w')
      else (cleared >>= λ mapping. ok (0, record dir { mapping = mapping }, w'))

  unfoldable pub skye_rpc_bucket_remove :
      Credentials → ObjectRef → ℕ → ServerState W → Outcome (ℕ × ServerState W)
  unfolding cache_fetch_w cache_return at_slot remove_bucket
  skye_rpc_bucket_remove creds handle index st =
      cache_fetch_w readdir sscanf_index memory lockable (get_mds handle) servercount rounds handle
        st.heap st.world
      >>= λ r. elim r.0 [
        | none ↦ ok (enomem, record st { heap = r.1; world = r.2 })
        | some p ↦ load r.1 p >>= λ s. remove_bucket creds s.dir index r.2 >>= λ b.
            at_slot p (λ t. ok (record t { dir = b.1 })) r.1 >>= λ heap.
            cache_return p heap >>= λ heap'. ok (b.0, record st { heap = heap'; world = b.2 })
      ]
