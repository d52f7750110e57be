-- ===== src/Server/Handlers/Balance.antt =====
-- server/handlers.c: what the frame of the procedures takes and gives back.
use skyefs.Prelude.{
  ℕ, ◌+◌, ◌<◌, ◌≡◌, refl, sym, ap, ◌∙◌, arith, List, set, Bool, false, some, Outcome, ok, load,
}
use skyefs.Rpc.{ObjectRef}
use skyefs.Server.Directory.{SkyeDirectory, Pvfs}
use skyefs.Server.Cache.{Slot, hash_find}
use skyefs.Server.Cache.Balance.{
  reading, reading-idle, load-set, set-set, at_slot_lem, cache_fetch-reading, cache_return-reading,
}
use skyefs.Server.Queue.{SplitQueue}
use skyefs.Server.Handlers.{ServerState, Setup, serve, flow_start, flow_stop, keep_handles}

pub flow_balance : (n : ℕ) → flow_stop (flow_start n).0 (flow_start n).1 ≡ n
unfolding flow_start flow_stop
flow_balance n = ground arith

-- The same slot with other handles of partitions.
abbrev pub with_handles : Slot → List ℕ → Slot
with_handles s handles = record s { dir = record s.dir { partition_handles = handles } }

-- The slot while one more reader has it.
abbrev pub held : Slot → Slot
held s = reading s.dir s.listed (s.dir.refcount + 1) (s.dir.rwlock.readers + 1)

module _ {W A : Type 0} (setup : Setup) (pvfs : Pvfs W) (stops : Bool) (missing : A)
    (parent : ObjectRef)
    (body : SkyeDirectory → ServerState W → Outcome (A × SkyeDirectory × ServerState W))
    (P : A → List ℕ → SplitQueue → W → Type 0) (st : ServerState W) (p : ℕ) {s : Slot} where
  -- If the directory is in the hash table and not freed, has a reference and no writer, and the
  -- body of a procedure, run on the directory as it is then held, returns a reply, handles of
  -- partitions, a queue and a world with some property and leaves memory and flow_sem alone, then
  -- the procedure returns with this property, and the lock, the reference count and flow_sem are
  -- as before; of the directory only the handles of partitions may differ.
  pub serve-balance :
      hash_find 0 parent st.heap ≡ some p
      → load st.heap p ≡ ok s
      → s.freed ≡ false
      → 0 < s.dir.refcount
      → s.dir.rwlock.writer ≡ false
      → ((heap : List Slot) (flow : ℕ)
          → (a : A) × (d' : SkyeDirectory) × (after : ServerState W) × (body
                (held s).dir
                (record st { heap = heap; flow = flow })
              ≡ ok (a, d', after))
            × P a d'.partition_handles after.queue after.world
            × (after.heap ≡ heap)
            × (after.flow ≡ flow))
      → (a : A) × (after : ServerState W) × (handles : List ℕ) × (serve setup pvfs stops missing
            parent body st
          ≡ ok (a, after))
        × P a handles after.queue after.world
        × (after.heap ≡ set st.heap p (with_handles s handles))
        × (after.flow ≡ st.flow)
  unfolding serve keep_handles
  serve-balance in_table at_p live referenced unwritten keeps =
      let n = s.dir.refcount in
      let r = s.dir.rwlock.readers in
      let at_idle = at_p ∙ ap ok (reading-idle s live unwritten) in
      let during = held s in
      let fetched =
        cache_fetch-reading pvfs.readdir pvfs.sscanf_index setup.memory setup.lockable
          (pvfs.get_mds parent) setup.servercount setup.rounds parent st.heap st.world p in_table
          s.dir s.listed n r at_idle in
      let at_held = load-set st.heap p during at_idle in
      let (a, d', after, ran, reply, same_heap, same_flow) =
        keeps (set st.heap p during) (flow_start st.flow).1 in
      let handles = d'.partition_handles in
      let kept = with_handles during handles in
      let idle = reading (record s.dir { partition_handles = handles }) s.listed n r in
      let at_after : load after.heap p ≡ ok during = rw same_heap at_held in
      let stored =
        at_slot_lem p (keep_handles setup pvfs d') after.heap {s' = kept} at_after refl refl in
      let returned =
        cache_return-reading (record s.dir { partition_handles = handles }) s.listed n r p
          (set after.heap p kept) referenced (load-set after.heap p kept at_after) in
      (
        a,
        record after {
          heap = set (set after.heap p kept) p idle;
          flow = flow_stop (flow_start st.flow).0 after.flow;
        },
        handles,
        rw (fetched, at_held, ran, stored, returned) refl,
        reply,
        set-set after.heap p kept idle
            ∙ ap (λ h. set h p idle) same_heap
            ∙ set-set st.heap p during idle
            ∙ ap (set st.heap p) (sym (reading-idle (with_handles s handles) live unwritten)),
        ap (flow_stop (flow_start st.flow).0) same_flow ∙ flow_balance st.flow,
      )
