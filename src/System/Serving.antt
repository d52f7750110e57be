-- ===== src/System/Serving.antt =====
-- server/handlers.c: a lookup at a server that has the directory in memory.
use skyefs.Prelude.{
  ℕ, zero, suc, ◌+◌, ◌*◌, ◌^◌, ◌<◌, ◌≡◌, refl, ap, sym, ◌∙◌, arith, true, false, Bool-cases, inl,
  inr, ◌==◌, ==_iff, if◌then◌else◌, List, [], ◌∷◌, set, none, ok, load,
}
use mathlib.Core.Path.{subst}
use skyefs.Rpc.{ObjectRef, SkyeLookup, Credentials, eio}
use skyefs.Giga.Tree.{Partitions}
use skyefs.Giga.Mapping.{GigaMapping, giga_get_server_for_index}
use skyefs.Giga.Index.{giga_get_index_for_file}
use skyefs.Server.Directory.{SkyeDirectory, Pvfs}
use skyefs.Server.Bucket.{is_splitting, get_partition_handle}
use skyefs.Server.Cache.{Slot, hash_find}
use skyefs.Server.Cache.Balance.{load-set}
use skyefs.Server.Handlers.{ServerState, Setup}
use skyefs.Server.Handlers.Procedures.{lookup_result, lookup_body, skye_rpc_lookup}
use skyefs.Server.Handlers.Balance.{serve-balance, held, with_handles}
use skyefs.Server.Queue.{SplitQueue}
use skyefs.System.{Files, IsStore, IsHandles, Holds}
use skyefs.System.Handles.{get_partition_handle_lem}

-- Another slot in the place of one with the same key.
hash_find-set :
    (q : ℕ) (handle : ObjectRef) (heap : List Slot) (p : ℕ) (t : Slot) {s : Slot}
    → load heap p ≡ ok s
    → t.listed ≡ s.listed
    → t.dir.handle ≡ s.dir.handle
    → hash_find q handle (set heap p t) ≡ hash_find q handle heap
unfolding hash_find
hash_find-set q handle [] p t at_p same own = refl
hash_find-set q handle (x ∷ heap) zero t {s} at_p same own =
    let e : x ≡ s = cc in rw (same, own, ← e) refl
hash_find-set q handle (x ∷ heap) (suc p) t at_p same own =
    rw (hash_find, hash_find-set (q + 1) handle heap p t at_p same own) refl

-- The memory after a procedure that left other handles.
pub Holds-after :
    {parent : ObjectRef} {all : Partitions} {bucket_of : ℕ → ℕ} {m : GigaMapping} {s : ℕ}
    {heap after : List Slot} {queue later : SplitQueue}
    (h : Holds parent all bucket_of m s heap queue) (handles : List ℕ)
    → after ≡ set heap h.place (with_handles h.slot handles)
    → IsHandles all bucket_of m s handles
    → later.locked ≡ false
    → Holds parent all bucket_of m s after later
Holds-after {parent} {all} {bucket_of} {m} {s} {heap} {later = later} h handles e right unlocked =
    subst (λ heap. Holds parent all bucket_of m s heap later) (sym e)
      (record {
        place = h.place;
        slot = with_handles h.slot handles;
        in_table =
            hash_find-set 0 parent heap h.place (with_handles h.slot handles) h.stored refl refl
            ∙ h.in_table;
        stored = load-set heap h.place (with_handles h.slot handles) h.stored;
        live = h.live;
        referenced = h.referenced;
        unwritten = h.unwritten;
        whole = h.whole;
        own = h.own;
        table = h.table;
        handles = right;
        unlocked = unlocked;
      })

-- The file in the partition where the table puts the name, or the table if this is on another server.
abbrev pub expected : ℕ → Files → GigaMapping → List ℕ → ℕ → ℕ → SkyeLookup
expected servernum files m name r t =
    if t == servernum then lookup_result (files r name) else SkyeLookup.bitmap m

-- The reply to a lookup, and what the server has then.
abbrev Looked :
    {V : Type 0}
    → Partitions
    → (ℕ → ℕ)
    → (V → Files)
    → GigaMapping
    → ℕ
    → List ℕ
    → ℕ
    → ℕ
    → ServerState V
    → SkyeLookup
    → List ℕ
    → SplitQueue
    → V
    → Type 0
Looked all bucket_of contents m servernum name r t st a handles queue w =
    (a ≡ expected servernum (contents st.world) m name r t)
    × IsHandles all bucket_of m servernum handles
    × (queue ≡ st.queue)
    × (contents w ≡ contents st.world)

module _ {V : Type 0} (shahash : List ℕ → List ℕ) (setup : Setup) (pvfs : Pvfs V)
    (creds : Credentials) (parent : ObjectRef) (name : List ℕ) (dir : SkyeDirectory)
    (st : ServerState V) (r t : ℕ)
    (index_at : giga_get_index_for_file shahash dir.mapping name ≡ ok r)
    (at_t : giga_get_server_for_index dir.mapping r ≡ ok t) where
  lookup_away :
      (t == setup.servernum) ≡ false
      → lookup_body shahash setup pvfs creds parent name dir st
        ≡ ok (SkyeLookup.bitmap dir.mapping, dir, st)
  unfolding lookup_body
  lookup_away other = rw (index_at, at_t, other) refl

  lookup_here :
      {h : ℕ} {d' : SkyeDirectory} {w : V}
      → (t == setup.servernum) ≡ true
      → get_partition_handle shahash setup.servernum pvfs creds dir r st.world ≡ ok (h, d', w)
      → dir.splitting_index ≡ none
      → lookup_body shahash setup pvfs creds parent name dir st
        ≡ ok (
          lookup_result (pvfs.ref_lookup creds (record parent { handle = h }) name w).0,
          d',
          record st { world = (pvfs.ref_lookup creds (record parent { handle = h }) name w).1 },
        )
  unfolding lookup_body is_splitting
  lookup_here mine got whole = rw (index_at, at_t, mine, got, whole) (ground arith)

module _ {V : Type 0} (shahash : List ℕ → List ℕ) (setup : Setup) {pvfs : Pvfs V}
    {parent : ObjectRef} {all : Partitions} {bucket_of : ℕ → ℕ} {contents : V → Files}
    (store_of : IsStore pvfs parent all bucket_of contents) {m : GigaMapping}
    (served : 0 < m.server_count) (few : (i : ℕ) → all i ≡ true → i < 2 * m.server_count)
    (narrow : (i : ℕ) → all i ≡ true → i + m.zeroth_server < 2 ^ 32) (creds : Credentials)
    (name : List ℕ) {r t : ℕ} (index_at : giga_get_index_for_file shahash m name ≡ ok r)
    (seen : all r ≡ true) (at_t : giga_get_server_for_index m r ≡ ok t) where
  lookup_body_lem :
      (dir : SkyeDirectory) (st : ServerState V)
      → dir.mapping ≡ m
      → dir.handle ≡ parent
      → dir.splitting_index ≡ none
      → IsHandles all bucket_of m setup.servernum dir.partition_handles
      → (a : SkyeLookup) × (d' : SkyeDirectory) × (after : ServerState V) × (lookup_body shahash
            setup pvfs creds parent name dir st
          ≡ ok (a, d', after))
        × Looked all bucket_of contents m setup.servernum name r t st a d'.partition_handles
            after.queue after.world
        × (after.heap ≡ st.heap)
        × (after.flow ≡ st.flow)
  unfolding lookup_body is_splitting
  lookup_body_lem dir st is_table is_own whole h = elim (Bool-cases (t == setup.servernum)) [
    | inr other ↦ (
      SkyeLookup.bitmap m,
      dir,
      st,
      lookup_away shahash setup pvfs creds parent name dir st r t (rw is_table index_at)
            (rw is_table at_t) other
          ∙ ap (λ x. ok (SkyeLookup.bitmap x, dir, st)) is_table,
      (rw other refl, h, refl, refl),
      refl,
      refl,
    )
    | inl mine ↦
        let e = (==_iff t setup.servernum).0 mine in
        let (handles, w', got, h', same) =
          get_partition_handle_lem served few narrow shahash setup.servernum pvfs store_of creds dir
            r st.world is_table is_own h seen (at_t ∙ ap ok e) in
        let w2 = (pvfs.ref_lookup creds (record parent { handle = bucket_of r }) name w').1 in
        (
          lookup_result (contents st.world r name),
          record dir { partition_handles = handles },
          record st { world = w2 },
          lookup_here shahash setup pvfs creds parent name dir st r t (rw is_table index_at)
                (rw is_table at_t) mine got whole
              ∙ ap
                  (λ x. ok (
                    lookup_result x,
                    record dir { partition_handles = handles },
                    record st { world = w2 },
                  ))
                  (store_of.file_found creds r name w' seen ∙ ap (λ (f : Files). f r name) same),
          (rw mine refl, h', refl, store_of.file_kept creds r name w' ∙ same),
          refl,
          refl,
        )
  ]

  -- A lookup at a server that has the directory in memory returns, and the server has it as before.
  pub skye_rpc_lookup_lem :
      (st : ServerState V)
      → Holds parent all bucket_of m setup.servernum st.heap st.queue
      → (after : ServerState V) × (skye_rpc_lookup shahash setup pvfs creds parent name st
          ≡ ok (expected setup.servernum (contents st.world) m name r t, after))
        × Holds parent all bucket_of m setup.servernum after.heap after.queue
        × (contents after.world ≡ contents st.world)
  unfolding skye_rpc_lookup
  skye_rpc_lookup_lem st h =
      let slot = h.slot in
      let (a, after, handles, ran, (reply, right, queue, files), heap, flow) =
        serve-balance setup pvfs false (SkyeLookup.errno eio) parent
          (lookup_body shahash setup pvfs creds parent name)
          (Looked all bucket_of contents m setup.servernum name r t st) st h.place h.in_table
          h.stored h.live h.referenced h.unwritten
          (λ heap flow.
            lookup_body_lem (held slot).dir (record st { heap = heap; flow = flow }) h.table h.own
              h.whole h.handles) in
      (
        after,
        ran ∙ ap (λ x. ok (x, after)) reply,
        Holds-after h handles heap right (ap (λ (q : SplitQueue). q.locked) queue ∙ h.unlocked),
        files,
      )
