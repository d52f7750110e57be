-- ===== src/System/Creating.antt =====
-- server/handlers.c: a create at a server that has the directory in memory.
use skyefs.Prelude.{
  ℕ, ◌+◌, ◌*◌, ◌^◌, ◌<◌, ◌≡◌, ◌≢◌, refl, ap, ◌∙◌, arith, true, false, Bool-cases, inl, inr, ◌==◌,
  ==_iff, if◌then◌else◌, List, none, ok,
}
use skyefs.Rpc.{ObjectRef, SkyeLookup, Credentials, ref, enoent, eio}
use skyefs.Giga.Tree.{Partitions}
use skyefs.Giga.Mapping.{GigaMapping, giga_get_server_for_index}
use skyefs.Giga.Mapping.Invariant.{partitions, IsUsable}
use skyefs.Giga.Index.{giga_get_index_for_file, giga_get_server_for_file}
use skyefs.Server.Directory.{SkyeDirectory, Pvfs, at_ref, pvfs_error}
use skyefs.Server.Bucket.{bucket, enter_bucket}
use skyefs.Server.Bucket.Entering.{enter_bucket-redirect}
use skyefs.Server.Queue.{SplitQueue}
use skyefs.Server.Handlers.{ServerState, Setup}
use skyefs.Server.Handlers.Procedures.{split_check, create_body, skye_rpc_create}
use skyefs.Server.Handlers.Balance.{serve-balance, held}
use skyefs.System.{Files, IsStore, IsCreating, IsHandles, Holds, with_file}
use skyefs.System.Entering.{enter_here}
use skyefs.System.Serving.{Holds-after}
use skyefs.System.Checking.{giga_is_splittable-returns, split_check-returns}

module _ {V : Type 0} (shahash : List ℕ → List ℕ) (setup : Setup) (pvfs : Pvfs V)
    (creds : Credentials) (parent : ObjectRef) (name : List ℕ) (mode : ℕ) (dir : SkyeDirectory)
    (st : ServerState V) where
  create_away :
      {t : ℕ}
      → giga_get_server_for_file shahash dir.mapping name ≡ ok t
      → t ≢ setup.servernum
      → create_body shahash setup pvfs creds parent name mode dir st
        ≡ ok (SkyeLookup.bitmap dir.mapping, dir, st)
  unfolding create_body
  create_away there other =
      rw
        (enter_bucket-redirect shahash setup.servernum pvfs creds dir name parent st.world there
          other)
        refl

  create_here :
      {b object : ObjectRef} {d' : SkyeDirectory} {w : V} {after : ServerState V}
      → enter_bucket shahash setup.servernum pvfs creds dir name parent st.world
        ≡ ok (bucket b, d', w)
      → (pvfs.sys_create creds b name mode w).0 ≡ at_ref object
      → split_check shahash setup pvfs creds b name d'
          (record st { world = (pvfs.sys_create creds b name mode w).1 })
        ≡ ok after
      → create_body shahash setup pvfs creds parent name mode dir st ≡ ok (ref object, d', after)
  unfolding create_body
  create_here entered_at new checked = rw (entered_at, new, checked) refl

-- The reply to a create of a name that is not there.
abbrev pub made : ℕ → ℕ → GigaMapping → ObjectRef → SkyeLookup
made s t m object = if t == s then ref object else SkyeLookup.bitmap m

-- The files then.
abbrev pub grown : ℕ → ℕ → Files → ℕ → List ℕ → ObjectRef → Files
grown s t files r name object = if t == s then with_file files r name object else files

module _ {V : Type 0} (shahash : List ℕ → List ℕ) (setup : Setup) {pvfs : Pvfs V}
    {parent : ObjectRef} {all : Partitions} {bucket_of : ℕ → ℕ} {contents : V → Files}
    (store_of : IsStore pvfs parent all bucket_of contents)
    (creating : IsCreating pvfs parent all bucket_of contents) {m : GigaMapping}
    (memory : setup.memory ≡ true) (v : IsUsable m)
    (few : (i : ℕ) → all i ≡ true → i < 2 * m.server_count)
    (small : (i : ℕ) → partitions m i ≡ true → i < 512)
    (narrow : (i : ℕ) → all i ≡ true → i + m.zeroth_server < 2 ^ 32) (creds : Credentials)
    (name : List ℕ) (mode : ℕ) {r t : ℕ} (index_at : giga_get_index_for_file shahash m name ≡ ok r)
    (member : partitions m r ≡ true) (seen : all r ≡ true)
    (at_t : giga_get_server_for_index m r ≡ ok t) where
  -- The reply, and what the server has then.
  record Created (before : V) (a : SkyeLookup) (handles : List ℕ) (queue : SplitQueue) (w : V)
      : Type 0 where
    object : ObjectRef
    reply : a ≡ made setup.servernum t m object
    files : contents w ≡ grown setup.servernum t (contents before) r name object
    right : IsHandles all bucket_of m setup.servernum handles
    unlocked : queue.locked ≡ false

  create_body_lem :
      (dir : SkyeDirectory) (st : ServerState V)
      → (t ≡ setup.servernum → contents st.world r name ≡ pvfs_error enoent)
      → st.queue.locked ≡ false
      → dir.mapping ≡ m
      → dir.handle ≡ parent
      → dir.splitting_index ≡ none
      → IsHandles all bucket_of m setup.servernum dir.partition_handles
      → (a : SkyeLookup) × (d' : SkyeDirectory) × (after : ServerState V) × (create_body shahash
            setup pvfs creds parent name mode dir st
          ≡ ok (a, d', after))
        × Created st.world a d'.partition_handles after.queue after.world
        × (after.heap ≡ st.heap)
        × (after.flow ≡ st.flow)
  unfolding giga_get_server_for_file
  create_body_lem dir st absent free is_table is_own whole h =
      elim (Bool-cases (t == setup.servernum)) [
        | inr other ↦ (
          SkyeLookup.bitmap dir.mapping,
          dir,
          st,
          create_away shahash setup pvfs creds parent name mode dir st {t = t}
              (rw (is_table, index_at) at_t) (λ same. ground (arith, other, same)),
          record {
            object = parent;
            reply = rw (other, is_table) refl;
            files = rw other refl;
            right = h;
            unlocked = free;
          },
          refl,
          refl,
        )
        | inl mine ↦
            let (handles, w, entered_at, h', same) =
              enter_here shahash setup store_of v.served few narrow creds name index_at seen at_t
                dir st.world mine is_table is_own whole h in
            let b = record parent { handle = bucket_of r } in
            let empty : contents w r name ≡ pvfs_error enoent =
              ap (λ (f : Files). f r name) same ∙ absent ((==_iff t setup.servernum).0 mine) in
            let object = creating.new creds r name mode w in
            let (more, splittable) = giga_is_splittable-returns v r member small in
            let (after, checked, is_checked) =
              split_check-returns shahash setup pvfs creating.counted creds b name
                (record dir { partition_handles = handles })
                (record st { world = (pvfs.sys_create creds b name mode w).1 }) {r = r} {yes = more}
                memory whole (rw is_table index_at) (rw is_table splittable) free in
            (
              ref object,
              record dir { partition_handles = handles },
              after,
              create_here shahash setup pvfs creds parent name mode dir st entered_at
                  (creating.created creds r name mode w seen empty) checked,
              record {
                object = object;
                reply = rw mine refl;
                files =
                    is_checked.files
                    ∙ creating.added creds r name mode w seen empty
                    ∙ ap (λ (f : Files). with_file f r name object) same
                    ∙ rw mine refl;
                right = h';
                unlocked = is_checked.unlocked;
              },
              is_checked.heap,
              is_checked.flow,
            )
      ]

  pub record IsCreated (st after : ServerState V) : Type 0 where
    pub object : ObjectRef
    pub ran :
        skye_rpc_create shahash setup pvfs creds parent name mode st
        ≡ ok (made setup.servernum t m object, after)
    pub files : contents after.world ≡ grown setup.servernum t (contents st.world) r name object
    pub holds : Holds parent all bucket_of m setup.servernum after.heap after.queue

  -- A create at a server that has the directory in memory, of a name that is not there.
  pub skye_rpc_create_lem :
      (st : ServerState V)
      → (t ≡ setup.servernum → contents st.world r name ≡ pvfs_error enoent)
      → Holds parent all bucket_of m setup.servernum st.heap st.queue
      → (after : ServerState V) × IsCreated st after
  unfolding skye_rpc_create
  skye_rpc_create_lem st absent h =
      let slot = h.slot in
      let (a, after, handles, ran, is, heap, flow) =
        serve-balance setup pvfs false (SkyeLookup.errno eio) parent
          (create_body shahash setup pvfs creds parent name mode) (Created st.world) st h.place
          h.in_table h.stored h.live h.referenced h.unwritten
          (λ heap flow.
            create_body_lem (held slot).dir (record st { heap = heap; flow = flow }) absent
              h.unlocked h.table h.own h.whole h.handles) in
      (
        after,
        record {
          object = is.object;
          ran = ran ∙ ap (λ x. ok (x, after)) is.reply;
          files = is.files;
          holds = Holds-after h handles heap is.right is.unlocked;
        },
      )
