-- ===== src/System/Entering.antt =====
-- server/handlers.c: enter_bucket on the server where the table puts the name.
use skyefs.Prelude.{ℕ, ◌+◌, ◌*◌, ◌^◌, ◌<◌, ◌≡◌, refl, ap, ◌∙◌, true, ◌==◌, ==_iff, List, none, ok}
use skyefs.Rpc.{ObjectRef, Credentials}
use skyefs.Giga.Tree.{Partitions}
use skyefs.Giga.Mapping.{GigaMapping, giga_get_server_for_index}
use skyefs.Giga.Index.{giga_get_index_for_file}
use skyefs.Server.Directory.{SkyeDirectory, Pvfs}
use skyefs.Server.Bucket.{bucket, is_splitting, enter_bucket, get_partition_handle}
use skyefs.Server.Handlers.{Setup}
use skyefs.System.{Files, IsStore, IsHandles}
use skyefs.System.Handles.{get_partition_handle_lem}

enter_ran :
    {V : Type 0} (shahash : List ℕ → List ℕ) (servernum : ℕ) (pvfs : Pvfs V) (creds : Credentials)
    (parent : ObjectRef) (name : List ℕ) (dir : SkyeDirectory) (w : V) {r t h : ℕ}
    {d' : SkyeDirectory} {w' : V}
    → giga_get_index_for_file shahash dir.mapping name ≡ ok r
    → giga_get_server_for_index dir.mapping r ≡ ok t
    → (t == servernum) ≡ true
    → get_partition_handle shahash servernum pvfs creds dir r w ≡ ok (h, d', w')
    → dir.splitting_index ≡ none
    → enter_bucket shahash servernum pvfs creds dir name parent w
      ≡ ok (bucket (record { handle = h; fs_id = dir.handle.fs_id }), d', w')
unfolding enter_bucket is_splitting
enter_ran shahash servernum pvfs creds parent name dir w index_at at_t mine got whole =
    rw (index_at, at_t, mine, got, whole) refl

module _ {V : Type 0} (shahash : List ℕ → List ℕ) (setup : Setup) {pvfs : Pvfs V}
    {parent : ObjectRef} {all : Partitions} {bucket_of : ℕ → ℕ} {contents : V → Files}
    (store_of : IsStore pvfs parent all bucket_of contents) {m : GigaMapping}
    (served : 0 < m.server_count) (few : (i : ℕ) → all i ≡ true → i < 2 * m.server_count)
    (narrow : (i : ℕ) → all i ≡ true → i + m.zeroth_server < 2 ^ 32) (creds : Credentials)
    (name : List ℕ) {r t : ℕ} (index_at : giga_get_index_for_file shahash m name ≡ ok r)
    (seen : all r ≡ true) (at_t : giga_get_server_for_index m r ≡ ok t) where
  pub enter_here :
      (dir : SkyeDirectory) (w : V)
      → (t == setup.servernum) ≡ true
      → dir.mapping ≡ m
      → dir.handle ≡ parent
      → dir.splitting_index ≡ none
      → IsHandles all bucket_of m setup.servernum dir.partition_handles
      → (handles : List ℕ) × (w' : V) × (enter_bucket shahash setup.servernum pvfs creds dir name
            parent w
          ≡ ok (
            bucket (record parent { handle = bucket_of r }),
            record dir { partition_handles = handles },
            w',
          ))
        × IsHandles all bucket_of m setup.servernum handles
        × (contents w' ≡ contents w)
  enter_here dir w mine is_table is_own whole h =
      let e = (==_iff t setup.servernum).0 mine in
      let (handles, w', got, h', same) =
        get_partition_handle_lem served few narrow shahash setup.servernum pvfs store_of creds dir r
          w is_table is_own h seen (at_t ∙ ap ok e) in
      (
        handles,
        w',
        enter_ran shahash setup.servernum pvfs creds parent name dir w (rw is_table index_at)
              (rw is_table at_t) mine got whole
            ∙ ap
                (λ (p : ObjectRef). ok (
                  bucket (record p { handle = bucket_of r }),
                  record dir { partition_handles = handles },
                  w',
                ))
                is_own,
        h',
        same,
      )
