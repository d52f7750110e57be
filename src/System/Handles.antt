-- ===== src/System/Handles.antt =====
-- server/handlers.c: the handles of partitions that a server keeps in a directory.
use skyefs.Prelude.{
  ℕ, ◌+◌, ◌*◌, ◌/◌, ◌^◌, ◌≤◌, ◌<◌, ◌≡◌, ◌≢◌, ◌⊎◌, refl, ap, sym, ◌∙◌, arith, true, false,
  Bool-cases, inl, inr, ◌==◌, List, length, set, ok, load, length-set, get_elem?-set_ne, found,
}
use native.Mathlib.Decide.{ℕ_discrete}
use skyefs.Rpc.{ObjectRef, Credentials}
use skyefs.Giga.Tree.{Partitions}
use skyefs.Giga.Mapping.{GigaMapping, giga_get_server_for_index, giga_get_bucket_num_for_server}
use skyefs.Giga.Servers.{bucket_num-injective, bucket_num-lt}
use skyefs.Server.Directory.{SkyeDirectory, Pvfs, at_ref}
use skyefs.Server.Cache.Balance.{load-set, store-load}
use skyefs.Server.Bucket.{get_partition_handle, looked_up_handle, grown_handles}
use skyefs.System.{Files, IsStore, IsHandles}

grown_handles-room :
    (b : ℕ) (handles : List ℕ) → b < 2 → 4 ≤ length handles → grown_handles b handles ≡ handles
unfolding grown_handles
grown_handles-room b handles few room = ground arith

load-set_ne : (xs : List ℕ) (i j v : ℕ) → i ≢ j → load (set xs i v) j ≡ load xs j
load-set_ne xs i j v ne = ap found (get_elem?-set_ne xs v ne)

bucket_num :
    (m : GigaMapping)
    → 0 < m.server_count
    → (i : ℕ) → giga_get_bucket_num_for_server m i ≡ ok (i / m.server_count)
unfolding giga_get_bucket_num_for_server
bucket_num m served i = ground arith

ok-injective : {A : Type 0} {a b : A} → ok a ≡ ok b → a ≡ b
ok-injective e = cc

-- The two ways of get_partition_handle, from memory and from PVFS.
module _ {V : Type 0} (shahash : List ℕ → List ℕ) (servernum : ℕ) (pvfs : Pvfs V)
    (creds : Credentials) (dir : SkyeDirectory) (i b x : ℕ) (w : V)
    (num : giga_get_bucket_num_for_server dir.mapping i ≡ ok b)
    (grown : grown_handles b dir.partition_handles ≡ dir.partition_handles)
    (loaded : load dir.partition_handles b ≡ ok x) where
  get_cached :
      (x == 0) ≡ false → get_partition_handle shahash servernum pvfs creds dir i w ≡ ok (x, dir, w)
  unfolding get_partition_handle
  get_cached known = rw (get_partition_handle, num, grown, loaded, known) refl

  get_new :
      (r : ObjectRef)
      → (x == 0) ≡ true
      → (pvfs.ref_lookup creds dir.handle (pvfs.partition_name i) w).0 ≡ at_ref r
      → get_partition_handle shahash servernum pvfs creds dir i w
        ≡ ok (
          r.handle,
          record dir { partition_handles = set dir.partition_handles b r.handle },
          (pvfs.ref_lookup creds dir.handle (pvfs.partition_name i) w).1,
        )
  unfolding get_partition_handle looked_up_handle
  get_new r unknown answer =
      rw (get_partition_handle, num, grown, loaded, unknown)
        (ap
            (λ y.
              looked_up_handle shahash servernum pvfs b dir
                (y, (pvfs.ref_lookup creds dir.handle (pvfs.partition_name i) w).1))
            answer
          ∙ rw (store-load dir.partition_handles b r.handle loaded) refl)

module _ {all : Partitions} {bucket_of : ℕ → ℕ} {m : GigaMapping} {s : ℕ}
    (served : 0 < m.server_count) (few : (i : ℕ) → all i ≡ true → i < 2 * m.server_count)
    (narrow : (i : ℕ) → all i ≡ true → i + m.zeroth_server < 2 ^ 32) where
  -- The handle of partition i entered at its place.
  set-IsHandles :
      (handles : List ℕ) (i x : ℕ)
      → IsHandles all bucket_of m s handles
      → all i ≡ true
      → giga_get_server_for_index m i ≡ ok s
      → load handles (i / m.server_count) ≡ ok x
      → IsHandles all bucket_of m s (set handles (i / m.server_count) (bucket_of i))
  set-IsHandles handles i x h seen at_s loaded =
      let b = i / m.server_count in
      record {
        room = rw (length-set handles b (bucket_of i)) h.room;
        right = λ j seen_j at_j. elim (ℕ_discrete b (j / m.server_count)) [
          | yes e ↦
              let same : i ≡ j =
                bucket_num-injective m served i j (narrow i seen) (narrow j seen_j)
                  (at_s ∙ sym at_j)
                  (bucket_num m served i ∙ ap ok e ∙ sym (bucket_num m served j)) in
              inr (rw (← same) (load-set handles b (bucket_of i) loaded))
          | no ne ↦
              rw (load-set_ne handles b (j / m.server_count) (bucket_of i) ne)
                (h.right j seen_j at_j)
        ];
      }

  some_loaded :
      (handles : List ℕ) (i : ℕ)
      → IsHandles all bucket_of m s handles
      → all i ≡ true
      → giga_get_server_for_index m i ≡ ok s
      → (x : ℕ) × (load handles (i / m.server_count) ≡ ok x) × ((x ≡ 0) ⊎ (x ≡ bucket_of i))
  some_loaded handles i h seen at_s = elim (h.right i seen at_s) [
    | inl e ↦ (0, e, inl refl)
    | inr e ↦ (bucket_of i, e, inr refl)
  ]

  module _ {V : Type 0} (shahash : List ℕ → List ℕ) (servernum : ℕ) (pvfs : Pvfs V)
      {parent : ObjectRef} {contents : V → Files}
      (store_of : IsStore pvfs parent all bucket_of contents) where
    -- A partition of this server: its handle, from memory or from PVFS.
    pub get_partition_handle_lem :
        (creds : Credentials) (dir : SkyeDirectory) (i : ℕ) (w : V)
        → dir.mapping ≡ m
        → dir.handle ≡ parent
        → IsHandles all bucket_of m s dir.partition_handles
        → all i ≡ true
        → giga_get_server_for_index m i ≡ ok s
        → (handles : List ℕ) × (w' : V) × (get_partition_handle shahash servernum pvfs creds dir i w
            ≡ ok (bucket_of i, record dir { partition_handles = handles }, w'))
          × IsHandles all bucket_of m s handles
          × (contents w' ≡ contents w)
    get_partition_handle_lem creds dir i w is_table is_own h seen at_s =
        let b = i / m.server_count in
        let num : giga_get_bucket_num_for_server dir.mapping i ≡ ok b =
          rw is_table (bucket_num m served i) in
        let (n, e, lt) = bucket_num-lt m served i (few i seen) in
        let small : b < 2 = omega (arith, lt, ok-injective (sym e ∙ bucket_num m served i)) in
        let (x, loaded, known) = some_loaded dir.partition_handles i h seen at_s in
        let grown = grown_handles-room b dir.partition_handles small h.room in
        elim (Bool-cases (x == 0)) [
          | inl unknown ↦ (
            set dir.partition_handles b (bucket_of i),
            (pvfs.ref_lookup creds dir.handle (pvfs.partition_name i) w).1,
            get_new shahash servernum pvfs creds dir i b x w num grown loaded
                (record { handle = bucket_of i; fs_id = parent.fs_id }) unknown
                (rw is_own (store_of.partition_found creds i w seen)),
            set-IsHandles dir.partition_handles i x h seen at_s loaded,
            rw is_own (store_of.partition_kept creds i w),
          )
          | inr cached ↦
              let same : x ≡ bucket_of i = elim known [
                | inl zeroth ↦ absurd (ground (arith, cached, zeroth))
                | inr e ↦ e
              ] in
              (
                dir.partition_handles,
                w,
                get_cached shahash servernum pvfs creds dir i b x w num grown loaded cached
                    ∙ ap (λ k. ok (k, dir, w)) same,
                h,
                refl,
              )
        ]
