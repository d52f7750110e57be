-- ===== src/Server/Handlers/Clearing.antt =====
-- server/handlers.c: which partitions remove_all_buckets removes.
use skyefs.Prelude.{
  ℕ, suc, ◌≤◌, ◌<◌, ◌≡◌, refl, ap, ◌∙◌, arith, List, [], ◌∷◌, map, length, Bool, true, false, ◌&&◌,
  ◌||◌, ◌==◌, ==_iff, if◌then◌else◌, Bool-cases, inl, inr, some, Outcome, ok, fault, lt→ltb,
}
use skyefs.Rpc.{ObjectRef, Credentials, Call, returned}
use skyefs.Connection.{get_connection}
use skyefs.Giga.Bitmap.Members.{capacity}
use skyefs.Giga.Mapping.{GigaMapping, giga_get_server_for_index}
use skyefs.Giga.Mapping.Invariant.{partitions, IsUsable}
use skyefs.Giga.Servers.{giga_get_server_for_index-lt}
use skyefs.Giga.Update.{SameServers, giga_update_mapping_remove_lem}
use skyefs.Server.Directory.{SkyeDirectory, Pvfs}
use skyefs.Server.Handlers.{Setup, remove_bucket}
use skyefs.Server.Handlers.Remove.{remove_remote, remove_entries, remove_all_buckets}

unfoldable pub member : ℕ → List ℕ → Bool
member j [] = false
member j (i ∷ indices) = i == j || member j indices

-- Whether a partition is on this server.
unfoldable pub is_here : ℕ → Outcome ℕ → Bool
is_here servernum (ok server) = server == servernum
is_here servernum (fault e) = false

-- Whether remove_all_buckets takes partition j, of those in a list, out of the table.
unfoldable pub is_cleared : ℕ → GigaMapping → List ℕ → ℕ → Bool
unfolding member is_here
is_cleared servernum m indices j =
    (if j == 0 then false else true)
    && member j indices
    && is_here servernum (giga_get_server_for_index m j)

-- The table after the partitions in a list were removed.
pub record IsCleared (servernum : ℕ) (m : GigaMapping) (indices : List ℕ) (m' : GigaMapping)
    : Type 0 where
  pub still : IsUsable m'
  pub same : SameServers m m'
  pub gone :
      (j : ℕ)
      → partitions m' j
        ≡ (partitions m j && (if is_cleared servernum m indices j then false else true))

abbrev pub Within : List ℕ → Type 0
Within indices = (j : ℕ) → member j indices ≡ true → j < capacity

module _ {W : Type 0} (setup : Setup) (pvfs : Pvfs W) where
  open pvfs use {sscanf_index, partition_name, sys_remove}

  -- PVFS_sys_remove and the call of rpc_bucket_remove succeed, and sscanf reads what snprintf wrote.
  pub record IsClearing (rpc_bucket_remove : ℕ → Credentials → ObjectRef → ℕ → W → Call ℕ × W)
      (creds : Credentials) : Type 0 where
    pub scans : (i : ℕ) → sscanf_index (partition_name i) ≡ some i
    pub removes : (name : List ℕ) (h : ObjectRef) (w : W) → (sys_remove creds name h w).0 ≡ 0
    pub tells :
        (s : ℕ) (h : ObjectRef) (i : ℕ) (w : W) → (rpc_bucket_remove s creds h i w).0 ≡ returned 0

module _ {W : Type 0} (setup : Setup) (pvfs : Pvfs W) (readdir_error : ℕ)
    {rpc_bucket_remove : ℕ → Credentials → ObjectRef → ℕ → W → Call ℕ × W} {creds : Credentials}
    (clearing : IsClearing setup pvfs rpc_bucket_remove creds) where
  open setup use {servernum, servercount}
  open pvfs use {partition_name}

  -- One entry of a reply.
  record IsStep (i : ℕ) (dir : SkyeDirectory) (w : W) (m : GigaMapping) (w' : W) : Type 0 where
    goes_on :
        (names : List (List ℕ))
        → remove_entries setup pvfs readdir_error rpc_bucket_remove creds
            (partition_name i ∷ names)
            dir
            w
          ≡ remove_entries setup pvfs readdir_error rpc_bucket_remove creds names
              (record dir { mapping = m })
              w'
    cleared : IsCleared servernum dir.mapping (i ∷ []) m

  module _ (i : ℕ) (dir : SkyeDirectory) (w : W) (v : IsUsable dir.mapping) where
    zeroth_kept : (i == 0) ≡ true → IsStep i dir w dir.mapping w
    unfolding remove_entries is_cleared member
    zeroth_kept zero_i = record {
      goes_on = λ names. rw (remove_entries, clearing.scans i, zero_i) refl;
      cleared = record { still = v; same = (refl, refl); gone = λ j. ground (arith, zero_i) };
    }

    module _ (server : ℕ) (at : giga_get_server_for_index dir.mapping i ≡ ok server)
        (not_zero : (i == 0) ≡ false) where
      here_lem :
          (j : ℕ)
          → (i == j) ≡ true
          → is_here servernum (giga_get_server_for_index dir.mapping j) ≡ (server == servernum)
      unfolding is_here
      here_lem j e = rw (← (==_iff i j).0 e, at) refl

      removed_here :
          i < capacity
          → (server == servernum) ≡ true
          → (m : GigaMapping) × (w' : W) × IsStep i dir w m w'
      unfolding remove_entries remove_bucket is_cleared member
      removed_here room here =
          let (m, e, b, del, same) =
            giga_update_mapping_remove_lem v i room (λ z. ground (arith, z, not_zero)) in
          let w' = (pvfs.sys_remove creds (partition_name i) dir.handle w).1 in
          (
            m,
            w',
            record {
              goes_on = λ names.
                  rw
                    (
                      remove_entries,
                      clearing.scans i,
                      not_zero,
                      at,
                      here,
                      clearing.removes (partition_name i) dir.handle w,
                      e,
                    )
                    refl;
              cleared = record {
                still = record {
                  bits = b;
                  root = ground (arith, del 0, v.root, not_zero);
                  served = rw (same.1) v.served;
                };
                same = same;
                gone = λ j.
                    ground
                      (arith, del j, here_lem j, here, not_zero, λ (e : i ≡ j). ap (λ x. x == 0) e);
              };
            },
          )

      removed_there :
          server < servercount
          → (server == servernum) ≡ false
          → (w' : W) × IsStep i dir w dir.mapping w'
      unfolding remove_entries remove_remote get_connection is_cleared member
      removed_there known there = (
        (rpc_bucket_remove server creds dir.handle i w).1,
        record {
          goes_on = λ names.
              rw
                (
                  remove_entries,
                  clearing.scans i,
                  not_zero,
                  at,
                  there,
                  lt→ltb server servercount known,
                  clearing.tells server dir.handle i w,
                )
                refl;
          cleared = record {
            still = v;
            same = (refl, refl);
            gone = λ j. ground (arith, here_lem j, there);
          };
        },
      )

  step_lem :
      (i : ℕ) (dir : SkyeDirectory) (w : W)
      → IsUsable dir.mapping
      → dir.mapping.server_count ≤ servercount
      → i < capacity
      → (m : GigaMapping) × (w' : W) × IsStep i dir w m w'
  step_lem i dir w v few room = elim (Bool-cases (i == 0)) [
    | inl zeroth ↦ (dir.mapping, w, zeroth_kept i dir w v zeroth)
    | inr other ↦
        let (server, at, lt) = giga_get_server_for_index-lt dir.mapping v.served i in
        elim (Bool-cases (server == servernum)) [
          | inl here ↦ removed_here i dir w v server at other room here
          | inr there ↦
              let (w', step) =
                removed_there i dir w v server at other (omega (arith, lt, few)) there in
              (dir.mapping, w', step)
        ]
  ]

  same_places :
      (m m' : GigaMapping)
      → SameServers m m'
      → (j : ℕ) → giga_get_server_for_index m' j ≡ giga_get_server_for_index m j
  unfolding giga_get_server_for_index
  same_places m m' (z, n) j = rw (z, n) refl

  IsCleared-cons :
      {m m1 m' : GigaMapping} (i : ℕ) (indices : List ℕ)
      → IsCleared servernum m (i ∷ []) m1
      → IsCleared servernum m1 indices m'
      → IsCleared servernum m (i ∷ indices) m'
  unfolding is_cleared member
  IsCleared-cons {m} {m1} {m'} i indices a b = record {
    still = b.still;
    same = (b.same.0 ∙ a.same.0, b.same.1 ∙ a.same.1);
    gone = λ j.
        let later : partitions m' j
            ≡ (partitions m1 j && (if is_cleared servernum m indices j then false else true)) =
          rw (← same_places m m1 a.same j) (b.gone j) in
        ground (arith, a.gone j, later);
  }

  remove_entries_lem :
      (indices : List ℕ) (dir : SkyeDirectory) (w : W)
      → IsUsable dir.mapping
      → dir.mapping.server_count ≤ servercount
      → Within indices
      → (m : GigaMapping) × (w' : W) × (remove_entries setup pvfs readdir_error rpc_bucket_remove
            creds
            (map partition_name indices)
            dir
            w
          ≡ ok (0, record dir { mapping = m }, w'))
        × IsCleared servernum dir.mapping indices m
  unfolding remove_entries member is_cleared
  remove_entries_lem [] dir w v few within =
      (dir.mapping, w, refl, record { still = v; same = (refl, refl); gone = λ j. ground arith })
  remove_entries_lem (i ∷ indices) dir w v few within =
      let (m1, w1, step) =
        step_lem i dir w v few (within i (ground (arith, (==_iff i i).1 refl))) in
      let dir1 = record dir { mapping = m1 } in
      let (m, w', e, cleared) =
        remove_entries_lem indices dir1 w1 step.cleared.still (rw (step.cleared.same.1) few)
          (λ j h. within j (ground (arith, h))) in
      (
        m,
        w',
        step.goes_on (map partition_name indices) ∙ e,
        IsCleared-cons i indices step.cleared cleared,
      )

  -- If PVFS lists fewer than 32 entries of the directory, which are names of partitions within
  -- the bitmap, the table has a well-formed bitmap, partition 0 and a server and not more servers
  -- than there are, PVFS_sys_remove and the calls of rpc_bucket_remove succeed, and sscanf reads
  -- the index that snprintf wrote: remove_all_buckets returns 0, and of the partitions of the
  -- table exactly the listed ones on this server other than partition 0 are gone.
  pub remove_all_buckets_lem :
      (f : ℕ) (indices : List ℕ) (dir : SkyeDirectory) (w : W)
      → IsUsable dir.mapping
      → dir.mapping.server_count ≤ servercount
      → Within indices
      → (pvfs.readdir dir.handle 0 32 w).0 ≡ some (map partition_name indices)
      → length (map partition_name indices) < 32
      → (m : GigaMapping) × (w' : W) × (remove_all_buckets setup pvfs readdir_error
            rpc_bucket_remove
            (suc f)
            0
            creds
            dir
            w
          ≡ ok (0, record dir { mapping = m }, w'))
        × IsCleared servernum dir.mapping indices m
  unfolding remove_all_buckets
  remove_all_buckets_lem f indices dir w v few within lists short =
      let (m, w', e, cleared) =
        remove_entries_lem indices dir (pvfs.readdir dir.handle 0 32 w).1 v few within in
      let last : (length (map partition_name indices) == 32) ≡ false = ground (arith, short) in
      (m, w', rw (remove_all_buckets, lists, e, last) refl, cleared)
