-- ===== src/Server/Handlers/Procedures.antt =====
-- server/handlers.c: lookup, partition, create, mkdir and rename.
use skyefs.Prelude.{
  ℕ, zero, suc, ◌+◌, ◌%◌, List, [], ◌∷◌, Bool, true, false, ◌&&◌, ◌==◌, if◌then◌else◌, none, some,
  Outcome, ok, fault, out_of_rounds, ◌>>=◌,
}
use skyefs.Rpc.{
  ObjectRef, SkyeLookup, SkyeResult, Credentials, ref, errno, status, eio, eacces, enoent,
}
use skyefs.Giga.Mapping.{giga_get_server_for_index}
use skyefs.Giga.Index.{giga_get_index_for_file, giga_index_for_splitting, giga_is_splittable}
use skyefs.Server.Directory.{SkyeDirectory, PvfsLookup, at_ref, pvfs_error, Pvfs}
use skyefs.Server.Bucket.{
  redirect, bucket, refused, enter_bucket, get_partition_handle, is_splitting,
}
use skyefs.Server.Queue.{perform_split, isdir_overflow, pvfs_mkdir_server}
use skyefs.Server.Handlers.{ServerState, Setup, serve}

-- errnum and ref from a reply of PVFS.
unfoldable pub lookup_result : PvfsLookup → SkyeLookup
lookup_result (at_ref r) = ref r
lookup_result (pvfs_error e) = errno e

unfoldable pub is_enoent : PvfsLookup → Bool
is_enoent (at_ref r) = false
is_enoent (pvfs_error e) = e == enoent

abbrev pub create_error : ℕ → ℕ
create_error e = if e == enoent then eacces else e

-- "p00000"
abbrev pub zeroth_name : List ℕ
zeroth_name = 0x70 ∷ 0x30 ∷ 0x30 ∷ 0x30 ∷ 0x30 ∷ 0x30 ∷ []

module _ {W : Type 0} (shahash : List ℕ → List ℕ) (setup : Setup) (pvfs : Pvfs W) where
  open setup use {servernum, memory, rounds}
  open pvfs use {
    ref_lookup, sys_create, sys_mkdir, sys_rename, get_mds, partition_name, partition_path,
  }

  abbrev pub Body : Type 0 → Type 0
  Body A = SkyeDirectory → ServerState W → Outcome (A × SkyeDirectory × ServerState W)

  -- The retry in a split looks up the path in the directory, not in the child.
  unfoldable pub lookup_body : Credentials → ObjectRef → List ℕ → Body SkyeLookup
  unfolding get_partition_handle is_splitting is_enoent lookup_result
  lookup_body creds parent path dir st =
      giga_get_index_for_file shahash dir.mapping path >>= λ index.
      giga_get_server_for_index dir.mapping index >>= λ server.
      let here : Outcome (SkyeLookup × SkyeDirectory × ServerState W) =
        (get_partition_handle shahash servernum pvfs creds dir index st.world >>= λ h.
        let at = ref_lookup creds (record parent { handle = h.0 }) path h.2 in
        let retried =
          (giga_index_for_splitting dir.mapping index >>= λ child.
          let retry = ref_lookup creds parent path at.1 in
          ok (lookup_result retry.0, h.1, record st { world = retry.1 })) in
        if is_enoent at.0 && is_splitting dir.splitting_index index
        then retried
        else ok (lookup_result at.0, h.1, record st { world = at.1 })) in
      if server == servernum then here else ok (SkyeLookup.bitmap dir.mapping, dir, st)

  unfoldable pub skye_rpc_lookup :
      Credentials → ObjectRef → List ℕ → ServerState W → Outcome (SkyeLookup × ServerState W)
  unfolding serve lookup_body
  skye_rpc_lookup creds parent path =
      serve setup pvfs false (errno eio) parent (lookup_body creds parent path)

  -- From the label `gotindex`; the second round is for the child of a split.
  unfoldable pub partition_at : (fuel : ℕ) → Credentials → ObjectRef → List ℕ → ℕ → Body SkyeLookup
  unfolding is_splitting is_enoent lookup_result
  partition_at zero creds parent path index dir st = fault out_of_rounds
  partition_at (suc f) creds parent path index dir st =
      giga_get_server_for_index dir.mapping index >>= λ server.
      let at = ref_lookup creds parent (partition_path index path) st.world in
      let st' = record st { world = at.1 } in
      let child : Outcome (SkyeLookup × SkyeDirectory × ServerState W) =
        (giga_index_for_splitting dir.mapping index >>= λ index'.
        partition_at f creds parent path index' dir st') in
      let holder = ref_lookup creds parent (partition_name index) at.1 in
      if server == servernum
      then elim at.0 [
        | at_ref r ↦ ok (lookup_result holder.0, dir, record st { world = holder.1 })
        | pvfs_error e ↦
            if e == enoent && is_splitting dir.splitting_index index
            then child
            else ok (errno e, dir, st')
      ]
      else ok (SkyeLookup.bitmap dir.mapping, dir, st)

  unfoldable pub skye_rpc_partition :
      Credentials → ObjectRef → List ℕ → ServerState W → Outcome (SkyeLookup × ServerState W)
  unfolding serve partition_at
  skye_rpc_partition creds parent path = serve setup pvfs false (errno eio) parent (λ dir st.
      giga_get_index_for_file shahash dir.mapping path >>= λ index.
      partition_at 2 creds parent path index dir st)

  -- What follows a file that was created in the bucket b: every hundredth time, a split.
  unfoldable pub split_check :
      Credentials → ObjectRef → List ℕ → SkyeDirectory → ServerState W → Outcome (ServerState W)
  unfolding isdir_overflow perform_split
  split_check creds b filename dir st = elim dir.splitting_index [
    | some s ↦ ok st
    | none ↦
        let st' = record st { create_count = st.create_count + 1 } in
        let checked : Outcome (ServerState W) =
          (giga_get_index_for_file shahash dir.mapping filename >>= λ index.
          giga_is_splittable dir.mapping index >>= λ splittable.
          let full = isdir_overflow pvfs creds b st.world in
          let queued : Outcome (ServerState W) =
            (perform_split memory dir.handle index st.queue >>= λ queue.
            ok (record st' { queue = queue; world = full.1 })) in
          if splittable
          then if full.0 then queued else ok (record st' { world = full.1 })
          else ok st') in
        if st.create_count % 100 == 0 then checked else ok st'
  ]

  unfoldable pub create_body : Credentials → ObjectRef → List ℕ → ℕ → Body SkyeLookup
  unfolding enter_bucket split_check
  create_body creds parent filename mode dir st =
      enter_bucket shahash servernum pvfs creds dir filename parent st.world >>= λ e. elim e.0 [
        | redirect t ↦ ok (SkyeLookup.bitmap t, e.1, record st { world = e.2 })
        | refused rc ↦ ok (errno rc, e.1, record st { world = e.2 })
        | bucket b ↦
            let made = sys_create creds b filename mode e.2 in
            let st' = record st { world = made.1 } in
            elim made.0 [
              | pvfs_error rc ↦ ok (errno (create_error rc), e.1, st')
              | at_ref r ↦ split_check creds b filename e.1 st' >>= λ st''. ok (ref r, e.1, st'')
            ]
      ]

  unfoldable pub skye_rpc_create :
      Credentials → ObjectRef → List ℕ → ℕ → ServerState W → Outcome (SkyeLookup × ServerState W)
  unfolding serve create_body
  skye_rpc_create creds parent filename mode =
      serve setup pvfs false (errno eio) parent (create_body creds parent filename mode)

  -- A new directory gets its zeroth partition on the server of the directory.
  unfoldable pub mkdir_body : Credentials → ObjectRef → List ℕ → ℕ → Body SkyeLookup
  unfolding enter_bucket pvfs_mkdir_server
  mkdir_body creds parent dirname mode dir st =
      enter_bucket shahash servernum pvfs creds dir dirname parent st.world >>= λ e. elim e.0 [
        | redirect t ↦ ok (SkyeLookup.bitmap t, e.1, record st { world = e.2 })
        | refused rc ↦ ok (errno rc, e.1, record st { world = e.2 })
        | bucket b ↦
            let made = sys_mkdir creds b dirname mode e.2 in
            elim made.0 [
              | pvfs_error rc ↦ ok (errno rc, e.1, record st { world = made.1 })
              | at_ref r ↦
                  pvfs_mkdir_server pvfs rounds creds r zeroth_name mode (get_mds r) made.1 >>= λ z.
                  elim z.0 [
                    | at_ref child ↦ ok (ref r, e.1, record st { world = z.1 })
                    | pvfs_error rc ↦ ok (errno rc, e.1, record st { world = z.1 })
                  ]
            ]
      ]

  unfoldable pub skye_rpc_mkdir :
      Credentials → ObjectRef → List ℕ → ℕ → ServerState W → Outcome (SkyeLookup × ServerState W)
  unfolding serve mkdir_body
  skye_rpc_mkdir creds parent dirname mode =
      serve setup pvfs true (errno eio) parent (mkdir_body creds parent dirname mode)

  unfoldable pub rename_body :
      Credentials → List ℕ → ObjectRef → List ℕ → ObjectRef → Body SkyeResult
  unfolding enter_bucket
  rename_body creds src_name src_parent dst_name dst_parent dir st =
      enter_bucket shahash servernum pvfs creds dir dst_name dst_parent st.world >>= λ e. elim e.0 [
        | redirect t ↦ ok (SkyeResult.bitmap t, e.1, record st { world = e.2 })
        | refused rc ↦ ok (status rc, e.1, record st { world = e.2 })
        | bucket b ↦
            let (rc, w) = sys_rename creds src_name src_parent dst_name b e.2 in
            ok (status rc, e.1, record st { world = w })
      ]

  unfoldable pub skye_rpc_rename :
      Credentials
      → List ℕ
      → ObjectRef
      → List ℕ
      → ObjectRef
      → ServerState W
      → Outcome (SkyeResult × ServerState W)
  unfolding serve rename_body
  skye_rpc_rename creds src_name src_parent dst_name dst_parent =
      serve setup pvfs true (status eio) dst_parent
        (rename_body creds src_name src_parent dst_name dst_parent)
