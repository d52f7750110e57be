-- ===== src/Client/Modify.antt =====
-- client/operations.c: the operations that create, remove and rename.
use mathlib.Core.Option
use skyefs.Prelude.{
  ℕ, zero, suc, List, ltb, ◌==◌, if◌then◌else◌, Outcome, ok, fault, uninitialized, out_of_rounds,
  ◌>>=◌, Option, none, some, bit_and,
}
use skyefs.Rpc.{
  SkyeLookup, SkyeResult, Call, rpc_failed, returned, Credentials, ref, errno, status, enoent, eio,
  enosys,
}
use skyefs.Client.Operations.{
  Services, ClientState, FuseReply, reply_err, reply_entry, reply_create, reply_negated, EntryParam,
  read_lookup, read_result, in_directory, ask_directory, partition, parent_ref, generate_fuse_entry,
}

abbrev pub s_ifreg : ℕ
s_ifreg = 0o100000

module _ {W : Type 0} (shahash : List ℕ → List ℕ) (services : Services W) (rounds : ℕ) where
  open services use {storage, rpc_create, rpc_mkdir, rpc_rename, rpc_remove}

  -- What the three creating operations reply, `made` with the entry of the new object.
  unfoldable pub created :
      (EntryParam → FuseReply)
      → Credentials
      → Option (Call SkyeLookup)
      → ClientState W
      → FuseReply × ClientState W
  unfolding generate_fuse_entry
  created made creds none st = (reply_err eio, st)
  created made creds (some rpc_failed) st = (reply_err eio, st)
  created made creds (some (returned (ref r))) st =
      let (e, st') = generate_fuse_entry shahash services rounds creds r st in (made e, st')
  created made creds (some (returned (errno e))) st = (reply_err e, st)
  created made creds (some (returned (SkyeLookup.bitmap table))) st = (reply_err eio, st)

  unfoldable pub create_entry :
      (EntryParam → FuseReply)
      → Credentials
      → ℕ
      → List ℕ
      → ℕ
      → ClientState W
      → Outcome (FuseReply × ClientState W)
  unfolding created parent_ref
  create_entry made creds parent filename mode st =
      let (above, st') = parent_ref shahash services rounds creds parent st in
      in_directory shahash services rounds
        (λ s w. let (c, w') = rpc_create s creds above filename mode w in (read_lookup c, w')) above
        filename st'
      >>= λ r. ok (created made creds r.0 r.1)

  unfoldable pub skye_ll_mknod :
      Credentials → ℕ → List ℕ → ℕ → ClientState W → Outcome (FuseReply × ClientState W)
  unfolding create_entry
  skye_ll_mknod creds parent filename mode st =
      if bit_and mode s_ifreg == 0
      then ok (reply_err enosys, st)
      else create_entry reply_entry creds parent filename mode st

  -- `fi->fh` is the handle as well.
  unfoldable pub skye_ll_create :
      Credentials → ℕ → List ℕ → ℕ → ClientState W → Outcome (FuseReply × ClientState W)
  unfolding create_entry
  skye_ll_create = create_entry (λ e. reply_create e e.ino)

  unfoldable pub skye_ll_mkdir :
      Credentials → ℕ → List ℕ → ℕ → ClientState W → Outcome (FuseReply × ClientState W)
  unfolding created parent_ref
  skye_ll_mkdir creds parent filename mode st =
      let (above, st') = parent_ref shahash services rounds creds parent st in
      in_directory shahash services rounds
        (λ s w. let (c, w') = rpc_mkdir s creds above filename mode w in (read_lookup c, w')) above
        filename st'
      >>= λ r. ok (created reply_entry creds r.0 r.1)

  unfoldable pub removed : Option (Call SkyeResult) → ℕ
  removed none = eio
  removed (some rpc_failed) = eio
  removed (some (returned (status e))) = e
  removed (some (returned (SkyeResult.bitmap table))) = eio

  unfoldable pub skye_remove :
      Credentials → ℕ → List ℕ → ClientState W → Outcome (ℕ × ClientState W)
  unfolding removed parent_ref
  skye_remove creds parent filename st =
      let (above, st') = parent_ref shahash services rounds creds parent st in
      in_directory shahash services rounds
        (λ s w. let (c, w') = rpc_remove s creds above filename w in (read_result c, w')) above
        filename st'
      >>= λ r. ok (removed r.0, r.1)

  -- The replies of `unlink` and of `rmdir`.
  unfoldable pub skye_ll_unlink :
      Credentials → ℕ → List ℕ → ClientState W → Outcome (FuseReply × ClientState W)
  unfolding skye_remove
  skye_ll_unlink creds parent name st =
      skye_remove creds parent name st >>= λ r. ok (reply_err r.0, r.1)

  unfoldable pub skye_ll_rmdir :
      Credentials → ℕ → List ℕ → ClientState W → Outcome (FuseReply × ClientState W)
  unfolding skye_remove
  skye_ll_rmdir creds parent name st =
      skye_remove creds parent name st >>= λ r. ok (reply_err r.0, r.1)

  -- What follows the loop of `rename`; `none` is -ENOENT. A call that failed is followed by a read
  -- of the result, which it did not set. (`ask` does not end with a table.)
  unfoldable pub renamed : Option (Call SkyeResult) → Outcome (Option FuseReply)
  renamed none = ok (some (reply_err eio))
  renamed (some rpc_failed) = fault uninitialized
  renamed (some (returned (SkyeResult.bitmap table))) = fault out_of_rounds
  renamed (some (returned (status e))) = ok (if e == enoent then none else some (reply_err 0))

  -- From the label `retry`. The directory is not returned.
  unfoldable pub rename_pass :
      Credentials
      → ℕ
      → List ℕ
      → ℕ
      → List ℕ
      → ClientState W
      → Outcome (Option FuseReply × ClientState W)
  unfolding renamed parent_ref
  rename_pass creds src_parent src_name dst_parent dst_name st =
      let (src, st') = parent_ref shahash services rounds creds src_parent st in
      let (dst, st'') = parent_ref shahash services rounds creds dst_parent st' in
      partition shahash services rounds creds src src_name st'' >>= λ p.
      (if ltb 0 p.0.0
        then ok (some (reply_negated p.0.0), p.1)
        else (ask_directory shahash services rounds
              (λ s w.
                let (c, w') = rpc_rename s creds src_name p.0.1 dst_name dst w in
                (read_result c, w'))
              dst dst_name p.1
            >>= λ r. renamed (Option.map (λ q. q.0) r.0) >>= λ reply. ok (reply, r.1)))

  -- `retry_count` passes may follow the first.
  unfoldable pub rename_passes :
      ℕ
      → Credentials
      → ℕ
      → List ℕ
      → ℕ
      → List ℕ
      → ClientState W
      → Outcome (FuseReply × ClientState W)
  rename_passes zero creds src src_name dst dst_name st =
      rename_pass creds src src_name dst dst_name st >>= λ r. elim r.0 [
        | some reply ↦ ok (reply, r.1)
        | none ↦ ok (reply_err eio, r.1)
      ]
  rename_passes (suc retry_count) creds src src_name dst dst_name st =
      rename_pass creds src src_name dst dst_name st >>= λ r. elim r.0 [
        | some reply ↦ ok (reply, r.1)
        | none ↦ rename_passes retry_count creds src src_name dst dst_name r.1
      ]

  unfoldable pub skye_ll_rename :
      Credentials → ℕ → List ℕ → ℕ → List ℕ → ClientState W → Outcome (FuseReply × ClientState W)
  unfolding rename_passes rename_pass
  skye_ll_rename = rename_passes 3
