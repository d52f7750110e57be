-- ===== src/Server/Start.antt =====
-- server/server.c: what main does before it serves: the number of the server, and the zeroth
-- partition of the root.
use skyefs.Prelude.{ℕ, ◌==◌, if◌then◌else◌, none, some, Outcome, ok, fault, aborted, ◌>>=◌}
use skyefs.Rpc.{Credentials, enoent}
use skyefs.Connection.Servers.{ServerList}
use skyefs.Server.Directory.{PvfsLookup, at_ref, pvfs_error, Pvfs}
use skyefs.Server.Queue.{pvfs_mkdir_server}
use skyefs.Server.Handlers.Procedures.{zeroth_name}

-- `lookup_zeroth` and `lookup_root` are PVFS_sys_lookup of "/p00000" and "/".
module _ {W : Type 0} (pvfs : Pvfs W) (rounds : ℕ) (creds : Credentials)
    (lookup_zeroth lookup_root : W → PvfsLookup × W) where
  unfoldable pub create_root_partition : W → Outcome W
  unfolding pvfs_mkdir_server
  create_root_partition w =
      let zeroth = lookup_zeroth w in
      let root = lookup_root zeroth.1 in
      let made : Outcome W = elim root.0 [
        | pvfs_error e ↦ fault aborted
        | at_ref r ↦
            pvfs_mkdir_server pvfs rounds creds r zeroth_name 0o777 (pvfs.get_mds r) root.1 >>= λ z.
            elim z.0 [ pvfs_error e ↦ fault aborted | at_ref child ↦ ok z.1 ]
      ] in
      elim zeroth.0 [
        | at_ref r ↦ ok zeroth.1
        | pvfs_error e ↦ if e == enoent then made else fault aborted
      ]

  -- From the list of servers on: our number, and the state.
  unfoldable pub start_server : ServerList → W → Outcome (ℕ × W)
  unfolding create_root_partition
  start_server servers w =
      let servernum = if servers.servercount == 1 then some 0 else servers.servernum in
      elim servernum [
        | none ↦ fault aborted
        | some n ↦
            let first : Outcome (ℕ × W) = (create_root_partition w >>= λ w'. ok (n, w')) in
            if n == 0 then first else ok (n, w)
      ]
