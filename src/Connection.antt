-- ===== src/Connection.antt =====
-- common/connection.c: the servers by number.
pub mod Spec
pub mod Servers
pub mod Numbering
pub mod RoundTrip
use skyefs.Prelude.{
  ℕ, ◌+◌, List, [], ◌∷◌, ltb, ◌==◌, if◌then◌else◌, Outcome, ok, fault, assertion, assert, ◌>>◌,
}
use skyefs.Rpc.{ObjectRef}

-- The connection of a server is known by the server's number.
unfoldable pub get_connection : ℕ → ℕ → Outcome ℕ
get_connection servercount serverid = assert (ltb serverid servercount) >> ok serverid

-- The loop of `pvfs_get_mds` and its assertion: the place of an address in the list.
unfoldable pub server_of_address : List ℕ → ℕ → ℕ → Outcome ℕ
server_of_address [] addr i = fault assertion
server_of_address (a ∷ serveraddrs) addr i =
    let rest = server_of_address serveraddrs addr (i + 1) in if a == addr then ok i else rest

-- PVFS_mgmt_map_handle: its return code, and the address that it finds.
unfoldable pub pvfs_get_mds : (ObjectRef → ℕ × ℕ) → List ℕ → ObjectRef → Outcome ℕ
unfolding server_of_address
pvfs_get_mds map_handle serveraddrs ref =
    let (rc, addr) = map_handle ref in
    if rc == 0 then server_of_address serveraddrs addr 0 else ok rc
