-- ===== src/Connection/Servers.antt =====
-- common/connection.c: the list of servers, and the connections to them.
use skyefs.Prelude.Strings.{same_name}
use skyefs.Prelude.{
  ℕ, ◌+◌, ◌-◌, List, [], ◌∷◌, length, take, drop, Bool, true, false, ltb, ◌==◌, if◌then◌else◌,
  Option, none, some, Outcome, ok, fault, out_of_bounds, ◌>>=◌,
}
use skyefs.Connection.Spec.{slash}

abbrev pub colon : ℕ
colon = 0x3a

-- rindex: the place of the last c, from i on.
unfoldable pub rindex : ℕ → ℕ → List ℕ → Option ℕ
rindex c i [] = none
rindex c i (a ∷ s) = elim (rindex c (i + 1) s) [
  | some k ↦ some k
  | none ↦ if a == c then some i else none
]

-- The server portion of tcp://servername:port. strndup copies no more than there is, which is all
-- when the last colon is before the last slash, as the length is then a large unsigned number.
unfoldable pub host_of : List ℕ → Outcome (List ℕ)
unfolding rindex
host_of addr = elim (rindex colon 0 addr) [
  | none ↦ fault out_of_bounds
  | some end ↦ elim (rindex slash 0 addr) [
    | none ↦ fault out_of_bounds
    | some start ↦
        let rest = drop (start + 1) addr in
        ok (if ltb start end then take (end - start - 1) rest else rest)
  ]
]

-- The loop over the addresses: the names, and the number of the server with our own name, -1 being
-- `none`. `map_addr` is PVFS_mgmt_map_addr.
unfoldable pub name_servers :
    (ℕ → List ℕ) → List ℕ → ℕ → List ℕ → Option ℕ → Outcome (List (List ℕ) × Option ℕ)
unfolding host_of
name_servers map_addr myhostname i [] servernum = ok ([], servernum)
name_servers map_addr myhostname i (a ∷ addrs) servernum = host_of (map_addr a) >>= λ host.
    let num = if same_name host myhostname then some i else servernum in
    name_servers map_addr myhostname (i + 1) addrs num >>= λ r. ok (host ∷ r.0, r.1)

-- skye_options without the specification.
pub record ServerList : Type 0 where
  pub servernum : Option ℕ
  pub servercount : ℕ
  pub serverlist : List (List ℕ)
  pub serveraddrs : List ℕ

-- With the addresses that PVFS_mgmt_get_server_array gave and memory for them.
unfoldable pub pvfs_generate_serverlist : (ℕ → List ℕ) → List ℕ → List ℕ → Outcome ServerList
unfolding name_servers
pvfs_generate_serverlist map_addr myhostname serveraddrs =
    name_servers map_addr myhostname 0 serveraddrs none >>= λ r. ok (record {
      servernum = r.1;
      servercount = length serveraddrs;
      serverlist = r.0;
      serveraddrs = serveraddrs;
    })

-- rpc_connect: a connection to each server of the list, in order, until one fails. A connection is
-- known by the name of its host.
unfoldable pub rpc_connect : {W : Type 0} → (List ℕ → W → Bool × W) → List (List ℕ) → W → Bool × W
rpc_connect host_connect [] w = (true, w)
rpc_connect host_connect (host ∷ serverlist) w =
    let made = host_connect host w in
    let rest = rpc_connect host_connect serverlist made.1 in
    if made.0 then rest else (false, made.1)
