-- ===== src/Tests/Spec.antt =====
-- The specification tcp://a:3/fs,tcp://b:3/fs of two servers, and their numbers.
use skyefs.Prelude.{◌==◌, if◌then◌else◌, ok, ℕ, ◌≡◌, refl, List, [], ◌∷◌, some}
use skyefs.Connection.Servers.{ServerList, pvfs_generate_serverlist}
use skyefs.Connection.Numbering.{AreAddressed, IsPlaceOf, has_char, pvfs_generate_serverlist_lem}
use skyefs.Connection.Spec.{parse_fs_spec, slashcount}
use skyefs.Connection.RoundTrip.{
  IsAddress, IsFsName, AreAddresses, has_comma, fs_spec, parse_fs_spec_lem,
}

-- tcp://a:3
abbrev first_server : List ℕ
first_server = 0x74 ∷ 0x63 ∷ 0x70 ∷ 0x3a ∷ 0x2f ∷ 0x2f ∷ 0x61 ∷ 0x3a ∷ 0x33 ∷ []

-- tcp://b:3
abbrev second_server : List ℕ
second_server = 0x74 ∷ 0x63 ∷ 0x70 ∷ 0x3a ∷ 0x2f ∷ 0x2f ∷ 0x62 ∷ 0x3a ∷ 0x33 ∷ []

-- fs
abbrev fs_name : List ℕ
fs_name = 0x66 ∷ 0x73 ∷ []

fs_name-IsFsName : IsFsName fs_name
unfolding slashcount has_comma
fs_name-IsFsName = record { slashes = refl; whole = refl }

first_server-IsAddress : IsAddress first_server
unfolding slashcount has_comma
first_server-IsAddress = record { slashes = refl; whole = refl }

second_server-IsAddress : IsAddress second_server
unfolding slashcount has_comma
second_server-IsAddress = record { slashes = refl; whole = refl }

parse_fs_spec_example :
    parse_fs_spec (fs_spec fs_name first_server (second_server ∷ []))
    ≡ some (first_server ∷ second_server ∷ [], fs_name)
unfolding AreAddresses
parse_fs_spec_example =
    parse_fs_spec_lem fs_name-IsFsName first_server (second_server ∷ []) first_server-IsAddress
      (second_server-IsAddress, tt)

-- tcp://a:3 and tcp://b:3
abbrev address_of : ℕ → List ℕ
address_of a = if a == 7 then first_server else second_server

abbrev scheme : List ℕ
scheme = 0x74 ∷ 0x63 ∷ 0x70 ∷ 0x3a ∷ 0x2f ∷ []

address_of-AreAddressed : AreAddressed address_of (7 ∷ 8 ∷ []) ((0x61 ∷ []) ∷ (0x62 ∷ []) ∷ [])
unfolding AreAddressed has_char
address_of-AreAddressed = (
  record { scheme = scheme; port = 0x33 ∷ []; whole = refl; one_slash = refl; one_colon = refl },
  (
    record { scheme = scheme; port = 0x33 ∷ []; whole = refl; one_slash = refl; one_colon = refl },
    tt,
  ),
)

serverlist_example :
    (servers : ServerList) × (pvfs_generate_serverlist address_of (0x62 ∷ []) (7 ∷ 8 ∷ [])
      ≡ ok servers)
    × (servers.serverlist ≡ (0x61 ∷ []) ∷ (0x62 ∷ []) ∷ [])
    × (servers.servercount ≡ 2)
    × IsPlaceOf (0x62 ∷ []) ((0x61 ∷ []) ∷ (0x62 ∷ []) ∷ []) servers.servernum
serverlist_example =
    pvfs_generate_serverlist_lem address_of (0x62 ∷ []) (7 ∷ 8 ∷ [])
      ((0x61 ∷ []) ∷ (0x62 ∷ []) ∷ []) address_of-AreAddressed
