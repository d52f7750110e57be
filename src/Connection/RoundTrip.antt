-- ===== src/Connection/RoundTrip.antt =====
-- common/connection.c: the specification of a list of servers is read as this list.
use skyefs.Prelude.Strings.{same_name_refl}
use skyefs.Prelude.{
  ℕ, ◌+◌, ◌≡◌, refl, ap, ◌∙◌, arith, List, [], ◌∷◌, ◌++◌, map, Bool, false, ◌==◌, ◌||◌, none, some,
}
use skyefs.Connection.Spec.{
  comma, slash, push, tokens, slashcount, cut_last, config_server, config_servers, parse_fs_spec,
}

unfoldable pub has_comma : List ℕ → Bool
has_comma [] = false
has_comma (c ∷ s) = c == comma || has_comma s

tokens_one : (a : List ℕ) → has_comma a ≡ false → tokens a ≡ a ∷ []
unfolding tokens push has_comma
tokens_one [] h = refl
tokens_one (c ∷ a) h =
    let e : (c == comma) ≡ false = ground (arith, h) in
    rw (e, tokens_one a (ground (arith, h))) refl

tokens_more : (a b : List ℕ) → has_comma a ≡ false → tokens (a ++ comma ∷ b) ≡ a ∷ tokens b
unfolding tokens push has_comma
tokens_more [] b h = refl
tokens_more (c ∷ a) b h =
    let e : (c == comma) ≡ false = ground (arith, h) in
    rw (e, tokens_more a b (ground (arith, h))) refl

has_comma-append :
    (a b : List ℕ) → has_comma a ≡ false → has_comma b ≡ false → has_comma (a ++ slash ∷ b) ≡ false
unfolding has_comma
has_comma-append [] b h k = k
has_comma-append (c ∷ a) b h k = ground (arith, h, has_comma-append a b (ground (arith, h)) k)

slashcount-append : (a b : List ℕ) → slashcount (a ++ slash ∷ b) ≡ slashcount a + slashcount b + 1
unfolding slashcount
slashcount-append [] b = omega arith
slashcount-append (c ∷ a) b = ground (arith, slashcount-append a b)

cut_last-none : (name : List ℕ) → slashcount name ≡ 0 → cut_last name ≡ none
unfolding cut_last slashcount
cut_last-none [] h = refl
cut_last-none (c ∷ name) h =
    let e : (c == slash) ≡ false = ground (arith, h) in
    rw (cut_last, cut_last-none name (ground (arith, h)), e) refl

cut_last-append :
    (a name : List ℕ) → slashcount name ≡ 0 → cut_last (a ++ slash ∷ name) ≡ some (a, name)
unfolding cut_last
cut_last-append [] name h = rw (cut_last-none name h) refl
cut_last-append (c ∷ a) name h = rw (cut_last-append a name h) refl

-- tcp://host:port
pub record IsAddress (server : List ℕ) : Type 0 where
  pub slashes : slashcount server ≡ 2
  pub whole : has_comma server ≡ false

pub record IsFsName (name : List ℕ) : Type 0 where
  pub slashes : slashcount name ≡ 0
  pub whole : has_comma name ≡ false

unfoldable pub AreAddresses : List (List ℕ) → Type 0
AreAddresses [] = Unit {0}
AreAddresses (server ∷ servers) = IsAddress server × AreAddresses servers

-- The specification of a server and of those after it.
unfoldable pub fs_spec : List ℕ → List ℕ → List (List ℕ) → List ℕ
fs_spec name server [] = server ++ slash ∷ name
fs_spec name server (next ∷ servers) = (server ++ slash ∷ name) ++ comma ∷ fs_spec name next servers

module _ {name : List ℕ} (n : IsFsName name) where
  config_server_lem :
      {server : List ℕ}
      → IsAddress server
      → config_server (server ++ slash ∷ name) ≡ some (server, name)
  unfolding config_server
  config_server_lem {server} a =
      let three : slashcount (server ++ slash ∷ name) ≡ 3 =
        omega (arith, slashcount-append server name, a.slashes, n.slashes) in
      rw (three, cut_last-append server name n.slashes) refl

  abbrev address : List ℕ → List ℕ
  address server = server ++ slash ∷ name

  tokens-fs_spec :
      (server : List ℕ) (servers : List (List ℕ))
      → IsAddress server
      → AreAddresses servers
      → tokens (fs_spec name server servers) ≡ map address (server ∷ servers)
  unfolding fs_spec AreAddresses
  tokens-fs_spec server [] a all =
      tokens_one (server ++ slash ∷ name) (has_comma-append server name a.whole n.whole)
  tokens-fs_spec server (next ∷ servers) a all =
      tokens_more (server ++ slash ∷ name) (fs_spec name next servers)
        (has_comma-append server name a.whole n.whole)
      ∙ ap (◌∷◌ (server ++ slash ∷ name)) (tokens-fs_spec next servers all.0 all.1)

  config_servers_lem :
      (servers : List (List ℕ))
      → AreAddresses servers
      → config_servers name (map address servers) ≡ some servers
  unfolding config_servers AreAddresses
  config_servers_lem [] all = refl
  config_servers_lem (server ∷ servers) all =
      rw
        (
          config_servers,
          config_server_lem all.0,
          config_servers_lem servers all.1,
          same_name_refl name,
        )
        refl

  -- For a name of a file system without a comma or a slash and servers that have two slashes and
  -- no comma, pvfs_connect reads the specification that has the addresses server/name with commas
  -- between them as these servers and this name.
  pub parse_fs_spec_lem :
      (server : List ℕ) (servers : List (List ℕ))
      → IsAddress server
      → AreAddresses servers
      → parse_fs_spec (fs_spec name server servers) ≡ some (server ∷ servers, name)
  unfolding parse_fs_spec
  parse_fs_spec_lem server servers a all =
      rw
        (
          parse_fs_spec,
          tokens-fs_spec server servers a all,
          config_server_lem a,
          config_servers_lem servers all,
        )
        refl
