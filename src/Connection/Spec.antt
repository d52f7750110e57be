-- ===== src/Connection/Spec.antt =====
-- common/connection.c: how pvfs_connect reads the file system specification, a list of addresses
-- tcp://host:port/name with commas between them. `none` stands for exit(-1).
use skyefs.Prelude.Strings.{same_name}
use skyefs.Prelude.{ℕ, ◌+◌, List, [], ◌∷◌, ◌==◌, if◌then◌else◌, Option, none, some}

abbrev pub comma : ℕ
comma = 0x2c

abbrev pub slash : ℕ
slash = 0x2f

-- A character before the first token.
unfoldable pub push : ℕ → List (List ℕ) → List (List ℕ)
push c [] = (c ∷ []) ∷ []
push c (tok ∷ toks) = (c ∷ tok) ∷ toks

-- strsep(&cp, ",") until there is no token.
unfoldable pub tokens : List ℕ → List (List ℕ)
unfolding push
tokens [] = [] ∷ []
tokens (c ∷ cp) = let rest = tokens cp in if c == comma then [] ∷ rest else push c rest

-- The loop over index(slash, '/').
unfoldable pub slashcount : List ℕ → ℕ
slashcount [] = 0
slashcount (c ∷ tok) = let n = slashcount tok in if c == slash then n + 1 else n

-- What is before and after rindex(tok, '/').
unfoldable pub cut_last : List ℕ → Option (List ℕ × List ℕ)
cut_last [] = none
cut_last (c ∷ tok) = elim (cut_last tok) [
  | some r ↦ some (c ∷ r.0, r.1)
  | none ↦ if c == slash then some ([], tok) else none
]

-- A config server and the name of the file system.
unfoldable pub config_server : List ℕ → Option (List ℕ × List ℕ)
unfolding slashcount cut_last
config_server tok = if slashcount tok == 3 then cut_last tok else none

-- The servers after the first, which must have the same name.
unfoldable pub config_servers : List ℕ → List (List ℕ) → Option (List (List ℕ))
unfolding config_server
config_servers fs_name [] = some []
config_servers fs_name (tok ∷ toks) = elim (config_server tok) [
  | none ↦ none
  | some r ↦ elim (config_servers fs_name toks) [
    | none ↦ none
    | some servers ↦ if same_name r.1 fs_name then some (r.0 ∷ servers) else none
  ]
]

-- pvfs_config_servers and pvfs_fs_name.
unfoldable pub parse_fs_spec : List ℕ → Option (List (List ℕ) × List ℕ)
unfolding tokens config_servers
parse_fs_spec fs_spec = elim (tokens fs_spec) [
  | [] ↦ none
  | tok ∷ toks ↦ elim (config_server tok) [
    | none ↦ none
    | some r ↦ elim (config_servers r.1 toks) [
      | none ↦ none
      | some servers ↦ some (r.0 ∷ servers, r.1)
    ]
  ]
]
