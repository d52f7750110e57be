-- ===== src/Tests/Cluster.antt =====
-- The client's loop at two servers, of which server 1 has the name and server 0 sends its table.
use skyefs.Prelude.{
  some, none, true, false, [], ◌∷◌, ℕ, ◌+◌, ◌<◌, ◌≡◌, ◌≢◌, ◌==◌, if◌then◌else◌, refl, sym, arith,
  ok, Bool-cases, inl, inr,
}
use skyefs.Giga.Mapping.{GigaMapping, giga_init_mapping}
use skyefs.Giga.Mapping.Invariant.{usable, partitions}
use skyefs.Giga.Index.{giga_get_server_for_file}
use skyefs.Giga.Init.{giga_init_mapping-IsValid}
use skyefs.Client.Retry.{Answer, again, final, ask}
use skyefs.Client.Retry.Ends.{IsTableOf, IsCluster, Ends, ask_returns}
use skyefs.Rpc.{ObjectRef, rpc_failed}
use skyefs.Server.Directory.{at_ref}
use skyefs.Client.Files.{SysAttr, metafile}
use skyefs.Client.Files.Attributes.{Storage, replied}
use skyefs.Client.Cache.{SkyeDirectory, find, write}
use skyefs.Client.Operations.{Services, ClientState, in_directory}
use skyefs.Client.Returns.{in_directory-returns}
use skyefs.Tests.{
  toy_sha, name, name-IsDigest, fresh, grown, fresh-IsValid, grown-IsValid, grown-IsBounded,
  at_child,
}

abbrev reply : ℕ → Answer ℕ
reply s = if s == 1 then final 7 else again grown

abbrev stub : ℕ → ℕ → Answer ℕ × ℕ
stub s w = (reply s, w + 1)

grown-IsTableOf : IsTableOf (partitions grown) 0 2 grown
grown-IsTableOf = record {
  usable = usable grown-IsValid;
  known = λ i h. h;
  start = refl;
  servers = refl;
}

fresh-IsTableOf : IsTableOf (partitions grown) 0 2 fresh
unfolding giga_init_mapping
fresh-IsTableOf = record {
  usable = usable fresh-IsValid;
  known = λ i h. ground (arith, (giga_init_mapping-IsValid 0 2).1 i, grown-IsValid.tree.root);
  start = refl;
  servers = refl;
}

-- Only server 0 sends the table, which has the name on server 1.
redirected :
    (s : ℕ) (t : GigaMapping)
    → reply s ≡ again t
    → (t ≡ grown) × (giga_get_server_for_file toy_sha t name ≢ ok s)
redirected s t e = elim (Bool-cases (s == 1)) [
  | inl same ↦ absurd (ground (arith, same))
  | inr other ↦
      let q : grown ≡ t = ground (arith, other) in
      let at = at_child in (sym q, λ h. let k : 1 ≡ s = cc in ground (arith, k))
]

cluster : IsCluster toy_sha stub name (λ w. Unit {0}) (λ w. partitions grown) 0 2 (λ w s. grown)
cluster = record {
  kept = λ s w t g lt e. tt;
  small = λ w i g h. omega (arith, grown-IsBounded i h);
  table = λ w s g. grown-IsTableOf;
  owned = λ w s i g h at_s. h;
  grows = λ s w i g h. h;
  redirects = λ s w t g lt e. redirected s t e;
}

ask_example : Ends toy_sha stub name name-IsDigest cluster (ask toy_sha 2 stub 10 name fresh 0)
ask_example = ask_returns toy_sha stub name name-IsDigest cluster fresh 0 tt fresh-IsTableOf

abbrev directory : ObjectRef
directory = record { handle = 9; fs_id = 1 }

abbrev pub attrs : ObjectRef → SysAttr
attrs object = record {
  objtype = metafile;
  size = some object.handle;
  link_target = none;
  owner = 0;
  group = 0;
  atime = 1;
  mtime = 2;
  ctime = 3;
  o_execute = false;
  o_write = false;
  o_read = true;
  g_execute = false;
  g_write = false;
  g_read = true;
  u_execute = false;
  u_write = true;
  u_read = true;
  g_sgid = false;
  u_suid = false;
}

abbrev pub storage : {W : Type 0} → Storage W
storage = record {
  lookup_root = λ creds w. (at_ref directory, w);
  sys_getattr = λ object creds w. (replied (attrs object), w);
  sys_setattr = λ object attr creds w. (0, w);
  sys_truncate = λ object size creds w. (0, w);
  request_contiguous = λ size w. (0, w);
  request_free = λ w. w;
  sys_read = λ object size offset creds w. (replied [], w);
  sys_write = λ object buf offset creds w. (replied 0, w);
  now = λ w. 0;
  perm_valid = 0o7777;
  fsid = 1;
}

abbrev services : Services ℕ
services = record {
  rpc_lookup = λ s creds parent name w. (rpc_failed, w);
  rpc_partition = λ s creds parent name w. (rpc_failed, w);
  rpc_create = λ s creds parent name mode w. (rpc_failed, w);
  rpc_mkdir = λ s creds parent name mode w. (rpc_failed, w);
  rpc_rename = λ s creds a b c d w. (rpc_failed, w);
  rpc_remove = λ s creds parent name w. (rpc_failed, w);
  get_mds = λ handle. 0;
  memory = true;
  servercount = 2;
  storage = storage;
}

abbrev cached : SkyeDirectory
cached = record { mapping = fresh; refcount = 0; handle = directory }

abbrev client : ClientState ℕ
client = record { dircache = cached ∷ []; root_handle = 0; world = 0 }

in_directory_example :
    (a : ℕ) × (m' : GigaMapping) × (after : ClientState ℕ) × (in_directory toy_sha services 10 stub
        directory name client
      ≡ ok (some a, after))
    × IsTableOf (partitions grown) 0 2 m'
    × (after.dircache ≡ write directory (record cached { mapping = m' }) (cached ∷ []))
    × (after.root_handle ≡ 0)
    × ((s : ℕ) × (w : ℕ) × (s < 2) × Unit {0} × (stub s w ≡ (final a, after.world)))
unfolding find
in_directory_example =
    in_directory-returns toy_sha services stub directory name client name-IsDigest cluster tt refl
      fresh-IsTableOf
