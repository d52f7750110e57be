-- ===== src/Client/Files/Attributes.antt =====
-- client/operations.c: getattr, setattr, open, read and write.
use skyefs.Prelude.{ℕ, bit_and, List, length, Bool, ◌==◌, if◌then◌else◌, Option, none, some}
use skyefs.Rpc.{ObjectRef, Credentials}
use skyefs.Server.Directory.{PvfsLookup, at_ref, pvfs_error}
use skyefs.Client.Files.{SysAttr, Stat, stat_of}

-- A result of PVFS: an error, as the errno that PVFS_get_errno_mapping gives it, or what it returns.
pub data Reply (A : Type 0) : Type 0 where
  failed : ℕ → Reply A
  replied : A → Reply A

-- PVFS_sys_attr with the mask: the attributes to set.
pub record NewAttr : Type 0 where
  pub perms : Option ℕ
  pub owner : Option ℕ
  pub group : Option ℕ
  pub atime : Option ℕ
  pub mtime : Option ℕ

-- The bits of `to_set`.
pub record ToSet : Type 0 where
  pub mode : Bool
  pub uid : Bool
  pub gid : Bool
  pub size : Bool
  pub atime : Bool
  pub mtime : Bool
  pub atime_now : Bool
  pub mtime_now : Bool

-- What the client calls: PVFS_sys_lookup of "/", PVFS_sys_getattr, PVFS_sys_setattr and
-- PVFS_sys_truncate with 0 or an errno, PVFS_Request_contiguous and PVFS_Request_free, PVFS_sys_read
-- with the bytes completed, PVFS_sys_write with their number, time(NULL), PVFS_PERM_VALID, and
-- pvfs_fsid.
pub record Storage (W : Type 0) : Type 0 where
  pub lookup_root : Credentials → W → PvfsLookup × W
  pub sys_getattr : ObjectRef → Credentials → W → Reply SysAttr × W
  pub sys_setattr : ObjectRef → NewAttr → Credentials → W → ℕ × W
  pub sys_truncate : ObjectRef → ℕ → Credentials → W → ℕ × W
  pub request_contiguous : ℕ → W → ℕ × W
  pub request_free : W → W
  pub sys_read : ObjectRef → ℕ → ℕ → Credentials → W → Reply (List ℕ) × W
  pub sys_write : ObjectRef → List ℕ → ℕ → Credentials → W → Reply ℕ × W
  pub now : W → ℕ
  pub perm_valid : ℕ
  pub fsid : ℕ

-- `root_handle` is the static variable of inode2handle.
pub record FilesState (W : Type 0) : Type 0 where
  pub root_handle : ℕ
  pub world : W

-- What an operation tells FUSE; `reply_negated e` is fuse_reply_err with -e.
pub data FileReply : Type 0 where
  reply_negated : ℕ → FileReply
  reply_attr : Stat → FileReply
  reply_open : ℕ → FileReply
  reply_buf : List ℕ → FileReply
  reply_write : ℕ → FileReply

-- FUSE_ROOT_ID
abbrev pub fuse_root_id : ℕ
fuse_root_id = 1

module _ {W : Type 0} (storage : Storage W) where
  open storage use {
    lookup_root, sys_getattr, sys_setattr, sys_truncate, request_contiguous, request_free, sys_read,
    sys_write, now, perm_valid, fsid,
  }

  -- The handle of "/" is asked for once; if that fails, the errno is taken for a handle.
  unfoldable pub inode2handle : Credentials → ℕ → FilesState W → ℕ × FilesState W
  inode2handle creds ino st =
      let found = lookup_root creds st.world in
      let asked : ℕ × FilesState W = elim found.0 [
        | pvfs_error e ↦ (e, record st { world = found.1 })
        | at_ref r ↦ (r.handle, record { root_handle = r.handle; world = found.1 })
      ] in
      if ino == fuse_root_id
      then if st.root_handle == 0 then asked else (st.root_handle, st)
      else (ino, st)

  unfoldable pub inode_ref : Credentials → ℕ → FilesState W → ObjectRef × FilesState W
  unfolding inode2handle
  inode_ref creds ino st =
      let (handle, st') = inode2handle creds ino st in
      (record { handle = handle; fs_id = fsid }, st')

  unfoldable pub pvfs_getattr : Credentials → ObjectRef → W → Reply Stat × W
  unfolding stat_of
  pvfs_getattr creds ref w =
      let got = sys_getattr ref creds w in
      elim got.0 [ failed e ↦ (failed e, got.1) | replied a ↦ (replied (stat_of ref a), got.1) ]

  -- How skye_ll_getattr and skye_ll_setattr end.
  unfoldable pub reply_stat : Credentials → ObjectRef → FilesState W → FileReply × FilesState W
  unfolding pvfs_getattr
  reply_stat creds ref st =
      let got = pvfs_getattr creds ref st.world in
      let st' = record st { world = got.1 } in
      elim got.0 [ failed e ↦ (reply_negated e, st') | replied s ↦ (reply_attr s, st') ]

  unfoldable pub skye_ll_getattr : Credentials → ℕ → FilesState W → FileReply × FilesState W
  unfolding inode_ref reply_stat
  skye_ll_getattr creds ino st = let (ref, st') = inode_ref creds ino st in reply_stat creds ref st'

  unfoldable pub new_attr : ToSet → Stat → ℕ → NewAttr
  new_attr to_set attr time = record {
    perms = if to_set.mode then some (bit_and attr.st_mode perm_valid) else none;
    owner = if to_set.uid then some attr.st_uid else none;
    group = if to_set.gid then some attr.st_gid else none;
    atime =
        if to_set.atime_now then some time else if to_set.atime then some attr.st_atime else none;
    mtime =
        if to_set.mtime_now then some time else if to_set.mtime then some attr.st_mtime else none;
  }

  unfoldable pub skye_ll_setattr :
      Credentials → ℕ → Stat → ToSet → FilesState W → FileReply × FilesState W
  unfolding inode_ref reply_stat new_attr
  skye_ll_setattr creds ino attr to_set st =
      let (ref, st') = inode_ref creds ino st in
      let (ret, w) = sys_setattr ref (new_attr to_set attr (now st'.world)) creds st'.world in
      let cut = sys_truncate ref attr.st_size creds w in
      let ended = (λ (v : W). reply_stat creds ref (record st' { world = v })) in
      let truncated : FileReply × FilesState W =
        (if cut.0 == 0 then ended cut.1 else (reply_negated cut.0, record st' { world = cut.1 })) in
      if ret == 0
      then if to_set.size then truncated else ended w
      else (reply_negated ret, record st' { world = w })

  unfoldable pub skye_ll_open : Credentials → ℕ → FilesState W → FileReply × FilesState W
  unfolding inode_ref
  skye_ll_open creds ino st =
      let (ref, st') = inode_ref creds ino st in (reply_open ref.handle, st')

  -- The request is freed only after a read or a write that succeeded.
  unfoldable pub skye_ll_read : Credentials → ℕ → ℕ → ℕ → FilesState W → FileReply × FilesState W
  unfolding inode_ref
  skye_ll_read creds ino size offset st =
      let (ref, st') = inode_ref creds ino st in
      let (ret, w) = request_contiguous size st'.world in
      let got = sys_read ref size offset creds w in
      let done : FileReply × FilesState W = elim got.0 [
        | failed e ↦ (reply_negated e, record st' { world = got.1 })
        | replied bytes ↦ (reply_buf bytes, record st' { world = request_free got.1 })
      ] in
      if ret == 0 then done else (reply_negated ret, record st' { world = w })

  unfoldable pub skye_ll_write :
      Credentials → ℕ → List ℕ → ℕ → FilesState W → FileReply × FilesState W
  unfolding inode_ref
  skye_ll_write creds ino buf offset st =
      let (ref, st') = inode_ref creds ino st in
      let (ret, w) = request_contiguous (length buf) st'.world in
      let put = sys_write ref buf offset creds w in
      let done : FileReply × FilesState W = elim put.0 [
        | failed e ↦ (reply_negated e, record st' { world = put.1 })
        | replied n ↦ (reply_write n, record st' { world = request_free put.1 })
      ] in
      if ret == 0 then done else (reply_negated ret, record st' { world = w })
