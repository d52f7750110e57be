-- ===== src/Client/Files/Listing.antt =====
-- common/connection.c: pvfs_readdir. client/operations.c: opendir, readdir and releasedir, where
-- opendir lists the entries of all partitions of a directory into one buffer.
use skyefs.Prelude.{
  ℕ, zero, suc, ◌+◌, ◌-◌, ◌%◌, ◌^◌, min, List, [], ◌∷◌, ◌++◌, length, take, drop, Bool, true, false,
  leb, ◌==◌, if◌then◌else◌, Outcome, ok, fault, out_of_rounds, out_of_bounds, ◌>>=◌,
}
use skyefs.Rpc.{ObjectRef}
use skyefs.Client.Files.Attributes.{Reply, failed, replied}

-- PVFS_dirent.
pub record Dirent : Type 0 where
  pub d_name : List ℕ
  pub handle : ℕ

-- The entries of a reply of PVFS_sys_readdir and the token to go on from.
pub record Listed : Type 0 where
  pub dirents : List Dirent
  pub token : ℕ

-- The for loop, which a callback ends.
unfoldable pub call_each :
    {S : Type 0} → (Dirent → S → Outcome (Bool × S)) → List Dirent → S → Outcome S
call_each callback [] s = ok s
call_each callback (d ∷ dirents) s =
    callback d s >>= λ r. let rest = call_each callback dirents r.1 in if r.0 then ok r.1 else rest

-- `sys_readdir` asks for so many entries from a token on, `start` is PVFS_READDIR_START. A callback
-- may change the state and says whether it gives a number other than 0.
module _ {S : Type 0} (sys_readdir : ObjectRef → ℕ → ℕ → S → Reply Listed × S) (start : ℕ) where
  -- The do loop, 256 entries at a time, which a callback does not end; 0 or an errno.
  unfoldable pub read_pages :
      (fuel : ℕ) → (Dirent → S → Outcome (Bool × S)) → ObjectRef → ℕ → S → Outcome (ℕ × S)
  unfolding call_each
  read_pages zero callback ref token s = fault out_of_rounds
  read_pages (suc f) callback ref token s =
      let got = sys_readdir ref token 256 s in
      elim got.0 [
        | failed e ↦ ok (e, got.1)
        | replied r ↦ call_each callback r.dirents got.1 >>= λ s'.
            let rest = read_pages f callback ref r.token s' in
            if length r.dirents == 256 then rest else ok (0, s')
      ]

  unfoldable pub pvfs_readdir :
      (fuel : ℕ) → (Dirent → S → Outcome (Bool × S)) → ObjectRef → S → Outcome (ℕ × S)
  unfolding read_pages
  pvfs_readdir fuel callback ref s = read_pages fuel callback ref start s

-- struct direntbuf with the state of everything else.
pub record Opening (W : Type 0) : Type 0 where
  pub buf : List ℕ
  pub world : W

-- PVFS_sys_readdir beside the buffer.
unfoldable pub beside :
    {W : Type 0}
    → (ObjectRef → ℕ → ℕ → W → Reply Listed × W)
    → ObjectRef
    → ℕ
    → ℕ
    → Opening W
    → Reply Listed × Opening W
beside sys_readdir ref token count s =
    let got = sys_readdir ref token count s.world in (got.0, record s { world = got.1 })

-- Whether the name begins with 'p'; the name is at least its terminating 0.
unfoldable pub is_partition : List ℕ → Bool
is_partition [] = false
is_partition (c ∷ name) = c == 0x70

-- `fuse_add_direntry` gives the bytes of an entry, from its name, its inode and the offset that it
-- is to have; their number depends on the name only. `memory` is whether realloc succeeds.
module _ {W : Type 0} (sys_readdir : ObjectRef → ℕ → ℕ → W → Reply Listed × W) (start : ℕ)
    (fuse_add_direntry : List ℕ → ℕ → ℕ → List ℕ) (memory : Bool) (fsid rounds : ℕ) where
  unfoldable pub add_to_buf : Dirent → Opening W → Outcome (Bool × Opening W)
  add_to_buf d s =
      let entrysize = length (fuse_add_direntry d.d_name 0 0) in
      let entry = fuse_add_direntry d.d_name d.handle (length s.buf + entrysize) in
      if memory then ok (false, record s { buf = s.buf ++ entry }) else ok (true, s)

  unfoldable pub recurse : Dirent → Opening W → Outcome (Bool × Opening W)
  unfolding pvfs_readdir beside add_to_buf is_partition
  recurse d s =
      let ref : ObjectRef = record { handle = d.handle; fs_id = fsid } in
      let listed : Outcome (Bool × Opening W) =
        (pvfs_readdir (beside sys_readdir) start rounds add_to_buf ref s >>= λ r.
        ok (if r.0 == 0 then false else true, r.1)) in
      if is_partition d.d_name then listed else ok (false, s)

  -- From the reference of the directory on, when calloc gave a buffer.
  unfoldable pub skye_ll_opendir : ObjectRef → W → Outcome (Opening W)
  unfolding pvfs_readdir beside recurse
  skye_ll_opendir ref w =
      pvfs_readdir (beside sys_readdir) start rounds recurse ref (record { buf = []; world = w })
      >>= λ r. ok r.1

-- What fuse_reply_buf reads: so many bytes from a place of the buffer on, none past its end.
abbrev pub bytes_at : List ℕ → ℕ → ℕ → Outcome (List ℕ)
bytes_at buf offset n =
    if leb (offset + n) (length buf) then ok (take n (drop offset buf)) else fault out_of_bounds

-- db->size - offset is in size_t.
unfoldable pub skye_ll_readdir : List ℕ → ℕ → ℕ → Outcome (List ℕ)
skye_ll_readdir buf size offset =
    if leb (length buf) offset
    then ok []
    else bytes_at buf offset (min ((length buf + (2 ^ 64 - offset)) % 2 ^ 64) size)
