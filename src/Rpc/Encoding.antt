-- ===== src/Rpc/Encoding.antt =====
-- common/skye_rpc_helper.c: the XDR routines of the types that the procedures pass. One C function
-- both writes and reads, as the stream says; here each has two, which give `none` for FALSE.
use skyefs.Prelude.{ℕ, List, ◌++◌, Option, none, some}
use skyefs.Rpc.{ObjectRef, Credentials}
use skyefs.Giga.Bitmap.{max_bmap_len}
use skyefs.Giga.Mapping.{GigaMapping}

infixl 5 ◌>>=◌
-- FALSE ends a routine.
abbrev ◌>>=◌ : {A B : Type 0} → Option A → (A → Option B) → Option B
none >>= next = none
some a >>= next = next a

-- The library's xdr_uint64_t, xdr_uint32_t, xdr_u_int and xdr_vector of xdr_char: the bytes that
-- they write, and what they read from the front of some bytes.
pub record Xdr : Type 0 where
  pub put_uint64 : ℕ → Option (List ℕ)
  pub get_uint64 : List ℕ → Option (ℕ × List ℕ)
  pub put_uint32 : ℕ → Option (List ℕ)
  pub get_uint32 : List ℕ → Option (ℕ × List ℕ)
  pub put_u_int : ℕ → Option (List ℕ)
  pub get_u_int : List ℕ → Option (ℕ × List ℕ)
  pub put_chars : ℕ → List ℕ → Option (List ℕ)
  pub get_chars : ℕ → List ℕ → Option (List ℕ × List ℕ)

module _ (xdr : Xdr) where
  open xdr use {
    put_uint64, get_uint64, put_uint32, get_uint32, put_u_int, get_u_int, put_chars, get_chars,
  }

  unfoldable pub put_object_ref : ObjectRef → Option (List ℕ)
  put_object_ref r = do
    handle ← put_uint64 r.handle
    fs_id ← put_uint32 r.fs_id
    some (handle ++ fs_id)

  unfoldable pub get_object_ref : List ℕ → Option (ObjectRef × List ℕ)
  get_object_ref bytes = do
    handle ← get_uint64 bytes
    fs_id ← get_uint32 handle.1
    some (record { handle = handle.0; fs_id = fs_id.0 }, fs_id.1)

  unfoldable pub put_credentials : Credentials → Option (List ℕ)
  put_credentials c = do uid ← put_uint32 c.uid; gid ← put_uint32 c.gid; some (uid ++ gid)

  unfoldable pub get_credentials : List ℕ → Option (Credentials × List ℕ)
  get_credentials bytes = do
    uid ← get_uint32 bytes
    gid ← get_uint32 uid.1
    some (record { uid = uid.0; gid = gid.0 }, gid.1)

  unfoldable pub put_mapping : GigaMapping → Option (List ℕ)
  put_mapping m = do
    curr_radix ← put_u_int m.curr_radix
    zeroth_server ← put_u_int m.zeroth_server
    server_count ← put_u_int m.server_count
    bitmap ← put_chars max_bmap_len m.bitmap
    some (curr_radix ++ (zeroth_server ++ (server_count ++ bitmap)))

  unfoldable pub get_mapping : List ℕ → Option (GigaMapping × List ℕ)
  get_mapping bytes = do
    curr_radix ← get_u_int bytes
    zeroth_server ← get_u_int curr_radix.1
    server_count ← get_u_int zeroth_server.1
    bitmap ← get_chars max_bmap_len server_count.1
    some (
      record {
        bitmap = bitmap.0;
        curr_radix = curr_radix.0;
        zeroth_server = zeroth_server.0;
        server_count = server_count.0;
      },
      bitmap.1,
    )
