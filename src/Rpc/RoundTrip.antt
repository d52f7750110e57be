-- ===== src/Rpc/RoundTrip.antt =====
-- common/skye_rpc_helper.c: what is written is read again.
use mathlib.Core.List.{append_assoc}
use skyefs.Prelude.{ℕ, ◌^◌, ◌<◌, ◌≡◌, refl, arith, List, ◌++◌, length, get_or, Option, some}
use skyefs.Rpc.{ObjectRef, Credentials}
use skyefs.Rpc.Encoding.{
  Xdr, put_object_ref, get_object_ref, put_credentials, get_credentials, put_mapping, get_mapping,
}
use skyefs.Giga.Mapping.{GigaMapping}
use skyefs.Giga.Mapping.Invariant.{IsUsable}

-- A routine that succeeds on a value and reads it back from the front of any bytes.
abbrev pub Writes : {A : Type 0} → Option (List ℕ) → (List ℕ → Option (A × List ℕ)) → A → Type 0
Writes put get a =
    (out : List ℕ) × (put ≡ some out) × ((rest : List ℕ) → get (out ++ rest) ≡ some (a, rest))

-- The library's routines on the values that their C types have.
pub record IsXdr (xdr : Xdr) : Type 0 where
  pub uint64 : (n : ℕ) → n < 2 ^ 64 → Writes (xdr.put_uint64 n) xdr.get_uint64 n
  pub uint32 : (n : ℕ) → n < 2 ^ 32 → Writes (xdr.put_uint32 n) xdr.get_uint32 n
  pub u_int : (n : ℕ) → n < 2 ^ 32 → Writes (xdr.put_u_int n) xdr.get_u_int n
  pub chars :
      (n : ℕ) (bytes : List ℕ)
      → length bytes ≡ n
      → ((i : ℕ) → get_or bytes i 0 < 256)
      → Writes (xdr.put_chars n bytes) (xdr.get_chars n) bytes

module _ {xdr : Xdr} (x : IsXdr xdr) where
  pub object_ref_back :
      (r : ObjectRef)
      → r.handle < 2 ^ 64
      → r.fs_id < 2 ^ 32
      → Writes (put_object_ref xdr r) (get_object_ref xdr) r
  unfolding put_object_ref get_object_ref
  object_ref_back r h f =
      let (a, put_a, get_a) = x.uint64 r.handle h in
      let (b, put_b, get_b) = x.uint32 r.fs_id f in
      (
        a ++ b,
        rw (put_a, put_b) refl,
        λ rest. rw (append_assoc a b rest, get_a (b ++ rest), get_b rest) refl,
      )

  pub credentials_back :
      (c : Credentials)
      → c.uid < 2 ^ 32
      → c.gid < 2 ^ 32
      → Writes (put_credentials xdr c) (get_credentials xdr) c
  unfolding put_credentials get_credentials
  credentials_back c h f =
      let (a, put_a, get_a) = x.uint32 c.uid h in
      let (b, put_b, get_b) = x.uint32 c.gid f in
      (
        a ++ b,
        rw (put_a, put_b) refl,
        λ rest. rw (append_assoc a b rest, get_a (b ++ rest), get_b rest) refl,
      )

  -- If the routines of the XDR library read back the numbers and bytes that they wrote, and a
  -- table has a well-formed bitmap, partition 0 and a server, and three numbers below 2 ^ 32,
  -- then xdr_giga_mapping_t writes the table, and reads it back from the front of any bytes,
  -- leaving those after it.
  pub mapping_back :
      {m : GigaMapping}
      → IsUsable m
      → m.curr_radix < 2 ^ 32
      → m.zeroth_server < 2 ^ 32
      → m.server_count < 2 ^ 32
      → Writes (put_mapping xdr m) (get_mapping xdr) m
  unfolding put_mapping get_mapping
  mapping_back {m} v r z n =
      let (a, put_a, get_a) = x.u_int m.curr_radix r in
      let (b, put_b, get_b) = x.u_int m.zeroth_server z in
      let (c, put_c, get_c) = x.u_int m.server_count n in
      let low : ((i : ℕ) → get_or m.bitmap i 0 < 256) = (λ i. omega (arith, v.bits.low i)) in
      let (d, put_d, get_d) = x.chars 147 m.bitmap v.bits.size low in
      (
        a ++ (b ++ (c ++ d)),
        rw (put_a, put_b, put_c, put_d) refl,
        λ rest.
            rw
              (
                append_assoc a (b ++ (c ++ d)) rest,
                get_a ((b ++ (c ++ d)) ++ rest),
                append_assoc b (c ++ d) rest,
                get_b ((c ++ d) ++ rest),
                append_assoc c d rest,
                get_c (d ++ rest),
                get_d rest,
              )
              refl,
      )
