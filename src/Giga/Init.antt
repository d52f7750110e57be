-- ===== src/Giga/Init.antt =====
-- common/giga_index.c: tables that are new, copied, or made from a bitmap.
use native.Mathlib.Decide.{ℕ_discrete, dec_lt}
use native.Mathlib.Nat.{one-le-pow}
use skyefs.Bits.{bit, bit-zero, bit-pow}
use skyefs.Prelude.{
  ℕ, zero, suc, ◌+◌, ◌/◌, ◌%◌, ◌^◌, ◌≤◌, ◌<◌, ◌≡◌, ◌≢◌, refl, arith, true, false, if◌then◌else◌,
  ◌⊎◌, inl, sym, ◌∙◌, ap, List, length, get_or, set, replicate, length-set, store-eq-set, ok, ◌==◌,
  ltb, lt→ltb,
}
use skyefs.Giga.Bitmap.{get_radix_from_index}
use skyefs.Giga.Bitmap.Members.{has, IsBitmap, load-eq-get_or, get_or-set, get_or_above}
use skyefs.Giga.Bitmap.Highest.{get_radix_from_bmap_lem}
use skyefs.Giga.Mapping.{
  GigaMapping, giga_init_mapping, copy_bytes, giga_copy_mapping, giga_init_mapping_from_bitmap,
}
use skyefs.Giga.Mapping.Invariant.{partitions, IsValid}
use skyefs.Giga.Tree.{IsTree}

get_or-replicate : (n i : ℕ) → get_or (replicate {A = ℕ} n 0) i 0 ≡ 0
get_or-replicate zero i = refl
get_or-replicate (suc n) zero = refl
get_or-replicate (suc n) (suc i) = get_or-replicate n i

-- The bitmap 1, 0, 0, ...
abbrev root_alone : List ℕ
root_alone = set (replicate {A = ℕ} 147 0) 0 1

root_byte : (i : ℕ) → get_or root_alone i 0 ≡ (if 0 == i then 1 else 0)
root_byte i =
    get_or-set (replicate 147 0) 0 i 1 (omega arith) ∙ ground (arith, get_or-replicate 147 i)

has-root_alone : (i : ℕ) → has root_alone i ≡ (0 == i)
unfolding has
has-root_alone i = rw (root_byte (i / 7)) (ground (arith, bit-pow (i % 7) 0, bit-zero (i % 7)))

small_byte : (v i : ℕ) → v ≡ (if 0 == i then 1 else 0) → v < 128
small_byte v i e = ground arith

root_alone-IsBitmap : IsBitmap root_alone
root_alone-IsBitmap = record { size = refl; low = λ i. small_byte _ i (root_byte i) }

root_alone-IsTree : IsTree (has root_alone)
root_alone-IsTree = record {
  root = has-root_alone 0;
  parents = λ i k h e. ground (arith, has-root_alone (i + 2 ^ k), one-le-pow k 2);
}

-- For any first server and number of servers, giga_init_mapping gives a valid table whose only
-- partition is 0.
pub giga_init_mapping-IsValid :
    (zeroth_server server_count : ℕ)
    → IsValid (giga_init_mapping zeroth_server server_count)
      × ((i : ℕ) → partitions (giga_init_mapping zeroth_server server_count) i ≡ (0 == i))
unfolding giga_init_mapping
giga_init_mapping-IsValid zeroth_server server_count = (
  record { bits = root_alone-IsBitmap; tree = root_alone-IsTree; served = ground arith },
  has-root_alone,
)

-- The rounds from i on write the bytes of `src` there and leave the others.
record IsCopied (i n : ℕ) (dest src r : List ℕ) : Type 0 where
  size : length r ≡ length dest
  outside : (j : ℕ) → (j < i) ⊎ (i + n ≤ j) → get_or r j 0 ≡ get_or dest j 0
  inside : (j : ℕ) → i ≤ j → j < i + n → get_or r j 0 ≡ get_or src j 0

module _ (src : List ℕ) where
  copy_bytes-IsCopied :
      (n i : ℕ) (dest : List ℕ)
      → i + n ≤ length dest
      → i + n ≤ length src
      → (r : List ℕ) × (copy_bytes n i dest src ≡ ok r) × IsCopied i n dest src r
  unfolding copy_bytes
  copy_bytes-IsCopied zero i dest a b = (
    dest,
    refl,
    record { size = refl; outside = λ j h. refl; inside = λ j h l. absurd (omega arith) },
  )
  copy_bytes-IsCopied (suc n) i dest a b =
      let room : i < length dest = omega arith in
      let v = get_or src i 0 in
      let w = get_or-set dest i in
      let (r, f, ih) =
        copy_bytes-IsCopied n (i + 1) (set dest i v) (omega (arith, length-set dest i v))
          (omega arith) in
      (
        r,
        rw (load-eq-get_or src i (omega arith), store-eq-set dest i v room) f,
        record {
          size = ih.size ∙ length-set dest i v;
          outside = λ j h. ih.outside j (omega arith) ∙ ground (arith, w j v room);
          inside = λ j h l. elim (ℕ_discrete j i) [
            | yes q ↦ rw q (ih.outside i (inl (omega arith)) ∙ ground (arith, w i v room))
            | no ne ↦ ih.inside j (omega arith) (omega arith)
          ];
        },
      )

-- All bytes taken over.
module _ {u : GigaMapping} (w : IsValid u) (dest r : List ℕ) (full : length dest ≡ 147)
    (c : IsCopied 0 147 dest u.bitmap r) where
  copied_byte : (i : ℕ) → get_or r i 0 ≡ get_or u.bitmap i 0
  copied_byte i = elim (dec_lt i 147) [
    | yes lt ↦ c.inside i (omega arith) (omega arith)
    | no ge ↦
        get_or_above r i (omega (arith, c.size))
        ∙ sym (get_or_above u.bitmap i (omega (arith, w.bits.size)))
  ]

  copied_members : (i : ℕ) → has r i ≡ has u.bitmap i
  unfolding has
  copied_members i = rw (copied_byte (i / 7))

  copied-IsBitmap : IsBitmap r
  copied-IsBitmap = record { size = c.size ∙ full; low = λ i. rw (copied_byte i) (w.bits.low i) }

  copied-IsTree : IsTree (has r)
  copied-IsTree = record {
    root = copied_members 0 ∙ w.tree.root;
    parents =
        λ i k h e. copied_members i ∙ w.tree.parents i k h (sym (copied_members (i + 2 ^ k)) ∙ e);
  }

-- For two valid tables and z not 0, giga_copy_mapping gives a valid table with the partitions of
-- the source and the servers of the destination.
pub giga_copy_mapping_lem :
    {m u : GigaMapping} (v : IsValid m) (w : IsValid u) (z : ℕ)
    → z ≢ 0
    → (m' : GigaMapping) × (giga_copy_mapping m u z ≡ ok m')
      × IsValid m'
      × ((i : ℕ) → partitions m' i ≡ partitions u i)
      × (m'.zeroth_server ≡ m.zeroth_server)
      × (m'.server_count ≡ m.server_count)
unfolding giga_copy_mapping
giga_copy_mapping_lem {m} {u} v w z ne =
    let (r, e, c) =
      copy_bytes-IsCopied u.bitmap 147 0 m.bitmap (omega (arith, v.bits.size))
        (omega (arith, w.bits.size)) in
    let bits = copied-IsBitmap w m.bitmap r v.bits.size c in
    let tree = copied-IsTree w m.bitmap r v.bits.size c in
    let (h, f, top) = get_radix_from_bmap_lem bits 0 tree.root in
    let nonzero : (z == 0) ≡ false = ground arith in
    (
      record m { bitmap = r; curr_radix = get_radix_from_index h },
      rw (nonzero, e, f) refl,
      record { bits = bits; tree = tree; served = v.served },
      copied_members w m.bitmap r v.bits.size c,
      refl,
      refl,
    )

root_nonzero : {u : GigaMapping} (w : IsValid u) → 0 < get_or u.bitmap 0 0
unfolding bit has
root_nonzero {u} w = nonzero (get_or u.bitmap 0 0) w.tree.root
  where
    nonzero : (v : ℕ) → (bit 0 v == 1) ≡ true → 0 < v
    nonzero v h = ground (arith, bit-zero 0, λ (e : v ≡ 0). ap (bit 0) e)

-- From the bitmap of a valid table giga_init_mapping_from_bitmap makes a valid table with the
-- same partitions, the first server given, and the number of servers given if it is not 0.
pub giga_init_mapping_from_bitmap_lem :
    {u : GigaMapping} (w : IsValid u) (zeroth_server server_count : ℕ)
    → (m' : GigaMapping) × (giga_init_mapping_from_bitmap u.bitmap 147 zeroth_server server_count
        ≡ ok m')
      × IsValid m'
      × ((i : ℕ) → partitions m' i ≡ partitions u i)
      × (m'.zeroth_server ≡ zeroth_server)
      × (0 < server_count → m'.server_count ≡ server_count)
unfolding giga_init_mapping_from_bitmap giga_init_mapping
giga_init_mapping_from_bitmap_lem {u} w z n =
    let (r, e, c) =
      copy_bytes-IsCopied u.bitmap 147 0 root_alone (omega arith) (omega (arith, w.bits.size)) in
    let bits = copied-IsBitmap w root_alone r refl c in
    let tree = copied-IsTree w root_alone r refl c in
    let (h, f, top) = get_radix_from_bmap_lem bits 0 tree.root in
    (
      record {
        bitmap = r;
        curr_radix = get_radix_from_index h;
        zeroth_server = z;
        server_count = if ltb 0 n then n else 1;
      },
      rw (load-eq-get_or u.bitmap 0 (omega (arith, w.bits.size)), lt→ltb 0 _ (root_nonzero w), e, f)
          refl,
      record { bits = bits; tree = tree; served = ground arith },
      copied_members w root_alone r refl c,
      refl,
      λ h. ground arith,
    )
