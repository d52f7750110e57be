-- ===== src/Giga/Merge.antt =====
-- common/giga_index.c: `giga_update_cache` as an operation on sets.
use skyefs.Bits.{bit-or, bit-lt, or-lt}
use native.Mathlib.Decide.{ℕ_discrete, dec_lt}
use skyefs.Prelude.{
  ℕ, zero, suc, ◌+◌, ◌/◌, ◌%◌, ◌^◌, ◌≤◌, ◌<◌, ◌≡◌, refl, arith, true, ◌||◌, if◌then◌else◌, ◌∙◌, ap,
  List, length, get_or, set, length-set, store-eq-set, bit_or, ok, ltb, max,
}
use skyefs.Giga.Bitmap.{get_radix_from_index}
use skyefs.Giga.Bitmap.Members.{has, IsBitmap, load-eq-get_or, get_or-set, get_or_above}
use skyefs.Giga.Bitmap.Highest.{get_radix_from_bmap_lem}
use skyefs.Giga.Mapping.{GigaMapping, merge_bytes, giga_update_cache}
use skyefs.Giga.Mapping.Invariant.{partitions, IsValid, IsUsable, usable}
use skyefs.Giga.Tree.{Partitions, IsTree}

-- From byte i on `r` is the union of the two arrays, and before it the first one.
record IsMerged (i : ℕ) (curr update r : List ℕ) : Type 0 where
  size : length r ≡ length curr
  before : (j : ℕ) → j < i → get_or r j 0 ≡ get_or curr j 0
  after :
      (j : ℕ)
      → i ≤ j
      → j < length curr
      → get_or r j 0 ≡ bit_or (get_or curr j 0) (get_or update j 0)

module _ (update : List ℕ) (full : length update ≡ 147) where
  merge_bytes-IsMerged :
      (n i : ℕ) (curr : List ℕ)
      → length curr ≡ 147
      → i + n ≡ 147
      → (r : List ℕ) × (merge_bytes n i curr update ≡ ok r) × IsMerged i curr update r
  unfolding merge_bytes
  merge_bytes-IsMerged zero i curr size e = (
    curr,
    refl,
    record { size = refl; before = λ j h. refl; after = λ j h l. absurd (omega arith) },
  )
  merge_bytes-IsMerged (suc n) i curr size e =
      let inside : i < length curr = omega arith in
      let v = bit_or (get_or curr i 0) (get_or update i 0) in
      let w = get_or-set curr i in
      let (r, f, ih) =
        merge_bytes-IsMerged n (i + 1) (set curr i v) (length-set curr i v ∙ size) (omega arith) in
      (
        r,
        rw
            (
              load-eq-get_or curr i inside,
              load-eq-get_or update i (omega arith),
              store-eq-set curr i v inside,
            )
            f,
        record {
          size = ih.size ∙ length-set curr i v;
          before = λ j h. ground (arith, ih.before j, w j v inside);
          after = λ j h l. elim (ℕ_discrete j i) [
            | yes q ↦ rw q (ih.before i (omega arith) ∙ ground (arith, w i v inside))
            | no ne ↦
                ih.after j (omega arith) (omega (arith, length-set curr i v))
                ∙ ap (λ t. bit_or t (get_or update j 0)) (ground (arith, w j v inside))
          ];
        },
      )

module _ {m u : GigaMapping} (v : IsUsable m) (w : IsUsable u) where
  merged_byte :
      (r : List ℕ)
      → IsMerged 0 m.bitmap u.bitmap r
      → (i : ℕ) → get_or r i 0 ≡ bit_or (get_or m.bitmap i 0) (get_or u.bitmap i 0)
  merged_byte r g i = elim (dec_lt i 147) [
    | yes lt ↦ g.after i (omega arith) (omega (arith, v.bits.size))
    | no ge ↦ rw (
      get_or_above r i (omega (arith, g.size, v.bits.size)),
      get_or_above m.bitmap i (omega (arith, v.bits.size)),
      get_or_above u.bitmap i (omega (arith, w.bits.size)),
    )
  ]

  merged_members :
      (r : List ℕ)
      → IsMerged 0 m.bitmap u.bitmap r
      → (i : ℕ) → has r i ≡ (has m.bitmap i || has u.bitmap i)
  unfolding has
  merged_members r g i =
      let a = get_or m.bitmap (i / 7) 0 in
      let b = get_or u.bitmap (i / 7) 0 in
      rw (merged_byte r g (i / 7), bit-or (i % 7) a b)
        (ground (arith, bit-lt (i % 7) a, bit-lt (i % 7) b))

  merged-IsBitmap : (r : List ℕ) → IsMerged 0 m.bitmap u.bitmap r → IsBitmap r
  merged-IsBitmap r g = record {
    size = g.size ∙ v.bits.size;
    low = λ i. rw (merged_byte r g i) (or-lt 7 _ _ (v.bits.low i) (w.bits.low i));
  }

  merged-root : (r : List ℕ) → IsMerged 0 m.bitmap u.bitmap r → has r 0 ≡ true
  merged-root r g = ground (arith, merged_members r g 0, v.root)

  -- The table keeps the client's first server, and takes the larger number of servers.
  pub giga_update_cache-IsUsable :
      (m' : GigaMapping) × (giga_update_cache m u ≡ ok m')
      × IsUsable m'
      × ((i : ℕ) → partitions m' i ≡ (partitions m i || partitions u i))
      × (m'.zeroth_server ≡ m.zeroth_server)
      × (m'.server_count ≡ max m.server_count u.server_count)
  unfolding giga_update_cache
  giga_update_cache-IsUsable =
      let (r, e, g) = merge_bytes-IsMerged u.bitmap w.bits.size 147 0 m.bitmap v.bits.size refl in
      let (h, f, top) = get_radix_from_bmap_lem (merged-IsBitmap r g) 0 (merged-root r g) in
      let count = if ltb m.server_count u.server_count then u.server_count else m.server_count in
      (
        record m { bitmap = r; curr_radix = get_radix_from_index h; server_count = count },
        rw (e, f) refl,
        record {
          bits = merged-IsBitmap r g;
          root = merged-root r g;
          served = ground (arith, v.served, w.served);
        },
        merged_members r g,
        refl,
        ground arith,
      )

-- The union of two trees.
union-IsTree :
    {ps ts qs : Partitions} → IsTree ps → IsTree ts → ((i : ℕ) → qs i ≡ (ps i || ts i)) → IsTree qs
union-IsTree t t' union = record {
  root = ground (arith, union 0, t.root);
  parents =
      λ i k h e. ground (arith, union i, union (i + 2 ^ k), t.parents i k h, t'.parents i k h);
}

-- For two valid tables, giga_update_cache succeeds with a valid table that has the partitions of
-- both, the first server of the client's, and the larger of the two numbers of servers.
pub giga_update_cache_lem :
    {m u : GigaMapping} (v : IsValid m) (w : IsValid u)
    → (m' : GigaMapping) × (giga_update_cache m u ≡ ok m')
      × IsValid m'
      × ((i : ℕ) → partitions m' i ≡ (partitions m i || partitions u i))
      × (m'.zeroth_server ≡ m.zeroth_server)
      × (m'.server_count ≡ max m.server_count u.server_count)
giga_update_cache_lem v w =
    let (m', e, both, union, zeroth, count) = giga_update_cache-IsUsable (usable v) (usable w) in
    (
      m',
      e,
      record { bits = both.bits; tree = union-IsTree v.tree w.tree union; served = both.served },
      union,
      zeroth,
      count,
    )
