-- ===== src/Giga/Lookup.antt =====
-- common/giga_index.c: `giga_get_index_for_file` against the specification in Giga/Tree.
use native.Mathlib.Nat.{mod-one, pow-le-pow_right}
use skyefs.Prelude.{
  ℕ, zero, suc, ◌%◌, ◌^◌, ◌≤◌, ◌<◌, ◌≡◌, arith, true, if◌then◌else◌, inl, inr, Bool-cases, sym, ◌∙◌,
  ap, List, ok, fault, assertion,
}
use skyefs.Giga.Bitmap.{get_bit_status, get_parent_index, get_radix_from_index}
use skyefs.Giga.Bitmap.Radix.{parent-of_child, radix_bounds, radix_least}
use skyefs.Giga.Bitmap.Members.{has, IsBitmap, get_bit_status_lem, has-lt}
use skyefs.Giga.Bitmap.Highest.{get_radix_from_bmap_lem}
use skyefs.Giga.Mapping.{GigaMapping}
use skyefs.Giga.Mapping.Invariant.{partitions, IsUsable, IsBounded}
use skyefs.Giga.Hash.{compute_index, giga_hash_name}
use skyefs.Giga.Hash.RoundTrip.{IsDigest, hex2binary-giga_hash_name}
use skyefs.Giga.Hash.Suffix.{number, compute_index_lem, compute_index-eq-fault}
use skyefs.Giga.Tree.{locate}
use skyefs.Giga.Tree.Suffix.{
  suffix-lt, suffix-suc, locate-IsLocation, locate_stable, locate-at, locate-longer,
}
use skyefs.Giga.Index.{existing_ancestor, giga_get_index_for_file}

module _ {bmap : List ℕ} (b : IsBitmap bmap) (root : has bmap 0 ≡ true) where
  suffix_status :
      (h k : ℕ)
      → k ≤ 10
      → get_bit_status bmap (h % 2 ^ k) ≡ ok (if has bmap (h % 2 ^ k) then 1 else 0)
  suffix_status h k le =
      get_bit_status_lem b (h % 2 ^ k)
        (omega (arith, suffix-lt h k, pow-le-pow_right {n = 2} (omega arith) {i = k} {j = 10} le))

  ancestor_hit : (f x : ℕ) → get_bit_status bmap x ≡ ok 1 → existing_ancestor (suc f) bmap x ≡ ok x
  unfolding existing_ancestor
  ancestor_hit f x e = rw e

  ancestor_miss :
      (f x : ℕ)
      → get_bit_status bmap x ≡ ok 0
      → existing_ancestor (suc f) bmap x ≡ existing_ancestor f bmap (get_parent_index x)
  unfolding existing_ancestor
  ancestor_miss f x e = rw e

  hit :
      (h k f : ℕ)
      → k ≤ 10
      → has bmap (h % 2 ^ k) ≡ true
      → existing_ancestor (suc f) bmap (h % 2 ^ k) ≡ ok (locate (has bmap) k h)
  hit h k f le m =
      ancestor_hit f (h % 2 ^ k) (rw (suffix_status h k le, m))
      ∙ ap ok (sym (locate-at (has bmap) h k m))

  -- One round for each bit is enough.
  existing_ancestor-locate :
      (h k f : ℕ)
      → k ≤ 10
      → k ≤ f
      → existing_ancestor (suc f) bmap (h % 2 ^ k) ≡ ok (locate (has bmap) k h)
  existing_ancestor-locate h zero f le enough = hit h 0 f le (rw mod-one root)
  existing_ancestor-locate h (suc k) zero le enough = elim enough [ ]
  existing_ancestor-locate h (suc k) (suc f) le enough =
      elim (Bool-cases (has bmap (h % 2 ^ suc k))) [
        | inl m ↦ hit h (suc k) (suc f) le m
        | inr n ↦ rw (locate-longer (has bmap) h k n) (elim (suffix-suc h k) [
          | inl same ↦ rw same (existing_ancestor-locate h k (suc f) (omega arith) (omega arith))
          | inr more ↦
              ancestor_miss (suc f) (h % 2 ^ suc k) (rw (suffix_status h (suc k) le, n))
              ∙ ap (existing_ancestor (suc f) bmap)
                  (ap get_parent_index more ∙ parent-of_child (h % 2 ^ k) k (suffix-lt h k))
              ∙ existing_ancestor-locate h k f (omega arith) (omega arith)
        ])
      ]

-- The largest index is at least 512 exactly when its radix is at least 10.
radix_large : (h : ℕ) → 512 ≤ h → 10 ≤ get_radix_from_index h
radix_large h large = grind (
  arith,
  radix_bounds h,
  λ (le : get_radix_from_index h ≤ 9). pow-le-pow_right {n = 2} (omega arith) le,
)

module _ (shahash : List ℕ → List ℕ) {m : GigaMapping} (v : IsUsable m) (name : List ℕ)
    (d : IsDigest (shahash name)) where
  name_number : ℕ
  name_number = number (shahash name)

  located_status : (k : ℕ) → get_bit_status m.bitmap (locate (partitions m) k name_number) ≡ ok 1
  located_status k =
      let l = locate-IsLocation (partitions m) name_number k v.root in
      rw (get_bit_status_lem v.bits _ (has-lt v.bits _ l.member), l.member)

  pub index_of_name :
      (r : ℕ)
      → r < 10
      → compute_index (giga_hash_name shahash name) r ≡ ok (number (shahash name) % 2 ^ r)
  index_of_name =
      compute_index_lem (shahash name) (giga_hash_name shahash name) d
        (hex2binary-giga_hash_name shahash name d)

  walk :
      (r : ℕ)
      → r ≤ 9
      → existing_ancestor 11 m.bitmap (name_number % 2 ^ r)
        ≡ ok (locate (partitions m) r name_number)
  walk r le = existing_ancestor-locate v.bits v.root name_number r 10 (omega arith) (omega arith)

  -- For a table with a well-formed bitmap, partition 0 and a server, with all partitions below
  -- 512, and a name whose digest is 20 bytes, giga_get_index_for_file returns the partition that
  -- the longest suffix of the digest names.
  pub giga_get_index_for_file-locate :
      IsBounded m 512
      → giga_get_index_for_file shahash m name
        ≡ ok (locate (partitions m) 9 (number (shahash name)))
  unfolding giga_get_index_for_file name_number
  giga_get_index_for_file-locate small =
      let (h, e, top) = get_radix_from_bmap_lem v.bits 0 v.root in
      let r = get_radix_from_index h in
      let r9 : r ≤ 9 = radix_least h 9 (small h top.0) in
      rw (e, index_of_name r (omega arith), walk r r9, located_status r)
        (ap ok (
          sym (
            locate_stable (partitions m) name_number r 9 r9
              (λ i mem. omega (arith, top.1 i mem, radix_bounds h)))))

  -- For a table with a well-formed bitmap, partition 0, a server and a partition from 512 on, and
  -- a name whose digest is 20 bytes, giga_get_index_for_file fails an assertion.
  pub giga_get_index_for_file-eq-fault :
      (i : ℕ)
      → partitions m i ≡ true
      → 512 ≤ i
      → giga_get_index_for_file shahash m name ≡ fault assertion
  unfolding giga_get_index_for_file
  giga_get_index_for_file-eq-fault i mem large =
      let (h, e, top) = get_radix_from_bmap_lem v.bits 0 v.root in
      rw (
        e,
        compute_index-eq-fault (giga_hash_name shahash name) (get_radix_from_index h)
            (radix_large h (omega (arith, top.1 i mem))),
      )
