-- ===== src/Giga/Child.antt =====
-- common/giga_index.c: what `giga_index_for_splitting` chooses.
use native.Mathlib.Nat.{pow-le-pow_right, pow-suc, one-le-pow}
use native.Mathlib.Decide.{dec_lt}
use skyefs.Prelude.{
  ℕ, zero, suc, ◌+◌, ◌^◌, ◌≤◌, ◌<◌, ◌≡◌, refl, arith, true, false, if◌then◌else◌, ◌⊎◌, inl, inr,
  Bool-cases, ap, List, Outcome, ok, fault, assertion, ◌>>=◌, ◌==◌, lt→ltb, ltb, assert, ◌>>◌,
}
use skyefs.Giga.Bitmap.{get_bit_status, get_radix_from_index, get_child_index}
use skyefs.Giga.Bitmap.Radix.{radix_bounds, radix-of_span}
use skyefs.Giga.Bitmap.Members.{has, IsBitmap, get_bit_status_lem, has-lt}
use skyefs.Giga.Mapping.{GigaMapping}
use skyefs.Giga.Mapping.Invariant.{partitions, IsUsable}
use skyefs.Giga.Tree.{Partitions}
use skyefs.Giga.Index.{free_child, giga_index_for_splitting}

-- The children index + 2 ^ j for j from i to k - 1 exist.
abbrev pub AreTaken : Partitions → ℕ → ℕ → ℕ → Type 0
AreTaken ps index i k = (j : ℕ) → i ≤ j → j < k → ps (index + 2 ^ j) ≡ true

-- r is the first missing child index + 2 ^ k with i ≤ k < MAX_RADIX; without one the assertion fails.
abbrev pub IsChoice : Partitions → ℕ → ℕ → Outcome ℕ → Type 0
IsChoice ps index i r =
    ((k : ℕ) × (i ≤ k)
      × (k < 10)
      × (r ≡ ok (index + 2 ^ k))
      × (ps (index + 2 ^ k) ≡ false)
      × AreTaken ps index i k)
    ⊎ ((r ≡ fault assertion) × AreTaken ps index i 10)

lt-pow_next : (n i : ℕ) → n < 2 ^ i → n < 2 ^ (i + 1)
lt-pow_next n i h = let e : i + 1 ≡ suc i = omega arith in rw e (omega (arith, pow-suc 2 i))

module _ {bmap : List ℕ} (b : IsBitmap bmap) (index : ℕ) where
  child_status :
      (i : ℕ)
      → index < 2 ^ i
      → i < 10
      → get_bit_status bmap (get_child_index index i)
        ≡ ok (if has bmap (index + 2 ^ i) then 1 else 0)
  unfolding get_child_index
  child_status i small h =
      get_bit_status_lem b (index + 2 ^ i)
        (omega (arith, pow-le-pow_right {n = 2} (omega arith) {i = i} {j = 9} (omega arith)))

  IsChoice-suc :
      (i : ℕ) (r : Outcome ℕ)
      → has bmap (index + 2 ^ i) ≡ true
      → IsChoice (has bmap) index (i + 1) r
      → IsChoice (has bmap) index i r
  IsChoice-suc i r taken (inl (k, le, lt, e, free, below)) = inl (
    k,
    omega arith,
    lt,
    e,
    free,
    λ j a c. grind (arith, below j, λ (q : j ≡ i). ap (λ (t : ℕ). has bmap (index + 2 ^ t)) q),
  )
  IsChoice-suc i r taken (inr (e, below)) = inr (
    e,
    λ j a c. grind (arith, below j, λ (q : j ≡ i). ap (λ (t : ℕ). has bmap (index + 2 ^ t)) q),
  )

  free_child-IsChoice :
      (f i : ℕ)
      → 10 ≤ i + f
      → index < 2 ^ i
      → IsChoice (has bmap) index i (free_child (suc f) bmap index i)
  unfolding free_child get_child_index
  free_child-IsChoice zero i enough small =
      let e : ltb i 10 ≡ false = ground arith in rw e (inr (refl, λ j a c. absurd (omega arith)))
  free_child-IsChoice (suc f) i enough small = elim (dec_lt i 10) [
    | no ge ↦
        let e : ltb i 10 ≡ false = ground arith in rw e (inr (refl, λ j a c. absurd (omega arith)))
    | yes lt ↦ elim (Bool-cases (has bmap (index + 2 ^ i))) [
      | inl taken ↦
          rw (lt→ltb i 10 lt, child_status i small lt, taken)
            (IsChoice-suc i _ taken
              (free_child-IsChoice f (i + 1) (omega arith) (lt-pow_next index i small)))
      | inr free ↦
          rw (lt→ltb i 10 lt, child_status i small lt, free)
            (inl (i, omega arith, lt, refl, free, λ j a c. absurd (omega arith)))
    ]
  ]

-- What comes out of `free_child` differs from the partition that is split.
abbrev checked : ℕ → Outcome ℕ → Outcome ℕ
checked index r =
    r >>= λ new_index. assert (if new_index == index then false else true) >> ok new_index

checked-IsChoice :
    (ps : Partitions) (index i : ℕ) (r : Outcome ℕ)
    → IsChoice ps index i r
    → IsChoice ps index i (checked index r)
checked-IsChoice ps index i r (inl (k, le, lt, e, free, below)) =
    inl (k, le, lt, ground (arith, one-le-pow k 2), free, below)
checked-IsChoice ps index i r (inr (e, below)) = inr (rw e refl, below)

module _ {m : GigaMapping} (v : IsUsable m) (index : ℕ) where
  -- For a table with a well-formed bitmap, partition 0 and a server, and an existing partition,
  -- giga_index_for_splitting returns the first missing child index + 2 ^ k with k from the radix
  -- of the index up to MAX_RADIX - 1, and if none is missing its assertion fails.
  pub giga_index_for_splitting-IsChoice :
      partitions m index ≡ true
      → IsChoice
          (partitions m)
          index
          (get_radix_from_index index)
          (giga_index_for_splitting m index)
  unfolding giga_index_for_splitting
  giga_index_for_splitting-IsChoice mem =
      rw (get_bit_status_lem v.bits index (has-lt v.bits index mem), mem)
        (checked-IsChoice (partitions m) index (get_radix_from_index index) _ (
          free_child-IsChoice v.bits index 10 (get_radix_from_index index) (omega arith)
            (radix_bounds index)))

  -- What the code that follows a split needs of its result.
  pub split_child :
      (c : ℕ)
      → partitions m index ≡ true
      → giga_index_for_splitting m index ≡ ok c
      → (k : ℕ) × (index < 2 ^ k)
        × (k < 10)
        × (c ≡ index + 2 ^ k)
        × (partitions m c ≡ false)
        × (get_radix_from_index c ≡ suc k)
  split_child c mem e = from_choice (giga_index_for_splitting-IsChoice mem)
    where
      from_choice :
          IsChoice
            (partitions m)
            index
            (get_radix_from_index index)
            (giga_index_for_splitting m index)
          → (k : ℕ) × (index < 2 ^ k)
            × (k < 10)
            × (c ≡ index + 2 ^ k)
            × (partitions m c ≡ false)
            × (get_radix_from_index c ≡ suc k)
      from_choice (inr (f, below)) = cc
      from_choice (inl (k, le, lt, f, free, below)) =
          let q : c ≡ index + 2 ^ k = cc in
          let small : index < 2 ^ k =
            omega (arith, radix_bounds index, pow-le-pow_right {n = 2} (omega arith) le) in
          (
            k,
            small,
            lt,
            q,
            rw q free,
            rw q (radix-of_span (index + 2 ^ k) k (omega arith, omega (arith, pow-suc 2 k))),
          )
