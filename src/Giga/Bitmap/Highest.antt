-- ===== src/Giga/Bitmap/Highest.antt =====
-- common/giga_index.c: `get_highest_index` and `get_radix_from_bmap` over the set of indices.
use native.Mathlib.Nat.{one-le-pow}
use skyefs.Bits.{bit, bit-lt, bit-zero, and-pow, bit_ext_zero}
use skyefs.Prelude.{
  ℕ, zero, suc, ◌+◌, ◌*◌, ◌/◌, ◌%◌, ◌^◌, ◌≤◌, ◌<◌, ◌≡◌, ◌≢◌, refl, arith, ap, inl, inr, ◌==◌,
  Bool-cases, bit_and, List, true, length, get_or, Option, none, some, ok,
}
use skyefs.Giga.Bitmap.{
  highest_byte, highest_bit, get_highest_index, get_radix_from_bmap, get_radix_from_index,
}
use skyefs.Giga.Bitmap.Members.{has, IsBitmap, load-eq-get_or, get_or_above}

-- `o` is the last place below n where `f` is not 0, if there is one.
abbrev Last : (ℕ → ℕ) → ℕ → Option ℕ → Type 0
Last f n none = (j : ℕ) → j < n → f j ≡ 0
Last f n (some i) = (i < n) × (f i ≢ 0) × ((j : ℕ) → i < j → j < n → f j ≡ 0)

module _ (f : ℕ → ℕ) (n : ℕ) where
  Last-here : f n ≢ 0 → Last f (suc n) (some n)
  Last-here h = (omega arith, h, λ j a b. absurd (omega arith))

  Last-below : (o : Option ℕ) → f n ≡ 0 → Last f n o → Last f (suc n) o
  Last-below none z l = λ j h. ground (arith, l j, λ (e : j ≡ n). ap f e)
  Last-below (some i) z l =
      (omega (arith, l.0), l.1, λ j a b. ground (arith, l.2 j, λ (e : j ≡ n). ap f e))

highest_byte-Last :
    (bmap : List ℕ) (n : ℕ)
    → n ≤ length bmap
    → (o : Option ℕ) × (highest_byte bmap n ≡ ok o) × Last (λ i. get_or bmap i 0) n o
unfolding highest_byte
highest_byte-Last bmap zero h = (none, refl, λ j lt. elim lt [ ])
highest_byte-Last bmap (suc n) h =
    let (o, e, l) = highest_byte-Last bmap n (omega arith) in
    elim (Bool-cases (get_or bmap n 0 == 0)) [
      | inl z ↦ (
        o,
        rw (load-eq-get_or bmap n h, z) e,
        Last-below (λ i. get_or bmap i 0) n o (ground arith) l,
      )
      | inr z ↦ (
        some n,
        rw (load-eq-get_or bmap n h, z),
        Last-here (λ i. get_or bmap i 0) n (ground arith),
      )
    ]

highest_bit-Last : (v n : ℕ) → Last (λ j. bit j v) n (highest_bit v n)
unfolding highest_bit
highest_bit-Last v zero = λ j lt. elim lt [ ]
highest_bit-Last v (suc n) = elim (Bool-cases (bit_and v (2 ^ n) == 0)) [
  | inl z ↦ rw z (
      Last-below (λ j. bit j v) n (highest_bit v n)
        (grind (arith, and-pow n v, one-le-pow n 2, bit-lt n v)) (highest_bit-Last v n))
  | inr z ↦ rw z (Last-here (λ j. bit j v) n (grind (arith, and-pow n v)))
]

-- h is the largest index of the set.
abbrev pub IsHighest : List ℕ → ℕ → Type 0
IsHighest bmap h = (has bmap h ≡ true) × ((j : ℕ) → has bmap j ≡ true → j ≤ h)

module _ {bmap : List ℕ} (b : IsBitmap bmap) where
  byte_nonzero : (j : ℕ) → has bmap j ≡ true → get_or bmap (j / 7) 0 ≢ 0
  unfolding has
  byte_nonzero j h z = ground (arith, bit-zero (j % 7), ap (bit (j % 7)) z)

  byte_inside : (j : ℕ) → get_or bmap j 0 ≢ 0 → j < length bmap
  byte_inside j h = ground (arith, get_or_above bmap j)

  module _ (i j : ℕ) where
    top-le :
        Last (λ i. get_or bmap i 0) 147 (some i)
        → Last (λ j. bit j (get_or bmap i 0)) 7 (some j)
        → (k : ℕ) → has bmap k ≡ true
        → k ≤ i * 7 + j
    unfolding has
    top-le l m k h = grind (
      arith,
      byte_nonzero k h,
      byte_inside (k / 7) (byte_nonzero k h),
      b.size,
      l.2 (k / 7),
      m.2 (k % 7),
    )

    -- The top digit of the last byte in use is the largest index.
    top-IsHighest :
        Last (λ i. get_or bmap i 0) 147 (some i)
        → Last (λ j. bit j (get_or bmap i 0)) 7 (some j)
        → IsHighest bmap (i * 7 + j)
    unfolding has
    top-IsHighest l m =
        let e : (i * 7 + j) / 7 ≡ i = omega (arith, m.0) in
        let d : (i * 7 + j) % 7 ≡ j = omega (arith, m.0) in
        (rw (e, d) (ground (arith, bit-lt j (get_or bmap i 0), m.1)), top-le l m)

  bit_found :
      (i : ℕ) (o : Option ℕ)
      → get_or bmap i 0 ≢ 0
      → Last (λ j. bit j (get_or bmap i 0)) 7 o
      → (j : ℕ) × (o ≡ some j)
  bit_found i none h l = absurd (h (bit_ext_zero 7 (get_or bmap i 0) (b.low i) l))
  bit_found i (some j) h l = (j, refl)

  -- For a well-formed bitmap that is not empty, get_highest_index returns the largest member.
  pub get_highest_index_lem :
      (k : ℕ) → has bmap k ≡ true → (h : ℕ) × (get_highest_index bmap ≡ ok h) × IsHighest bmap h
  unfolding get_highest_index
  get_highest_index_lem k hk = go (highest_byte-Last bmap 147 (omega (arith, b.size)))
    where
      go :
          (o : Option ℕ) × (highest_byte bmap 147 ≡ ok o) × Last (λ i. get_or bmap i 0) 147 o
          → (h : ℕ) × (get_highest_index bmap ≡ ok h) × IsHighest bmap h
      go (none, e, l) = absurd (
          byte_nonzero k hk
            (l (k / 7) (omega (arith, b.size, byte_inside (k / 7) (byte_nonzero k hk)))))
      go (some i, e, l) =
          let m = highest_bit-Last (get_or bmap i 0) 7 in
          let (j, f) = bit_found i (highest_bit (get_or bmap i 0) 7) l.1 m in
          (
            i * 7 + j,
            rw (e, load-eq-get_or bmap i (omega (arith, b.size, l.0)), f) refl,
            top-IsHighest i j l (rw f at m),
          )

  -- The radix of the bitmap is that of its largest index.
  pub get_radix_from_bmap_lem :
      (k : ℕ)
      → has bmap k ≡ true
      → (h : ℕ) × (get_radix_from_bmap bmap ≡ ok (get_radix_from_index h)) × IsHighest bmap h
  unfolding get_radix_from_bmap
  get_radix_from_bmap_lem k hk = let (h, e, m) = get_highest_index_lem k hk in (h, rw e refl, m)
