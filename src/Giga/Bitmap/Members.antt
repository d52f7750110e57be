-- ===== src/Giga/Bitmap/Members.antt =====
-- The bitmap as a set of indices: what `get_bit_status`, `set_bit` and `clear_bit` do to it.
use native.Mathlib.Nat.{one-le-pow, pow-le-pow_right, mod-eq_of_lt}
use skyefs.Bits.{
  bit, bit-lt, bit-and, bit-or, bit-pow, and-pow, or-lt, and-lt, bit-zero, bit-complement,
}
use skyefs.Prelude.{
  ℕ, zero, suc, ◌-◌, ◌/◌, ◌%◌, ◌^◌, ◌≤◌, ◌<◌, ◌≡◌, refl, arith, ◌∙◌, bit_and, bit_or, List, [], ◌∷◌,
  Bool, true, false, ◌==◌, if◌then◌else◌, length, get_or, set, length-set, ok, load, store-eq-set,
}
use skyefs.Giga.Bitmap.{mask_of, get_bit_status, set_bit, clear_bit}

-- The indices that a bitmap has room for.
abbrev pub capacity : ℕ
capacity = 1029

unfoldable pub has : List ℕ → ℕ → Bool
has bmap i = bit (i % 7) (get_or bmap (i / 7) 0) == 1

-- MAX_BMAP_LEN bytes, of which only the seven low bits are used.
pub record IsBitmap (bmap : List ℕ) : Type 0 where
  pub size : length bmap ≡ 147
  pub low : (i : ℕ) → get_or bmap i 0 < 128

pub load-eq-get_or : (xs : List ℕ) (i : ℕ) → i < length xs → load xs i ≡ ok (get_or xs i 0)
load-eq-get_or [] i h = elim h [ ]
load-eq-get_or (x ∷ xs) zero h = refl
load-eq-get_or (x ∷ xs) (suc i) h = load-eq-get_or xs i (omega arith)

pub get_or-set :
    (xs : List ℕ) (i j v : ℕ)
    → i < length xs
    → get_or (set xs i v) j 0 ≡ (if i == j then v else get_or xs j 0)
get_or-set [] i j v h = elim h [ ]
get_or-set (x ∷ xs) zero zero v h = refl
get_or-set (x ∷ xs) zero (suc j) v h = ground arith
get_or-set (x ∷ xs) (suc i) zero v h = ground arith
get_or-set (x ∷ xs) (suc i) (suc j) v h = ground (arith, get_or-set xs i j v)

pow_small : (k : ℕ) → k < 7 → 2 ^ k < 128
pow_small k h = omega (arith, pow-le-pow_right {n = 2} (omega arith) {i = k} {j = 6} (omega arith))

mask-eq : (i : ℕ) → mask_of i ≡ 2 ^ (i % 7)
mask-eq i = mod-eq_of_lt (omega (arith, pow_small (i % 7)))

pub get_or_above : (xs : List ℕ) (i : ℕ) → length xs ≤ i → get_or xs i 0 ≡ 0
get_or_above [] i h = refl
get_or_above (x ∷ xs) zero h = elim h [ ]
get_or_above (x ∷ xs) (suc i) h = get_or_above xs i (omega arith)

-- The digits of a byte with one digit set, or cleared.
bit-set : (v k j : ℕ) → bit j (bit_or v (2 ^ k)) ≡ (if k == j then 1 else bit j v)
bit-set v k j = ground (arith, bit-or j v (2 ^ k), bit-pow j k, bit-lt j v)

bit-clear :
    (v k j : ℕ) → j < 7 → k < 7 → bit j (bit_and v (255 - 2 ^ k)) ≡ (if k == j then 0 else bit j v)
bit-clear v k j h l = ground (arith, bit-and j v (255 - 2 ^ k), bit-complement j k, bit-lt j v)

module _ {bmap : List ℕ} (b : IsBitmap bmap) where
  pub get_bit_status_lem :
      (i : ℕ) → i < capacity → get_bit_status bmap i ≡ ok (if has bmap i then 1 else 0)
  unfolding get_bit_status has
  get_bit_status_lem i h =
      rw (load-eq-get_or bmap (i / 7) (omega (arith, b.size)), mask-eq i)
        (ground (
          arith,
          and-pow (i % 7) (get_or bmap (i / 7) 0),
          bit-lt (i % 7) (get_or bmap (i / 7) 0),
          one-le-pow (i % 7) 2,
        ))

  pub has-lt : (i : ℕ) → has bmap i ≡ true → i < capacity
  unfolding has
  has-lt i h = ground (arith, get_or_above bmap (i / 7), b.size, bit-zero (i % 7))

  -- The new bitmap has that index as well, and no other change.
  pub set_bit_lem :
      (i : ℕ)
      → i < capacity
      → (bmap' : List ℕ) × (set_bit bmap i ≡ ok bmap')
        × IsBitmap bmap'
        × ((j : ℕ) → has bmap' j ≡ (if i == j then true else has bmap j))
  unfolding set_bit has
  set_bit_lem i h =
      let v = get_or bmap (i / 7) 0 in
      let inside : i / 7 < length bmap = omega (arith, b.size) in
      (
        set bmap (i / 7) (bit_or v (2 ^ (i % 7))),
        rw (load-eq-get_or bmap (i / 7) inside, mask-eq i) (store-eq-set bmap (i / 7) _ inside),
        record {
          size = length-set bmap (i / 7) _ ∙ b.size;
          low = λ j. ground (
            arith,
            get_or-set bmap (i / 7) j (bit_or v (2 ^ (i % 7))) inside,
            b.low j,
            or-lt 7 v (2 ^ (i % 7)) (b.low (i / 7)) (pow_small (i % 7) (omega arith)),
          );
        },
        λ j. ground (
          arith,
          get_or-set bmap (i / 7) (j / 7) (bit_or v (2 ^ (i % 7))) inside,
          bit-set v (i % 7) (j % 7),
        ),
      )

  pub clear_bit_lem :
      (i : ℕ)
      → i < capacity
      → (bmap' : List ℕ) × (clear_bit bmap i ≡ ok bmap')
        × IsBitmap bmap'
        × ((j : ℕ) → has bmap' j ≡ (if i == j then false else has bmap j))
  unfolding clear_bit has
  clear_bit_lem i h =
      let v = get_or bmap (i / 7) 0 in
      let inside : i / 7 < length bmap = omega (arith, b.size) in
      (
        set bmap (i / 7) (bit_and v (255 - 2 ^ (i % 7))),
        rw (load-eq-get_or bmap (i / 7) inside, mask-eq i) (store-eq-set bmap (i / 7) _ inside),
        record {
          size = length-set bmap (i / 7) _ ∙ b.size;
          low = λ j. ground (
            arith,
            get_or-set bmap (i / 7) j (bit_and v (255 - 2 ^ (i % 7))) inside,
            b.low j,
            and-lt 7 v (255 - 2 ^ (i % 7)) (b.low (i / 7)),
          );
        },
        λ j. ground (
          arith,
          get_or-set bmap (i / 7) (j / 7) (bit_and v (255 - 2 ^ (i % 7))) inside,
          bit-clear v (i % 7) (j % 7),
        ),
      )
