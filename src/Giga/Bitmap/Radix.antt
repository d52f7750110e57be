-- ===== src/Giga/Bitmap/Radix.antt =====
-- `floor_log2`, the radix of an index, and its parent in the tree of partitions.
use native.Mathlib.Nat.{pow-suc, one-le-pow, pow-le-pow_right}
use skyefs.Prelude.{ℕ, zero, suc, ◌+◌, ◌/◌, ◌^◌, ◌≤◌, ◌<◌, ◌≡◌, refl, arith, ap, ◌∙◌}
use skyefs.Giga.Bitmap.{log2_rounds, floor_log2, get_radix_from_index, get_parent_index}

-- n lies between two powers of 2, and the lower one is 2 ^ k.
abbrev pub Between : ℕ → ℕ → Type 0
Between n k = (2 ^ k ≤ n) × (n < 2 ^ suc k)

log2_rounds_bounds : (f n : ℕ) → 0 < n → n ≤ f → Between n (log2_rounds f n)
unfolding log2_rounds
log2_rounds_bounds zero n h le = absurd (omega arith)
log2_rounds_bounds (suc f) n h le = ground (
  arith,
  log2_rounds_bounds f (n / 2),
  pow-suc 2 (log2_rounds f (n / 2)),
  pow-suc 2 (suc (log2_rounds f (n / 2))),
)

pub floor_log2_bounds : (n : ℕ) → 0 < n → Between n (floor_log2 n)
unfolding floor_log2
floor_log2_bounds n h = log2_rounds_bounds n n h (omega arith)

pow-strict : (k : ℕ) → 2 ^ k < 2 ^ suc k
pow-strict k = omega (arith, pow-suc 2 k, one-le-pow k 2)

pub Between-unique : (n k l : ℕ) → Between n k → Between n l → k ≡ l
Between-unique n k l a b = grind (
  arith,
  λ (h : suc k ≤ l). pow-le-pow_right {n = 2} (omega arith) h,
  λ (h : suc l ≤ k). pow-le-pow_right {n = 2} (omega arith) h,
)

radix_pos : (n : ℕ) → 0 < n → get_radix_from_index n ≡ suc (floor_log2 n)
unfolding get_radix_from_index
radix_pos n h =
    ground (arith, Between-unique 1 (floor_log2 1) 0 (floor_log2_bounds 1 (omega arith)))

radix_zero : get_radix_from_index 0 ≡ 0
unfolding get_radix_from_index
radix_zero = refl

-- The radix counts the digits of the index.
pub radix_bounds : (n : ℕ) → n < 2 ^ get_radix_from_index n
radix_bounds zero = rw radix_zero (omega arith)
radix_bounds (suc n) =
    rw (radix_pos (suc n) (omega arith)) (floor_log2_bounds (suc n) (omega arith)).1

pub radix-of_span : (n k : ℕ) → Between n k → get_radix_from_index n ≡ suc k
radix-of_span n k b =
    let pos : 0 < n = omega (arith, one-le-pow k 2) in
    radix_pos n pos ∙ ap suc (Between-unique n (floor_log2 n) k (floor_log2_bounds n pos) b)

pub radix_least : (n k : ℕ) → n < 2 ^ k → get_radix_from_index n ≤ k
radix_least zero k h = rw radix_zero (omega arith)
radix_least (suc n) k h = rw (radix_pos (suc n) (omega arith)) (
    grind (
      arith,
      floor_log2_bounds (suc n) (omega arith),
      λ (le : k ≤ floor_log2 (suc n)). pow-le-pow_right {n = 2} (omega arith) le,
    ))

-- The parent loses the top digit.
pub parent-of_child : (i k : ℕ) → i < 2 ^ k → get_parent_index (i + 2 ^ k) ≡ i
unfolding get_parent_index
parent-of_child i k h =
    let pos : 0 < i + 2 ^ k = omega (arith, one-le-pow k 2) in
    let e : floor_log2 (i + 2 ^ k) ≡ k =
      Between-unique (i + 2 ^ k) _ k (floor_log2_bounds (i + 2 ^ k) pos)
        (omega arith, omega (arith, pow-suc 2 k)) in
    ground (arith, ap (λ t. 2 ^ t) e)

pub parent_zero : get_parent_index 0 ≡ 0
unfolding get_parent_index
parent_zero = refl
