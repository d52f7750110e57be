-- ===== src/Bits.antt =====
-- The binary digits of a number, and `&`, `|` and shifted masks in terms of them.
use Prim.Native.Nat.{bitwise, digits, bit_and-bitwise, bit_or-bitwise}
use native.Mathlib.Nat.{pow-suc}
use skyefs.Prelude.{
  ℕ, zero, suc, ◌+◌, ◌*◌, ◌/◌, ◌%◌, ◌^◌, ◌≤◌, ◌<◌, min, max, bit_and, bit_or, ◌≡◌, refl, arith,
  ◌==◌, if◌then◌else◌, ap, ◌∙◌, Bool, true, ◌&&◌, ==_iff, ◌-◌,
}

-- The digit of weight 2 ^ k.
unfoldable pub bit : ℕ → ℕ → ℕ
bit zero a = a % 2
bit (suc k) a = bit k (a / 2)

-- The native operations recur on digits with fuel; any fuel that reaches the number will do.
module _ (z : ℕ → ℕ) (op : ℕ → ℕ → ℕ) where
  digits_enough : (f g a b : ℕ) → a ≤ f → a ≤ g → digits z op f a b ≡ digits z op g a b
  digits_enough zero zero a b h k = refl
  digits_enough zero (suc g) zero b h k = refl
  digits_enough (suc f) zero zero b h k = refl
  digits_enough (suc f) (suc g) zero b h k = refl
  digits_enough zero (suc g) (suc a) b h k = elim h [ ]
  digits_enough (suc f) zero (suc a) b h k = elim k [ ]
  digits_enough (suc f) (suc g) (suc a) b h k =
      ap (λ t. t * 2 + op (suc a % 2) (b % 2))
        (digits_enough f g (suc a / 2) (b / 2) (omega arith) (omega arith))

  bitwise_lowest :
      (a b : ℕ)
      → bitwise z op (suc a) b ≡ bitwise z op (suc a / 2) (b / 2) * 2 + op (suc a % 2) (b % 2)
  bitwise_lowest a b =
      ap (λ t. t * 2 + op (suc a % 2) (b % 2))
        (digits_enough a (suc a / 2) (suc a / 2) (b / 2) (omega arith) (omega arith))

bit_and_lowest : (a b : ℕ) → bit_and a b ≡ bit_and (a / 2) (b / 2) * 2 + min (a % 2) (b % 2)
bit_and_lowest zero b = omega (arith, bit_and-bitwise 0 b, bit_and-bitwise 0 (b / 2))
bit_and_lowest (suc a) b = rw (bit_and-bitwise, bit_and-bitwise) (bitwise_lowest _ min a b)

bit_or_lowest : (a b : ℕ) → bit_or a b ≡ bit_or (a / 2) (b / 2) * 2 + max (a % 2) (b % 2)
bit_or_lowest zero b = omega (arith, bit_or-bitwise 0 b, bit_or-bitwise 0 (b / 2))
bit_or_lowest (suc a) b = rw (bit_or-bitwise, bit_or-bitwise) (bitwise_lowest _ max a b)

pub bit-lt : (k a : ℕ) → bit k a < 2
unfolding bit
bit-lt zero a = omega arith
bit-lt (suc k) a = bit-lt k (a / 2)

pub bit-zero : (k : ℕ) → bit k 0 ≡ 0
unfolding bit
bit-zero zero = refl
bit-zero (suc k) = bit-zero k

bit-suc : (k a d : ℕ) → d < 2 → bit (suc k) (a * 2 + d) ≡ bit k a
unfolding bit
bit-suc k a d h = ap (bit k) (omega arith)

and-half : (a b : ℕ) → bit_and a b / 2 ≡ bit_and (a / 2) (b / 2)
and-half a b = omega (arith, bit_and_lowest a b)

or-half : (a b : ℕ) → bit_or a b / 2 ≡ bit_or (a / 2) (b / 2)
or-half a b = omega (arith, bit_or_lowest a b)

pow-half : (j : ℕ) → 2 ^ suc j / 2 ≡ 2 ^ j
pow-half j = omega (arith, pow-suc 2 j)

-- The digits of `a & b` and of `a | b`.
pub bit-and : (k a b : ℕ) → bit k (bit_and a b) ≡ min (bit k a) (bit k b)
unfolding bit
bit-and zero a b = omega (arith, bit_and_lowest a b)
bit-and (suc k) a b = ap (bit k) (and-half a b) ∙ bit-and k (a / 2) (b / 2)

pub bit-or : (k a b : ℕ) → bit k (bit_or a b) ≡ max (bit k a) (bit k b)
unfolding bit
bit-or zero a b = omega (arith, bit_or_lowest a b)
bit-or (suc k) a b = ap (bit k) (or-half a b) ∙ bit-or k (a / 2) (b / 2)

-- The mask 1 << j.
pub bit-pow : (k j : ℕ) → bit k (2 ^ j) ≡ (if k == j then 1 else 0)
unfolding bit
bit-pow zero zero = refl
bit-pow zero (suc j) = ground (arith, pow-suc 2 j)
bit-pow (suc k) zero = ground (arith, bit-zero k)
bit-pow (suc k) (suc j) = ground (arith, pow-half j, bit-pow k j)

bit_and-zero : (a : ℕ) → bit_and a 0 ≡ 0
bit_and-zero a = below a a (omega arith)
  where
    below : (f n : ℕ) → n ≤ f → bit_and n 0 ≡ 0
    below zero zero h = refl
    below (suc f) zero h = refl
    below zero (suc n) h = elim h [ ]
    below (suc f) (suc n) h = omega (arith, bit_and_lowest (suc n) 0, below f (suc n / 2))

and-pow_step :
    (k a : ℕ)
    → bit_and (a / 2) (2 ^ k) ≡ bit k (a / 2) * 2 ^ k
    → bit_and a (2 ^ suc k) ≡ bit k (a / 2) * 2 ^ suc k
and-pow_step k a ih = ground (
  arith,
  bit_and_lowest a (2 ^ suc k),
  pow-half k,
  pow-suc 2 k,
  ap (λ (t : ℕ). bit k (a / 2) * t) (pow-suc 2 k),
)

-- `a & (1 << k)` keeps that digit alone.
pub and-pow : (k a : ℕ) → bit_and a (2 ^ k) ≡ bit k a * 2 ^ k
unfolding bit
and-pow zero a = omega (arith, bit_and_lowest a 1, bit_and-zero (a / 2))
and-pow (suc k) a = and-pow_step k a (and-pow k (a / 2))

-- Neither operation makes a number wider.
pub or-lt : (n a b : ℕ) → a < 2 ^ n → b < 2 ^ n → bit_or a b < 2 ^ n
or-lt zero a b h k =
    let a0 : a ≡ 0 = omega arith in let b0 : b ≡ 0 = omega arith in rw (a0, b0) (omega arith)
or-lt (suc n) a b h k = omega (arith, bit_or_lowest a b, pow-suc 2 n, or-lt n (a / 2) (b / 2))

pub and-lt : (n a b : ℕ) → a < 2 ^ n → bit_and a b < 2 ^ n
and-lt zero a b h = let a0 : a ≡ 0 = omega arith in rw a0 (omega (arith, bit_and-bitwise 0 b))
and-lt (suc n) a b h = omega (arith, bit_and_lowest a b, pow-suc 2 n, and-lt n (a / 2) (b / 2))

-- A number below 2 ^ n has no digit from n on, and one without digits is 0.
pub bit_above : (n k a : ℕ) → a < 2 ^ n → n ≤ k → bit k a ≡ 0
unfolding bit
bit_above zero k a h le = let a0 : a ≡ 0 = omega arith in rw a0 (bit-zero k)
bit_above (suc n) zero a h le = elim le [ ]
bit_above (suc n) (suc k) a h le = bit_above n k (a / 2) (omega (arith, pow-suc 2 n)) (omega arith)

pub bit_ext_zero : (n a : ℕ) → a < 2 ^ n → ((k : ℕ) → k < n → bit k a ≡ 0) → a ≡ 0
unfolding bit
bit_ext_zero zero a h z = omega arith
bit_ext_zero (suc n) a h z = omega (
  arith,
  bit_ext_zero n (a / 2) (omega (arith, pow-suc 2 n)) (λ k hk. z (suc k) (omega arith)),
  z 0 (omega arith),
)

-- Over a small range a test is checked by evaluation.
unfoldable pub all_below : ℕ → (ℕ → Bool) → Bool
all_below zero p = true
all_below (suc n) p = p n && all_below n p

pub all_below_sound : (n : ℕ) (p : ℕ → Bool) → all_below n p ≡ true → (x : ℕ) → x < n → p x ≡ true
unfolding all_below
all_below_sound zero p h x lt = elim lt [ ]
all_below_sound (suc n) p h x lt = ground (arith, all_below_sound n p (ground arith) x)

complement_table :
    all_below 7 (λ j. all_below 7 (λ k. bit j (255 - 2 ^ k) == (if k == j then 0 else 1))) ≡ true
unfolding all_below bit
complement_table = refl

-- The digits of `~(1 << k)` in a byte.
pub bit-complement : (j k : ℕ) → j < 7 → k < 7 → bit j (255 - 2 ^ k) ≡ (if k == j then 0 else 1)
bit-complement j k h l = (==_iff _ _).0 (
    all_below_sound 7 (λ i. bit j (255 - 2 ^ i) == (if i == j then 0 else 1))
      (all_below_sound 7 (λ j. all_below 7 (λ k. bit j (255 - 2 ^ k) == (if k == j then 0 else 1)))
        complement_table j h)
      k l)
