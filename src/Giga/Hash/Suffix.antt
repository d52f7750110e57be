-- ===== src/Giga/Hash/Suffix.antt =====
-- common/giga_index.c: `compute_index` and the digest read as one number.
use skyefs.Bits.{all_below, all_below_sound}
use native.Mathlib.Decide.{dec_lt, ℕ_discrete}
use skyefs.Prelude.{
  false, ℕ, zero, suc, ◌+◌, ◌-◌, ◌*◌, ◌/◌, ◌%◌, ◌^◌, ◌≤◌, ◌<◌, ◌≡◌, refl, arith, true, ◌==◌, ==_iff,
  bit_and, ap, ◌∙◌, sym, List, [], ◌∷◌, length, get_or, load, ok, fault, assertion, ltb, lt→ltb,
}
use skyefs.Giga.Bitmap.Members.{load-eq-get_or}
use skyefs.Giga.Tree.Suffix.{suffix_trans}
use skyefs.Giga.Hash.{hex2binary, compute_index}
use skyefs.Giga.Hash.RoundTrip.{AreBytes, IsDigest}

-- The bytes as a number, the first byte at the top.
number_from : ℕ → List ℕ → ℕ
number_from n [] = n
number_from n (b ∷ bs) = number_from (n * 256 + b) bs

unfoldable pub number : List ℕ → ℕ
unfolding number_from
number bs = number_from 0 bs

number_from-last :
    (n k : ℕ) (bs : List ℕ)
    → length bs ≡ 2 + k
    → (q : ℕ) × (number_from n bs ≡ q * 65536 + get_or bs k 0 * 256 + get_or bs (suc k) 0)
unfolding number_from
number_from-last n k [] e = absurd (omega arith)
number_from-last n k (b ∷ []) e = absurd (omega arith)
number_from-last n zero (a ∷ b ∷ []) e = (n, omega arith)
number_from-last n zero (a ∷ b ∷ c ∷ bs) e = absurd (omega arith)
number_from-last n (suc k) (a ∷ bs) e = number_from-last (n * 256 + a) k bs (omega arith)

AreBytes-get_or : (bs : List ℕ) (i : ℕ) → AreBytes bs → get_or bs i 0 < 256
AreBytes-get_or [] i h = omega arith
AreBytes-get_or (b ∷ bs) zero h = h.0
AreBytes-get_or (b ∷ bs) (suc i) h = AreBytes-get_or bs i h.1

mask_table : all_below 256 (λ b. all_below 8 (λ k. bit_and b (2 ^ k - 1) == b % 2 ^ k)) ≡ true
unfolding all_below
mask_table = refl

low_bits : (b k : ℕ) → b < 256 → k < 8 → bit_and b (2 ^ k - 1) ≡ b % 2 ^ k
low_bits b k h l = (==_iff _ _).0 (
    all_below_sound 8 (λ i. bit_and b (2 ^ i - 1) == b % 2 ^ i)
      (all_below_sound 256 (λ b. all_below 8 (λ k. bit_and b (2 ^ k - 1) == b % 2 ^ k)) mask_table b
        h)
      k l)

module _ (digest hash_value : List ℕ) (d : IsDigest digest)
    (parsed : hex2binary hash_value ≡ ok digest) where
  byte : ℕ → ℕ
  byte i = get_or digest i 0

  byte-lt : (i : ℕ) → byte i < 256
  unfolding byte
  byte-lt i = AreBytes-get_or digest i d.bytes

  load-byte : (i : ℕ) → i < 20 → load digest i ≡ ok (byte i)
  unfolding byte
  load-byte i h = load-eq-get_or digest i (omega (arith, d.size))

  number_split : (q : ℕ) × (number digest ≡ q * 65536 + byte 18 * 256 + byte 19)
  unfolding number byte
  number_split = number_from-last 0 18 digest d.size

  below_byte : (k : ℕ) → k < 8 → bit_and (byte 19) (2 ^ k - 1) ≡ number digest % 2 ^ k
  below_byte k h =
      let (q, e) = number_split in
      let low : number digest % 2 ^ 8 ≡ byte 19 = omega (arith, byte-lt 19) in
      low_bits (byte 19) k (byte-lt 19) h
      ∙ ap (λ n. n % 2 ^ k) (sym low)
      ∙ suffix_trans (number digest) k 8 (omega arith)

  within_byte :
      (radix : ℕ) → radix < 8 → compute_index hash_value radix ≡ ok (number digest % 2 ^ radix)
  unfolding compute_index
  within_byte zero h = rw (parsed, load-byte 19 (omega arith)) (ground (arith, below_byte 0))
  within_byte (suc r) h =
      let e : suc r % 8 ≡ suc r = omega arith in
      let q : suc r / 8 ≡ 0 = omega arith in
      rw
        (
          lt→ltb (suc r) 10 (omega arith),
          parsed,
          e,
          q,
          lt→ltb 0 (suc r) (omega arith),
          load-byte 19 (omega arith),
        )
        (ap ok (omega (arith, below_byte (suc r) h)))

  at_eight : compute_index hash_value 8 ≡ ok (number digest % 2 ^ 8)
  unfolding compute_index
  at_eight =
      rw (parsed, load-byte 19 (omega arith), load-byte 18 (omega arith))
        (ap ok (
          omega
            (arith, number_split.1, byte-lt 19, low_bits (byte 18) 0 (byte-lt 18) (omega arith))))

  at_nine : compute_index hash_value 9 ≡ ok (number digest % 2 ^ 9)
  unfolding compute_index
  at_nine =
      rw (parsed, load-byte 19 (omega arith), load-byte 18 (omega arith))
        (ap ok (
          omega
            (arith, number_split.1, byte-lt 19, low_bits (byte 18) 1 (byte-lt 18) (omega arith))))

  -- For the digits of a digest of 20 bytes and a radix below MAX_RADIX, compute_index returns the
  -- last `radix` bits of the digest read as one number.
  pub compute_index_lem :
      (radix : ℕ) → radix < 10 → compute_index hash_value radix ≡ ok (number digest % 2 ^ radix)
  compute_index_lem radix h = elim (dec_lt radix 8) [
    | yes lt ↦ within_byte radix lt
    | no ge ↦ elim (ℕ_discrete radix 8) [
      | yes e ↦ rw e at_eight
      | no ne ↦ let e : radix ≡ 9 = omega arith in rw e at_nine
    ]
  ]

pub compute_index-eq-fault :
    (hash_value : List ℕ) (radix : ℕ)
    → 10 ≤ radix
    → compute_index hash_value radix ≡ fault assertion
unfolding compute_index
compute_index-eq-fault hash_value radix h = let e : ltb radix 10 ≡ false = ground arith in rw e
