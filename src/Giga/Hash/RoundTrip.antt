-- ===== src/Giga/Hash/RoundTrip.antt =====
-- common/sha.c: `binary2hex` and `hex2binary` together.
use skyefs.Bits.{all_below, all_below_sound}
use skyefs.Prelude.{
  ℕ, zero, suc, ◌*◌, ◌/◌, ◌%◌, ◌^◌, ◌<◌, ◌≡◌, refl, arith, true, ◌==◌, ==_iff, bit_or, ap, List, [],
  ◌∷◌, ◌++◌, length, take, ok,
}
use skyefs.Giga.Hash.{hex_digit, hex_digits, binary2hex, hex2nibble, hex2binary, giga_hash_name}

abbrev pub AreBytes : List ℕ → Type 0
AreBytes [] = Unit {0}
AreBytes (b ∷ buf) = (b < 256) × AreBytes buf

-- What SHA-1 returns: SHA1_HASH_SIZE bytes.
pub record IsDigest (digest : List ℕ) : Type 0 where
  pub size : length digest ≡ 20
  pub bytes : AreBytes digest

abbrev byte_of : ℕ → ℕ
byte_of b = bit_or (hex2nibble (hex_digit (b / 16)) * 2 ^ 4) (hex2nibble (hex_digit (b % 16))) % 256

byte_table : all_below 256 (λ b. byte_of b == b) ≡ true
unfolding all_below hex2nibble hex_digit
byte_table = refl

byte_of_lem : (b : ℕ) → b < 256 → byte_of b ≡ b
byte_of_lem b h =
    (==_iff (byte_of b) b).0 (all_below_sound 256 (λ b. byte_of b == b) byte_table b h)

hex2binary-hex_digits : (buf : List ℕ) → AreBytes buf → hex2binary (hex_digits buf) ≡ ok buf
unfolding hex2binary hex_digits
hex2binary-hex_digits [] h = refl
hex2binary-hex_digits (b ∷ buf) h =
    rw (hex2binary-hex_digits buf h.1) (ap (λ c. ok (c ∷ buf)) (byte_of_lem b h.0))

length-hex_digits : (buf : List ℕ) → length (hex_digits buf) ≡ 2 * length buf
unfolding hex_digits
length-hex_digits [] = refl
length-hex_digits (b ∷ buf) = omega (arith, length-hex_digits buf)

take-length : (n : ℕ) (xs ys : List ℕ) → length xs ≡ n → take n (xs ++ ys) ≡ xs
take-length zero [] ys e = refl
take-length (suc n) [] ys e = absurd (omega arith)
take-length zero (x ∷ xs) ys e = absurd (omega arith)
take-length (suc n) (x ∷ xs) ys e = ap (◌∷◌ x) (take-length n xs ys (omega arith))

-- For a list of bytes, hex2binary of the digits that binary2hex writes gives the bytes again.
pub hex2binary-binary2hex :
    (buf : List ℕ) → AreBytes buf → hex2binary (take (2 * length buf) (binary2hex buf)) ≡ ok buf
unfolding binary2hex
hex2binary-binary2hex buf h =
    rw (take-length (2 * length buf) (hex_digits buf) (0 ∷ []) (length-hex_digits buf))
      (hex2binary-hex_digits buf h)

pub hex2binary-giga_hash_name :
    (shahash : List ℕ → List ℕ) (name : List ℕ)
    → IsDigest (shahash name)
    → hex2binary (giga_hash_name shahash name) ≡ ok (shahash name)
unfolding giga_hash_name
hex2binary-giga_hash_name shahash name d =
    let e : 2 * length (shahash name) ≡ 40 = omega (arith, d.size) in
    rw (← e) (hex2binary-binary2hex (shahash name) d.bytes)
