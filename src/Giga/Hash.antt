-- ===== src/Giga/Hash.antt =====
-- common/sha.c from line 565 on and `giga_hash_name` and `compute_index` of common/giga_index.c:
-- from a name to the bits of its hash. The SHA-1 rounds themselves are a parameter.
pub mod RoundTrip
pub mod Suffix
use skyefs.Prelude.{
  ℕ, zero, suc, ◌+◌, ◌-◌, ◌*◌, ◌/◌, ◌%◌, ◌^◌, bit_and, bit_or, List, [], ◌∷◌, ◌++◌, ◌&&◌, ◌||◌, ltb,
  leb, if◌then◌else◌, take, Outcome, ok, fault, out_of_bounds, assert, load, ◌>>=◌, ◌>>◌,
}
use skyefs.Giga.Bitmap.{max_radix}

abbrev pub sha1_hash_size : ℕ
sha1_hash_size = 20

-- HASH_LEN, the size of the array `hash` of the callers.
abbrev pub hash_len : ℕ
hash_len = 2 * sha1_hash_size

-- One digit of sprintf's "%x".
unfoldable pub hex_digit : ℕ → ℕ
hex_digit d = if ltb d 10 then b'0' + d else b'a' + (d - 10)

hex_digits : List ℕ → List ℕ
hex_digits [] = []
hex_digits (b ∷ buf) = hex_digit (b / 16) ∷ hex_digit (b % 16) ∷ hex_digits buf

-- The bytes that `binary2hex` writes from `hex` on, the terminating 0 included.
unfoldable pub binary2hex : List ℕ → List ℕ
unfolding hex_digit hex_digits
binary2hex buf = hex_digits buf ++ 0 ∷ []

unfoldable pub toupper : ℕ → ℕ
toupper c = if leb b'a' c && leb c b'z' then c - 32 else c

-- `_hex2binary`, with its conversion to a byte.
unfoldable pub hex2nibble : ℕ → ℕ
unfolding toupper
hex2nibble hex =
    let c = toupper hex in
    if leb c b'9' then (c + 256 - b'0') % 256 else (c + 256 - (b'A' - 0x0a)) % 256

unfoldable pub hex2binary : List ℕ → Outcome (List ℕ)
unfolding hex2nibble
hex2binary [] = ok []
hex2binary (a ∷ []) = fault out_of_bounds
hex2binary (a ∷ b ∷ hex) =
    hex2binary hex >>= λ buf. ok (bit_or (hex2nibble a * 2 ^ 4) (hex2nibble b) % 256 ∷ buf)

-- The loop of `compute_index` over the bytes that it takes whole.
unfoldable pub whole_bytes : ℕ → ℕ → List ℕ → ℕ → Outcome ℕ
whole_bytes zero i bin_hash index = ok index
whole_bytes (suc n) i bin_hash index = load bin_hash (sha1_hash_size - 1 - i) >>= λ curr_byte.
    whole_bytes n (i + 1) bin_hash (index + curr_byte * 2 ^ (i * 8))

unfoldable pub compute_index : List ℕ → ℕ → Outcome ℕ
unfolding hex2binary whole_bytes
compute_index hash_value radix = do
  assert (ltb radix max_radix)
  bin_hash ← hex2binary hash_value
  let residual_useful_bits = radix % 8
  let num_useful_bytes =
      if ltb 0 residual_useful_bits || ltb 0 (radix / 8) then radix / 8 + 1 else radix / 8
  let i = num_useful_bytes - 1
  index ← whole_bytes i 0 bin_hash 0
  curr_byte ← load bin_hash (sha1_hash_size - 1 - i)
  ok (index + bit_and curr_byte (2 ^ residual_useful_bits - 1) * 2 ^ (i * 8))

-- `shahash` of a name, as the bytes of its digest.
module _ (shahash : List ℕ → List ℕ) where
  -- What the callers' array of HASH_LEN bytes holds afterwards.
  unfoldable pub giga_hash_name : List ℕ → List ℕ
  unfolding binary2hex
  giga_hash_name hash_key = take hash_len (binary2hex (shahash hash_key))
