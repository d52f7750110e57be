-- ===== src/Giga/Bitmap.antt =====
-- common/giga_index.c and .h: the bitmap of partitions, seven of them to a byte, and the
-- arithmetic of indices. An `index_t` is an index that the code computes, so it is not negative.
pub mod Radix
pub mod Members
pub mod Highest
use skyefs.Prelude.{
  ℕ, zero, suc, ◌+◌, ◌-◌, ◌*◌, ◌/◌, ◌%◌, ◌^◌, bit_and, bit_or, List, Option, none, some, ltb, ◌==◌,
  if◌then◌else◌, Outcome, ok, fault, assertion, found, load, store, ◌>>=◌,
}

abbrev pub max_radix : ℕ
max_radix = 10

abbrev pub bits_per_map : ℕ
bits_per_map = 7

-- MAX_BMAP_LEN: the bytes that 1 << MAX_RADIX partitions take.
abbrev pub max_bmap_len : ℕ
max_bmap_len =
    if 2 ^ max_radix % bits_per_map == 0
    then 2 ^ max_radix / bits_per_map
    else 2 ^ max_radix / bits_per_map + 1

-- (bitmap_t)(1<<(bit_in_index)): a byte.
abbrev pub mask_of : ℕ → ℕ
mask_of index = 2 ^ (index % bits_per_map) % 256

unfoldable pub get_bit_status : List ℕ → ℕ → Outcome ℕ
get_bit_status bmap index = do
  bit_info ← load bmap (index / bits_per_map)
  ok (if bit_and bit_info (mask_of index) == 0 then 0 else 1)

-- The writes of `giga_update_mapping` and `giga_update_mapping_remove` to the bitmap.
unfoldable pub set_bit : List ℕ → ℕ → Outcome (List ℕ)
set_bit bmap index = do
  bit_info ← load bmap (index / bits_per_map)
  store bmap (index / bits_per_map) (bit_or bit_info (mask_of index))

-- `bit_info & (~mask)`: only the low byte of `~mask` meets the byte.
unfoldable pub clear_bit : List ℕ → ℕ → Outcome (List ℕ)
clear_bit bmap index = do
  bit_info ← load bmap (index / bits_per_map)
  store bmap (index / bits_per_map) (bit_and bit_info (255 - mask_of index))

-- floor(log2((double)n)): exact for every index, which a double holds.
log2_rounds : ℕ → ℕ → ℕ
log2_rounds zero n = 0
log2_rounds (suc f) n = let rest = suc (log2_rounds f (n / 2)) in if ltb n 2 then 0 else rest

unfoldable pub floor_log2 : ℕ → ℕ
unfolding log2_rounds
floor_log2 n = log2_rounds n n

unfoldable pub get_radix_from_index : ℕ → ℕ
get_radix_from_index index =
    if index == 0 then 0 else if index == 1 then 1 else floor_log2 index + 1

unfoldable pub get_child_index : ℕ → ℕ → ℕ
get_child_index index radix = index + 2 ^ radix

unfoldable pub get_parent_index : ℕ → ℕ
get_parent_index index = if ltb 0 index then index - 2 ^ floor_log2 index else 0

-- The first loop of `get_highest_index`, from the last byte down; `none` leaves `i` at -1.
unfoldable pub highest_byte : List ℕ → ℕ → Outcome (Option ℕ)
highest_byte bitmap zero = ok none
highest_byte bitmap (suc i) =
    let rest = highest_byte bitmap i in load bitmap i >>= λ v. if v == 0 then rest else ok (some i)

-- The second loop, from the last bit down; `none` leaves `bit_in_index` at -1.
unfoldable pub highest_bit : ℕ → ℕ → Option ℕ
highest_bit value zero = none
highest_bit value (suc j) =
    let rest = highest_bit value j in if bit_and value (2 ^ j) == 0 then rest else some j

-- max_index and its assertion.
unfoldable pub index_of_bit : ℕ → Option ℕ → Outcome ℕ
index_of_bit i (some j) = ok (i * bits_per_map + j)
index_of_bit i none = if i == 0 then fault assertion else ok (i * bits_per_map - 1)

-- An empty bitmap reads bitmap[-1].
unfoldable pub get_highest_index : List ℕ → Outcome ℕ
unfolding highest_byte highest_bit index_of_bit
get_highest_index bitmap = do
  last ← highest_byte bitmap max_bmap_len
  i ← found last
  value ← load bitmap i
  index_of_bit i (highest_bit value bits_per_map)

unfoldable pub get_radix_from_bmap : List ℕ → Outcome ℕ
unfolding get_highest_index get_radix_from_index floor_log2
get_radix_from_bmap bitmap = do
  highest ← get_highest_index bitmap
  ok (get_radix_from_index highest)
