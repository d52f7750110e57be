-- ===== src/Giga/Mapping.antt =====
-- common/giga_index.c: the header table and the operations that write it.
pub mod Invariant
use skyefs.Prelude.{
  ℕ, zero, suc, ◌+◌, ◌/◌, ◌%◌, ◌^◌, bit_or, List, ltb, ◌==◌, if◌then◌else◌, replicate, set, Outcome,
  ok, fault, division_by_zero, assert, load, store, ◌>>=◌, ◌>>◌,
}
use skyefs.Giga.Bitmap.{max_bmap_len, get_radix_from_bmap, set_bit, clear_bit}

-- struct giga_mapping_t
pub record GigaMapping : Type 0 where
  pub bitmap : List ℕ
  pub curr_radix : ℕ
  pub zeroth_server : ℕ
  pub server_count : ℕ

-- With the SPLIT_TYPE of giga_index.h every value of `flag` comes to the same table.
unfoldable pub giga_init_mapping : ℕ → ℕ → GigaMapping
giga_init_mapping zeroth_server server_count = record {
  bitmap = set (replicate max_bmap_len 0) 0 1;
  curr_radix = 1;
  zeroth_server = zeroth_server;
  server_count = if ltb 0 server_count then server_count else 1;
}

-- The loops over the bitmap: `n` rounds are left and `i` is the round.
unfoldable pub copy_bytes : ℕ → ℕ → List ℕ → List ℕ → Outcome (List ℕ)
copy_bytes zero i dest src = ok dest
copy_bytes (suc n) i dest src =
    load src i >>= λ b. store dest i b >>= λ dest'. copy_bytes n (i + 1) dest' src

unfoldable pub merge_bytes : ℕ → ℕ → List ℕ → List ℕ → Outcome (List ℕ)
merge_bytes zero i curr update = ok curr
merge_bytes (suc n) i curr update = load curr i >>= λ a.
    load update i >>= λ b. store curr i (bit_or a b) >>= λ curr'. merge_bytes n (i + 1) curr' update

-- The bytes of the C array `bitmap` are the list's, and `bitmap_len` is its length.
unfoldable pub giga_init_mapping_from_bitmap : List ℕ → ℕ → ℕ → ℕ → Outcome GigaMapping
giga_init_mapping_from_bitmap bitmap bitmap_len zeroth_server server_count = do
  let mapping = giga_init_mapping zeroth_server server_count
  let bigger_bmap = if ltb bitmap_len max_bmap_len then bitmap_len else max_bmap_len
  first ← (if ltb 0 bigger_bmap then load bitmap 0 else ok 1)
  assert (ltb 0 first)
  copied ← copy_bytes bigger_bmap 0 mapping.bitmap bitmap
  radix ← get_radix_from_bmap copied
  ok (record mapping { bitmap = copied; curr_radix = radix })

unfoldable pub giga_copy_mapping : GigaMapping → GigaMapping → ℕ → Outcome GigaMapping
giga_copy_mapping dest src z =
    if z == 0 then ok (giga_init_mapping src.zeroth_server src.server_count) else (do
      copied ← copy_bytes max_bmap_len 0 dest.bitmap src.bitmap
      radix ← get_radix_from_bmap copied
      ok (record dest { bitmap = copied; curr_radix = radix }))

unfoldable pub giga_update_cache : GigaMapping → GigaMapping → Outcome GigaMapping
giga_update_cache curr update = do
  merged ← merge_bytes max_bmap_len 0 curr.bitmap update.bitmap
  radix ← get_radix_from_bmap merged
  ok (record curr {
    bitmap = merged;
    curr_radix = radix;
    server_count =
        if ltb curr.server_count update.server_count
        then update.server_count
        else curr.server_count;
  })

unfoldable pub giga_update_mapping : GigaMapping → ℕ → Outcome GigaMapping
unfolding set_bit
giga_update_mapping mapping new_index = do
  bitmap ← set_bit mapping.bitmap new_index
  radix ← get_radix_from_bmap bitmap
  ok (record mapping { bitmap = bitmap; curr_radix = radix })

unfoldable pub giga_update_mapping_remove : GigaMapping → ℕ → Outcome GigaMapping
unfolding clear_bit
giga_update_mapping_remove mapping new_index = do
  bitmap ← clear_bit mapping.bitmap new_index
  radix ← get_radix_from_bmap bitmap
  ok (record mapping { bitmap = bitmap; curr_radix = radix })

-- Sums of `int` and `unsigned int` wrap at 2 ^ 32.
unfoldable pub giga_get_server_for_index : GigaMapping → ℕ → Outcome ℕ
giga_get_server_for_index mapping index =
    if mapping.server_count == 0
    then fault division_by_zero
    else ok ((index + mapping.zeroth_server) % 2 ^ 32 % mapping.server_count)

unfoldable pub giga_get_bucket_num_for_server : GigaMapping → ℕ → Outcome ℕ
giga_get_bucket_num_for_server mapping index =
    if mapping.server_count == 0 then fault division_by_zero else ok (index / mapping.server_count)
