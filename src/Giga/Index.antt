-- ===== src/Giga/Index.antt =====
-- common/giga_index.c: which partition a file is in, and which one a split makes.
use skyefs.Prelude.{
  ℕ, zero, suc, ◌+◌, ◌*◌, List, Bool, true, false, ltb, ◌==◌, if◌then◌else◌, Outcome, ok, fault,
  out_of_rounds, assert, ◌>>=◌, ◌>>◌,
}
use skyefs.Giga.Bitmap.{
  max_radix, get_bit_status, get_radix_from_index, get_radix_from_bmap, get_child_index,
  get_parent_index,
}
use skyefs.Giga.Mapping.{GigaMapping, giga_get_server_for_index}
use skyefs.Giga.Hash.{giga_hash_name, compute_index}

abbrev pub max_bkts_per_server : ℕ
max_bkts_per_server = 2

-- while (get_bit_status(mapping->bitmap, index) == 0) index = get_parent_index(index);
unfoldable pub existing_ancestor : ℕ → List ℕ → ℕ → Outcome ℕ
existing_ancestor zero bitmap index = fault out_of_rounds
existing_ancestor (suc f) bitmap index =
    let rest = existing_ancestor f bitmap (get_parent_index index) in
    get_bit_status bitmap index >>= λ status. if status == 0 then rest else ok index

-- The loop of `giga_index_for_splitting`.
unfoldable pub free_child : ℕ → List ℕ → ℕ → ℕ → Outcome ℕ
free_child zero bitmap index i = fault out_of_rounds
free_child (suc f) bitmap index i =
    let rest = free_child f bitmap index (i + 1) in
    assert (ltb i max_radix)
    >> (get_bit_status bitmap (get_child_index index i) >>= λ status.
        if status == 0 then ok (get_child_index index i) else rest)

unfoldable pub giga_index_for_splitting : GigaMapping → ℕ → Outcome ℕ
unfolding free_child
giga_index_for_splitting mapping index = do
  status ← get_bit_status mapping.bitmap index
  assert (status == 1)
  new_index ← free_child (max_radix + 1) mapping.bitmap index (get_radix_from_index index)
  assert (if new_index == index then false else true)
  ok new_index

unfoldable pub giga_index_for_force_splitting : ℕ → ℕ
giga_index_for_force_splitting index = get_parent_index index

unfoldable pub get_split_index_for_newserver : ℕ → ℕ
get_split_index_for_newserver index = get_parent_index index

unfoldable pub giga_get_index_for_backup : ℕ → ℕ
giga_get_index_for_backup index = get_child_index index (get_radix_from_index index)

-- With SPLIT_T_NUM_SERVERS_BOUND.
unfoldable pub giga_is_splittable : GigaMapping → ℕ → Outcome Bool
unfolding giga_index_for_splitting
giga_is_splittable mapping old_index = do
  new_index ← giga_index_for_splitting mapping old_index
  ok (ltb new_index (max_bkts_per_server * mapping.server_count))

module _ (shahash : List ℕ → List ℕ) where
  unfoldable pub giga_get_index_for_file : GigaMapping → List ℕ → Outcome ℕ
  unfolding existing_ancestor
  giga_get_index_for_file mapping filename = do
    curr_radix ← get_radix_from_bmap mapping.bitmap
    index ← compute_index (giga_hash_name shahash filename) curr_radix
    index' ← existing_ancestor (max_radix + 1) mapping.bitmap index
    status ← get_bit_status mapping.bitmap index'
    assert (status == 1)
    ok index'

  unfoldable pub giga_get_server_for_file : GigaMapping → List ℕ → Outcome ℕ
  giga_get_server_for_file mapping filename = do
    index ← giga_get_index_for_file mapping filename
    giga_get_server_for_index mapping index

  -- Whether the file moves to the new partition.
  unfoldable pub giga_file_migration_status : List ℕ → ℕ → Outcome Bool
  giga_file_migration_status filename new_index = do
    index ← compute_index (giga_hash_name shahash filename) (get_radix_from_index new_index)
    ok (index == new_index)
