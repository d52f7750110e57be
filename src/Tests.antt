-- ===== src/Tests.antt =====
-- The theorems at concrete inputs: a directory on two servers with a toy hash, whose digest ends in
-- the first character of the name.
pub mod Cluster
pub mod Serving
pub mod Encoding
pub mod Looking
pub mod Making
pub mod Unlinking
pub mod Fetching
pub mod Moving
pub mod Opening
pub mod Removing
pub mod Sizes
pub mod Spec
pub mod Splitting
use mathlib.Core.Path.{subst}
use skyefs.Giga.Bitmap.{get_highest_index}
use skyefs.Giga.Bitmap.Members.{has, capacity}
use skyefs.Giga.Bitmap.Highest.{IsHighest, get_highest_index_lem}
use skyefs.Giga.Remove.{remove-IsValid}
use skyefs.Giga.Tree.Splitting.{IsLeaf, Adds-IsTree}
use native.Mathlib.Nat.{pow-suc, one-le-pow}
use skyefs.Bits.{bit}
use skyefs.Prelude.{
  zero, suc, false, ◌+◌, ◌^◌, Bool-cases, inl, inr, ℕ, zero, suc, ◌+◌, ◌*◌, ◌%◌, ◌^◌, ◌≤◌, ◌<◌, ◌≡◌,
  ◌≢◌, ◌==◌, ◌||◌, ◌⊎◌, if◌then◌else◌, refl, sym, ap, ◌∙◌, arith, List, [], ◌∷◌, ◌++◌, replicate,
  Bool, true, false, Outcome, ok, fault, assertion, ◌>>=◌, max, length, take,
}
use skyefs.Giga.Bitmap.{
  get_bit_status, get_radix_from_index, get_radix_from_bmap, get_child_index, set_bit,
}
use skyefs.Giga.Bitmap.Members.{has, IsBitmap}
use skyefs.Giga.Mapping.{
  GigaMapping, giga_init_mapping, giga_update_mapping, giga_get_server_for_index,
  giga_get_bucket_num_for_server, giga_update_cache, giga_update_mapping_remove, giga_copy_mapping,
  giga_init_mapping_from_bitmap,
}
use skyefs.Giga.Mapping.Invariant.{partitions, IsValid, usable, IsBounded}
use skyefs.Giga.Hash.{compute_index, giga_hash_name, binary2hex, hex2binary}
use skyefs.Giga.Hash.RoundTrip.{
  IsDigest, AreBytes, hex2binary-binary2hex, hex2binary-giga_hash_name,
}
use skyefs.Giga.Hash.Suffix.{number, compute_index_lem, compute_index-eq-fault}
use skyefs.Giga.Index.{
  giga_get_index_for_file, giga_get_server_for_file, giga_index_for_splitting,
  giga_file_migration_status, giga_is_splittable, existing_ancestor,
}
use skyefs.Giga.Tree.{locate, IsTree}
use skyefs.Giga.Tree.Splitting.{Adds, Removes}
use skyefs.Giga.Init.{
  giga_init_mapping-IsValid, giga_copy_mapping_lem, giga_init_mapping_from_bitmap_lem,
}
use skyefs.Giga.Update.{SameServers, giga_update_mapping_lem, giga_update_mapping_remove_lem}
use skyefs.Giga.Merge.{giga_update_cache_lem}
use skyefs.Giga.Child.{IsChoice, giga_index_for_splitting-IsChoice}
use skyefs.Giga.Lookup.{giga_get_index_for_file-locate, giga_get_index_for_file-eq-fault}
use skyefs.Giga.Split.{split-IsValid, split-IsBounded, split_moves, split_source}
use skyefs.Giga.Servers.{bucket_num-injective, bucket_num-lt}
use skyefs.Client.Retry.{Answer, again, final, ask}
use skyefs.Client.Retry.Ends.{IsTableOf, IsCluster, Ends, ask_returns}

giga : Unit {0}
unfolding giga_index_for_splitting giga_get_index_for_file giga_get_server_for_file
    giga_file_migration_status giga_is_splittable giga_init_mapping giga_update_mapping set_bit
    get_bit_status get_radix_from_bmap get_radix_from_index get_child_index compute_index
    giga_hash_name giga_get_server_for_index giga_update_cache
giga = tt

abbrev pub toy_sha : List ℕ → List ℕ
toy_sha [] = replicate 20 0
toy_sha (c ∷ name) = replicate 19 0 ++ c % 256 ∷ []

abbrev pub name : List ℕ
name = 0xb7 ∷ 0x41 ∷ []

pub name-IsDigest : IsDigest (toy_sha name)
name-IsDigest = record { size = refl; bytes = omega arith }

abbrev pub fresh : GigaMapping
fresh = giga_init_mapping 0 2

abbrev pub grown : GigaMapping
grown = record { bitmap = 3 ∷ replicate 146 0; curr_radix = 1; zeroth_server = 0; server_count = 2 }

pub splits_to_one : giga_index_for_splitting fresh 0 ≡ ok 1
unfolding giga
splits_to_one = refl

pub grows : giga_update_mapping fresh 1 ≡ ok grown
unfolding giga
grows = refl

pub at_root : giga_get_index_for_file toy_sha fresh name ≡ ok 0
unfolding giga
at_root = refl

pub at_child : giga_get_server_for_file toy_sha grown name ≡ ok 1
unfolding giga
at_child = refl

migrates : giga_file_migration_status toy_sha name 1 ≡ ok true
unfolding giga
migrates = refl

splittable : giga_is_splittable fresh 0 ≡ ok true
unfolding giga
splittable = refl

pub fresh-IsValid : IsValid fresh
fresh-IsValid = (giga_init_mapping-IsValid 0 2).0

pub fresh-IsBounded : (n : ℕ) → 0 < n → IsBounded fresh n
fresh-IsBounded n h i e = ground (arith, (giga_init_mapping-IsValid 0 2).1 i)

pub root_exists : partitions fresh 0 ≡ true
root_exists = (giga_init_mapping-IsValid 0 2).1 0

split_moves_example : giga_get_index_for_file toy_sha grown name ≡ (
    giga_file_migration_status toy_sha name 1 >>= λ moves.
    if moves then ok 1 else giga_get_index_for_file toy_sha fresh name)
split_moves_example =
    split_moves fresh-IsValid 0 1 root_exists splits_to_one toy_sha name name-IsDigest (omega arith)
      grown grows (fresh-IsBounded 512 (omega arith))

split_source_example : giga_get_index_for_file toy_sha fresh name ≡ ok 0
split_source_example =
    split_source fresh-IsValid 0 1 root_exists splits_to_one toy_sha name name-IsDigest
      (omega arith) (fresh-IsBounded 512 (omega arith)) migrates

split-IsValid_example :
    (m' : GigaMapping) × (giga_update_mapping fresh 1 ≡ ok m')
    × IsValid m'
    × Adds (partitions fresh) 1 (partitions m')
    × SameServers fresh m'
split-IsValid_example = split-IsValid fresh-IsValid 0 1 root_exists splits_to_one

split-IsBounded_example : IsValid grown × IsBounded grown 4
unfolding giga_init_mapping
split-IsBounded_example =
    split-IsBounded fresh-IsValid 0 1 root_exists splits_to_one grown splittable grows
      (fresh-IsBounded 4 (omega arith))

-- The table `grown` is a valid one.
grown_lem : IsValid grown × IsBounded grown 4
unfolding giga_init_mapping
grown_lem =
    split-IsBounded fresh-IsValid 0 1 root_exists splits_to_one grown splittable grows
      (fresh-IsBounded 4 (omega arith))

pub grown-IsValid : IsValid grown
grown-IsValid = grown_lem.0

pub grown-IsBounded : IsBounded grown 4
grown-IsBounded = grown_lem.1

lookup_example :
    giga_get_index_for_file toy_sha grown name
    ≡ ok (locate (partitions grown) 9 (number (toy_sha name)))
lookup_example =
    giga_get_index_for_file-locate toy_sha (usable grown-IsValid) name name-IsDigest
      (λ i h. omega (arith, grown-IsBounded i h))

IsChoice_example : IsChoice (partitions fresh) 0 0 (giga_index_for_splitting fresh 0)
unfolding get_radix_from_index
IsChoice_example = giga_index_for_splitting-IsChoice (usable fresh-IsValid) 0 root_exists

merge_example :
    (m' : GigaMapping) × (giga_update_cache fresh grown ≡ ok m')
    × IsValid m'
    × ((i : ℕ) → partitions m' i ≡ (partitions fresh i || partitions grown i))
    × (m'.zeroth_server ≡ fresh.zeroth_server)
    × (m'.server_count ≡ max fresh.server_count grown.server_count)
merge_example = giga_update_cache_lem fresh-IsValid grown-IsValid

injective_example : ◌≡◌ {A = ℕ} 3 3
injective_example =
    bucket_num-injective grown (omega arith) 3 3 (omega arith) (omega arith) refl refl

update_example :
    (m' : GigaMapping) × (giga_update_mapping fresh 1 ≡ ok m')
    × IsBitmap m'.bitmap
    × Adds (partitions fresh) 1 (partitions m')
    × SameServers fresh m'
update_example = giga_update_mapping_lem (usable fresh-IsValid) 1 (omega arith)

from_bitmap_example :
    (m' : GigaMapping) × (giga_init_mapping_from_bitmap grown.bitmap 147 1 3 ≡ ok m')
    × IsValid m'
    × ((i : ℕ) → partitions m' i ≡ partitions grown i)
    × (m'.zeroth_server ≡ 1)
    × (0 < 3 → m'.server_count ≡ 3)
from_bitmap_example = giga_init_mapping_from_bitmap_lem grown-IsValid 1 3

get_highest_index_example :
    (h : ℕ) × (get_highest_index grown.bitmap ≡ ok h) × IsHighest grown.bitmap h
get_highest_index_example = get_highest_index_lem grown-IsValid.bits 0 grown-IsValid.tree.root

hex_example : hex2binary (take 40 (binary2hex (toy_sha name))) ≡ ok (toy_sha name)
hex_example = hex2binary-binary2hex (toy_sha name) name-IsDigest.bytes

suffix_example : compute_index (giga_hash_name toy_sha name) 5 ≡ ok (number (toy_sha name) % 2 ^ 5)
suffix_example =
    compute_index_lem (toy_sha name) (giga_hash_name toy_sha name) name-IsDigest
      (hex2binary-giga_hash_name toy_sha name name-IsDigest) 5 (omega arith)

-- The root and its child 512.
abbrev deep : GigaMapping
deep = record {
  bitmap = 1 ∷ replicate 72 0 ++ 2 ∷ replicate 73 0;
  curr_radix = 10;
  zeroth_server = 0;
  server_count = 2;
}

deepens : giga_update_mapping fresh 512 ≡ ok deep
unfolding giga
deepens = refl

deep_lem : IsValid deep × (partitions deep 512 ≡ true)
deep_lem =
    let (n, e, b, add, same) = giga_update_mapping_lem (usable fresh-IsValid) 512 (omega arith) in
    let f = deepens in
    let q : n ≡ deep = cc in
    subst (λ t. IsValid t × (partitions t 512 ≡ true)) q
      (
        record {
          bits = b;
          tree = Adds-IsTree fresh-IsValid.tree 0 9 (omega arith) (partitions n) root_exists add;
          served = rw same.1 fresh-IsValid.served;
        },
        add 512,
      )

fault_example : giga_get_index_for_file toy_sha deep name ≡ fault assertion
fault_example =
    giga_get_index_for_file-eq-fault toy_sha (usable deep_lem.0) name name-IsDigest 512 deep_lem.1
      (omega arith)

grown_without_3 : partitions grown 3 ≡ false
unfolding has bit
grown_without_3 = refl

grown-IsLeaf : IsLeaf (partitions grown) 1
grown-IsLeaf zero lt = absurd (omega arith)
grown-IsLeaf (suc zero) lt = grown_without_3
grown-IsLeaf (suc (suc k)) lt = elim (Bool-cases (partitions grown (1 + 2 ^ suc (suc k)))) [
  | inl there ↦
      absurd
        (omega (arith, grown-IsBounded _ there, pow-suc 2 (suc k), pow-suc 2 k, one-le-pow k 2))
  | inr none ↦ none
]

remove_leaf_example :
    (m' : GigaMapping) × (giga_update_mapping_remove grown 1 ≡ ok m')
    × IsValid m'
    × Removes (partitions grown) 1 (partitions m')
remove_leaf_example = remove-IsValid grown-IsValid 1 (omega arith) (omega arith) grown-IsLeaf
