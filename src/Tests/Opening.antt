-- ===== src/Tests/Opening.antt =====
-- A directory of two partitions, one of which has a file, is opened and read.
use skyefs.Prelude.{
  ℕ, ◌+◌, ◌<◌, ◌≡◌, ◌==◌, refl, arith, List, [], ◌∷◌, ◌++◌, length, take, drop, true, if◌then◌else◌,
  ok,
}
use skyefs.Rpc.{ObjectRef}
use skyefs.Client.Files.Attributes.{Reply, replied}
use skyefs.Client.Files.Listing.{Dirent, Listed, Opening, skye_ll_opendir}
use skyefs.Client.Files.Windows.{joined, AreWindows, read_all, read_all_lem}
use skyefs.Client.Files.Opening.{IsPaged, fold, with_entry, below, skye_ll_opendir_lem}
use skyefs.Tests.Serving.{directory}

-- The partitions have the handles 20 and 21.
abbrev files : ObjectRef → List Dirent
files ref =
    if ref.handle == 9
    then record { d_name = 0x70 ∷ 0 ∷ []; handle = 20 }
      ∷ record { d_name = 0x70 ∷ 1 ∷ []; handle = 21 }
      ∷ []
    else if ref.handle == 21
    then record { d_name = 0x61 ∷ []; handle = 30 } ∷ []
    else []

abbrev listing : ObjectRef → ℕ → ℕ → ℕ → Reply Listed × ℕ
listing ref token n w =
    (replied (record { dirents = take n (drop token (files ref)); token = token + n }), w + 1)

paged : IsPaged listing 0 files
paged = record {
  place = λ token. token;
  next = λ token n. token + n;
  at_start = refl;
  at_next = λ token n. refl;
  answers = λ ref token n w. refl;
}

abbrev entry : List ℕ → ℕ → ℕ → List ℕ
entry name ino offset = name ++ ino ∷ offset ∷ []

few : (ref : ObjectRef) → length (files ref) < 3
few ref = ground arith

skye_ll_opendir_example :
    (s : Opening ℕ) × (skye_ll_opendir listing 0 entry true 1 3 directory 0 ≡ ok s)
    × (s.buf ≡ fold (with_entry entry) [] (below files 1 (files directory)))
skye_ll_opendir_example = skye_ll_opendir_lem paged entry 1 3 few directory 0

read_all_example :
    (replies : List (List ℕ)) × (read_all (λ offset. 2) (1 ∷ 2 ∷ 3 ∷ []) 4 0 ≡ ok replies)
    × (joined replies ≡ 1 ∷ 2 ∷ 3 ∷ [])
    × AreWindows (λ offset. 2) 0 replies
read_all_example =
    read_all_lem (λ offset. 2) (1 ∷ 2 ∷ 3 ∷ []) (λ offset. omega arith) (omega arith) 4
      (omega arith)
