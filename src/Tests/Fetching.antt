-- ===== src/Tests/Fetching.antt =====
-- A directory with partitions 0 and 1 and one other entry, which is not in memory.
use skyefs.Prelude.{
  ℕ, ◌+◌, ◌<◌, ◌≡◌, true, refl, arith, List, [], ◌∷◌, ◌++◌, take, drop, ◌==◌, ◌||◌, Option, none,
  some, ok,
}
use skyefs.Rpc.{ObjectRef}
use skyefs.Giga.Bitmap.Members.{capacity}
use skyefs.Giga.Mapping.{GigaMapping, giga_init_mapping}
use skyefs.Giga.Mapping.Invariant.{partitions, IsUsable}
use skyefs.Giga.Update.{SameServers}
use skyefs.Server.Directory.{position}
use skyefs.Server.Cache.{cache_fetch, hash_find}
use skyefs.Server.Cache.Balance.{reading}
use skyefs.Server.Cache.Filling.{lists}
use skyefs.Server.Cache.Fetching.{made_directory, cache_fetch-absent}
use skyefs.Tests.Serving.{in_memory}

abbrev other_directory : ObjectRef
other_directory = record { handle = 5; fs_id = 1 }

abbrev index_of : List ℕ → Option ℕ
index_of [] = none
index_of (c ∷ []) = none
index_of (c ∷ i ∷ rest) = some i

abbrev entries : List (List ℕ)
entries = (0x70 ∷ 0 ∷ []) ∷ (0x2e ∷ []) ∷ (0x70 ∷ 1 ∷ []) ∷ []

absent_here : hash_find 0 other_directory in_memory ≡ none
unfolding hash_find
absent_here = refl

fits : (i : ℕ) → lists index_of entries i ≡ true → i < capacity
unfolding lists
fits i h = ground (arith, h)

cache_fetch-absent_example :
    (m : GigaMapping) × (w' : ℕ) × (cache_fetch
        (λ d token n w. (some (take n (drop (position token) entries)), w + 1))
        index_of
        true
        true
        0
        2
        4
        other_directory
        in_memory
        7
      ≡ ok (some 1, in_memory ++ reading (made_directory m other_directory) true 2 1 ∷ [], w'))
    × (hash_find 0 other_directory
          (in_memory ++ reading (made_directory m other_directory) true 2 1 ∷ [])
        ≡ some 1)
    × IsUsable m
    × ((i : ℕ) → partitions m i ≡ (0 == i || lists index_of entries i))
    × SameServers (giga_init_mapping 0 2) m
cache_fetch-absent_example =
    cache_fetch-absent (λ d token n w. (some (take n (drop (position token) entries)), w + 1))
      index_of 0 2 4 other_directory in_memory 7 absent_here entries (λ token n w. refl) fits
      (omega arith)
