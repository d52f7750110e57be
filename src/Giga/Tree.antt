-- ===== src/Giga/Tree.antt =====
-- The specification of GIGA+: the partitions form a binary tree, and a file is in the partition
-- that is named by the longest suffix of its hash.
pub mod Suffix
pub mod Splitting
use skyefs.Prelude.{ℕ, zero, suc, ◌+◌, ◌%◌, ◌^◌, ◌≤◌, ◌<◌, ◌≡◌, Bool, true, if◌then◌else◌}

-- A set of partitions.
abbrev pub Partitions : Type 0
Partitions = ℕ → Bool

-- With the root, and with the parent of each.
pub record IsTree (ps : Partitions) : Type 0 where
  pub root : ps 0 ≡ true
  pub parents : (i k : ℕ) → i < 2 ^ k → ps (i + 2 ^ k) ≡ true → ps i ≡ true

-- The partition named by the longest suffix of h with at most k bits.
unfoldable pub locate : Partitions → ℕ → ℕ → ℕ
locate ps zero h = 0
locate ps (suc k) h = let rest = locate ps k h in if ps (h % 2 ^ suc k) then h % 2 ^ suc k else rest

-- Among the suffixes of h with at most k bits that name a partition, r is the largest.
pub record IsLocation (ps : Partitions) (k h r : ℕ) : Type 0 where
  pub member : ps r ≡ true
  pub suffix : (j : ℕ) × (j ≤ k) × (r ≡ h % 2 ^ j)
  pub largest : (j : ℕ) → j ≤ k → ps (h % 2 ^ j) ≡ true → h % 2 ^ j ≤ r
