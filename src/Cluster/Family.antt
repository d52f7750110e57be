-- ===== src/Cluster/Family.antt =====
-- server/split.c, server/handlers.c and server/cache.c: the children of a partition, and what the
-- servers know of them.
use skyefs.Prelude.{
  ℕ, ◌+◌, ◌^◌, ◌<◌, ◌≡◌, ◌⊎◌, Bool, ap, sym, ◌∙◌, arith, true, Option, some, Outcome, ok,
}
use skyefs.Giga.Bitmap.{get_parent_index}
use skyefs.Giga.Bitmap.Radix.{parent-of_child}
use skyefs.Giga.Mapping.{GigaMapping, giga_init_mapping, giga_get_server_for_index}
use skyefs.Giga.Mapping.Invariant.{partitions}
use skyefs.Giga.Tree.{Partitions, IsTree}
use skyefs.Giga.Tree.Splitting.{Adds}
use skyefs.Client.Retry.Ends.{IsTableOf}
use skyefs.Cluster.{Cluster, Split, add}
use skyefs.Cluster.Consistent.{ok-injective}

-- Server s knows partition c, or is at the split that makes it.
abbrev pub Covers : (ℕ → GigaMapping) → (ℕ → Option Split) → ℕ → ℕ → Type 0
Covers tables splits s c =
    (partitions (tables s) c ≡ true)
    ⊎ ((told : Bool) × (splits s ≡ some (record { cindex = c; told = told })))

-- The server of a partition by a new table of the directory.
abbrev pub home : ℕ → ℕ → ℕ → Outcome ℕ
home first count p = giga_get_server_for_index (giga_init_mapping first count) p

-- c is a child of a partition of PVFS on server s.
pub record IsChild (first count : ℕ) (all : Partitions) (s c : ℕ) : Type 0 where
  pub parent : ℕ
  pub level : ℕ
  pub low : parent < 2 ^ level
  pub child : c ≡ parent + 2 ^ level
  pub seen : all parent ≡ true
  pub at : home first count parent ≡ ok s

-- The partitions in PVFS are a tree. The server of a partition covers its children, if it has loaded
-- its table. A split is one of a partition of the server.
pub record HasChildren (first count : ℕ) (σ : Cluster) : Type 0 where
  pub tree : IsTree σ.all
  pub covered :
      (s c : ℕ)
      → σ.loaded s ≡ true
      → IsChild first count σ.all s c
      → σ.all c ≡ true
      → Covers σ.tables σ.splits s c
  pub splitting : (s : ℕ) (x : Split) → σ.splits s ≡ some x → IsChild first count σ.all s x.cindex

-- Of one set to another, a child stays one if its parent is there.
pub IsChild-of :
    {first count : ℕ} {all later : Partitions} {s c : ℕ} (i : IsChild first count all s c)
    → later i.parent ≡ true
    → IsChild first count later s c
IsChild-of i h = record {
  parent = i.parent;
  level = i.level;
  low = i.low;
  child = i.child;
  seen = h;
  at = i.at;
}

pub same_parent :
    {first count : ℕ} {all later : Partitions} {s t c : ℕ} (i : IsChild first count all s c)
    (j : IsChild first count later t c)
    → i.parent ≡ j.parent
same_parent i j =
    sym (parent-of_child i.parent i.level i.low)
    ∙ ap get_parent_index (sym i.child ∙ j.child)
    ∙ parent-of_child j.parent j.level j.low

pub same_home :
    {first count : ℕ} {all later : Partitions} {s t c : ℕ} (i : IsChild first count all s c)
    (j : IsChild first count later t c)
    → s ≡ t
same_home {first} {count} i j =
    ok-injective (sym i.at ∙ ap (home first count) (same_parent i j) ∙ j.at)

pub Adds-add : (ps : Partitions) (c : ℕ) → Adds ps c (add ps c)
unfolding add
Adds-add ps c i = ground arith

pub home_lem :
    {all : Partitions} {first count : ℕ} {m : GigaMapping}
    → 0 < count
    → IsTableOf all first count m
    → (i : ℕ) → giga_get_server_for_index m i ≡ home first count i
unfolding giga_get_server_for_index giga_init_mapping
home_lem served t i = rw (t.start, t.servers) (ground arith)
