-- ===== src/Cluster.antt =====
-- server/split.c, server/handlers.c and server/cache.c together: the servers of one directory while it
-- is split. Each server loads its own table when it first needs the directory, and a split is seen by
-- the servers one after the other.
pub mod Consistent
pub mod Steps
pub mod Loading
pub mod Asking
pub mod Family
pub mod Children
pub mod Routing
use skyefs.Prelude.{
  ℕ, ◌≡◌, ◌≢◌, ◌==◌, ◌||◌, if◌then◌else◌, Bool, true, false, Option, none, some, ok,
}
use skyefs.Giga.Tree.{Partitions}
use skyefs.Giga.Mapping.{
  GigaMapping, giga_init_mapping, giga_update_mapping, giga_get_server_for_index,
}
use skyefs.Giga.Mapping.Invariant.{partitions, IsUsable}
use skyefs.Giga.Update.{SameServers}
use skyefs.Giga.Index.{giga_index_for_splitting}

-- A split that do_split has begun: `cindex`, and whether its server was told.
pub record Split : Type 0 where
  pub cindex : ℕ
  pub told : Bool

-- The tables of the servers, which of them have loaded theirs, the split that each is at, and all
-- partitions that are in PVFS. A table that is not loaded is one that new_directory begins with.
pub record Cluster : Type 0 where
  pub tables : ℕ → GigaMapping
  pub loaded : ℕ → Bool
  pub splits : ℕ → Option Split
  pub all : Partitions

-- A change at one server.
unfoldable pub put : {A : Type 0} → (ℕ → A) → ℕ → A → ℕ → A
put f s a i = if s == i then a else f i

unfoldable pub add : Partitions → ℕ → Partitions
add ps c i = c == i || ps i

-- No server has the directory in memory, and PVFS has its partition 0.
unfoldable pub start : ℕ → ℕ → Cluster
start first count = record {
  tables = λ s. giga_init_mapping first count;
  loaded = λ s. false;
  splits = λ s. none;
  all = λ i. 0 == i;
}

-- What fill_bitmap makes of a new table while PVFS lists these partitions.
pub record IsLoaded (all : Partitions) (new m : GigaMapping) : Type 0 where
  pub usable : IsUsable m
  pub listed : (i : ℕ) → partitions m i ≡ all i
  pub same : SameServers new m

-- What a server does that others can see. It may load the directory at any time, and has done so
-- before it splits it or answers skye_rpc_bucket_add. do_split makes the new partition in PVFS before
-- it moves the files; then it announces it on its server, before it takes it into its own table.
pub data SplitStep (σ τ : Cluster) : Type 0 where
  load_directory :
      (s : ℕ) (table : GigaMapping)
      → σ.loaded s ≡ false
      → IsLoaded σ.all (σ.tables s) table
      → τ ≡ record σ { tables = put σ.tables s table; loaded = put σ.loaded s true }
      → SplitStep σ τ
  begin :
      (s p c : ℕ)
      → σ.loaded s ≡ true
      → σ.splits s ≡ none
      → partitions (σ.tables s) p ≡ true
      → giga_get_server_for_index (σ.tables s) p ≡ ok s
      → giga_index_for_splitting (σ.tables s) p ≡ ok c
      → τ ≡ record σ {
        splits = put σ.splits s (some (record { cindex = c; told = false }));
        all = add σ.all c;
      }
      → SplitStep σ τ
  announce :
      (s t c : ℕ) (table : GigaMapping)
      → σ.splits s ≡ some (record { cindex = c; told = false })
      → giga_get_server_for_index (σ.tables s) c ≡ ok t
      → t ≢ s
      → σ.loaded t ≡ true
      → giga_update_mapping (σ.tables t) c ≡ ok table
      → τ ≡ record σ {
        tables = put σ.tables t table;
        splits = put σ.splits s (some (record { cindex = c; told = true }));
      }
      → SplitStep σ τ
  finish_here :
      (s c : ℕ) (table : GigaMapping)
      → σ.splits s ≡ some (record { cindex = c; told = false })
      → giga_get_server_for_index (σ.tables s) c ≡ ok s
      → giga_update_mapping (σ.tables s) c ≡ ok table
      → τ ≡ record σ { tables = put σ.tables s table; splits = put σ.splits s none }
      → SplitStep σ τ
  finish_told :
      (s c : ℕ) (table : GigaMapping)
      → σ.splits s ≡ some (record { cindex = c; told = true })
      → giga_update_mapping (σ.tables s) c ≡ ok table
      → τ ≡ record σ { tables = put σ.tables s table; splits = put σ.splits s none }
      → SplitStep σ τ

pub data SplitSteps (σ : Cluster) : Cluster → Type 0 where
  here : SplitSteps σ σ
  next : {τ υ : Cluster} → SplitSteps σ τ → SplitStep τ υ → SplitSteps σ υ
