-- ===== src/System/Resting.antt =====
-- server/split.c and server/handlers.c together: a directory that no server is splitting, and where
-- its names are then.
use skyefs.Prelude.{ℕ, ◌*◌, ◌^◌, ◌<◌, ◌≡◌, sym, ◌∙◌, arith, true, inl, inr, List, none, ok}
use skyefs.Rpc.{ObjectRef}
use skyefs.Giga.Mapping.{giga_get_server_for_index}
use skyefs.Giga.Mapping.Invariant.{partitions}
use skyefs.Giga.Hash.RoundTrip.{IsDigest}
use skyefs.Giga.Hash.Suffix.{number}
use skyefs.Giga.Servers.{giga_get_server_for_index-lt}
use skyefs.Giga.Tree.{locate}
use skyefs.Giga.Tree.Suffix.{locate-IsLocation}
use skyefs.Giga.Lookup.{giga_get_index_for_file-locate}
use skyefs.Giga.Index.{giga_get_index_for_file, giga_get_server_for_file}
use skyefs.Server.Handlers.{ServerState}
use skyefs.Client.Retry.Ends.{IsTableOf}
use skyefs.Cluster.{Cluster, start, SplitSteps, put}
use skyefs.Cluster.Consistent.{put_all}
use skyefs.Cluster.Steps.{SplitSteps-IsConsistent}
use skyefs.Cluster.Routing.{SplitSteps-routes}
use skyefs.System.{Files, System, Holds}

-- The tables come from the start by loads and steps of splits, none of which is under way; every server
-- has loaded the directory, and it has as few partitions as the code is made for.
pub record IsResting (first count : ℕ) (σ : Cluster) : Type 0 where
  pub served : 0 < count
  pub near : first < 2 ^ 31
  pub steps : SplitSteps (start first count) σ
  pub rests : (s : ℕ) → σ.splits s ≡ none
  pub loads : (s : ℕ) → s < count → σ.loaded s ≡ true
  pub small : (i : ℕ) → σ.all i ≡ true → i < 512
  pub few : (i : ℕ) → σ.all i ≡ true → i < 2 * count

-- Every server has the directory with its table in memory.
abbrev pub Ready : ObjectRef → (ℕ → ℕ) → Cluster → ℕ → (ℕ → ServerState (Unit {0})) → Type 0
Ready parent bucket_of σ count memory =
    (s : ℕ)
    → s < count
    → Holds parent σ.all bucket_of (σ.tables s) s (memory s).heap (memory s).queue

-- The servers are so, and PVFS has these files.
abbrev pub ReadyWith :
    {V : Type 0} → ObjectRef → (ℕ → ℕ) → Cluster → ℕ → (V → Files) → Files → System V → Type 0
ReadyWith parent bucket_of σ count contents files sys =
    Ready parent bucket_of σ count sys.memory × (contents sys.disk ≡ files)

pub put-Ready :
    {parent : ObjectRef} {bucket_of : ℕ → ℕ} (σ : Cluster) {count : ℕ}
    (memory : ℕ → ServerState (Unit {0})) (s : ℕ) (mem : ServerState (Unit {0}))
    → Ready parent bucket_of σ count memory
    → Holds parent σ.all bucket_of (σ.tables s) s mem.heap mem.queue
    → Ready parent bucket_of σ count (put memory s mem)
put-Ready {parent} {bucket_of} σ {count} memory s mem ready held =
    put_all (λ mem i. i < count → Holds parent σ.all bucket_of (σ.tables i) i mem.heap mem.queue)
      memory s mem (λ _. held) (λ i ne. ready i)

pub ok-injective : {a b : ℕ} → ok a ≡ ok b → a ≡ b
ok-injective e = cc

module _ {first count : ℕ} {σ : Cluster} (q : IsResting first count σ) where
  pub table : (s : ℕ) → IsTableOf σ.all first count (σ.tables s)
  table s = (SplitSteps-IsConsistent q.served q.steps).table s

  pub owned :
      (s i : ℕ)
      → σ.all i ≡ true
      → giga_get_server_for_index (σ.tables s) i ≡ ok s
      → partitions (σ.tables s) i ≡ true
  owned s i seen at =
      let (t, at_t, lt) = giga_get_server_for_index-lt (σ.tables s) (table s).usable.served i in
      let same : t ≡ s = ok-injective (sym at_t ∙ at) in
      let here : s < count = omega (arith, lt, same, (table s).servers) in
      elim ((SplitSteps-IsConsistent q.served q.steps).owned s i (q.loads s here) seen at) [
        | inl known ↦ known
        | inr (u, waits) ↦ let idle = q.rests u in cc
      ]

  module _ (shahash : List ℕ → List ℕ) (name : List ℕ) (d : IsDigest (shahash name)) (s : ℕ) where
    -- Where the table of server s puts the name.
    pub place : ℕ
    place = locate (partitions (σ.tables s)) 9 (number (shahash name))

    pub index_at : giga_get_index_for_file shahash (σ.tables s) name ≡ ok place
    unfolding place
    index_at =
        giga_get_index_for_file-locate shahash (table s).usable name d
          (λ i e. q.small i ((table s).known i e))

    pub member : partitions (σ.tables s) place ≡ true
    unfolding place
    member =
        (locate-IsLocation (partitions (σ.tables s)) (number (shahash name)) 9
          (table s).usable.root).member

    pub seen : σ.all place ≡ true
    seen = (table s).known _ member

    pub server_at :
        {there : ℕ}
        → giga_get_server_for_index (σ.tables s) place ≡ ok there
        → giga_get_server_for_file shahash (σ.tables s) name ≡ ok there
    unfolding giga_get_server_for_file
    server_at at = rw index_at at

    -- A server to which its own table gives the name has it in the right place.
    pub right_place :
        giga_get_server_for_index (σ.tables s) place ≡ ok s
        → place ≡ locate σ.all 9 (number (shahash name))
    right_place at =
        let (t, at_t, lt) =
          giga_get_server_for_index-lt (σ.tables s) (table s).usable.served place in
        let same : t ≡ s = ok-injective (sym at_t ∙ at) in
        let here : s < count = omega (arith, lt, same, (table s).servers) in
        elim (SplitSteps-routes first q.served q.steps q.small shahash name d s (q.loads s here)
          (server_at at)) [
            | inl right ↦ ok-injective (sym index_at ∙ right)
            | inr (c, told, splitting, _, _) ↦ let idle = q.rests s in cc
          ]
