-- ===== src/Server/Split/Places.antt =====
-- server/split.c: a split from the child directory on, and where the files are looked up after it.
use skyefs.Prelude.{
  ℕ, ◌<◌, ◌≡◌, refl, ◌∙◌, arith, List, length, set, Bool, true, false, ◌==◌, ◌||◌, Bool-cases, inl,
  inr, none, some, ok, load, lt→ltb,
}
use skyefs.Rpc.{ObjectRef, Credentials}
use skyefs.Connection.{get_connection}
use skyefs.Giga.Mapping.{GigaMapping, giga_update_mapping}
use skyefs.Giga.Mapping.Invariant.{partitions, IsValid, IsBounded}
use skyefs.Giga.Hash.RoundTrip.{IsDigest}
use skyefs.Giga.Index.{
  giga_get_index_for_file, giga_index_for_splitting, giga_file_migration_status,
}
use skyefs.Giga.Split.{split_moves, status_known, split-IsValid}
use skyefs.Server.Directory.{SkyeDirectory, Pvfs}
use skyefs.Server.Cache.{Slot, unlock}
use skyefs.Server.Cache.Balance.{writing, at_slot_lem, load-set, set-set}
use skyefs.Server.Handlers.{Setup}
use skyefs.Server.Split.{set_splitting, take_child, tell_server, split_into}
use skyefs.Server.Split.Names.{contains, count, count_le, count_none}
use skyefs.Server.Split.Moving.Entries.{IsListing, Moves}
use skyefs.Server.Split.Moving.Pages.{held, lock_again}
use skyefs.Server.Split.Moving.Passes.{passes_end}

-- The directory while the files move.
abbrev splitting : SkyeDirectory → ℕ → SkyeDirectory
splitting d pindex = record d { splitting_index = some pindex }

-- The directory after the split.
abbrev pub after_split : SkyeDirectory → GigaMapping → SkyeDirectory
after_split d m = record d { mapping = m; splitting_index = none }

-- A call of rpc_bucket_add succeeds and leaves the two directories as they are.
pub record IsInformed {W : Type 0} {pvfs : Pvfs W} {creds : Credentials}
    {phandle chandle : ObjectRef} (l : IsListing pvfs creds phandle chandle)
    (rpc_bucket_add : ℕ → ObjectRef → ℕ → W → Bool × W) : Type 0 where
  pub answered : (s : ℕ) (h : ObjectRef) (i : ℕ) (w : W) → (rpc_bucket_add s h i w).0 ≡ true
  pub source_kept :
      (s : ℕ) (h : ObjectRef) (i : ℕ) (w : W) → l.source (rpc_bucket_add s h i w).1 ≡ l.source w
  pub target_kept :
      (s : ℕ) (h : ObjectRef) (i : ℕ) (w : W) → l.target (rpc_bucket_add s h i w).1 ≡ l.target w

module _ {W : Type 0} (shahash : List ℕ → List ℕ) (setup : Setup) {pvfs : Pvfs W}
    {creds : Credentials} {phandle chandle : ObjectRef} (l : IsListing pvfs creds phandle chandle)
    {rpc_bucket_add : ℕ → ObjectRef → ℕ → W → Bool × W} (informed : IsInformed l rpc_bucket_add)
    (parent : ObjectRef) where
  told :
      (c server : ℕ) (w : W)
      → server < setup.servercount
      → (w' : W) × (tell_server shahash setup pvfs creds rpc_bucket_add parent c server w ≡ ok w')
        × (l.source w' ≡ l.source w)
        × (l.target w' ≡ l.target w)
  unfolding tell_server get_connection
  told c server w h = elim (Bool-cases (server == setup.servernum)) [
    | inl here ↦ (w, rw here refl, refl, refl)
    | inr there ↦ (
      (rpc_bucket_add server parent c w).1,
      rw (there, lt→ltb server setup.servercount h, informed.answered server parent c w) refl,
      informed.source_kept server parent c w,
      informed.target_kept server parent c w,
    )
  ]

  module _ {mig : List ℕ → Bool} {w w1 w' : W} (moves : Moves l mig w w1)
      (done : count mig (l.source w1) ≡ 0) (src : l.source w' ≡ l.source w1)
      (trg : l.target w' ≡ l.target w1) (fresh : (x : List ℕ) → contains (l.target w) x ≡ false)
      (x : List ℕ) where
    none_lost : contains (l.source w) x ≡ (contains (l.source w') x || contains (l.target w') x)
    none_lost = rw (src, trg, moves.gained x, fresh x) (ground (arith, moves.shrinks x))

    left : contains (l.source w') x ≡ true → (contains (l.source w) x ≡ true) × (mig x ≡ false)
    left h =
        let inside : contains (l.source w1) x ≡ true = rw (← src) h in
        (moves.shrinks x inside, count_none mig (l.source w1) x done inside)

    moved_on : contains (l.target w') x ≡ true → (contains (l.source w) x ≡ true) × (mig x ≡ true)
    moved_on h =
        let inside : contains (l.target w1) x ≡ true = rw (← trg) h in
        elim (Bool-cases (mig x)) [
          | inl yes_moves ↦ (ground (arith, inside, moves.gained x, fresh x), yes_moves)
          | inr stays ↦
              let kept = moves.stays x stays in
              absurd (ground (arith, inside, moves.gained x, fresh x, kept))
        ]

  module _ (d : SkyeDirectory) (listed : Bool) (n p : ℕ) (heap : List Slot) (pindex c server : ℕ)
      (at_p : load heap p ≡ ok (writing d listed n)) (w : W) (mig : List ℕ → Bool)
      (decided : (x : List ℕ) → giga_file_migration_status shahash x c ≡ ok (mig x))
      (long : length (l.source w) < setup.rounds) (in_range : server < setup.servercount)
      {m : GigaMapping} (updated : giga_update_mapping d.mapping c ≡ ok m) where
    split_runs :
        (w1 w' : W) × Moves l mig w w1
        × (count mig (l.source w1) ≡ 0)
        × (l.source w' ≡ l.source w1)
        × (l.target w' ≡ l.target w1)
        × (split_into shahash setup pvfs creds rpc_bucket_add parent pindex c server phandle chandle
              p heap w
            ≡ ok (set heap p (writing (after_split d m) listed n), w'))
    unfolding split_into set_splitting take_child unlock
    split_runs =
        let s = splitting d pindex in
        let after = writing (after_split d m) listed n in
        let free = held s listed n false in
        let marked = held s listed n true in
        let heap1 = set heap p marked in
        let at_1 : load heap1 p ≡ ok marked = load-set heap p marked at_p in
        let heap2 = set heap1 p free in
        let at_2 : load heap2 p ≡ ok free = load-set heap1 p free at_1 in
        let (locked, w1, q) =
          passes_end l mig shahash c decided s listed n p setup.rounds setup.rounds heap2 w at_2
            (omega (arith, long, count_le mig (l.source w))) long in
        let (w', e, src, trg) = told c server w1 in_range in
        let heap3 = set heap2 p (held s listed n locked) in
        let at_3 = load-set heap2 p (held s listed n locked) at_2 in
        let at_4 = load-set heap3 p marked at_3 in
        (
          w1,
          w',
          q.moves,
          q.done,
          src,
          trg,
          rw
              (
                at_slot_lem p (set_splitting (some pindex)) heap {s' = marked} at_p refl refl,
                at_slot_lem p unlock heap1 {s' = free} at_1 refl refl,
                q.result,
                lock_again s listed n p heap3 locked at_3,
                e,
                at_slot_lem p (take_child c) (set heap3 p marked) {s' = after} at_4 refl
                    (rw updated refl),
                set-set heap3 p marked after,
                set-set heap2 p (held s listed n locked) after,
                set-set heap1 p free after,
                set-set heap p marked after,
              )
              refl,
        )

  module _ (d : SkyeDirectory) (v : IsValid d.mapping) (listed : Bool) (n p : ℕ) (heap : List Slot)
      (pindex c server : ℕ) (at_p : load heap p ≡ ok (writing d listed n)) (w : W)
      (digests : (x : List ℕ) → IsDigest (shahash x))
      (exists_p : partitions d.mapping pindex ≡ true)
      (chosen : giga_index_for_splitting d.mapping pindex ≡ ok c) (small : c < 512)
      (bounded : IsBounded d.mapping 512) (long : length (l.source w) < setup.rounds)
      (in_range : server < setup.servercount)
      (placed : (x : List ℕ)
        → contains (l.source w) x ≡ true
        → giga_get_index_for_file shahash d.mapping x ≡ ok pindex)
      (fresh : (x : List ℕ) → contains (l.target w) x ≡ false) where
    -- do_split from the child directory on.
    pub split_into_lem :
        (m : GigaMapping) × (w' : W) × (giga_update_mapping d.mapping c ≡ ok m)
        × (split_into shahash setup pvfs creds rpc_bucket_add parent pindex c server phandle chandle
              p heap w
            ≡ ok (set heap p (writing (after_split d m) listed n), w'))
        × ((x : List ℕ)
            → contains (l.source w) x ≡ (contains (l.source w') x || contains (l.target w') x))
        × ((x : List ℕ)
            → contains (l.source w') x ≡ true
            → giga_get_index_for_file shahash m x ≡ ok pindex)
        × ((x : List ℕ)
            → contains (l.target w') x ≡ true
            → giga_get_index_for_file shahash m x ≡ ok c)
    split_into_lem =
        let mig : List ℕ → Bool =
          (λ x. (status_known v pindex c exists_p chosen shahash x (digests x) small).0) in
        let decided : ((x : List ℕ) → giga_file_migration_status shahash x c ≡ ok (mig x)) =
          (λ x. (status_known v pindex c exists_p chosen shahash x (digests x) small).1) in
        let (m, updated, v', add, same) = split-IsValid v pindex c exists_p chosen in
        let (w1, w', moves, done, src, trg, e) =
          split_runs d listed n p heap pindex c server at_p w mig decided long in_range updated in
        let after = (λ (x : List ℕ).
          split_moves v pindex c exists_p chosen shahash x (digests x) small m updated bounded) in
        (
          m,
          w',
          updated,
          e,
          λ x. none_lost moves done src trg fresh x,
          λ x h.
              let (inside, stays) = left moves done src trg fresh x h in
              after x ∙ rw (decided x, stays) (placed x inside),
          λ x h.
              let (inside, goes) = moved_on moves done src trg fresh x h in
              after x ∙ rw (decided x, goes) refl,
        )
