-- ===== src/Server/Split/Moving/Passes.antt =====
-- server/split.c: the outer loop of do_split, which reads the partition until nothing moves.
use skyefs.Prelude.{
  ℕ, zero, suc, ◌<◌, ◌≡◌, refl, ap, ◌∙◌, arith, List, length, set, Bool, inl, inr, ok, load,
}
use skyefs.Rpc.{ObjectRef, Credentials}
use skyefs.Giga.Index.{giga_file_migration_status}
use skyefs.Server.Directory.{SkyeDirectory, Pvfs, position}
use skyefs.Server.Cache.{Slot}
use skyefs.Server.Cache.Balance.{load-set, set-set}
use skyefs.Server.Split.{move_passes}
use skyefs.Server.Split.Names.{count}
use skyefs.Server.Split.Moving.Entries.{IsListing, Moves, Moves-trans}
use skyefs.Server.Split.Moving.Pages.{held, move_pages_lem, zero_or_more}

module _ {W : Type 0} {pvfs : Pvfs W} {creds : Credentials} {phandle chandle : ObjectRef}
    (l : IsListing pvfs creds phandle chandle) (mig : List ℕ → Bool) (shahash : List ℕ → List ℕ)
    (cindex : ℕ) (decided : (x : List ℕ) → giga_file_migration_status shahash x cindex ≡ ok (mig x))
    (d : SkyeDirectory) (listed : Bool) (n p rounds : ℕ) where
  -- The outer loop from w to w', when nothing is left to move.
  pub record Passed (f : ℕ) (heap : List Slot) (w : W) (locked : Bool) (w' : W) : Type 0 where
    pub result :
        move_passes shahash pvfs creds phandle chandle cindex f rounds p heap w
        ≡ ok (set heap p (held d listed n locked), w')
    pub moves : Moves l mig w w'
    pub done : count mig (l.source w') ≡ 0

  pub passes_end :
      (f : ℕ) (heap : List Slot) (w : W) {locked : Bool}
      → load heap p ≡ ok (held d listed n locked)
      → count mig (l.source w) < f
      → length (l.source w) < rounds
      → (locked' : Bool) × (w' : W) × Passed f heap w locked' w'
  unfolding move_passes position
  passes_end zero heap w at_p enough long = elim enough [ ]
  passes_end (suc f) heap w at_p enough long =
      let (moved, locked1, w1, r) =
        move_pages_lem l mig shahash cindex decided d listed n p rounds 0 heap w at_p
          (omega (arith, long)) (omega (arith, long)) in
      let slot = held d listed n locked1 in
      elim (zero_or_more moved) [
        | inl nothing ↦ (
          locked1,
          w1,
          record {
            result = rw (r.result, nothing) refl;
            moves = r.moves;
            done = ap (count mig) (r.same nothing) ∙ r.seen nothing;
          },
        )
        | inr some_moved ↦
            let (locked2, w2, q) =
              passes_end f (set heap p slot) w1 (load-set heap p slot at_p)
                (omega (arith, enough, r.less some_moved.0))
                (omega (arith, long, r.moves.shorter)) in
            (
              locked2,
              w2,
              record {
                result =
                    rw
                      (
                        r.result,
                        some_moved.1,
                        q.result,
                        set-set heap p slot (held d listed n locked2),
                      )
                      refl;
                moves = Moves-trans l mig r.moves q.moves;
                done = q.done;
              },
            )
      ]
