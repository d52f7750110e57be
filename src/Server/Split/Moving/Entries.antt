-- ===== src/Server/Split/Moving/Entries.antt =====
-- server/split.c: the renames of one reply of PVFS_sys_readdir.
use skyefs.Prelude.{
  ℕ, ◌≤◌, ◌<◌, ◌≡◌, refl, ap, ◌∙◌, sym, arith, List, [], ◌∷◌, length, take, drop, Bool, true, false,
  ◌&&◌, ◌||◌, if◌then◌else◌, Bool-cases, inl, inr, some, ok,
}
use skyefs.Rpc.{ObjectRef, Credentials}
use skyefs.Giga.Index.{giga_file_migration_status}
use skyefs.Server.Directory.{Pvfs, position}
use skyefs.Server.Split.{move_entries}
use skyefs.Prelude.Strings.{same_name, same_name_lem, same_name_refl}
use skyefs.Server.Split.Names.{
  contains, without, count, contains-without, length-without, count-without, count-without_lt,
}

-- PVFS with two directories: PVFS_sys_readdir lists the first by position, and PVFS_sys_rename from
-- it takes a name away there and, if there was one, puts it into the second.
pub record IsListing {W : Type 0} (pvfs : Pvfs W) (creds : Credentials)
    (phandle chandle : ObjectRef) : Type 0 where
  pub source : W → List (List ℕ)
  pub target : W → List (List ℕ)
  pub listed :
      (token n : ℕ) (w : W)
      → (pvfs.readdir phandle token n w).0 ≡ some (take n (drop (position token) (source w)))
  pub source_kept : (token n : ℕ) (w : W) → source (pvfs.readdir phandle token n w).1 ≡ source w
  pub target_kept : (token n : ℕ) (w : W) → target (pvfs.readdir phandle token n w).1 ≡ target w
  pub taken :
      (name : List ℕ) (w : W)
      → source (pvfs.sys_rename creds name phandle name chandle w).1 ≡ without name (source w)
  pub arrived :
      (name : List ℕ) (w : W) (x : List ℕ)
      → contains (target (pvfs.sys_rename creds name phandle name chandle w).1) x
        ≡ (contains (target w) x || (contains (source w) name && same_name name x))

module _ {W : Type 0} {pvfs : Pvfs W} {creds : Credentials} {phandle chandle : ObjectRef}
    (l : IsListing pvfs creds phandle chandle) (mig : List ℕ → Bool) where
  -- From w to w' only names that pass `mig` have left the first directory, all for the second.
  pub record Moves (w w' : W) : Type 0 where
    pub stays : (x : List ℕ) → mig x ≡ false → contains (l.source w') x ≡ contains (l.source w) x
    pub gained :
        (x : List ℕ)
        → contains (l.target w') x ≡ (
            contains (l.target w) x
            || (contains (l.source w) x && (if contains (l.source w') x then false else true)))
    pub shrinks : (x : List ℕ) → contains (l.source w') x ≡ true → contains (l.source w) x ≡ true
    pub fewer : count mig (l.source w') ≤ count mig (l.source w)
    pub shorter : length (l.source w') ≤ length (l.source w)

  pub Moves-trans : {a b c : W} → Moves a b → Moves b c → Moves a c
  Moves-trans p q = record {
    stays = λ x h. q.stays x h ∙ p.stays x h;
    gained = λ x. ground (arith, q.gained x, p.gained x, q.shrinks x, p.shrinks x);
    shrinks = λ x h. p.shrinks x (q.shrinks x h);
    fewer = omega (arith, q.fewer, p.fewer);
    shorter = omega (arith, q.shorter, p.shorter);
  }

  pub Moves-same : {a b : W} → l.source b ≡ l.source a → l.target b ≡ l.target a → Moves a b
  Moves-same s t = record {
    stays = λ x h. ap (λ names. contains names x) s;
    gained = λ x. rw (s, t) (ground arith);
    shrinks = λ x h. rw (← s) h;
    fewer = rw s (omega arith);
    shorter = rw s (omega arith);
  }

  Moves-rename :
      (name : List ℕ) (w : W)
      → mig name ≡ true
      → Moves w (pvfs.sys_rename creds name phandle name chandle w).1
  Moves-rename name w moves = record {
    stays = λ x no.
        rw (l.taken name w, contains-without name x (l.source w))
          (elim (Bool-cases (same_name name x)) [
            | inl same ↦ let e = same_name_lem name x same in let f = ap mig e in cc
            | inr other ↦ rw other (ground arith)
          ]);
    gained = λ x.
        rw (l.taken name w, contains-without name x (l.source w), l.arrived name w x)
          (elim (Bool-cases (same_name name x)) [
            | inl same ↦
                let e = same_name_lem name x same in
                rw (ap (contains (l.source w)) e, same) (ground arith)
            | inr other ↦ rw other (ground arith)
          ]);
    shrinks = λ x h. ground (
      arith,
      sym (contains-without name x (l.source w)),
      ap (λ s. contains s x) (l.taken name w),
    );
    fewer = rw (l.taken name w) (count-without mig name (l.source w));
    shorter = rw (l.taken name w) (length-without name (l.source w));
  }

  module _ (shahash : List ℕ → List ℕ) (cindex : ℕ)
      (decided : (x : List ℕ) → giga_file_migration_status shahash x cindex ≡ ok (mig x)) where
    -- What the loop over the names of a reply did.
    pub record Moved (names : List (List ℕ)) (w w' : W) : Type 0 where
      pub result :
          move_entries shahash pvfs creds phandle chandle cindex names w ≡ ok (count mig names, w')
      pub moves : Moves w w'
      pub same : count mig names ≡ 0 → l.source w' ≡ l.source w
      pub less :
          0 < count mig names
          → ((x : List ℕ) → contains names x ≡ true → contains (l.source w) x ≡ true)
          → count mig (l.source w') < count mig (l.source w)

    pub move_entries_lem : (names : List (List ℕ)) (w : W) → (w' : W) × Moved names w w'
    unfolding move_entries count contains
    move_entries_lem [] w = (
      w,
      record {
        result = refl;
        moves = Moves-same refl refl;
        same = λ e. refl;
        less = λ lt inside. omega (arith, lt);
      },
    )
    move_entries_lem (name ∷ names) w = elim (Bool-cases (mig name)) [
      | inl moves ↦
          let w1 = (pvfs.sys_rename creds name phandle name chandle w).1 in
          let (w', r) = move_entries_lem names w1 in
          (
            w',
            record {
              result = rw (decided name, moves, r.result) refl;
              moves = Moves-trans (Moves-rename name w moves) r.moves;
              same = λ none_moved. ground (arith, moves);
              less = λ lt inside.
                  let fewer =
                    count-without_lt mig name (l.source w) moves
                      (inside name (rw (same_name_refl name) refl)) in
                  let e = ap (count mig) (l.taken name w) in omega (arith, fewer, r.moves.fewer, e);
            },
          )
      | inr stays ↦
          let (w', r) = move_entries_lem names w in
          (
            w',
            record {
              result = rw (decided name, stays, r.result) refl;
              moves = r.moves;
              same = λ none_moved. r.same (ground (arith, stays));
              less =
                  λ lt inside. r.less (ground (arith, stays)) (λ x h. inside x (ground (arith, h)));
            },
          )
    ]
