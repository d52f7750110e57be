-- ===== src/Server/Split/Moving/Pages.antt =====
-- server/split.c: the two loops of do_split over the entries of the partition that is split.
use skyefs.Prelude.{
  drop-drop, length-drop, length-take, ℕ, zero, suc, ◌+◌, ◌≤◌, ◌<◌, ◌≡◌, refl, ap, ◌∙◌, sym, arith,
  List, [], ◌∷◌, length, take, drop, set, Bool, true, false, ◌==◌, Bool-cases, ◌⊎◌, inl, inr,
  ==_iff, ok, load,
}
use skyefs.Rpc.{ObjectRef, Credentials}
use skyefs.Giga.Index.{giga_file_migration_status}
use skyefs.Server.Directory.{SkyeDirectory, Pvfs, position}
use skyefs.Server.Cache.{Slot, at_slot, wrlock, unlock}
use skyefs.Server.Cache.Balance.{at_slot_lem, load-set, set-set}
use skyefs.Server.Split.{wrlock_again, next_token, move_pages}
use skyefs.Server.Split.Names.{contains, count, count-take-drop, contains-drop, contains-take}
use skyefs.Server.Split.Moving.Entries.{IsListing, Moves, Moves-trans, Moves-same, move_entries_lem}

-- The directory with n references, which the thread has locked for writing or not at all.
abbrev pub held : SkyeDirectory → Bool → ℕ → Bool → Slot
held d listed n locked = record {
  dir = record d { refcount = n; rwlock = record { readers = 0; writer = locked } };
  listed = listed;
  freed = false;
}

position-next_token : (token : ℕ) → position (next_token token 128) ≡ position token + 128
unfolding position
position-next_token token = ground arith

take_short :
    (n : ℕ) (names : List (List ℕ)) → (length (take n names) == n) ≡ false → take n names ≡ names
take_short zero names h = cc
take_short (suc n) [] h = refl
take_short (suc n) (x ∷ names) h = ap (◌∷◌ x) (take_short n names (ground (arith, h)))

full_rest : (names : List (List ℕ)) → length (take 128 names) ≡ 128 → 128 ≤ length names
full_rest names e = omega (arith, e, length-take 128 names)

pub zero_or_more : (n : ℕ) → (n ≡ 0) ⊎ ((0 < n) × ((n == 0) ≡ false))
zero_or_more zero = inl refl
zero_or_more (suc n) = inr (omega arith, ground arith)

module _ (d : SkyeDirectory) (listed : Bool) (n p : ℕ) (heap : List Slot) (locked : Bool)
    (at_p : load heap p ≡ ok (held d listed n locked)) where
  pub lock_again : at_slot p wrlock_again heap ≡ ok (set heap p (held d listed n true))
  unfolding wrlock_again wrlock
  lock_again = elim (Bool-cases locked) [
    | inl e ↦ at_slot_lem p wrlock_again heap {s' = held d listed n true} at_p refl (rw e refl)
    | inr e ↦ at_slot_lem p wrlock_again heap {s' = held d listed n true} at_p refl (rw e refl)
  ]

  unlock_again :
      at_slot p unlock (set heap p (held d listed n true)) ≡ ok (set heap p (held d listed n false))
  unfolding unlock
  unlock_again =
      at_slot_lem p unlock (set heap p (held d listed n true)) {s' = held d listed n false}
        (load-set heap p (held d listed n true) at_p) refl refl
      ∙ ap ok (set-set heap p (held d listed n true) (held d listed n false))

module _ {W : Type 0} {pvfs : Pvfs W} {creds : Credentials} {phandle chandle : ObjectRef}
    (l : IsListing pvfs creds phandle chandle) (mig : List ℕ → Bool) (shahash : List ℕ → List ℕ)
    (cindex : ℕ) (decided : (x : List ℕ) → giga_file_migration_status shahash x cindex ≡ ok (mig x))
    (d : SkyeDirectory) (listed : Bool) (n p : ℕ) where
  -- What the inner loop did from a token on.
  pub record Paged (rounds token : ℕ) (heap : List Slot) (w : W) (moved : ℕ) (locked : Bool)
      (w' : W) : Type 0 where
    pub result :
        move_pages shahash pvfs creds phandle chandle cindex rounds p token heap w
        ≡ ok (moved, set heap p (held d listed n locked), w')
    pub moves : Moves l mig w w'
    pub same : moved ≡ 0 → l.source w' ≡ l.source w
    pub seen : moved ≡ 0 → count mig (drop (position token) (l.source w)) ≡ 0
    pub less : 0 < moved → count mig (l.source w') < count mig (l.source w)

  abbrev pub Reading : ℕ → ℕ → List Slot → W → Type 0
  Reading rounds token heap w =
      (moved : ℕ) × (locked : Bool) × (w' : W) × Paged rounds token heap w moved locked w'

  module _ (token : ℕ) (heap : List Slot) (w : W) {locked : Bool}
      (at_p : load heap p ≡ ok (held d listed n locked)) where
    abbrev rest_of : List (List ℕ)
    rest_of = drop (position token) (l.source w)

    last_page : (f : ℕ) → [] ≡ take 128 rest_of → Reading (suc f) token heap w
    unfolding move_pages count
    last_page f e =
        let w' = (pvfs.readdir phandle token 128 w).1 in
        let nothing : [] ≡ rest_of = e ∙ take_short 128 rest_of (rw (← e) refl) in
        (
          0,
          true,
          w',
          record {
            result =
                rw (lock_again d listed n p heap locked at_p, l.listed token 128 w, sym e) refl;
            moves = Moves-same l mig (l.source_kept token 128 w) (l.target_kept token 128 w);
            same = λ z. l.source_kept token 128 w;
            seen = λ z. ap (count mig) (sym nothing);
            less = λ lt. omega (arith, lt);
          },
        )

    module _ (name : List ℕ) (names : List (List ℕ)) (e : name ∷ names ≡ take 128 rest_of) where
      abbrev w_read : W
      w_read = (pvfs.readdir phandle token 128 w).1

      source_read : l.source w_read ≡ l.source w
      source_read = l.source_kept token 128 w

      inside : (x : List ℕ) → contains (name ∷ names) x ≡ true → contains (l.source w_read) x ≡ true
      inside x h =
          rw source_read (
            contains-drop (position token) (l.source w) x
              (contains-take 128 rest_of x (rw (← e) h)))

      rest_none :
          count mig (name ∷ names) ≡ 0 → count mig (drop 128 rest_of) ≡ 0 → count mig rest_of ≡ 0
      rest_none a b = omega (arith, count-take-drop mig 128 rest_of, ap (count mig) e)

      rest_seen :
          (w1 : W)
          → l.source w1 ≡ l.source w
          → count mig (drop (position (next_token token 128)) (l.source w1)) ≡ 0
          → count mig (drop 128 rest_of) ≡ 0
      rest_seen w1 same z =
          ap (count mig) (
            drop-drop (position token) 128 (l.source w)
            ∙ ap (λ k. drop k (l.source w)) (sym (position-next_token token))
            ∙ ap (drop (position (next_token token 128))) (sym same))
          ∙ z

      short_page : (f : ℕ) → (length (name ∷ names) == 128) ≡ false → Reading (suc f) token heap w
      unfolding move_pages
      short_page f short =
          let (w', r) = move_entries_lem l mig shahash cindex decided (name ∷ names) w_read in
          let read = Moves-same l mig source_read (l.target_kept token 128 w) in
          (
            count mig (name ∷ names),
            false,
            w',
            record {
              result =
                  rw
                    (
                      lock_again d listed n p heap locked at_p,
                      l.listed token 128 w,
                      sym e,
                      r.result,
                      unlock_again d listed n p heap locked at_p,
                      short,
                    )
                    refl;
              moves = Moves-trans l mig read r.moves;
              same = λ z. r.same z ∙ source_read;
              seen = λ z.
                  let all = take_short 128 rest_of (rw (← e) short) in
                  ap (count mig) (sym all ∙ sym e) ∙ z;
              less = λ lt. let less = r.less lt inside in rw (← source_read) less;
            },
          )

      full_page :
          (f : ℕ)
          → length (name ∷ names) ≡ 128
          → ((w1 : W)
              → length (l.source w1) ≤ length (l.source w)
              → Reading f (next_token token 128) (set heap p (held d listed n false)) w1)
          → Reading (suc f) token heap w
      unfolding move_pages
      full_page f full next =
          let (w1, r) = move_entries_lem l mig shahash cindex decided (name ∷ names) w_read in
          let read = Moves-same l mig source_read (l.target_kept token 128 w) in
          let first = Moves-trans l mig read r.moves in
          let (more, locked', w', q) = next w1 first.shorter in
          (
            count mig (name ∷ names) + more,
            locked',
            w',
            record {
              result =
                  rw
                    (
                      lock_again d listed n p heap locked at_p,
                      l.listed token 128 w,
                      sym e,
                      r.result,
                      unlock_again d listed n p heap locked at_p,
                      full,
                      q.result,
                      set-set heap p (held d listed n false) (held d listed n locked'),
                    )
                    refl;
              moves = Moves-trans l mig first q.moves;
              same = λ z. q.same (omega (arith, z)) ∙ r.same (omega (arith, z)) ∙ source_read;
              seen = λ z. rest_none (omega (arith, z)) (
                  rest_seen w1 (r.same (omega (arith, z)) ∙ source_read)
                    (q.seen (omega (arith, z))));
              less = λ lt. elim (zero_or_more (count mig (name ∷ names))) [
                | inl nothing ↦ omega (arith, first.fewer, q.less (omega (arith, lt, nothing)))
                | inr some_moved ↦
                    let less = r.less some_moved.0 inside in
                    omega (arith, less, q.moves.fewer, ap (count mig) source_read)
              ];
            },
          )

    move_page :
        (f : ℕ)
        → ((w1 : W)
            → 128 ≤ length rest_of
            → length (l.source w1) ≤ length (l.source w)
            → Reading f (next_token token 128) (set heap p (held d listed n false)) w1)
        → (names : List (List ℕ)) → names ≡ take 128 rest_of
        → Reading (suc f) token heap w
    move_page f next [] e = last_page f e
    move_page f next (name ∷ names) e = elim (Bool-cases (length (name ∷ names) == 128)) [
      | inl full ↦
          full_page name names e f ((==_iff _ _).0 full)
            (λ w1 le. next w1 (full_rest rest_of (ap length (sym e) ∙ (==_iff _ _).0 full)) le)
      | inr short ↦ short_page name names e f short
    ]

  pub move_pages_lem :
      (f token : ℕ) (heap : List Slot) (w : W) {locked : Bool}
      → load heap p ≡ ok (held d listed n locked)
      → length (l.source w) < position token + f
      → 0 < f
      → Reading f token heap w
  move_pages_lem zero token heap w at_p enough some_f = elim some_f [ ]
  move_pages_lem (suc f) token heap w at_p enough some_f =
      move_page token heap w at_p f
        (λ w1 many le.
          move_pages_lem f (next_token token 128) (set heap p (held d listed n false)) w1
            (load-set heap p (held d listed n false) at_p)
            (rw (position-next_token token) (omega (arith, enough, le)))
            (omega (arith, many, enough, length-drop (position token) (l.source w))))
        (take 128 (drop (position token) (l.source w))) refl
