-- ===== src/Cluster/Children.antt =====
-- server/split.c, server/handlers.c and server/cache.c: which servers know the children of a partition
-- while the directory is split.
use mathlib.Core.Path.{subst}
use native.Mathlib.Decide.{ℕ_discrete}
use native.Mathlib.Nat.{one-le-pow}
use skyefs.Prelude.{
  ℕ, ◌<◌, ◌≡◌, ◌⊎◌, Bool, Bool-cases, refl, ap, sym, ◌∙◌, arith, inl, inr, true, false, Option,
  none, some, ok,
}
use skyefs.Giga.Mapping.{GigaMapping, giga_get_server_for_index}
use skyefs.Giga.Mapping.Invariant.{partitions}
use skyefs.Giga.Child.{split_child}
use skyefs.Giga.Index.{giga_index_for_splitting}
use skyefs.Giga.Tree.Splitting.{Adds, Adds-IsTree}
use skyefs.Cluster.{
  Cluster, Split, put, add, start, SplitStep, SplitSteps, begin, announce, finish_here, finish_told,
  here, next, load_directory, IsLoaded,
}
use skyefs.Cluster.Consistent.{
  IsConsistent, put_all, put_self, put_other, some-injective, add_old, add-cases, mono,
  knows_itself,
}
use skyefs.Cluster.Steps.{SplitSteps-IsConsistent}
use skyefs.Cluster.Family.{IsChild, HasChildren, IsChild-of, same_home, Adds-add, home_lem}

module _ {first count : ℕ} {σ : Cluster} (h : HasChildren first count σ) where
  -- The split of server s goes on to o; the tables have what they had.
  taken-HasChildren :
      (tables : ℕ → GigaMapping) (s c : ℕ) (told : Bool) (o : Option Split)
      → σ.splits s ≡ some (record { cindex = c; told = told })
      → ((i d : ℕ) → partitions (σ.tables i) d ≡ true → partitions (tables i) d ≡ true)
      → (partitions (tables s) c ≡ true) ⊎ (o ≡ some (record { cindex = c; told = true }))
      → ((x : Split) → o ≡ some x → IsChild first count σ.all s x.cindex)
      → HasChildren first count (record σ { tables = tables; splits = put σ.splits s o })
  taken-HasChildren tables s c told o at more after fresh = record {
    tree = h.tree;
    covered = λ i d loaded child seen. elim (h.covered i d loaded child seen) [
      | inl known ↦ inl (more i d known)
      | inr (b, busy) ↦ elim (ℕ_discrete s i) [
        | no ne ↦ inr (b, put_other σ.splits s o i ne ∙ busy)
        | yes e ↦
            let same : record { cindex = c; told = told } ≡ record { cindex = d; told = b } =
              some-injective (sym at ∙ ap σ.splits e ∙ busy) in
            let same_index : c ≡ d = ap (λ (x : Split). x.cindex) same in
            elim after [
              | inl knows ↦ inl (
                  subst (λ j. partitions (tables j) d ≡ true) e
                    (subst (λ d. partitions (tables s) d ≡ true) same_index knows))
              | inr goes ↦
                  let at_s = put_self σ.splits s o ∙ goes in
                  inr (
                    true,
                    subst (λ j. put σ.splits s o j ≡ some (record { cindex = d; told = true })) e
                        (at_s ∙ ap (λ n. some (record { cindex = n; told = true })) same_index),
                  )
            ]
      ]
    ];
    splitting =
        put_all (λ o i. (x : Split) → o ≡ some x → IsChild first count σ.all i x.cindex) σ.splits s
          o fresh (λ i ne x e. h.splitting i x e);
  }

  load-HasChildren :
      (s : ℕ) (m : GigaMapping)
      → IsLoaded σ.all (σ.tables s) m
      → HasChildren first count
          (record σ { tables = put σ.tables s m; loaded = put σ.loaded s true })
  load-HasChildren s m filled = record {
    tree = h.tree;
    covered = λ i d loaded child seen. elim (ℕ_discrete s i) [
      | yes e ↦
          let known : partitions (put σ.tables s m s) d ≡ true =
            ap (λ m. partitions m d) (put_self σ.tables s m) ∙ filled.listed d ∙ seen in
          inl (subst (λ i. partitions (put σ.tables s m i) d ≡ true) e known)
      | no ne ↦ elim (h.covered i d (sym (put_other σ.loaded s true i ne) ∙ loaded) child seen) [
        | inl known ↦ inl (ap (λ m. partitions m d) (put_other σ.tables s m i ne) ∙ known)
        | inr busy ↦ inr busy
      ]
    ];
    splitting = h.splitting;
  }

module _ {first count : ℕ} {σ : Cluster} (served : 0 < count) (v : IsConsistent first count σ)
    (h : HasChildren first count σ) where
  -- A partition that may be split, and the child that is chosen for it.
  chosen-IsChild :
      (s p c : ℕ)
      → partitions (σ.tables s) p ≡ true
      → giga_get_server_for_index (σ.tables s) p ≡ ok s
      → giga_index_for_splitting (σ.tables s) p ≡ ok c
      → IsChild first count σ.all s c × (partitions (σ.tables s) c ≡ false)
  chosen-IsChild s p c mem own chosen =
      let (k, small, lt, e, missing, r) = split_child (v.table s).usable p c mem chosen in
      (
        record {
          parent = p;
          level = k;
          low = small;
          child = e;
          seen = (v.table s).known p mem;
          at = sym (home_lem served (v.table s) p) ∙ own;
        },
        missing,
      )

  begin_new :
      (s p c : ℕ)
      → σ.loaded s ≡ true
      → σ.splits s ≡ none
      → partitions (σ.tables s) p ≡ true
      → giga_get_server_for_index (σ.tables s) p ≡ ok s
      → giga_index_for_splitting (σ.tables s) p ≡ ok c
      → σ.all c ≡ false
  begin_new s p c loaded free mem own chosen =
      let (child, missing) = chosen-IsChild s p c mem own chosen in
      elim (Bool-cases (σ.all c)) [
        | inr new ↦ new
        | inl old ↦ elim (h.covered s c loaded child old) [ inl known ↦ cc | inr (told, busy) ↦ cc ]
      ]

  begin-HasChildren :
      (s p c : ℕ)
      → σ.splits s ≡ none
      → partitions (σ.tables s) p ≡ true
      → giga_get_server_for_index (σ.tables s) p ≡ ok s
      → giga_index_for_splitting (σ.tables s) p ≡ ok c
      → HasChildren first count (record σ {
        splits = put σ.splits s (some (record { cindex = c; told = false }));
        all = add σ.all c;
      })
  begin-HasChildren s p c free mem own chosen =
      let (made, missing) = chosen-IsChild s p c mem own chosen in
      let x : Split = record { cindex = c; told = false } in
      let more = add_old σ.all c in
      let later : IsChild first count (add σ.all c) s c =
        IsChild-of made (more made.parent made.seen) in
      record {
        tree =
            Adds-IsTree h.tree made.parent made.level made.low (add σ.all c) made.seen
              (subst (λ d. Adds σ.all d (add σ.all c)) made.child (Adds-add σ.all c));
        covered = λ i d loaded child seen. elim (add-cases σ.all c d seen) [
          | inl new ↦
              let at_i = same_home (subst (IsChild first count (add σ.all c) s) new later) child in
              inr (
                false,
                subst (λ j. put σ.splits s (some x) j ≡ some (record { cindex = d; told = false }))
                    at_i
                    (put_self σ.splits s (some x)
                      ∙ ap (λ n. some (record { cindex = n; told = false })) new),
              )
          | inr old ↦
              let parent_old =
                h.tree.parents child.parent child.level child.low (rw (← child.child) old) in
              elim (h.covered i d loaded (IsChild-of child parent_old) old) [
                | inl known ↦ inl known
                | inr (b, busy) ↦ elim (ℕ_discrete s i) [
                  | yes e ↦ let both = ap σ.splits e ∙ busy in cc
                  | no ne ↦ inr (b, put_other σ.splits s (some x) i ne ∙ busy)
                ]
              ]
        ];
        splitting =
            put_all (λ o i. (x : Split) → o ≡ some x → IsChild first count (add σ.all c) i x.cindex)
              σ.splits s (some x)
              (λ y e.
                subst (λ z. IsChild first count (add σ.all c) s z.cindex) (some-injective e) later)
              (λ i ne x e.
                let old = h.splitting i x e in IsChild-of old (more old.parent old.seen));
      }

  SplitStep-HasChildren_at : {τ : Cluster} → SplitStep σ τ → HasChildren first count τ
  SplitStep-HasChildren_at (load_directory s m new filled e) =
      subst (HasChildren first count) (sym e) (load-HasChildren h s m filled)
  SplitStep-HasChildren_at (begin s p c loaded free mem own chosen e) =
      subst (HasChildren first count) (sym e) (begin-HasChildren s p c free mem own chosen)
  SplitStep-HasChildren_at (announce s t c m at place other loaded updated e) =
      let x : Split = record { cindex = c; told = true } in
      subst (HasChildren first count) (sym e) (
        taken-HasChildren h (put σ.tables t m) s c false (some x) at
          (mono v t c updated (v.fits s _ at) (v.made s _ at)) (inr refl)
          (λ y f.
            subst (λ z. IsChild first count σ.all s z.cindex) (some-injective f)
              (h.splitting s _ at)))
  SplitStep-HasChildren_at (finish_here s c m at place updated e) =
      subst (HasChildren first count) (sym e) (
        taken-HasChildren h (put σ.tables s m) s c false none at
          (mono v s c updated (v.fits s _ at) (v.made s _ at))
          (inl (knows_itself v s c updated (v.fits s _ at) (v.made s _ at) s refl)) (λ y f. cc))
  SplitStep-HasChildren_at (finish_told s c m at updated e) =
      subst (HasChildren first count) (sym e) (
        taken-HasChildren h (put σ.tables s m) s c true none at
          (mono v s c updated (v.fits s _ at) (v.made s _ at))
          (inl (knows_itself v s c updated (v.fits s _ at) (v.made s _ at) s refl)) (λ y f. cc))

start-HasChildren : (first count : ℕ) → HasChildren first count (start first count)
unfolding start
start-HasChildren first count = record {
  tree = record { root = refl; parents = λ i k low seen. ground (arith, seen, one-le-pow k 2) };
  covered = λ s c loaded child seen. cc;
  splitting = λ s x e. cc;
}

-- If there is a server, then from a start in which no server has the directory in memory, however
-- the servers load it and split it, the partitions in PVFS are a tree; if the server of a
-- partition has loaded its table, this has the children of the partition that are in PVFS, but
-- for one that the server is at the split to; and a split is to a child of a partition in PVFS
-- that is on the server.
pub SplitSteps-HasChildren :
    {first count : ℕ} {σ : Cluster}
    → 0 < count
    → SplitSteps (start first count) σ
    → HasChildren first count σ
SplitSteps-HasChildren {first} {count} served here = start-HasChildren first count
SplitSteps-HasChildren served (next steps step) =
    SplitStep-HasChildren_at served (SplitSteps-IsConsistent served steps)
      (SplitSteps-HasChildren served steps) step

-- If there is a server, the tables of the servers come from a start in which no server has the
-- directory in memory by loads and steps of splits, and a server that has loaded the directory
-- and is at no split may split a partition p that its table has and puts on it, then p is in
-- PVFS, and the child that giga_index_for_splitting chooses is not: do_split makes no partition a
-- second time.
pub SplitSteps_new :
    (first : ℕ) {count : ℕ} {σ : Cluster} (s p c : ℕ)
    → 0 < count
    → SplitSteps (start first count) σ
    → σ.loaded s ≡ true
    → σ.splits s ≡ none
    → partitions (σ.tables s) p ≡ true
    → giga_get_server_for_index (σ.tables s) p ≡ ok s
    → giga_index_for_splitting (σ.tables s) p ≡ ok c
    → (σ.all p ≡ true) × (σ.all c ≡ false)
SplitSteps_new first s p c served steps loaded free mem own chosen =
    let v = SplitSteps-IsConsistent served steps in
    (
      (v.table s).known p mem,
      begin_new served v (SplitSteps-HasChildren served steps) s p c loaded free mem own chosen,
    )
