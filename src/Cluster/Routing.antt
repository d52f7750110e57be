-- ===== src/Cluster/Routing.antt =====
-- common/giga_index.c, server/handlers.c and server/split.c together: where the table of a server puts
-- a name, and where the name belongs among the partitions in PVFS. On the server of the name the two
-- differ only during a split, in which enter_bucket looks at giga_file_migration_status.
use native.Mathlib.Decide.{dec_lt}
use native.Mathlib.Nat.{pow-suc, one-le-pow}
use skyefs.Prelude.{
  ℕ, zero, suc, ◌+◌, ◌%◌, ◌^◌, ◌≤◌, ◌<◌, ◌≡◌, ◌⊎◌, refl, ap, sym, ◌∙◌, arith, inl, inr, ==_iff,
  true, false, Bool, Bool-cases, List, some, ok, ◌>>=◌,
}
use skyefs.Giga.Bitmap.{get_radix_from_index}
use skyefs.Giga.Bitmap.Radix.{radix-of_span}
use skyefs.Giga.Mapping.{giga_get_server_for_index}
use skyefs.Giga.Mapping.Invariant.{partitions}
use skyefs.Giga.Hash.RoundTrip.{IsDigest}
use skyefs.Giga.Hash.Suffix.{number}
use skyefs.Giga.Tree.{Partitions, IsTree, locate}
use skyefs.Giga.Tree.Suffix.{suffix-lt, suffix-suc, suffix_mono, suffix_closed, locate-IsLocation}
use skyefs.Giga.Lookup.{giga_get_index_for_file-locate, index_of_name}
use skyefs.Giga.Index.{
  giga_get_index_for_file, giga_get_server_for_file, giga_file_migration_status,
}
use skyefs.Cluster.{Cluster, start, SplitSteps}
use skyefs.Cluster.Steps.{SplitSteps-IsConsistent}
use skyefs.Cluster.Children.{SplitSteps-HasChildren}
use skyefs.Cluster.Family.{IsChild, home_lem}

-- After a suffix of a hash, before a longer one, comes one that has a single bit more, and that is 1.
record IsNext (h r k : ℕ) : Type 0 where
  level : ℕ
  shorter : suc level ≤ k
  ends : h % 2 ^ level ≡ r
  grown : h % 2 ^ suc level ≡ r + 2 ^ level

IsNext-suffix : (h j k : ℕ) → h % 2 ^ j < h % 2 ^ k → IsNext h (h % 2 ^ j) k
IsNext-suffix h j zero lt = absurd (omega (arith, suffix_mono h 0 j (omega arith)))
IsNext-suffix h j (suc k) lt = elim (dec_lt (h % 2 ^ j) (h % 2 ^ k)) [
  | yes before ↦
      let n = IsNext-suffix h j k before in
      record { level = n.level; shorter = omega (arith, n.shorter); ends = n.ends; grown = n.grown }
  | no after ↦ elim (suffix-suc h k) [
    | inl same ↦ absurd (omega (arith, same))
    | inr more ↦ elim (dec_lt k j) [
      | yes long ↦ absurd (omega (arith, suffix_mono h (suc k) j (omega arith)))
      | no short ↦
          let e : h % 2 ^ k ≡ h % 2 ^ j = omega (arith, suffix_mono h j k (omega arith)) in
          record {
            level = k;
            shorter = omega arith;
            ends = e;
            grown = more ∙ ap (λ x. x + 2 ^ k) e;
          }
    ]
  ]
]

-- The place of a name in the smaller of two sets, if it differs, has a child in the larger one where
-- the name belongs.
place_differs :
    (ps all : Partitions) (h : ℕ)
    → ps 0 ≡ true
    → IsTree all
    → ((i : ℕ) → ps i ≡ true → all i ≡ true)
    → (locate ps 9 h ≡ locate all 9 h)
      ⊎ ((i : ℕ) × (i < 9)
          × (locate ps 9 h < 2 ^ i)
          × (h % 2 ^ suc i ≡ locate ps 9 h + 2 ^ i)
          × (all (locate ps 9 h + 2 ^ i) ≡ true)
          × (ps (locate ps 9 h + 2 ^ i) ≡ false))
place_differs ps all h root tree known =
    let r = locate ps 9 h in
    let a = locate-IsLocation ps h 9 root in
    let b = locate-IsLocation all h 9 tree.root in
    let (j, le, at) = a.suffix in
    let (k, kle, bt) = b.suffix in
    let not_more : r ≤ locate all 9 h =
      omega (arith, b.largest j le (rw (← at) (known r a.member)), at) in
    elim (dec_lt r (locate all 9 h)) [
      | no same ↦ inl (omega arith)
      | yes less ↦
          let n = IsNext-suffix h j k (omega (arith, at, bt)) in
          let grown : h % 2 ^ suc n.level ≡ r + 2 ^ n.level =
            n.grown ∙ ap (λ x. x + 2 ^ n.level) (sym at) in
          let small : r < 2 ^ n.level = omega (arith, suffix-lt h n.level, n.ends, at) in
          inr (
            n.level,
            omega (arith, n.shorter, kle),
            small,
            grown,
            rw (← grown) (suffix_closed tree h (suc n.level) k n.shorter (rw (← bt) b.member)),
            elim (Bool-cases (ps (r + 2 ^ n.level))) [
              | inr free ↦ free
              | inl there ↦
                  let larger =
                    a.largest (suc n.level) (omega (arith, n.shorter, kle)) (rw grown there) in
                  absurd (omega (arith, larger, grown, one-le-pow n.level 2))
            ],
          )
    ]

module _ (first : ℕ) {count : ℕ} {σ : Cluster} (served : 0 < count)
    (steps : SplitSteps (start first count) σ) (small : (i : ℕ) → σ.all i ≡ true → i < 512)
    (shahash : List ℕ → List ℕ) (name : List ℕ) (d : IsDigest (shahash name)) (s : ℕ) where
  index_at :
      giga_get_index_for_file shahash (σ.tables s) name
      ≡ ok (locate (partitions (σ.tables s)) 9 (number (shahash name)))
  index_at =
      let t = (SplitSteps-IsConsistent served steps).table s in
      giga_get_index_for_file-locate shahash t.usable name d (λ i e. small i (t.known i e))

  moved_to :
      (p c i : ℕ)
      → i < 9
      → p < 2 ^ i
      → c ≡ p + 2 ^ i
      → number (shahash name) % 2 ^ suc i ≡ c
      → giga_file_migration_status shahash name c ≡ ok true
  unfolding giga_file_migration_status
  moved_to p c i lt low e ends =
      let t = (SplitSteps-IsConsistent served steps).table s in
      let r : get_radix_from_index c ≡ suc i =
        radix-of_span c i (omega (arith, e), omega (arith, e, pow-suc 2 i)) in
      rw (r, index_of_name shahash t.usable name d (suc i) (omega arith))
        (ap ok ((==_iff _ c).1 ends))

  -- If there is a server, the tables of the servers come from a start in which no server has the
  -- directory in memory by loads and steps of splits, all partitions in PVFS are below 512, the
  -- digest of the name has 20 bytes, and server s has loaded its table, which puts the name on s,
  -- then giga_get_index_for_file finds by this table the partition that the longest suffix of the
  -- digest names among all that are in PVFS, or s is at a split to a partition in PVFS, to which
  -- giga_file_migration_status moves the name.
  pub SplitSteps-routes :
      σ.loaded s ≡ true
      → giga_get_server_for_file shahash (σ.tables s) name ≡ ok s
      → (giga_get_index_for_file shahash (σ.tables s) name
          ≡ ok (locate σ.all 9 (number (shahash name))))
        ⊎ ((c : ℕ) × (told : Bool) × (σ.splits s ≡ some (record { cindex = c; told = told }))
            × (σ.all c ≡ true)
            × (giga_file_migration_status shahash name c ≡ ok true))
  unfolding giga_get_server_for_file
  SplitSteps-routes loaded here_by_table =
      let v = SplitSteps-IsConsistent served steps in
      let h = SplitSteps-HasChildren served steps in
      let t = v.table s in
      let r = locate (partitions (σ.tables s)) 9 (number (shahash name)) in
      elim (place_differs (partitions (σ.tables s)) σ.all (number (shahash name)) t.usable.root
        h.tree t.known) [
          | inl same ↦ inl (index_at ∙ ap ok same)
          | inr (i, lt, low, ends, seen, missing) ↦
              let at_s : giga_get_server_for_index (σ.tables s) r ≡ ok s =
                sym (ap (λ e. e >>= λ i. giga_get_server_for_index (σ.tables s) i) index_at)
                ∙ here_by_table in
              let child : IsChild first count σ.all s (r + 2 ^ i) = record {
                parent = r;
                level = i;
                low = low;
                child = refl;
                seen = h.tree.parents r i low seen;
                at = sym (home_lem served t r) ∙ at_s;
              } in
              elim (h.covered s (r + 2 ^ i) loaded child seen) [
                | inl known ↦ cc
                | inr (told, busy) ↦
                    inr (r + 2 ^ i, told, busy, seen, moved_to r (r + 2 ^ i) i lt low refl ends)
              ]
        ]
