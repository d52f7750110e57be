-- ===== src/Cluster/Consistent.antt =====
-- The invariant of the servers' tables while the directory is split.
use skyefs.Prelude.{
  ℕ, ◌<◌, ◌≡◌, ◌≢◌, ◌⊎◌, ◌==◌, ==_iff, ap, sym, ◌∙◌, arith, Bool, Bool-cases, inl, inr, true, false,
  Option, some, ok,
}
use skyefs.Giga.Bitmap.Members.{capacity}
use skyefs.Giga.Mapping.{GigaMapping, giga_update_mapping, giga_get_server_for_index}
use skyefs.Giga.Mapping.Invariant.{partitions, IsUsable}
use mathlib.Core.Path.{subst}
use native.Mathlib.Decide.{ℕ_discrete}
use skyefs.Giga.Tree.{Partitions}
use skyefs.Giga.Tree.Splitting.{Adds}
use skyefs.Giga.Update.{SameServers, giga_update_mapping_lem}
use skyefs.Client.Retry.Ends.{IsTableOf, same_server}
use skyefs.Cluster.{Cluster, Split, put, add}

-- A split that has made partition c and has not announced it.
abbrev pub waiting : ℕ → Option Split
waiting c = some (record { cindex = c; told = false })

-- Every table is one of the directory. One that is loaded has the partitions of its server, but for
-- those of splits that have not announced them. A split has an index that fits, of a partition that is
-- in PVFS.
pub record IsConsistent (first count : ℕ) (σ : Cluster) : Type 0 where
  pub table : (s : ℕ) → IsTableOf σ.all first count (σ.tables s)
  pub owned :
      (s i : ℕ)
      → σ.loaded s ≡ true
      → σ.all i ≡ true
      → giga_get_server_for_index (σ.tables s) i ≡ ok s
      → (partitions (σ.tables s) i ≡ true) ⊎ ((u : ℕ) × (σ.splits u ≡ waiting i))
  pub fits : (s : ℕ) (x : Split) → σ.splits s ≡ some x → x.cindex < capacity
  pub made : (s : ℕ) (x : Split) → σ.splits s ≡ some x → σ.all x.cindex ≡ true

-- A property of all servers after a change at one of them.
pub put_all :
    {A : Type 0} (P : A → ℕ → Type 0) (f : ℕ → A) (s : ℕ) (a : A)
    → P a s
    → ((i : ℕ) → s ≢ i → P (f i) i)
    → (i : ℕ) → P (put f s a i) i
unfolding put
put_all P f s a changed others i = elim (Bool-cases (s == i)) [
  | inl same ↦ let e : s ≡ i = (==_iff s i).0 same in rw same (subst (P a) e changed)
  | inr differs ↦ rw differs (others i (λ e. ground (arith, differs, e)))
]

pub ok-injective : {a b : ℕ} → ok a ≡ ok b → a ≡ b
ok-injective e = cc

pub add_old : (ps : Partitions) (c i : ℕ) → ps i ≡ true → add ps c i ≡ true
unfolding add
add_old ps c i h = ground arith

pub add_new : (ps : Partitions) (c : ℕ) → add ps c c ≡ true
unfolding add
add_new ps c = ground arith

pub add-cases : (ps : Partitions) (c i : ℕ) → add ps c i ≡ true → (c ≡ i) ⊎ (ps i ≡ true)
unfolding add
add-cases ps c i h = elim (Bool-cases (c == i)) [
  | inl same ↦ inl ((==_iff c i).0 same)
  | inr differs ↦ inr (ground (arith, h, differs))
]

module _ {A : Type 0} (f : ℕ → A) (s : ℕ) (a : A) where
  pub put_self : put f s a s ≡ a
  unfolding put
  put_self = ground arith

  pub put_other : (i : ℕ) → s ≢ i → put f s a i ≡ f i
  unfolding put
  put_other i ne = ground (arith, ne)

pub some-injective : {a b : Split} → some a ≡ some b → a ≡ b
some-injective e = cc

true_ne_false {ℓ} : {P : Type ℓ} → true ≡ false → P
true_ne_false e = cc

module _ {first count : ℕ} {σ : Cluster} (v : IsConsistent first count σ) (t c : ℕ)
    {m : GigaMapping} (updated : giga_update_mapping (σ.tables t) c ≡ ok m) (room : c < capacity)
    (there : σ.all c ≡ true) where
  pub changed :
      IsUsable m × Adds (partitions (σ.tables t)) c (partitions m) × SameServers (σ.tables t) m
  changed =
      let old = v.table t in
      let (m', e, b, adds, same) = giga_update_mapping_lem old.usable c room in
      let q : m' ≡ m = cc in
      subst
        (λ r.
          IsUsable r × Adds (partitions (σ.tables t)) c (partitions r) × SameServers (σ.tables t) r)
        q
        (
          record {
            bits = b;
            root = ground (arith, adds 0, old.usable.root);
            served = rw same.1 old.usable.served;
          },
          adds,
          same,
        )

  changed-IsTableOf : IsTableOf σ.all first count m
  changed-IsTableOf =
      let old = v.table t in
      record {
        usable = changed.0;
        known = λ i h. elim (ℕ_discrete c i) [
          | yes e ↦ rw (← e) there
          | no ne ↦ old.known i (ground (arith, changed.1 i, h, ne))
        ];
        start = changed.2.0 ∙ old.start;
        servers = changed.2.1 ∙ old.servers;
      }

  pub table_after : (i : ℕ) → IsTableOf σ.all first count (put σ.tables t m i)
  table_after =
      put_all (λ m i. IsTableOf σ.all first count m) σ.tables t m changed-IsTableOf
        (λ i ne. v.table i)

  pub mono : (i d : ℕ) → partitions (σ.tables i) d ≡ true → partitions (put σ.tables t m i) d ≡ true
  mono i d =
      put_all (λ m i. partitions (σ.tables i) d ≡ true → partitions m d ≡ true) σ.tables t m
        (λ e. ground (arith, changed.1 d, e)) (λ i ne e. e) i

  pub knows_itself : (i : ℕ) → t ≡ i → partitions (put σ.tables t m i) c ≡ true
  knows_itself i own = rw (← own, put_self σ.tables t m) (ground (arith, changed.1 c))

  -- Server t takes partition c of a split of server s into its table, and the split goes on to o.
  pub owned_after :
      (s : ℕ) (told : Bool) (o : Option Split)
      → σ.splits s ≡ some (record { cindex = c; told = told })
      → (told ≡ true) ⊎ (giga_get_server_for_index (σ.tables t) c ≡ ok t)
      → (i d : ℕ) → σ.loaded i ≡ true
      → σ.all d ≡ true
      → giga_get_server_for_index (put σ.tables t m i) d ≡ ok i
      → (partitions (put σ.tables t m i) d ≡ true) ⊎ ((u : ℕ) × (put σ.splits s o u ≡ waiting d))
  owned_after s told o at place i d loaded seen at_i =
      let own = same_server d (v.table i) (table_after i) ∙ at_i in
      elim (v.owned i d loaded seen own) [
        | inl known ↦ inl (mono i d known)
        | inr (u, waits) ↦ elim (ℕ_discrete s u) [
          | no ne ↦ inr (u, put_other σ.splits s o u ne ∙ waits)
          | yes e ↦
              let same : record { cindex = c; told = told } ≡ record { cindex = d; told = false } =
                some-injective (sym at ∙ ap σ.splits e ∙ waits) in
              let same_index : c ≡ d = ap (λ (x : Split). x.cindex) same in
              elim place [
                | inl finished ↦ true_ne_false (sym finished ∙ ap (λ (x : Split). x.told) same)
                | inr at_t ↦
                    let at_c = same_server c (v.table i) (v.table t) ∙ at_t in
                    let is_i : t ≡ i =
                      ok-injective
                        (sym at_c ∙ ap (giga_get_server_for_index (σ.tables i)) same_index ∙ own) in
                    inl (
                      subst (λ d. partitions (put σ.tables t m i) d ≡ true) same_index
                        (knows_itself i is_i))
              ]
        ]
      ]
