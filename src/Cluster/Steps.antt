-- ===== src/Cluster/Steps.antt =====
-- server/split.c, server/handlers.c and server/cache.c: what the load of a directory and each step of
-- a split keep, and the runs of such steps.
use mathlib.Core.Path.{subst}
use native.Mathlib.Nat.{pow-le-pow_right}
use skyefs.Giga.Tree.{Partitions}
use skyefs.Prelude.{
  ◌⊎◌, ◌∙◌, ℕ, ◌<◌, ap, ◌≡◌, refl, sym, arith, Bool, inl, inr, true, false, Option, none, some, ok,
}
use skyefs.Giga.Bitmap.Members.{capacity}
use skyefs.Giga.Mapping.{
  GigaMapping, giga_init_mapping, giga_get_server_for_index, giga_update_mapping,
}
use skyefs.Giga.Mapping.Invariant.{partitions, IsUsable, usable}
use skyefs.Giga.Init.{giga_init_mapping-IsValid}
use skyefs.Giga.Child.{split_child}
use skyefs.Giga.Index.{giga_index_for_splitting}
use native.Mathlib.Decide.{ℕ_discrete}
use skyefs.Client.Retry.Ends.{IsTableOf, same_server, known_later}
use skyefs.Cluster.{
  Cluster, Split, put, add, start, SplitStep, SplitSteps, begin, announce, finish_here, finish_told,
  IsLoaded, here, next, load_directory,
}
use skyefs.Cluster.Consistent.{
  IsConsistent, waiting, put_all, put_self, put_other, some-injective, add_old, add_new, add-cases,
  table_after, owned_after,
}

cindex_room :
    {m : GigaMapping} (v : IsUsable m) (p c : ℕ)
    → partitions m p ≡ true
    → giga_index_for_splitting m p ≡ ok c
    → c < capacity
cindex_room v p c mem chosen =
    let (k, small, lt, e, free, r) = split_child v p c mem chosen in
    omega (arith, pow-le-pow_right {n = 2} (omega arith) {i = k} {j = 9} (omega arith))

-- The index of a split fits, and its partition is in PVFS.
abbrev Pending : Partitions → Option Split → Type 0
Pending all o = (x : Split) → o ≡ some x → (x.cindex < capacity) × (all x.cindex ≡ true)

of_one : (P : Split → Type 0) (a : Split) → P a → (x : Split) → some a ≡ some x → P x
of_one P a h x e = subst P (some-injective e) h

module _ {first count : ℕ} {σ : Cluster} (v : IsConsistent first count σ) where
  -- Splits after one of them changed, over a set that has grown.
  Pending-after :
      (all : ℕ → Bool) (s : ℕ) (o : Option Split)
      → ((i : ℕ) → σ.all i ≡ true → all i ≡ true)
      → Pending all o
      → (i : ℕ) → Pending all (put σ.splits s o i)
  Pending-after all s o more fresh =
      put_all (λ o i. Pending all o) σ.splits s o fresh
        (λ i ne x e. (v.fits i x e, more x.cindex (v.made i x e)))

  -- Server t takes the partition of a split of server s into its table, and the split goes on to o.
  taken-IsConsistent :
      (t c : ℕ) {m : GigaMapping} (s : ℕ) (told : Bool) (o : Option Split)
      → giga_update_mapping (σ.tables t) c ≡ ok m
      → σ.splits s ≡ some (record { cindex = c; told = told })
      → (told ≡ true) ⊎ (giga_get_server_for_index (σ.tables t) c ≡ ok t)
      → Pending σ.all o
      → IsConsistent first count (record σ { tables = put σ.tables t m; splits = put σ.splits s o })
  taken-IsConsistent t c s told o updated at place fresh =
      let rest = Pending-after σ.all s o (λ i h. h) fresh in
      let room = v.fits s _ at in
      let there = v.made s _ at in
      record {
        table = table_after v t c updated room there;
        owned = owned_after v t c updated room there s told o at place;
        fits = λ i x h. (rest i x h).0;
        made = λ i x h. (rest i x h).1;
      }

  load-IsConsistent :
      (s : ℕ) (m : GigaMapping)
      → IsLoaded σ.all (σ.tables s) m
      → IsConsistent first count
          (record σ { tables = put σ.tables s m; loaded = put σ.loaded s true })
  load-IsConsistent s m filled =
      let full : IsTableOf σ.all first count m = record {
        usable = filled.usable;
        known = λ i h. sym (filled.listed i) ∙ h;
        start = filled.same.0 ∙ (v.table s).start;
        servers = filled.same.1 ∙ (v.table s).servers;
      } in
      record {
        table =
            put_all (λ m i. IsTableOf σ.all first count m) σ.tables s m full (λ i ne. v.table i);
        owned = λ i d loaded seen at_i. elim (ℕ_discrete s i) [
          | yes e ↦
              let known : partitions (put σ.tables s m s) d ≡ true =
                ap (λ m. partitions m d) (put_self σ.tables s m) ∙ filled.listed d ∙ seen in
              inl (subst (λ i. partitions (put σ.tables s m i) d ≡ true) e known)
          | no ne ↦
              let same = put_other σ.tables s m i ne in
              elim (v.owned i d (sym (put_other σ.loaded s true i ne) ∙ loaded) seen
                (ap (λ m. giga_get_server_for_index m d) (sym same) ∙ at_i)) [
                  | inl known ↦ inl (ap (λ m. partitions m d) same ∙ known)
                  | inr waits ↦ inr waits
                ]
        ];
        fits = v.fits;
        made = v.made;
      }

  begin-IsConsistent :
      (s p c : ℕ)
      → σ.splits s ≡ none
      → partitions (σ.tables s) p ≡ true
      → giga_index_for_splitting (σ.tables s) p ≡ ok c
      → IsConsistent first count
          (record σ { splits = put σ.splits s (waiting c); all = add σ.all c })
  begin-IsConsistent s p c free mem chosen =
      let x : Split = record { cindex = c; told = false } in
      let more = add_old σ.all c in
      let rest = Pending-after (add σ.all c) s (some x) more (
        of_one (λ x. (x.cindex < capacity) × (add σ.all c x.cindex ≡ true)) x
          (cindex_room (v.table s).usable p c mem chosen, add_new σ.all c)) in
      record {
        table = λ i. known_later more (v.table i);
        owned = λ i d loaded seen at_i. elim (add-cases σ.all c d seen) [
          | inl new ↦ inr (s, put_self σ.splits s (some x) ∙ ap waiting new)
          | inr old ↦ elim (v.owned i d loaded old at_i) [
            | inl known ↦ inl known
            | inr (u, waits) ↦ elim (ℕ_discrete s u) [
              | yes e ↦ let busy = ap σ.splits e ∙ waits in cc
              | no ne ↦ inr (u, put_other σ.splits s (some x) u ne ∙ waits)
            ]
          ]
        ];
        fits = λ s x h. (rest s x h).0;
        made = λ s x h. (rest s x h).1;
      }

SplitStep-IsConsistent :
    {first count : ℕ} {σ τ : Cluster}
    → SplitStep σ τ
    → IsConsistent first count σ
    → IsConsistent first count τ
SplitStep-IsConsistent {first} {count} (load_directory s m new filled e) v =
    subst (IsConsistent first count) (sym e) (load-IsConsistent v s m filled)
SplitStep-IsConsistent {first} {count} (begin s p c loaded free mem own chosen e) v =
    subst (IsConsistent first count) (sym e) (begin-IsConsistent v s p c free mem chosen)
SplitStep-IsConsistent {first} {count} {σ} (announce s t c m at place other loaded updated e) v =
    let at_t = same_server c (v.table t) (v.table s) ∙ place in
    subst (IsConsistent first count) (sym e) (
      taken-IsConsistent v t c s false (some (record { cindex = c; told = true })) updated at
        (inr at_t)
        (of_one (λ x. (x.cindex < capacity) × (σ.all x.cindex ≡ true))
          (record { cindex = c; told = true }) (v.fits s _ at, v.made s _ at)))
SplitStep-IsConsistent {first} {count} (finish_here s c m at place updated e) v =
    subst (IsConsistent first count) (sym e)
      (taken-IsConsistent v s c s false none updated at (inr place) (λ x h. cc))
SplitStep-IsConsistent {first} {count} (finish_told s c m at updated e) v =
    subst (IsConsistent first count) (sym e)
      (taken-IsConsistent v s c s true none updated at (inl refl) (λ x h. cc))

start-IsConsistent : (first count : ℕ) → 0 < count → IsConsistent first count (start first count)
unfolding start giga_init_mapping
start-IsConsistent first count served =
    let (v, root) = giga_init_mapping-IsValid first count in
    record {
      table = λ s. record {
        usable = usable v;
        known = λ i h. sym (root i) ∙ h;
        start = refl;
        servers = ground (arith, served);
      };
      owned = λ s i loaded h at. inl (root i ∙ h);
      fits = λ s x h. cc;
      made = λ s x h. cc;
    }

-- If there is a server, then from a start in which no server has the directory in memory, however
-- the servers load it and split it, every table has a well-formed bitmap with partition 0, the
-- servers of the directory, and only partitions that are in PVFS; one that was loaded has all of
-- those that are on its server, but for the partition of a split that has not announced it; a
-- split that is under way has an index within the bitmap, of a partition that is in PVFS.
pub SplitSteps-IsConsistent :
    {first count : ℕ} {σ : Cluster}
    → 0 < count
    → SplitSteps (start first count) σ
    → IsConsistent first count σ
SplitSteps-IsConsistent {first} {count} served here = start-IsConsistent first count served
SplitSteps-IsConsistent served (next steps step) =
    SplitStep-IsConsistent step (SplitSteps-IsConsistent served steps)

SplitStep-grows : {σ τ : Cluster} → SplitStep σ τ → (i : ℕ) → σ.all i ≡ true → τ.all i ≡ true
SplitStep-grows (load_directory s m new filled e) i h = rw e h
SplitStep-grows {σ} (begin s p c loaded free mem own chosen e) i h = rw e (add_old σ.all c i h)
SplitStep-grows (announce s t c m at place other loaded updated e) i h = rw e h
SplitStep-grows (finish_here s c m at place updated e) i h = rw e h
SplitStep-grows (finish_told s c m at updated e) i h = rw e h

pub SplitSteps-grows : {σ τ : Cluster} → SplitSteps σ τ → (i : ℕ) → σ.all i ≡ true → τ.all i ≡ true
SplitSteps-grows here i h = h
SplitSteps-grows (next steps step) i h = SplitStep-grows step i (SplitSteps-grows steps i h)
