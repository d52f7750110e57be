-- ===== src/Client/Returns.antt =====
-- client/operations.c and client/cache.c: an operation on a name in a cached directory, from the
-- fetch of the directory to its return.
use skyefs.Prelude.{
  ℕ, ◌+◌, ◌-◌, ◌<◌, ◌≡◌, refl, ap, sym, ◌∙◌, arith, true, List, [], ◌∷◌, Bool, Bool-cases, inl, inr,
  Option, none, some, ◌>>=◌, Outcome, ok, lt→ltb,
}
use skyefs.Rpc.{ObjectRef, same_ref}
use skyefs.Giga.Mapping.{GigaMapping}
use skyefs.Giga.Hash.RoundTrip.{IsDigest}
use skyefs.Giga.Tree.{Partitions}
use skyefs.Client.Cache.{
  SkyeDirectory, find, write, cache_fetch, fetched, found_or_new, cache_return,
}
use skyefs.Client.Retry.{Answer, final, ask}
use skyefs.Client.Retry.Ends.{IsTableOf, IsCluster, ask_returns}
use skyefs.Client.Operations.{Services, ClientState, ask_directory, in_directory}

same_ref_refl : (r : ObjectRef) → same_ref r r ≡ true
same_ref_refl r = ground arith

write-write :
    (k : ObjectRef) (a b : SkyeDirectory) (dirs : List SkyeDirectory)
    → b.handle ≡ k
    → write k a (write k b dirs) ≡ write k a dirs
unfolding write
write-write k a b [] e = refl
write-write k a b (dir ∷ dirs) e = elim (Bool-cases (same_ref dir.handle k)) [
  | inl same ↦
      let at_k : same_ref b.handle k ≡ true = rw e (same_ref_refl k) in rw (same, at_k) refl
  | inr differs ↦ rw (differs, differs) (ap (◌∷◌ dir) (write-write k a b dirs e))
]

some-injective : {a b : SkyeDirectory} → ◌≡◌ {A = Option SkyeDirectory} (some a) (some b) → a ≡ b
some-injective e = cc

find-key :
    (handle : ObjectRef) (dirs : List SkyeDirectory) {dir : SkyeDirectory}
    → find handle dirs ≡ some dir
    → same_ref dir.handle handle ≡ true
unfolding find
find-key handle [] e = absurd cc
find-key handle (other ∷ dirs) e = elim (Bool-cases (same_ref other.handle handle)) [
  | inl found ↦
      let same = some-injective (rw found at e) in
      ap (λ (d : SkyeDirectory). same_ref d.handle handle) (sym same) ∙ found
  | inr differs ↦ find-key handle dirs (rw differs at e)
]

same_ref_trans :
    (a b c : ObjectRef) → same_ref a b ≡ true → same_ref b c ≡ true → same_ref a c ≡ true
same_ref_trans a b c e f = ground (arith, e, f)

pub find-write :
    (handle : ObjectRef) (new : SkyeDirectory) (dirs : List SkyeDirectory) {dir : SkyeDirectory}
    → find handle dirs ≡ some dir
    → new.handle ≡ dir.handle
    → find handle (write dir.handle new dirs) ≡ some new
unfolding find write
find-write handle new [] e own = absurd cc
find-write handle new (other ∷ dirs) {dir} e own =
    elim (Bool-cases (same_ref other.handle handle)) [
      | inl found ↦
          let same : other ≡ dir = some-injective (rw found at e) in
          let here : same_ref other.handle dir.handle ≡ true = rw same (same_ref_refl dir.handle) in
          let there : same_ref new.handle handle ≡ true = rw (own, ← same) found in
          rw (here, there) refl
      | inr differs ↦
          let later : find handle dirs ≡ some dir = rw differs at e in
          elim (Bool-cases (same_ref other.handle dir.handle)) [
            | inl same ↦
                let found =
                  same_ref_trans other.handle dir.handle handle same (find-key handle dirs later) in
                absurd cc
            | inr other_key ↦ rw (other_key, differs) (find-write handle new dirs later own)
          ]
    ]

cache_fetch-found :
    (memory : Bool) (mds servercount : ℕ) (handle : ObjectRef) (dirs : List SkyeDirectory)
    {dir : SkyeDirectory}
    → find handle dirs ≡ some dir
    → cache_fetch memory mds servercount handle dirs ≡ (
      some (record dir { refcount = dir.refcount + 1 }),
      write dir.handle (record dir { refcount = dir.refcount + 1 }) dirs,
    )
unfolding cache_fetch fetched found_or_new
cache_fetch-found memory mds servercount handle dirs e = rw e refl

module _ {W A : Type 0} (shahash : List ℕ → List ℕ) (services : Services W)
    (stub : ℕ → W → Answer A × W) (parent : ObjectRef) (name : List ℕ) (st : ClientState W)
    {good : W → Type 0} {all : W → Partitions} {first : ℕ} {tables : W → ℕ → GigaMapping}
    {dir : SkyeDirectory} (d : IsDigest (shahash name))
    (c : IsCluster shahash stub name good all first services.servercount tables) (g : good st.world)
    (cached : find parent st.dircache ≡ some dir)
    (t : IsTableOf (all st.world) first services.servercount dir.mapping) where
  asked :
      {a : A} {m' : GigaMapping} {w' : W}
      → ask shahash services.servercount stub 10 name dir.mapping st.world ≡ ok (a, m', w')
      → ask_directory shahash services 10 stub parent name st
        ≡ ok (
          some (a, record dir { refcount = dir.refcount + 1; mapping = m' }),
          record st {
            dircache =
                write dir.handle
                  (record dir { refcount = dir.refcount + 1; mapping = m' })
                  (write dir.handle (record dir { refcount = dir.refcount + 1 }) st.dircache);
            world = w';
          },
        )
  unfolding ask_directory
  asked e =
      ap
        (λ (q : Option SkyeDirectory × List SkyeDirectory).
          elim q.0 as (λ o. Outcome (Option (A × SkyeDirectory) × ClientState W)) [
            | none ↦ ok (none, record st { dircache = q.1 })
            | some dir ↦ ask shahash services.servercount stub 10 name dir.mapping st.world >>= λ r.
                let dir' = record dir { mapping = r.1 } in
                ok (
                  some (r.0, dir'),
                  record st { dircache = write dir.handle dir' q.1; world = r.2 },
                )
          ])
        (cache_fetch-found services.memory (services.get_mds parent) services.servercount parent
          st.dircache cached)
      ∙ rw e refl

  -- If a directory is in the cache of the client with a table of the directory, the digest of the
  -- name has 20 bytes, the servers are as for the loop at `bitmap`, and the state is good, then
  -- an operation in the directory returns with the final reply of a server that was asked in a
  -- good state, and the cache is as before but for the table, which is one of the directory; the
  -- reference count is the same.
  pub in_directory-returns :
      (a : A) × (m' : GigaMapping) × (after : ClientState W) × (in_directory shahash services 10
          stub parent name st
        ≡ ok (some a, after))
      × IsTableOf (all after.world) first services.servercount m'
      × (after.dircache ≡ write dir.handle (record dir { mapping = m' }) st.dircache)
      × (after.root_handle ≡ st.root_handle)
      × ((s : ℕ) × (w : W) × (s < services.servercount)
          × good w
          × (stub s w ≡ (final a, after.world)))
  unfolding in_directory cache_return
  in_directory-returns =
      let (a, m', w', e, t', source) = ask_returns shahash stub name d c dir.mapping st.world g t in
      let k = dir.handle in
      let n = dir.refcount in
      let dir1 = record dir { refcount = n + 1 } in
      let dir2 = record dir { refcount = n + 1; mapping = m' } in
      let dir3 = record dir { refcount = n + 1 - 1; mapping = m' } in
      let e1 : n + 1 - 1 ≡ n = omega arith in
      (
        a,
        m',
        record st { dircache = write k dir3 (write k dir2 (write k dir1 st.dircache)); world = w' },
        rw (asked e, lt→ltb 0 (n + 1) (omega arith)) refl,
        t',
        write-write k dir3 dir2 (write k dir1 st.dircache) refl
            ∙ write-write k dir3 dir1 st.dircache refl
            ∙ ap (λ r. write k (record dir { refcount = r; mapping = m' }) st.dircache) e1,
        refl,
        source,
      )
