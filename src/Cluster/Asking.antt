-- ===== src/Cluster/Asking.antt =====
-- client/operations.c, server/handlers.c and server/split.c together: a client asks while the servers
-- go on loading and splitting the directory.
use mathlib.Core.Path.{subst}
use skyefs.Prelude.{ap, sym, ℕ, ◌<◌, ◌≡◌, ◌≢◌, ◌⊎◌, inl, inr, true, false, List, ok, ◌∙◌}
use skyefs.Rpc.{ObjectRef, Credentials}
use skyefs.Giga.Mapping.{GigaMapping}
use skyefs.Giga.Hash.RoundTrip.{IsDigest}
use skyefs.Server.Directory.{SkyeDirectory, Pvfs}
use skyefs.Server.Bucket.{enter_bucket, redirect}
use skyefs.Server.Bucket.Entering.{enter_bucket-IsRight}
use skyefs.Client.Retry.{Answer, again, final, ask}
use skyefs.Client.Retry.Ends.{IsTableOf, IsCluster, ask_returns}
use skyefs.Giga.Mapping.{giga_get_server_for_index}
use skyefs.Giga.Mapping.Invariant.{partitions}
use skyefs.Cluster.{Cluster, start, SplitSteps, IsLoaded, here, next}
use skyefs.Cluster.Consistent.{waiting}
use skyefs.Cluster.Steps.{SplitSteps-IsConsistent, SplitSteps-grows}

-- A server sends a table back as `enter_bucket` does, from a directory that has the server's table.
abbrev pub IsRedirect :
    {W : Type 0} → (List ℕ → List ℕ) → Pvfs W → List ℕ → ℕ → GigaMapping → GigaMapping → Type 0
IsRedirect {W} shahash pvfs name s table t =
    (dir : SkyeDirectory) × (creds : Credentials) × (handle : ObjectRef) × (w : W)
    × (dir' : SkyeDirectory) × (w' : W) × (dir.mapping ≡ table)
    × (enter_bucket shahash s pvfs creds dir name handle w ≡ ok (redirect t, dir', w'))

SplitSteps-trans : {ρ σ τ : Cluster} → SplitSteps ρ σ → SplitSteps σ τ → SplitSteps ρ τ
SplitSteps-trans before here = before
SplitSteps-trans before (next after step) = next (SplitSteps-trans before after) step

-- The tables of the servers come from the start by loads and steps of splits.
abbrev pub Reached : {W : Type 0} → ℕ → ℕ → (W → Cluster) → W → Type 0
Reached first count view w = SplitSteps (start first count) (view w)

-- The table that a server answers by: its own, or the one that it loads.
abbrev pub IsCurrent : Cluster → ℕ → GigaMapping → Type 0
IsCurrent σ s m =
    ((σ.loaded s ≡ true) × (m ≡ σ.tables s))
    ⊎ ((σ.loaded s ≡ false) × IsLoaded σ.all (σ.tables s) m)

module _ {V W A : Type 0} (shahash : List ℕ → List ℕ) (pvfs : Pvfs V) (stub : ℕ → W → Answer A × W)
    (name : List ℕ) (view : W → Cluster) (current : W → ℕ → GigaMapping) (first count : ℕ)
    (d : IsDigest (shahash name)) (served : 0 < count)
    (moves : (s : ℕ) (w : W) → Reached first count view w → SplitSteps (view w) (view (stub s w).1))
    (small : (w : W) (i : ℕ) → Reached first count view w → (view w).all i ≡ true → i < 512)
    (calm : (w : W) (u c : ℕ) → Reached first count view w → (view w).splits u ≢ waiting c)
    (answers_by : (w : W) (s : ℕ) → Reached first count view w → IsCurrent (view w) s (current w s))
    (answers : (s : ℕ) (w : W) (t : GigaMapping)
      → Reached first count view w
      → (stub s w).0 ≡ again t
      → IsRedirect shahash pvfs name s (current w s) t) where
  current-IsTableOf :
      (w : W) (s : ℕ)
      → Reached first count view w
      → IsTableOf (view w).all first count (current w s)
  current-IsTableOf w s r =
      let t = (SplitSteps-IsConsistent served r).table s in
      elim (answers_by w s r) [
        | inl (loaded, same) ↦ subst (IsTableOf (view w).all first count) (sym same) t
        | inr (new, filled) ↦ record {
          usable = filled.usable;
          known = λ i h. sym (filled.listed i) ∙ h;
          start = filled.same.0 ∙ t.start;
          servers = filled.same.1 ∙ t.servers;
        }
      ]

  current_owned :
      (w : W) (s i : ℕ)
      → Reached first count view w
      → (view w).all i ≡ true
      → giga_get_server_for_index (current w s) i ≡ ok s
      → partitions (current w s) i ≡ true
  current_owned w s i r seen at = elim (answers_by w s r) [
    | inr (new, filled) ↦ filled.listed i ∙ seen
    | inl (loaded, same) ↦
        let at_s = ap (λ m. giga_get_server_for_index m i) (sym same) ∙ at in
        elim ((SplitSteps-IsConsistent served r).owned s i loaded seen at_s) [
          | inl known ↦ ap (λ m. partitions m i) same ∙ known
          | inr (u, waits) ↦ absurd (calm w u i r waits)
        ]
  ]

  cluster :
      IsCluster shahash stub name (Reached first count view) (λ w. (view w).all) first count current
  cluster = record {
    kept = λ s w t r lt e. SplitSteps-trans r (moves s w r);
    small = small;
    table = λ w s r. current-IsTableOf w s r;
    owned = current_owned;
    grows = λ s w i r. SplitSteps-grows (moves s w r) i;
    redirects = λ s w t r lt e.
        let (dir, creds, handle, v, dir', v', same, ran) = answers s w t r e in
        let (own, away) = enter_bucket-IsRight shahash s pvfs creds dir name handle v ran in
        (own ∙ same, away);
  }

  -- If the digest of the name has 20 bytes, there is a server, and in every state of the world in
  -- which the tables of the servers come from the start by loads and steps of splits a call moves
  -- the servers by such steps only, no split has made a partition that it has not announced, all
  -- partitions are below 512, and a table comes back only as enter_bucket redirects from the
  -- table of the server, or from the one that it loads if it has none, then from any such state
  -- and table of the directory the loop at `bitmap` ends within ten calls, without a fault, in
  -- such a state, with a table of the directory and the final reply of a server.
  pub ask_returns-SplitSteps :
      (m : GigaMapping) (w : W)
      → Reached first count view w
      → IsTableOf (view w).all first count m
      → (a : A) × (m' : GigaMapping) × (w' : W) × (ask shahash count stub 10 name m w
          ≡ ok (a, m', w'))
        × Reached first count view w'
        × IsTableOf (view w').all first count m'
        × ((s : ℕ) × (v : W) × (s < count)
            × Reached first count view v
            × (stub s v ≡ (final a, w')))
  ask_returns-SplitSteps m w r t =
      let (a, m', w', e, t', (s, v, lt, r', f)) = ask_returns shahash stub name d cluster m w r t in
      let after = SplitSteps-trans r' (moves s v r') in
      let e' : (stub s v).1 ≡ w' = ap (λ (x : Answer A × W). x.1) f in
      (a, m', w', e, subst (Reached first count view) e' after, t', (s, v, lt, r', f))
