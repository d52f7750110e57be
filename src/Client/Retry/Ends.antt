-- ===== src/Client/Retry/Ends.antt =====
-- client/operations.c: the rounds of the loop at `bitmap` against servers that have tables of one
-- directory.
use skyefs.Prelude.{
  ℕ, zero, suc, ◌+◌, ◌≤◌, ◌<◌, ◌≡◌, ◌≢◌, refl, arith, true, ◌⊎◌, inl, inr, ◌∙◌, ap, List, Outcome,
  ok, ◌||◌, lt→ltb,
}
use skyefs.Giga.Bitmap.{get_radix_from_index}
use skyefs.Giga.Bitmap.Radix.{radix_least}
use skyefs.Giga.Mapping.{GigaMapping, giga_get_server_for_index, giga_update_cache}
use skyefs.Giga.Mapping.Invariant.{partitions, IsUsable, IsBounded}
use skyefs.Giga.Hash.RoundTrip.{IsDigest}
use skyefs.Giga.Hash.Suffix.{number}
use skyefs.Giga.Tree.{Partitions, locate}
use skyefs.Giga.Tree.Suffix.{locate-IsLocation}
use skyefs.Giga.Lookup.{giga_get_index_for_file-locate}
use skyefs.Giga.Servers.{giga_get_server_for_index-lt}
use skyefs.Giga.Merge.{giga_update_cache-IsUsable}
use skyefs.Giga.Index.{giga_get_server_for_file}
use skyefs.Connection.{get_connection}
use skyefs.Client.Retry.{Answer, again, final, ask}
use skyefs.Client.Retry.Progress.{farther}

-- A table of a directory whose partitions are `all`, on `count` servers from `zeroth` on.
pub record IsTableOf (all : Partitions) (first count : ℕ) (m : GigaMapping) : Type 0 where
  pub usable : IsUsable m
  pub known : (i : ℕ) → partitions m i ≡ true → all i ≡ true
  pub start : m.zeroth_server ≡ first
  pub servers : m.server_count ≡ count

-- The servers while the client asks, in each good state w of the world: each has a table of the partitions
-- `all w` that there are, which has at least those that are on the server, and sends it back only for
-- a name that the table puts on another server. Partitions may be added meanwhile, and a call that is
-- answered so leads to a good state.
pub record IsCluster {W A : Type 0} (shahash : List ℕ → List ℕ) (stub : ℕ → W → Answer A × W)
    (name : List ℕ) (good : W → Type 0) (all : W → Partitions) (first count : ℕ)
    (tables : W → ℕ → GigaMapping) : Type 0 where
  pub kept :
      (s : ℕ) (w : W) (t : GigaMapping)
      → good w
      → s < count
      → (stub s w).0 ≡ again t
      → good (stub s w).1
  pub small : (w : W) (i : ℕ) → good w → all w i ≡ true → i < 512
  pub table : (w : W) (s : ℕ) → good w → IsTableOf (all w) first count (tables w s)
  pub owned :
      (w : W) (s i : ℕ)
      → good w
      → all w i ≡ true
      → giga_get_server_for_index (tables w s) i ≡ ok s
      → partitions (tables w s) i ≡ true
  pub grows : (s : ℕ) (w : W) (i : ℕ) → good w → all w i ≡ true → all (stub s w).1 i ≡ true
  pub redirects :
      (s : ℕ) (w : W) (t : GigaMapping)
      → good w
      → s < count
      → (stub s w).0 ≡ again t
      → (t ≡ tables w s) × (giga_get_server_for_file shahash t name ≢ ok s)

Answer-cases :
    {A : Type 0} (x : Answer A) → ((t : GigaMapping) × (x ≡ again t)) ⊎ ((a : A) × (x ≡ final a))
Answer-cases (again t) = inl (t, refl)
Answer-cases (final a) = inr (a, refl)

module _ {all : Partitions} {first count : ℕ} where
  bounded :
      {m : GigaMapping}
      → ((i : ℕ) → all i ≡ true → i < 512)
      → IsTableOf all first count m
      → IsBounded m 512
  bounded small t i h = small i (t.known i h)

  pub same_server :
      {m u : GigaMapping} (i : ℕ)
      → IsTableOf all first count m
      → IsTableOf all first count u
      → giga_get_server_for_index m i ≡ giga_get_server_for_index u i
  unfolding giga_get_server_for_index
  same_server i a b = rw (a.start, b.start, a.servers, b.servers)

  merged-IsTableOf :
      {m u : GigaMapping}
      → IsTableOf all first count m
      → IsTableOf all first count u
      → (m' : GigaMapping) × (giga_update_cache m u ≡ ok m')
        × IsTableOf all first count m'
        × ((i : ℕ) → partitions m' i ≡ (partitions m i || partitions u i))
  merged-IsTableOf a b =
      let (m', e, v, union, z, n) = giga_update_cache-IsUsable a.usable b.usable in
      (
        m',
        e,
        record {
          usable = v;
          known = λ i h. ground (arith, union i, a.known i, b.known i);
          start = z ∙ a.start;
          servers = omega (arith, n, a.servers, b.servers);
        },
        union,
      )

pub known_later :
    {all later : Partitions} {first count : ℕ} {m : GigaMapping}
    → ((i : ℕ) → all i ≡ true → later i ≡ true)
    → IsTableOf all first count m
    → IsTableOf later first count m
known_later more t = record {
  usable = t.usable;
  known = λ i h. more i (t.known i h);
  start = t.start;
  servers = t.servers;
}

connected : (count s : ℕ) → s < count → get_connection count s ≡ ok s
unfolding get_connection
connected count s h = rw (lt→ltb s count h) refl

module _ {W A : Type 0} (shahash : List ℕ → List ℕ) (stub : ℕ → W → Answer A × W) (name : List ℕ)
    {good : W → Type 0} {all : W → Partitions} {first count : ℕ} {tables : W → ℕ → GigaMapping}
    (d : IsDigest (shahash name))
    (c : IsCluster shahash stub name good all first count tables) where
  -- The partition where a table puts the name.
  place : GigaMapping → ℕ
  place m = locate (partitions m) 9 (number (shahash name))

  server_of_name :
      (w : W) {m : GigaMapping}
      → good w
      → IsTableOf (all w) first count m
      → giga_get_server_for_file shahash m name ≡ giga_get_server_for_index m (place m)
  unfolding giga_get_server_for_file place
  server_of_name w g t =
      rw (giga_get_index_for_file-locate shahash t.usable name d (bounded (λ i. c.small w i g) t))
        refl

  place-member :
      (w : W) {m : GigaMapping} → IsTableOf (all w) first count m → partitions m (place m) ≡ true
  unfolding place
  place-member w {m} t = (locate-IsLocation (partitions m) _ 9 t.usable.root).member

  -- The server that a client asks has the client's partition, so its table differs further down.
  redirected :
      {m : GigaMapping} (m' : GigaMapping) (s : ℕ) (w : W) (t : GigaMapping)
      → good w
      → s < count
      → IsTableOf (all w) first count m
      → giga_get_server_for_index m (place m) ≡ ok s
      → (stub s w).0 ≡ again t
      → ((i : ℕ) → partitions m' i ≡ (partitions m i || partitions t i))
      → get_radix_from_index (place m) < get_radix_from_index (place m')
  unfolding place
  redirected {m} m' s w t g lt a at_s e union =
      let (q, away) = c.redirects s w t g lt e in
      let b : IsTableOf (all w) first count t = rw q (c.table w s g) in
      let has_it : partitions t (place m) ≡ true = rw q (
        c.owned w s (place m) g (a.known _ (place-member w a))
          (same_server (place m) (c.table w s g) a ∙ at_s)) in
      farther (partitions m) (partitions t) (partitions m') (number (shahash name)) 9 a.usable.root
        b.usable.root has_it
        (λ same. away (
          server_of_name w g b
          ∙ ap (giga_get_server_for_index t) same
          ∙ same_server (place m) b a
          ∙ at_s))
        union

  -- The loop ends with the final reply of a server, and the table is still one of the directory.
  abbrev pub Ends : Outcome (A × GigaMapping × W) → Type 0
  Ends r =
      (a : A) × (m' : GigaMapping) × (w' : W) × (r ≡ ok (a, m', w'))
      × IsTableOf (all w') first count m'
      × ((s : ℕ) × (w : W) × (s < count) × good w × (stub s w ≡ (final a, w')))

  -- Ten rounds are enough, wherever in the tree the client's table starts.
  ask-Ends :
      (f : ℕ) (m : GigaMapping) (w : W)
      → good w
      → IsTableOf (all w) first count m
      → 10 ≤ f + get_radix_from_index (place m)
      → Ends (ask shahash count stub f name m w)
  unfolding ask
  ask-Ends zero m w g a enough =
      absurd (
        omega
          (arith, radix_least (place m) 9 (bounded (λ i. c.small w i g) a _ (place-member w a))))
  ask-Ends (suc f) m w g a enough =
      let (s, at_s, lt) = giga_get_server_for_index-lt m a.usable.served (place m) in
      let mine : s < count = omega (arith, lt, a.servers) in
      elim (Answer-cases (stub s w).0) [
        | inr (x, e) ↦ (
          x,
          m,
          (stub s w).1,
          rw (server_of_name w g a, at_s, connected count s mine, e) refl,
          known_later (λ i. c.grows s w i g) a,
          (s, w, mine, g, λ i. (e i, (stub s w).1)),
        )
        | inl (t, e) ↦
            let (q, away) = c.redirects s w t g mine e in
            let (m', f', b, union) = merged-IsTableOf {u = t} a (rw q (c.table w s g)) in
            let ih =
              ask-Ends f m' (stub s w).1 (c.kept s w t g mine e)
                (known_later (λ i. c.grows s w i g) b)
                (omega (arith, redirected m' s w t g mine a at_s e union)) in
            rw (server_of_name w g a, at_s, connected count s mine, e, f') ih
      ]

  -- If the digest of the name has 20 bytes, in every good state the servers have tables of one
  -- directory with partitions below 512, each knows the partitions that are on it, a call of a
  -- server only adds partitions, and one that sends its table back leads to a good state and is
  -- only for a name that the table puts elsewhere, then from any good state and table of the
  -- directory the loop at `bitmap` ends within ten calls, without a fault, with a table of the
  -- directory and the final reply of a server that was asked in a good state.
  pub ask_returns :
      (m : GigaMapping) (w : W)
      → good w
      → IsTableOf (all w) first count m
      → Ends (ask shahash count stub 10 name m w)
  ask_returns m w g a = ask-Ends 10 m w g a (omega arith)
