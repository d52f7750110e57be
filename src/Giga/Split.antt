-- ===== src/Giga/Split.antt =====
-- common/giga_index.c: a split as the server makes it. `giga_index_for_splitting` names the new
-- partition, `giga_file_migration_status` picks the files that move, and `giga_update_mapping`
-- makes the partition visible to `giga_get_index_for_file`.
use native.Mathlib.Nat.{pow-le-pow_right}
use mathlib.Core.Path.{subst}
use skyefs.Prelude.{
  ℕ, suc, ◌+◌, ◌*◌, ◌%◌, ◌^◌, ◌≤◌, ◌<◌, ◌≡◌, refl, arith, Bool, true, if◌then◌else◌, ◌∙◌, ap, List,
  ok, ◌>>=◌, ◌==◌, ltb,
}
use skyefs.Giga.Bitmap.{get_radix_from_index}
use skyefs.Giga.Mapping.{GigaMapping, giga_update_mapping}
use skyefs.Giga.Mapping.Invariant.{partitions, IsValid, usable, IsBounded}
use skyefs.Giga.Hash.RoundTrip.{IsDigest}
use skyefs.Giga.Hash.Suffix.{number}
use skyefs.Giga.Tree.Splitting.{Adds, locate-before, locate-after, Adds-IsTree}
use skyefs.Giga.Child.{split_child}
use skyefs.Giga.Lookup.{giga_get_index_for_file-locate, index_of_name}
use skyefs.Giga.Update.{SameServers, giga_update_mapping_lem}
use skyefs.Giga.Index.{
  giga_index_for_splitting, giga_get_index_for_file, giga_file_migration_status, giga_is_splittable,
}

module _ {m : GigaMapping} (v : IsValid m) (p c : ℕ) (mem : partitions m p ≡ true)
    (chosen : giga_index_for_splitting m p ≡ ok c) where
  child_room : c < 1024
  child_room =
      let (k, small, lt, e, free, r) = split_child (usable v) p c mem chosen in
      omega (arith, pow-le-pow_right {n = 2} (omega arith) {i = k} {j = 9} (omega arith))

  -- For a valid table and an existing partition that giga_index_for_splitting splits into c,
  -- giga_update_mapping with c succeeds, the new table is valid, has c and the old partitions,
  -- and the same servers.
  pub split-IsValid :
      (m' : GigaMapping) × (giga_update_mapping m c ≡ ok m')
      × IsValid m'
      × Adds (partitions m) c (partitions m')
      × SameServers m m'
  split-IsValid =
      let (k, small, lt, e, free, r) = split_child (usable v) p c mem chosen in
      let (m', f, b, add, same) =
        giga_update_mapping_lem (usable v) c (omega (arith, child_room)) in
      (
        m',
        f,
        record {
          bits = b;
          tree = Adds-IsTree v.tree p k small (partitions m') mem (rw (← e) add);
          served = rw same.1 v.served;
        },
        add,
        same,
      )

  -- A bound on the partitions that the new one meets is kept.
  Adds-IsBounded :
      (m' : GigaMapping) (n : ℕ)
      → Adds (partitions m) c (partitions m')
      → IsBounded m n
      → c < n
      → IsBounded m' n
  Adds-IsBounded m' n add bounded small i h = ground (arith, add i, bounded i)

  module _ (shahash : List ℕ → List ℕ) (name : List ℕ) (d : IsDigest (shahash name))
      (small : c < 512) where
    migrates :
        (k : ℕ)
        → k < 9
        → get_radix_from_index c ≡ suc k
        → giga_file_migration_status shahash name c ≡ ok (number (shahash name) % 2 ^ suc k == c)
    unfolding giga_file_migration_status
    migrates k lt r = rw (r, index_of_name shahash (usable v) name d (suc k) (omega arith)) refl

    child_radix : (k : ℕ) → c ≡ p + 2 ^ k → k < 9
    child_radix k e = grind (arith, λ (le : 9 ≤ k). pow-le-pow_right {n = 2} (omega arith) le)

    pub status_known : (moves : Bool) × (giga_file_migration_status shahash name c ≡ ok moves)
    status_known =
        let (k, low, lt, e, free, r) = split_child (usable v) p c mem chosen in
        (number (shahash name) % 2 ^ suc k == c, migrates k (child_radix k e) r)

    located_after :
        {m' : GigaMapping}
        → IsValid m'
        → Adds (partitions m) c (partitions m')
        → IsBounded m 512
        → giga_get_index_for_file shahash m' name ≡ (
            giga_file_migration_status shahash name c >>= λ moves.
            if moves then ok c else giga_get_index_for_file shahash m name)
    located_after {m'} v' add bounded =
        let (k, low, lt, e, free, r) = split_child (usable v) p c mem chosen in
        let h = number (shahash name) in
        rw
          (
            giga_get_index_for_file-locate shahash (usable v') name d
                (Adds-IsBounded m' 512 add bounded small),
            giga_get_index_for_file-locate shahash (usable v) name d bounded,
            migrates k (child_radix k e) r,
            ap (λ t. ok t)
                (locate-after v.tree p k low (partitions m') 9 h (omega (arith, child_radix k e))
                  (rw (← e) free) (rw (← e) add)),
          )
          (ground (arith, e))

    -- For a valid table with all partitions below 512, an existing partition p that
    -- giga_index_for_splitting splits into c < 512, and a name whose digest is 20 bytes: after
    -- giga_update_mapping with c the name is looked up in c exactly if giga_file_migration_status
    -- moves it, and otherwise where it was looked up before.
    pub split_moves :
        (m' : GigaMapping)
        → giga_update_mapping m c ≡ ok m'
        → IsBounded m 512
        → giga_get_index_for_file shahash m' name ≡ (
            giga_file_migration_status shahash name c >>= λ moves.
            if moves then ok c else giga_get_index_for_file shahash m name)
    split_moves m' updated bounded =
        let (n, f, v', add, same) = split-IsValid in
        let e : n ≡ m' = cc in
        subst
          (λ t. giga_get_index_for_file shahash t name ≡ (
            giga_file_migration_status shahash name c >>= λ moves.
            if moves then ok c else giga_get_index_for_file shahash m name))
          e (located_after v' add bounded)

    -- For a valid table with all partitions below 512, an existing partition p that
    -- giga_index_for_splitting splits into c < 512, and a name whose digest is 20 bytes: if
    -- giga_file_migration_status moves the name to c, giga_get_index_for_file finds it in p.
    pub split_source :
        IsBounded m 512
        → giga_file_migration_status shahash name c ≡ ok true
        → giga_get_index_for_file shahash m name ≡ ok p
    split_source bounded moves =
        let (k, low, lt, e, free, r) = split_child (usable v) p c mem chosen in
        giga_get_index_for_file-locate shahash (usable v) name d bounded
        ∙ ap ok (
            locate-before v.tree p k low 9 (number (shahash name)) (omega (arith, child_radix k e))
              mem (rw (← e) free) (ground (arith, e, migrates k (child_radix k e) r)))

  splittable : giga_is_splittable m p ≡ ok (ltb c (2 * m.server_count))
  unfolding giga_is_splittable
  splittable = rw chosen refl

  -- For a valid table with all partitions below twice its servers and an existing partition that
  -- giga_index_for_splitting splits into c: if giga_is_splittable allows the split, the table
  -- after giga_update_mapping with c is valid and its partitions are below twice its servers.
  pub split-IsBounded :
      (m' : GigaMapping)
      → giga_is_splittable m p ≡ ok true
      → giga_update_mapping m c ≡ ok m'
      → IsBounded m (2 * m.server_count)
      → IsValid m' × IsBounded m' (2 * m'.server_count)
  split-IsBounded m' yes_split updated bounded =
      let (n, f, v', add, same) = split-IsValid in
      let e : n ≡ m' = cc in
      let lt : c < 2 * m.server_count = ground (arith, splittable) in
      subst (λ t. IsValid t × IsBounded t (2 * t.server_count)) e
        (v', rw same.1 (Adds-IsBounded n (2 * m.server_count) add bounded lt))
