-- ===== src/Giga/Servers.antt =====
-- Which server a partition is on, and its number among the partitions of that server.
use native.Mathlib.Nat.{mod-lt, mod-eq_of_lt, div-add-mod, mul-le-mul_left, mul-suc}
use native.Mathlib.Decide.{dec_le}
use skyefs.Prelude.{ℕ, suc, ◌+◌, ◌*◌, ◌/◌, ◌%◌, ◌^◌, ◌≤◌, ◌<◌, ◌≡◌, arith, ok, ap, ◌∙◌}
use skyefs.Giga.Mapping.{GigaMapping, giga_get_server_for_index, giga_get_bucket_num_for_server}

-- Two numbers less than n apart with the same remainder by n are equal.
residues_apart : (a b n x y t : ℕ) → n * a + t ≡ x → n * b + t ≡ y → x < y → ¬ (y < x + n)
residues_apart a b n x y t e f lt close = elim (dec_le b a) [
  | yes le ↦ omega (arith, mul-le-mul_left n le)
  | no gt ↦ let more : suc a ≤ b = omega arith in omega (arith, mul-le-mul_left n more, mul-suc n a)
]

close_residues : (n x y : ℕ) → x % n ≡ y % n → x < y + n → y < x + n → x ≡ y
close_residues n x y e p q = grind (
  arith,
  λ (lt : x < y).
      residues_apart (x / n) (y / n) n x y (x % n) (div-add-mod x n)
        (ap (λ (t : ℕ). n * (y / n) + t) e ∙ div-add-mod y n) lt q,
  λ (lt : y < x).
      residues_apart (y / n) (x / n) n y x (x % n)
        (ap (λ (t : ℕ). n * (y / n) + t) e ∙ div-add-mod y n) (div-add-mod x n) lt p,
)

module _ (m : GigaMapping) (served : 0 < m.server_count) where
  -- If a table has a server, giga_get_server_for_index returns a number below the number of
  -- servers.
  pub giga_get_server_for_index-lt :
      (index : ℕ)
      → (server : ℕ) × (giga_get_server_for_index m index ≡ ok server) × (server < m.server_count)
  unfolding giga_get_server_for_index
  giga_get_server_for_index-lt index =
      ((index + m.zeroth_server) % 2 ^ 32 % m.server_count, ground arith, mod-lt _ served)

  -- If a table has a server and i and j plus its first server do not exceed 32 bits, then i and j
  -- are equal when they have the same server and the same bucket number there.
  pub bucket_num-injective :
      (i j : ℕ)
      → i + m.zeroth_server < 2 ^ 32
      → j + m.zeroth_server < 2 ^ 32
      → giga_get_server_for_index m i ≡ giga_get_server_for_index m j
      → giga_get_bucket_num_for_server m i ≡ giga_get_bucket_num_for_server m j
      → i ≡ j
  unfolding giga_get_server_for_index giga_get_bucket_num_for_server
  bucket_num-injective i j a b same num =
      let n = m.server_count in
      let z = m.zeroth_server in
      let q : i / n ≡ j / n = ground arith in
      let r : (i + z) % n ≡ (j + z) % n =
        ground
          (arith, mod-eq_of_lt {n = i + z} {m = 2 ^ 32}, mod-eq_of_lt {n = j + z} {m = 2 ^ 32}) in
      let near = ap (λ (t : ℕ). n * t) q in
      let e =
        close_residues n (i + z) (j + z) r
          (omega (arith, near, div-add-mod i n, div-add-mod j n, mod-lt i served))
          (omega (arith, near, div-add-mod i n, div-add-mod j n, mod-lt j served)) in
      omega (arith, e)

  -- If a table has a server, an index below twice the number of servers has a bucket number below
  -- 2.
  pub bucket_num-lt :
      (i : ℕ)
      → i < 2 * m.server_count
      → (n : ℕ) × (giga_get_bucket_num_for_server m i ≡ ok n) × (n < 2)
  unfolding giga_get_bucket_num_for_server
  bucket_num-lt i h =
      (i / m.server_count, ground arith, grind (arith, div-add-mod i m.server_count))
