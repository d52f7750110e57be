-- ===== src/Client/Retry/Progress.antt =====
-- client/operations.c: lookups in the client's table before and after it merges one that a server
-- sends back.
use skyefs.Prelude.{ℕ, ◌≤◌, ◌<◌, ◌≡◌, ◌≢◌, arith, true, ◌||◌}
use skyefs.Giga.Bitmap.{get_radix_from_index}
use skyefs.Giga.Tree.{Partitions, locate}
use skyefs.Giga.Tree.Suffix.{locate-IsLocation, radix-suffix_strict}

-- The partition with the longest suffix in a larger set is at least as far down.
locate_mono :
    (ps qs : Partitions) (h k : ℕ)
    → ps 0 ≡ true
    → ((i : ℕ) → ps i ≡ true → qs i ≡ true)
    → locate ps k h ≤ locate qs k h
locate_mono ps qs h k root sub =
    let a = locate-IsLocation ps h k root in
    let b = locate-IsLocation qs h k (sub 0 root) in
    let (j, le, e) = a.suffix in omega (arith, e, b.largest j le (rw (← e) (sub _ a.member)))

pub radix-locate_strict :
    (ps qs : Partitions) (h k : ℕ)
    → ps 0 ≡ true
    → qs 0 ≡ true
    → locate ps k h < locate qs k h
    → get_radix_from_index (locate ps k h) < get_radix_from_index (locate qs k h)
radix-locate_strict ps qs h k a b lt =
    let (i, _, e) = (locate-IsLocation ps h k a).suffix in
    let (j, _, f) = (locate-IsLocation qs h k b).suffix in
    rw (e, f) (radix-suffix_strict h i j (rw (e, f) at lt))

-- A table t that has the partition p of the client's lookup, and looks the name up elsewhere.
pub farther :
    (ps ts qs : Partitions) (h k : ℕ)
    → ps 0 ≡ true
    → ts 0 ≡ true
    → ts (locate ps k h) ≡ true
    → locate ts k h ≢ locate ps k h
    → ((i : ℕ) → qs i ≡ (ps i || ts i))
    → get_radix_from_index (locate ps k h) < get_radix_from_index (locate qs k h)
farther ps ts qs h k pr tr has_it differs merged =
    let (i, le, e) = (locate-IsLocation ps h k pr).suffix in
    radix-locate_strict ps qs h k pr (ground (arith, merged 0)) (
      omega (
        arith,
        e,
        (locate-IsLocation ts h k tr).largest i le (rw (← e) has_it),
        locate_mono ts qs h k tr (λ i h. ground (arith, merged i)),
      ))
