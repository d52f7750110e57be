-- ===== src/Giga/Tree/Suffix.antt =====
-- Suffixes of a hash, and `locate` as the largest of those that name a partition.
use Prim.Native.Nat.{◌∣◌}
use native.Mathlib.Nat.{
  mod-mod_of_dvd, mod-lt, mod-eq_of_lt, mod-eq-sub-mod, one-le-pow, pow-suc, dvd_refl,
  dvd-mul_right_of_dvd, mod-one, pow-le-pow_right,
}
use skyefs.Prelude.{
  ℕ, zero, suc, ◌+◌, ◌-◌, ◌%◌, ◌^◌, ◌≤◌, ◌<◌, ◌≡◌, refl, arith, true, false, ◌⊎◌, inl, inr,
  Bool-cases, sym, ◌∙◌, ap,
}
use native.Mathlib.Decide.{dec_le}
use skyefs.Giga.Bitmap.{get_radix_from_index}
use skyefs.Giga.Bitmap.Radix.{radix_least, radix_bounds}
use skyefs.Giga.Tree.{Partitions, IsTree, locate, IsLocation}

pub suffix-lt : (h k : ℕ) → h % 2 ^ k < 2 ^ k
suffix-lt h k = mod-lt h (one-le-pow k 2 (omega arith))

le-suc_cases : (i j : ℕ) → i ≤ suc j → (i ≤ j) ⊎ (i ≡ suc j)
le-suc_cases i j h = grind arith

pow-dvd : (i j : ℕ) → i ≤ j → 2 ^ i ∣ 2 ^ j
pow-dvd zero zero h = dvd_refl 1
pow-dvd (suc i) zero h = elim h [ ]
pow-dvd i (suc j) h = elim (le-suc_cases i j h) [
  | inl le ↦ rw (pow-suc 2 j) (dvd-mul_right_of_dvd (2 ^ i) (pow-dvd i j le) 2)
  | inr e ↦ rw e (dvd_refl (2 ^ suc j))
]

-- A suffix of a suffix.
pub suffix_trans : (h i j : ℕ) → i ≤ j → h % 2 ^ j % 2 ^ i ≡ h % 2 ^ i
suffix_trans h i j le = mod-mod_of_dvd (2 ^ i) h (pow-dvd i j le)

pow_mono : (i j : ℕ) → i ≤ j → 2 ^ i ≤ 2 ^ j
pow_mono i j le = pow-le-pow_right {n = 2} (omega arith) le

-- One more bit of the hash is 0 or 1.
pub suffix-suc : (h k : ℕ) → (h % 2 ^ suc k ≡ h % 2 ^ k) ⊎ (h % 2 ^ suc k ≡ h % 2 ^ k + 2 ^ k)
suffix-suc h k = ground (
  arith,
  suffix_trans h k (suc k),
  suffix-lt h (suc k),
  pow-suc 2 k,
  mod-eq_of_lt {n = h % 2 ^ suc k} {m = 2 ^ k},
  mod-eq-sub-mod {n = h % 2 ^ suc k} {m = 2 ^ k},
  mod-eq_of_lt {n = h % 2 ^ suc k - 2 ^ k} {m = 2 ^ k},
)

pub suffix_mono : (h i j : ℕ) → i ≤ j → h % 2 ^ i ≤ h % 2 ^ j
suffix_mono h zero zero le = omega arith
suffix_mono h (suc i) zero le = elim le [ ]
suffix_mono h i (suc j) le = grind (
  arith,
  suffix-suc h j,
  λ (l : i ≤ j). suffix_mono h i j l,
  λ (e : i ≡ suc j). ap (λ (t : ℕ). h % 2 ^ t) e,
)

module _ (ps : Partitions) (h : ℕ) where
  pub locate-IsLocation : (k : ℕ) → ps 0 ≡ true → IsLocation ps k h (locate ps k h)
  unfolding locate
  locate-IsLocation zero root = record {
    member = root;
    suffix = (0, omega arith, sym (mod-one h));
    largest = λ j le _. let e : j ≡ 0 = omega arith in rw (e, mod-one) (omega arith);
  }
  locate-IsLocation (suc k) root =
      let ih = locate-IsLocation k root in
      elim (Bool-cases (ps (h % 2 ^ suc k))) [
        | inl t ↦ rw t (record {
          member = t;
          suffix = (suc k, omega arith, refl);
          largest = λ j le _. suffix_mono h j (suc k) le;
        })
        | inr f ↦ rw f (record {
          member = ih.member;
          suffix = (ih.suffix.0, omega (arith, ih.suffix.1), ih.suffix.2);
          largest = λ j le m.
              ih.largest j (grind (arith, λ (e : j ≡ suc k). ap (λ (t : ℕ). ps (h % 2 ^ t)) e)) m;
        })
      ]

  -- There is one such partition.
  pub IsLocation-unique : {k r s : ℕ} → IsLocation ps k h r → IsLocation ps k h s → r ≡ s
  IsLocation-unique {k} {r} {s} a b =
      let (i, ik, ri) = a.suffix in
      let (j, jk, sj) = b.suffix in
      omega (arith, a.largest j jk (rw (← sj) b.member), b.largest i ik (rw (← ri) a.member))

-- A tree has with a suffix of h each shorter one.
pub suffix_closed :
    {ps : Partitions} (t : IsTree ps) (h i j : ℕ)
    → i ≤ j
    → ps (h % 2 ^ j) ≡ true
    → ps (h % 2 ^ i) ≡ true
suffix_closed t h zero zero le m = m
suffix_closed t h (suc i) zero le m = elim le [ ]
suffix_closed {ps} t h i (suc j) le m = elim (le-suc_cases i j le) [
  | inr e ↦ rw e m
  | inl l ↦ suffix_closed t h i j l (elim (suffix-suc h j) [
    | inl same ↦ rw (← same) m
    | inr more ↦ t.parents (h % 2 ^ j) j (suffix-lt h j) (rw (← more) m)
  ])
]

module _ (ps : Partitions) (h : ℕ) where
  pub locate-at : (k : ℕ) → ps (h % 2 ^ k) ≡ true → locate ps k h ≡ h % 2 ^ k
  unfolding locate
  locate-at zero m = sym (mod-one h)
  locate-at (suc k) m = rw m

  pub locate-longer : (k : ℕ) → ps (h % 2 ^ suc k) ≡ false → locate ps (suc k) h ≡ locate ps k h
  unfolding locate
  locate-longer k f = rw f

  -- More bits of the hash than the partitions have change nothing.
  pub locate_stable :
      (r k : ℕ) → r ≤ k → ((i : ℕ) → ps i ≡ true → i < 2 ^ r) → locate ps k h ≡ locate ps r h
  unfolding locate
  locate_stable zero zero le small = refl
  locate_stable (suc r) zero le small = elim le [ ]
  locate_stable r (suc k) le small = elim (le-suc_cases r k le) [
    | inr e ↦ rw e
    | inl l ↦
        let rest = locate_stable r k l small in
        elim (Bool-cases (ps (h % 2 ^ suc k))) [
          | inr f ↦ rw f rest
          | inl m ↦ rw m (elim (suffix-suc h k) [
            | inl same ↦ same ∙ sym (locate-at k (rw (← same) m)) ∙ rest
            | inr more ↦ absurd (omega (arith, small (h % 2 ^ suc k) m, pow_mono r k l))
          ])
        ]
  ]

-- Of two suffixes of a hash the larger one has the larger radix.
pub radix-suffix_strict :
    (h i j : ℕ)
    → h % 2 ^ i < h % 2 ^ j
    → get_radix_from_index (h % 2 ^ i) < get_radix_from_index (h % 2 ^ j)
radix-suffix_strict h i j lt = elim (dec_le j i) [
  | yes le ↦ absurd (omega (arith, suffix_mono h j i le))
  | no gt ↦ grind (
    arith,
    radix_least (h % 2 ^ i) i (suffix-lt h i),
    radix_bounds (h % 2 ^ j),
    suffix_trans h i j (omega arith),
    λ (le : get_radix_from_index (h % 2 ^ j) ≤ i). pow_mono (get_radix_from_index (h % 2 ^ j)) i le,
    λ (small : h % 2 ^ j < 2 ^ i). mod-eq_of_lt small,
  )
]
