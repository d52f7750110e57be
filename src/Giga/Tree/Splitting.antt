-- ===== src/Giga/Tree/Splitting.antt =====
-- What a split, or the removal of a partition, is in the specification.
use native.Mathlib.Nat.{mod-eq_of_lt, pow-suc, add-mod_right}
use native.Mathlib.Decide.{dec_le, ℕ_discrete}
use skyefs.Prelude.{
  ℕ, zero, suc, ◌+◌, ◌%◌, ◌^◌, ◌≤◌, ◌<◌, ◌≡◌, ◌≢◌, refl, arith, true, false, inl, inr, ◌==◌,
  if◌then◌else◌, Bool-cases, sym, ◌∙◌, ap,
}
use skyefs.Giga.Bitmap.{get_parent_index}
use skyefs.Giga.Bitmap.Radix.{parent-of_child}
use skyefs.Giga.Tree.{Partitions, IsTree, locate, IsLocation}
use skyefs.Giga.Tree.Suffix.{
  suffix-lt, suffix_trans, suffix_mono, locate-IsLocation, IsLocation-unique, suffix_closed,
}

-- The set with one more partition, or with one less.
abbrev pub Adds : Partitions → ℕ → Partitions → Type 0
Adds ps c qs = (j : ℕ) → qs j ≡ (if c == j then true else ps j)

abbrev pub Removes : Partitions → ℕ → Partitions → Type 0
Removes ps c qs = (j : ℕ) → qs j ≡ (if c == j then false else ps j)

locate-ext :
    (ps qs : Partitions) (h k : ℕ)
    → ((j : ℕ) → j ≤ k → qs (h % 2 ^ j) ≡ ps (h % 2 ^ j))
    → locate qs k h ≡ locate ps k h
unfolding locate
locate-ext ps qs h zero same = refl
locate-ext ps qs h (suc k) same =
    rw (same (suc k) (omega arith), locate-ext ps qs h k (λ j l. same j (omega arith)))

-- p has room for the child p + 2 ^ i.
module _ {ps : Partitions} (t : IsTree ps) (p i : ℕ) (small : p < 2 ^ i) where
  child-suffix : (h : ℕ) → h % 2 ^ suc i ≡ p + 2 ^ i → h % 2 ^ i ≡ p
  child-suffix h e =
      sym (suffix_trans h i (suc i) (omega arith))
      ∙ ap (λ n. n % 2 ^ i) e
      ∙ add-mod_right p (2 ^ i)
      ∙ mod-eq_of_lt small

  -- No other suffix of a hash is the child.
  suffix-ne-child : (h j : ℕ) → h % 2 ^ suc i ≢ p + 2 ^ i → h % 2 ^ j ≢ p + 2 ^ i
  suffix-ne-child h j ne e = elim (dec_le j i) [
    | yes le ↦ omega (arith, suffix_mono h j i le, suffix-lt h i)
    | no gt ↦ ne (
        sym (suffix_trans h (suc i) j (omega arith))
        ∙ ap (λ n. n % 2 ^ suc i) e
        ∙ mod-eq_of_lt (omega (arith, pow-suc 2 i)))
  ]

  -- No partition is named by a longer suffix than that of the child.
  suffix_free :
      (h j : ℕ)
      → ps (p + 2 ^ i) ≡ false
      → h % 2 ^ suc i ≡ p + 2 ^ i
      → suc i ≤ j
      → ps (h % 2 ^ j) ≡ false
  suffix_free h j free e le = elim (Bool-cases (ps (h % 2 ^ j))) [
    | inl m ↦ cc (suffix_closed t h (suc i) j le m, ap ps e)
    | inr f ↦ f
  ]

  -- Before the split the files of the child are in p.
  pub locate-before :
      (k h : ℕ)
      → suc i ≤ k
      → ps p ≡ true
      → ps (p + 2 ^ i) ≡ false
      → h % 2 ^ suc i ≡ p + 2 ^ i
      → locate ps k h ≡ p
  locate-before k h le old free e =
      IsLocation-unique ps h (locate-IsLocation ps h k t.root) (record {
        member = old;
        suffix = (i, omega arith, sym (child-suffix h e));
        largest = λ j jk m. elim (dec_le j i) [
          | yes l ↦ omega (arith, suffix_mono h j i l, child-suffix h e)
          | no gt ↦ cc (suffix_free h j free e (omega arith))
        ];
      })

  at_child :
      (qs : Partitions) (k h : ℕ)
      → suc i ≤ k
      → ps (p + 2 ^ i) ≡ false
      → Adds ps (p + 2 ^ i) qs
      → h % 2 ^ suc i ≡ p + 2 ^ i
      → IsLocation qs k h (p + 2 ^ i)
  at_child qs k h le free add e = record {
    member = ground (arith, add (p + 2 ^ i));
    suffix = (suc i, le, sym e);
    largest = λ j jk m. elim (dec_le j (suc i)) [
      | yes l ↦ omega (arith, suffix_mono h j (suc i) l)
      | no gt ↦ ground (arith, add (h % 2 ^ j), suffix_free h j free e (omega arith))
    ];
  }

  -- A split sends to the child the files whose hash ends in its bits, and no others.
  pub locate-after :
      (qs : Partitions) (k h : ℕ)
      → suc i ≤ k
      → ps (p + 2 ^ i) ≡ false
      → Adds ps (p + 2 ^ i) qs
      → locate qs k h ≡ (if h % 2 ^ suc i == p + 2 ^ i then p + 2 ^ i else locate ps k h)
  locate-after qs k h le free add = elim (ℕ_discrete (h % 2 ^ suc i) (p + 2 ^ i)) [
    | yes e ↦
        let at = at_child qs k h le free add e in
        ground (
          arith,
          IsLocation-unique qs h (locate-IsLocation qs h k (ground (arith, add 0, t.root))) at,
        )
    | no ne ↦ ground (
      arith,
      locate-ext ps qs h k (λ j l. ground (arith, add (h % 2 ^ j), suffix-ne-child h j ne)),
    )
  ]

  -- The new set is a tree again.
  pub Adds-IsTree : (qs : Partitions) → ps p ≡ true → Adds ps (p + 2 ^ i) qs → IsTree qs
  Adds-IsTree qs old add = record {
    root = ground (arith, add 0, t.root);
    parents = λ j k l m. ground (
      arith,
      add (j + 2 ^ k),
      add j,
      t.parents j k l,
      parent-of_child j k l,
      parent-of_child p i small,
      λ (e : p + 2 ^ i ≡ j + 2 ^ k). ap get_parent_index e,
      λ (e : p ≡ j). ap ps e,
    );
  }

-- A partition without children.
abbrev pub IsLeaf : Partitions → ℕ → Type 0
IsLeaf ps c = (k : ℕ) → c < 2 ^ k → ps (c + 2 ^ k) ≡ false

pub Removes-IsTree :
    {ps : Partitions} (t : IsTree ps) (c : ℕ) (qs : Partitions)
    → c ≢ 0
    → IsLeaf ps c
    → Removes ps c qs
    → IsTree qs
Removes-IsTree {ps} t c qs ne leaf del = record {
  root = ground (arith, del 0, t.root);
  parents = λ j k l m. ground (
    arith,
    del (j + 2 ^ k),
    del j,
    t.parents j k l,
    leaf k,
    λ (e : c ≡ j). ap (λ (x : ℕ). ps (x + 2 ^ k)) e,
  );
}
