-- ===== src/Server/Split/Names.antt =====
-- Lists of names as sets, and how many of them pass a test.
use skyefs.Prelude.Strings.{same_name, same_name_lem, same_name_refl}
use skyefs.Prelude.{
  ℕ, zero, suc, ◌+◌, ◌≤◌, ◌<◌, ◌≡◌, refl, ap, arith, List, [], ◌∷◌, length, take, drop, Bool, true,
  false, ◌&&◌, ◌||◌, if◌then◌else◌, Bool-cases, inl, inr,
}

unfoldable pub contains : List (List ℕ) → List ℕ → Bool
contains [] x = false
contains (n ∷ names) x = same_name n x || contains names x

-- The names but this one.
unfoldable pub without : List ℕ → List (List ℕ) → List (List ℕ)
without x [] = []
without x (n ∷ names) = let rest = without x names in if same_name x n then rest else n ∷ rest

unfoldable pub count : (List ℕ → Bool) → List (List ℕ) → ℕ
count p [] = 0
count p (n ∷ names) = if p n then count p names + 1 else count p names

pub contains-without :
    (x y : List ℕ) (names : List (List ℕ))
    → contains (without x names) y ≡ (contains names y && (if same_name x y then false else true))
unfolding contains without
contains-without x y [] = refl
contains-without x y (n ∷ names) = elim (Bool-cases (same_name x n)) [
  | inl same ↦
      let e = same_name_lem x n same in
      rw (same, contains-without x y names) (ground (arith, ap (λ t. same_name t y) e))
  | inr other ↦
      rw (other, contains-without x y names)
        (elim (Bool-cases (same_name n y)) [
          | inl at_y ↦ ground (arith, at_y, other, ap (same_name x) (same_name_lem n y at_y))
          | inr else_y ↦ ground (arith, else_y)
        ])
]

pub length-without : (x : List ℕ) (names : List (List ℕ)) → length (without x names) ≤ length names
unfolding without
length-without x [] = omega arith
length-without x (n ∷ names) = ground (arith, length-without x names)

module _ (p : List ℕ → Bool) where
  pub count_le : (names : List (List ℕ)) → count p names ≤ length names
  unfolding count
  count_le [] = omega arith
  count_le (n ∷ names) = ground (arith, count_le names)

  pub count-without :
      (x : List ℕ) (names : List (List ℕ)) → count p (without x names) ≤ count p names
  unfolding without count
  count-without x [] = omega arith
  count-without x (n ∷ names) = ground (arith, count-without x names)

  pub count-without_lt :
      (x : List ℕ) (names : List (List ℕ))
      → p x ≡ true
      → contains names x ≡ true
      → count p (without x names) < count p names
  unfolding without count contains
  count-without_lt x [] h m = cc
  count-without_lt x (n ∷ names) h m = elim (Bool-cases (same_name x n)) [
    | inl same ↦
        let e = same_name_lem x n same in rw same (ground (arith, count-without x names, h, ap p e))
    | inr other ↦ ground (
      arith,
      other,
      count-without_lt x names h,
      m,
      λ (at : same_name n x ≡ true). same_name_refl x,
      λ (at : same_name n x ≡ true). ap (same_name x) (same_name_lem n x at),
    )
  ]

  pub count-take-drop :
      (k : ℕ) (names : List (List ℕ))
      → count p (take k names) + count p (drop k names) ≡ count p names
  unfolding count
  count-take-drop zero names = omega arith
  count-take-drop (suc k) [] = omega arith
  count-take-drop (suc k) (n ∷ names) = ground (arith, count-take-drop k names)

  pub count_none :
      (names : List (List ℕ)) (x : List ℕ)
      → count p names ≡ 0
      → contains names x ≡ true
      → p x ≡ false
  unfolding count contains
  count_none [] x e m = cc
  count_none (n ∷ names) x e m = elim (Bool-cases (same_name n x)) [
    | inl same ↦ rw (← same_name_lem n x same) (ground (arith, e))
    | inr other ↦ count_none names x (ground (arith, e)) (ground (arith, m, other))
  ]

pub contains-drop :
    (k : ℕ) (names : List (List ℕ)) (x : List ℕ)
    → contains (drop k names) x ≡ true
    → contains names x ≡ true
unfolding contains
contains-drop zero names x h = h
contains-drop (suc k) [] x h = h
contains-drop (suc k) (n ∷ names) x h = ground (arith, contains-drop k names x)

pub contains-take :
    (k : ℕ) (names : List (List ℕ)) (x : List ℕ)
    → contains (take k names) x ≡ true
    → contains names x ≡ true
unfolding contains
contains-take zero names x h = cc
contains-take (suc k) [] x h = h
contains-take (suc k) (n ∷ names) x h = ground (arith, contains-take k names x)
