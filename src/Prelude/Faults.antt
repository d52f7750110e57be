-- ===== src/Prelude/Faults.antt =====
-- How a run of C code ends: with a value, or in one of the ways that C code goes wrong.
use Prim.Native.Nat.{ℕ, zero, suc, ◌<◌}
use mathlib.Core.Path.{◌≡◌, refl}
use mathlib.Core.Bool.{Bool, true, false}
use mathlib.Core.Option.{Option, none, some}
use mathlib.Core.List.{List, [], ◌∷◌}
use native.Mathlib.Omega.{arith}
use skyefs.Prelude.Lists.{length, get_elem?, set}

-- A failed `assert`, an access outside an array or of freed memory, a remainder by 0, a read of a variable that was
-- never set, a loop that used up its rounds, a wait for a lock that is not released, a release of a lock
-- that is not held, and a call of err_dump or err_quit.
pub data Fault : Type 0 where
  assertion out_of_bounds division_by_zero uninitialized out_of_rounds blocked not_locked aborted :
      Fault

pub data Outcome {ℓ} (A : Type ℓ) : Type ℓ where
  ok : A → Outcome A
  fault : Fault → Outcome A

infixl 5 ◌>>=◌ ◌>>◌
-- A fault ends the run.
abbrev pub ◌>>=◌ {ℓ κ} :
    {Before : Type ℓ} {After : Type κ} → Outcome Before → (Before → Outcome After) → Outcome After
fault why >>= next = fault why
ok value >>= next = next value

abbrev pub ◌>>◌ {κ} : {After : Type κ} → Outcome (Unit {0}) → Outcome After → Outcome After
first >> rest = first >>= λ _. rest

-- C's `assert`, which aborts the process.
abbrev pub assert : Bool → Outcome (Unit {0})
assert true = ok tt
assert false = fault assertion

abbrev pub found {ℓ} : {A : Type ℓ} → Option A → Outcome A
found none = fault out_of_bounds
found (some a) = ok a

module _ {ℓ} {A : Type ℓ} where
  -- A read or a write of an array: outside it the behaviour is undefined.
  abbrev pub load : List A → ℕ → Outcome A
  load xs i = found (get_elem? xs i)

  abbrev pub store : List A → ℕ → A → Outcome (List A)
  store [] i v = fault out_of_bounds
  store (x ∷ xs) zero v = ok (v ∷ xs)
  store (x ∷ xs) (suc i) v = store xs i v >>= λ ys. ok (x ∷ ys)

  pub store-eq-set : (xs : List A) (i : ℕ) (v : A) → i < length xs → store xs i v ≡ ok (set xs i v)
  store-eq-set [] i v h = elim h [ ]
  store-eq-set (x ∷ xs) zero v h = refl
  store-eq-set (x ∷ xs) (suc i) v h = ground (arith, store-eq-set xs i v)

pub >>=-eq-ok {ℓ κ} :
    {Before : Type ℓ} {After : Type κ} (first : Outcome Before) (next : Before → Outcome After)
    {result : After}
    → (first >>= next) ≡ ok result
    → (value : Before) × (first ≡ ok value) × (next value ≡ ok result)
>>=-eq-ok (fault why) next run = cc
>>=-eq-ok (ok value) next run = (value, refl, run)
