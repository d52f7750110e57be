-- ===== src/Tests/Encoding.antt =====
-- A table over a stream of numbers, which holds each number as it is.
use skyefs.Prelude.{ℕ, zero, suc, ◌≡◌, refl, arith, List, [], ◌∷◌, ◌++◌, length, Option, none, some}
use skyefs.Rpc.Encoding.{Xdr, put_mapping, get_mapping}
use skyefs.Rpc.RoundTrip.{Writes, IsXdr, mapping_back}
use skyefs.Giga.Mapping.Invariant.{usable}
use skyefs.Tests.{grown, grown-IsValid}

abbrev get_one : List ℕ → Option (ℕ × List ℕ)
get_one [] = none
get_one (n ∷ bytes) = some (n, bytes)

abbrev get_many : ℕ → List ℕ → Option (List ℕ × List ℕ)
get_many zero bytes = some ([], bytes)
get_many (suc n) [] = none
get_many (suc n) (b ∷ bytes) = elim (get_many n bytes) [
  | none ↦ none
  | some r ↦ some (b ∷ r.0, r.1)
]

abbrev numbers : Xdr
numbers = record {
  put_uint64 = λ n. some (n ∷ []);
  get_uint64 = get_one;
  put_uint32 = λ n. some (n ∷ []);
  get_uint32 = get_one;
  put_u_int = λ n. some (n ∷ []);
  get_u_int = get_one;
  put_chars = λ n bytes. some bytes;
  get_chars = get_many;
}

gets_many : (bytes rest : List ℕ) → get_many (length bytes) (bytes ++ rest) ≡ some (bytes, rest)
gets_many [] rest = refl
gets_many (b ∷ bytes) rest = rw (gets_many bytes rest) refl

numbers-IsXdr : IsXdr numbers
numbers-IsXdr = record {
  uint64 = λ n h. (n ∷ [], refl, λ rest. refl);
  uint32 = λ n h. (n ∷ [], refl, λ rest. refl);
  u_int = λ n h. (n ∷ [], refl, λ rest. refl);
  chars = λ n bytes size low. (bytes, refl, λ rest. rw (← size) (gets_many bytes rest));
}

mapping_example : Writes (put_mapping numbers grown) (get_mapping numbers) grown
mapping_example =
    mapping_back numbers-IsXdr (usable grown-IsValid) (omega arith) (omega arith) (omega arith)
