-- ===== src/Client/Files/Sizes.antt =====
-- client/operations.c: st_blocks and st_mode in pvfs_getattr.
use native.Mathlib.Decide.{dec_lt}
use native.Mathlib.Nat.{div-add-mod, mod-lt, mod-eq_of_lt}
use skyefs.Bits.{bit, bit-or, bit-pow, bit-lt, bit-zero, all_below, all_below_sound}
use skyefs.Prelude.{
  ℕ, ◌+◌, ◌-◌, ◌*◌, ◌/◌, ◌%◌, ◌^◌, ◌≤◌, ◌<◌, ◌≡◌, refl, arith, max, bit_or, List, [], ◌∷◌, Bool,
  false, ◌==◌, ◌||◌, ◌&&◌, if◌then◌else◌, Bool-cases, ◌⊎◌, inl, inr, some, ==_iff,
}
use skyefs.Rpc.{ObjectRef}
use skyefs.Client.Files.{
  SysAttr, ObjType, metafile, directory, symlink, other_type, rounded_up_size, sizes, stat_of,
  or_flags, mode_flags, type_mode,
}

-- The blocks are those of the fewest pages of 4096 bytes that have room for the size, and of one page
-- more if the size fills its pages.
abbrev pub AreBlocks : ℕ → ℕ → Type 0
AreBlocks size blocks =
    ((0 < size % 4096)
      × (size ≤ 512 * blocks)
      × (512 * blocks < size + 4096)
      × (512 * blocks % 4096 ≡ 0))
    ⊎ ((size % 4096 ≡ 0) × (512 * blocks ≡ size + 4096))

module _ (size : ℕ) (small : size < 2 ^ 63) where
  no_wrap : rounded_up_size size ≡ size + (4096 - size % 4096)
  unfolding rounded_up_size
  no_wrap = mod-eq_of_lt (omega (arith, small))

  blocks-AreBlocks : AreBlocks size (rounded_up_size size / 512)
  blocks-AreBlocks =
      let r = size + (4096 - size % 4096) in
      let b = r / 512 in
      let q : size % 4096 < 4096 = mod-lt size (omega arith) in
      let y : r % 512 < 512 = mod-lt r (omega arith) in
      let e : 512 * b ≡ r = omega (arith, div-add-mod size 4096, q, div-add-mod r 512, y) in
      let z : 512 * b % 4096 < 4096 = mod-lt (512 * b) (omega arith) in
      rw no_wrap (elim (dec_lt 0 (size % 4096)) [
        | yes part ↦ inl (
          part,
          omega (arith, e, q),
          omega (arith, e, q, part),
          omega (arith, e, q, z, div-add-mod size 4096, div-add-mod (512 * b) 4096),
        )
        | no whole ↦ inr (omega (arith, whole), omega (arith, whole, e))
      ])

-- For a file with a size below 2 ^ 63, pvfs_getattr gives this size as st_size; if the size is no
-- multiple of 4096, st_blocks is the number of blocks of 512 bytes in the size rounded up to the
-- next multiple of 4096, and if it is one, st_blocks counts 4096 bytes more than the size.
pub st_blocks_lem :
    (ref : ObjectRef) (a : SysAttr) (size : ℕ)
    → a.objtype ≡ metafile
    → a.size ≡ some size
    → size < 2 ^ 63
    → ((stat_of ref a).st_size ≡ size) × AreBlocks size (stat_of ref a).st_blocks
unfolding stat_of sizes
st_blocks_lem ref a size file has_size small =
    let whole : size % 2 ^ 64 ≡ size = mod-eq_of_lt (omega (arith, small)) in
    rw (file, has_size, whole) (refl, blocks-AreBlocks size small)

-- The flag at a place of a mode.
unfoldable pub flag_at : ℕ → List (Bool × ℕ) → Bool
flag_at k [] = false
flag_at k (flag ∷ flags) = (flag.0 && (k == flag.1)) || flag_at k flags

or_flags_lem :
    (k : ℕ) (flags : List (Bool × ℕ)) (mode : ℕ)
    → bit k (or_flags flags mode) ≡ max (bit k mode) (if flag_at k flags then 1 else 0)
unfolding or_flags flag_at
or_flags_lem k [] mode = ground (arith, bit-lt k mode)
or_flags_lem k (flag ∷ flags) mode = elim (Bool-cases flag.0) [
  | inl yes_flag ↦
      rw
        (
          yes_flag,
          or_flags_lem k flags (bit_or mode (2 ^ flag.1)),
          bit-or k mode (2 ^ flag.1),
          bit-pow k flag.1,
        )
        (ground (arith, bit-lt k mode))
  | inr unset ↦ rw (unset, or_flags_lem k flags mode) (ground arith)
]

type_lem : (k : ℕ) (t : ObjType) → k < 12 → bit k (type_mode t) ≡ 0
unfolding type_mode all_below bit
type_lem k metafile h = (==_iff _ _).0 (all_below_sound 12 (λ k. bit k 0o100000 == 0) refl k h)
type_lem k directory h = (==_iff _ _).0 (all_below_sound 12 (λ k. bit k 0o040000 == 0) refl k h)
type_lem k symlink h = (==_iff _ _).0 (all_below_sound 12 (λ k. bit k 0o120000 == 0) refl k h)
type_lem k other_type h = bit-zero k

-- For a bit below 12, pvfs_getattr sets this bit of st_mode exactly if it is that of a permission
-- which PVFS gives.
pub st_mode_lem :
    (ref : ObjectRef) (a : SysAttr) (k : ℕ)
    → k < 12
    → bit k (stat_of ref a).st_mode ≡ (if flag_at k (mode_flags a) then 1 else 0)
unfolding stat_of
st_mode_lem ref a k h =
    rw
      (
        bit-or k (or_flags (mode_flags a) 0) (type_mode a.objtype),
        type_lem k a.objtype h,
        or_flags_lem k (mode_flags a) 0,
        bit-zero k,
      )
      (ground arith)
