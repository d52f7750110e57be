-- ===== src/Client/Files/Opening.antt =====
-- client/operations.c: which entries skye_ll_opendir puts into the buffer.
use skyefs.Prelude.{
  ℕ, zero, suc, ◌+◌, ◌≤◌, ◌<◌, ◌≡◌, refl, ap, ◌∙◌, sym, arith, List, [], ◌∷◌, ◌++◌, length, take,
  drop, Bool, true, false, ◌==◌, if◌then◌else◌, Bool-cases, inl, inr, Outcome, ok, length-take,
  length-drop, take-append-drop, take_above, drop-drop,
}
use skyefs.Rpc.{ObjectRef}
use skyefs.Client.Files.Attributes.{Reply, replied}
use skyefs.Client.Files.Listing.{
  Dirent, Listed, call_each, read_pages, pvfs_readdir, Opening, beside, add_to_buf, is_partition,
  recurse, skye_ll_opendir,
}

-- A PVFS whose directories have the entries `files`, listed by position.
pub record IsPaged {W : Type 0} (sys_readdir : ObjectRef → ℕ → ℕ → W → Reply Listed × W) (start : ℕ)
    (files : ObjectRef → List Dirent) : Type 0 where
  pub place : ℕ → ℕ
  pub next : ℕ → ℕ → ℕ
  pub at_start : place start ≡ 0
  pub at_next : (token n : ℕ) → place (next token n) ≡ place token + n
  pub answers :
      (ref : ObjectRef) (token n : ℕ) (w : W)
      → (sys_readdir ref token n w).0
        ≡ replied
            (record { dirents = take n (drop (place token) (files ref)); token = next token n })

unfoldable pub fold : (List ℕ → Dirent → List ℕ) → List ℕ → List Dirent → List ℕ
fold step buf [] = buf
fold step buf (d ∷ dirents) = fold step (step buf d) dirents

fold-append :
    (step : List ℕ → Dirent → List ℕ) (buf : List ℕ) (a b : List Dirent)
    → fold step buf (a ++ b) ≡ fold step (fold step buf a) b
unfolding fold
fold-append step buf [] b = refl
fold-append step buf (d ∷ a) b = fold-append step (step buf d) a b

-- The buffer with the entry of one more file.
abbrev pub with_entry : (List ℕ → ℕ → ℕ → List ℕ) → List ℕ → Dirent → List ℕ
with_entry fuse_add_direntry buf d =
    buf
    ++ fuse_add_direntry d.d_name d.handle (length buf + length (fuse_add_direntry d.d_name 0 0))

abbrev partition_ref : ℕ → Dirent → ObjectRef
partition_ref fsid d = record { handle = d.handle; fs_id = fsid }

-- The files in those of the entries that are partitions, in order.
unfoldable pub below : (ObjectRef → List Dirent) → ℕ → List Dirent → List Dirent
below files fsid [] = []
below files fsid (d ∷ dirents) =
    let rest = below files fsid dirents in
    if is_partition d.d_name then files (partition_ref fsid d) ++ rest else rest

module _ {W : Type 0} {sys_readdir : ObjectRef → ℕ → ℕ → W → Reply Listed × W} {start : ℕ}
    {files : ObjectRef → List Dirent} (paged : IsPaged sys_readdir start files) where
  -- A callback that goes on and changes the buffer as `step` says.
  Does : (List ℕ → Dirent → List ℕ) → (Dirent → Opening W → Outcome (Bool × Opening W)) → Type 0
  Does step callback =
      (d : Dirent) (s : Opening W)
      → (s' : Opening W) × (callback d s ≡ ok (false, s')) × (s'.buf ≡ step s.buf d)

  module _ (step : List ℕ → Dirent → List ℕ)
      (callback : Dirent → Opening W → Outcome (Bool × Opening W)) (does : Does step callback) where
    calls :
        (dirents : List Dirent) (s : Opening W)
        → (s' : Opening W) × (call_each callback dirents s ≡ ok s')
          × (s'.buf ≡ fold step s.buf dirents)
    unfolding call_each fold Does
    calls [] s = (s, refl, refl)
    calls (d ∷ dirents) s =
        let (s1, e, one) = does d s in
        let (s2, f, more) = calls dirents s1 in
        (s2, rw (e, f) refl, more ∙ ap (λ b. fold step b dirents) one)

    pages_join :
        (token n : ℕ) (ref : ObjectRef) (before after : List ℕ)
        → after ≡ fold step before (take n (drop (paged.place token) (files ref)))
        → fold step after (drop (paged.place (paged.next token n)) (files ref))
          ≡ fold step before (drop (paged.place token) (files ref))
    pages_join token n ref before after one =
        let rest = drop (paged.place token) (files ref) in
        ap (λ k. fold step after (drop k (files ref))) (paged.at_next token n)
        ∙ ap (fold step after) (sym (drop-drop (paged.place token) n (files ref)))
        ∙ ap (λ b. fold step b (drop n rest)) one
        ∙ sym (fold-append step before (take n rest) (drop n rest))
        ∙ ap (fold step before) (take-append-drop n rest)

    pages :
        (f : ℕ) (ref : ObjectRef) (token : ℕ) (s : Opening W)
        → length (files ref) < paged.place token + f
        → 0 < f
        → (s' : Opening W) × (read_pages (beside sys_readdir) start f callback ref token s
            ≡ ok (0, s'))
          × (s'.buf ≡ fold step s.buf (drop (paged.place token) (files ref)))
    unfolding read_pages beside
    pages zero ref token s enough some_f = elim some_f [ ]
    pages (suc f) ref token s enough some_f =
        let rest = drop (paged.place token) (files ref) in
        let read : Opening W = record s { world = (sys_readdir ref token 256 s.world).1 } in
        let (s1, e, one) = calls (take 256 rest) read in
        elim (Bool-cases (length (take 256 rest) == 256)) [
          | inl full ↦
              let many : 256 ≤ length rest = ground (arith, full, length-take 256 rest) in
              let (s2, g, more) =
                pages f ref (paged.next token 256) s1
                  (rw (paged.at_next token 256) (omega (arith, enough)))
                  (omega (arith, many, enough, length-drop (paged.place token) (files ref))) in
              (
                s2,
                rw (read_pages, paged.answers ref token 256 s.world, e, full, g) refl,
                more ∙ pages_join token 256 ref s.buf s1.buf one,
              )
          | inr short ↦ (
            s1,
            rw (read_pages, paged.answers ref token 256 s.world, e, short) refl,
            one
                ∙ ap (fold step s.buf)
                    (take_above 256 rest (ground (arith, short, length-take 256 rest))),
          )
        ]

module _ {W : Type 0} {sys_readdir : ObjectRef → ℕ → ℕ → W → Reply Listed × W} {start : ℕ}
    {files : ObjectRef → List Dirent} (paged : IsPaged sys_readdir start files)
    (fuse_add_direntry : List ℕ → ℕ → ℕ → List ℕ) (fsid rounds : ℕ)
    (enough : (ref : ObjectRef) → length (files ref) < rounds) where
  with_partition : List ℕ → Dirent → List ℕ
  with_partition buf d =
      if is_partition d.d_name
      then fold (with_entry fuse_add_direntry) buf (files (partition_ref fsid d))
      else buf

  adds :
      Does paged
        (with_entry fuse_add_direntry)
        (add_to_buf sys_readdir start fuse_add_direntry true fsid rounds)
  unfolding Does add_to_buf
  adds d s = (record s { buf = (with_entry fuse_add_direntry) s.buf d }, refl, refl)

  lists :
      (step : List ℕ → Dirent → List ℕ) (callback : Dirent → Opening W → Outcome (Bool × Opening W))
      → Does paged step callback
      → (ref : ObjectRef) (s : Opening W)
      → (s' : Opening W) × (pvfs_readdir (beside sys_readdir) start rounds callback ref s
          ≡ ok (0, s'))
        × (s'.buf ≡ fold step s.buf (files ref))
  unfolding pvfs_readdir
  lists step callback does ref s =
      let (s', e, b) =
        pages paged step callback does rounds ref start s
          (rw (paged.at_start) (omega (arith, enough ref))) (omega (arith, enough ref)) in
      (s', e, b ∙ ap (λ k. fold step s.buf (drop k (files ref))) paged.at_start)

  recurses :
      Does paged with_partition (recurse sys_readdir start fuse_add_direntry true fsid rounds)
  unfolding Does recurse with_partition
  recurses d s = elim (Bool-cases (is_partition d.d_name)) [
    | inl goes_in ↦
        let (s', e, b) = lists _ _ adds (partition_ref fsid d) s in
        (s', rw (goes_in, e) refl, rw goes_in b)
    | inr other ↦ (s, rw other refl, rw other refl)
  ]

  fold-below :
      (buf : List ℕ) (dirents : List Dirent)
      → fold with_partition buf dirents
        ≡ fold (with_entry fuse_add_direntry) buf (below files fsid dirents)
  unfolding fold below with_partition
  fold-below buf [] = refl
  fold-below buf (d ∷ dirents) = elim (Bool-cases (is_partition d.d_name)) [
    | inl goes_in ↦
        rw (below, goes_in)
          (fold-below (fold (with_entry fuse_add_direntry) buf (files (partition_ref fsid d)))
              dirents
            ∙ sym (
                fold-append (with_entry fuse_add_direntry) buf (files (partition_ref fsid d))
                  (below files fsid dirents)))
    | inr other ↦ rw (below, other) (fold-below buf dirents)
  ]

  -- If PVFS lists directories by position, each with fewer entries than the rounds of the loops,
  -- and realloc succeeds, skye_ll_opendir returns, without a fault, a buffer with the entries of
  -- the partitions of the directory, one partition after the other, and no others; an entry
  -- follows the bytes of those before it.
  pub skye_ll_opendir_lem :
      (ref : ObjectRef) (w : W)
      → (s : Opening W) × (skye_ll_opendir sys_readdir start fuse_add_direntry true fsid rounds ref
            w
          ≡ ok s)
        × (s.buf ≡ fold (with_entry fuse_add_direntry) [] (below files fsid (files ref)))
  unfolding skye_ll_opendir
  skye_ll_opendir_lem ref w =
      let (s, e, b) = lists _ _ recurses ref (record { buf = []; world = w }) in
      (s, rw e refl, b ∙ fold-below [] (files ref))
