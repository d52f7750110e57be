-- ===== src/Server/Cache/Filling.antt =====
-- server/cache.c: how the table of a directory is read from PVFS.
use skyefs.Prelude.{
  ℕ, zero, suc, ◌+◌, ◌-◌, ◌≤◌, ◌<◌, ◌≡◌, refl, ap, ◌∙◌, sym, arith, List, [], ◌∷◌, ◌++◌, length,
  take, drop, Bool, true, false, ◌==◌, ◌||◌, if◌then◌else◌, Bool-cases, ◌⊎◌, inl, inr, Option, none,
  some, ok, length-take, length-drop, take-append-drop, take_above, drop-drop,
}
use mathlib.Core.Path.{subst}
use skyefs.Rpc.{ObjectRef}
use skyefs.Giga.Bitmap.Members.{capacity}
use skyefs.Giga.Mapping.{GigaMapping}
use skyefs.Giga.Mapping.Invariant.{partitions, IsUsable}
use skyefs.Giga.Update.{SameServers, giga_update_mapping_lem}
use skyefs.Server.Directory.{position}
use skyefs.Server.Cache.{fill_entries, fill_bitmap}

Option-cases : {A : Type 0} (x : Option A) → (x ≡ none) ⊎ ((a : A) × (x ≡ some a))
Option-cases none = inl refl
Option-cases (some a) = inr (a, refl)

abbrev reads_as : Option ℕ → ℕ → Bool
reads_as none i = false
reads_as (some index) i = index == i

module _ (sscanf_index : List ℕ → Option ℕ) where
  -- Whether one of the names is that of partition i.
  unfoldable pub lists : List (List ℕ) → ℕ → Bool
  lists [] i = false
  lists (name ∷ names) i = reads_as (sscanf_index name) i || lists names i

  lists-append : (a b : List (List ℕ)) (i : ℕ) → lists (a ++ b) i ≡ (lists a i || lists b i)
  unfolding lists
  lists-append [] b i = refl
  lists-append (name ∷ a) b i = ground (arith, lists-append a b i)

  lists-pages :
      (n k : ℕ) (names : List (List ℕ)) (i : ℕ)
      → lists (drop k names) i ≡ (lists (take n (drop k names)) i || lists (drop (k + n) names) i)
  lists-pages n k names i =
      ap (λ l. lists l i) (sym (take-append-drop n (drop k names)))
      ∙ lists-append (take n (drop k names)) (drop n (drop k names)) i
      ∙ ap (λ l. lists (take n (drop k names)) i || lists l i) (drop-drop k n names)

  lists-drop :
      (k : ℕ) (names : List (List ℕ)) (i : ℕ) → lists (drop k names) i ≡ true → lists names i ≡ true
  lists-drop k names i h =
      ap (λ l. lists l i) (sym (take-append-drop k names))
      ∙ lists-append (take k names) (drop k names) i
      ∙ rw h (ground arith)

  abbrev pub Fits : List (List ℕ) → Type 0
  Fits names = (i : ℕ) → lists names i ≡ true → i < capacity

  -- The table `m` with the partitions that the names list.
  pub record IsFilled (m : GigaMapping) (names : List (List ℕ)) (m' : GigaMapping) : Type 0 where
    pub usable : IsUsable m'
    pub filled : (i : ℕ) → partitions m' i ≡ (partitions m i || lists names i)
    pub servers : SameServers m m'

IsFilled-pages :
    (sscanf_index : List ℕ → Option ℕ) (k n : ℕ) (names : List (List ℕ)) {m m1 m' : GigaMapping}
    → IsFilled sscanf_index m (take n (drop k names)) m1
    → IsFilled sscanf_index m1 (drop (k + n) names) m'
    → IsFilled sscanf_index m (drop k names) m'
IsFilled-pages sscanf_index k n names one after = record {
  usable = after.usable;
  filled = λ i. ground (arith, one.filled i, after.filled i, lists-pages sscanf_index n k names i);
  servers = (after.servers.0 ∙ one.servers.0, after.servers.1 ∙ one.servers.1);
}

-- The token of the next call, after n entries.
abbrev next_token : ℕ → ℕ → ℕ
next_token token n = if token == 0 then n - 1 else token + n

position-next_token : (token n : ℕ) → n ≡ 32 → position (next_token token n) ≡ position token + 32
unfolding position
position-next_token token n e = ground arith

module _ {W : Type 0} (readdir : ObjectRef → ℕ → ℕ → W → Option (List (List ℕ)) × W)
    (sscanf_index : List ℕ → Option ℕ) where
  fill_entries_lem :
      (names : List (List ℕ)) {m : GigaMapping}
      → IsUsable m
      → Fits sscanf_index names
      → (m' : GigaMapping) × (fill_entries readdir sscanf_index names m ≡ ok m')
        × IsFilled sscanf_index m names m'
  unfolding fill_entries lists
  fill_entries_lem [] {m} v fits =
      (m, refl, record { usable = v; filled = λ i. ground arith; servers = (refl, refl) })
  fill_entries_lem (name ∷ names) {m} v fits = elim (Option-cases (sscanf_index name)) [
    | inl e ↦
        let (m', run, f) = fill_entries_lem names v (λ i h. fits i (rw (e, h) (ground arith))) in
        (
          m',
          rw (fill_entries, e, run) refl,
          record { usable = f.usable; filled = λ i. rw e (f.filled i); servers = f.servers },
        )
    | inr (index, e) ↦
        let (m1, one, bits, adds, same) =
          giga_update_mapping_lem v index (fits index (rw (e) (ground arith))) in
        let v1 : IsUsable m1 = record {
          bits = bits;
          root = ground (arith, adds 0, v.root);
          served = rw (same.1) v.served;
        } in
        let (m', run, f) = fill_entries_lem names v1 (λ i h. fits i (rw (e, h) (ground arith))) in
        (
          m',
          rw (fill_entries, e, one, run) refl,
          record {
            usable = f.usable;
            filled = λ i.
                rw e
                  (f.filled i ∙ ap (λ b. b || lists sscanf_index names i) (adds i) ∙ ground arith);
            servers = (f.servers.0 ∙ same.0, f.servers.1 ∙ same.1);
          },
        )
  ]

  -- One round of the loop over a reply with this page of names.
  module _ {handle : ObjectRef} {page : List (List ℕ)} (f token : ℕ) (m : GigaMapping)
      {m1 : GigaMapping} (w : W) (read : (readdir handle token 32 w).0 ≡ some page)
      (added : fill_entries readdir sscanf_index page m ≡ ok m1) where
    fill_bitmap-full :
        (length page == 32) ≡ true
        → fill_bitmap readdir sscanf_index (suc f) token handle m w
          ≡ fill_bitmap readdir sscanf_index f
              (next_token token (length page))
              handle
              m1
              (readdir handle token 32 w).1
    unfolding fill_bitmap
    fill_bitmap-full full = rw (fill_bitmap, read, added, full) refl

    fill_bitmap-short :
        (length page == 32) ≡ false
        → fill_bitmap readdir sscanf_index (suc f) token handle m w
          ≡ ok (m1, (readdir handle token 32 w).1)
    unfolding fill_bitmap
    fill_bitmap-short short = rw (fill_bitmap, read, added, short) refl

  module _ (handle : ObjectRef) (names : List (List ℕ))
      (paged : (token n : ℕ) (w : W)
        → (readdir handle token n w).0 ≡ some (take n (drop (position token) names)))
      (fits : Fits sscanf_index names) where
    pub fill_bitmap_lem :
        (f token : ℕ) {m : GigaMapping} (w : W)
        → IsUsable m
        → length names < position token + f
        → 0 < f
        → (m' : GigaMapping) × (w' : W) × (fill_bitmap readdir sscanf_index f token handle m w
            ≡ ok (m', w'))
          × IsFilled sscanf_index m (drop (position token) names) m'
    unfolding fill_bitmap
    fill_bitmap_lem zero token w v enough some_f = elim some_f [ ]
    fill_bitmap_lem (suc f) token {m} w v enough some_f =
        let rest = drop (position token) names in
        let page = take 32 rest in
        let w1 = (readdir handle token 32 w).1 in
        let split = lists-pages sscanf_index 32 (position token) names in
        let inside = λ (i : ℕ) (h : lists sscanf_index rest i ≡ true).
          fits i (lists-drop sscanf_index (position token) names i h) in
        let (m1, e, one) =
          fill_entries_lem page v (λ i h. inside i (rw (split i, h) (ground arith))) in
        elim (Bool-cases (length page == 32)) [
          | inl full ↦
              let token' = next_token token (length page) in
              let moved : position token' ≡ position token + 32 =
                position-next_token token (length page) (ground (arith, full)) in
              let many : 32 ≤ length rest = ground (arith, full, length-take 32 rest) in
              let (m', w', more, after) =
                fill_bitmap_lem f token' w1 one.usable (rw moved (omega (arith, enough)))
                  (omega (arith, many, enough, length-drop (position token) names)) in
              (
                m',
                w',
                fill_bitmap-full f token m w (paged token 32 w) e full ∙ more,
                IsFilled-pages sscanf_index (position token) 32 names one
                    (subst (λ k. IsFilled sscanf_index m1 (drop k names) m') moved after),
              )
          | inr short ↦ (
            m1,
            w1,
            fill_bitmap-short f token m w (paged token 32 w) e short,
            subst (λ l. IsFilled sscanf_index m l m1)
                (take_above 32 rest (ground (arith, short, length-take 32 rest))) one,
          )
        ]
