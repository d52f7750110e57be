-- ===== src/Server/Bucket/Entering.antt =====
-- server/handlers.c: the answers of `enter_bucket`, during a split and otherwise.
use mathlib.Core.Path.{subst}
use skyefs.Prelude.{
  ℕ, ◌<◌, ◌≡◌, ◌≢◌, ◌==◌, refl, sym, ap, ◌∙◌, arith, true, false, if◌then◌else◌, Bool-cases, inl,
  inr, List, Option, Outcome, Bool, fault, >>=-eq-ok, some, ok, ◌>>=◌,
}
use skyefs.Rpc.{ObjectRef, Credentials}
use skyefs.Giga.Mapping.{GigaMapping, giga_get_server_for_index, giga_update_mapping}
use skyefs.Giga.Mapping.Invariant.{partitions, IsValid, IsBounded}
use skyefs.Giga.Hash.RoundTrip.{IsDigest}
use skyefs.Giga.Index.{
  giga_get_index_for_file, giga_get_server_for_file, giga_index_for_splitting,
  giga_file_migration_status,
}
use skyefs.Giga.Split.{split_moves}
use skyefs.Server.Directory.{SkyeDirectory, Pvfs, PvfsLookup, at_ref, pvfs_error}
use skyefs.Server.Bucket.{
  Entered, redirect, bucket, refused, enter_whole, get_partition_handle, enter_bucket, entered,
  is_splitting, enter_split,
}

-- Both branches of a decision about a name, before and after.
chosen_index :
    {A : Type 0} (moves : Outcome Bool) (c p : ℕ) (f : ℕ → Outcome A)
    → (moves >>= λ b. f (if b then c else p)) ≡ (moves >>= λ b. if b then ok c else ok p) >>= f
chosen_index (fault e) c p f = refl
chosen_index (ok true) c p f = refl
chosen_index (ok false) c p f = refl

is_splitting-some : (o : Option ℕ) (p : ℕ) → o ≡ some p → is_splitting o p ≡ true
unfolding is_splitting
is_splitting-some o p e = rw e (ground arith)

is_redirect : Entered → Bool
is_redirect (redirect t) = true
is_redirect (bucket r) = false
is_redirect (refused e) = false

entered-stays : (x : PvfsLookup) → is_redirect (entered x) ≡ false
unfolding entered is_redirect
entered-stays (at_ref r) = refl
entered-stays (pvfs_error e) = refl

redirects : {W : Type 0} → Outcome (Entered × SkyeDirectory × W) → Bool
unfolding is_redirect
redirects (ok r) = is_redirect r.0
redirects (fault f) = false

ok-injective : {A : Type 0} {a b : A} → ok a ≡ ok b → a ≡ b
ok-injective e = cc

module _ {W : Type 0} (shahash : List ℕ → List ℕ) (servernum : ℕ) (pvfs : Pvfs W)
    (creds : Credentials) (dir : SkyeDirectory) (name : List ℕ) (handle : ObjectRef) (w : W) where
  -- For a valid table with all partitions below 512, a partition p of this server that is being
  -- split, of which giga_index_for_splitting makes c < 512, and a name whose digest is 20 bytes
  -- and that is looked up in p: enter_bucket looks for the partition where
  -- giga_get_index_for_file finds the name once giga_update_mapping has added c, and leaves the
  -- directory as it is.
  pub enter_bucket-split :
      {p c : ℕ} {m' : GigaMapping}
      → (v : IsValid dir.mapping) → IsDigest (shahash name)
      → IsBounded dir.mapping 512
      → partitions dir.mapping p ≡ true
      → dir.splitting_index ≡ some p
      → giga_get_index_for_file shahash dir.mapping name ≡ ok p
      → giga_get_server_for_index dir.mapping p ≡ ok servernum
      → giga_index_for_splitting dir.mapping p ≡ ok c
      → c < 512
      → giga_update_mapping dir.mapping c ≡ ok m'
      → enter_bucket shahash servernum pvfs creds dir name handle w ≡ (
          giga_get_index_for_file shahash m' name >>= λ index.
          let (reply, w') = pvfs.ref_lookup creds handle (pvfs.partition_name index) w in
          ok (entered reply, dir, w'))
  unfolding enter_bucket enter_split
  enter_bucket-split {p} {c} {m'} v d bounded mem splitting at_p here chosen small updated =
      let after = split_moves v p c mem chosen shahash name d small m' updated bounded in
      let mine : (servernum == servernum) ≡ true = ground arith in
      let in_split = is_splitting-some dir.splitting_index p splitting in
      rw (after, at_p, here, in_split, mine, chosen)
        (chosen_index (giga_file_migration_status shahash name c) c p (λ index. ok (
          entered (pvfs.ref_lookup creds handle (pvfs.partition_name index) w).0,
          dir,
          (pvfs.ref_lookup creds handle (pvfs.partition_name index) w).1,
        )))

  -- A name of another server.
  pub enter_bucket-redirect :
      {other : ℕ}
      → giga_get_server_for_file shahash dir.mapping name ≡ ok other
      → other ≢ servernum
      → enter_bucket shahash servernum pvfs creds dir name handle w
        ≡ ok (redirect dir.mapping, dir, w)
  unfolding enter_bucket giga_get_server_for_file
  enter_bucket-redirect {other} e ne =
      let (index, at_index, at_server) =
        >>=-eq-ok (giga_get_index_for_file shahash dir.mapping name) _ e in
      let differs : (other == servernum) ≡ false = ground arith in
      rw (at_index, at_server, differs) refl

  -- Why a server answers as it does: its own table is its reason.
  abbrev pub IsRight : Entered → Type 0
  IsRight (redirect t) =
      (t ≡ dir.mapping) × (giga_get_server_for_file shahash t name ≢ ok servernum)
  IsRight (bucket r) = giga_get_server_for_file shahash dir.mapping name ≡ ok servernum
  IsRight (refused e) = giga_get_server_for_file shahash dir.mapping name ≡ ok servernum

  IsRight-here :
      (x : Entered)
      → is_redirect x ≡ false
      → giga_get_server_for_file shahash dir.mapping name ≡ ok servernum
      → IsRight x
  unfolding is_redirect
  IsRight-here (redirect t) stays here = absurd (ground (arith, stays))
  IsRight-here (bucket r) stays here = here
  IsRight-here (refused e) stays here = here

  enter_split-stays :
      (index : ℕ) {r : Entered × SkyeDirectory × W}
      → enter_split shahash servernum pvfs creds dir name handle index w ≡ ok r
      → is_redirect r.0 ≡ false
  unfolding enter_split redirects
  enter_split-stays index e =
      let (cindex, _, e1) = >>=-eq-ok (giga_index_for_splitting dir.mapping index) _ e in
      let (moves, _, e2) = >>=-eq-ok (giga_file_migration_status shahash name cindex) _ e1 in
      ap redirects (sym e2) ∙ entered-stays _

  enter_whole-stays :
      (index : ℕ) {r : Entered × SkyeDirectory × W}
      → enter_whole shahash servernum pvfs creds dir index w ≡ ok r
      → is_redirect r.0 ≡ false
  unfolding enter_whole is_redirect redirects
  enter_whole-stays index e =
      let (got, _, e1) =
        >>=-eq-ok (get_partition_handle shahash servernum pvfs creds dir index w) _ e in
      ap redirects (sym e1)

  decide :
      (index server : ℕ) {r : Entered × SkyeDirectory × W}
      → giga_get_server_for_file shahash dir.mapping name ≡ ok server
      → (if server == servernum
          then if is_splitting dir.splitting_index index
            then enter_split shahash servernum pvfs creds dir name handle index w
            else enter_whole shahash servernum pvfs creds dir index w
          else ok (redirect dir.mapping, dir, w))
        ≡ ok r
      → IsRight r.0
  decide index server at_server e = elim (Bool-cases (server == servernum)) [
    | inl mine ↦
        let same : server ≡ servernum = ground (arith, mine) in
        elim (Bool-cases (is_splitting dir.splitting_index index)) [
          | inl in_split ↦
              IsRight-here _ (enter_split-stays index (rw (mine, in_split) at e))
                (rw (← same) at_server)
          | inr whole ↦
              IsRight-here _ (enter_whole-stays index (rw (mine, whole) at e))
                (rw (← same) at_server)
        ]
    | inr other ↦
        subst (λ (t : Entered × SkyeDirectory × W). IsRight t.0) (ok-injective (rw other at e))
          (refl, λ h. let q : server ≡ servernum = cc in ground (arith, q, other))
  ]

  -- If enter_bucket ends without a fault, a redirection carries the table of the directory, which
  -- does not put the name on this server, and any other result means that the table puts the name
  -- on this server.
  pub enter_bucket-IsRight :
      {r : Entered × SkyeDirectory × W}
      → enter_bucket shahash servernum pvfs creds dir name handle w ≡ ok r
      → IsRight r.0
  unfolding enter_bucket giga_get_server_for_file
  enter_bucket-IsRight e =
      let (index, at_index, e1) =
        >>=-eq-ok (giga_get_index_for_file shahash dir.mapping name) _ e in
      let (server, at_server, e2) = >>=-eq-ok (giga_get_server_for_index dir.mapping index) _ e1 in
      decide index server (rw at_index at_server) e2
