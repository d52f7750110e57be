-- ===== src/System/CreateCalls.antt =====
-- client/operations.c and server/handlers.c together: the calls of a client that creates a file, at
-- servers that have the directory while it rests.
use mathlib.Core.Path.{subst}
use skyefs.Prelude.{
  ℕ, ◌<◌, ◌≡◌, refl, ap, sym, ◌∙◌, arith, true, false, Bool-cases, inl, inr, ◌==◌, List, ok,
}
use skyefs.Rpc.{ObjectRef, SkyeLookup, Credentials, Call, ref, returned, enoent}
use skyefs.Giga.Mapping.{GigaMapping}
use skyefs.Giga.Hash.RoundTrip.{IsDigest}
use skyefs.Giga.Hash.Suffix.{number}
use skyefs.Giga.Tree.{locate}
use skyefs.Giga.Servers.{giga_get_server_for_index-lt}
use skyefs.Server.Directory.{Pvfs, pvfs_error}
use skyefs.Server.Handlers.{Setup}
use skyefs.Client.Retry.{Answer}
use skyefs.Client.Operations.{Services, read_lookup}
use skyefs.Cluster.{Cluster}
use skyefs.System.Resting.{
  IsResting, ReadyWith, put-Ready, table, place, index_at, member, seen, right_place,
}
use skyefs.System.Calls.{IsServed, answer_at}
use skyefs.System.{
  Files, System, state_of, memory_of, with_state, with_file, Delivers, IsStore, IsCreating, Holds,
}
use skyefs.System.Creating.{made, grown, skye_rpc_create_lem}

read_made :
    (s t : ℕ) (m : GigaMapping) (object : ObjectRef)
    → read_lookup (returned (made s t m object)) ≡ answer_at s t m (returned (ref object))
unfolding read_lookup
read_made s t m object = elim (Bool-cases (t == s)) [
  | inl mine ↦ rw mine refl
  | inr other ↦ rw other refl
]

module _ {V : Type 0} (shahash : List ℕ → List ℕ) (setups : ℕ → Setup) {pvfs : Pvfs V}
    (services : Services (System V)) {parent : ObjectRef} {bucket_of : ℕ → ℕ} {contents : V → Files}
    {first : ℕ} {σ : Cluster} (q : IsResting first services.servercount σ)
    (delivers : Delivers shahash setups pvfs services)
    (store_of : IsStore pvfs parent σ.all bucket_of contents)
    (creating : IsCreating pvfs parent σ.all bucket_of contents) (creds : Credentials)
    (name : List ℕ) (mode : ℕ) (d : IsDigest (shahash name)) (files : Files)
    (absent : files (locate σ.all 9 (number (shahash name))) name ≡ pvfs_error enoent) where
  unfoldable pub stub : ℕ → System V → Answer (Call SkyeLookup) × System V
  stub s sys =
      let (c, sys') = services.rpc_create s creds parent name mode sys in (read_lookup c, sys')

  -- The file is made in the partition where the name belongs, and nothing else has changed.
  abbrev pub Result : Call SkyeLookup → System V → Type 0
  Result a next =
      (object : ObjectRef) × (a ≡ returned (ref object))
      × ReadyWith parent bucket_of σ services.servercount contents
          (with_file files (locate σ.all 9 (number (shahash name))) name object) next

  pub serves :
      (s : ℕ) (sys : System V)
      → ReadyWith parent bucket_of σ services.servercount contents files sys
      → s < services.servercount
      → IsServed q shahash name d stub
          (ReadyWith parent bucket_of σ services.servercount contents files)
          Result
          s
          sys
  unfolding stub
  serves s sys (ready, same) lt =
      let t = table q s in
      let r = place q shahash name d s in
      let (there, at, _) = giga_get_server_for_index-lt (σ.tables s) t.usable.served r in
      let named = delivers.numbered s in
      let holds =
        subst
          (λ n.
            Holds parent σ.all bucket_of (σ.tables s) n (sys.memory s).heap (sys.memory s).queue)
          (sym named) (ready s lt) in
      let (after, is) =
        skye_rpc_create_lem shahash (setups s) store_of creating (delivers.memory s) t.usable
          (λ i e. omega (arith, q.few i e, t.servers)) (λ i e. q.small i (t.known i e))
          (λ i e. omega (arith, q.small i e, t.start, q.near)) creds name mode
          (index_at q shahash name d s) (member q shahash name d s) (seen q shahash name d s) at
          (state_of s sys)
          (λ here.
            ap (λ (f : Files). f r name) same
            ∙ ap (λ i. files i name) (right_place q shahash name d s (at ∙ ap ok (here ∙ named)))
            ∙ absent)
          holds in
      let next = with_state s after sys in
      let ready' = put-Ready σ sys.memory s (memory_of after) ready (
        subst (λ n. Holds parent σ.all bucket_of (σ.tables s) n after.heap after.queue) named
          is.holds) in
      let files_then : contents next.disk ≡ grown s there files r name is.object =
        is.files
        ∙ ap (λ n. grown n there (contents sys.disk) r name is.object) named
        ∙ ap (λ f. grown s there f r name is.object) same in
      record {
        there = there;
        at = at;
        value = returned (ref is.object);
        next = next;
        answer =
            ap (λ (x : Call SkyeLookup × System V). (read_lookup x.0, x.1))
              (delivers.creates s creds parent name mode sys _ after is.ran)
            ∙ ap (λ n. (read_lookup (returned (made n there (σ.tables s) is.object)), next)) named
            ∙ ap (λ x. (x, next)) (read_made s there (σ.tables s) is.object);
        kept = λ away.
            let other : (there == s) ≡ false = ground (arith, away) in
            (ready', files_then ∙ rw other refl);
        done = λ here.
            let mine : (there == s) ≡ true = ground (arith, here) in
            (
              is.object,
              refl,
              (
                ready',
                files_then
                    ∙ rw mine refl
                    ∙ ap (λ i. with_file files i name is.object)
                        (right_place q shahash name d s (at ∙ ap ok here)),
              ),
            );
      }
