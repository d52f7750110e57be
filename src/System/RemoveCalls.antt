-- ===== src/System/RemoveCalls.antt =====
-- client/operations.c and server/handlers.c together: the calls of a client that removes a file, at
-- servers that have the directory while it rests.
use mathlib.Core.Path.{subst}
use skyefs.Prelude.{
  ℕ, ◌<◌, ◌≡◌, refl, ap, sym, ◌∙◌, arith, true, false, Bool-cases, inl, inr, ◌==◌, List, ok,
}
use skyefs.Rpc.{ObjectRef, SkyeResult, Credentials, Call, status, returned}
use skyefs.Giga.Mapping.{GigaMapping}
use skyefs.Giga.Hash.RoundTrip.{IsDigest}
use skyefs.Giga.Hash.Suffix.{number}
use skyefs.Giga.Tree.{locate}
use skyefs.Giga.Servers.{giga_get_server_for_index-lt}
use skyefs.Server.Directory.{Pvfs, at_ref}
use skyefs.Server.Handlers.{Setup}
use skyefs.Client.Retry.{Answer}
use skyefs.Client.Operations.{Services, read_result}
use skyefs.Cluster.{Cluster}
use skyefs.System.Resting.{
  IsResting, ReadyWith, put-Ready, table, place, index_at, seen, right_place,
}
use skyefs.System.Calls.{IsServed, answer_at}
use skyefs.System.{
  Files, System, state_of, memory_of, with_state, without_file, Delivers, IsStore, IsRemoving,
  DeliversRemoves, Holds,
}
use skyefs.System.Removing.{gone, left, skye_rpc_remove_lem}

read_gone :
    (s t : ℕ) (m : GigaMapping)
    → read_result (returned (gone s t m)) ≡ answer_at s t m (returned (status 0))
unfolding read_result
read_gone s t m = elim (Bool-cases (t == s)) [ inl mine ↦ rw mine refl | inr other ↦ rw other refl ]

module _ {V : Type 0} (shahash : List ℕ → List ℕ) (setups : ℕ → Setup) {pvfs : Pvfs V}
    (services : Services (System V)) {parent : ObjectRef} {bucket_of : ℕ → ℕ} {contents : V → Files}
    {first : ℕ} {σ : Cluster} (q : IsResting first services.servercount σ)
    (delivers : Delivers shahash setups pvfs services)
    (store_of : IsStore pvfs parent σ.all bucket_of contents) {readdir_error : ℕ}
    {rpc_bucket_remove : ℕ → Credentials → ObjectRef → ℕ → V → Call ℕ × V}
    (removes : DeliversRemoves shahash setups pvfs services readdir_error rpc_bucket_remove)
    {object : ObjectRef} (removing : IsRemoving pvfs parent σ.all bucket_of contents object)
    (creds : Credentials) (name : List ℕ) (d : IsDigest (shahash name)) (files : Files)
    (present : files (locate σ.all 9 (number (shahash name))) name ≡ at_ref object) where
  unfoldable pub stub : ℕ → System V → Answer (Call SkyeResult) × System V
  stub s sys = let (c, sys') = services.rpc_remove s creds parent name sys in (read_result c, sys')

  -- The file is removed from the partition where the name belongs, and nothing else has changed.
  abbrev pub Result : Call SkyeResult → System V → Type 0
  Result a next =
      (a ≡ returned (status 0))
      × ReadyWith parent bucket_of σ services.servercount contents
          (without_file files (locate σ.all 9 (number (shahash name))) name) next

  pub serves :
      (s : ℕ) (sys : System V)
      → ReadyWith parent bucket_of σ services.servercount contents files sys
      → s < services.servercount
      → IsServed q shahash name d stub
          (ReadyWith parent bucket_of σ services.servercount contents files)
          Result
          s
          sys
  unfolding stub
  serves s sys (ready, same) lt =
      let t = table q s in
      let r = place q shahash name d s in
      let (there, at, _) = giga_get_server_for_index-lt (σ.tables s) t.usable.served r in
      let named = delivers.numbered s in
      let holds =
        subst
          (λ n.
            Holds parent σ.all bucket_of (σ.tables s) n (sys.memory s).heap (sys.memory s).queue)
          (sym named) (ready s lt) in
      let (after, is) =
        skye_rpc_remove_lem shahash (setups s) readdir_error rpc_bucket_remove store_of removing
          (σ.tables s) t.usable.served (λ i e. omega (arith, q.few i e, t.servers))
          (λ i e. omega (arith, q.small i e, t.start, q.near)) creds name r there
          (index_at q shahash name d s) (seen q shahash name d s) at (state_of s sys)
          (λ here.
            ap (λ (f : Files). f r name) same
            ∙ ap (λ i. files i name) (right_place q shahash name d s (at ∙ ap ok (here ∙ named)))
            ∙ present)
          holds in
      let next = with_state s after sys in
      let ready' = put-Ready σ sys.memory s (memory_of after) ready (
        subst (λ n. Holds parent σ.all bucket_of (σ.tables s) n after.heap after.queue) named
          is.holds) in
      let files_then : contents next.disk ≡ left s there files r name =
        is.files
        ∙ ap (λ n. left n there (contents sys.disk) r name) named
        ∙ ap (λ f. left s there f r name) same in
      record {
        there = there;
        at = at;
        value = returned (status 0);
        next = next;
        answer =
            ap (λ (x : Call SkyeResult × System V). (read_result x.0, x.1))
              (removes.removes s creds parent name sys _ after is.ran)
            ∙ ap (λ n. (read_result (returned (gone n there (σ.tables s))), next)) named
            ∙ ap (λ x. (x, next)) (read_gone s there (σ.tables s));
        kept = λ away.
            let other : (there == s) ≡ false = ground (arith, away) in
            (ready', files_then ∙ rw other refl);
        done = λ here.
            let mine : (there == s) ≡ true = ground (arith, here) in
            (
              refl,
              (
                ready',
                files_then
                    ∙ rw mine refl
                    ∙ ap (λ i. without_file files i name)
                        (right_place q shahash name d s (at ∙ ap ok here)),
              ),
            );
      }
