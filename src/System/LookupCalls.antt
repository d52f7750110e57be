-- ===== src/System/LookupCalls.antt =====
-- client/operations.c and server/handlers.c together: the calls of a client that looks a name up, at
-- servers that have the directory while it rests.
use mathlib.Core.Path.{subst}
use skyefs.Prelude.{ℕ, ◌<◌, ◌≡◌, refl, ap, sym, ◌∙◌, arith, Bool-cases, inl, inr, ◌==◌, List, ok}
use skyefs.Rpc.{ObjectRef, SkyeLookup, Credentials, Call, returned}
use skyefs.Giga.Mapping.{GigaMapping}
use skyefs.Giga.Hash.RoundTrip.{IsDigest}
use skyefs.Giga.Hash.Suffix.{number}
use skyefs.Giga.Tree.{locate}
use skyefs.Giga.Servers.{giga_get_server_for_index-lt}
use skyefs.Server.Directory.{Pvfs, PvfsLookup, at_ref, pvfs_error}
use skyefs.Server.Handlers.{Setup}
use skyefs.Server.Handlers.Procedures.{lookup_result}
use skyefs.Client.Retry.{Answer, final}
use skyefs.Client.Operations.{Services, read_lookup}
use skyefs.Cluster.{Cluster}
use skyefs.System.Resting.{
  IsResting, ReadyWith, put-Ready, table, place, index_at, seen, right_place,
}
use skyefs.System.{Files, System, state_of, memory_of, with_state, Delivers, IsStore, Holds}
use skyefs.System.Calls.{IsServed, answer_at}
use skyefs.System.Serving.{expected, skye_rpc_lookup_lem}

read_result :
    (x : PvfsLookup) → read_lookup (returned (lookup_result x)) ≡ final (returned (lookup_result x))
unfolding read_lookup lookup_result
read_result (at_ref r) = refl
read_result (pvfs_error e) = refl

read_expected :
    (s : ℕ) (files : Files) (m : GigaMapping) (name : List ℕ) (r t : ℕ)
    → read_lookup (returned (expected s files m name r t))
      ≡ answer_at s t m (returned (lookup_result (files r name)))
unfolding read_lookup
read_expected s files m name r t = elim (Bool-cases (t == s)) [
  | inl mine ↦ rw mine (read_result (files r name))
  | inr other ↦ rw other refl
]

module _ {V : Type 0} (shahash : List ℕ → List ℕ) (setups : ℕ → Setup) {pvfs : Pvfs V}
    (services : Services (System V)) {parent : ObjectRef} {bucket_of : ℕ → ℕ} {contents : V → Files}
    {first : ℕ} {σ : Cluster} (q : IsResting first services.servercount σ)
    (delivers : Delivers shahash setups pvfs services)
    (store_of : IsStore pvfs parent σ.all bucket_of contents) (creds : Credentials) (name : List ℕ)
    (d : IsDigest (shahash name)) (files : Files) where
  unfoldable pub stub : ℕ → System V → Answer (Call SkyeLookup) × System V
  stub s sys = let (c, sys') = services.rpc_lookup s creds parent name sys in (read_lookup c, sys')

  -- The reply of the partition where the name belongs, and nothing has changed.
  abbrev pub Result : Call SkyeLookup → System V → Type 0
  Result a next =
      (a ≡ returned (lookup_result (files (locate σ.all 9 (number (shahash name))) name)))
      × ReadyWith parent bucket_of σ services.servercount contents files next

  pub serves :
      (s : ℕ) (sys : System V)
      → ReadyWith parent bucket_of σ services.servercount contents files sys
      → s < services.servercount
      → IsServed q shahash name d stub
          (ReadyWith parent bucket_of σ services.servercount contents files)
          Result
          s
          sys
  unfolding stub
  serves s sys (ready, same) lt =
      let t = table q s in
      let r = place q shahash name d s in
      let (there, at, _) = giga_get_server_for_index-lt (σ.tables s) t.usable.served r in
      let named = delivers.numbered s in
      let holds =
        subst
          (λ n.
            Holds parent σ.all bucket_of (σ.tables s) n (sys.memory s).heap (sys.memory s).queue)
          (sym named) (ready s lt) in
      let (after, ran, held, kept) =
        skye_rpc_lookup_lem shahash (setups s) store_of t.usable.served
          (λ i e. omega (arith, q.few i e, t.servers))
          (λ i e. omega (arith, q.small i e, t.start, q.near)) creds name
          (index_at q shahash name d s) (seen q shahash name d s) at (state_of s sys) holds in
      let next = with_state s after sys in
      let good : ReadyWith parent bucket_of σ services.servercount contents files next = (
        put-Ready σ sys.memory s (memory_of after) ready (
            subst (λ n. Holds parent σ.all bucket_of (σ.tables s) n after.heap after.queue) named
              held),
        kept ∙ same,
      ) in
      record {
        there = there;
        at = at;
        value = returned (lookup_result (files r name));
        next = next;
        answer =
            ap (λ (x : Call SkyeLookup × System V). (read_lookup x.0, x.1))
              (delivers.lookups s creds parent name sys _ after ran)
            ∙ ap
                (λ n. (
                  read_lookup (returned (expected n (contents sys.disk) (σ.tables s) name r there)),
                  next,
                ))
                named
            ∙ ap (λ f. (read_lookup (returned (expected s f (σ.tables s) name r there)), next)) same
            ∙ ap (λ x. (x, next)) (read_expected s files (σ.tables s) name r there);
        kept = λ away. good;
        done = λ here. (
          ap (λ i. returned (lookup_result (files i name)))
              (right_place q shahash name d s (at ∙ ap ok here)),
          good,
        );
      }
