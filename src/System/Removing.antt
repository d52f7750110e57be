-- ===== src/System/Removing.antt =====
-- server/handlers.c: a removal of a file at a server that has the directory in memory.
use skyefs.Prelude.{
  ℕ, ◌+◌, ◌*◌, ◌^◌, ◌<◌, ◌≡◌, refl, ap, ◌∙◌, arith, true, Bool-cases, inl, inr, ◌==◌, ==_iff,
  if◌then◌else◌, List, ok,
}
use skyefs.Rpc.{ObjectRef, SkyeResult, Credentials, Call, status}
use skyefs.Giga.Tree.{Partitions}
use skyefs.Giga.Mapping.{GigaMapping, giga_get_server_for_index}
use skyefs.Giga.Index.{giga_get_index_for_file, giga_get_server_for_file}
use skyefs.Server.Directory.{Pvfs, at_ref}
use skyefs.Server.Bucket.Entering.{enter_bucket-redirect}
use skyefs.Server.Handlers.{ServerState, Setup}
use skyefs.Server.Handlers.Balance.{held}
use skyefs.Server.Handlers.Remove.{skye_rpc_remove}
use skyefs.Server.Handlers.Removing.{
  remove_in_file, left_with, skye_rpc_remove-redirect, skye_rpc_remove-bucket,
}
use skyefs.System.{Files, IsStore, IsRemoving, Holds, without_file}
use skyefs.System.Entering.{enter_here}
use skyefs.System.Serving.{Holds-after}

-- The reply to a removal of a file that is there.
abbrev pub gone : ℕ → ℕ → GigaMapping → SkyeResult
gone s t m = if t == s then status 0 else SkyeResult.bitmap m

-- The files then.
abbrev pub left : ℕ → ℕ → Files → ℕ → List ℕ → Files
left s t files r name = if t == s then without_file files r name else files

module _ {V : Type 0} (shahash : List ℕ → List ℕ) (setup : Setup) {pvfs : Pvfs V}
    {parent : ObjectRef} {all : Partitions} {bucket_of : ℕ → ℕ} {contents : V → Files}
    (readdir_error : ℕ) (rpc_bucket_remove : ℕ → Credentials → ObjectRef → ℕ → V → Call ℕ × V)
    (store_of : IsStore pvfs parent all bucket_of contents) {object : ObjectRef}
    (removing : IsRemoving pvfs parent all bucket_of contents object) (m : GigaMapping)
    (served : 0 < m.server_count) (few : (i : ℕ) → all i ≡ true → i < 2 * m.server_count)
    (narrow : (i : ℕ) → all i ≡ true → i + m.zeroth_server < 2 ^ 32) (creds : Credentials)
    (name : List ℕ) (r t : ℕ) (index_at : giga_get_index_for_file shahash m name ≡ ok r)
    (seen : all r ≡ true) (at_t : giga_get_server_for_index m r ≡ ok t) where
  pub record IsRemoved (st after : ServerState V) : Type 0 where
    pub ran :
        skye_rpc_remove setup pvfs readdir_error rpc_bucket_remove shahash creds parent name st
        ≡ ok (gone setup.servernum t m, after)
    pub files : contents after.world ≡ left setup.servernum t (contents st.world) r name
    pub holds : Holds parent all bucket_of m setup.servernum after.heap after.queue

  -- A removal at a server that has the directory in memory, of a file that is there.
  pub skye_rpc_remove_lem :
      (st : ServerState V)
      → (t ≡ setup.servernum → contents st.world r name ≡ at_ref object)
      → Holds parent all bucket_of m setup.servernum st.heap st.queue
      → (after : ServerState V) × IsRemoved st after
  unfolding giga_get_server_for_file
  skye_rpc_remove_lem st there h =
      let dir = (held h.slot).dir in
      elim (Bool-cases (t == setup.servernum)) [
        | inr other ↦
            let away =
              enter_bucket-redirect shahash setup.servernum pvfs creds dir name parent st.world
                {other = t} (rw (h.table, index_at) at_t) (λ same. ground (arith, other, same)) in
            let same = h.slot.dir.partition_handles in
            let reply : SkyeResult.bitmap (held h.slot).dir.mapping ≡ gone setup.servernum t m =
              rw (h.table, other) refl in
            (
              left_with setup pvfs readdir_error rpc_bucket_remove creds shahash parent name st
                  h.place h.in_table h.stored h.live h.referenced h.unwritten same st.world,
              record {
                ran =
                    skye_rpc_remove-redirect setup pvfs readdir_error rpc_bucket_remove creds
                      shahash parent name st h.place h.in_table h.stored h.live h.referenced
                      h.unwritten same away
                    ∙ ap
                        (λ (x : SkyeResult). ok (
                          x,
                          left_with setup pvfs readdir_error rpc_bucket_remove creds shahash parent
                              name st h.place h.in_table h.stored h.live h.referenced h.unwritten
                              same st.world,
                        ))
                        reply;
                files = rw other refl;
                holds = Holds-after h same refl h.handles h.unlocked;
              },
            )
        | inl mine ↦
            let (handles, w, entered_at, h', kept) =
              enter_here shahash setup store_of served few narrow creds name index_at seen at_t dir
                st.world mine h.table h.own h.whole h.handles in
            let b = record parent { handle = bucket_of r } in
            let w1 = (pvfs.ref_lookup creds b name w).1 in
            let w2 = (pvfs.is_directory creds object w1).1 in
            let w3 = (pvfs.sys_remove creds name b w2).1 in
            let same : contents w2 ≡ contents st.world =
              removing.plain_kept creds w1 ∙ store_of.file_kept creds r name w ∙ kept in
            let present : contents w2 r name ≡ at_ref object =
              ap (λ (f : Files). f r name) same ∙ there ((==_iff t setup.servernum).0 mine) in
            let found : (pvfs.ref_lookup creds b name w).0 ≡ at_ref object =
              store_of.file_found creds r name w seen
              ∙ ap (λ (f : Files). f r name) kept
              ∙ there ((==_iff t setup.servernum).0 mine) in
            let reply : status (pvfs.sys_remove creds name b w2).0 ≡ gone setup.servernum t m =
              ap status (removing.removed creds r name w2 seen present) ∙ rw mine refl in
            (
              left_with setup pvfs readdir_error rpc_bucket_remove creds shahash parent name st
                  h.place h.in_table h.stored h.live h.referenced h.unwritten handles w3,
              record {
                ran =
                    skye_rpc_remove-bucket setup pvfs readdir_error rpc_bucket_remove creds shahash
                      parent name st h.place h.in_table h.stored h.live h.referenced h.unwritten
                      handles entered_at
                      (λ heap heap' back.
                        remove_in_file setup pvfs readdir_error rpc_bucket_remove creds b name
                          h.place heap heap' w found (removing.plain creds w1) back)
                    ∙ ap
                        (λ (x : SkyeResult). ok (
                          x,
                          left_with setup pvfs readdir_error rpc_bucket_remove creds shahash parent
                              name st h.place h.in_table h.stored h.live h.referenced h.unwritten
                              handles w3,
                        ))
                        reply;
                files =
                    removing.taken creds r name w2 seen present
                    ∙ ap (λ (f : Files). without_file f r name) same
                    ∙ rw mine refl;
                holds = Holds-after h handles refl h' h.unlocked;
              },
            )
      ]
