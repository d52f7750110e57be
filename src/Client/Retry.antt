-- ===== src/Client/Retry.antt =====
-- client/operations.c: the loop at the label `bitmap`, which every operation has. A server that is
-- not responsible for the name returns its table, and the client merges it and asks again.
pub mod Progress
pub mod Ends
use skyefs.Prelude.{ℕ, zero, suc, List, Outcome, ok, fault, out_of_rounds, ◌>>=◌, ◌>>◌}
use skyefs.Giga.Mapping.{GigaMapping, giga_update_cache}
use skyefs.Giga.Index.{giga_get_server_for_file}
use skyefs.Rpc.{Call, rpc_failed, returned}
use skyefs.Connection.{get_connection}

-- A reply as the loop reads it: the table that comes with -EAGAIN, or any other reply.
pub data Answer (A : Type 0) : Type 0 where
  again : GigaMapping → Answer A
  final : A → Answer A

-- The stub of the operation at a server, which may change the world `w`; `servercount` is
-- skye_options.servercount.
module _ {W A : Type 0} (shahash : List ℕ → List ℕ) (servercount : ℕ)
    (stub : ℕ → W → Answer A × W) where
  unfoldable pub ask : (fuel : ℕ) → List ℕ → GigaMapping → W → Outcome (A × GigaMapping × W)
  ask zero name mapping w = fault out_of_rounds
  ask (suc f) name mapping w = giga_get_server_for_file shahash mapping name >>= λ server_id.
      get_connection servercount server_id >>= λ rpc_client. (elim (stub rpc_client w).0 [
        | final a ↦ ok (a, mapping, (stub rpc_client w).1)
        | again table ↦ giga_update_cache mapping table >>= λ mapping'.
            ask f name mapping' (stub rpc_client w).1
      ])
