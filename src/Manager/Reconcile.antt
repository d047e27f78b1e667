-- ===== src/Manager/Reconcile.antt =====
-- airstore/manager/services/recovery_service.py, `reconcile_returning_node`: the missing replicas
-- of a node that came back are checked on the node.
pub mod Verified
use air_store.Prelude.{
  ℕ, ◌+◌, Text, Bool, true, false, ◌&&◌, none, some, List, [], ◌∷◌, select, ◌==◌, if◌then◌else◌,
}
use air_store.Core.Models.{NodeModel, ChunkReplicaModel, ReplicaStatus, is_missing}
use air_store.Database.{get_node, get_chunk, update_replica_status, get_replicas_for_node}
use air_store.Node.Handlers.{Reply, no_reply, response}
use air_store.Manager.Env.{Env, State, address_of, on_db}

-- The answer of GET /verify says that the node holds the chunk.
abbrev pub is_verified : Reply Bool → Bool
is_verified no_reply = false
is_verified (response code valid) = code == 200 && valid

module _ {W : Type 0} (env : Env W) where
  -- One missing replica of a node that came back; the Boolean is whether it was reconciled.
  unfoldable pub reconcile_replica : Text → NodeModel → ChunkReplicaModel → State W → Bool × State W
  reconcile_replica node_id node rep s = elim (get_chunk rep.chunk_id s.db) [
    | none ↦ (false, s)
    | some chunk ↦
        let (reply, net) = env.client.verify (address_of node) rep.chunk_id chunk.sha256 s.net in
        if is_verified reply
        then (
          true,
          on_db (update_replica_status rep.chunk_id node_id ReplicaStatus.stored)
              (record s { net = net }),
        )
        else (false, record s { net = net })
  ]

  unfoldable pub reconcile_replicas :
      Text → NodeModel → List ChunkReplicaModel → ℕ → State W → ℕ × State W
  unfolding reconcile_replica
  reconcile_replicas node_id node [] reconciled s = (reconciled, s)
  reconcile_replicas node_id node (rep ∷ reps) reconciled s =
      let (done, s') = reconcile_replica node_id node rep s in
      reconcile_replicas node_id node reps (if done then reconciled + 1 else reconciled) s'

  unfoldable pub reconcile_returning_node : Text → State W → ℕ × State W
  reconcile_returning_node node_id s =
      let missing_replicas =
        select (λ r. is_missing r.status) (get_replicas_for_node node_id s.db) in
      elim (get_node node_id s.db) [
        | none ↦ (0, s)
        | some node ↦ reconcile_replicas node_id node missing_replicas 0 s
      ]
