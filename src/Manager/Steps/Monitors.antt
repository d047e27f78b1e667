-- ===== src/Manager/Steps/Monitors.antt =====
-- The reconciliation of a returning node and the rounds of the heartbeat monitor as sequences of
-- statements.
use air_store.Prelude.{ℕ, Text, List, [], ◌∷◌, Option-cases, Bool-cases, inl, inr}
use air_store.Core.Exec.{pure}
use air_store.Core.Models.{NodeModel, ChunkReplicaModel}
use air_store.Database.{list_nodes, get_chunk, get_node}
use air_store.Database.Keys.Steps.{Steps, stay, one-Step, Steps-trans, replica_status_written}
use air_store.Manager.Env.{Env, State, address_of}
use air_store.Manager.Recovery.{recover_node_failure}
use air_store.Manager.Reconcile.{
  reconcile_replica, reconcile_replicas, reconcile_returning_node, is_verified,
}
use air_store.Manager.Monitor.{
  check_node, check_nodes, check_nodes_now, monitor_round, has_timed_out,
}
use air_store.Manager.Steps.{bind-Steps}
use air_store.Manager.Steps.Recoveries.{recover_node_failure-Steps}

module _ {W : Type 0} (env : Env W) where
  reconcile_replica-Steps :
      (node_id : Text) (node : NodeModel) (rep : ChunkReplicaModel) (s : State W)
      → Steps s.db (reconcile_replica env node_id node rep s).1.db
  unfolding reconcile_replica
  reconcile_replica-Steps node_id node rep s = elim (Option-cases (get_chunk rep.chunk_id s.db)) [
    | inl absent ↦ rw (absent, reconcile_replica) stay
    | inr (chunk, found) ↦
        elim (Bool-cases
          (is_verified (env.client.verify (address_of node) rep.chunk_id chunk.sha256 s.net).0)) [
            | inl valid ↦
                rw (found, valid, reconcile_replica)
                  (one-Step (replica_status_written rep.chunk_id node_id _))
            | inr invalid ↦ rw (found, invalid, reconcile_replica) stay
          ]
  ]

  reconcile_replicas-Steps :
      (node_id : Text) (node : NodeModel) (reps : List ChunkReplicaModel) (n : ℕ) (s : State W)
      → Steps s.db (reconcile_replicas env node_id node reps n s).1.db
  unfolding reconcile_replicas
  reconcile_replicas-Steps node_id node [] n s = stay
  reconcile_replicas-Steps node_id node (rep ∷ reps) n s =
      Steps-trans (reconcile_replica-Steps node_id node rep s)
        (reconcile_replicas-Steps node_id node reps _ (reconcile_replica env node_id node rep s).1)

  pub reconcile_returning_node-Steps :
      (node_id : Text) (s : State W) → Steps s.db (reconcile_returning_node env node_id s).1.db
  unfolding reconcile_returning_node
  reconcile_returning_node-Steps node_id s = elim (Option-cases (get_node node_id s.db)) [
    | inl absent ↦ rw (absent, reconcile_returning_node) stay
    | inr (node, found) ↦
        rw (found, reconcile_returning_node) (reconcile_replicas-Steps node_id node _ 0 s)
  ]

  module _ (timeout : ℕ) where
    check_node-Steps :
        (now : ℕ) (node : NodeModel) (s : State W)
        → Steps s.db (check_node env timeout now node s).1.db
    unfolding check_node
    check_node-Steps now node s = elim (Bool-cases (has_timed_out timeout now node)) [
      | inl out ↦ rw out (
          bind-Steps (recover_node_failure env node.node_id) (λ r. pure tt) s
            (recover_node_failure-Steps env node.node_id s) (λ r e. stay))
      | inr fine ↦ rw fine stay
    ]

    check_nodes-Steps :
        (now : ℕ) (nodes : List NodeModel) (s : State W)
        → Steps s.db (check_nodes env timeout now nodes s).1.db
    unfolding check_nodes
    check_nodes-Steps now [] s = stay
    check_nodes-Steps now (node ∷ nodes) s =
        bind-Steps (check_node env timeout now node) (λ u. check_nodes env timeout now nodes) s
          (check_node-Steps now node s)
          (λ u e. check_nodes-Steps now nodes (check_node env timeout now node s).1)

    pub monitor_round-Steps : (s : State W) → Steps s.db (monitor_round env timeout s).db
    unfolding monitor_round check_nodes_now
    monitor_round-Steps s = check_nodes-Steps s.now (list_nodes s.db) s
