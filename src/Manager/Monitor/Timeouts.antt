-- ===== src/Manager/Monitor/Timeouts.antt =====
-- scheduler/heartbeat_monitor.py: the nodes that timed out, after a round.
use air_store.Prelude.{
  ℕ, ◌≡◌, refl, Text, true, List, [], ◌∷◌, select, All, Bool-cases, inl, inr, arith,
}
use air_store.Core.Exec.{ok, ◌>>◌}
use air_store.Core.Exec.Laws.{>>=-eq-ok}
use air_store.Core.Models.{NodeModel, NodeStatus, ChunkReplicaModel, ReplicaStatus, is_online}
use air_store.Database.{
  Database, has_node_id, is_replica, update_node_status, update_replica_status, list_nodes,
  get_replicas_for_node,
}
use air_store.Database.Rows.Laws.{All-update_where}
use air_store.Manager.Env.{Env, State}
use air_store.Manager.Recovery.{
  mark_missing, recover_replicas, recover_affected, recover_node_failure, RecoveryReport,
}
use air_store.Manager.Recovery.Rounds.{recover_replicas-Rounds}
use air_store.Manager.Recovery.Retire.{
  IsRetired, IsOffline, Rounds-IsRetired, Rounds-nodes, nodes-mark_missing, online_others,
  finish_recovery-SameTables, recover_node_failure-eq-ok, recover_node_failure-IsRetired,
}
use air_store.Manager.Monitor.{has_timed_out, check_node, check_nodes, check_nodes_now}

-- The node is OFFLINE, and all its replicas are MISSING.
abbrev pub IsOut : Text → Database → Type 0
IsOut node_id db = IsOffline node_id db × IsRetired node_id db

mark_missing-keeps :
    (node_id failed : Text) (reps : List ChunkReplicaModel) (db : Database)
    → IsRetired node_id db
    → IsRetired node_id (mark_missing failed reps db)
unfolding mark_missing update_replica_status
mark_missing-keeps node_id failed [] db h = h
mark_missing-keeps node_id failed (q ∷ reps) db h =
    mark_missing-keeps node_id failed reps
      (update_replica_status q.chunk_id failed ReplicaStatus.missing db)
      (All-update_where (is_replica q.chunk_id failed) _ _ _ db.chunk_replicas (λ r p key f. refl)
        (λ r p key. p) h)

update_node_status-keeps :
    (node_id failed : Text) (db : Database)
    → IsOffline node_id db
    → IsOffline node_id (update_node_status failed NodeStatus.offline db)
unfolding update_node_status
update_node_status-keeps node_id failed db h =
    All-update_where (has_node_id failed) _ _ _ db.nodes (λ n p key f. refl) (λ n p key. p) h

module _ {W : Type 0} (env : Env W) where
  recover_affected-keeps :
      (node_id failed : Text) (reps : List ChunkReplicaModel) (t : State W)
      → IsOut node_id t.db
      → IsOut node_id (recover_affected env failed reps t).1.db
  unfolding recover_affected
  recover_affected-keeps node_id failed [] t h = h
  recover_affected-keeps node_id failed (r ∷ rs) t h =
      let db' = mark_missing failed (r ∷ rs) t.db in
      let t' = record t { db = db' } in
      let nodes = list_nodes db' in
      let online = select (λ n. is_online n.status) nodes in
      let off : IsOffline node_id db' = rw (nodes-mark_missing failed (r ∷ rs) t.db) h.0 in
      let retired : IsRetired node_id db' = mark_missing-keeps node_id failed (r ∷ rs) t.db h.1 in
      let rounds = recover_replicas-Rounds env online nodes (r ∷ rs) (0, 0) t' in
      let u = recover_replicas env online nodes (r ∷ rs) (0, 0) t' in
      let same = finish_recovery-SameTables env failed u.0 u.1 in
      (
        rw (same.nodes, Rounds-nodes rounds) off,
        rw same.chunk_replicas
            (Rounds-IsRetired node_id online (online_others node_id db' off) rounds retired),
      )

  -- The recovery of one node leaves another that is out of use out of use.
  recover_node_failure-keeps :
      (node_id failed : Text) (s : State W) {report : RecoveryReport} {s' : State W}
      → recover_node_failure env failed s ≡ (ok report, s')
      → IsOut node_id s.db
      → IsOut node_id s'.db
  recover_node_failure-keeps node_id failed s {report} {s'} h out =
      let (t, same, e) = recover_node_failure-eq-ok env failed s h in
      let off : IsOffline node_id t.db =
        rw same.nodes (update_node_status-keeps node_id failed s.db out.0) in
      let retired : IsRetired node_id t.db =
        rw same.chunk_replicas (unfold update_node_status in out.1) in
      rw e at
        (recover_affected-keeps node_id failed (get_replicas_for_node failed t.db) t (off, retired))

  module _ (timeout now : ℕ) where
    check_node-ok :
        (node : NodeModel) (s s' : State W)
        → check_node env timeout now node s ≡ (ok tt, s')
        → (has_timed_out timeout now node ≡ true → IsOut node.node_id s'.db)
          × ((node_id : Text) → IsOut node_id s.db → IsOut node_id s'.db)
    unfolding check_node
    check_node-ok node s s' h = elim (Bool-cases (has_timed_out timeout now node)) [
      | inl late ↦
          (let h' : (recover_node_failure env node.node_id >> (λ t. (ok tt, t))) s ≡ (ok tt, s') =
              rw late at h in
            let (report, t, e, k) =
              >>=-eq-ok (recover_node_failure env node.node_id) (λ x t. (ok tt, t)) s h' in
            let same : t ≡ s' = cc in
            (
              (λ l. rw (← same) (recover_node_failure-IsRetired env node.node_id s e)),
              (λ node_id out.
                  rw (← same) (recover_node_failure-keeps node_id node.node_id s e out)),
            ))
      | inr fine ↦
          (let same : s ≡ s' = ground arith in
            ((λ l. absurd (ground arith)), (λ node_id out. rw (← same) out)))
    ]

    check_nodes-ok :
        (nodes : List NodeModel) (s s' : State W)
        → check_nodes env timeout now nodes s ≡ (ok tt, s')
        → All (λ n. has_timed_out timeout now n ≡ true → IsOut n.node_id s'.db) nodes
          × ((node_id : Text) → IsOut node_id s.db → IsOut node_id s'.db)
    unfolding check_nodes
    check_nodes-ok [] s s' h = let same : s ≡ s' = cc in (tt, λ node_id out. rw (← same) out)
    check_nodes-ok (n ∷ ns) s s' h =
        let (u, t, e, k) =
          >>=-eq-ok (check_node env timeout now n) (λ x. check_nodes env timeout now ns) s h in
        let first = check_node-ok n s t e in
        let rest = check_nodes-ok ns t s' k in
        (
          (λ late. rest.1 n.node_id (first.0 late), rest.0),
          λ node_id out. rest.1 node_id (first.1 node_id out),
        )

  -- When a round of the monitor returns, every node that was ONLINE and whose last heartbeat was
  -- longer ago than the timeout is OFFLINE, and all its replicas are MISSING.
  pub check_nodes_now-IsOut :
      (timeout : ℕ) (s s' : State W)
      → check_nodes_now env timeout s ≡ (ok tt, s')
      → All (λ n. has_timed_out timeout s.now n ≡ true → IsOut n.node_id s'.db) (list_nodes s.db)
  unfolding check_nodes_now
  check_nodes_now-IsOut timeout s s' h = (check_nodes-ok timeout s.now (list_nodes s.db) s s' h).0
