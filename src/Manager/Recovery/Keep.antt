-- ===== src/Manager/Recovery/Keep.antt =====
-- services/recovery_service.py: the replicas of the other nodes in a recovery.
use air_store.Prelude.{
  ◌≡◌, ◌≢◌, Text, text_eq_iff, Bool, true, ◌&&◌, List, [], ◌∷◌, select, any, arith,
}
use air_store.Core.Exec.{ok}
use air_store.Core.Models.{NodeModel, ChunkReplicaModel, ReplicaStatus, is_online, is_stored}
use air_store.Database.{
  Database, is_replica, update_node_status, update_replica_status, add_replica,
  get_replicas_for_node, list_nodes,
}
use air_store.Database.Rows.Laws.{any-update_where, any-upsert_row}
use air_store.Manager.Env.{Env, State}
use air_store.Manager.Recovery.{
  mark_missing, recover_replicas, RecoveryReport, recover_affected, recover_node_failure,
}
use air_store.Manager.Recovery.Rounds.{
  Round, kept, marked, added, Rounds, done, more, recover_replicas-Rounds,
}
use air_store.Manager.Recovery.Retire.{
  chunk_replicas-mark_file_corrupted, finish_recovery-SameTables, recover_node_failure-eq-ok,
}

-- The database says that the node stores the chunk.
abbrev pub holds : Text → Text → Database → Bool
holds chunk_id node_id db =
    any (λ r. is_replica chunk_id node_id r && is_stored r.status) db.chunk_replicas

module _ (chunk_id node_id : Text) where
  Round-holds :
      {online : List NodeModel} {a b : Database}
      → Round online a b
      → holds chunk_id node_id a ≡ true
      → holds chunk_id node_id b ≡ true
  unfolding add_replica
  Round-holds kept h = h
  Round-holds (marked {db} c) h = rw (chunk_replicas-mark_file_corrupted c db).0 h
  Round-holds (added {db} target replica e id st) h =
      any-upsert_row _ _ _ replica db.chunk_replicas (λ r q p. ground (arith, st)) h

  Rounds-holds :
      {online : List NodeModel} {a b : Database}
      → Rounds online a b
      → holds chunk_id node_id a ≡ true
      → holds chunk_id node_id b ≡ true
  Rounds-holds done h = h
  Rounds-holds (more r rs) h = Rounds-holds rs (Round-holds r h)

  mark_missing-holds :
      (failed : Text) (reps : List ChunkReplicaModel) (db : Database)
      → node_id ≢ failed
      → holds chunk_id node_id db ≡ true
      → holds chunk_id node_id (mark_missing failed reps db) ≡ true
  unfolding mark_missing update_replica_status
  mark_missing-holds failed [] db ne h = h
  mark_missing-holds failed (q ∷ reps) db ne h =
      mark_missing-holds failed reps
        (update_replica_status q.chunk_id failed ReplicaStatus.missing db) ne
        (any-update_where (is_replica q.chunk_id failed) _ _ db.chunk_replicas
          (λ r here there.
            absurd (ground (arith, text_eq_iff r.node_id node_id, text_eq_iff r.node_id failed)))
          h)

module _ {W : Type 0} (env : Env W) (failed : Text) where
  recover_affected-holds :
      (chunk_id node_id : Text) (reps : List ChunkReplicaModel) (t : State W)
      → node_id ≢ failed
      → holds chunk_id node_id t.db ≡ true
      → holds chunk_id node_id (recover_affected env failed reps t).1.db ≡ true
  unfolding recover_affected
  recover_affected-holds chunk_id node_id [] t ne h = h
  recover_affected-holds chunk_id node_id (r ∷ rs) t ne h =
      let db' = mark_missing failed (r ∷ rs) t.db in
      let t' = record t { db = db' } in
      let nodes = list_nodes db' in
      let online = select (λ n. is_online n.status) nodes in
      let rounds = recover_replicas-Rounds env online nodes (r ∷ rs) (0, 0) t' in
      let u = recover_replicas env online nodes (r ∷ rs) (0, 0) t' in
      rw (finish_recovery-SameTables env failed u.0 u.1).chunk_replicas (
        Rounds-holds chunk_id node_id rounds
          (mark_missing-holds chunk_id node_id failed (r ∷ rs) t.db ne h))

  -- A recovery never drops a STORED replica of a node other than the failed one.
  pub recover_node_failure-holds :
      (chunk_id node_id : Text) (s : State W) {report : RecoveryReport} {s' : State W}
      → recover_node_failure env failed s ≡ (ok report, s')
      → node_id ≢ failed
      → holds chunk_id node_id s.db ≡ true
      → holds chunk_id node_id s'.db ≡ true
  unfolding update_node_status
  recover_node_failure-holds chunk_id node_id s {report} {s'} h ne here =
      let (t, same, e) = recover_node_failure-eq-ok env failed s h in
      let here' : holds chunk_id node_id t.db ≡ true = rw same.chunk_replicas here in
      rw e at
        (recover_affected-holds chunk_id node_id (get_replicas_for_node failed t.db) t ne here')
