-- ===== src/Manager/Recovery/Counts.antt =====
-- services/recovery_service.py: the report of a recovery.
use air_store.Prelude.{
  ℕ, ◌+◌, ◌≡◌, ◌≢◌, ◌↔◌, refl, sym, Text, true, none, List, [], ◌∷◌, length, select, find, All,
  ◌==◌, arith,
}
use mathlib.Core.Path.{subst}
use air_store.Core.Exec.{ok}
use air_store.Core.Models.{NodeModel, ChunkModel, ChunkReplicaModel, ReplicaStatus, is_online}
use air_store.Database.{
  Database, is_chunk, update_node_status, update_replica_status, add_replica, get_replicas_for_node,
  get_chunk, list_nodes,
}
use air_store.Manager.Env.{Env, State}
use air_store.Manager.Recovery.{
  Outcome, counted_recovered, counted_failed, not_counted, count_outcome, mark_missing,
  recover_replica, recover_replicas, RecoveryReport, finish_recovery, recover_affected,
  recover_node_failure,
}
use air_store.Manager.Recovery.Rounds.{Round, kept, marked, added, recover_replica-Round}
use air_store.Manager.Recovery.Retire.{
  chunk_replicas-mark_file_corrupted, recover_node_failure-eq-ok,
}
use air_store.Manager.Recovery.Copies.{recover_replica-counted}

Round-chunks : {online : List NodeModel} {a b : Database} → Round online a b → b.chunks ≡ a.chunks
unfolding add_replica
Round-chunks kept = refl
Round-chunks (marked {db} chunk_id) = (chunk_replicas-mark_file_corrupted chunk_id db).2
Round-chunks (added target replica e id st) = refl

-- Every replica of the list has a row in the table of chunks.
abbrev pub AllKnown : List ChunkModel → List ChunkReplicaModel → Type 0
AllKnown rows reps = All (λ r. find (is_chunk r.chunk_id) rows ≢ none) reps

chunks-mark_missing :
    (failed : Text) (reps : List ChunkReplicaModel) (db : Database)
    → (mark_missing failed reps db).chunks ≡ db.chunks
unfolding mark_missing update_replica_status
chunks-mark_missing failed [] db = refl
chunks-mark_missing failed (q ∷ reps) db =
    chunks-mark_missing failed reps
      (update_replica_status q.chunk_id failed ReplicaStatus.missing db)

sum_count_outcome :
    (o : Outcome) (counts : ℕ × ℕ)
    → o ≢ not_counted
    → (count_outcome o counts).0 + (count_outcome o counts).1 ≡ counts.0 + counts.1 + 1
sum_count_outcome counted_recovered (a, b) h = omega arith
sum_count_outcome counted_failed (a, b) h = omega arith
sum_count_outcome not_counted (a, b) h = absurd (h refl)

module _ {W : Type 0} (env : Env W) where
  recover_replicas-count :
      (online nodes : List NodeModel) (reps : List ChunkReplicaModel) (counts : ℕ × ℕ) (s : State W)
      → AllKnown s.db.chunks reps
      → (recover_replicas env online nodes reps counts s).0.0
          + (recover_replicas env online nodes reps counts s).0.1
        ≡ counts.0 + counts.1 + length reps
  unfolding recover_replicas
  recover_replicas-count online nodes [] counts s h = omega arith
  recover_replicas-count online nodes (rep ∷ reps) counts s h =
      let r = recover_replica env online nodes rep s in
      let same = Round-chunks (recover_replica-Round env online nodes rep s) in
      let ih =
        recover_replicas-count online nodes reps (count_outcome r.0 counts) r.1
          (subst (λ rows. AllKnown rows reps) (sym same) h.1) in
      let step =
        sum_count_outcome r.0 counts
          (recover_replica-counted env online nodes rep s (unfold get_chunk in h.0)) in
      omega (arith, ih, step)

  finish_recovery-report :
      (failed : Text) (counts : ℕ × ℕ) (s : State W) {report : RecoveryReport} {s' : State W}
      → finish_recovery env failed (counts, s) ≡ (ok report, s')
      → (report.recovered_chunks ≡ counts.0)
        × (report.failed_chunks ≡ counts.1)
        × (report.is_complete ≡ (counts.1 == 0))
  unfolding finish_recovery
  finish_recovery-report failed (recovered, lost) s h = ground arith

  recover_affected-count :
      (failed : Text) (reps : List ChunkReplicaModel) (t : State W) {report : RecoveryReport}
      {s' : State W}
      → AllKnown t.db.chunks reps
      → recover_affected env failed reps t ≡ (ok report, s')
      → (report.recovered_chunks + report.failed_chunks ≡ length reps)
        × ((report.is_complete ≡ true) ↔ (report.failed_chunks ≡ 0))
  unfolding recover_affected
  recover_affected-count failed [] t known h = ground arith
  recover_affected-count failed (r ∷ rs) t {report} {s'} known h =
      let t' = record t { db = mark_missing failed (r ∷ rs) t.db } in
      let nodes = list_nodes t'.db in
      let online = select (λ n. is_online n.status) nodes in
      let u = recover_replicas env online nodes (r ∷ rs) (0, 0) t' in
      let known' : AllKnown t'.db.chunks (r ∷ rs) =
        subst (λ rows. AllKnown rows (r ∷ rs)) (sym (chunks-mark_missing failed (r ∷ rs) t.db))
          known in
      let total = recover_replicas-count online nodes (r ∷ rs) (0, 0) t' known' in
      let parts = finish_recovery-report failed u.0 u.1 {report = report} {s' = s'} h in
      (omega (arith, parts.0, parts.1, total), ground (arith, parts.1, parts.2))

  -- When a recovery returns, and each replica of the failed node is of a chunk that has a row, the
  -- recovered and the failed chunks of the report add up to the number of those replicas, and the
  -- recovery is complete exactly if no chunk failed.
  pub recover_node_failure-count :
      (failed : Text) (s : State W) {report : RecoveryReport} {s' : State W}
      → AllKnown s.db.chunks (get_replicas_for_node failed s.db)
      → recover_node_failure env failed s ≡ (ok report, s')
      → (report.recovered_chunks + report.failed_chunks
          ≡ length (get_replicas_for_node failed s.db))
        × ((report.is_complete ≡ true) ↔ (report.failed_chunks ≡ 0))
  unfolding update_node_status
  recover_node_failure-count failed s {report} {s'} known h =
      let (t, same, e) = recover_node_failure-eq-ok env failed s h in
      let reps : get_replicas_for_node failed t.db ≡ get_replicas_for_node failed s.db =
        unfold get_replicas_for_node in (rw same.chunk_replicas) in
      let known' : AllKnown t.db.chunks (get_replicas_for_node failed t.db) = rw reps (
        subst (λ rows. AllKnown rows (get_replicas_for_node failed s.db)) (sym same.chunks)
          known) in
      rw reps at (recover_affected-count failed _ t known' e)
