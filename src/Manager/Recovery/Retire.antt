-- ===== src/Manager/Recovery/Retire.antt =====
-- services/recovery_service.py: the failed node after a recovery.
use air_store.Prelude.{
  ℕ, ◌≡◌, refl, Text, text_eq, text_eq_refl, text_eq_iff, true, false, ◌⊎◌, List, [], ◌∷◌, select,
  any, All, All-Elem, All-of-Elem, All-select, Elem-of_select, Elem-select, any_of_Elem, Bool-cases,
  inl, inr, arith,
}
use air_store.Prelude.Sort.Laws.{All-order_by}
use air_store.Core.Exec.{ok}
use air_store.Core.Exec.Laws.{>>-eq-ok}
use air_store.Core.Models.{
  NodeModel, NodeStatus, ChunkReplicaModel, ReplicaStatus, EventType, is_online, is_missing,
}
use air_store.Database.{
  Database, has_node_id, is_replica, update_node_status, list_nodes, update_replica_status,
  add_replica, get_replicas_for_node, update_file_status,
}
use air_store.Database.Rows.Laws.{All-update_where, All-upsert_row}
use air_store.Manager.Env.{Env, State, log_event, on_db}
use air_store.Manager.Env.Laws.{SameTables, log_event-SameTables, SameTables-trans}
use air_store.Manager.Recovery.{
  mark_missing, mark_file_corrupted, recover_replicas, RecoveryReport, finish_recovery,
  recover_affected, recover_node_failure, end_event, log_and_recover, recover_chunks,
}
use air_store.Manager.Messages.{
  recovery_end_message, recovery_end_details, offline_message, node_details, recovery_start_message,
}
use air_store.Manager.Recovery.Rounds.{
  Round, kept, marked, added, Rounds, done, more, recover_replicas-Rounds,
}

-- Every replica of the node is MISSING.
abbrev pub IsRetired : Text → Database → Type 0
IsRetired failed db =
    All (λ r. text_eq r.node_id failed ≡ true → is_missing r.status ≡ true) db.chunk_replicas

-- Every row of the node is OFFLINE.
abbrev pub IsOffline : Text → Database → Type 0
IsOffline failed db =
    All (λ n. has_node_id failed n ≡ true → n.status ≡ NodeStatus.offline) db.nodes

pub chunk_replicas-mark_file_corrupted :
    (chunk_id : Text) (db : Database)
    → ((mark_file_corrupted chunk_id db).chunk_replicas ≡ db.chunk_replicas)
      × ((mark_file_corrupted chunk_id db).nodes ≡ db.nodes)
      × ((mark_file_corrupted chunk_id db).chunks ≡ db.chunks)
unfolding mark_file_corrupted update_file_status
chunk_replicas-mark_file_corrupted chunk_id db = ground arith

module _ (failed : Text) (online : List NodeModel)
    (others : All (λ n. text_eq n.node_id failed ≡ false) online) where
  Round-IsRetired : {a b : Database} → Round online a b → IsRetired failed a → IsRetired failed b
  unfolding add_replica
  Round-IsRetired kept h = h
  Round-IsRetired (marked {db} chunk_id) h = rw (chunk_replicas-mark_file_corrupted chunk_id db).0 h
  Round-IsRetired (added {db} target replica e id st) h =
      let other = All-Elem (λ n. text_eq n.node_id failed ≡ false) target online others e in
      All-upsert_row _ _ _ replica db.chunk_replicas
        (λ r hr key f. absurd (
          ground (
            arith,
            id,
            other,
            text_eq_iff r.node_id replica.node_id,
            text_eq_iff r.node_id failed,
            text_eq_iff target.node_id failed,
          )))
        (λ f. absurd (ground (arith, id, other))) h

  pub Rounds-IsRetired :
      {a b : Database} → Rounds online a b → IsRetired failed a → IsRetired failed b
  Rounds-IsRetired done h = h
  Rounds-IsRetired (more r rs) h = Rounds-IsRetired rs (Round-IsRetired r h)

pub Round-nodes : {online : List NodeModel} {a b : Database} → Round online a b → b.nodes ≡ a.nodes
unfolding add_replica
Round-nodes kept = refl
Round-nodes (marked {db} chunk_id) = (chunk_replicas-mark_file_corrupted chunk_id db).1
Round-nodes (added target replica e id st) = refl

pub Rounds-nodes :
    {online : List NodeModel} {a b : Database} → Rounds online a b → b.nodes ≡ a.nodes
Rounds-nodes done = refl
Rounds-nodes (more r rs) = rw (Rounds-nodes rs) (Round-nodes r)

-- While the marking goes on, a replica of the node is MISSING or still to come.
module _ (failed : Text) where
  abbrev Pending : List ChunkReplicaModel → ChunkReplicaModel → Type 0
  Pending reps r =
      text_eq r.node_id failed ≡ true
      → (is_missing r.status ≡ true) ⊎ (any (λ q. text_eq r.chunk_id q.chunk_id) reps ≡ true)

  mark_missing-IsRetired :
      (reps : List ChunkReplicaModel) (db : Database)
      → All (Pending reps) db.chunk_replicas
      → IsRetired failed (mark_missing failed reps db)
  unfolding mark_missing update_replica_status
  mark_missing-IsRetired [] db h = All-of-Elem _ _ λ r e f.
      elim (All-Elem (Pending []) r db.chunk_replicas h e f) [
        | inl m ↦ m
        | inr c ↦ absurd (ground arith)
      ]
  mark_missing-IsRetired (q ∷ reps) db h =
      mark_missing-IsRetired reps (update_replica_status q.chunk_id failed ReplicaStatus.missing db)
        (All-update_where (is_replica q.chunk_id failed) _ (Pending (q ∷ reps)) (Pending reps)
          db.chunk_replicas (λ r p key f. inl refl)
          (λ r p key f. elim (p f) [ inl m ↦ inl m | inr c ↦ inr (ground arith) ]) h)

  pub nodes-mark_missing :
      (reps : List ChunkReplicaModel) (db : Database)
      → (mark_missing failed reps db).nodes ≡ db.nodes
  unfolding mark_missing update_replica_status
  nodes-mark_missing [] db = refl
  nodes-mark_missing (q ∷ reps) db =
      nodes-mark_missing reps (update_replica_status q.chunk_id failed ReplicaStatus.missing db)

  All-Pending : (db : Database) → All (Pending (get_replicas_for_node failed db)) db.chunk_replicas
  unfolding get_replicas_for_node
  All-Pending db = All-of-Elem _ db.chunk_replicas λ r e f. inr (
      any_of_Elem (λ q. text_eq r.chunk_id q.chunk_id) r _
        (Elem-select (λ x. text_eq x.node_id failed) r db.chunk_replicas e f)
        (text_eq_refl r.chunk_id))

  update_node_status-IsOffline :
      (db : Database) → IsOffline failed (update_node_status failed NodeStatus.offline db)
  unfolding update_node_status
  update_node_status-IsOffline db =
      All-update_where (has_node_id failed) _ (λ n. Unit)
        (λ n. has_node_id failed n ≡ true → n.status ≡ NodeStatus.offline) db.nodes
        (λ n u key f. refl) (λ n u key f. absurd (ground arith))
        (All-of-Elem _ db.nodes (λ n e. tt))

  pub online_others :
      (db : Database)
      → IsOffline failed db
      → All
          (λ n. text_eq n.node_id failed ≡ false)
          (select (λ n. is_online n.status) (list_nodes db))
  unfolding list_nodes
  online_others db h =
      let P = λ (n : NodeModel). has_node_id failed n ≡ true → n.status ≡ NodeStatus.offline in
      let p = λ (n : NodeModel). is_online n.status in
      let rows = list_nodes db in
      All-of-Elem _ (select p rows) λ n e. elim (Bool-cases (text_eq n.node_id failed)) [
        | inr other ↦ other
        | inl same ↦
            (let up = All-Elem (λ x. p x ≡ true) n (select p rows) (All-select p rows) e in
              let down =
                All-Elem P n rows (All-order_by _ P db.nodes h) (Elem-of_select p n rows e) same in
              absurd (ground (arith, up, down)))
      ]

module _ {W : Type 0} (env : Env W) (failed : Text) where
  pub finish_recovery-SameTables :
      (counts : ℕ × ℕ) (s : State W) → SameTables (finish_recovery env failed (counts, s)).1.db s.db
  unfolding finish_recovery
  finish_recovery-SameTables (recovered, lost) s = ground (
    arith,
    log_event-SameTables env (end_event lost) (recovery_end_message failed recovered lost)
        (recovery_end_details failed recovered lost) s,
  )

  recover_affected-IsRetired :
      (reps : List ChunkReplicaModel) (t : State W)
      → get_replicas_for_node failed t.db ≡ reps
      → IsOffline failed t.db
      → IsOffline failed (recover_affected env failed reps t).1.db
        × IsRetired failed (recover_affected env failed reps t).1.db
  unfolding recover_affected
  recover_affected-IsRetired [] t e h =
      let pending : All (Pending failed []) t.db.chunk_replicas =
        rw e at (All-Pending failed t.db) in
      (h, unfold mark_missing in mark_missing-IsRetired failed [] t.db pending)
  recover_affected-IsRetired (r ∷ rs) t e h =
      let pending : All (Pending failed (r ∷ rs)) t.db.chunk_replicas =
        rw e at (All-Pending failed t.db) in
      let db' = mark_missing failed (r ∷ rs) t.db in
      let t' = record t { db = db' } in
      let nodes = list_nodes db' in
      let online = select (λ n. is_online n.status) nodes in
      let off : IsOffline failed db' = rw (nodes-mark_missing failed (r ∷ rs) t.db) h in
      let retired : IsRetired failed db' = mark_missing-IsRetired failed (r ∷ rs) t.db pending in
      let rounds = recover_replicas-Rounds env online nodes (r ∷ rs) (0, 0) t' in
      let u = recover_replicas env online nodes (r ∷ rs) (0, 0) t' in
      let same = finish_recovery-SameTables u.0 u.1 in
      (
        rw (same.nodes, Rounds-nodes rounds) off,
        rw same.chunk_replicas
            (Rounds-IsRetired failed online (online_others failed db' off) rounds retired),
      )

  -- A recovery that returns has set the node OFFLINE, logged two events, and recovered the
  -- replicas that the node has then.
  pub recover_node_failure-eq-ok :
      (s : State W) {report : RecoveryReport} {s' : State W}
      → recover_node_failure env failed s ≡ (ok report, s')
      → (t : State W) × SameTables t.db (update_node_status failed NodeStatus.offline s.db)
        × (recover_affected env failed (get_replicas_for_node failed t.db) t ≡ (ok report, s'))
  unfolding recover_node_failure
  recover_node_failure-eq-ok s {report} {s'} h =
      let s1 = on_db (update_node_status failed NodeStatus.offline) s in
      let details = node_details failed in
      let log1 = log_event env EventType.node_offline (offline_message failed) details in
      let log2 = log_event env EventType.recovery_started (recovery_start_message failed) details in
      let s2 = (log1 s1).1 in
      let s3 = (log2 s2).1 in
      let h2 = >>-eq-ok log1 (log_and_recover env failed) s1 h in
      let h3 = >>-eq-ok log2 (recover_chunks env failed) s2 h2 in
      let a = log_event-SameTables env EventType.node_offline (offline_message failed) details s1 in
      let b =
        log_event-SameTables env EventType.recovery_started (recovery_start_message failed) details
          s2 in
      (s3, SameTables-trans b a, h3)

  -- When a recovery returns, every row of the failed node is OFFLINE and every replica on it is
  -- MISSING, whatever the other nodes answered.
  pub recover_node_failure-IsRetired :
      (s : State W) {report : RecoveryReport} {s' : State W}
      → recover_node_failure env failed s ≡ (ok report, s')
      → IsOffline failed s'.db × IsRetired failed s'.db
  recover_node_failure-IsRetired s {report} {s'} h =
      let (t, same, e) = recover_node_failure-eq-ok s h in
      let off : IsOffline failed t.db = rw same.nodes (update_node_status-IsOffline failed s.db) in
      let all = recover_affected-IsRetired _ t refl off in rw e at all
