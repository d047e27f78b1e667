-- ===== src/Manager/Recovery.antt =====
-- airstore/manager/services/recovery_service.py. The lock makes each of the two mutating methods
-- one step; the requests to nodes happen in the order of the code.
pub mod Rounds
pub mod Retire
pub mod Keep
pub mod Copies
pub mod Counts
use air_store.Prelude.{
  ℕ, ◌+◌, max, Text, Bool, true, false, ◌&&◌, negb, Option, none, some, List, [], ◌∷◌, map, select,
  find, ◌==◌, if◌then◌else◌,
}
use air_store.Core.Exec.{Result, ok, err, Exec, ◌>>◌, pure, gets, modify, ◌>>=◌}
use air_store.Core.Models.{
  NodeModel, NodeStatus, FileStatus, ChunkModel, ChunkReplicaModel, ReplicaStatus, EventType,
  is_online, is_stored, is_missing,
}
use air_store.Database.{
  Database, update_node_status, list_nodes, update_file_status, get_chunk, add_replica,
  update_replica_status, get_replicas_for_chunk, get_replicas_for_node, has_node_id,
}
use air_store.Placement.{select_nodes_for_chunk}
use air_store.Node.Handlers.{Reply, no_reply, response, is_success}
use air_store.Manager.Env.{Env, State, address_of, on_db, log_event}
use air_store.Manager.Messages.{
  offline_message, recovery_start_message, node_details, recovery_end_message, recovery_end_details,
}

-- `node_map.get(node_id)` of `{n.node_id: n for n in …}`
unfoldable pub node_of : List NodeModel → Text → Option NodeModel
node_of nodes node_id = find (has_node_id node_id) nodes

-- A replica that is STORED on a node that is in the map and ONLINE.
unfoldable pub is_surviving : List NodeModel → ChunkReplicaModel → Bool
unfolding node_of
is_surviving nodes r =
    is_stored r.status
    && elim (node_of nodes r.node_id) [ none ↦ false | some n ↦ is_online n.status ]

-- `max([r.replica_number for r in …], default=0)`
unfoldable pub max_replica_number : List ChunkReplicaModel → ℕ
max_replica_number [] = 0
max_replica_number (r ∷ rs) = max r.replica_number (max_replica_number rs)

-- `[r.node_id for r in … if r.status != ReplicaStatus.MISSING]`
unfoldable pub existing_node_ids : List ChunkReplicaModel → List Text
existing_node_ids replicas =
    map (λ r. r.node_id) (select (λ r. negb (is_missing r.status)) replicas)

-- Each affected replica on the failed node becomes MISSING.
unfoldable pub mark_missing : Text → List ChunkReplicaModel → Database → Database
mark_missing failed_node_id [] db = db
mark_missing failed_node_id (r ∷ rs) db =
    mark_missing failed_node_id rs
      (update_replica_status r.chunk_id failed_node_id ReplicaStatus.missing db)

-- No surviving replica: the file of the chunk becomes CORRUPTED.
unfoldable pub mark_file_corrupted : Text → Database → Database
mark_file_corrupted chunk_id db = elim (get_chunk chunk_id db) [
  | none ↦ db
  | some c ↦ update_file_status c.file_id FileStatus.corrupted db
]

-- What one round of the loop counts: `continue` for a chunk without a row counts nothing.
pub data Outcome : Type 0 where
  counted_recovered counted_failed not_counted : Outcome

abbrev pub count_outcome : Outcome → ℕ × ℕ → ℕ × ℕ
count_outcome counted_recovered (recovered, lost) = (recovered + 1, lost)
count_outcome counted_failed (recovered, lost) = (recovered, lost + 1)
count_outcome not_counted (recovered, lost) = (recovered, lost)

module _ {W : Type 0} (env : Env W) where
  -- The answer of POST /replicate: the new replica is recorded, or the exception is caught.
  unfoldable pub record_new_replica :
      Text → NodeModel → List ChunkReplicaModel → Reply Unit → State W → Outcome × State W
  record_new_replica chunk_id target_node replicas no_reply s = (counted_failed, s)
  record_new_replica chunk_id target_node replicas (response code body) s =
      if is_success code
      then (
        counted_recovered,
        on_db
            (add_replica (record {
              chunk_id = chunk_id;
              node_id = target_node.node_id;
              replica_number = max_replica_number replicas + 1;
              status = ReplicaStatus.stored;
              created_at = s.now;
            }))
            s,
      )
      else (counted_failed, s)

  -- The chosen nodes: none, or the first takes the copy.
  unfoldable pub replicate_to :
      Text
      → ChunkModel
      → NodeModel
      → List ChunkReplicaModel
      → Result (List NodeModel)
      → State W
      → Outcome × State W
  unfolding record_new_replica
  replicate_to chunk_id chunk source_node replicas (err e) s = (counted_failed, s)
  replicate_to chunk_id chunk source_node replicas (ok []) s = (counted_failed, s)
  replicate_to chunk_id chunk source_node replicas (ok (target_node ∷ rest)) s =
      let (reply, net) =
        env.client.replicate (address_of target_node) chunk_id (address_of source_node) chunk.sha256
          s.net in
      record_new_replica chunk_id target_node replicas reply (record s { net = net })

  -- The `try` of the loop, from the source node on.
  unfoldable pub copy_from :
      List NodeModel
      → Text
      → List ChunkReplicaModel
      → Option NodeModel
      → State W
      → Outcome × State W
  unfolding replicate_to
  copy_from online_nodes chunk_id replicas none s = (counted_failed, s)
  copy_from online_nodes chunk_id replicas (some source_node) s = elim (get_chunk chunk_id s.db) [
    | none ↦ (not_counted, s)
    | some chunk ↦
        replicate_to chunk_id chunk source_node replicas
          (select_nodes_for_chunk env.float chunk online_nodes 1
            (some (existing_node_ids replicas)))
          s
  ]

  -- One round of the loop over the affected replicas.
  unfoldable pub recover_replica :
      List NodeModel → List NodeModel → ChunkReplicaModel → State W → Outcome × State W
  unfolding copy_from is_surviving
  recover_replica online_nodes nodes rep s =
      let replicas = get_replicas_for_chunk rep.chunk_id s.db in
      elim (select (is_surviving nodes) replicas) [
        | [] ↦ (counted_failed, on_db (mark_file_corrupted rep.chunk_id) s)
        | source ∷ others ↦
            copy_from online_nodes rep.chunk_id replicas (node_of nodes source.node_id) s
      ]

  -- The loop, with `recovered_count` and `failed_count`.
  unfoldable pub recover_replicas :
      List NodeModel → List NodeModel → List ChunkReplicaModel → ℕ × ℕ → State W → (ℕ × ℕ) × State W
  recover_replicas online_nodes nodes [] counts s = (counts, s)
  recover_replicas online_nodes nodes (rep ∷ reps) counts s =
      let (outcome, s') = recover_replica online_nodes nodes rep s in
      recover_replicas online_nodes nodes reps (count_outcome outcome counts) s'

-- The dictionary that a recovery returns; `is_complete` is that the status is "COMPLETED" and
-- not "PARTIAL_FAILURE".
pub record RecoveryReport : Type 0 where
  pub is_complete : Bool
  pub recovered_chunks : ℕ
  pub failed_chunks : ℕ

abbrev pub end_event : ℕ → EventType
end_event lost = if lost == 0 then EventType.recovery_completed else EventType.recovery_failed

module _ {W : Type 0} (env : Env W) where
  -- The part after the loop.
  unfoldable pub finish_recovery : Text → (ℕ × ℕ) × State W → Result RecoveryReport × State W
  finish_recovery failed_node_id ((recovered, lost), s) =
      (log_event env (end_event lost) (recovery_end_message failed_node_id recovered lost)
            (recovery_end_details failed_node_id recovered lost)
          >> pure (record {
            is_complete = lost == 0;
            recovered_chunks = recovered;
            failed_chunks = lost;
          }))
        s

  unfoldable pub recover_affected :
      Text → List ChunkReplicaModel → State W → Result RecoveryReport × State W
  recover_affected failed_node_id [] s =
      (ok (record { is_complete = true; recovered_chunks = 0; failed_chunks = 0 }), s)
  recover_affected failed_node_id (r ∷ rs) s =
      let s' = on_db (mark_missing failed_node_id (r ∷ rs)) s in
      let nodes = list_nodes s'.db in
      finish_recovery failed_node_id
        (recover_replicas env (select (λ n. is_online n.status) nodes) nodes (r ∷ rs) (0, 0) s')

  -- The affected replicas, which are read after the two events.
  unfoldable pub recover_chunks : Text → Exec (State W) RecoveryReport
  recover_chunks failed_node_id = do
    affected_replicas ← gets (λ s. get_replicas_for_node failed_node_id s.db)
    recover_affected failed_node_id affected_replicas

  unfoldable pub log_and_recover : Text → Exec (State W) RecoveryReport
  unfolding recover_chunks
  log_and_recover failed_node_id = do
    log_event env EventType.recovery_started (recovery_start_message failed_node_id)
        (node_details failed_node_id)
    recover_chunks failed_node_id

  -- `_execute_node_recovery`, and `recover_node_failure`, which holds the lock.
  unfoldable pub recover_node_failure : Text → Exec (State W) RecoveryReport
  unfolding log_and_recover
  recover_node_failure failed_node_id = do
    modify (on_db (update_node_status failed_node_id NodeStatus.offline))
    log_event env EventType.node_offline (offline_message failed_node_id)
        (node_details failed_node_id)
    log_and_recover failed_node_id
