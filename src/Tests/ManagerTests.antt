-- ===== src/Tests/ManagerTests.antt =====
-- Recovery, monitoring, download and audit of the small cluster.
use air_store.Core.Formatting.{decimal}
use air_store.Manager.Messages.{
  node_details, offline_message, recovery_end_details, recovery_end_message, recovery_start_message,
}
use air_store.Prelude.{
  text_lt, ◌+◌, ◌≡◌, ◌≢◌, ◌↔◌, refl, Text, codes, text_eq, true, false, none, some, [], length, All,
  arith,
}
use air_store.Prelude.Sort.{order_by}
use air_store.Core.Models.{ReplicaStatus}
use air_store.Core.Exec.{ok, err}
use air_store.Database.{
  get_file, get_chunk, get_replicas_for_node, get_replicas_for_chunk, list_nodes, list_files,
  update_node_status, update_replica_status, add_replica, add_event, get_chunks_for_file,
}
use air_store.Placement.{
  select_nodes_for_chunk, choose_nodes, is_candidate, sort_by_score, compute_node_score,
}
use air_store.Manager.Env.{State, log_event}
use air_store.Manager.Recovery.{
  RecoveryReport, counted_recovered, recover_node_failure, log_and_recover, recover_chunks,
  recover_affected, finish_recovery, recover_replicas, recover_replica, copy_from, replicate_to,
  record_new_replica, is_surviving, node_of, mark_missing, mark_file_corrupted, existing_node_ids,
  max_replica_number,
}
use air_store.Manager.Recovery.Retire.{IsOffline, IsRetired, recover_node_failure-IsRetired}
use air_store.Manager.Recovery.Keep.{holds, recover_node_failure-holds}
use air_store.Manager.Recovery.Copies.{IsCopied, recover_replica-IsCopied}
use air_store.Manager.Recovery.Counts.{AllKnown, recover_node_failure-count}
use air_store.Manager.Monitor.{has_timed_out, check_node, check_nodes, check_nodes_now}
use air_store.Manager.Monitor.Timeouts.{IsOut, check_nodes_now-IsOut}
use air_store.Manager.Reconcile.{reconcile_returning_node}
use air_store.Manager.Reconcile.Verified.{IsSound, reconcile_returning_node-IsSound}
use air_store.Manager.Handlers.{
  HeartbeatRequest, handle_heartbeat, NodeRegistrationRequest, register_node,
}
use air_store.Manager.Handlers.Registration.{IsRegistered, register_node_outcomes}
use air_store.Manager.Handlers.Heartbeats.{IsReported, handle_heartbeat_outcomes}
use air_store.Database.{has_node_id, get_node}
use air_store.Core.Exec.{http_status}
use air_store.Core.Models.{NodeStatus, NodeModel}
use air_store.Prelude.{any, if◌then◌else◌}
use air_store.Tests.Fixtures.{small_node}
use air_store.Manager.Download.{stream_file_reconstruction}
use air_store.Manager.Download.Integrity.{Delivers, stream_file_reconstruction-Delivers}
use air_store.Manager.Download
use air_store.Manager.Download.Deletion.{delete_file_outcomes}
use air_store.Core.Models.{FileModel}
use air_store.Prelude.{◌⊎◌}
use air_store.Manager.Audit.{audit_replica_consistency, healthy}
use air_store.Manager.Audit.Healthy.{IsReplicated, audit_replica_consistency-healthy}
use air_store.Manager.Reports.{UploadCheck, check_upload_chunks}
use air_store.Manager.Reports.Unbound.{check_upload_chunks_empty}
use air_store.Tests.Fixtures.{
  small_env, small_state, small_db, small_nodes, small_replica, node_a, node_b, file_f, chunk_k,
  no_output,
}

abbrev after_recovery : State (Unit {0})
after_recovery = (recover_node_failure small_env node_a small_state).1

abbrev one_recovered : RecoveryReport
one_recovered = record { is_complete = true; recovered_chunks = 1; failed_chunks = 0 }

recovers_one :
    recover_node_failure small_env node_a small_state ≡ (ok one_recovered, after_recovery)
unfolding recover_node_failure log_and_recover recover_chunks log_event add_event update_node_status
    text_eq text_lt order_by recover_affected get_replicas_for_node finish_recovery recover_replicas
    recover_replica get_replicas_for_chunk mark_missing update_replica_status list_nodes get_chunk
    select_nodes_for_chunk choose_nodes compute_node_score is_candidate sort_by_score add_replica
    decimal node_details offline_message recovery_end_details recovery_end_message
    recovery_start_message copy_from existing_node_ids is_surviving node_of max_replica_number
    record_new_replica replicate_to mark_file_corrupted
recovers_one = refl

recover_node_failure-IsRetired_example :
    IsOffline node_a after_recovery.db × IsRetired node_a after_recovery.db
recover_node_failure-IsRetired_example =
    recover_node_failure-IsRetired small_env node_a small_state recovers_one

b_holds : holds chunk_k node_b small_db ≡ true
unfolding text_eq
b_holds = refl

b_apart : node_b ≢ node_a
b_apart h = absurd (ground arith)

recover_node_failure-holds_example : holds chunk_k node_b after_recovery.db ≡ true
recover_node_failure-holds_example =
    recover_node_failure-holds small_env node_a chunk_k node_b small_state recovers_one b_apart
      b_holds

a_known : AllKnown small_db.chunks (get_replicas_for_node node_a small_db)
unfolding get_replicas_for_node text_eq
a_known = ((λ h. absurd (ground arith)), tt)

recover_node_failure-count_example :
    (one_recovered.recovered_chunks + one_recovered.failed_chunks
      ≡ length (get_replicas_for_node node_a small_db))
    × ((one_recovered.is_complete ≡ true) ↔ (one_recovered.failed_chunks ≡ 0))
recover_node_failure-count_example =
    recover_node_failure-count small_env node_a small_state a_known recovers_one

-- The state in which the replica of node a is MISSING.
abbrev without_a : State (Unit {0})
without_a = record small_state {
  db = update_replica_status chunk_k node_a ReplicaStatus.missing small_db;
}

counts_one :
    (recover_replica small_env small_nodes small_nodes (small_replica node_a 1) without_a).0
    ≡ counted_recovered
unfolding recover_node_failure log_and_recover recover_chunks log_event add_event update_node_status
    text_eq text_lt order_by recover_affected get_replicas_for_node finish_recovery recover_replicas
    recover_replica get_replicas_for_chunk mark_missing update_replica_status list_nodes get_chunk
    select_nodes_for_chunk choose_nodes compute_node_score is_candidate sort_by_score add_replica
    decimal node_details offline_message recovery_end_details recovery_end_message
    recovery_start_message copy_from existing_node_ids is_surviving node_of max_replica_number
    record_new_replica replicate_to mark_file_corrupted
counts_one = refl

recover_replica-IsCopied_example :
    IsCopied small_env small_nodes small_nodes chunk_k
      (get_replicas_for_chunk chunk_k without_a.db)
      without_a
      (recover_replica small_env small_nodes small_nodes (small_replica node_a 1) without_a).1
recover_replica-IsCopied_example =
    recover_replica-IsCopied small_env small_nodes small_nodes (small_replica node_a 1) without_a
      counts_one

-- A round with a timeout of 30 units.
abbrev after_round : State (Unit {0})
after_round = (check_nodes_now small_env 30 small_state).1

round_returns : check_nodes_now small_env 30 small_state ≡ (ok tt, after_round)
unfolding check_nodes_now check_nodes check_node has_timed_out recover_node_failure log_and_recover
    recover_chunks log_event add_event update_node_status text_eq text_lt order_by recover_affected
    get_replicas_for_node finish_recovery recover_replicas recover_replica get_replicas_for_chunk
    mark_missing update_replica_status list_nodes get_chunk select_nodes_for_chunk choose_nodes
    compute_node_score is_candidate sort_by_score add_replica decimal node_details offline_message
    recovery_end_details recovery_end_message recovery_start_message copy_from existing_node_ids
    is_surviving node_of max_replica_number record_new_replica replicate_to mark_file_corrupted
round_returns = refl

check_nodes_now-IsOut_example :
    All (λ n. has_timed_out 30 100 n ≡ true → IsOut n.node_id after_round.db) (list_nodes small_db)
check_nodes_now-IsOut_example =
    check_nodes_now-IsOut small_env 30 small_state after_round round_returns

stream_file_reconstruction-Delivers_example :
    let x = stream_file_reconstruction small_env file_f no_output small_state in
    Delivers small_env (get_file file_f small_db) small_db no_output x.0.0 x.0.1
stream_file_reconstruction-Delivers_example =
    stream_file_reconstruction-Delivers small_env file_f no_output small_state

audit_replica_consistency-healthy_example :
    (healthy (audit_replica_consistency small_db) ≡ true)
    ↔ All (IsReplicated small_db) (list_files small_db)
audit_replica_consistency-healthy_example = audit_replica_consistency-healthy small_db

-- The answer for a file name that no file has.
abbrev no_resume : UploadCheck
no_resume = record { resumable = false; file_id = none; existing_chunks = [] }

nothing_to_resume : check_upload_chunks (codes "new.txt") small_db ≡ ok no_resume
unfolding check_upload_chunks list_files order_by text_eq
nothing_to_resume = refl

check_upload_chunks_empty_example :
    (no_resume.existing_chunks ≡ [])
    × ((file_id : Text)
        → no_resume.file_id ≡ some file_id
        → All
            (λ c. get_replicas_for_chunk c.chunk_id small_db ≡ [])
            (get_chunks_for_file file_id small_db))
check_upload_chunks_empty_example =
    check_upload_chunks_empty (codes "new.txt") small_db nothing_to_resume

b_registered : get_node node_b small_db ≡ some (small_node node_b 95)
unfolding get_node text_eq
b_registered = refl

reconcile_returning_node-IsSound_example :
    IsSound small_env node_b
      (small_node node_b 95)
      small_db
      (reconcile_returning_node small_env node_b small_state).1.db
reconcile_returning_node-IsSound_example =
    reconcile_returning_node-IsSound small_env node_b (small_node node_b 95) small_state
      b_registered

abbrev heartbeat_of_a : HeartbeatRequest
heartbeat_of_a = record {
  node_id = node_a;
  available_storage = 400;
  total_storage = 1000;
  status = NodeStatus.online;
}

handle_heartbeat_outcomes_example :
    let (r, s') = handle_heartbeat heartbeat_of_a small_state in
    if any (has_node_id node_a) small_nodes
    then (r ≡ ok tt)
      × All
          (λ n.
            has_node_id node_a n ≡ true
            → IsReported heartbeat_of_a 100 n × (has_timed_out 30 100 n ≡ false))
          s'.db.nodes
    else (r ≡ err (http_status 444)) × (s' ≡ small_state)
handle_heartbeat_outcomes_example = handle_heartbeat_outcomes heartbeat_of_a 30 small_state

abbrev registration_of_d : NodeRegistrationRequest
registration_of_d = record {
  node_id = codes "d";
  hostname = codes "host";
  ip = codes "10.0.0.4";
  port = 9003;
  total_storage = 1000;
  available_storage = 1000;
  auth_secret = codes "secret";
}

register_node_outcomes_example :
    if text_eq registration_of_d.auth_secret small_env.auth_secret
    then ((n : NodeModel) × (get_node registration_of_d.node_id
            (register_node small_env registration_of_d small_state).1.db
          ≡ some n)
        × IsRegistered registration_of_d 100 n)
    else register_node small_env registration_of_d small_state
      ≡ (err (http_status 403), small_state)
register_node_outcomes_example = register_node_outcomes small_env registration_of_d small_state

delete_file_outcomes_example :
    let (r, s') = Download.delete_file small_env file_f small_state in
    ((get_file file_f small_db ≡ none) × (r ≡ ok false) × (s' ≡ small_state))
    ⊎ ((f : FileModel) × (get_file file_f small_db ≡ some f)
        × (get_file file_f s'.db ≡ none)
        × (s'.db.chunks ≡ small_db.chunks)
        × (s'.db.chunk_replicas ≡ small_db.chunk_replicas))
delete_file_outcomes_example = delete_file_outcomes small_env file_f small_state
