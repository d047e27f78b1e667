-- ===== src/Database/Keys/Valid.antt =====
-- The well-formed database under the statements of the manager.
use air_store.Prelude.{ℕ, ◌≡◌, refl, Text, text_eq_iff, Option, none, some, arith}
use air_store.Core.Models.{ChunkReplicaModel, TransferModel, TransferStatus}
use air_store.Database.Rows.{Database, update_where}
use air_store.Database.Nodes.{
  register_or_update_node, update_node_heartbeat, update_node_status, has_node_id,
}
use air_store.Database.Files.{update_file_status, delete_file, has_file_id}
use air_store.Database.Replicas.{update_replica_status, is_replica}
use air_store.Database.Journal.{update_transfer, has_transfer_id, write_transfer}
use air_store.Database.Keys.{map-update_where, IsDistinct-delete_where}
use air_store.Database.Keys.Steps.{
  replica_key, Step, node_registered, heartbeat_written, node_status_written, file_inserted,
  file_status_written, file_deleted, chunks_inserted, replica_recorded, replica_status_written,
  transfer_inserted, transfer_written, event_inserted, Steps, stay, then_step,
}
use air_store.Database.Keys.Grows.{Grows-IsDistinct, upsert_row-Grows, same_keys}
use air_store.Database.Keys.Tables.{
  IsValid, nodes_lem, files_lem, replicas_lem, transfers_lem, add_replica-IsValid,
  create_file-IsValid, create_transfer-IsValid, add_event-IsValid, create_chunks-IsValid,
}

transfer_id-write_transfer :
    (progress speed : ℕ) (status : Option TransferStatus) (message : Option Text) (now : ℕ)
    (t : TransferModel)
    → (write_transfer progress speed status message now t).transfer_id ≡ t.transfer_id
transfer_id-write_transfer progress speed none message now t = refl
transfer_id-write_transfer progress speed (some status) message now t = refl

-- A statement keeps a database well formed.
Step-IsValid : {a b : Database} → Step a b → IsValid a → IsValid b
unfolding register_or_update_node update_node_heartbeat update_node_status update_file_status
    delete_file update_replica_status update_transfer
Step-IsValid {a} (node_registered n) h = nodes_lem a h _ (
    upsert_row-Grows (λ x. x.node_id) (has_node_id n.node_id) _ n a.nodes (λ x. refl)
      (λ x q. ground (arith, text_eq_iff x.node_id n.node_id)))
Step-IsValid {a} (heartbeat_written node_id available total status now) h =
    nodes_lem a h _
      (same_keys (map-update_where (λ x. x.node_id) (has_node_id node_id) _ a.nodes (λ x. refl)))
Step-IsValid {a} (node_status_written node_id status) h =
    nodes_lem a h _
      (same_keys (map-update_where (λ x. x.node_id) (has_node_id node_id) _ a.nodes (λ x. refl)))
Step-IsValid {a} (file_inserted f e) h = create_file-IsValid a h f e
Step-IsValid {a} (file_status_written file_id status) h = files_lem a h _ (
    Grows-IsDistinct
      (same_keys (map-update_where (λ x. x.file_id) (has_file_id file_id) _ a.files (λ x. refl)))
      h.files)
Step-IsValid {a} (file_deleted file_id) h =
    files_lem a h _ (IsDistinct-delete_where (λ x. x.file_id) (has_file_id file_id) a.files h.files)
Step-IsValid {a} (chunks_inserted cs e) h = create_chunks-IsValid a h cs e
Step-IsValid {a} (replica_recorded r chunk node) h = add_replica-IsValid a h r chunk node
Step-IsValid {a} (replica_status_written chunk_id node_id status) h =
    let p = is_replica chunk_id node_id in
    let f = λ (r : ChunkReplicaModel). record r { status = status } in
    let same = map-update_where replica_key p f a.chunk_replicas (λ x. refl) in
    replicas_lem a h (update_where p f a.chunk_replicas) (rw same h.chunk_replicas)
      (rw same h.refers)
Step-IsValid {a} (transfer_inserted t e) h = create_transfer-IsValid a h t e
Step-IsValid {a} (transfer_written transfer_id progress speed status message now) h =
    transfers_lem a h _ (
      Grows-IsDistinct
        (same_keys (
          map-update_where (λ x. x.transfer_id) (has_transfer_id transfer_id) _ a.transfers
            (transfer_id-write_transfer progress speed status message now)))
        h.transfers)
Step-IsValid {a} (event_inserted v e) h = add_event-IsValid a h v e

pub Steps-IsValid : {a b : Database} → Steps a b → IsValid a → IsValid b
Steps-IsValid stay h = h
Steps-IsValid (then_step p s) h = Step-IsValid s (Steps-IsValid p h)
