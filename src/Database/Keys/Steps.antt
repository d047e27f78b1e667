-- ===== src/Database/Keys/Steps.antt =====
-- The statements by which the manager changes its database, as a step relation.
use air_store.Prelude.{ℕ, ◌≡◌, Text, Option, some, List, map, Elem}
use air_store.Core.Models.{
  NodeModel, NodeStatus, FileModel, FileStatus, ChunkModel, ChunkReplicaModel, ReplicaStatus,
  TransferModel, TransferStatus, EventModel,
}
use air_store.Database.Rows.{Database}
use air_store.Database.Nodes.{register_or_update_node, update_node_heartbeat, update_node_status}
use air_store.Database.Files.{create_file, update_file_status, delete_file, create_chunks}
use air_store.Database.Replicas.{add_replica, update_replica_status}
use air_store.Database.Journal.{create_transfer, update_transfer, add_event}

abbrev pub node_ids : Database → List Text
node_ids db = map (λ n. n.node_id) db.nodes

abbrev pub file_ids : Database → List Text
file_ids db = map (λ f. f.file_id) db.files

abbrev pub chunk_ids : Database → List Text
chunk_ids db = map (λ c. c.chunk_id) db.chunks

-- A replica's key is its chunk with its node.
abbrev pub replica_key : ChunkReplicaModel → Text × Text
replica_key r = (r.chunk_id, r.node_id)

abbrev pub replica_ids : Database → List (Text × Text)
replica_ids db = map replica_key db.chunk_replicas

abbrev pub transfer_ids : Database → List Text
transfer_ids db = map (λ t. t.transfer_id) db.transfers

abbrev pub event_ids : Database → List Text
event_ids db = map (λ e. e.event_id) db.events

-- One statement. A replica is only ever recorded for a chunk and a node that have rows.
pub data Step : Database → Database → Type 0 where
  node_registered : {db : Database} (n : NodeModel) → Step db (register_or_update_node n db)
  heartbeat_written :
      {db : Database} (node_id : Text) (available total : ℕ) (status : NodeStatus) (now : ℕ)
      → Step db (update_node_heartbeat node_id available total status now db).1
  node_status_written :
      {db : Database} (node_id : Text) (status : NodeStatus)
      → Step db (update_node_status node_id status db)
  file_inserted : {db db' : Database} (f : FileModel) → create_file f db ≡ some db' → Step db db'
  file_status_written :
      {db : Database} (file_id : Text) (status : FileStatus)
      → Step db (update_file_status file_id status db)
  file_deleted : {db : Database} (file_id : Text) → Step db (delete_file file_id db).1
  chunks_inserted :
      {db db' : Database} (cs : List ChunkModel) → create_chunks cs db ≡ some db' → Step db db'
  replica_recorded :
      {db : Database} (r : ChunkReplicaModel)
      → Elem r.chunk_id (chunk_ids db)
      → Elem r.node_id (node_ids db)
      → Step db (add_replica r db)
  replica_status_written :
      {db : Database} (chunk_id node_id : Text) (status : ReplicaStatus)
      → Step db (update_replica_status chunk_id node_id status db)
  transfer_inserted :
      {db db' : Database} (t : TransferModel) → create_transfer t db ≡ some db' → Step db db'
  transfer_written :
      {db : Database} (transfer_id : Text) (progress speed : ℕ) (status : Option TransferStatus)
      (message : Option Text) (now : ℕ)
      → Step db (update_transfer transfer_id progress speed status message now db)
  event_inserted : {db db' : Database} (e : EventModel) → add_event e db ≡ some db' → Step db db'

-- Any number of statements.
pub data Steps : Database → Database → Type 0 where
  stay : {db : Database} → Steps db db
  then_step : {a b c : Database} → Steps a b → Step b c → Steps a c

pub one-Step : {a b : Database} → Step a b → Steps a b
one-Step s = then_step stay s

pub Steps-trans : {a b c : Database} → Steps a b → Steps b c → Steps a c
Steps-trans p stay = p
Steps-trans p (then_step q s) = then_step (Steps-trans p q) s
