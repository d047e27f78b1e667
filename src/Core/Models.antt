-- ===== src/Core/Models.antt =====
-- airstore/core/models.py: the enumerations and the rows of the database.
-- Sizes are numbers of bytes, times are microseconds since an epoch, and a float is known by the
-- number of its bit pattern.
use air_store.Prelude.{ℕ, Text, Bool, true, false, Option, List}

pub data NodeStatus : Type 0 where
  online offline recovering degraded : NodeStatus

pub data FileStatus : Type 0 where
  uploading active degraded recovering corrupted deleted : FileStatus

pub data ReplicaStatus : Type 0 where
  stored missing corrupted pending : ReplicaStatus

pub data TransferType : Type 0 where
  upload download : TransferType

pub data TransferStatus : Type 0 where
  in_progress completed failed : TransferStatus

pub data EventType : Type 0 where
  node_joined node_offline node_healthy : EventType
  file_uploaded file_downloaded file_deleted : EventType
  chunk_created chunk_replicated chunk_verified chunk_corrupted : EventType
  recovery_started recovery_completed recovery_failed : EventType

-- `status == NodeStatus.ONLINE`
abbrev pub is_online : NodeStatus → Bool
is_online NodeStatus.online = true
is_online _ = false

-- `status == ReplicaStatus.STORED`
abbrev pub is_stored : ReplicaStatus → Bool
is_stored ReplicaStatus.stored = true
is_stored _ = false

-- `status == ReplicaStatus.MISSING`
abbrev pub is_missing : ReplicaStatus → Bool
is_missing ReplicaStatus.missing = true
is_missing _ = false

-- `status == ReplicaStatus.CORRUPTED`
abbrev pub is_corrupted : ReplicaStatus → Bool
is_corrupted ReplicaStatus.corrupted = true
is_corrupted _ = false

-- `status in (TransferStatus.COMPLETED, TransferStatus.FAILED)`
abbrev pub is_finished : TransferStatus → Bool
is_finished TransferStatus.in_progress = false
is_finished _ = true

pub record NodeModel : Type 0 where
  pub node_id : Text
  pub hostname : Text
  pub ip : Text
  pub port : ℕ
  pub total_storage : ℕ
  pub available_storage : ℕ
  pub status : NodeStatus
  pub last_heartbeat : ℕ

pub record FileModel : Type 0 where
  pub file_id : Text
  pub filename : Text
  pub size : ℕ
  pub created_at : ℕ
  pub overall_hash : Text
  pub status : FileStatus
  pub chunk_size : ℕ
  pub replication_factor : ℕ
  pub encrypted : Bool

pub record ChunkModel : Type 0 where
  pub chunk_id : Text
  pub file_id : Text
  pub sequence_number : ℕ
  pub size : ℕ
  pub sha256 : Text

pub record ChunkReplicaModel : Type 0 where
  pub chunk_id : Text
  pub node_id : Text
  pub replica_number : ℕ
  pub status : ReplicaStatus
  pub created_at : ℕ

pub record TransferModel : Type 0 where
  pub transfer_id : Text
  pub file_id : Text
  pub transfer_type : TransferType
  pub status : TransferStatus
  pub progress : ℕ
  pub speed_mbps : ℕ
  pub error_message : Option Text
  pub started_at : ℕ
  pub completed_at : Option ℕ

-- A value of the `details` dictionary of an event.
pub data Detail : Type 0 where
  text : Text → Detail
  number : ℕ → Detail

pub record EventModel : Type 0 where
  pub event_id : Text
  pub event_type : EventType
  pub message : Text
  pub details : List (Text × Detail)
  pub timestamp : ℕ
