-- ===== src/Manager/Reports.antt =====
-- airstore/manager/main.py: the HTTP handlers that only read the database.
-- The module imports neither `ReplicaStatus` nor `TransferType` nor `TransferStatus`, so the
-- comprehensions that name them raise `NameError` on their first element.
pub mod Unbound
use air_store.Prelude.{
  ℕ, ◌+◌, ltb, Text, text_eq, Bool, true, false, Option, none, some, List, [], ◌∷◌, length, select,
  find, if◌then◌else◌,
}
use air_store.Prelude.Int.{ℤ, sub_ℕ}
use air_store.Core.Exec.{Result, ok, err, name_error, http_status}
use air_store.Core.Float.{Float}
use air_store.Core.Models.{
  NodeModel, NodeStatus, FileModel, ChunkModel, ChunkReplicaModel, TransferModel, EventType,
  is_online,
}
use air_store.Database.{
  Database, list_nodes, get_file, list_files, get_chunks_for_file, get_replicas_for_chunk,
  get_all_replicas_for_file, list_transfers, list_events,
}

pub record FileDetailResponse : Type 0 where
  pub file : FileModel
  pub chunks : List ChunkModel
  pub replicas : List ChunkReplicaModel
  pub nodes : List NodeModel

-- GET /api/files/{file_id}; the nodes stand for the dictionary of them by id.
unfoldable pub get_file_details : Text → Database → Result FileDetailResponse
get_file_details file_id db = elim (get_file file_id db) [
  | none ↦ err (http_status 404)
  | some file_model ↦ ok (record {
    file = file_model;
    chunks = get_chunks_for_file file_id db;
    replicas = get_all_replicas_for_file file_id db;
    nodes = list_nodes db;
  })
]

-- `any(r.status == ReplicaStatus.STORED for r in replicas)`
unfoldable pub any_stored : List ChunkReplicaModel → Result Bool
any_stored [] = ok false
any_stored (r ∷ rs) = err name_error

-- The chunk ids that the pre-flight check collects.
unfoldable pub verified_chunk_ids : Database → List ChunkModel → Result (List Text)
unfolding any_stored
verified_chunk_ids db [] = ok []
verified_chunk_ids db (c ∷ cs) =
    let rest = verified_chunk_ids db cs in
    elim (any_stored (get_replicas_for_chunk c.chunk_id db)) [
      | err e ↦ err e
      | ok has_stored ↦ elim rest [
        | err e ↦ err e
        | ok ids ↦ ok (if has_stored then c.chunk_id ∷ ids else ids)
      ]
    ]

pub record UploadCheck : Type 0 where
  pub resumable : Bool
  pub file_id : Option Text
  pub existing_chunks : List Text

-- POST /api/files/upload/check
unfoldable pub check_upload_chunks : Text → Database → Result UploadCheck
unfolding verified_chunk_ids
check_upload_chunks filename db = elim (find (λ f. text_eq f.filename filename) (list_files db)) [
  | none ↦ ok (record { resumable = false; file_id = none; existing_chunks = [] })
  | some existing_file ↦
      elim (verified_chunk_ids db (get_chunks_for_file existing_file.file_id db)) [
        | err e ↦ err e
        | ok ids ↦ ok (record {
          resumable = true;
          file_id = some existing_file.file_id;
          existing_chunks = ids;
        })
      ]
]

-- `status == NodeStatus.OFFLINE`
abbrev pub is_offline : NodeStatus → Bool
is_offline NodeStatus.offline = true
is_offline _ = false

abbrev pub sum_of : {A : Type 0} → (A → ℕ) → List A → ℕ
sum_of f [] = 0
sum_of f (x ∷ xs) = f x + sum_of f xs

-- The capacity figures that the two handlers share; the used one may be negative.
pub record Capacity : Type 0 where
  pub total_storage : ℕ
  pub available_storage : ℕ
  pub used_storage : ℤ
  pub total_nodes : ℕ
  pub online_nodes : ℕ
  pub offline_nodes : ℕ

unfoldable pub capacity_of : List NodeModel → Capacity
capacity_of nodes =
    let online_nodes = select (λ n. is_online n.status) nodes in
    let total_cap = sum_of (λ n. n.total_storage) online_nodes in
    let avail_cap = sum_of (λ n. n.available_storage) online_nodes in
    record {
      total_storage = total_cap;
      available_storage = avail_cap;
      used_storage = sub_ℕ total_cap avail_cap;
      total_nodes = length nodes;
      online_nodes = length online_nodes;
      offline_nodes = length (select (λ n. is_offline n.status) nodes);
    }

pub record Stats : Type 0 where
  pub capacity : Capacity
  pub total_files : ℕ
  pub replication_factor : ℕ

-- GET /api/stats; the replication factor is the setting.
unfoldable pub get_system_stats : ℕ → Database → Stats
unfolding capacity_of
get_system_stats replication_factor db = record {
  capacity = capacity_of (list_nodes db);
  total_files = length (list_files db);
  replication_factor = replication_factor;
}

-- `event_type == EventType.RECOVERY_COMPLETED`
abbrev pub is_recovery_completed : EventType → Bool
is_recovery_completed EventType.recovery_completed = true
is_recovery_completed _ = false

-- The metrics of a database with no transfer; floats are bit patterns.
pub record Metrics : Type 0 where
  pub upload_bytes : ℕ
  pub capacity : Capacity
  pub recovery_count : ℕ
  pub storage_utilization_pct : ℕ

unfoldable pub metrics_without_transfers : Float → Database → Metrics
unfolding capacity_of
metrics_without_transfers fl db =
    let capacity = capacity_of (list_nodes db) in
    record {
      upload_bytes = sum_of (λ f. f.size) (list_files db);
      capacity = capacity;
      recovery_count =
          length (select (λ e. is_recovery_completed e.event_type) (list_events 100 db));
      storage_utilization_pct =
          if ltb 0 capacity.total_storage
          then fl.round2 (
              fl.mul (fl.ratio_int capacity.used_storage capacity.total_storage)
                (fl.literal 1000 1))
          else fl.literal 0 1;
    }

-- `[t for t in transfers if t.transfer_type == TransferType.UPLOAD]` and what follows it.
unfoldable pub metrics_from : Float → Database → List TransferModel → Result Metrics
unfolding metrics_without_transfers
metrics_from fl db [] = ok (metrics_without_transfers fl db)
metrics_from fl db (t ∷ ts) = err name_error

-- GET /api/metrics
unfoldable pub get_system_metrics : Float → Database → Result Metrics
unfolding metrics_from
get_system_metrics fl db = metrics_from fl db (list_transfers 100 db)
