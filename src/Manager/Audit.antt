-- ===== src/Manager/Audit.antt =====
-- airstore/manager/services/recovery_service.py, `audit_replica_consistency`.
pub mod Healthy
use air_store.Prelude.{
  ℕ, ◌+◌, Bool, true, false, List, [], ◌∷◌, length, select, ltb, ◌==◌, if◌then◌else◌,
}
use air_store.Core.Models.{
  FileModel, ChunkModel, ChunkReplicaModel, ReplicaStatus, is_stored, is_missing, is_corrupted,
}
use air_store.Database.{Database, list_files, get_chunks_for_file, get_replicas_for_chunk}

-- The counters of `audit_replica_consistency`.
pub record Audit : Type 0 where
  pub total_files : ℕ
  pub total_chunks : ℕ
  pub total_replicas : ℕ
  pub stored_replicas : ℕ
  pub missing_replicas : ℕ
  pub corrupted_replicas : ℕ
  pub inconsistent_files_count : ℕ

-- The counts of one chunk: STORED, MISSING, CORRUPTED.
unfoldable pub count_status : (ReplicaStatus → Bool) → List ChunkReplicaModel → ℕ
count_status p replicas = length (select (λ r. p r.status) replicas)

unfoldable pub audit_chunks : Database → ℕ → List ChunkModel → Bool × Audit → Bool × Audit
audit_chunks db replication_factor [] acc = acc
audit_chunks db replication_factor (c ∷ cs) (file_inconsistent, a) =
    let reps = get_replicas_for_chunk c.chunk_id db in
    let stored = count_status is_stored reps in
    audit_chunks db replication_factor cs (
      if ltb stored replication_factor then true else file_inconsistent,
      record a {
        total_replicas = a.total_replicas + length reps;
        stored_replicas = a.stored_replicas + stored;
        missing_replicas = a.missing_replicas + count_status is_missing reps;
        corrupted_replicas = a.corrupted_replicas + count_status is_corrupted reps;
      },
    )

unfoldable pub audit_files : Database → List FileModel → Audit → Audit
unfolding audit_chunks count_status
audit_files db [] a = a
audit_files db (f ∷ fs) a =
    let chunks = get_chunks_for_file f.file_id db in
    let (file_inconsistent, a') =
      audit_chunks db f.replication_factor chunks
        (false, record a { total_chunks = a.total_chunks + length chunks }) in
    audit_files db fs (
      if file_inconsistent
      then record a' { inconsistent_files_count = a'.inconsistent_files_count + 1 }
      else a')

unfoldable pub audit_replica_consistency : Database → Audit
unfolding audit_files
audit_replica_consistency db =
    let files = list_files db in
    audit_files db files (record {
      total_files = length files;
      total_chunks = 0;
      total_replicas = 0;
      stored_replicas = 0;
      missing_replicas = 0;
      corrupted_replicas = 0;
      inconsistent_files_count = 0;
    })

-- `"healthy": len(inconsistent_files) == 0`
abbrev pub healthy : Audit → Bool
healthy a = a.inconsistent_files_count == 0
