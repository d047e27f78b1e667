-- ===== src/Manager/Audit/Healthy.antt =====
-- services/recovery_service.py: what the field `healthy` of an audit says.
use air_store.Prelude.{
  ℕ, ◌+◌, ◌≤◌, ◌≡◌, ◌↔◌, refl, Bool, true, false, List, [], ◌∷◌, length, ltb, All, Bool-cases, inl,
  inr, arith, if◌then◌else◌,
}
use air_store.Core.Models.{FileModel, ChunkModel, is_stored, is_missing, is_corrupted}
use air_store.Database.{Database, list_files, get_chunks_for_file, get_replicas_for_chunk}
use air_store.Manager.Audit.{
  Audit, count_status, audit_chunks, audit_files, audit_replica_consistency, healthy,
}

-- Each of the chunks has at least as many STORED replicas.
abbrev pub AreReplicated : Database → ℕ → List ChunkModel → Type 0
AreReplicated db replication_factor chunks =
    All (λ c. replication_factor ≤ count_status is_stored (get_replicas_for_chunk c.chunk_id db))
      chunks

abbrev pub IsReplicated : Database → FileModel → Type 0
IsReplicated db f = AreReplicated db f.replication_factor (get_chunks_for_file f.file_id db)

audit_chunks_iff :
    (db : Database) (rf : ℕ) (cs : List ChunkModel) (b : Bool) (a : Audit)
    → (((audit_chunks db rf cs (b, a)).0 ≡ false) ↔ ((b ≡ false) × AreReplicated db rf cs))
unfolding audit_chunks
audit_chunks_iff db rf [] b a = ((λ h. (h, tt)), λ h. h.0)
audit_chunks_iff db rf (c ∷ cs) b a =
    let reps = get_replicas_for_chunk c.chunk_id db in
    let stored = count_status is_stored reps in
    let a' : Audit = record a {
      total_replicas = a.total_replicas + length reps;
      stored_replicas = a.stored_replicas + stored;
      missing_replicas = a.missing_replicas + count_status is_missing reps;
      corrupted_replicas = a.corrupted_replicas + count_status is_corrupted reps;
    } in
    let ih = audit_chunks_iff db rf cs (if ltb stored rf then true else b) a' in
    (
      (λ h. let k = ih.0 h in (ground (arith, k.0), (ground (arith, k.0), k.1))),
      (λ h. ih.1 (ground (arith, h.0, h.1.0), h.1.1)),
    )

audit_chunks-inconsistent :
    (db : Database) (rf : ℕ) (cs : List ChunkModel) (b : Bool) (a : Audit)
    → (audit_chunks db rf cs (b, a)).1.inconsistent_files_count ≡ a.inconsistent_files_count
unfolding audit_chunks
audit_chunks-inconsistent db rf [] b a = refl
audit_chunks-inconsistent db rf (c ∷ cs) b a = audit_chunks-inconsistent db rf cs _ _

audit_files_iff :
    (db : Database) (fs : List FileModel) (a : Audit)
    → (((audit_files db fs a).inconsistent_files_count ≡ 0)
        ↔ ((a.inconsistent_files_count ≡ 0) × All (IsReplicated db) fs))
unfolding audit_files
audit_files_iff db [] a = ((λ h. (h, tt)), λ h. h.0)
audit_files_iff db (f ∷ fs) a =
    let chunks = get_chunks_for_file f.file_id db in
    let a1 : Audit = record a { total_chunks = a.total_chunks + length chunks } in
    let x = audit_chunks db f.replication_factor chunks (false, a1) in
    let count = audit_chunks-inconsistent db f.replication_factor chunks false a1 in
    let here = audit_chunks_iff db f.replication_factor chunks false a1 in
    elim (Bool-cases x.0) [
      | inl bad ↦ (
        (λ h.
            let k =
              (audit_files_iff db fs
                  (record x.1 { inconsistent_files_count = x.1.inconsistent_files_count + 1 })).0
                (rw (bad, audit_files) at h) in
            absurd (omega (arith, k.0))),
        (λ h. let good = here.1 (refl, h.1.0) in absurd (ground arith)),
      )
      | inr good ↦ (
        (λ h.
            let k = (audit_files_iff db fs x.1).0 (rw (good, audit_files) at h) in
            (omega (arith, k.0, count), ((here.0 good).1, k.1))),
        (λ h.
            rw (good, audit_files)
              ((audit_files_iff db fs x.1).1 (omega (arith, h.0, count), h.1.1))),
      )
    ]

-- An audit is healthy exactly if every chunk of every listed file has at least as many STORED
-- replicas as the replication factor of the file.
pub audit_replica_consistency-healthy :
    (db : Database)
    → ((healthy (audit_replica_consistency db) ≡ true) ↔ All (IsReplicated db) (list_files db))
unfolding audit_replica_consistency
audit_replica_consistency-healthy db =
    let start : Audit = record {
      total_files = length (list_files db);
      total_chunks = 0;
      total_replicas = 0;
      stored_replicas = 0;
      missing_replicas = 0;
      corrupted_replicas = 0;
      inconsistent_files_count = 0;
    } in
    let iff = audit_files_iff db (list_files db) start in
    ((λ h. (iff.0 (ground arith)).1), λ h. let z = iff.1 (refl, h) in ground arith)
