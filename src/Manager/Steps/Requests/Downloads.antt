-- ===== src/Manager/Steps/Requests/Downloads.antt =====
-- services/storage_manager.py: a download and the deletion of a file as sequences of statements.
use air_store.Prelude.{
  ℕ, ◌+◌, ◌*◌, Text, text_eq, Bytes, Bool, true, Option, none, some, List, [], ◌∷◌, select, length,
  ◌==◌, Option-cases, Bool-cases, inl, inr,
}
use air_store.Core.Exec.{Error, Result, ok, err, pure}
use air_store.Core.Exec.Laws.{Result-cases}
use air_store.Core.Models.{
  NodeModel, FileModel, ChunkModel, ChunkReplicaModel, ReplicaStatus, TransferModel, TransferType,
  TransferStatus, EventType, is_online, is_stored,
}
use air_store.Core.Hashing.{calculate_bytes_hash}
use air_store.Core.Chunking.{Output, assemble_file_from_stream}
use air_store.Core.Encryption.{ChunkEncryptor}
use air_store.Database.{
  Database, list_nodes, get_file, get_chunks_for_file, get_replicas_for_chunk, create_transfer,
  update_transfer,
}
use air_store.Database
use air_store.Database.Keys.Steps.{
  Steps, stay, one-Step, Steps-trans, file_deleted, replica_status_written, transfer_inserted,
  transfer_written,
}
use air_store.Node.Handlers.{Reply, no_reply, response}
use air_store.Manager.Env.{Env, State, address_of, on_db_now, insert_or_raise, log_event}
use air_store.Manager.Messages.{
  downloaded_message, downloaded_details, deleted_message, deleted_details,
}
use air_store.Manager.Recovery.{node_of}
use air_store.Manager.Upload.{encryptor_for, progress_of, speed_of, lift}
use air_store.Manager.Download.{
  check_bytes, check_reply, fetch_replica, fetch_chunk, chunk_stream, download_failed,
  settle_download, finish_download, run_download, start_download, download_model,
  stream_file_reconstruction, delete_chunks, delete_model, delete_file,
}
use air_store.Manager.Steps.{bind-Steps, insert-Steps, log_event-Steps}
use air_store.Manager.Steps.Uploads.{lift-Steps}

module _ {W : Type 0} (env : Env W) where
  check_bytes-Steps :
      (chunk : ChunkModel) (node : NodeModel) (r : Result Bytes) (s : State W)
      → Steps s.db (check_bytes env chunk node r s).1.db
  unfolding check_bytes
  check_bytes-Steps chunk node (err e) s = stay
  check_bytes-Steps chunk node (ok bytes) s =
      elim (Bool-cases (text_eq (calculate_bytes_hash env.sha256 bytes) chunk.sha256)) [
        | inl good ↦ rw good stay
        | inr bad ↦
            rw bad (
              one-Step (replica_status_written chunk.chunk_id node.node_id ReplicaStatus.corrupted))
      ]

  module _ (encryptor : Option ChunkEncryptor) (nodes : List NodeModel) where
    check_reply-Steps :
        (chunk : ChunkModel) (node : NodeModel) (reply : Reply Bytes) (s : State W)
        → Steps s.db (check_reply env encryptor chunk node reply s).1.db
    unfolding check_reply
    check_reply-Steps chunk node no_reply s = stay
    check_reply-Steps chunk node (response code raw) s = elim (Bool-cases (code == 200)) [
      | inl good ↦ rw good (check_bytes-Steps chunk node _ s)
      | inr bad ↦ rw bad stay
    ]

    fetch_replica-Steps :
        (chunk : ChunkModel) (node : Option NodeModel) (s : State W)
        → Steps s.db (fetch_replica env encryptor chunk node s).1.db
    unfolding fetch_replica
    fetch_replica-Steps chunk none s = stay
    fetch_replica-Steps chunk (some node) s =
        let answer = env.client.get (address_of node) chunk.chunk_id s.net in
        elim (Bool-cases (is_online node.status)) [
          | inl up ↦ rw up (check_reply-Steps chunk node answer.0 (record s { net = answer.1 }))
          | inr down ↦ rw down stay
        ]

    fetch_chunk-Steps :
        (chunk : ChunkModel) (reps : List ChunkReplicaModel) (s : State W)
        → Steps s.db (fetch_chunk env encryptor nodes chunk reps s).1.db
    unfolding fetch_chunk
    fetch_chunk-Steps chunk [] s = stay
    fetch_chunk-Steps chunk (r ∷ rs) s =
        let x = fetch_replica env encryptor chunk (node_of nodes r.node_id) s in
        let first = fetch_replica-Steps chunk (node_of nodes r.node_id) s in
        elim (Option-cases x.0) [
          | inr (bytes, e) ↦ rw (e, fetch_chunk) first
          | inl e ↦ rw (e, fetch_chunk) (Steps-trans first (fetch_chunk-Steps chunk rs x.1))
        ]

    chunk_stream-Steps :
        (transfer_id : Text) (total idx : ℕ) (chunks : List ChunkModel) (s : State W)
        → Steps s.db (chunk_stream env encryptor nodes transfer_id total idx chunks s).1.db
    unfolding chunk_stream
    chunk_stream-Steps transfer_id total idx [] s = stay
    chunk_stream-Steps transfer_id total idx (c ∷ cs) s =
        let reps = select (λ r. is_stored r.status) (get_replicas_for_chunk c.chunk_id s.db) in
        let x = fetch_chunk env encryptor nodes c reps s in
        let t =
          on_db_now
            (update_transfer transfer_id (progress_of env idx total)
              (speed_of env idx ((idx + 1) * c.size)) none none)
            x.1 in
        elim (Option-cases x.0) [
          | inl e ↦ rw (e, chunk_stream) (fetch_chunk-Steps c reps s)
          | inr (bytes, e) ↦
              rw (e, chunk_stream)
                (Steps-trans (fetch_chunk-Steps c reps s) (
                  Steps-trans (one-Step (transfer_written transfer_id _ _ none none x.1.now))
                    (chunk_stream-Steps transfer_id total (idx + 1) cs t)))
        ]

  download_failed-Steps :
      (transfer_id : Text) (e : Error) (files : Output) (s : State W)
      → Steps s.db (download_failed env transfer_id e files s).1.db
  unfolding download_failed
  download_failed-Steps transfer_id e files s =
      one-Step (
        transfer_written transfer_id _ _ (some TransferStatus.failed) (some (env.describe e)) s.now)

  settle_download-Steps :
      (transfer_id : Text) (success : Bool) (files : Output) (r : Result (Unit {0})) (s : State W)
      → Steps s.db (settle_download env transfer_id success files (r, s)).1.db
  unfolding settle_download
  settle_download-Steps transfer_id success files (ok x) s = stay
  settle_download-Steps transfer_id success files (err e) s =
      download_failed-Steps transfer_id e files s

  finish_download-Steps :
      (f : FileModel) (transfer_id : Text) (r : Result Bool) (files : Output) (s : State W)
      → Steps s.db (finish_download env f transfer_id (r, files) s).1.db
  unfolding finish_download
  finish_download-Steps f transfer_id (err e) files s = download_failed-Steps transfer_id e files s
  finish_download-Steps f transfer_id (ok success) files s =
      let t =
        on_db_now
          (update_transfer transfer_id (env.float.literal 1000 1) (env.float.literal 0 1)
            (some TransferStatus.completed) none)
          s in
      let log =
        log_event env EventType.file_downloaded (downloaded_message f.filename)
          (downloaded_details f) in
      Steps-trans
        (one-Step (transfer_written transfer_id _ _ (some TransferStatus.completed) none s.now))
        (Steps-trans
          (log_event-Steps env EventType.file_downloaded (downloaded_message f.filename)
            (downloaded_details f) t)
          (settle_download-Steps transfer_id success files (log t).0 (log t).1))

  run_download-Steps :
      (f : FileModel) (transfer_id : Text) (encryptor : Option ChunkEncryptor) (files : Output)
      (s : State W)
      → Steps s.db (run_download env f transfer_id encryptor files s).1.db
  unfolding run_download
  run_download-Steps f transfer_id encryptor files s =
      let chunks = get_chunks_for_file f.file_id s.db in
      let x = chunk_stream env encryptor (list_nodes s.db) transfer_id (length chunks) 0 chunks s in
      let whole = assemble_file_from_stream env.sha256 x.0 f.overall_hash files in
      Steps-trans
        (chunk_stream-Steps encryptor (list_nodes s.db) transfer_id (length chunks) 0 chunks s)
        (finish_download-Steps f transfer_id whole.0 whole.1 x.1)

  start_download-Steps :
      (f : FileModel) (transfer_id : Text) (s : State W)
      → Steps s.db (start_download env f transfer_id s).1.db
  unfolding start_download
  start_download-Steps f transfer_id s =
      let row : State W → TransferModel = λ t. record {
        transfer_id = transfer_id;
        file_id = f.file_id;
        transfer_type = TransferType.download;
        status = TransferStatus.in_progress;
        progress = env.float.literal 0 1;
        speed_mbps = env.float.literal 0 1;
        error_message = none;
        started_at = t.now;
        completed_at = none;
      } in
      let insert = insert_or_raise (λ t. create_transfer (row t) t.db) in
      bind-Steps insert (λ u. lift (encryptor_for env f.encrypted)) s
        (insert-Steps (λ t. create_transfer (row t) t.db) s (λ db e. transfer_inserted (row s) e))
        (λ u e. lift-Steps (encryptor_for env f.encrypted) (insert s).1)

  download_model-Steps :
      (f : Option FileModel) (files : Output) (s : State W)
      → Steps s.db (download_model env f files s).1.db
  unfolding download_model
  download_model-Steps none files s = stay
  download_model-Steps (some f) files s =
      let x = start_download env f (env.uuid s.uuids) (record s { uuids = s.uuids + 1 }) in
      let first = start_download-Steps f (env.uuid s.uuids) (record s { uuids = s.uuids + 1 }) in
      elim (Result-cases x.0) [
        | inl (encryptor, e) ↦
            rw (e, download_model)
              (Steps-trans first (run_download-Steps f (env.uuid s.uuids) encryptor files x.1))
        | inr (error, e) ↦ rw (e, download_model) first
      ]

  pub stream_file_reconstruction-Steps :
      (file_id : Text) (files : Output) (s : State W)
      → Steps s.db (stream_file_reconstruction env file_id files s).1.db
  unfolding stream_file_reconstruction
  stream_file_reconstruction-Steps file_id files s =
      download_model-Steps (get_file file_id s.db) files s

  delete_model-Steps :
      (f : Option FileModel) (file_id : Text) (s : State W)
      → Steps s.db (delete_model env f file_id s).1.db
  unfolding delete_model
  delete_model-Steps none file_id s = stay
  delete_model-Steps (some f) file_id s =
      let t = record s {
        net = delete_chunks env s.db (list_nodes s.db) (get_chunks_for_file file_id s.db) s.net;
        db = (Database.delete_file file_id s.db).1;
      } in
      Steps-trans (one-Step (file_deleted file_id)) (
        bind-Steps
          (log_event env EventType.file_deleted (deleted_message f.filename)
            (deleted_details file_id))
          (λ u. pure true) t
          (log_event-Steps env EventType.file_deleted (deleted_message f.filename)
            (deleted_details file_id) t)
          (λ u e. stay))

  pub delete_file-Steps :
      (file_id : Text) (s : State W) → Steps s.db (delete_file env file_id s).1.db
  unfolding delete_file
  delete_file-Steps file_id s = delete_model-Steps (get_file file_id s.db) file_id s
