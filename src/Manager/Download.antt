-- ===== src/Manager/Download.antt =====
-- airstore/manager/services/storage_manager.py, `stream_file_reconstruction` and `delete_file`.
pub mod Integrity
pub mod Deletion
pub mod Fetch
pub mod Streams
use air_store.Prelude.{
  ℕ, ◌+◌, ◌*◌, Text, text_eq, Bytes, Bool, true, false, Option, none, some, List, [], ◌∷◌, length,
  select, ◌==◌, if◌then◌else◌,
}
use air_store.Core.Exec.{
  Error, Result, ok, err, Exec, pure, modify, file_not_found, integrity, ◌>>=◌, ◌>>◌,
}
use air_store.Core.Models.{
  NodeModel, FileModel, ChunkModel, ChunkReplicaModel, ReplicaStatus, TransferType, TransferStatus,
  EventType, is_online, is_stored,
}
use air_store.Core.Hashing.{calculate_bytes_hash}
use air_store.Core.Chunking.{Output, ChunkStream, assemble_file_from_stream}
use air_store.Core.Encryption.{ChunkEncryptor, decrypt_chunk}
use air_store.Database.{
  Database, list_nodes, get_file, get_chunks_for_file, get_replicas_for_chunk,
  update_replica_status, create_transfer, update_transfer,
}
use air_store.Database
use air_store.Node.Handlers.{Reply, no_reply, response}
use air_store.Manager.Env.{Env, State, address_of, on_db, on_db_now, insert_or_raise, log_event}
use air_store.Manager.Messages.{
  downloaded_message, downloaded_details, deleted_message, deleted_details,
}
use air_store.Manager.Recovery.{node_of}
use air_store.Manager.Upload.{encryptor_for, progress_of, speed_of, lift}

module _ {W : Type 0} (env : Env W) where
  -- `encryptor.decrypt_chunk(raw_bytes) if encryptor else raw_bytes`
  unfoldable pub plaintext_of : Option ChunkEncryptor → Bytes → Result Bytes
  plaintext_of none raw_bytes = ok raw_bytes
  plaintext_of (some e) raw_bytes = decrypt_chunk env.aesgcm e raw_bytes none

  -- The bytes of one replica, checked: a wrong hash marks the replica CORRUPTED, and what raises
  -- is caught and passed over.
  unfoldable pub check_bytes :
      ChunkModel → NodeModel → Result Bytes → State W → Option Bytes × State W
  check_bytes chunk node (err e) s = (none, s)
  check_bytes chunk node (ok plaintext) s =
      if text_eq (calculate_bytes_hash env.sha256 plaintext) chunk.sha256
      then (some plaintext, s)
      else (
        none,
        on_db (update_replica_status chunk.chunk_id node.node_id ReplicaStatus.corrupted) s,
      )

  unfoldable pub check_reply :
      Option ChunkEncryptor
      → ChunkModel
      → NodeModel
      → Reply Bytes
      → State W
      → Option Bytes × State W
  unfolding check_bytes plaintext_of
  check_reply encryptor chunk node no_reply s = (none, s)
  check_reply encryptor chunk node (response code raw_bytes) s =
      if code == 200 then check_bytes chunk node (plaintext_of encryptor raw_bytes) s else (none, s)

  unfoldable pub fetch_replica :
      Option ChunkEncryptor → ChunkModel → Option NodeModel → State W → Option Bytes × State W
  unfolding check_reply
  fetch_replica encryptor chunk none s = (none, s)
  fetch_replica encryptor chunk (some node) s =
      let (reply, net) = env.client.get (address_of node) chunk.chunk_id s.net in
      if is_online node.status
      then check_reply encryptor chunk node reply (record s { net = net })
      else (none, s)

  -- The loop over the stored replicas, up to the first that delivers.
  unfoldable pub fetch_chunk :
      Option ChunkEncryptor
      → List NodeModel
      → ChunkModel
      → List ChunkReplicaModel
      → State W
      → Option Bytes × State W
  fetch_chunk encryptor nodes chunk [] s = (none, s)
  fetch_chunk encryptor nodes chunk (r ∷ rs) s =
      let (found, s') = fetch_replica encryptor chunk (node_of nodes r.node_id) s in
      elim found [ some bytes ↦ (some bytes, s') | none ↦ fetch_chunk encryptor nodes chunk rs s' ]

  -- `chunk_stream_generator`: what it yields, and the exception that ends it.
  unfoldable pub chunk_stream :
      Option ChunkEncryptor
      → List NodeModel
      → Text
      → ℕ
      → ℕ
      → List ChunkModel
      → State W
      → ChunkStream × State W
  chunk_stream encryptor nodes transfer_id total_chunks idx [] s =
      (record { delivered = []; raised = none }, s)
  chunk_stream encryptor nodes transfer_id total_chunks idx (chunk ∷ chunks) s =
      let stored_replicas =
        select (λ r. is_stored r.status) (get_replicas_for_chunk chunk.chunk_id s.db) in
      let (retrieved, s') = fetch_chunk encryptor nodes chunk stored_replicas s in
      elim retrieved [
        | none ↦ (record { delivered = []; raised = some integrity }, s')
        | some bytes ↦
            let (rest, t) = chunk_stream encryptor nodes transfer_id total_chunks (idx + 1) chunks (
              on_db_now
                (update_transfer transfer_id (progress_of env idx total_chunks)
                  (speed_of env idx ((idx + 1) * chunk.size)) none none)
                s') in
            (record { delivered = bytes ∷ rest.delivered; raised = rest.raised }, t)
      ]

  -- The `except` clause.
  unfoldable pub download_failed :
      Text → Error → Output → State W → (Result Bool × Output) × State W
  download_failed transfer_id e files s = (
    (err e, files),
    on_db_now
        (update_transfer transfer_id (env.float.literal 0 1) (env.float.literal 0 1)
          (some TransferStatus.failed) (some (env.describe e)))
        s,
  )

  -- The event log may raise too, inside the `try`.
  unfoldable pub settle_download :
      Text → Bool → Output → Result (Unit {0}) × State W → (Result Bool × Output) × State W
  unfolding download_failed
  settle_download transfer_id success files (ok logged, s) = ((ok success, files), s)
  settle_download transfer_id success files (err e, s) = download_failed transfer_id e files s

  -- The end of the `try` block.
  unfoldable pub finish_download :
      FileModel → Text → Result Bool × Output → State W → (Result Bool × Output) × State W
  unfolding settle_download
  finish_download file_model transfer_id (err e, files) s = download_failed transfer_id e files s
  finish_download file_model transfer_id (ok success, files) s =
      settle_download transfer_id success files (
        log_event env EventType.file_downloaded (downloaded_message file_model.filename)
          (downloaded_details file_model)
          (on_db_now
            (update_transfer transfer_id (env.float.literal 1000 1) (env.float.literal 0 1)
              (some TransferStatus.completed) none)
            s))

  -- After the transfer row: the chunks, the nodes and the stream into the output file.
  unfoldable pub run_download :
      FileModel → Text → Option ChunkEncryptor → Output → State W → (Result Bool × Output) × State W
  unfolding finish_download
  run_download file_model transfer_id encryptor files s =
      let chunks = get_chunks_for_file file_model.file_id s.db in
      let (stream, t) =
        chunk_stream encryptor (list_nodes s.db) transfer_id (length chunks) 0 chunks s in
      finish_download file_model transfer_id
        (assemble_file_from_stream env.sha256 stream file_model.overall_hash files) t

  -- The row of the transfer is written before the key is read, outside the `try`.
  unfoldable pub start_download : FileModel → Text → Exec (State W) (Option ChunkEncryptor)
  start_download file_model transfer_id = do
    insert_or_raise (λ s.
        create_transfer
          (record {
            transfer_id = transfer_id;
            file_id = file_model.file_id;
            transfer_type = TransferType.download;
            status = TransferStatus.in_progress;
            progress = env.float.literal 0 1;
            speed_mbps = env.float.literal 0 1;
            error_message = none;
            started_at = s.now;
            completed_at = none;
          })
          s.db)
    lift (encryptor_for env file_model.encrypted)

  unfoldable pub download_model :
      Option FileModel → Output → State W → (Result Bool × Output) × State W
  unfolding run_download start_download
  download_model none files s = ((err file_not_found, files), s)
  download_model (some file_model) files s =
      let transfer_id = env.uuid s.uuids in
      let (ready, t) = start_download file_model transfer_id (record s { uuids = s.uuids + 1 }) in
      elim ready [
        | err e ↦ ((err e, files), t)
        | ok encryptor ↦ run_download file_model transfer_id encryptor files t
      ]

  unfoldable pub stream_file_reconstruction :
      Text → Output → State W → (Result Bool × Output) × State W
  unfolding download_model
  stream_file_reconstruction file_id files s = download_model (get_file file_id s.db) files s

  -- DELETE of one replica on its node, if the node is ONLINE; what raises is passed over.
  unfoldable pub delete_replica_on : Text → Option NodeModel → W → W
  delete_replica_on chunk_id none net = net
  delete_replica_on chunk_id (some node) net =
      let (reply, net') = env.client.delete (address_of node) chunk_id net in
      if is_online node.status then net' else net

  unfoldable pub delete_replicas : List NodeModel → Text → List ChunkReplicaModel → W → W
  unfolding delete_replica_on
  delete_replicas nodes chunk_id [] net = net
  delete_replicas nodes chunk_id (r ∷ rs) net =
      delete_replicas nodes chunk_id rs (delete_replica_on chunk_id (node_of nodes r.node_id) net)

  unfoldable pub delete_chunks : Database → List NodeModel → List ChunkModel → W → W
  unfolding delete_replicas
  delete_chunks db nodes [] net = net
  delete_chunks db nodes (c ∷ cs) net =
      delete_chunks db nodes cs
        (delete_replicas nodes c.chunk_id (get_replicas_for_chunk c.chunk_id db) net)

  unfoldable pub delete_model : Option FileModel → Text → Exec (State W) Bool
  unfolding delete_chunks
  delete_model none file_id = pure false
  delete_model (some file_model) file_id = do
    modify (λ s. record s {
      net = delete_chunks s.db (list_nodes s.db) (get_chunks_for_file file_id s.db) s.net;
    })
    modify (on_db (λ db. (Database.delete_file file_id db).1))
    log_event env EventType.file_deleted (deleted_message file_model.filename)
        (deleted_details file_id)
    pure true

  unfoldable pub delete_file : Text → Exec (State W) Bool
  unfolding delete_model
  delete_file file_id s = delete_model (get_file file_id s.db) file_id s
