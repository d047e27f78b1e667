-- ===== src/Manager/Upload.antt =====
-- airstore/manager/services/storage_manager.py, `process_file_upload`.
pub mod Outcome
pub mod Replicas
pub mod Stored
pub mod Frame
pub mod Rows
pub mod Sent
pub mod Kept
pub mod Present
pub mod Ends
use air_store.Prelude.{
  ℕ, ◌+◌, ◌*◌, Text, Bytes, Bool, true, false, Option, none, some, List, [], ◌∷◌, length, select,
  if◌then◌else◌,
}
use air_store.Core.Exec.{
  Result, ok, err, Exec, ◌>>◌, pure, raise, gets, modify, file_not_found, insufficient_nodes,
  name_error, transport, ◌>>=◌,
}
use air_store.Core.Models.{
  NodeModel, FileModel, FileStatus, ChunkModel, ReplicaStatus, TransferType, TransferStatus,
  EventType, is_online,
}
use air_store.Core.Chunking.{Source, get_file_info_and_chunks, stream_chunks}
use air_store.Core.Encryption.{ChunkEncryptor, new_encryptor, encrypt_chunk}
use air_store.Database.{
  list_nodes, create_file, update_file_status, get_file, create_chunks, add_replica,
  create_transfer, update_transfer,
}
use air_store.Placement.{select_nodes_for_chunk}
use air_store.Node.Handlers.{Reply, no_reply, response, is_success}
use air_store.Manager.Env.{
  Env, State, address_of, on_db, on_db_now, insert_or_raise, fresh_uuid, log_event,
}
use air_store.Manager.Messages.{uploaded_message, uploaded_details}
use air_store.Manager.Reconcile.{is_verified}

-- `resp.raise_for_status()`
abbrev pub raise_for_status : {S A : Type 0} → Reply A → Exec S (Unit {0})
raise_for_status no_reply s = (err transport, s)
raise_for_status (response code body) s = (if is_success code then ok tt else err transport, s)

abbrev pub lift : {S A : Type 0} → Result A → Exec S A
lift (ok a) s = (ok a, s)
lift (err e) s = (err e, s)

-- `filename or path.name`
abbrev pub name_or : Option Text → Text → Text
name_or none path_name = path_name
name_or (some []) path_name = path_name
name_or (some (c ∷ cs)) path_name = c ∷ cs

module _ {W : Type 0} (env : Env W) where
  -- `encryptor.encrypt_chunk(chunk_bytes) if encryptor else chunk_bytes`
  unfoldable pub payload_of : Option ChunkEncryptor → ℕ → Bytes → Bytes
  payload_of none index chunk_bytes = chunk_bytes
  payload_of (some e) index chunk_bytes =
      encrypt_chunk env.aesgcm e (env.nonce index) chunk_bytes none

  -- `chunk_info.sha256 if not encrypted else None`
  abbrev pub hash_parameter : Bool → ChunkModel → Option Text
  hash_parameter encrypted chunk = if encrypted then none else some chunk.sha256

  -- The GET /verify before the transfer, for a file that is not encrypted.
  unfoldable pub already_exists : Bool → ChunkModel → NodeModel → Exec (State W) Bool
  already_exists true chunk node s = (ok false, s)
  already_exists false chunk node s =
      let (reply, net) = env.client.verify (address_of node) chunk.chunk_id chunk.sha256 s.net in
      (ok (is_verified reply), record s { net = net })

  unfoldable pub put_payload :
      Bool → ChunkModel → Bytes → NodeModel → Bool → Exec (State W) (Unit {0})
  put_payload encrypted chunk payload node true s = (ok tt, s)
  put_payload encrypted chunk payload node false s =
      let (reply, net) =
        env.client.put (address_of node) chunk.chunk_id payload (hash_parameter encrypted chunk)
          s.net in
      raise_for_status reply (record s { net = net })

  -- One node of the loop over `target_nodes`.
  unfoldable pub upload_replica :
      Bool → ChunkModel → Bytes → ℕ → NodeModel → Exec (State W) (Unit {0})
  unfolding already_exists put_payload
  upload_replica encrypted chunk payload replica_num node = do
    exists_there ← already_exists encrypted chunk node
    put_payload encrypted chunk payload node exists_there
    modify (λ s.
        on_db
          (add_replica (record {
            chunk_id = chunk.chunk_id;
            node_id = node.node_id;
            replica_number = replica_num;
            status = ReplicaStatus.stored;
            created_at = s.now;
          }))
          s)

  unfoldable pub upload_replicas :
      Bool → ChunkModel → Bytes → ℕ → List NodeModel → Exec (State W) (Unit {0})
  upload_replicas encrypted chunk payload replica_num [] = pure tt
  upload_replicas encrypted chunk payload replica_num (node ∷ nodes) =
      upload_replica encrypted chunk payload replica_num node
      >> upload_replicas encrypted chunk payload (replica_num + 1) nodes

  unfoldable pub upload_chunk :
      Bool
      → Option ChunkEncryptor
      → List NodeModel
      → ℕ
      → ℕ
      → ChunkModel × Bytes
      → Exec (State W) (Unit {0})
  unfolding payload_of
  upload_chunk encrypted encryptor active_nodes replication_factor index (chunk, chunk_bytes) = do
    target_nodes ←
        lift (select_nodes_for_chunk env.float chunk active_nodes replication_factor none)
    upload_replicas encrypted chunk (payload_of encryptor index chunk_bytes) 1 target_nodes

  -- The loop over `enumerate(stream_chunks(…))`.
  unfoldable pub upload_chunks :
      Bool
      → Option ChunkEncryptor
      → List NodeModel
      → ℕ
      → ℕ
      → List (ChunkModel × Bytes)
      → Exec (State W) (Unit {0})
  upload_chunks encrypted encryptor active_nodes replication_factor index [] = pure tt
  upload_chunks encrypted encryptor active_nodes replication_factor index (c ∷ cs) =
      upload_chunk encrypted encryptor active_nodes replication_factor index c
      >> upload_chunks encrypted encryptor active_nodes replication_factor (index + 1) cs

  -- `index` after the loop: unbound where the loop ran no round.
  unfoldable pub last_index : List (ChunkModel × Bytes) → Exec (State W) ℕ
  last_index [] = raise name_error
  last_index (c ∷ cs) = pure (length cs)

  -- `round(((index + 1) / total_chunks) * 100.0, 2)`
  unfoldable pub progress_of : ℕ → ℕ → ℕ
  progress_of index total_chunks =
      env.float.round2
        (env.float.mul (env.float.ratio (index + 1) total_chunks) (env.float.literal 1000 1))

  -- `round((n / (1024 * 1024)) / max(elapsed, 0.001), 2)` for `n` bytes
  unfoldable pub speed_of : ℕ → ℕ → ℕ
  speed_of index n = env.float.round2 (
      env.float.div (env.float.ratio n (1024 * 1024))
        (env.float.fmax (env.elapsed index) (env.float.literal 1 3)))

  -- `ChunkEncryptor(settings.encryption_key) if encrypted else None`
  unfoldable pub encryptor_for : Bool → Result (Option ChunkEncryptor)
  encryptor_for false = ok none
  encryptor_for true = elim (new_encryptor env.encryption_key) [
    | ok e ↦ ok (some e)
    | err e ↦ err e
  ]

  -- `list_nodes` with the ONLINE nodes only; none is an error.
  unfoldable pub require_active : Exec (State W) (List NodeModel)
  require_active s = elim (select (λ n. is_online n.status) (list_nodes s.db)) [
    | [] ↦ (err insufficient_nodes, s)
    | n ∷ ns ↦ (ok (n ∷ ns), s)
  ]

-- The arguments of `process_file_upload`; `path_name` is the name of the source path.
pub record UploadRequest : Type 0 where
  pub source : Source
  pub path_name : Text
  pub filename : Option Text
  pub chunk_size : ℕ
  pub replication_factor : ℕ
  pub encrypted : Bool

module _ {W : Type 0} (env : Env W) (req : UploadRequest) where
  -- The progress that is written once, after the loop.
  unfoldable pub write_progress : Text → List (ChunkModel × Bytes) → ℕ → Exec (State W) (Unit {0})
  unfolding last_index progress_of speed_of
  write_progress transfer_id pieces total_chunks = do
    index ← last_index env pieces
    modify (
        on_db_now (λ now.
          update_transfer transfer_id (progress_of env index total_chunks)
            (speed_of env index ((index + 1) * req.chunk_size)) none none now))

  unfoldable pub transfer_chunks : Text → List (ChunkModel × Bytes) → ℕ → Exec (State W) (Unit {0})
  unfolding require_active encryptor_for write_progress
  transfer_chunks transfer_id pieces total_chunks = do
    active_nodes ← require_active env
    encryptor ← lift (encryptor_for env req.encrypted)
    upload_chunks env req.encrypted encryptor active_nodes req.replication_factor 0 pieces
    write_progress transfer_id pieces total_chunks

  -- `create_file` and `create_chunks`, with what `get_file_info_and_chunks` returned.
  unfoldable pub register_file : Text → Text × ℕ × List ChunkModel → Exec (State W) (Unit {0})
  register_file file_id info = do
    insert_or_raise (λ s.
        create_file
          (record {
            file_id = file_id;
            filename = name_or req.filename req.path_name;
            size = info.1;
            created_at = s.now;
            overall_hash = info.0;
            status = FileStatus.uploading;
            chunk_size = req.chunk_size;
            replication_factor = req.replication_factor;
            encrypted = req.encrypted;
          })
          s.db)
    insert_or_raise (λ s. create_chunks info.2 s.db)

  unfoldable pub transfer_file :
      Text → Text → Text × ℕ × List ChunkModel → Exec (State W) (Unit {0})
  unfolding transfer_chunks
  transfer_file file_id transfer_id info = do
    pieces ← lift (stream_chunks env.sha256 req.source file_id req.chunk_size)
    transfer_chunks transfer_id pieces (length info.2)

  unfoldable pub complete_upload :
      Text → Text → Text × ℕ × List ChunkModel → Exec (State W) (Option FileModel)
  complete_upload file_id transfer_id info = do
    modify (on_db (update_file_status file_id FileStatus.active))
    modify (
        on_db_now (
          update_transfer transfer_id (env.float.literal 1000 1) (env.float.literal 0 1)
            (some TransferStatus.completed) none))
    log_event env EventType.file_uploaded
        (uploaded_message (name_or req.filename req.path_name) info.1 (length info.2))
        (uploaded_details file_id (name_or req.filename req.path_name) info.1 (length info.2))
    gets (λ s. get_file file_id s.db)

  -- The `try` block.
  unfoldable pub upload_body : Text → Text → Exec (State W) (Option FileModel)
  unfolding register_file transfer_file complete_upload
  upload_body file_id transfer_id = do
    info ← lift (get_file_info_and_chunks env.sha256 req.source file_id req.chunk_size)
    register_file file_id info
    transfer_file file_id transfer_id info
    complete_upload file_id transfer_id info

  -- The `except` clause: it writes the failure down and raises again.
  unfoldable pub on_upload_error :
      Text → Text → Result (Option FileModel) × State W → Result (Option FileModel) × State W
  on_upload_error file_id transfer_id (ok r, s) = (ok r, s)
  on_upload_error file_id transfer_id (err e, s) = (
    err e,
    on_db_now
        (update_transfer transfer_id (env.float.literal 0 1) (env.float.literal 0 1)
          (some TransferStatus.failed) (some (env.describe e)))
        (on_db (update_file_status file_id FileStatus.corrupted) s),
  )

  -- The transfer row.
  unfoldable pub open_transfer : Text → Text → Exec (State W) (Unit {0})
  open_transfer file_id transfer_id = insert_or_raise (λ s.
      create_transfer
        (record {
          transfer_id = transfer_id;
          file_id = file_id;
          transfer_type = TransferType.upload;
          status = TransferStatus.in_progress;
          progress = env.float.literal 0 1;
          speed_mbps = env.float.literal 0 1;
          error_message = none;
          started_at = s.now;
          completed_at = none;
        })
        s.db)

  -- The transfer row, and the `try` statement.
  unfoldable pub start_upload : Text → Text → Exec (State W) (Option FileModel)
  unfolding open_transfer upload_body on_upload_error
  start_upload file_id transfer_id = do
    open_transfer file_id transfer_id
    λ s. on_upload_error file_id transfer_id (upload_body file_id transfer_id s)

  unfoldable pub upload_from : Source → Exec (State W) (Option FileModel)
  unfolding start_upload fresh_uuid
  upload_from none = raise file_not_found
  upload_from (some content) = do
    file_id ← fresh_uuid env
    transfer_id ← fresh_uuid env
    start_upload file_id transfer_id

  unfoldable pub process_file_upload : Exec (State W) (Option FileModel)
  unfolding upload_from
  process_file_upload = upload_from req.source
