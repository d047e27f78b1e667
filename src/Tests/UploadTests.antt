-- ===== src/Tests/UploadTests.antt =====
-- Uploads to the small cluster.
use air_store.Prelude.{
  ◌≡◌, ◌≢◌, ◌⊎◌, refl, inl, Text, text_eq, text_lt, codes, Bytes, none, some, List, [],
}
use air_store.Prelude.Sort.{order_by}
use air_store.Core.Exec.{ok, err, name_error}
use air_store.Core.Formatting.{decimal, zero_padded, chunk_id_of}
use air_store.Core.Hashing.{calculate_bytes_hash, hexdigest, update}
use air_store.Core.Models.{FileStatus, ChunkModel, TransferStatus}
use air_store.Core.Chunking.{
  stream_chunks, read_chunks, number_chunks, chunk_model, feed, get_file_info_and_chunks,
}
use air_store.Database.{
  get_file, create_file, create_chunks, create_transfer, update_transfer, update_file_status,
  add_replica, add_event, list_nodes,
}
use air_store.Placement.{
  select_nodes_for_chunk, choose_nodes, is_candidate, sort_by_score, compute_node_score,
}
use air_store.Manager.Env.{State, log_event}
use air_store.Manager.Messages.{uploaded_message, uploaded_details}
use air_store.Manager.Upload.{
  start_upload, open_transfer, upload_body, on_upload_error, register_file, transfer_file,
  transfer_chunks, write_progress, complete_upload, require_active, encryptor_for, upload_chunks,
  upload_chunk, upload_replicas, upload_replica, already_exists, put_payload, payload_of,
  last_index, progress_of, speed_of,
}
use air_store.Manager.Upload.Outcome.{HasFileStatus, HasTransferStatus}
use air_store.Manager.Upload.Present.{HasFile, HasTransfer}
use air_store.Manager.Upload.Ends.{IsDone, start_upload-IsFailed, start_upload-IsDone}
use air_store.Manager.Upload.Stored.{IsStored, start_upload-IsStored, start_upload_of_nothing}
use air_store.Tests.Fixtures.{small_env, small_state, small_request}

abbrev upload_id : Text
upload_id = codes "u"

abbrev transfer_t : Text
transfer_t = codes "t"

abbrev five_bytes : Bytes
five_bytes = codes "hello"

abbrev after_upload : State (Unit {0})
after_upload =
    (start_upload small_env (small_request five_bytes 2) upload_id transfer_t small_state).1

upload_returns :
    start_upload small_env (small_request five_bytes 2) upload_id transfer_t small_state
    ≡ (ok (get_file upload_id after_upload.db), after_upload)
unfolding start_upload open_transfer upload_body on_upload_error register_file transfer_file
    transfer_chunks write_progress complete_upload require_active encryptor_for upload_chunks
    upload_chunk upload_replicas upload_replica already_exists put_payload payload_of last_index
    progress_of speed_of uploaded_message uploaded_details log_event select_nodes_for_chunk
    choose_nodes is_candidate sort_by_score compute_node_score create_file create_chunks
    create_transfer update_transfer update_file_status add_replica add_event list_nodes get_file
    stream_chunks read_chunks number_chunks chunk_model feed get_file_info_and_chunks
    calculate_bytes_hash hexdigest update decimal zero_padded chunk_id_of order_by text_eq text_lt
upload_returns = refl

start_upload-IsDone_example :
    IsDone small_env
      (small_request five_bytes 2)
      upload_id
      transfer_t
      (get_file upload_id after_upload.db)
      after_upload.db
start_upload-IsDone_example =
    start_upload-IsDone small_env (small_request five_bytes 2) upload_id transfer_t small_state
      upload_returns

start_upload-IsStored_example :
    (pieces : List (ChunkModel × Bytes)) × (stream_chunks small_env.sha256
        (some five_bytes)
        upload_id
        2
      ≡ ok pieces)
    × IsStored small_env (small_request five_bytes 2) pieces small_state.db after_upload.db
start_upload-IsStored_example =
    start_upload-IsStored small_env (small_request five_bytes 2) upload_id transfer_t small_state
      upload_returns

-- The upload of an empty file.
abbrev after_failure : State (Unit {0})
after_failure = (start_upload small_env (small_request [] 2) upload_id transfer_t small_state).1

upload_raises :
    start_upload small_env (small_request [] 2) upload_id transfer_t small_state
    ≡ (err name_error, after_failure)
unfolding start_upload open_transfer upload_body on_upload_error register_file transfer_file
    transfer_chunks write_progress complete_upload require_active encryptor_for upload_chunks
    upload_chunk upload_replicas upload_replica already_exists put_payload payload_of last_index
    progress_of speed_of uploaded_message uploaded_details log_event select_nodes_for_chunk
    choose_nodes is_candidate sort_by_score compute_node_score create_file create_chunks
    create_transfer update_transfer update_file_status add_replica add_event list_nodes get_file
    stream_chunks read_chunks number_chunks chunk_model feed get_file_info_and_chunks
    calculate_bytes_hash hexdigest update decimal zero_padded chunk_id_of order_by text_eq text_lt
upload_raises = refl

start_upload-IsFailed_example :
    HasTransfer transfer_t after_failure.db
    × HasTransferStatus transfer_t TransferStatus.failed (some (codes "error")) after_failure.db
    × (((small_request [] 2).source ≡ none) ⊎ HasFile upload_id after_failure.db)
    × HasFileStatus upload_id FileStatus.corrupted after_failure.db
start_upload-IsFailed_example =
    start_upload-IsFailed small_env (small_request [] 2) upload_id transfer_t small_state refl
      upload_raises

start_upload_of_nothing_example :
    start_upload small_env (small_request [] 2) upload_id transfer_t small_state
    ≢ (ok none, after_failure)
start_upload_of_nothing_example =
    start_upload_of_nothing small_env (small_request [] 2) [] upload_id transfer_t small_state refl
      (inl refl)
