-- ===== src/Tests/RoundtripTests.antt =====
-- An encrypted file goes to three nodes with a disk each, and comes back.
use air_store.Prelude.{
  ℕ, ◌≡◌, refl, inl, inr, Text, text_eq, text_lt, codes, Bytes, Bool, true, none, some, List, [],
  ◌∷◌, arith,
}
use air_store.Prelude.Sort.{order_by}
use air_store.Core.Exec.{ok}
use air_store.Core.Formatting.{decimal, zero_padded, chunk_id_of}
use air_store.Core.Hashing.{calculate_bytes_hash, hexdigest, update}
use air_store.Core.Encryption.{new_encryptor, encrypt_chunk}
use air_store.Core.Models.{NodeModel}
use air_store.Core.Chunking.{
  stream_chunks, read_chunks, number_chunks, chunk_model, feed, get_file_info_and_chunks,
}
use air_store.Database.{
  get_file, create_file, create_chunks, create_transfer, update_transfer, update_file_status,
  add_replica, add_event, list_nodes,
}
use air_store.Placement.{
  select_nodes_for_chunk, choose_nodes, is_candidate, sort_by_score, compute_node_score,
}
use air_store.Node.Engine
use air_store.Node.Engine.{
  is_safe, safe_id, get_chunk_path, get_temp_path, hash_agrees, replace_chunk,
}
use air_store.Node.Disk.{read_file, write_file, remove_file, rename_file}
use air_store.Node.Handlers.{store_chunk, is_traversal, has_double_dot}
use air_store.Node.Handlers.Safety.{IsPlatform}
use air_store.Manager.Env.{Address, Env, State, log_event}
use air_store.Manager.Messages.{uploaded_message, uploaded_details}
use air_store.Manager.Store.{IsStore}
use air_store.Manager.Upload.{
  UploadRequest, start_upload, open_transfer, upload_body, on_upload_error, register_file,
  transfer_file, transfer_chunks, write_progress, complete_upload, require_active, encryptor_for,
  upload_chunks, upload_chunk, upload_replicas, upload_replica, already_exists, put_payload,
  payload_of, last_index, progress_of, speed_of,
}
use air_store.Manager.Download.{stream_file_reconstruction}
use air_store.Manager.Handlers.{upload_file, download_file}
use air_store.Manager.Monitor.{monitor_round}
use air_store.Manager.Roundtrip.{IsCluster, AreFresh, IsUnheld, upload_then_download}
use air_store.Database.Keys.Tables.{IsValid}
use air_store.Manager.Steps.Requests.{
  Serves, idle, then_request, uploads, downloads, passes, monitors, Serves-IsValid,
}
use air_store.Cluster.{Disks, put_on, client}
use air_store.Cluster.Laws.{disk_view, client-IsStore}
use air_store.Cluster.Names.{IsAscii, IsSafeId, clustered, clustered-IsCluster}
use air_store.Tests.CoreTests.{tag_cipher-IsAesGcm}
use air_store.Tests.Fixtures.{
  ascii_platform, whole_float, tag_cipher, small_node, small_env, small_request, node_a, node_b,
  node_c, no_output,
}

abbrev all_up : Address → Bool
all_up node = true

client-IsStore_example :
    IsStore (disk_view ascii_platform all_up) (client ascii_platform all_up) ascii_platform.sha256
client-IsStore_example = client-IsStore ascii_platform all_up

abbrev node_at : Text → ℕ → NodeModel
node_at node_id port = record (small_node node_id 95) { port = port }

abbrev three_nodes : List NodeModel
three_nodes = node_at node_a 9001 ∷ (node_at node_b 9002 ∷ (node_at node_c 9003 ∷ []))

abbrev disks_env : Env Disks
disks_env = clustered ascii_platform all_up (record {
  client = client ascii_platform all_up;
  float = whole_float;
  aesgcm = tag_cipher;
  sha256 = ascii_platform.sha256;
  uuid = small_env.uuid;
  nonce = small_env.nonce;
  elapsed = small_env.elapsed;
  describe = small_env.describe;
  encryption_key = small_env.encryption_key;
  auth_secret = small_env.auth_secret;
})

abbrev empty_disks : State Disks
empty_disks = record {
  db = record {
    nodes = three_nodes;
    files = [];
    chunks = [];
    chunk_replicas = [];
    transfers = [];
    events = [];
  };
  net = λ node. [];
  uuids = 0;
  now = 100;
}

abbrev new_file : Text
new_file = codes "u"

abbrev hello : Bytes
hello = codes "hello"

abbrev secret_request : UploadRequest
secret_request = record (small_request hello 2) { encrypted = true }

abbrev on_disks : State Disks
on_disks = (start_upload disks_env secret_request new_file (codes "t") empty_disks).1

hello_stored :
    start_upload disks_env secret_request new_file (codes "t") empty_disks
    ≡ (ok (get_file new_file on_disks.db), on_disks)
unfolding start_upload open_transfer upload_body on_upload_error register_file transfer_file
    transfer_chunks write_progress complete_upload require_active encryptor_for upload_chunks
    upload_chunk upload_replicas upload_replica already_exists put_payload payload_of last_index
    progress_of speed_of uploaded_message uploaded_details log_event select_nodes_for_chunk
    choose_nodes is_candidate sort_by_score compute_node_score create_file create_chunks
    create_transfer update_transfer update_file_status add_replica add_event list_nodes get_file
    stream_chunks read_chunks number_chunks chunk_model feed get_file_info_and_chunks
    calculate_bytes_hash hexdigest update decimal zero_padded chunk_id_of order_by text_eq text_lt
    new_encryptor encrypt_chunk put_on store_chunk Engine.store_chunk is_safe safe_id get_chunk_path
    get_temp_path hash_agrees replace_chunk read_file write_file remove_file rename_file
    is_traversal has_double_dot client
hello_stored = refl

ascii_platform-IsPlatform : IsPlatform ascii_platform
ascii_platform-IsPlatform = record { dot = refl; slash = refl; backslash = refl }

ascii_platform-IsAscii : IsAscii ascii_platform
ascii_platform-IsAscii = record {
  digits = λ d h. ground arith;
  letters = (refl, (refl, (refl, (refl, (refl, tt)))));
}

new_file-IsSafeId : IsSafeId ascii_platform new_file
unfolding is_safe
new_file-IsSafeId = (refl, tt)

disks_env-IsCluster : IsCluster disks_env (disk_view ascii_platform all_up) new_file
disks_env-IsCluster =
    clustered-IsCluster ascii_platform all_up disks_env new_file ascii_platform-IsPlatform
      ascii_platform-IsAscii new_file-IsSafeId tag_cipher-IsAesGcm (λ i. refl)

empty_disks-IsValid : IsValid empty_disks.db
empty_disks-IsValid = record {
  nodes = (
    (λ e. elim e [
      | inl k ↦ absurd (ground (arith, k))
      | inr l ↦ elim l [ inl k ↦ absurd (ground (arith, k)) | inr m ↦ m ]
    ]),
    ((λ e. elim e [ inl k ↦ absurd (ground (arith, k)) | inr m ↦ m ]), ((λ e. e), tt)),
  );
  files = tt;
  chunks = tt;
  chunk_replicas = tt;
  transfers = tt;
  events = tt;
  refers = tt;
}

nothing_held :
    IsUnheld disks_env secret_request hello new_file empty_disks on_disks
      (disk_view ascii_platform all_up)
unfolding Engine.retrieve_chunk read_file
nothing_held node i = refl

fresh_ids : AreFresh disks_env secret_request hello new_file empty_disks on_disks
unfolding start_upload open_transfer upload_body on_upload_error register_file transfer_file
    transfer_chunks write_progress complete_upload require_active encryptor_for upload_chunks
    upload_chunk upload_replicas upload_replica already_exists put_payload payload_of last_index
    progress_of speed_of uploaded_message uploaded_details log_event select_nodes_for_chunk
    choose_nodes is_candidate sort_by_score compute_node_score create_file create_chunks
    create_transfer update_transfer update_file_status add_replica add_event list_nodes get_file
    stream_chunks read_chunks number_chunks chunk_model feed get_file_info_and_chunks
    calculate_bytes_hash hexdigest update decimal zero_padded chunk_id_of order_by text_eq text_lt
    new_encryptor encrypt_chunk put_on store_chunk Engine.store_chunk is_safe safe_id get_chunk_path
    get_temp_path hash_agrees replace_chunk read_file write_file remove_file rename_file
    is_traversal has_double_dot client
fresh_ids = record { file = refl; transfer = refl; event = refl }

upload_then_download_example :
    (stream_file_reconstruction disks_env new_file no_output on_disks).0
    ≡ (ok true, record { out_p = some hello; temp_path = none })
upload_then_download_example =
    upload_then_download disks_env secret_request hello new_file empty_disks on_disks
      (disk_view ascii_platform all_up) (codes "t") no_output disks_env-IsCluster nothing_held refl
      (omega arith) empty_disks-IsValid fresh_ids hello_stored

-- An upload, a round of the monitor after a pause, and a download.
abbrev second_disks : State Disks
second_disks = (upload_file disks_env true hello (codes "h.txt") 2 2 empty_disks).1

abbrev third_disks : State Disks
third_disks = monitor_round disks_env 30 (record second_disks { now = 200 })

abbrev some_requests :
    Serves disks_env 30 empty_disks (download_file disks_env new_file no_output third_disks).1
some_requests =
    then_request
      (then_request
        (then_request (then_request idle (uploads true hello (codes "h.txt") 2 2))
          (passes 200 second_disks.net))
        monitors)
      (downloads new_file no_output)

Serves-IsValid_example : IsValid (download_file disks_env new_file no_output third_disks).1.db
Serves-IsValid_example = Serves-IsValid disks_env 30 some_requests empty_disks-IsValid
