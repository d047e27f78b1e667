-- ===== src/Tests/Fixtures.antt =====
-- A small cluster: three nodes, one file of one chunk with two replicas, and libraries that compute.
use air_store.Prelude.{
  ℕ, ◌+◌, ◌*◌, ◌-◌, max, Text, Bytes, codes, Bool, false, ◌&&◌, ◌||◌, none, some, List, [], ◌∷◌,
  ◌++◌, length, take, replicate, ltb, leb,
}
use air_store.Core.Float.{Float}
use air_store.Core.Encryption.{AesGcm}
use air_store.Core.Models.{
  NodeModel, NodeStatus, FileModel, FileStatus, ChunkModel, ChunkReplicaModel, ReplicaStatus,
}
use air_store.Core.Chunking.{Output}
use air_store.Database.{Database}
use air_store.Node.Engine.{Platform}
use air_store.Node.Handlers.{response}
use air_store.Manager.Env.{NodeClient, Env, State}
use air_store.Manager.Upload.{UploadRequest}

-- Whole numbers in place of floats.
abbrev pub whole_float : Float
whole_float = record {
  of_int = λ n. n;
  ratio = λ m n. m;
  ratio_int = λ m n. n;
  literal = λ m k. m;
  add = λ m n. m + n;
  mul = λ m n. m * n;
  div = λ m n. m;
  round2 = λ m. m;
  fmax = λ m n. max m n;
  lt = ltb;
}

-- A cipher that appends a tag of 16 zeros.
abbrev pub tag_cipher : AesGcm
tag_cipher = record {
  encrypt = λ key nonce plaintext aad. plaintext ++ replicate 16 0;
  decrypt = λ key nonce ciphertext aad. some (take (length ciphertext - 16) ciphertext);
}

abbrev pub marked_hash : Bytes → Text
marked_hash content = b'h' ∷ content

abbrev pub in_range : ℕ → ℕ → ℕ → Bool
in_range lo hi c = leb lo c && leb c hi

abbrev pub ascii_platform : Platform
ascii_platform = record {
  is_alnum = λ c. in_range b'0' b'9' c || (in_range b'A' b'Z' c || in_range b'a' b'z' c);
  sha256 = marked_hash;
}

abbrev pub content_abc : Bytes
content_abc = codes "abc"

-- Nodes that take everything, and hold the chunk "abc".
abbrev pub willing_client : NodeClient (Unit {0})
willing_client = record {
  verify = λ node chunk_id hash net. (response 200 false, net);
  put = λ node chunk_id payload hash net. (response 200 tt, net);
  get = λ node chunk_id net. (response 200 content_abc, net);
  delete = λ node chunk_id net. (response 200 tt, net);
  replicate = λ node chunk_id source hash net. (response 200 tt, net);
}

abbrev pub small_env : Env (Unit {0})
small_env = record {
  client = willing_client;
  float = whole_float;
  aesgcm = tag_cipher;
  sha256 = marked_hash;
  uuid = λ n. n ∷ [];
  nonce = λ n. replicate 12 n;
  elapsed = λ n. n + 1;
  describe = λ e. codes "error";
  encryption_key = replicate 32 7;
  auth_secret = codes "secret";
}

abbrev pub small_node : Text → ℕ → NodeModel
small_node node_id last_heartbeat = record {
  node_id = node_id;
  hostname = codes "host";
  ip = codes "10.0.0.1";
  port = 9000;
  total_storage = 1000;
  available_storage = 500;
  status = NodeStatus.online;
  last_heartbeat = last_heartbeat;
}

abbrev pub node_a : Text
node_a = codes "a"

abbrev pub node_b : Text
node_b = codes "b"

abbrev pub node_c : Text
node_c = codes "c"

abbrev pub file_f : Text
file_f = codes "f"

abbrev pub chunk_k : Text
chunk_k = codes "k"

abbrev pub small_nodes : List NodeModel
small_nodes = small_node node_a 10 ∷ (small_node node_b 95 ∷ (small_node node_c 95 ∷ []))

abbrev pub small_chunk : ChunkModel
small_chunk = record {
  chunk_id = chunk_k;
  file_id = file_f;
  sequence_number = 0;
  size = 3;
  sha256 = marked_hash content_abc;
}

abbrev pub small_file : FileModel
small_file = record {
  file_id = file_f;
  filename = codes "abc.txt";
  size = 3;
  created_at = 5;
  overall_hash = marked_hash content_abc;
  status = FileStatus.active;
  chunk_size = 4;
  replication_factor = 2;
  encrypted = false;
}

abbrev pub small_replica : Text → ℕ → ChunkReplicaModel
small_replica node_id replica_number = record {
  chunk_id = chunk_k;
  node_id = node_id;
  replica_number = replica_number;
  status = ReplicaStatus.stored;
  created_at = 5;
}

abbrev pub small_db : Database
small_db = record {
  nodes = small_nodes;
  files = small_file ∷ [];
  chunks = small_chunk ∷ [];
  chunk_replicas = small_replica node_a 1 ∷ (small_replica node_b 2 ∷ []);
  transfers = [];
  events = [];
}

-- The heartbeat of node a is 90 units old.
abbrev pub small_state : State (Unit {0})
small_state = record { db = small_db; net = tt; uuids = 0; now = 100 }

abbrev pub no_output : Output
no_output = record { out_p = none; temp_path = none }

-- A file of five bytes, in chunks of two, on two nodes each.
abbrev pub small_request : Bytes → ℕ → UploadRequest
small_request content chunk_size = record {
  source = some content;
  path_name = codes "path";
  filename = none;
  chunk_size = chunk_size;
  replication_factor = 2;
  encrypted = false;
}
