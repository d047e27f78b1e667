-- ===== src/Node/App.antt =====
-- airstore/node/storage.py, `get_stats`, and the start and the end of the application of
-- airstore/node/main.py with its heartbeat sender.
pub mod Counted
use air_store.Prelude.{
  ℕ, ◌+◌, ◌-◌, Text, text_eq, codes, Bool, true, false, ◌||◌, Option, none, some, [], ◌∷◌, length,
  drop, if◌then◌else◌,
}
use air_store.Core.Models.{NodeStatus}
use air_store.Node.Disk.{Disk}
use air_store.Node.Agent.{Registration, register}
use air_store.Node.Handlers.{Reply}

-- `psutil.disk_usage`, a parameter
pub record Usage : Type 0 where
  pub total : ℕ
  pub free : ℕ
  pub used : ℕ

-- The dictionary of `get_stats`.
pub record Stats : Type 0 where
  pub total_storage : ℕ
  pub available_storage : ℕ
  pub used_storage : ℕ
  pub airstore_chunk_bytes : ℕ
  pub chunk_count : ℕ

-- `glob("*.chunk")`
unfoldable pub is_chunk_name : Text → Bool
is_chunk_name name = text_eq (drop (length name - 6) name) (codes ".chunk")

abbrev pub chunk_files : Disk → Disk
chunk_files [] = []
chunk_files ((name, content) ∷ files) =
    if is_chunk_name name then (name, content) ∷ chunk_files files else chunk_files files

unfoldable pub sum_of_sizes : Disk → ℕ
sum_of_sizes [] = 0
sum_of_sizes ((name, content) ∷ files) = length content + sum_of_sizes files

unfoldable pub get_stats : Usage → Disk → Stats
unfolding is_chunk_name sum_of_sizes
get_stats usage disk = record {
  total_storage = usage.total;
  available_storage = usage.free;
  used_storage = usage.used;
  airstore_chunk_bytes = sum_of_sizes (chunk_files disk);
  chunk_count = length (chunk_files disk);
}

-- `get_lan_ip`; `none` is a socket that raised.
unfoldable pub get_lan_ip : Option Text → Text
get_lan_ip none = codes "127.0.0.1"
get_lan_ip (some ip) = ip

-- `settings.ADVERTISED_IP`, or an address for the host
unfoldable pub advertised_ip : Text → Text → Option Text → Text
unfolding get_lan_ip
advertised_ip [] host lan =
    if text_eq host (codes "0.0.0.0") || text_eq host (codes "::") then get_lan_ip lan else host
advertised_ip (c ∷ cs) host lan = c ∷ cs

-- `HeartbeatSender`: whether the loop runs, and its task. `tasks` counts the tasks created.
pub record HeartbeatSender : Type 0 where
  pub is_running : Bool
  pub has_task : Bool
  pub tasks : ℕ

unfoldable pub start : HeartbeatSender → HeartbeatSender
start s =
    if s.is_running then s else record { is_running = true; has_task = true; tasks = s.tasks + 1 }

unfoldable pub stop : HeartbeatSender → HeartbeatSender
stop s = record s { is_running = false; has_task = false }

-- The payload of a heartbeat.
pub record Heartbeat : Type 0 where
  pub node_id : Text
  pub available_storage : ℕ
  pub total_storage : ℕ
  pub status : NodeStatus

unfoldable pub heartbeat_payload : Text → Stats → Heartbeat
heartbeat_payload node_id stats = record {
  node_id = node_id;
  available_storage = stats.available_storage;
  total_storage = stats.total_storage;
  status = NodeStatus.online;
}

-- `lifespan` up to its `yield`: the registration, with the answer to each attempt, and the sender.
unfoldable pub startup :
    Bool → (ℕ → Reply (Option Bool)) → HeartbeatSender → Option Registration × HeartbeatSender
unfolding start
startup auto_register reply sender =
    (if auto_register then some (register 3 reply) else none, start sender)

-- GET /health
pub record Health : Type 0 where
  pub node_id : Text
  pub status : NodeStatus
  pub hostname : Text
  pub ip : Text
  pub port : ℕ
  pub stats : Stats

unfoldable pub health : Text → Text → Text → ℕ → Usage → Disk → Health
unfolding get_stats
health node_id hostname host port usage disk = record {
  node_id = node_id;
  status = NodeStatus.online;
  hostname = hostname;
  ip = host;
  port = port;
  stats = get_stats usage disk;
}
