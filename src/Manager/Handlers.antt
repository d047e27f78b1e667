-- ===== src/Manager/Handlers.antt =====
-- airstore/manager/main.py: the HTTP handlers that change the state of the manager.
pub mod Heartbeats
pub mod Registration
use air_store.Prelude.{
  ℕ, ◌+◌, Text, text_eq, codes, Bytes, Bool, Option, none, some, ◌++◌, if◌then◌else◌,
}
use air_store.Core.Exec.{Result, ok, err, Exec, ◌>>◌, pure, raise, modify, http_status, ◌>>=◌}
use air_store.Core.Models.{NodeModel, NodeStatus, FileModel, EventType}
use air_store.Core.Chunking.{Output}
use air_store.Database.{register_or_update_node, update_node_heartbeat, get_node, get_file}
use air_store.Node.Handlers.{or_http}
use air_store.Manager.Env.{Env, State, on_db_now, log_event}
use air_store.Manager.Messages.{joined_message, joined_details}
use air_store.Manager.Recovery.{RecoveryReport, recover_node_failure}
use air_store.Manager.Reconcile.{reconcile_returning_node}
use air_store.Manager.Upload.{process_file_upload}
use air_store.Manager.Download
use air_store.Manager.Download.{stream_file_reconstruction}

pub record NodeRegistrationRequest : Type 0 where
  pub node_id : Text
  pub hostname : Text
  pub ip : Text
  pub port : ℕ
  pub total_storage : ℕ
  pub available_storage : ℕ
  pub auth_secret : Text

pub record HeartbeatRequest : Type 0 where
  pub node_id : Text
  pub available_storage : ℕ
  pub total_storage : ℕ
  pub status : NodeStatus

-- The row of a node that registers: ONLINE, with a heartbeat now.
unfoldable pub registered_node : NodeRegistrationRequest → ℕ → NodeModel
registered_node req now = record {
  node_id = req.node_id;
  hostname = req.hostname;
  ip = req.ip;
  port = req.port;
  total_storage = req.total_storage;
  available_storage = req.available_storage;
  status = NodeStatus.online;
  last_heartbeat = now;
}

-- POST /api/nodes/heartbeat
unfoldable pub handle_heartbeat : {W : Type 0} → HeartbeatRequest → Exec (State W) (Unit {0})
handle_heartbeat req s =
    let (success, db) =
      update_node_heartbeat req.node_id req.available_storage req.total_storage req.status s.now
        s.db in
    (if success then ok tt else err (http_status 444), record s { db = db })

module _ {W : Type 0} (env : Env W) where
  -- POST /api/nodes/{node_id}/recover
  unfoldable pub trigger_node_recovery : Text → Exec (State W) RecoveryReport
  trigger_node_recovery node_id s = elim (get_node node_id s.db) [
    | none ↦ (err (http_status 404), s)
    | some node ↦ recover_node_failure env node_id s
  ]

  -- POST /api/nodes/register
  unfoldable pub register_node : NodeRegistrationRequest → Exec (State W) (Unit {0})
  unfolding registered_node
  register_node req s =
      if text_eq req.auth_secret env.auth_secret
      then (modify (on_db_now (λ now. register_or_update_node (registered_node req now)))
            >> (modify (λ t. (reconcile_returning_node env req.node_id t).1)
                >> log_event env EventType.node_joined (joined_message req.node_id req.ip req.port)
                    (joined_details req.node_id req.ip req.port)))
          s
      else (err (http_status 403), s)

  -- POST /api/files/upload. The parts of the body are copied to a temporary file, which is removed
  -- again in every case; `encryption_enabled` is the setting.
  unfoldable pub upload_file : Bool → Bytes → Text → ℕ → ℕ → Exec (State W) (Option FileModel)
  upload_file encryption_enabled content filename chunk_size replication_factor s =
      process_file_upload env
        (record {
          source = some content;
          path_name = env.uuid s.uuids ++ (codes "_" ++ filename);
          filename = some filename;
          chunk_size = chunk_size;
          replication_factor = replication_factor;
          encrypted = encryption_enabled;
        })
        (record s { uuids = s.uuids + 1 })

  -- The reconstruction into `temp_output`: every exception is the status 500.
  unfoldable pub serve_download :
      (Result Bool × Output) × State W → (Result Bool × Output) × State W
  serve_download ((r, files), s) = ((or_http 500 r, files), s)

  -- GET /api/files/{file_id}/download
  unfoldable pub download_file : Text → Output → State W → (Result Bool × Output) × State W
  unfolding serve_download
  download_file file_id temp_output s = elim (get_file file_id s.db) [
    | none ↦ ((err (http_status 404), temp_output), s)
    | some file_model ↦ serve_download (stream_file_reconstruction env file_id temp_output s)
  ]

  -- DELETE /api/files/{file_id}
  unfoldable pub delete_file : Text → Exec (State W) (Unit {0})
  delete_file file_id = do
    deleted ← Download.delete_file env file_id
    if deleted then pure tt else raise (http_status 404)
