-- ===== src/Manager/Steps/Requests.antt =====
-- Every request that the manager serves, and every round of its monitor, as a step of the state.
pub mod Downloads
use air_store.Prelude.{
  ℕ, ◌+◌, Text, text_eq, Bytes, Bool, true, false, Option-cases, if◌then◌else◌, Bool-cases, inl,
  inr,
}
use air_store.Core.Exec.{pure, raise, http_status}
use air_store.Core.Models.{EventType}
use air_store.Core.Chunking.{Output}
use air_store.Database.{get_node, get_file, register_or_update_node}
use air_store.Database.Keys.Steps.{
  Steps, stay, one-Step, Steps-trans, node_registered, heartbeat_written,
}
use air_store.Database.Keys.Tables.{IsValid}
use air_store.Database.Keys.Valid.{Steps-IsValid}
use air_store.Manager.Env.{Env, State, on_db_now}
use air_store.Manager.Messages.{joined_message, joined_details}
use air_store.Manager.Reconcile.{reconcile_returning_node}
use air_store.Manager.Monitor.{monitor_round}
use air_store.Manager.Handlers.{
  NodeRegistrationRequest, HeartbeatRequest, registered_node, handle_heartbeat,
  trigger_node_recovery, register_node, upload_file, download_file, delete_file,
}
use air_store.Manager.Download
use air_store.Manager.Steps.{bind-Steps, log_event-Steps}
use air_store.Manager.Steps.Recoveries.{recover_node_failure-Steps}
use air_store.Manager.Steps.Monitors.{reconcile_returning_node-Steps, monitor_round-Steps}
use air_store.Manager.Steps.Uploads.Files.{process_file_upload-Steps}
use air_store.Manager.Steps.Requests.Downloads.{stream_file_reconstruction-Steps, delete_file-Steps}

module _ {W : Type 0} (env : Env W) (timeout : ℕ) where
  handle_heartbeat-Steps :
      (req : HeartbeatRequest) (s : State W) → Steps s.db (handle_heartbeat req s).1.db
  unfolding handle_heartbeat
  handle_heartbeat-Steps req s = one-Step (heartbeat_written req.node_id _ _ req.status s.now)

  trigger_node_recovery-Steps :
      (node_id : Text) (s : State W) → Steps s.db (trigger_node_recovery env node_id s).1.db
  unfolding trigger_node_recovery
  trigger_node_recovery-Steps node_id s = elim (Option-cases (get_node node_id s.db)) [
    | inl absent ↦ rw (absent, trigger_node_recovery) stay
    | inr (node, e) ↦ rw (e, trigger_node_recovery) (recover_node_failure-Steps env node_id s)
  ]

  register_node-Steps :
      (req : NodeRegistrationRequest) (s : State W) → Steps s.db (register_node env req s).1.db
  unfolding register_node
  register_node-Steps req s =
      let t = on_db_now (λ now. register_or_update_node (registered_node req now)) s in
      let u = (reconcile_returning_node env req.node_id t).1 in
      elim (Bool-cases (text_eq req.auth_secret env.auth_secret)) [
        | inr wrong ↦ rw wrong stay
        | inl right ↦ rw right (
            Steps-trans (one-Step (node_registered (registered_node req s.now))) (
              Steps-trans (reconcile_returning_node-Steps env req.node_id t) (
                log_event-Steps env EventType.node_joined
                  (joined_message req.node_id req.ip req.port)
                  (joined_details req.node_id req.ip req.port) u)))
      ]

  download_file-Steps :
      (file_id : Text) (files : Output) (s : State W)
      → Steps s.db (download_file env file_id files s).1.db
  unfolding download_file
  download_file-Steps file_id files s = elim (Option-cases (get_file file_id s.db)) [
    | inl absent ↦ rw (absent, download_file) stay
    | inr (f, e) ↦ rw (e, download_file) (stream_file_reconstruction-Steps env file_id files s)
  ]

  delete_request-Steps :
      (file_id : Text) (s : State W) → Steps s.db (delete_file env file_id s).1.db
  unfolding delete_file
  delete_request-Steps file_id s =
      bind-Steps (Download.delete_file env file_id)
        (λ deleted. if deleted then pure tt else raise (http_status 404)) s
        (delete_file-Steps env file_id s)
        (λ deleted e. answer deleted (Download.delete_file env file_id s).1)
    where
      answer :
          (deleted : Bool) (t : State W)
          → Steps t.db
              ((if deleted then pure tt else raise {S = State W} {A = Unit {0}} (http_status 404))
                t).1.db
      answer true t = stay
      answer false t = stay

  -- What changes the state of the manager: its requests, a round of its monitor, and time.
  pub data Request : State W → State W → Type 0 where
    registers :
        {s : State W} (req : NodeRegistrationRequest) → Request s (register_node env req s).1
    beats : {s : State W} (req : HeartbeatRequest) → Request s (handle_heartbeat req s).1
    recovers : {s : State W} (node_id : Text) → Request s (trigger_node_recovery env node_id s).1
    uploads :
        {s : State W} (encrypted : Bool) (content : Bytes) (filename : Text)
        (chunk_size replication_factor : ℕ)
        → Request s (upload_file env encrypted content filename chunk_size replication_factor s).1
    downloads :
        {s : State W} (file_id : Text) (files : Output)
        → Request s (download_file env file_id files s).1
    deletes : {s : State W} (file_id : Text) → Request s (delete_file env file_id s).1
    monitors : {s : State W} → Request s (monitor_round env timeout s)
    passes : {s : State W} (now : ℕ) (net : W) → Request s (record s { now = now; net = net })

  -- Any number of them, one after the other.
  pub data Serves : State W → State W → Type 0 where
    idle : {s : State W} → Serves s s
    then_request : {s t u : State W} → Serves s t → Request t u → Serves s u

  Request-Steps : {s t : State W} → Request s t → Steps s.db t.db
  unfolding upload_file
  Request-Steps {s} (registers req) = register_node-Steps req s
  Request-Steps {s} (beats req) = handle_heartbeat-Steps req s
  Request-Steps {s} (recovers node_id) = trigger_node_recovery-Steps node_id s
  Request-Steps {s} (uploads encrypted content filename chunk_size replication_factor) =
      process_file_upload-Steps env _ (record s { uuids = s.uuids + 1 })
  Request-Steps {s} (downloads file_id files) = download_file-Steps file_id files s
  Request-Steps {s} (deletes file_id) = delete_request-Steps file_id s
  Request-Steps {s} monitors = monitor_round-Steps env timeout s
  Request-Steps {s} (passes now net) = stay

  -- Whatever requests the manager serves, in whatever order and with whatever answers of the
  -- nodes, also requests that raise half way: its database stays well formed. No table has a
  -- primary key twice, and every replica is of a chunk that has a row and on a node that has one,
  -- although the connection enforces no foreign key.
  pub Serves-IsValid : {s t : State W} → Serves s t → IsValid s.db → IsValid t.db
  Serves-IsValid idle h = h
  Serves-IsValid (then_request p r) h = Steps-IsValid (Request-Steps r) (Serves-IsValid p h)
