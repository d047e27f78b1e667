-- ===== src/Manager/Upload/Kept.antt =====
-- services/storage_manager.py: predicates on the database that the statements of an upload keep.
pub mod Body
use air_store.Prelude.{
  ℕ, ◌+◌, ◌≡◌, Text, Bytes, Bool, true, false, Option, none, some, List, [], ◌∷◌, Bool-cases,
  Option-cases, inl, inr,
}
use air_store.Core.Exec.{Result, ok, err, Exec, ◌>>=◌, ◌>>◌, modify}
use air_store.Core.Models.{
  NodeModel, FileModel, FileStatus, ChunkModel, ChunkReplicaModel, ReplicaStatus, TransferStatus,
  EventType, EventModel, Detail,
}
use air_store.Core.Encryption.{ChunkEncryptor}
use air_store.Database.{
  Database, create_file, create_chunks, add_replica, update_transfer, update_file_status, add_event,
}
use air_store.Placement.{select_nodes_for_chunk}
use air_store.Node.Handlers.{Reply, no_reply, response}
use air_store.Manager.Env.{Env, State, insert_or_raise, log_event, on_db}
use air_store.Manager.Upload.{
  UploadRequest, raise_for_status, lift, name_or, already_exists, put_payload, upload_replica,
  upload_replicas, upload_chunk, upload_chunks, payload_of,
}

-- The row of the file, as `create_file` gets it.
abbrev pub new_file :
    {W : Type 0} → UploadRequest → Text → Text × ℕ × List ChunkModel → State W → FileModel
new_file req file_id info s = record {
  file_id = file_id;
  filename = name_or req.filename req.path_name;
  size = info.1;
  created_at = s.now;
  overall_hash = info.0;
  status = FileStatus.uploading;
  chunk_size = req.chunk_size;
  replication_factor = req.replication_factor;
  encrypted = req.encrypted;
}

-- A predicate that the statements of an upload keep.
pub record IsKept (P : Database → Type 0) : Type 0 where
  pub file : (f : FileModel) {a b : Database} → create_file f a ≡ some b → P a → P b
  pub chunks : (cs : List ChunkModel) {a b : Database} → create_chunks cs a ≡ some b → P a → P b
  pub replica : (r : ChunkReplicaModel) (a : Database) → P a → P (add_replica r a)
  pub transfer :
      (transfer_id : Text) (progress speed : ℕ) (status : Option TransferStatus)
      (message : Option Text) (now : ℕ) (a : Database)
      → P a
      → P (update_transfer transfer_id progress speed status message now a)
  pub status :
      (file_id : Text) (status : FileStatus) (a : Database)
      → P a
      → P (update_file_status file_id status a)
  pub event : (e : EventModel) {a b : Database} → add_event e a ≡ some b → P a → P b

module _ {W : Type 0} (P : Database → Type 0) where
  abbrev pub Keeps : {A : Type 0} → Exec (State W) A → Type 0
  Keeps m = (s : State W) → P s.db → P (m s).1.db

  -- What holds after the first action of a chain holds after the chain.
  pub then-Keeps :
      {A B : Type 0} (m : Exec (State W) A) (f : A → Exec (State W) B) (s : State W)
      → P (m s).1.db
      → ((a : A) → Keeps (f a))
      → P ((m >>= f) s).1.db
  then-Keeps {A} {B} m f s first rest = go (m s).0 (m s).1 first
    where
      after : Result A → State W → Result B × State W
      after r t = elim r [ ok a ↦ f a t | err x ↦ (err x, t) ]

      go : (r : Result A) (t : State W) → P t.db → P (after r t).1.db
      go (ok a) t k = rest a t k
      go (err x) t k = k

  pub bind-Keeps :
      {A B : Type 0} (m : Exec (State W) A) (f : A → Exec (State W) B)
      → Keeps m
      → ((a : A) → Keeps (f a))
      → Keeps (m >>= f)
  bind-Keeps m f first rest s h = then-Keeps m f s (first s h) rest

  pub insert_or_raise-Keeps :
      (f : State W → Option Database)
      → ((s : State W) (db : Database) → f s ≡ some db → P s.db → P db)
      → Keeps (insert_or_raise f)
  insert_or_raise-Keeps f law s h = elim (Option-cases (f s)) [
    | inl taken ↦ rw (taken, insert_or_raise) h
    | inr (db, e) ↦ rw (e, insert_or_raise) (law s db e h)
  ]

  pub lift-Keeps : {A : Type 0} (r : Result A) → Keeps (lift r)
  lift-Keeps (ok a) s h = h
  lift-Keeps (err e) s h = h

  raise_for_status-Keeps : {A : Type 0} (reply : Reply A) → Keeps (raise_for_status reply)
  raise_for_status-Keeps no_reply s h = h
  raise_for_status-Keeps (response code body) s h = h

module _ {W : Type 0} (env : Env W) {P : Database → Type 0} (law : IsKept P) where
  pub log_event-Keeps :
      (kind : EventType) (message : Text) (details : List (Text × Detail))
      → Keeps P (log_event env kind message details)
  unfolding log_event
  log_event-Keeps kind message details s h =
      insert_or_raise-Keeps P (λ t. add_event (event t) t.db) (λ t db e k. law.event (event t) e k)
        (record s { uuids = s.uuids + 1 }) h
    where
      event : State W → EventModel
      event t = record {
        event_id = env.uuid s.uuids;
        event_type = kind;
        message = message;
        details = details;
        timestamp = t.now;
      }

  module _ (encrypted : Bool) where
    already_exists-Keeps :
        (chunk : ChunkModel) (node : NodeModel) → Keeps P (already_exists env encrypted chunk node)
    unfolding already_exists
    already_exists-Keeps chunk node s h = elim (Bool-cases encrypted) [
      | inl e ↦ rw (e, already_exists) h
      | inr e ↦ rw (e, already_exists) h
    ]

    put_payload-Keeps :
        (chunk : ChunkModel) (payload : Bytes) (node : NodeModel) (there : Bool)
        → Keeps P (put_payload env encrypted chunk payload node there)
    unfolding put_payload
    put_payload-Keeps chunk payload node true s h = h
    put_payload-Keeps chunk payload node false s h = raise_for_status-Keeps P _ _ h

    upload_replica-Keeps :
        (chunk : ChunkModel) (payload : Bytes) (num : ℕ) (node : NodeModel)
        → Keeps P (upload_replica env encrypted chunk payload num node)
    unfolding upload_replica
    upload_replica-Keeps chunk payload num node =
        let record_it : Exec (State W) (Unit {0}) = modify (λ t.
          on_db
            (add_replica (record {
              chunk_id = chunk.chunk_id;
              node_id = node.node_id;
              replica_number = num;
              status = ReplicaStatus.stored;
              created_at = t.now;
            }))
            t) in
        bind-Keeps P (already_exists env encrypted chunk node)
          (λ there. put_payload env encrypted chunk payload node there >> record_it)
          (already_exists-Keeps chunk node)
          (λ there.
            bind-Keeps P (put_payload env encrypted chunk payload node there) (λ u. record_it)
              (put_payload-Keeps chunk payload node there) (λ u t k. law.replica _ t.db k))

    upload_replicas-Keeps :
        (chunk : ChunkModel) (payload : Bytes) (num : ℕ) (nodes : List NodeModel)
        → Keeps P (upload_replicas env encrypted chunk payload num nodes)
    unfolding upload_replicas
    upload_replicas-Keeps chunk payload num [] = λ s h. h
    upload_replicas-Keeps chunk payload num (node ∷ nodes) =
        bind-Keeps P (upload_replica env encrypted chunk payload num node)
          (λ u. upload_replicas env encrypted chunk payload (num + 1) nodes)
          (upload_replica-Keeps chunk payload num node)
          (λ u. upload_replicas-Keeps chunk payload (num + 1) nodes)

    module _ (encryptor : Option ChunkEncryptor) (active_nodes : List NodeModel)
        (replication_factor : ℕ) where
      upload_chunk-Keeps :
          (index : ℕ) (piece : ChunkModel × Bytes)
          → Keeps P
              (upload_chunk env encrypted encryptor active_nodes replication_factor index piece)
      unfolding upload_chunk
      upload_chunk-Keeps index (chunk, bytes) =
          let payload = payload_of env encryptor index bytes in
          bind-Keeps P
            (lift (select_nodes_for_chunk env.float chunk active_nodes replication_factor none))
            (λ targets. upload_replicas env encrypted chunk payload 1 targets) (lift-Keeps P _)
            (λ targets. upload_replicas-Keeps chunk payload 1 targets)

      pub upload_chunks-Keeps :
          (index : ℕ) (pieces : List (ChunkModel × Bytes))
          → Keeps P
              (upload_chunks env encrypted encryptor active_nodes replication_factor index pieces)
      unfolding upload_chunks
      upload_chunks-Keeps index [] = λ s h. h
      upload_chunks-Keeps index (p ∷ ps) =
          bind-Keeps P
            (upload_chunk env encrypted encryptor active_nodes replication_factor index p)
            (λ u.
              upload_chunks env encrypted encryptor active_nodes replication_factor (index + 1) ps)
            (upload_chunk-Keeps index p) (λ u. upload_chunks-Keeps (index + 1) ps)
