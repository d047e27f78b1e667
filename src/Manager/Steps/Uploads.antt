-- ===== src/Manager/Steps/Uploads.antt =====
-- services/storage_manager.py: an upload, also one that fails, as a sequence of statements.
pub mod Files
use air_store.Prelude.{
  ℕ, ◌+◌, ◌≡◌, refl, sym, ap, ◌∙◌, Text, Bytes, Bool, true, false, Option, none, List, [], ◌∷◌, map,
  select, All, All-of-Elem, All-Elem, Elem, arith,
}
use air_store.Core.Exec.{Result, ok, err, Exec, ◌>>=◌, ◌>>◌, modify}
use air_store.Core.Models.{NodeModel, ChunkModel, ChunkReplicaModel, ReplicaStatus, is_online}
use air_store.Core.Encryption.{ChunkEncryptor}
use air_store.Database.{Database, list_nodes, add_replica}
use air_store.Database.Keys.Steps.{
  Steps, stay, one-Step, node_ids, chunk_ids, replica_recorded, transfer_written,
}
use air_store.Database.Keys.Kept.{Steps-Keeps}
use air_store.Node.Handlers.{Reply, no_reply, response}
use air_store.Placement.{select_nodes_for_chunk}
use air_store.Placement.Laws.{select_nodes_for_chunk_sound}
use air_store.Manager.Env.{Env, State, on_db}
use air_store.Manager.Upload.{
  UploadRequest, lift, raise_for_status, already_exists, put_payload, payload_of, upload_replica,
  upload_replicas, upload_chunk, upload_chunks, last_index, require_active, encryptor_for,
  write_progress, transfer_chunks,
}
use air_store.Manager.Upload.Sent.{require_active-eq}
use air_store.Manager.Steps.{bind-Steps}
use air_store.Manager.Steps.Recoveries.{
  AreRegistered, AreRegistered-Steps, list_nodes-AreRegistered, select-AreRegistered,
}

-- The chunks of the pieces have rows.
abbrev pub HaveRows : List ChunkModel → Database → Type 0
HaveRows cs db = All (λ c. Elem c.chunk_id (chunk_ids db)) cs

pub HaveRows-Steps :
    {a b : Database} (cs : List ChunkModel) → Steps a b → HaveRows cs a → HaveRows cs b
HaveRows-Steps [] p h = tt
HaveRows-Steps (c ∷ cs) p h = ((Steps-Keeps p).0 c.chunk_id h.0, HaveRows-Steps cs p h.1)

pub Steps-eq : (a b : Database) → b ≡ a → Steps a b
Steps-eq a b e = rw e stay

module _ {W : Type 0} where
  raise_for_status-db :
      {A : Type 0} (reply : Reply A) (s : State W) → (raise_for_status reply s).1.db ≡ s.db
  raise_for_status-db no_reply s = refl
  raise_for_status-db (response code body) s = refl

  pub lift-Steps : {A : Type 0} (r : Result A) (s : State W) → Steps s.db (lift r s).1.db
  lift-Steps (ok a) s = stay
  lift-Steps (err e) s = stay

  pub lift-eq :
      {A : Type 0} (r : Result A) (s : State W) {a : A}
      → (lift r s).0 ≡ ok a
      → (r ≡ ok a) × ((lift r s).1 ≡ s)
  lift-eq (ok b) s h = (h, refl)
  lift-eq (err e) s h = absurd (ground arith)

module _ {W : Type 0} (env : Env W) (encrypted : Bool) where
  already_exists-db :
      (chunk : ChunkModel) (node : NodeModel) (s : State W)
      → (already_exists env encrypted chunk node s).1.db ≡ s.db
  unfolding already_exists
  already_exists-db chunk node s = ground arith

  put_payload-db :
      (chunk : ChunkModel) (payload : Bytes) (node : NodeModel) (there : Bool) (s : State W)
      → (put_payload env encrypted chunk payload node there s).1.db ≡ s.db
  unfolding put_payload
  put_payload-db chunk payload node true s = refl
  put_payload-db chunk payload node false s = raise_for_status-db _ _

  upload_replica-Steps :
      (chunk : ChunkModel) (payload : Bytes) (num : ℕ) (node : NodeModel) (s : State W)
      → Elem chunk.chunk_id (chunk_ids s.db)
      → Elem node.node_id (node_ids s.db)
      → Steps s.db (upload_replica env encrypted chunk payload num node s).1.db
  unfolding upload_replica
  upload_replica-Steps chunk payload num node s known registered =
      let row : State W → ChunkReplicaModel = λ t. record {
        chunk_id = chunk.chunk_id;
        node_id = node.node_id;
        replica_number = num;
        status = ReplicaStatus.stored;
        created_at = t.now;
      } in
      let record_it : Exec (State W) (Unit {0}) = modify (λ t. on_db (add_replica (row t)) t) in
      let asked = already_exists-db chunk node s in
      bind-Steps (already_exists env encrypted chunk node)
        (λ there. put_payload env encrypted chunk payload node there >> record_it) s
        (Steps-eq s.db _ asked)
        (λ there e.
          let t = (already_exists env encrypted chunk node s).1 in
          let sent = put_payload-db chunk payload node there t in
          bind-Steps (put_payload env encrypted chunk payload node there) (λ u. record_it) t
            (Steps-eq t.db _ sent)
            (λ u k. one-Step (
              replica_recorded (row (put_payload env encrypted chunk payload node there t).1)
                (rw (sent ∙ asked) known) (rw (sent ∙ asked) registered))))

  upload_replicas-Steps :
      (chunk : ChunkModel) (payload : Bytes) (num : ℕ) (nodes : List NodeModel) (s : State W)
      → Elem chunk.chunk_id (chunk_ids s.db)
      → AreRegistered nodes s.db
      → Steps s.db (upload_replicas env encrypted chunk payload num nodes s).1.db
  unfolding upload_replicas
  upload_replicas-Steps chunk payload num [] s known registered = stay
  upload_replicas-Steps chunk payload num (node ∷ nodes) s known registered =
      let first = upload_replica-Steps chunk payload num node s known registered.0 in
      bind-Steps (upload_replica env encrypted chunk payload num node)
        (λ u. upload_replicas env encrypted chunk payload (num + 1) nodes) s first
        (λ u e.
          upload_replicas-Steps chunk payload (num + 1) nodes _
            ((Steps-Keeps first).0 chunk.chunk_id known)
            (AreRegistered-Steps nodes first registered.1))

  module _ (encryptor : Option ChunkEncryptor) (active : List NodeModel)
      (replication_factor : ℕ) where
    upload_chunk-Steps :
        (index : ℕ) (piece : ChunkModel × Bytes) (s : State W)
        → Elem piece.0.chunk_id (chunk_ids s.db)
        → AreRegistered active s.db
        → Steps s.db
            (upload_chunk env encrypted encryptor active replication_factor index piece s).1.db
    unfolding upload_chunk
    upload_chunk-Steps index (chunk, bytes) s known registered =
        let selected = select_nodes_for_chunk env.float chunk active replication_factor none in
        bind-Steps (lift selected)
          (λ targets.
            upload_replicas env encrypted chunk (payload_of env encryptor index bytes) 1 targets)
          s (lift-Steps selected s)
          (λ targets e.
            let (ok_selected, same) = lift-eq selected s e in
            let sound =
              select_nodes_for_chunk_sound env.float chunk active replication_factor none
                ok_selected in
            let nodes =
              All-of-Elem (λ (n : NodeModel). Elem n.node_id (node_ids s.db)) targets
                (λ n k.
                  All-Elem (λ m. Elem m.node_id (node_ids s.db)) n active registered
                    (All-Elem _ n targets sound.0 k).1) in
            upload_replicas-Steps chunk (payload_of env encryptor index bytes) 1 targets _
              (rw same known) (rw same nodes))

    upload_chunks-Steps :
        (index : ℕ) (pieces : List (ChunkModel × Bytes)) (s : State W)
        → HaveRows (map (λ p. p.0) pieces) s.db
        → AreRegistered active s.db
        → Steps s.db
            (upload_chunks env encrypted encryptor active replication_factor index pieces s).1.db
    unfolding upload_chunks
    upload_chunks-Steps index [] s known registered = stay
    upload_chunks-Steps index (p ∷ ps) s known registered =
        let first = upload_chunk-Steps index p s known.0 registered in
        bind-Steps (upload_chunk env encrypted encryptor active replication_factor index p)
          (λ u. upload_chunks env encrypted encryptor active replication_factor (index + 1) ps) s
          first
          (λ u e.
            upload_chunks-Steps (index + 1) ps _ (HaveRows-Steps (map (λ p. p.0) ps) first known.1)
              (AreRegistered-Steps active first registered))

module _ {W : Type 0} (env : Env W) (req : UploadRequest) where
  write_progress-Steps :
      (transfer_id : Text) (pieces : List (ChunkModel × Bytes)) (total : ℕ) (s : State W)
      → Steps s.db (write_progress env req transfer_id pieces total s).1.db
  unfolding write_progress last_index
  write_progress-Steps transfer_id [] total s = stay
  write_progress-Steps transfer_id (p ∷ ps) total s =
      one-Step (transfer_written transfer_id _ _ none none s.now)

  pub transfer_chunks-Steps :
      (transfer_id : Text) (pieces : List (ChunkModel × Bytes)) (total : ℕ) (s : State W)
      → HaveRows (map (λ p. p.0) pieces) s.db
      → Steps s.db (transfer_chunks env req transfer_id pieces total s).1.db
  unfolding transfer_chunks
  transfer_chunks-Steps transfer_id pieces total s known =
      let t = (require_active env s).1 in
      let write = write_progress env req transfer_id pieces total in
      let send = λ (active : List NodeModel) (encryptor : Option ChunkEncryptor).
        upload_chunks env req.encrypted encryptor active req.replication_factor 0 pieces in
      bind-Steps (require_active env)
        (λ active.
          lift (encryptor_for env req.encrypted) >>= (λ encryptor. send active encryptor >> write))
        s (Steps-eq s.db _ (require_active-db s))
        (λ active e.
          let (listed, same) = require_active-eq env req s (ap (λ r. (r, t)) e) in
          let nodes = list_nodes s.db in
          let registered : AreRegistered active s.db = rw (← listed) (
            select-AreRegistered (λ n. is_online n.status) nodes s.db
              (list_nodes-AreRegistered s.db)) in
          bind-Steps (lift (encryptor_for env req.encrypted))
            (λ encryptor. send active encryptor >> write) t
            (lift-Steps (encryptor_for env req.encrypted) t)
            (λ encryptor k.
              let (keyed, same') = lift-eq (encryptor_for env req.encrypted) t k in
              let u = (lift (encryptor_for env req.encrypted) t).1 in
              let at_s : u.db ≡ s.db = ap (λ (x : State W). x.db) (same' ∙ sym same) in
              bind-Steps (send active encryptor) (λ x. write) u
                (upload_chunks-Steps env req.encrypted encryptor active req.replication_factor 0
                  pieces u (rw at_s known) (rw at_s registered))
                (λ x m. write_progress-Steps transfer_id pieces total _)))
    where
      require_active-db : (s : State W) → (require_active env s).1.db ≡ s.db
      require_active-db s = go (select (λ n. is_online n.status) (list_nodes s.db)) refl
        where
          go :
              (nodes : List NodeModel)
              → select (λ n. is_online n.status) (list_nodes s.db) ≡ nodes
              → (require_active env s).1.db ≡ s.db
          go [] e = rw (e, require_active) refl
          go (n ∷ ns) e = rw (e, require_active) refl
