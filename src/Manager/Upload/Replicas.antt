-- ===== src/Manager/Upload/Replicas.antt =====
-- services/storage_manager.py: which replicas the loop over the chunks of an upload records.
use air_store.Prelude.{
  ℕ, ◌+◌, ◌≡◌, refl, Text, text_eq_refl, Bytes, Bool, true, Option, none, List, [], ◌∷◌, All, arith,
}
use air_store.Core.Exec.{Result, ok, err}
use air_store.Core.Exec.Laws.{>>=-eq-ok}
use air_store.Core.Models.{NodeModel, ChunkModel, ChunkReplicaModel, ReplicaStatus}
use air_store.Core.Encryption.{ChunkEncryptor}
use air_store.Database.{Database, add_replica}
use air_store.Database.Rows.Laws.{any-upsert_row, any-upsert_row_self}
use air_store.Placement.{select_nodes_for_chunk}
use air_store.Manager.Env.{Env, State}
use air_store.Manager.Recovery.Keep.{holds}
use air_store.Manager.Upload.{
  already_exists, put_payload, payload_of, upload_replica, upload_replicas, upload_chunk,
  upload_chunks,
}

-- The row of a replica that was just sent.
abbrev pub sent_replica : Text → Text → ℕ → ℕ → ChunkReplicaModel
sent_replica chunk_id node_id replica_num now = record {
  chunk_id = chunk_id;
  node_id = node_id;
  replica_number = replica_num;
  status = ReplicaStatus.stored;
  created_at = now;
}

-- Every one of the nodes has a STORED replica of the chunk.
abbrev pub IsPlaced : ChunkModel → List NodeModel → Database → Type 0
IsPlaced chunk targets db = All (λ n. holds chunk.chunk_id n.node_id db ≡ true) targets

-- Each piece has target nodes that the placement selected for it, and a STORED replica on each.
abbrev pub ArePlaced :
    {W : Type 0} → Env W → List NodeModel → ℕ → List (ChunkModel × Bytes) → Database → Type 0
ArePlaced env active_nodes replication_factor pieces db =
    All
      (λ p.
        (targets : List NodeModel) × (select_nodes_for_chunk env.float p.0 active_nodes
            replication_factor none
          ≡ ok targets)
        × IsPlaced p.0 targets db)
      pieces

-- What was held stays held.
abbrev Keeps : Database → Database → Type 0
Keeps a b =
    (chunk_id node_id : Text) → holds chunk_id node_id a ≡ true → holds chunk_id node_id b ≡ true

IsPlaced-Keeps :
    (chunk : ChunkModel) (targets : List NodeModel) (a b : Database)
    → Keeps a b
    → IsPlaced chunk targets a
    → IsPlaced chunk targets b
IsPlaced-Keeps chunk [] a b keeps h = tt
IsPlaced-Keeps chunk (n ∷ ns) a b keeps h =
    (keeps chunk.chunk_id n.node_id h.0, IsPlaced-Keeps chunk ns a b keeps h.1)

add_replica-Keeps :
    (chunk_id node_id : Text) (num now : ℕ) (db : Database)
    → Keeps db (add_replica (sent_replica chunk_id node_id num now) db)
unfolding add_replica
add_replica-Keeps chunk_id node_id num now db c n h =
    any-upsert_row _ _ _ (sent_replica chunk_id node_id num now) db.chunk_replicas
      (λ r q p. ground arith) h

add_replica-holds :
    (chunk_id node_id : Text) (num now : ℕ) (db : Database)
    → holds chunk_id node_id (add_replica (sent_replica chunk_id node_id num now) db) ≡ true
unfolding add_replica
add_replica-holds chunk_id node_id num now db =
    any-upsert_row_self _ _ _ (sent_replica chunk_id node_id num now) db.chunk_replicas
      (λ r p. ground arith) (ground (arith, text_eq_refl chunk_id, text_eq_refl node_id))

module _ {W : Type 0} (env : Env W) (encrypted : Bool) where
  pub upload_replica-eq-ok :
      (chunk : ChunkModel) (payload : Bytes) (num : ℕ) (node : NodeModel) (s : State W)
      {x : Unit {0}} {s' : State W}
      → upload_replica env encrypted chunk payload num node s ≡ (ok x, s')
      → s'.db ≡ add_replica (sent_replica chunk.chunk_id node.node_id num s.now) s.db
  unfolding upload_replica already_exists put_payload
  upload_replica-eq-ok chunk payload num node s h = ground arith

  upload_replicas-IsPlaced :
      (chunk : ChunkModel) (payload : Bytes) (num : ℕ) (nodes : List NodeModel) (s : State W)
      {x : Unit {0}} {s' : State W}
      → upload_replicas env encrypted chunk payload num nodes s ≡ (ok x, s')
      → Keeps s.db s'.db × IsPlaced chunk nodes s'.db
  unfolding upload_replicas
  upload_replicas-IsPlaced chunk payload num [] s {x} {s'} h =
      let same : s ≡ s' = cc h in rw (← same) ((λ c n k. k), tt)
  upload_replicas-IsPlaced chunk payload num (node ∷ nodes) s {x} {s'} h =
      let m = upload_replica env encrypted chunk payload num node in
      let (a, t, e, k) =
        >>=-eq-ok m (λ u. upload_replicas env encrypted chunk payload (num + 1) nodes) s h in
      let row = upload_replica-eq-ok chunk payload num node s e in
      let (keeps, placed) = upload_replicas-IsPlaced chunk payload (num + 1) nodes t k in
      (
        (λ c n q.
            keeps c n
              (rw row (add_replica-Keeps chunk.chunk_id node.node_id num s.now s.db c n q))),
        (
          keeps chunk.chunk_id node.node_id
              (rw row (add_replica-holds chunk.chunk_id node.node_id num s.now s.db)),
          placed,
        ),
      )

  module _ (encryptor : Option ChunkEncryptor) (active_nodes : List NodeModel)
      (replication_factor : ℕ) where
    upload_chunk-IsPlaced :
        (index : ℕ) (piece : ChunkModel × Bytes) (s : State W) {x : Unit {0}} {s' : State W}
        → upload_chunk env encrypted encryptor active_nodes replication_factor index piece s
          ≡ (ok x, s')
        → Keeps s.db s'.db
          × (targets : List NodeModel) × (select_nodes_for_chunk env.float piece.0 active_nodes
                replication_factor none
              ≡ ok targets)
          × IsPlaced piece.0 targets s'.db
    unfolding upload_chunk
    upload_chunk-IsPlaced index (chunk, bytes) s {x} {s'} h =
        go (select_nodes_for_chunk env.float chunk active_nodes replication_factor none) refl
      where
        go :
            (r : Result (List NodeModel))
            → select_nodes_for_chunk env.float chunk active_nodes replication_factor none ≡ r
            → Keeps s.db s'.db
              × (targets : List NodeModel) × (select_nodes_for_chunk env.float chunk active_nodes
                    replication_factor none
                  ≡ ok targets)
              × IsPlaced chunk targets s'.db
        go (err e) k = absurd (ground arith)
        go (ok targets) k =
            let (keeps, placed) =
              upload_replicas-IsPlaced chunk (payload_of env encryptor index bytes) 1 targets s
                (rw (k, upload_chunk) at h) in
            (keeps, targets, k, placed)

    -- A loop over the chunks of an upload that returns has a STORED replica of every chunk on every
    -- node that the placement selects for it, and drops no STORED replica that was there.
    pub upload_chunks-ArePlaced :
        (index : ℕ) (pieces : List (ChunkModel × Bytes)) (s : State W) {x : Unit {0}} {s' : State W}
        → upload_chunks env encrypted encryptor active_nodes replication_factor index pieces s
          ≡ (ok x, s')
        → Keeps s.db s'.db × ArePlaced env active_nodes replication_factor pieces s'.db
    unfolding upload_chunks
    upload_chunks-ArePlaced index [] s {x} {s'} h =
        let same : s ≡ s' = cc h in rw (← same) ((λ c n k. k), tt)
    upload_chunks-ArePlaced index (p ∷ ps) s {x} {s'} h =
        let m = upload_chunk env encrypted encryptor active_nodes replication_factor index p in
        let (a, t, e, k) =
          >>=-eq-ok m
            (λ u.
              upload_chunks env encrypted encryptor active_nodes replication_factor (index + 1) ps)
            s h in
        let (keeps, targets, selected, placed) = upload_chunk-IsPlaced index p s e in
        let (keeps', rest) = upload_chunks-ArePlaced (index + 1) ps t k in
        (
          (λ c n q. keeps' c n (keeps c n q)),
          ((targets, selected, IsPlaced-Keeps p.0 targets t.db s'.db keeps' placed), rest),
        )
