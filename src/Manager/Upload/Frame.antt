-- ===== src/Manager/Upload/Frame.antt =====
-- services/storage_manager.py: what the loop over the chunks of an upload leaves alone.
use air_store.Prelude.{ℕ, ◌+◌, ◌≡◌, refl, ◌∙◌, Bytes, Bool, Option, none, List, [], ◌∷◌, arith}
use air_store.Core.Exec.{Result, ok, err}
use air_store.Core.Exec.Laws.{>>=-eq-ok}
use air_store.Core.Models.{NodeModel, ChunkModel}
use air_store.Core.Encryption.{ChunkEncryptor}
use air_store.Database.{Database, add_replica}
use air_store.Placement.{select_nodes_for_chunk}
use air_store.Manager.Env.{Env, State}
use air_store.Manager.Upload.{
  payload_of, upload_replica, upload_replicas, upload_chunk, upload_chunks,
}
use air_store.Manager.Upload.Replicas.{upload_replica-eq-ok}

-- The tables that an upload of chunks does not write.
pub record SameOthers (a b : Database) : Type 0 where
  pub nodes : a.nodes ≡ b.nodes
  pub files : a.files ≡ b.files
  pub chunks : a.chunks ≡ b.chunks
  pub events : a.events ≡ b.events

SameOthers-refl : (a : Database) → SameOthers a a
SameOthers-refl a = record { nodes = refl; files = refl; chunks = refl; events = refl }

pub SameOthers-trans : {a b c : Database} → SameOthers a b → SameOthers b c → SameOthers a c
SameOthers-trans p q = record {
  nodes = p.nodes ∙ q.nodes;
  files = p.files ∙ q.files;
  chunks = p.chunks ∙ q.chunks;
  events = p.events ∙ q.events;
}

module _ {W : Type 0} (env : Env W) (encrypted : Bool) where
  upload_replica-SameOthers :
      (chunk : ChunkModel) (payload : Bytes) (num : ℕ) (node : NodeModel) (s : State W)
      {x : Unit {0}} {s' : State W}
      → upload_replica env encrypted chunk payload num node s ≡ (ok x, s')
      → SameOthers s'.db s.db
  unfolding add_replica
  upload_replica-SameOthers chunk payload num node s h =
      rw (upload_replica-eq-ok env encrypted chunk payload num node s h)
        (record { nodes = refl; files = refl; chunks = refl; events = refl })

  upload_replicas-SameOthers :
      (chunk : ChunkModel) (payload : Bytes) (num : ℕ) (nodes : List NodeModel) (s : State W)
      {x : Unit {0}} {s' : State W}
      → upload_replicas env encrypted chunk payload num nodes s ≡ (ok x, s')
      → SameOthers s'.db s.db
  unfolding upload_replicas
  upload_replicas-SameOthers chunk payload num [] s {x} {s'} h =
      let same : s ≡ s' = cc h in rw (← same) (SameOthers-refl s.db)
  upload_replicas-SameOthers chunk payload num (node ∷ nodes) s h =
      let (u, t, e, k) =
        >>=-eq-ok (upload_replica env encrypted chunk payload num node)
          (λ u. upload_replicas env encrypted chunk payload (num + 1) nodes) s h in
      SameOthers-trans (upload_replicas-SameOthers chunk payload (num + 1) nodes t k)
        (upload_replica-SameOthers chunk payload num node s e)

  module _ (encryptor : Option ChunkEncryptor) (active_nodes : List NodeModel)
      (replication_factor : ℕ) where
    upload_chunk-SameOthers :
        (index : ℕ) (chunk : ChunkModel) (bytes : Bytes) (s : State W) {x : Unit {0}} {s' : State W}
        → upload_chunk env encrypted encryptor active_nodes replication_factor index
            (chunk, bytes)
            s
          ≡ (ok x, s')
        → SameOthers s'.db s.db
    unfolding upload_chunk
    upload_chunk-SameOthers index chunk bytes s {x} {s'} h =
        go (select_nodes_for_chunk env.float chunk active_nodes replication_factor none) refl
      where
        go :
            (r : Result (List NodeModel))
            → select_nodes_for_chunk env.float chunk active_nodes replication_factor none ≡ r
            → SameOthers s'.db s.db
        go (err e) k = absurd (ground arith)
        go (ok targets) k =
            upload_replicas-SameOthers chunk (payload_of env encryptor index bytes) 1 targets s
              (rw (k, upload_chunk) at h)

    pub upload_chunks-SameOthers :
        (index : ℕ) (pieces : List (ChunkModel × Bytes)) (s : State W) {x : Unit {0}} {s' : State W}
        → upload_chunks env encrypted encryptor active_nodes replication_factor index pieces s
          ≡ (ok x, s')
        → SameOthers s'.db s.db
    unfolding upload_chunks
    upload_chunks-SameOthers index [] s {x} {s'} h =
        let same : s ≡ s' = cc h in rw (← same) (SameOthers-refl s.db)
    upload_chunks-SameOthers index (p ∷ ps) s h =
        let (u, t, e, k) =
          >>=-eq-ok (upload_chunk env encrypted encryptor active_nodes replication_factor index p)
            (λ u.
              upload_chunks env encrypted encryptor active_nodes replication_factor (index + 1) ps)
            s h in
        SameOthers-trans (upload_chunks-SameOthers (index + 1) ps t k)
          (upload_chunk-SameOthers index p.0 p.1 s e)
