-- ===== src/Manager/Roundtrip/Delivered.antt =====
-- services/storage_manager.py: a download whose chunks can all be fetched.
use air_store.Prelude.{
  ℕ, ◌+◌, ◌≡◌, ◌≢◌, ◌≤◌, ◌<◌, refl, Text, text_eq, Bytes, Bool, true, false, Option, none, some,
  List, [], ◌∷◌, length, map, any, All, arith,
}
use air_store.Core.Exec.{Result, ok}
use air_store.Core.Models.{FileModel, ChunkModel}
use air_store.Core.Hashing.{calculate_bytes_hash}
use air_store.Core.Formatting.{chunk_id_of}
use air_store.Core.Encryption.{ChunkEncryptor}
use air_store.Core.Chunking.{Output, chunk_model, number_chunks, assemble_file_from_stream}
use air_store.Database.{
  has_transfer_id, list_nodes, get_chunks_for_file, create_transfer, add_event, update_transfer,
}
use air_store.Manager.Env.{Env, State, log_event}
use air_store.Manager.Store.{StoreView, IsStore}
use air_store.Manager.Store.Chunks.{AreApart, AreHashed}
use air_store.Manager.Upload.{encryptor_for}
use air_store.Manager.Download.{
  finish_download, run_download, start_download, download_model, chunk_stream,
}
use air_store.Manager.Download.Streams.{AreServed, chunk_stream-delivers}

module _ {W : Type 0} (env : Env W) where
  -- The states that differ in the transfers only.
  pub record SameButTransfers (s t : State W) : Type 0 where
    pub net : t.net ≡ s.net
    pub uuids : t.uuids ≡ s.uuids
    pub nodes : t.db.nodes ≡ s.db.nodes
    pub chunks : t.db.chunks ≡ s.db.chunks
    pub chunk_replicas : t.db.chunk_replicas ≡ s.db.chunk_replicas
    pub events : t.db.events ≡ s.db.events

  pub start_download-ok :
      (f : FileModel) (transfer_id : Text) (encryptor : Option ChunkEncryptor) (s : State W)
      → any (has_transfer_id transfer_id) s.db.transfers ≡ false
      → encryptor_for env f.encrypted ≡ ok encryptor
      → let x = start_download env f transfer_id s in (x.0 ≡ ok encryptor) × SameButTransfers s x.1
  unfolding start_download create_transfer
  start_download-ok f transfer_id encryptor s fresh keyed = (
    ground arith,
    record {
      net = ground arith;
      uuids = ground arith;
      nodes = ground arith;
      chunks = ground arith;
      chunk_replicas = ground arith;
      events = ground arith;
    },
  )

  finish_download-ok :
      (f : FileModel) (transfer_id : Text) (success : Bool) (files : Output) (s : State W)
      → any (λ e. text_eq e.event_id (env.uuid s.uuids)) s.db.events ≡ false
      → (finish_download env f transfer_id (ok success, files) s).0 ≡ (ok success, files)
  unfolding finish_download log_event add_event update_transfer
  finish_download-ok f transfer_id success files s fresh = ground arith

  pub run_download-delivers :
      {contract : StoreView W} (store : IsStore contract env.client env.sha256) (f : FileModel)
      (transfer_id : Text) (encryptor : Option ChunkEncryptor) (files out : Output)
      (pieces : List (ChunkModel × Bytes)) (s : State W)
      → get_chunks_for_file f.file_id s.db ≡ map (λ p. p.0) pieces
      → AreHashed env store pieces
      → AreApart env store pieces
      → AreServed env store encryptor (list_nodes s.db) pieces s
      → any (λ e. text_eq e.event_id (env.uuid s.uuids)) s.db.events ≡ false
      → assemble_file_from_stream env.sha256
          (record { delivered = map (λ p. p.1) pieces; raised = none })
          f.overall_hash
          files
        ≡ (ok true, out)
      → (run_download env f transfer_id encryptor files s).0 ≡ (ok true, out)
  unfolding run_download
  run_download-delivers store f transfer_id encryptor files out pieces s rows hashed apart served
        fresh whole =
      let (stream, (events, uuids)) =
        chunk_stream-delivers env store encryptor (list_nodes s.db) transfer_id
          (length (map (λ p. p.0) pieces)) 0 pieces s hashed apart served in
      let t =
        (chunk_stream env encryptor (list_nodes s.db) transfer_id (length (map (λ p. p.0) pieces)) 0
          (map (λ p. p.0) pieces) s).1 in
      let fresh' : any (λ e. text_eq e.event_id (env.uuid t.uuids)) t.db.events ≡ false =
        rw (events, uuids) fresh in
      rw (rows, stream, whole) (finish_download-ok f transfer_id true out t fresh')

  pub download_model-run :
      (f : FileModel) (encryptor : Option ChunkEncryptor) (files : Output) (s : State W)
      {out : Result Bool × Output}
      → let x = start_download env f (env.uuid s.uuids) (record s { uuids = s.uuids + 1 }) in
        x.0 ≡ ok encryptor
        → (run_download env f (env.uuid s.uuids) encryptor files x.1).0 ≡ out
        → (download_model env (some f) files s).0 ≡ out
  unfolding download_model
  download_model-run f encryptor files s ready h = rw (ready, download_model) h

  module _ {contract : StoreView W} (store : IsStore contract env.client env.sha256)
      (file_id : Text) where
    pub number_chunks-AreHashed :
        (i : ℕ) (parts : List Bytes)
        → AreHashed env store (number_chunks env.sha256 file_id i parts)
    unfolding number_chunks chunk_model calculate_bytes_hash
    number_chunks-AreHashed i [] = tt
    number_chunks-AreHashed i (b ∷ bs) = (refl, number_chunks-AreHashed (i + 1) bs)

    pub All-number_chunks :
        (P : Text → Type 0) (k i : ℕ) (parts : List Bytes)
        → ((j : ℕ) → k ≤ j → P (chunk_id_of file_id j))
        → k ≤ i
        → All (λ p. P p.0.chunk_id) (number_chunks env.sha256 file_id i parts)
    unfolding number_chunks chunk_model
    All-number_chunks P k i [] h le = tt
    All-number_chunks P k i (b ∷ bs) h le =
        (h i le, All-number_chunks P k (i + 1) bs h (omega arith))

    pub number_chunks-AreApart :
        (i : ℕ) (parts : List Bytes)
        → ((j k : ℕ)
            → j < k
            → contract.name (chunk_id_of file_id j) ≢ contract.name (chunk_id_of file_id k))
        → AreApart env store (number_chunks env.sha256 file_id i parts)
    unfolding number_chunks chunk_model
    number_chunks-AreApart i [] named = tt
    number_chunks-AreApart i (b ∷ bs) named = (
      All-number_chunks (λ id. contract.name (chunk_id_of file_id i) ≢ contract.name id) (i + 1)
          (i + 1) bs (λ j le. named i j (omega arith)) (omega arith),
      number_chunks-AreApart (i + 1) bs named,
    )
