-- ===== src/Manager/Roundtrip.antt =====
-- services/storage_manager.py: a download after an upload.
pub mod Served
pub mod Delivered
use air_store.Prelude.{
  ℕ, ◌+◌, ◌≡◌, ◌≢◌, ◌≤◌, ◌<◌, refl, ap, ◌∙◌, Text, text_eq, Bytes, true, false, Option, none, some,
  List, ◌++◌, length, map, any, select, ltb, Bool-cases, inl, inr, arith,
}
use air_store.Core.Exec.{ok}
use air_store.Core.Models.{NodeModel, FileModel, ChunkModel, is_online}
use air_store.Core.Formatting.{chunk_id_of}
use air_store.Core.Encryption.{nonce_size}
use air_store.Core.Encryption.Roundtrip.{IsAesGcm}
use air_store.Core.Chunking.{
  Output, read_chunks, number_chunks, stream_chunks, get_file_info_and_chunks,
}
use air_store.Core.Chunking.Pieces.{assemble-stream_chunks}
use air_store.Database.{has_transfer_id, list_nodes}
use air_store.Database.Files.Inserted.{get_chunks_for_file-eq-number_chunks}
use air_store.Database.Keys.{IsDistinct-same}
use air_store.Database.Keys.Tables.{IsValid}
use air_store.Manager.Env.{Address, Env, State}
use air_store.Manager.Store.{StoreView, IsStore}
use air_store.Manager.Store.Chunks.{upload_chunks-ArePut}
use air_store.Manager.Upload.{UploadRequest, encryptor_for, start_upload}
use air_store.Manager.Upload.Replicas.{upload_chunks-ArePlaced}
use air_store.Manager.Upload.Stored.{start_upload_of_nothing}
use air_store.Manager.Upload.Rows.{IsUploaded, start_upload-IsUploaded}
use air_store.Manager.Upload.Sent.{uploaded_file}
use air_store.Manager.Download.{start_download, stream_file_reconstruction}
use air_store.Manager.Download.Streams.{AreServed}
use air_store.Manager.Roundtrip.Served.{HaveOwnIds, AreServed-of_upload}
use air_store.Manager.Roundtrip.Delivered.{
  start_download-ok, run_download-delivers, download_model-run, number_chunks-AreHashed,
  All-number_chunks, number_chunks-AreApart,
}

-- What an upload and the download after it rely on: AES-GCM decrypts what it encrypts, the nonces
-- have 12 bytes, and the nodes take the ids of a file's chunks and keep them in files of their own.
pub record IsCluster {W : Type 0} (env : Env W) (contract : StoreView W) (file_id : Text)
    : Type 0 where
  pub store : IsStore contract env.client env.sha256
  pub aes : IsAesGcm env.aesgcm
  pub nonces : (i : ℕ) → length (env.nonce i) ≡ nonce_size
  pub accepted : (i : ℕ) → contract.accepts (chunk_id_of file_id i) ≡ true
  pub named :
      (i j : ℕ)
      → i < j
      → contract.name (chunk_id_of file_id i) ≢ contract.name (chunk_id_of file_id j)

module _ {W : Type 0} (env : Env W) (req : UploadRequest) (content : Bytes) (file_id : Text)
    (s s' : State W) where
  -- The ids that `uuid4` gives next, and the id of the new file, are not taken.
  pub record AreFresh : Type 0 where
    pub file : any (λ c. text_eq c.file_id file_id) s.db.chunks ≡ false
    pub transfer : any (has_transfer_id (env.uuid s'.uuids)) s'.db.transfers ≡ false
    pub event : any (λ e. text_eq e.event_id (env.uuid (s'.uuids + 1))) s'.db.events ≡ false

  -- No node holds a chunk under an id of the new file.
  abbrev pub IsUnheld : StoreView W → Type 0
  IsUnheld contract =
      (node : Address) (i : ℕ) → contract.view s.net node (chunk_id_of file_id i) ≡ none

  abbrev numbered : List (ChunkModel × Bytes)
  numbered =
      number_chunks env.sha256 file_id 0 (read_chunks (length content) req.chunk_size content)

  uploaded-numbered :
      (u : IsUploaded env req file_id s s')
      → req.source ≡ some content
      → (u.pieces ≡ numbered) × (u.info.2 ≡ map (λ p. p.0) numbered)
  unfolding stream_chunks get_file_info_and_chunks
  uploaded-numbered u source =
      (ground (arith, u.streamed, source), ground (arith, u.informed, source))

  -- The stored chunks can be fetched in every state that has the rows and the nodes of the upload.
  uploaded-AreServed :
      {contract : StoreView W} (cluster : IsCluster env contract file_id)
      (u : IsUploaded env req file_id s s') (t : State W)
      → req.source ≡ some content
      → 1 ≤ req.replication_factor
      → HaveOwnIds s.db.nodes
      → IsUnheld contract
      → t.net ≡ s'.net
      → t.db.chunk_replicas ≡ s'.db.chunk_replicas
      → AreServed env cluster.store u.encryptor (list_nodes s.db) numbered t
  unfolding encryptor_for
  uploaded-AreServed {contract} cluster u t source replicated own unheld net replicas =
      let (pieces, rows) = uploaded-numbered u source in
      let active = select (λ n. is_online n.status) (list_nodes s.db) in
      let store = cluster.store in
      let sent = rw pieces at u.uploaded in
      let (kept, put) =
        upload_chunks-ArePut env store req.encrypted u.encryptor active req.replication_factor 0
          numbered u.start
          (rw u.begun (
            All-number_chunks env store file_id
              (λ id. (node : Address) → contract.view s.net node id ≡ none) 0 0 _
              (λ i le node. unheld node i) (omega arith)))
          (number_chunks-AreApart env store file_id 0 _ (λ i j less. cluster.named i j less))
          sent in
      let (held, placed) =
        upload_chunks-ArePlaced env req.encrypted u.encryptor active req.replication_factor 0
          numbered u.start sent in
      AreServed-of_upload env store cluster.aes cluster.nonces req.encrypted u.encryptor
        req.replication_factor s.db 0 numbered t own replicated
        (All-number_chunks env store file_id (λ id. contract.accepts id ≡ true) 0 0 _
          (λ i le. cluster.accepted i) (omega arith))
        (rw (net ∙ u.net) put) (rw (replicas ∙ u.chunk_replicas) placed)

  download_lem :
      {contract : StoreView W} (cluster : IsCluster env contract file_id)
      (u : IsUploaded env req file_id s s') (files : Output)
      → req.source ≡ some content
      → 1 ≤ req.replication_factor
      → 0 < req.chunk_size
      → HaveOwnIds s.db.nodes
      → IsUnheld contract
      → AreFresh
      → (stream_file_reconstruction env file_id files s').0
        ≡ (ok true, record { out_p = some content; temp_path = none })
  unfolding stream_file_reconstruction
  download_lem cluster u files source replicated sized own unheld fresh =
      let transfer_id = env.uuid s'.uuids in
      let f = uploaded_file env req file_id u.info u.now in
      let before = record s' { uuids = s'.uuids + 1 } in
      let (ready, same) =
        start_download-ok env f transfer_id u.encryptor before fresh.transfer u.keyed in
      let t = (start_download env f transfer_id before).1 in
      let (pieces, infos) = uploaded-numbered u source in
      let rows : t.db.chunks ≡ s.db.chunks ++ map (λ p. p.0) numbered =
        same.chunks ∙ u.chunks ∙ ap (λ cs. s.db.chunks ++ cs) infos in
      let nodes : list_nodes t.db ≡ list_nodes s.db =
        unfold list_nodes in (rw (same.nodes, u.nodes) refl) in
      let served =
        uploaded-AreServed cluster u t source replicated own unheld same.net same.chunk_replicas in
      let delivered =
        run_download-delivers env cluster.store f transfer_id u.encryptor files
          (record { out_p = some content; temp_path = none }) numbered t
          (get_chunks_for_file-eq-number_chunks env.sha256 file_id _ s.db.chunks t.db fresh.file
            rows)
          (number_chunks-AreHashed env cluster.store file_id 0 _)
          (number_chunks-AreApart env cluster.store file_id 0 _
            (λ i j less. cluster.named i j less))
          (rw nodes served) (rw (same.uuids, same.events) fresh.event)
          (rw (← pieces) (
            assemble-stream_chunks env.sha256 content file_id req.chunk_size files sized
              (rw source at u.streamed) (rw source at u.informed))) in
      rw u.file (download_model-run env f u.encryptor files s' ready delivered)

  -- A file that an upload returned comes back from a download exactly as it was: with at least one
  -- replica per chunk, a well-formed database, and fresh ids for the file, the transfer and the
  -- event, where no node held anything under the ids of the file's chunks when the upload began,
  -- `stream_file_reconstruction` returns true, the output is the content of the source and no
  -- temporary file is left, encrypted or not, on a cluster that keeps what it accepted.
  pub upload_then_download :
      (contract : StoreView W) (transfer_id : Text) (files : Output) {r : Option FileModel}
      → IsCluster env contract file_id
      → IsUnheld contract
      → req.source ≡ some content
      → 1 ≤ req.replication_factor
      → IsValid s.db
      → AreFresh
      → start_upload env req file_id transfer_id s ≡ (ok r, s')
      → (stream_file_reconstruction env file_id files s').0
        ≡ (ok true, record { out_p = some content; temp_path = none })
  upload_then_download contract transfer_id files {r} cluster unheld source replicated valid fresh
        h =
      elim (Bool-cases (ltb 0 req.chunk_size)) [
        | inl sized ↦
            download_lem cluster (start_upload-IsUploaded env req file_id transfer_id s h) files
              source replicated (ground arith)
              (λ a b e k same.
                IsDistinct-same (λ (n : NodeModel). n.node_id) a b s.db.nodes valid.nodes e k same)
              unheld fresh
        | inr nothing ↦ absurd (
            start_upload_of_nothing env req content file_id transfer_id s source
              (inr (ground arith)) h)
      ]
