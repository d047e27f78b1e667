-- ===== src/Manager/Upload/Stored.antt =====
-- services/storage_manager.py: what stands behind an upload that returned.
use air_store.Prelude.{
  ℕ, ◌≡◌, ◌≢◌, ◌⊎◌, Text, Bytes, Option, some, List, [], ◌∷◌, length, select, inl, inr, arith,
}
use air_store.Core.Exec.{ok, ◌>>=◌, ◌>>◌}
use air_store.Core.Exec.Laws.{>>=-eq-ok}
use air_store.Core.Models.{NodeModel, FileModel, ChunkModel, is_online}
use air_store.Core.Encryption.{ChunkEncryptor}
use air_store.Core.Chunking.{stream_chunks, read_chunks, number_chunks}
use air_store.Database.{Database, list_nodes, update_transfer}
use air_store.Manager.Env.{Env, State}
use air_store.Manager.Upload.{
  UploadRequest, lift, last_index, require_active, encryptor_for, upload_chunks, write_progress,
  transfer_chunks, transfer_file, start_upload,
}
use air_store.Manager.Upload.Outcome.{start_upload-eq-ok}
use air_store.Manager.Upload.Rows.{start_upload-IsUploaded}
use air_store.Manager.Upload.Replicas.{ArePlaced, upload_chunks-ArePlaced}

module _ {W : Type 0} (env : Env W) (req : UploadRequest) where
  -- The pieces of an upload that began with the nodes of `before`: there is at least one piece, and
  -- each has a STORED replica on every node that the placement selects for it, with the replication
  -- factor of the request, among the nodes that were ONLINE then.
  pub record IsStored (pieces : List (ChunkModel × Bytes)) (before db : Database) : Type 0 where
    pub is_nonempty : pieces ≢ []
    pub are_placed :
        ArePlaced env
          (select (λ n. is_online n.status) (list_nodes before))
          req.replication_factor
          pieces
          db

  write_progress-nonempty :
      (transfer_id : Text) (pieces : List (ChunkModel × Bytes)) (total_chunks : ℕ) (s : State W)
      {x : Unit {0}} {t : State W}
      → write_progress env req transfer_id pieces total_chunks s ≡ (ok x, t)
      → pieces ≢ []
  unfolding write_progress last_index update_transfer
  write_progress-nonempty transfer_id [] total_chunks s h = absurd (ground arith)
  write_progress-nonempty transfer_id (p ∷ ps) total_chunks s h = λ e. absurd cc

  transfer_chunks-nonempty :
      (transfer_id : Text) (pieces : List (ChunkModel × Bytes)) (total_chunks : ℕ) (s : State W)
      {x : Unit {0}} {t : State W}
      → transfer_chunks env req transfer_id pieces total_chunks s ≡ (ok x, t)
      → pieces ≢ []
  unfolding transfer_chunks
  transfer_chunks-nonempty transfer_id pieces total_chunks s {x} {t} h =
      let send = λ (active : List NodeModel) (e : Option ChunkEncryptor).
        upload_chunks env req.encrypted e active req.replication_factor 0 pieces in
      let progress = write_progress env req transfer_id pieces total_chunks in
      let (active, s1, e1, h1) =
        >>=-eq-ok (require_active env)
          (λ active. lift (encryptor_for env req.encrypted) >>= λ e. send active e >> progress) s
          h in
      let (encryptor, s2, e2, h2) =
        >>=-eq-ok (lift (encryptor_for env req.encrypted)) (λ e. send active e >> progress) s1 h1 in
      let (u, s3, e3, h3) = >>=-eq-ok (send active encryptor) (λ u. progress) s2 h2 in
      write_progress-nonempty transfer_id pieces total_chunks s3 h3

  transfer_file-nonempty :
      (file_id transfer_id : Text) (info : Text × ℕ × List ChunkModel) (s : State W) {x : Unit {0}}
      {t : State W} {pieces : List (ChunkModel × Bytes)}
      → stream_chunks env.sha256 req.source file_id req.chunk_size ≡ ok pieces
      → transfer_file env req file_id transfer_id info s ≡ (ok x, t)
      → pieces ≢ []
  unfolding transfer_file
  transfer_file-nonempty file_id transfer_id info s {x} {t} {pieces} k h =
      transfer_chunks-nonempty transfer_id pieces (length info.2) s (rw (k, transfer_file) at h)

  -- An upload that returns has cut its file into at least one chunk, and every chunk has a STORED
  -- replica on every node that the placement selects for it, with the replication factor of the
  -- request, among the nodes that were ONLINE in the database when the upload began.
  pub start_upload-IsStored :
      (file_id transfer_id : Text) (s : State W) {r : Option FileModel} {s' : State W}
      → start_upload env req file_id transfer_id s ≡ (ok r, s')
      → (pieces : List (ChunkModel × Bytes)) × (stream_chunks env.sha256 req.source file_id
            req.chunk_size
          ≡ ok pieces)
        × IsStored pieces s.db s'.db
  start_upload-IsStored file_id transfer_id s {r} {s'} h =
      let (info, before, sent, transferred, completed) =
        start_upload-eq-ok env req file_id transfer_id s h in
      let u = start_upload-IsUploaded env req file_id transfer_id s h in
      let active = select (λ n. is_online n.status) (list_nodes s.db) in
      (
        u.pieces,
        u.streamed,
        record {
          is_nonempty =
              transfer_file-nonempty file_id transfer_id info before u.streamed transferred;
          are_placed =
              rw u.chunk_replicas
                (upload_chunks-ArePlaced env req.encrypted u.encryptor active req.replication_factor
                  0 u.pieces u.start u.uploaded).1;
        },
      )

  -- An upload of an empty file, or with a chunk size of zero, never returns a file: it raises.
  pub start_upload_of_nothing :
      (content : Bytes) (file_id transfer_id : Text) (s : State W) {r : Option FileModel}
      {s' : State W}
      → req.source ≡ some content
      → (content ≡ []) ⊎ (req.chunk_size ≡ 0)
      → start_upload env req file_id transfer_id s ≢ (ok r, s')
  unfolding stream_chunks read_chunks number_chunks
  start_upload_of_nothing [] file_id transfer_id s source nothing h =
      let (pieces, cut, stored) = start_upload-IsStored file_id transfer_id s h in
      stored.is_nonempty (ground (arith, source))
  start_upload_of_nothing (c ∷ cs) file_id transfer_id s source (inl e) h = absurd cc
  start_upload_of_nothing (c ∷ cs) file_id transfer_id s source (inr zero_size) h =
      let (pieces, cut, stored) = start_upload-IsStored file_id transfer_id s h in
      stored.is_nonempty (ground (arith, source, zero_size))
