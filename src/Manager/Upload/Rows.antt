-- ===== src/Manager/Upload/Rows.antt =====
-- services/storage_manager.py: what an upload that returned has done, step by step.
use air_store.Prelude.{
  ℕ, ◌≡◌, ap, ◌∙◌, Text, Bytes, false, Option, some, List, [], ◌∷◌, ◌++◌, any, select, arith,
}
use mathlib.Core.Path.{subst}
use air_store.Core.Exec.{ok, ◌>>◌}
use air_store.Core.Exec.Laws.{>>=-eq-ok, >>-eq-ok}
use air_store.Core.Models.{FileModel, FileStatus, ChunkModel, is_online}
use air_store.Core.Encryption.{ChunkEncryptor}
use air_store.Core.Chunking.{get_file_info_and_chunks, stream_chunks}
use air_store.Database.{has_file_id, list_nodes, create_transfer, update_file_status, get_file}
use air_store.Database.Files.Inserted.{get_file-update_file_status}
use air_store.Manager.Env.{Env, State}
use air_store.Manager.Upload.{
  UploadRequest, lift, encryptor_for, upload_chunks, register_file, transfer_file, complete_upload,
  upload_body, open_transfer, on_upload_error, start_upload,
}
use air_store.Manager.Upload.Outcome.{on_upload_error-ok}
use air_store.Manager.Upload.Frame.{SameOthers}
use air_store.Manager.Upload.Sent.{
  lift-eq-ok, uploaded_file, register_file-eq-ok, IsTransferred, transfer_file-IsTransferred,
  complete_upload-eq-ok,
}

module _ {W : Type 0} (env : Env W) (req : UploadRequest) where
  -- The chunks were sent to nodes that were ONLINE before, and the tables have their rows.
  pub record IsUploaded (file_id : Text) (s s' : State W) : Type 0 where
    pub info : Text × ℕ × List ChunkModel
    pub pieces : List (ChunkModel × Bytes)
    pub informed : get_file_info_and_chunks env.sha256 req.source file_id req.chunk_size ≡ ok info
    pub streamed : stream_chunks env.sha256 req.source file_id req.chunk_size ≡ ok pieces
    pub encryptor : Option ChunkEncryptor
    pub keyed : encryptor_for env req.encrypted ≡ ok encryptor
    pub start : State W
    pub begun : start.net ≡ s.net
    pub sent : State W
    pub uploaded :
        upload_chunks env req.encrypted encryptor
          (select (λ n. is_online n.status) (list_nodes s.db))
          req.replication_factor
          0
          pieces
          start
        ≡ (ok tt, sent)
    pub net : s'.net ≡ sent.net
    pub chunk_replicas : s'.db.chunk_replicas ≡ sent.db.chunk_replicas
    pub nodes : s'.db.nodes ≡ s.db.nodes
    pub chunks : s'.db.chunks ≡ s.db.chunks ++ info.2
    pub now : ℕ
    pub file : get_file file_id s'.db ≡ some (uploaded_file env req file_id info now)

  open_transfer-SameOthers :
      (file_id transfer_id : Text) (s : State W)
      → SameOthers (open_transfer env req file_id transfer_id s).1.db s.db
  unfolding open_transfer create_transfer
  open_transfer-SameOthers file_id transfer_id s = ground arith

  net-open_transfer :
      (file_id transfer_id : Text) (s : State W)
      → (open_transfer env req file_id transfer_id s).1.net ≡ s.net
  unfolding open_transfer
  net-open_transfer file_id transfer_id s = ground arith

  uploaded_lem :
      (file_id : Text) (info : Text × ℕ × List ChunkModel) (s t1 t2 t3 s' : State W)
      → get_file_info_and_chunks env.sha256 req.source file_id req.chunk_size ≡ ok info
      → SameOthers t1.db s.db
      → any (has_file_id file_id) t1.db.files ≡ false
      → t2.db.files
        ≡ t1.db.files
          ++ (record (uploaded_file env req file_id info t1.now) { status = FileStatus.uploading }
              ∷ [])
      → t2.db.chunks ≡ t1.db.chunks ++ info.2
      → t2.db.nodes ≡ t1.db.nodes
      → t2.net ≡ s.net
      → IsTransferred env req file_id t2 t3
      → s'.net ≡ t3.net
      → s'.db.chunk_replicas ≡ t3.db.chunk_replicas
      → s'.db.nodes ≡ t3.db.nodes
      → s'.db.chunks ≡ t3.db.chunks
      → s'.db.files ≡ (update_file_status file_id FileStatus.active t3.db).files
      → IsUploaded file_id s s'
  unfolding list_nodes get_file
  uploaded_lem file_id info s t1 t2 t3 s' informed opened fresh files chunks nodes silent mid net
        replicas nodes' chunks' files' =
      let old_nodes : t2.db.nodes ≡ s.db.nodes = nodes ∙ opened.nodes in
      let row = record (uploaded_file env req file_id info t1.now) {
        status = FileStatus.uploading;
      } in
      let found =
        get_file-update_file_status row FileStatus.active t1.db t3.db fresh
          (mid.others.files ∙ files) in
      record {
        info = info;
        pieces = mid.pieces;
        informed = informed;
        streamed = mid.streamed;
        encryptor = mid.encryptor;
        keyed = mid.keyed;
        start = mid.start;
        begun = mid.begun ∙ silent;
        sent = mid.sent;
        uploaded = rw old_nodes at mid.uploaded;
        net = net ∙ mid.net;
        chunk_replicas = replicas ∙ mid.chunk_replicas;
        nodes = nodes' ∙ mid.others.nodes ∙ old_nodes;
        chunks = chunks' ∙ mid.others.chunks ∙ chunks ∙ ap (λ rows. rows ++ info.2) opened.chunks;
        now = t1.now;
        file = rw files' found;
      }

  pub start_upload-IsUploaded :
      (file_id transfer_id : Text) (s : State W) {r : Option FileModel} {s' : State W}
      → start_upload env req file_id transfer_id s ≡ (ok r, s')
      → IsUploaded file_id s s'
  unfolding start_upload upload_body
  start_upload-IsUploaded file_id transfer_id s {r} {s'} h =
      let body = upload_body env req file_id transfer_id in
      let t0 = (open_transfer env req file_id transfer_id s).1 in
      let h1 = on_upload_error-ok env req file_id transfer_id (body t0) (
        >>-eq-ok (open_transfer env req file_id transfer_id)
          (λ (t : State W). on_upload_error env req file_id transfer_id (body t)) s h) in
      let complete = complete_upload env req file_id transfer_id in
      let send = λ (info : Text × ℕ × List ChunkModel).
        transfer_file env req file_id transfer_id info >> complete info in
      let (info, t1, e1, h2) =
        >>=-eq-ok (lift (get_file_info_and_chunks env.sha256 req.source file_id req.chunk_size))
          (λ (info : Text × ℕ × List ChunkModel). register_file env req file_id info >> send info)
          t0 h1 in
      let (u, t2, e2, h3) = >>=-eq-ok (register_file env req file_id info) (λ u. send info) t1 h2 in
      let (v, t3, e3, h4) =
        >>=-eq-ok (transfer_file env req file_id transfer_id info) (λ v. complete info) t2 h3 in
      let opened = open_transfer-SameOthers file_id transfer_id s in
      let (informed, same1) =
        lift-eq-ok (get_file_info_and_chunks env.sha256 req.source file_id req.chunk_size) t0 e1 in
      let opened1 : SameOthers t1.db s.db =
        subst (λ (a : State W). SameOthers a.db s.db) same1 opened in
      let (fresh, files, chunks, nodes, silent) = register_file-eq-ok env req file_id info t1 e2 in
      let mid = transfer_file-IsTransferred env req file_id transfer_id info t2 e3 in
      let (net, replicas, nodes', chunks', files') =
        complete_upload-eq-ok env req file_id transfer_id info t3 h4 in
      let silent1 : t1.net ≡ s.net =
        subst (λ (a : State W). a.net ≡ s.net) same1 (net-open_transfer file_id transfer_id s) in
      uploaded_lem file_id info s t1 t2 t3 s' informed opened1 fresh files chunks nodes
        (silent ∙ silent1) mid net replicas nodes' chunks' files'
