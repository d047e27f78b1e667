-- ===== src/Manager/Upload/Kept/Body.antt =====
-- services/storage_manager.py: such predicates after the `try` block of an upload.
use air_store.Prelude.{ℕ, ◌≡◌, refl, Text, Bytes, Option, none, some, List, [], ◌∷◌, length, select}
use air_store.Core.Exec.{◌>>=◌, ◌>>◌, gets}
use air_store.Core.Models.{NodeModel, FileStatus, ChunkModel, TransferStatus, EventType, is_online}
use air_store.Core.Encryption.{ChunkEncryptor}
use air_store.Core.Chunking.{stream_chunks, get_file_info_and_chunks}
use air_store.Database.{
  Database, list_nodes, create_file, create_chunks, update_transfer, update_file_status, get_file,
}
use air_store.Manager.Env.{Env, insert_or_raise, log_event, on_db, on_db_now}
use air_store.Manager.Messages.{uploaded_message, uploaded_details}
use air_store.Manager.Upload.{
  UploadRequest, lift, name_or, upload_chunks, last_index, encryptor_for, require_active,
  write_progress, transfer_chunks, transfer_file, register_file, complete_upload, upload_body,
}
use air_store.Manager.Upload.Kept.{
  new_file, IsKept, Keeps, bind-Keeps, insert_or_raise-Keeps, lift-Keeps, log_event-Keeps,
  upload_chunks-Keeps,
}

module _ {W : Type 0} (env : Env W) {P : Database → Type 0} (law : IsKept P) where
  require_active-Keeps : Keeps P (require_active env)
  unfolding require_active
  require_active-Keeps s h = go (select (λ n. is_online n.status) (list_nodes s.db)) refl
    where
      go :
          (nodes : List NodeModel)
          → select (λ n. is_online n.status) (list_nodes s.db) ≡ nodes
          → P (require_active env s).1.db
      go [] e = rw (e, require_active) h
      go (n ∷ ns) e = rw (e, require_active) h

  module _ (req : UploadRequest) where
    write_progress-Keeps :
        (transfer_id : Text) (pieces : List (ChunkModel × Bytes)) (total : ℕ)
        → Keeps P (write_progress env req transfer_id pieces total)
    unfolding write_progress last_index
    write_progress-Keeps transfer_id [] total s h = h
    write_progress-Keeps transfer_id (p ∷ ps) total s h =
        law.transfer transfer_id _ _ none none s.now s.db h

    transfer_chunks-Keeps :
        (transfer_id : Text) (pieces : List (ChunkModel × Bytes)) (total : ℕ)
        → Keeps P (transfer_chunks env req transfer_id pieces total)
    unfolding transfer_chunks
    transfer_chunks-Keeps transfer_id pieces total =
        let write = write_progress env req transfer_id pieces total in
        let send = λ (active : List NodeModel) (e : Option ChunkEncryptor).
          upload_chunks env req.encrypted e active req.replication_factor 0 pieces in
        bind-Keeps P (require_active env)
          (λ active. lift (encryptor_for env req.encrypted) >>= λ e. send active e >> write)
          require_active-Keeps
          (λ active.
            bind-Keeps P (lift (encryptor_for env req.encrypted)) (λ e. send active e >> write)
              (lift-Keeps P (encryptor_for env req.encrypted))
              (λ e.
                bind-Keeps P (send active e) (λ u. write)
                  (upload_chunks-Keeps env law req.encrypted e active req.replication_factor 0
                    pieces)
                  (λ u. write_progress-Keeps transfer_id pieces total)))

    transfer_file-Keeps :
        (file_id transfer_id : Text) (info : Text × ℕ × List ChunkModel)
        → Keeps P (transfer_file env req file_id transfer_id info)
    unfolding transfer_file
    transfer_file-Keeps file_id transfer_id info =
        let stream = stream_chunks env.sha256 req.source file_id req.chunk_size in
        bind-Keeps P (lift stream)
          (λ pieces. transfer_chunks env req transfer_id pieces (length info.2))
          (lift-Keeps P stream) (λ pieces. transfer_chunks-Keeps transfer_id pieces (length info.2))

    complete_upload-Keeps :
        (file_id transfer_id : Text) (info : Text × ℕ × List ChunkModel)
        → Keeps P (complete_upload env req file_id transfer_id info)
    unfolding complete_upload
    complete_upload-Keeps file_id transfer_id info s h =
        let t =
          on_db_now
            (update_transfer transfer_id (env.float.literal 1000 1) (env.float.literal 0 1)
              (some TransferStatus.completed) none)
            (on_db (update_file_status file_id FileStatus.active) s) in
        let name = name_or req.filename req.path_name in
        let message = uploaded_message name info.1 (length info.2) in
        let details = uploaded_details file_id name info.1 (length info.2) in
        bind-Keeps P (log_event env EventType.file_uploaded message details)
          (λ u. gets (λ x. get_file file_id x.db))
          (log_event-Keeps env law EventType.file_uploaded message details) (λ u x k. k) t
          (law.transfer transfer_id _ _ (some TransferStatus.completed) none s.now _
            (law.status file_id FileStatus.active s.db h))

    -- The part of the `try` block after the rows of the file.
    pub send_file-Keeps :
        (file_id transfer_id : Text) (info : Text × ℕ × List ChunkModel)
        → Keeps P (
            transfer_file env req file_id transfer_id info
            >> complete_upload env req file_id transfer_id info)
    send_file-Keeps file_id transfer_id info =
        bind-Keeps P (transfer_file env req file_id transfer_id info)
          (λ u. complete_upload env req file_id transfer_id info)
          (transfer_file-Keeps file_id transfer_id info)
          (λ u. complete_upload-Keeps file_id transfer_id info)

    pub create_chunks-Keeps :
        (cs : List ChunkModel) → Keeps {W = W} P (insert_or_raise (λ t. create_chunks cs t.db))
    create_chunks-Keeps cs =
        insert_or_raise-Keeps P (λ t. create_chunks cs t.db) (λ t db e k. law.chunks cs e k)

    register_file-Keeps :
        (file_id : Text) (info : Text × ℕ × List ChunkModel)
        → Keeps P (register_file env req file_id info)
    unfolding register_file
    register_file-Keeps file_id info =
        bind-Keeps P (insert_or_raise (λ t. create_file (new_file req file_id info t) t.db))
          (λ u. insert_or_raise (λ t. create_chunks info.2 t.db))
          (insert_or_raise-Keeps P (λ t. create_file (new_file req file_id info t) t.db)
            (λ t db e k. law.file (new_file req file_id info t) e k))
          (λ u. create_chunks-Keeps info.2)

    pub upload_body-Keeps :
        (file_id transfer_id : Text) → Keeps P (upload_body env req file_id transfer_id)
    unfolding upload_body
    upload_body-Keeps file_id transfer_id =
        let inform = get_file_info_and_chunks env.sha256 req.source file_id req.chunk_size in
        let send = λ (info : Text × ℕ × List ChunkModel).
          transfer_file env req file_id transfer_id info
          >> complete_upload env req file_id transfer_id info in
        bind-Keeps P (lift inform) (λ info. register_file env req file_id info >> send info)
          (lift-Keeps P inform)
          (λ info.
            bind-Keeps P (register_file env req file_id info) (λ u. send info)
              (register_file-Keeps file_id info) (λ u. send_file-Keeps file_id transfer_id info))
