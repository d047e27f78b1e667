-- ===== src/Manager/Upload/Ends.antt =====
-- services/storage_manager.py: the rows of a file and of its transfer, however an upload ends.
use air_store.Prelude.{
  ℕ, ◌≡◌, refl, sym, ap, ◌∙◌, ◌⊎◌, inl, inr, Text, Bytes, false, Option, none, some, List, any,
  Option-cases, arith,
}
use mathlib.Core.Path.{subst}
use air_store.Core.Exec.{Error, Result, ok, err, ◌>>◌}
use air_store.Core.Exec.Laws.{Result-cases, >>-after, >>=-eq-ok}
use air_store.Core.Models.{
  FileModel, FileStatus, TransferModel, TransferStatus, TransferType, ChunkModel,
}
use air_store.Core.Chunking.{Source, get_file_info_and_chunks}
use air_store.Database.{
  Database, has_transfer_id, create_file, create_chunks, create_transfer, get_file,
}
use air_store.Manager.Env.{Env, State, insert_or_raise}
use air_store.Manager.Upload.{
  UploadRequest, register_file, transfer_file, complete_upload, upload_body, open_transfer,
  on_upload_error, start_upload,
}
use air_store.Manager.Upload.Outcome.{
  HasFileStatus, HasTransferStatus, on_upload_error-IsFailed, open_transfer-ok, start_upload-eq-ok,
  complete_upload-done,
}
use air_store.Manager.Upload.Sent.{uploaded_file, insert_or_raise-eq-ok}
use air_store.Manager.Upload.Rows.{start_upload-IsUploaded}
use air_store.Manager.Upload.Kept.{IsKept, new_file, then-Keeps}
use air_store.Manager.Upload.Kept.Body.{upload_body-Keeps, send_file-Keeps, create_chunks-Keeps}
use air_store.Manager.Upload.Present.{
  HasFile, HasTransfer, HasFile-IsKept, HasTransfer-IsKept, create_file-HasFile, create_file-taken,
  create_transfer-HasTransfer,
}

-- The first pass over a file fails only where there is none.
unread_source :
    (sha256 : Bytes → Text) (source : Source) (file_id : Text) (n : ℕ) {e : Error}
    → get_file_info_and_chunks sha256 source file_id n ≡ err e
    → source ≡ none
unfolding get_file_info_and_chunks
unread_source sha256 none file_id n h = refl
unread_source sha256 (some content) file_id n h = absurd (ground arith)

module _ {W : Type 0} (env : Env W) (req : UploadRequest) where
  insert_file-HasFile :
      (file_id : Text) (info : Text × ℕ × List ChunkModel) (s : State W)
      → HasFile file_id
          (insert_or_raise {W = W} (λ t. create_file (new_file req file_id info t) t.db) s).1.db
  insert_file-HasFile file_id info s =
      elim (Option-cases (create_file (new_file req file_id info s) s.db)) [
        | inl taken ↦
            rw (taken, insert_or_raise) (create_file-taken (new_file req file_id info s) s.db taken)
        | inr (db, made) ↦
            rw (made, insert_or_raise) (create_file-HasFile (new_file req file_id info s) s.db made)
      ]

  register_file-HasFile :
      (file_id : Text) (info : Text × ℕ × List ChunkModel) (s : State W)
      → HasFile file_id (register_file env req file_id info s).1.db
  unfolding register_file
  register_file-HasFile file_id info s =
      then-Keeps (HasFile file_id)
        (insert_or_raise (λ t. create_file (new_file req file_id info t) t.db))
        (λ u. insert_or_raise (λ t. create_chunks info.2 t.db)) s
        (insert_file-HasFile file_id info s)
        (λ u. create_chunks-Keeps env (HasFile-IsKept file_id) req info.2)

  upload_body-HasFile :
      (file_id transfer_id : Text) (s : State W)
      → (req.source ≡ none) ⊎ HasFile file_id (upload_body env req file_id transfer_id s).1.db
  unfolding upload_body
  upload_body-HasFile file_id transfer_id s =
      elim (Result-cases (get_file_info_and_chunks env.sha256 req.source file_id req.chunk_size)) [
        | inr (e, unread) ↦ inl (unread_source env.sha256 req.source file_id req.chunk_size unread)
        | inl (info, informed) ↦ inr (
            rw (informed, upload_body)
              (then-Keeps (HasFile file_id) (register_file env req file_id info)
                (λ u.
                  transfer_file env req file_id transfer_id info
                  >> complete_upload env req file_id transfer_id info)
                s (register_file-HasFile file_id info s)
                (λ u. send_file-Keeps env (HasFile-IsKept file_id) req file_id transfer_id info)))
      ]

  on_upload_error-keeps :
      (P : Database → Type 0) (law : IsKept P) (file_id transfer_id : Text)
      (x : Result (Option FileModel) × State W)
      → P x.1.db
      → P (on_upload_error env req file_id transfer_id x).1.db
  unfolding on_upload_error
  on_upload_error-keeps P law file_id transfer_id (ok r, t) h = h
  on_upload_error-keeps P law file_id transfer_id (err e, t) h =
      law.transfer transfer_id _ _ (some TransferStatus.failed) (some (env.describe e)) t.now _
        (law.status file_id FileStatus.corrupted t.db h)

  open_transfer-HasTransfer :
      (file_id transfer_id : Text) (s : State W)
      → (open_transfer env req file_id transfer_id s).0 ≡ ok tt
      → HasTransfer transfer_id (open_transfer env req file_id transfer_id s).1.db
  unfolding open_transfer
  open_transfer-HasTransfer file_id transfer_id s h =
      let row : State W → TransferModel = λ t. record {
        transfer_id = transfer_id;
        file_id = file_id;
        transfer_type = TransferType.upload;
        status = TransferStatus.in_progress;
        progress = env.float.literal 0 1;
        speed_mbps = env.float.literal 0 1;
        error_message = none;
        started_at = t.now;
        completed_at = none;
      } in
      let s' = (open_transfer env req file_id transfer_id s).1 in
      let (db, made, same) =
        insert_or_raise-eq-ok (λ t. create_transfer (row t) t.db) s {x = tt} {s' = s'}
          (ap (λ r. (r, s')) h) in
      let there : HasTransfer transfer_id db = create_transfer-HasTransfer (row s) s.db made in
      subst (λ (t : State W). HasTransfer transfer_id t.db) same there

  -- An upload that raises once its transfer row is written leaves that row there, and every row of
  -- the transfer FAILED with the text of the exception; if there is a source, there is a row of the
  -- file, and every row of the file is CORRUPTED.
  pub start_upload-IsFailed :
      (file_id transfer_id : Text) (s : State W) {e : Error} {s' : State W}
      → any (has_transfer_id transfer_id) s.db.transfers ≡ false
      → start_upload env req file_id transfer_id s ≡ (err e, s')
      → HasTransfer transfer_id s'.db
        × HasTransferStatus transfer_id TransferStatus.failed (some (env.describe e)) s'.db
        × ((req.source ≡ none) ⊎ HasFile file_id s'.db)
        × HasFileStatus file_id FileStatus.corrupted s'.db
  unfolding start_upload
  start_upload-IsFailed file_id transfer_id s {e} {s'} fresh h =
      let m = open_transfer env req file_id transfer_id in
      let body = upload_body env req file_id transfer_id in
      let f = λ (t : State W). on_upload_error env req file_id transfer_id (body t) in
      let opened = open_transfer-ok env req file_id transfer_id s fresh in
      let ended = sym (>>-after m f s opened) ∙ h in
      let last : (f (m s).1).1 ≡ s' = ap (λ x. x.1) ended in
      let (corrupted, failed) = on_upload_error-IsFailed env req file_id transfer_id _ ended in
      let transfers = HasTransfer-IsKept transfer_id in
      (
        rw (← last) (
            on_upload_error-keeps (HasTransfer transfer_id) transfers file_id transfer_id
              (body (m s).1)
              (upload_body-Keeps env transfers req file_id transfer_id (m s).1
                (open_transfer-HasTransfer file_id transfer_id s opened))),
        failed,
        elim (upload_body-HasFile file_id transfer_id (m s).1) [
          | inl missing ↦ inl missing
          | inr there ↦ inr (
              rw (← last) (
                on_upload_error-keeps (HasFile file_id) (HasFile-IsKept file_id) file_id transfer_id
                  (body (m s).1) there))
        ],
        corrupted,
      )

  -- What an upload leaves and returns: the row of its file, which is ACTIVE, with the size and the
  -- hash of the source and the parameters of the request; and a row of its transfer. All rows of the
  -- file are ACTIVE and all of the transfer are COMPLETED without an error message.
  pub record IsDone (file_id transfer_id : Text) (r : Option FileModel) (db : Database)
      : Type 0 where
    pub info : Text × ℕ × List ChunkModel
    pub informed : get_file_info_and_chunks env.sha256 req.source file_id req.chunk_size ≡ ok info
    pub file : FileModel
    pub returned : r ≡ some file
    pub stored : get_file file_id db ≡ some file
    pub active : file.status ≡ FileStatus.active
    pub hashed : file.overall_hash ≡ info.0
    pub sized : file.size ≡ info.1
    pub requested :
        (file.chunk_size ≡ req.chunk_size)
        × (file.replication_factor ≡ req.replication_factor)
        × (file.encrypted ≡ req.encrypted)
    pub all_active : HasFileStatus file_id FileStatus.active db
    pub transferred : HasTransfer transfer_id db
    pub completed : HasTransferStatus transfer_id TransferStatus.completed none db

  -- An upload that returns returns the row of its file as the database has it: ACTIVE, with the size
  -- and the hash of the source, and with the chunk size, the replication factor and the encryption
  -- of the request. There is a row of its transfer, and it is COMPLETED without an error message.
  pub start_upload-IsDone :
      (file_id transfer_id : Text) (s : State W) {r : Option FileModel} {s' : State W}
      → start_upload env req file_id transfer_id s ≡ (ok r, s')
      → IsDone file_id transfer_id r s'.db
  unfolding start_upload
  start_upload-IsDone file_id transfer_id s {r} {s'} h =
      let m = open_transfer env req file_id transfer_id in
      let body = upload_body env req file_id transfer_id in
      let f = λ (t : State W). on_upload_error env req file_id transfer_id (body t) in
      let (info, before, sent, moved, completed) =
        start_upload-eq-ok env req file_id transfer_id s h in
      let done = complete_upload-done env req file_id transfer_id info sent completed in
      let u = start_upload-IsUploaded env req file_id transfer_id s h in
      let (x, t, opened, ended) = >>=-eq-ok m (λ x. f) s h in
      let at : (m s).1 ≡ t = ap (λ y. y.1) opened in
      let last : (f t).1 ≡ s' = ap (λ y. y.1) ended in
      let transfers = HasTransfer-IsKept transfer_id in
      record {
        info = u.info;
        informed = u.informed;
        file = uploaded_file env req file_id u.info u.now;
        returned = done.2 ∙ u.file;
        stored = u.file;
        active = refl;
        hashed = refl;
        sized = refl;
        requested = (refl, refl, refl);
        all_active = done.0;
        transferred = rw (← last) (
            on_upload_error-keeps (HasTransfer transfer_id) transfers file_id transfer_id (body t) (
              upload_body-Keeps env transfers req file_id transfer_id t (
                rw (← at)
                  (open_transfer-HasTransfer file_id transfer_id s (ap (λ y. y.0) opened)))));
        completed = done.1;
      }
