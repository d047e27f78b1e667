-- ===== src/Manager/Upload/Outcome.antt =====
-- services/storage_manager.py: the last statements of an upload, and the status that they write.
use air_store.Prelude.{
  ℕ, ◌≡◌, refl, sym, ap, ◌∙◌, Text, true, false, Option, none, some, List, length, any, All,
  All-of-Elem, arith,
}
use air_store.Core.Exec.{Error, Result, ok, err, ◌>>◌, gets}
use air_store.Core.Exec.Laws.{>>=-eq-ok, >>-eq-ok}
use air_store.Core.Models.{FileModel, FileStatus, TransferStatus, ChunkModel, EventType}
use air_store.Core.Chunking.{get_file_info_and_chunks}
use air_store.Database.{
  Database, has_file_id, has_transfer_id, update_file_status, update_transfer, get_file,
  create_transfer,
}
use air_store.Database.Rows.Laws.{All-update_where}
use air_store.Manager.Env.{Env, State, on_db, on_db_now, log_event}
use air_store.Manager.Env.Laws.{log_event-SameTables}
use air_store.Manager.Messages.{uploaded_message, uploaded_details}
use air_store.Manager.Upload.{
  UploadRequest, on_upload_error, upload_body, open_transfer, start_upload, complete_upload,
  register_file, transfer_file, name_or, lift,
}

-- Every row of the file has the status.
abbrev pub HasFileStatus : Text → FileStatus → Database → Type 0
HasFileStatus file_id status db =
    All (λ f. has_file_id file_id f ≡ true → f.status ≡ status) db.files

-- Every row of the transfer has the status and the message.
abbrev pub HasTransferStatus : Text → TransferStatus → Option Text → Database → Type 0
HasTransferStatus transfer_id status message db =
    All
      (λ t.
        has_transfer_id transfer_id t ≡ true → (t.status ≡ status) × (t.error_message ≡ message))
      db.transfers

All-trivial : {A : Type 0} (xs : List A) → All (λ x. Unit {0}) xs
All-trivial xs = All-of-Elem _ xs (λ a e. tt)

pub update_file_status-HasFileStatus :
    (file_id : Text) (status : FileStatus) (db : Database)
    → HasFileStatus file_id status (update_file_status file_id status db)
unfolding update_file_status
update_file_status-HasFileStatus file_id status db =
    All-update_where (has_file_id file_id) _ (λ f. Unit {0})
      (λ f. has_file_id file_id f ≡ true → f.status ≡ status) db.files (λ f u key k. refl)
      (λ f u key k. absurd (ground arith)) (All-trivial db.files)

pub update_transfer-HasTransferStatus :
    (transfer_id : Text) (progress speed : ℕ) (status : TransferStatus) (message : Option Text)
    (now : ℕ) (db : Database)
    → HasTransferStatus transfer_id status message
        (update_transfer transfer_id progress speed (some status) message now db)
unfolding update_transfer
update_transfer-HasTransferStatus transfer_id progress speed status message now db =
    All-update_where (has_transfer_id transfer_id) _ (λ f. Unit {0})
      (λ t.
        has_transfer_id transfer_id t ≡ true → (t.status ≡ status) × (t.error_message ≡ message))
      db.transfers (λ t u key k. (refl, refl)) (λ t u key k. absurd (ground arith))
      (All-trivial db.transfers)

module _ {W : Type 0} (env : Env W) (req : UploadRequest) where
  pub complete_upload-done :
      (file_id transfer_id : Text) (info : Text × ℕ × List ChunkModel) (s : State W)
      {r : Option FileModel} {s' : State W}
      → complete_upload env req file_id transfer_id info s ≡ (ok r, s')
      → HasFileStatus file_id FileStatus.active s'.db
        × HasTransferStatus transfer_id TransferStatus.completed none s'.db
        × (r ≡ get_file file_id s'.db)
        × (s'.db.chunk_replicas ≡ s.db.chunk_replicas)
  unfolding complete_upload update_file_status update_transfer
  complete_upload-done file_id transfer_id info s {r} {s'} h =
      let a = on_db (update_file_status file_id FileStatus.active) s in
      let b =
        on_db_now
          (update_transfer transfer_id (env.float.literal 1000 1) (env.float.literal 0 1)
            (some TransferStatus.completed) none)
          a in
      let name = name_or req.filename req.path_name in
      let message = uploaded_message name info.1 (length info.2) in
      let details = uploaded_details file_id name info.1 (length info.2) in
      let log = log_event env EventType.file_uploaded message details in
      let same = log_event-SameTables env EventType.file_uploaded message details b in
      let h' = >>-eq-ok log (gets (λ t. get_file file_id t.db)) b h in
      let same_state : (log b).1 ≡ s' = cc h' in
      let active : HasFileStatus file_id FileStatus.active s'.db =
        rw (← same_state, same.files)
          (update_file_status-HasFileStatus file_id FileStatus.active s.db) in
      let completed : HasTransferStatus transfer_id TransferStatus.completed none s'.db =
        rw (← same_state, same.transfers)
          (update_transfer-HasTransferStatus transfer_id (env.float.literal 1000 1)
            (env.float.literal 0 1) TransferStatus.completed none s.now a.db) in
      (
        active,
        completed,
        cc h',
        ap (λ (t : State W). t.db.chunk_replicas) (sym same_state) ∙ same.chunk_replicas,
      )

  pub on_upload_error-IsFailed :
      (file_id transfer_id : Text) (x : Result (Option FileModel) × State W) {e : Error}
      {s' : State W}
      → on_upload_error env req file_id transfer_id x ≡ (err e, s')
      → HasFileStatus file_id FileStatus.corrupted s'.db
        × HasTransferStatus transfer_id TransferStatus.failed (some (env.describe e)) s'.db
  unfolding on_upload_error update_file_status update_transfer
  on_upload_error-IsFailed file_id transfer_id (ok r, t) h = absurd (ground arith)
  on_upload_error-IsFailed file_id transfer_id (err x, t) {e} {s'} h =
      let same : x ≡ e = ground arith in
      let after =
        on_db_now
          (update_transfer transfer_id (env.float.literal 0 1) (env.float.literal 0 1)
            (some TransferStatus.failed) (some (env.describe x)))
          (on_db (update_file_status file_id FileStatus.corrupted) t) in
      let same_state : after ≡ s' = cc h in
      (
        rw (← same_state) (update_file_status-HasFileStatus file_id FileStatus.corrupted t.db),
        rw (← same_state, ← same)
            (update_transfer-HasTransferStatus transfer_id (env.float.literal 0 1)
              (env.float.literal 0 1) TransferStatus.failed (some (env.describe x)) t.now
              (update_file_status file_id FileStatus.corrupted t.db)),
      )

  pub on_upload_error-ok :
      (file_id transfer_id : Text) (x : Result (Option FileModel) × State W) {r : Option FileModel}
      {s' : State W}
      → on_upload_error env req file_id transfer_id x ≡ (ok r, s')
      → x ≡ (ok r, s')
  unfolding on_upload_error
  on_upload_error-ok file_id transfer_id (ok r, t) h = h
  on_upload_error-ok file_id transfer_id (err x, t) h = absurd (ground arith)

  pub open_transfer-ok :
      (file_id transfer_id : Text) (s : State W)
      → any (has_transfer_id transfer_id) s.db.transfers ≡ false
      → (open_transfer env req file_id transfer_id s).0 ≡ ok tt
  unfolding open_transfer create_transfer
  open_transfer-ok file_id transfer_id s fresh = ground (arith, fresh)

  -- An upload that returns has transferred its chunks and then completed.
  pub start_upload-eq-ok :
      (file_id transfer_id : Text) (s : State W) {r : Option FileModel} {s' : State W}
      → start_upload env req file_id transfer_id s ≡ (ok r, s')
      → (info : Text × ℕ × List ChunkModel) × (before : State W) × (sent : State W) × (transfer_file
            env req file_id transfer_id info before
          ≡ (ok tt, sent))
        × (complete_upload env req file_id transfer_id info sent ≡ (ok r, s'))
  unfolding start_upload upload_body
  start_upload-eq-ok file_id transfer_id s h =
      let body = upload_body env req file_id transfer_id in
      let f = λ (t : State W). on_upload_error env req file_id transfer_id (body t) in
      let t0 = (open_transfer env req file_id transfer_id s).1 in
      let h1 =
        on_upload_error-ok file_id transfer_id (body t0)
          (>>-eq-ok (open_transfer env req file_id transfer_id) f s h) in
      let complete = complete_upload env req file_id transfer_id in
      let send = λ (info : Text × ℕ × List ChunkModel).
        transfer_file env req file_id transfer_id info >> complete info in
      let (info, t1, e1, h2) =
        >>=-eq-ok (lift (get_file_info_and_chunks env.sha256 req.source file_id req.chunk_size))
          (λ (info : Text × ℕ × List ChunkModel). register_file env req file_id info >> send info)
          t0 h1 in
      let register = register_file env req file_id info in
      let h3 = >>-eq-ok register (send info) t1 h2 in
      let t2 = (register t1).1 in
      let (u, t3, e4, h4) =
        >>=-eq-ok (transfer_file env req file_id transfer_id info) (λ u. complete info) t2 h3 in
      (info, t2, t3, e4, h4)
