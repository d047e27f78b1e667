-- ===== src/Manager/Steps/Uploads/Files.antt =====
-- services/storage_manager.py: the rows of an upload's file and chunks, and its two ends.
use air_store.Prelude.{
  ℕ, ◌+◌, ◌≡◌, refl, ap, Text, Bytes, Option, none, some, List, [], ◌∷◌, map, length, All,
  All-of-Elem, All-Elem, Elem, inl, inr, arith,
}
use air_store.Core.Exec.{Result, ok, err, ◌>>◌, gets}
use air_store.Core.Models.{
  FileModel, FileStatus, ChunkModel, EventType, TransferModel, TransferStatus, TransferType,
}
use air_store.Core.Chunking.{Source, get_file_info_and_chunks, stream_chunks}
use air_store.Database.{
  get_file, create_file, create_chunks, create_transfer, update_transfer, update_file_status,
}
use air_store.Database.Keys.{Elem-append_right}
use air_store.Database.Keys.Steps.{
  Steps, stay, one-Step, Steps-trans, chunk_ids, file_inserted, file_status_written,
  chunks_inserted, transfer_inserted, transfer_written,
}
use air_store.Database.Keys.Kept.{map-append}
use air_store.Manager.Env.{Env, State, on_db, on_db_now, insert_or_raise, fresh_uuid, log_event}
use air_store.Manager.Messages.{uploaded_message, uploaded_details}
use air_store.Manager.Upload.{
  UploadRequest, lift, name_or, register_file, transfer_chunks, transfer_file, complete_upload,
  upload_body, on_upload_error, open_transfer, start_upload, upload_from, process_file_upload,
}
use air_store.Manager.Upload.Sent.{register_file-eq-ok}
use air_store.Manager.Upload.Kept.{new_file}
use air_store.Manager.Steps.{bind-Steps, insert-Steps, log_event-Steps}
use air_store.Manager.Steps.Uploads.{HaveRows, lift-Steps, lift-eq, transfer_chunks-Steps}

Elem-ids : (cs : List ChunkModel) → All (λ c. Elem c.chunk_id (map (λ d. d.chunk_id) cs)) cs
Elem-ids cs = go cs (λ k e. e)
  where
    go :
        (ds : List ChunkModel)
        → ((k : Text) → Elem k (map (λ d. d.chunk_id) ds) → Elem k (map (λ d. d.chunk_id) cs))
        → All (λ c. Elem c.chunk_id (map (λ d. d.chunk_id) cs)) ds
    go [] h = tt
    go (d ∷ ds) h = (h d.chunk_id (inl refl), go ds (λ k e. h k (inr e)))

-- The stream has the chunks that the first pass over the file found.
stream_chunks-same :
    (sha256 : Bytes → Text) (source : Source) (file_id : Text) (n : ℕ)
    {info : Text × ℕ × List ChunkModel} {pieces : List (ChunkModel × Bytes)}
    → get_file_info_and_chunks sha256 source file_id n ≡ ok info
    → stream_chunks sha256 source file_id n ≡ ok pieces
    → map (λ p. p.0) pieces ≡ info.2
unfolding get_file_info_and_chunks stream_chunks
stream_chunks-same sha256 none file_id n h k = absurd (ground arith)
stream_chunks-same sha256 (some content) file_id n h k = ground (arith, h, k)

module _ {W : Type 0} (env : Env W) (req : UploadRequest) where
  register_file-Steps :
      (file_id : Text) (info : Text × ℕ × List ChunkModel) (s : State W)
      → Steps s.db (register_file env req file_id info s).1.db
  unfolding register_file
  register_file-Steps file_id info s =
      let make = insert_or_raise {W = W} (λ t. create_file (new_file req file_id info t) t.db) in
      let fill = insert_or_raise {W = W} (λ t. create_chunks info.2 t.db) in
      bind-Steps make (λ u. fill) s
        (insert-Steps (λ t. create_file (new_file req file_id info t) t.db) s
          (λ db e. file_inserted (new_file req file_id info s) e))
        (λ u e.
          insert-Steps (λ t. create_chunks info.2 t.db) (make s).1
            (λ db k. chunks_inserted info.2 k))

  register_file-HaveRows :
      (file_id : Text) (info : Text × ℕ × List ChunkModel) (s : State W) {x : Unit {0}}
      → (register_file env req file_id info s).0 ≡ ok x
      → HaveRows info.2 (register_file env req file_id info s).1.db
  register_file-HaveRows file_id info s {x} h =
      let t = (register_file env req file_id info s).1 in
      let (fresh, files, chunks, nodes, silent) =
        register_file-eq-ok env req file_id info s (ap (λ r. (r, t)) h) in
      All-of-Elem (λ c. Elem c.chunk_id (chunk_ids t.db)) info.2
        (λ c e.
          rw (chunks, map-append (λ (d : ChunkModel). d.chunk_id) s.db.chunks info.2)
            (Elem-append_right c.chunk_id (chunk_ids s.db) (map (λ d. d.chunk_id) info.2) (
              All-Elem (λ d. Elem d.chunk_id (map (λ d. d.chunk_id) info.2)) c info.2
                (Elem-ids info.2) e)))

  transfer_file-Steps :
      (file_id transfer_id : Text) (info : Text × ℕ × List ChunkModel) (s : State W)
      → get_file_info_and_chunks env.sha256 req.source file_id req.chunk_size ≡ ok info
      → HaveRows info.2 s.db
      → Steps s.db (transfer_file env req file_id transfer_id info s).1.db
  unfolding transfer_file
  transfer_file-Steps file_id transfer_id info s informed known =
      let stream = stream_chunks env.sha256 req.source file_id req.chunk_size in
      bind-Steps (lift stream)
        (λ pieces. transfer_chunks env req transfer_id pieces (length info.2)) s
        (lift-Steps stream s)
        (λ pieces e.
          let (streamed, same) = lift-eq stream s e in
          transfer_chunks-Steps env req transfer_id pieces (length info.2) (lift stream s).1 (
            rw
              (
                same,
                stream_chunks-same env.sha256 req.source file_id req.chunk_size informed streamed,
              )
              known))

  complete_upload-Steps :
      (file_id transfer_id : Text) (info : Text × ℕ × List ChunkModel) (s : State W)
      → Steps s.db (complete_upload env req file_id transfer_id info s).1.db
  unfolding complete_upload
  complete_upload-Steps file_id transfer_id info s =
      let t =
        on_db_now
          (update_transfer transfer_id (env.float.literal 1000 1) (env.float.literal 0 1)
            (some TransferStatus.completed) none)
          (on_db (update_file_status file_id FileStatus.active) s) in
      let name = name_or req.filename req.path_name in
      let message = uploaded_message name info.1 (length info.2) in
      let details = uploaded_details file_id name info.1 (length info.2) in
      Steps-trans (one-Step (file_status_written file_id FileStatus.active)) (
        Steps-trans
          (one-Step (transfer_written transfer_id _ _ (some TransferStatus.completed) none s.now))
          (bind-Steps (log_event env EventType.file_uploaded message details)
            (λ u. gets (λ x. get_file file_id x.db)) t
            (log_event-Steps env EventType.file_uploaded message details t) (λ u e. stay)))

  upload_body-Steps :
      (file_id transfer_id : Text) (s : State W)
      → Steps s.db (upload_body env req file_id transfer_id s).1.db
  unfolding upload_body
  upload_body-Steps file_id transfer_id s =
      let inform = get_file_info_and_chunks env.sha256 req.source file_id req.chunk_size in
      let complete = complete_upload env req file_id transfer_id in
      let send = λ (info : Text × ℕ × List ChunkModel).
        transfer_file env req file_id transfer_id info >> complete info in
      let register = register_file env req file_id in
      let t = (lift {S = State W} inform s).1 in
      bind-Steps (lift inform) (λ info. register info >> send info) s (lift-Steps inform s)
        (λ info e.
          bind-Steps (register info) (λ u. send info) t (register_file-Steps file_id info t)
            (λ u k.
              bind-Steps (transfer_file env req file_id transfer_id info) (λ v. complete info)
                (register info t).1
                (transfer_file-Steps file_id transfer_id info (register info t).1
                  (lift-eq inform s e).0 (register_file-HaveRows file_id info t k))
                (λ v m. complete_upload-Steps file_id transfer_id info _)))

  on_upload_error-Steps :
      (file_id transfer_id : Text) (r : Result (Option FileModel)) (s : State W)
      → Steps s.db (on_upload_error env req file_id transfer_id (r, s)).1.db
  unfolding on_upload_error
  on_upload_error-Steps file_id transfer_id (ok r) s = stay
  on_upload_error-Steps file_id transfer_id (err e) s =
      Steps-trans (one-Step (file_status_written file_id FileStatus.corrupted)) (
        one-Step (
          transfer_written transfer_id _ _ (some TransferStatus.failed) (some (env.describe e))
            s.now))

  start_upload-Steps :
      (file_id transfer_id : Text) (s : State W)
      → Steps s.db (start_upload env req file_id transfer_id s).1.db
  unfolding start_upload open_transfer
  start_upload-Steps file_id transfer_id s =
      let row : State W → TransferModel = λ t. record {
        transfer_id = transfer_id;
        file_id = file_id;
        transfer_type = TransferType.upload;
        status = TransferStatus.in_progress;
        progress = env.float.literal 0 1;
        speed_mbps = env.float.literal 0 1;
        error_message = none;
        started_at = t.now;
        completed_at = none;
      } in
      let body = upload_body env req file_id transfer_id in
      let t = (open_transfer env req file_id transfer_id s).1 in
      bind-Steps (open_transfer env req file_id transfer_id)
        (λ u x. on_upload_error env req file_id transfer_id (body x)) s
        (insert-Steps (λ x. create_transfer (row x) x.db) s (λ db e. transfer_inserted (row s) e))
        (λ u e.
          Steps-trans (upload_body-Steps file_id transfer_id t)
            (on_upload_error-Steps file_id transfer_id (body t).0 (body t).1))

  pub process_file_upload-Steps : (s : State W) → Steps s.db (process_file_upload env req s).1.db
  unfolding process_file_upload upload_from fresh_uuid
  process_file_upload-Steps s = go req.source
    where
      go : (source : Source) → Steps s.db (upload_from env req source s).1.db
      go none = stay
      go (some content) =
          start_upload-Steps (env.uuid s.uuids) (env.uuid (s.uuids + 1))
            (record s { uuids = s.uuids + 1 + 1 })
