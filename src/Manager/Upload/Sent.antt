-- ===== src/Manager/Upload/Sent.antt =====
-- services/storage_manager.py: the stages of an upload that returned.
use air_store.Prelude.{
  ℕ, ◌≡◌, refl, sym, ap, ◌∙◌, Text, Bytes, false, Option, none, some, List, [], ◌∷◌, ◌++◌, length,
  any, select, Option-cases, inl, inr, arith,
}
use mathlib.Core.Path.{subst}
use air_store.Core.Exec.{Result, ok, err, ◌>>=◌, ◌>>◌, gets}
use air_store.Core.Exec.Laws.{>>=-eq-ok, >>-eq-ok}
use air_store.Core.Models.{
  NodeModel, FileModel, FileStatus, ChunkModel, EventType, TransferStatus, is_online,
}
use air_store.Core.Encryption.{ChunkEncryptor}
use air_store.Core.Chunking.{stream_chunks}
use air_store.Database.{
  Database, has_file_id, list_nodes, create_file, create_chunks, update_file_status,
  update_transfer, get_file,
}
use air_store.Database.Files.Inserted.{create_file-eq-some, create_chunks-eq-some}
use air_store.Manager.Env.{Env, State, insert_or_raise, log_event, on_db, on_db_now}
use air_store.Manager.Env.Laws.{log_event-SameTables, net-log_event}
use air_store.Manager.Messages.{uploaded_message, uploaded_details}
use air_store.Manager.Upload.{
  UploadRequest, lift, name_or, last_index, require_active, encryptor_for, upload_chunks,
  write_progress, transfer_chunks, register_file, transfer_file, complete_upload,
}
use air_store.Manager.Upload.Frame.{SameOthers, SameOthers-trans, upload_chunks-SameOthers}

module _ {W : Type 0} where
  pub insert_or_raise-eq-ok :
      (f : State W → Option Database) (s : State W) {x : Unit {0}} {s' : State W}
      → insert_or_raise f s ≡ (ok x, s')
      → (db : Database) × (f s ≡ some db) × (record s { db = db } ≡ s')
  insert_or_raise-eq-ok f s h = elim (Option-cases (f s)) [
    | inl taken ↦ absurd (ground arith)
    | inr (db, e) ↦ (db, e, ground arith)
  ]

  pub lift-eq-ok :
      {A : Type 0} (r : Result A) (s : State W) {a : A} {s' : State W}
      → lift r s ≡ (ok a, s')
      → (r ≡ ok a) × (s ≡ s')
  lift-eq-ok (ok b) s h = (ground arith, ground arith)
  lift-eq-ok (err e) s h = absurd (ground arith)

module _ {W : Type 0} (env : Env W) (req : UploadRequest) where
  -- The row of the file of an upload, with its last status.
  abbrev pub uploaded_file : Text → Text × ℕ × List ChunkModel → ℕ → FileModel
  uploaded_file file_id info now = record {
    file_id = file_id;
    filename = name_or req.filename req.path_name;
    size = info.1;
    created_at = now;
    overall_hash = info.0;
    status = FileStatus.active;
    chunk_size = req.chunk_size;
    replication_factor = req.replication_factor;
    encrypted = req.encrypted;
  }

  -- The chunks were sent to nodes that were ONLINE before, and the tables have their rows.
  pub register_file-eq-ok :
      (file_id : Text) (info : Text × ℕ × List ChunkModel) (s : State W) {x : Unit {0}}
      {s' : State W}
      → register_file env req file_id info s ≡ (ok x, s')
      → (any (has_file_id file_id) s.db.files ≡ false)
        × (s'.db.files
            ≡ s.db.files
              ++ (record (uploaded_file file_id info s.now) { status = FileStatus.uploading } ∷ []))
        × (s'.db.chunks ≡ s.db.chunks ++ info.2)
        × (s'.db.nodes ≡ s.db.nodes)
        × (s'.net ≡ s.net)
  unfolding register_file
  register_file-eq-ok file_id info s {x} {s'} h =
      let new_file = λ (s : State W).
        create_file (record (uploaded_file file_id info s.now) { status = FileStatus.uploading })
          s.db in
      let new_chunks = λ (s : State W). create_chunks info.2 s.db in
      let (u, t, e, k) =
        >>=-eq-ok (insert_or_raise new_file) (λ u. insert_or_raise new_chunks) s h in
      let (db1, made1, same1) = insert_or_raise-eq-ok new_file s e in
      let (db2, made2, same2) = insert_or_raise-eq-ok new_chunks t k in
      let (fresh, rows1) =
        create_file-eq-some
          (record (uploaded_file file_id info s.now) { status = FileStatus.uploading }) s.db
          made1 in
      let rows2 = create_chunks-eq-some info.2 t.db made2 in
      (fresh, ground arith, ground arith, ground arith, ground arith)

  -- The part of an upload between the two groups of rows.
  pub record IsTransferred (file_id : Text) (s s' : State W) : Type 0 where
    pub pieces : List (ChunkModel × Bytes)
    pub streamed : stream_chunks env.sha256 req.source file_id req.chunk_size ≡ ok pieces
    pub encryptor : Option ChunkEncryptor
    pub keyed : encryptor_for env req.encrypted ≡ ok encryptor
    pub start : State W
    pub begun : start.net ≡ s.net
    pub sent : State W
    pub uploaded :
        upload_chunks env req.encrypted encryptor
          (select (λ n. is_online n.status) (list_nodes s.db))
          req.replication_factor
          0
          pieces
          start
        ≡ (ok tt, sent)
    pub net : s'.net ≡ sent.net
    pub chunk_replicas : s'.db.chunk_replicas ≡ sent.db.chunk_replicas
    pub others : SameOthers s'.db s.db

  pub require_active-eq :
      (s : State W) {active : List NodeModel} {t : State W}
      → require_active env s ≡ (ok active, t)
      → (select (λ n. is_online n.status) (list_nodes s.db) ≡ active) × (s ≡ t)
  unfolding require_active
  require_active-eq s {active} {t} h = go (select (λ n. is_online n.status) (list_nodes s.db)) refl
    where
      go :
          (nodes : List NodeModel)
          → select (λ n. is_online n.status) (list_nodes s.db) ≡ nodes
          → (select (λ n. is_online n.status) (list_nodes s.db) ≡ active) × (s ≡ t)
      go [] e = absurd (ground arith)
      go (n ∷ ns) e = (ground arith, ground arith)

  write_progress-SameOthers :
      (transfer_id : Text) (pieces : List (ChunkModel × Bytes)) (total_chunks : ℕ) (s : State W)
      {x : Unit {0}} {t : State W}
      → write_progress env req transfer_id pieces total_chunks s ≡ (ok x, t)
      → (t.net ≡ s.net) × (t.db.chunk_replicas ≡ s.db.chunk_replicas) × SameOthers t.db s.db
  unfolding write_progress last_index update_transfer
  write_progress-SameOthers transfer_id [] total_chunks s h = absurd (ground arith)
  write_progress-SameOthers transfer_id (p ∷ ps) total_chunks s {x} {t} h =
      let same : record s { db = t.db } ≡ t = ground arith in
      (ground arith, ground arith, ground arith)

  transfer_chunks-IsTransferred :
      (file_id transfer_id : Text) (pieces : List (ChunkModel × Bytes)) (total_chunks : ℕ)
      (s : State W) {x : Unit {0}} {t : State W}
      → stream_chunks env.sha256 req.source file_id req.chunk_size ≡ ok pieces
      → transfer_chunks env req transfer_id pieces total_chunks s ≡ (ok x, t)
      → IsTransferred file_id s t
  unfolding transfer_chunks
  transfer_chunks-IsTransferred file_id transfer_id pieces total_chunks s {x} {t} streamed h =
      let send = λ (active : List NodeModel) (e : Option ChunkEncryptor).
        upload_chunks env req.encrypted e active req.replication_factor 0 pieces in
      let progress = write_progress env req transfer_id pieces total_chunks in
      let (active, s1, e1, h1) =
        >>=-eq-ok (require_active env)
          (λ active. lift (encryptor_for env req.encrypted) >>= λ e. send active e >> progress) s
          h in
      let (encryptor, s2, e2, h2) =
        >>=-eq-ok (lift (encryptor_for env req.encrypted)) (λ e. send active e >> progress) s1 h1 in
      let (u, s3, e3, h3) = >>=-eq-ok (send active encryptor) (λ u. progress) s2 h2 in
      let (actives, same1) = require_active-eq s e1 in
      let (keyed, same2) = lift-eq-ok (encryptor_for env req.encrypted) s1 e2 in
      let (net, replicas, others) =
        write_progress-SameOthers transfer_id pieces total_chunks s3 h3 in
      let sending =
        upload_chunks-SameOthers env req.encrypted encryptor active req.replication_factor 0 pieces
          s2 e3 in
      record {
        pieces = pieces;
        streamed = streamed;
        encryptor = encryptor;
        keyed = keyed;
        start = s2;
        begun = ap (λ (a : State W). a.net) (sym (same1 ∙ same2));
        sent = s3;
        uploaded = rw actives e3;
        net = net;
        chunk_replicas = replicas;
        others =
            subst (λ (a : State W). SameOthers t.db a.db) (sym (same1 ∙ same2))
              (SameOthers-trans others sending);
      }

  pub transfer_file-IsTransferred :
      (file_id transfer_id : Text) (info : Text × ℕ × List ChunkModel) (s : State W) {x : Unit {0}}
      {t : State W}
      → transfer_file env req file_id transfer_id info s ≡ (ok x, t)
      → IsTransferred file_id s t
  unfolding transfer_file
  transfer_file-IsTransferred file_id transfer_id info s {x} {t} h =
      go (stream_chunks env.sha256 req.source file_id req.chunk_size) refl
    where
      go :
          (r : Result (List (ChunkModel × Bytes)))
          → stream_chunks env.sha256 req.source file_id req.chunk_size ≡ r
          → IsTransferred file_id s t
      go (err e) k = absurd (ground arith)
      go (ok pieces) k =
          transfer_chunks-IsTransferred file_id transfer_id pieces (length info.2) s k
            (rw (k, transfer_file) at h)

  -- After the chunks: the tables that matter, and the status of the file.
  pub complete_upload-eq-ok :
      (file_id transfer_id : Text) (info : Text × ℕ × List ChunkModel) (s : State W)
      {r : Option FileModel} {s' : State W}
      → complete_upload env req file_id transfer_id info s ≡ (ok r, s')
      → (s'.net ≡ s.net)
        × (s'.db.chunk_replicas ≡ s.db.chunk_replicas)
        × (s'.db.nodes ≡ s.db.nodes)
        × (s'.db.chunks ≡ s.db.chunks)
        × (s'.db.files ≡ (update_file_status file_id FileStatus.active s.db).files)
  unfolding complete_upload update_file_status update_transfer
  complete_upload-eq-ok file_id transfer_id info s {r} {s'} h =
      let b =
        on_db_now
          (update_transfer transfer_id (env.float.literal 1000 1) (env.float.literal 0 1)
            (some TransferStatus.completed) none)
          (on_db (update_file_status file_id FileStatus.active) s) in
      let name = name_or req.filename req.path_name in
      let message = uploaded_message name info.1 (length info.2) in
      let details = uploaded_details file_id name info.1 (length info.2) in
      let log = log_event env EventType.file_uploaded message details in
      let same = log_event-SameTables env EventType.file_uploaded message details b in
      let h' = >>-eq-ok log (gets (λ t. get_file file_id t.db)) b h in
      let last : (log b).1 ≡ s' = cc h' in
      rw (← last) (
        net-log_event env EventType.file_uploaded message details b,
        same.chunk_replicas,
        same.nodes,
        same.chunks,
        same.files,
      )
