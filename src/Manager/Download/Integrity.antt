-- ===== src/Manager/Download/Integrity.antt =====
-- services/storage_manager.py: what a download delivers, and what it leaves where it raises.
use air_store.Prelude.{
  ℕ, ◌+◌, ◌*◌, ◌≡◌, refl, ◌∙◌, ◌⊎◌, inl, inr, Text, text_eq_iff, Bytes, Bool, true, Option, none,
  some, List, [], ◌∷◌, length, select, flatten, ◌==◌, Bool-cases, Option-cases, arith,
}
use mathlib.Core.Path.{subst}
use air_store.Core.Exec.{Error, Result, ok, err, file_not_found}
use air_store.Core.Exec.Laws.{Result-cases}
use air_store.Core.Hashing.{calculate_bytes_hash}
use air_store.Core.Models.{
  NodeModel, FileModel, ChunkModel, ChunkReplicaModel, is_online, is_stored,
}
use air_store.Core.Chunking.{Output, assemble_file_from_stream}
use air_store.Core.Chunking.Pieces.{assemble_integrity}
use air_store.Core.Encryption.{ChunkEncryptor}
use air_store.Database.{
  Database, get_file, get_chunks_for_file, get_replicas_for_chunk, list_nodes, create_transfer,
  update_transfer,
}
use air_store.Node.Handlers.{Reply, no_reply, response}
use air_store.Manager.Env.{Env, State, address_of, on_db_now}
use air_store.Manager.Recovery.{node_of}
use air_store.Manager.Upload.{progress_of, speed_of}
use air_store.Manager.Download.{
  check_bytes, check_reply, plaintext_of, fetch_replica, fetch_chunk, chunk_stream, settle_download,
  finish_download, run_download, start_download, download_model, stream_file_reconstruction,
}

module _ (sha256 : Bytes → Text) where
  -- The pieces are those of the chunks, in order: each has the hash of its chunk.
  abbrev pub Matches : List ChunkModel → List Bytes → Type 0
  Matches [] [] = Unit
  Matches [] (b ∷ bs) = ⊥
  Matches (c ∷ cs) [] = ⊥
  Matches (c ∷ cs) (b ∷ bs) = (sha256 b ≡ c.sha256) × Matches cs bs

  -- The output holds the file of the row: its pieces match the chunks of the table, and the whole
  -- has the hash of the file.
  pub record IsReconstructed (file_model : FileModel) (db : Database) (files : Output)
      : Type 0 where
    pub parts : List Bytes
    pub matching : Matches (get_chunks_for_file file_model.file_id db) parts
    pub whole : sha256 (flatten parts) ≡ file_model.overall_hash
    pub written : files.out_p ≡ some (flatten parts)

module _ {W : Type 0} (env : Env W) where
  check_bytes-hash :
      (chunk : ChunkModel) (node : NodeModel) (r : Result Bytes) (s : State W) {bytes : Bytes}
      → (check_bytes env chunk node r s).0 ≡ some bytes
      → env.sha256 bytes ≡ chunk.sha256
  unfolding check_bytes calculate_bytes_hash
  check_bytes-hash chunk node (err e) s h = cc
  check_bytes-hash chunk node (ok plaintext) s h =
      ground (arith, text_eq_iff (env.sha256 plaintext) chunk.sha256)

  pub fetch_replica-hash :
      (encryptor : Option ChunkEncryptor) (chunk : ChunkModel) (node : Option NodeModel)
      (s : State W) {bytes : Bytes}
      → (fetch_replica env encryptor chunk node s).0 ≡ some bytes
      → env.sha256 bytes ≡ chunk.sha256
  unfolding fetch_replica
  fetch_replica-hash encryptor chunk none s h = cc
  fetch_replica-hash encryptor chunk (some node) s {bytes} h =
      let sent = env.client.get (address_of node) chunk.chunk_id s.net in
      elim (Bool-cases (is_online node.status)) [
        | inr off ↦ absurd (ground arith)
        | inl on ↦ reply sent.0 (record s { net = sent.1 }) (rw on at h)
      ]
    where
      reply :
          (r : Reply Bytes) (t : State W)
          → (check_reply env encryptor chunk node r t).0 ≡ some bytes
          → env.sha256 bytes ≡ chunk.sha256
      reply no_reply t h = cc
      reply (response code raw) t h = elim (Bool-cases (code == 200)) [
        | inl fine ↦ check_bytes-hash chunk node (plaintext_of env encryptor raw) t (rw fine at h)
        | inr other ↦ absurd (ground arith)
      ]

  fetch_chunk-hash :
      (encryptor : Option ChunkEncryptor) (nodes : List NodeModel) (chunk : ChunkModel)
      (replicas : List ChunkReplicaModel) (s : State W) {bytes : Bytes}
      → (fetch_chunk env encryptor nodes chunk replicas s).0 ≡ some bytes
      → env.sha256 bytes ≡ chunk.sha256
  unfolding fetch_chunk
  fetch_chunk-hash encryptor nodes chunk [] s h = cc
  fetch_chunk-hash encryptor nodes chunk (r ∷ rs) s {bytes} h =
      let got = fetch_replica env encryptor chunk (node_of nodes r.node_id) s in
      elim (Option-cases got.0) [
        | inl nothing ↦
            fetch_chunk-hash encryptor nodes chunk rs got.1 (rw (nothing, fetch_chunk) at h)
        | inr (b, found) ↦
            (let same : b ≡ bytes = ground arith in
              rw (← same) (fetch_replica-hash encryptor chunk (node_of nodes r.node_id) s found))
      ]

  chunk_stream-Matches :
      (encryptor : Option ChunkEncryptor) (nodes : List NodeModel) (transfer_id : Text)
      (total idx : ℕ) (chunks : List ChunkModel) (s : State W)
      → (chunk_stream env encryptor nodes transfer_id total idx chunks s).0.raised ≡ none
      → Matches env.sha256 chunks
          (chunk_stream env encryptor nodes transfer_id total idx chunks s).0.delivered
  unfolding chunk_stream
  chunk_stream-Matches encryptor nodes transfer_id total idx [] s h = tt
  chunk_stream-Matches encryptor nodes transfer_id total idx (c ∷ cs) s h =
      let replicas = select (λ r. is_stored r.status) (get_replicas_for_chunk c.chunk_id s.db) in
      let got = fetch_chunk env encryptor nodes c replicas s in
      let next =
        on_db_now
          (update_transfer transfer_id (progress_of env idx total)
            (speed_of env idx ((idx + 1) * c.size)) none none)
          got.1 in
      elim (Option-cases got.0) [
        | inl nothing ↦ absurd (ground arith)
        | inr (b, found) ↦
            rw (found, chunk_stream)
              (
                fetch_chunk-hash encryptor nodes c replicas s found,
                chunk_stream-Matches encryptor nodes transfer_id total (idx + 1) cs next
                    (rw (found, chunk_stream) at h),
              )
      ]

  settle_download-outcome :
      (transfer_id : Text) (success : Bool) (files : Output) (x : Result (Unit {0}) × State W)
      → ((settle_download env transfer_id success files x).0.1 ≡ files)
        × (((settle_download env transfer_id success files x).0.0 ≡ ok success)
            ⊎ ((e : Error) × ((settle_download env transfer_id success files x).0.0 ≡ err e)))
  unfolding settle_download
  settle_download-outcome transfer_id success files (ok logged, s) = (refl, inl refl)
  settle_download-outcome transfer_id success files (err e, s) = (refl, inr (e, refl))

  finish_download-outcome :
      (file_model : FileModel) (transfer_id : Text) (r : Result Bool) (files : Output) (s : State W)
      → ((finish_download env file_model transfer_id (r, files) s).0.1 ≡ files)
        × (((finish_download env file_model transfer_id (r, files) s).0.0 ≡ r)
            ⊎ ((e : Error) × ((finish_download env file_model transfer_id (r, files) s).0.0
                  ≡ err e)))
  unfolding finish_download
  finish_download-outcome file_model transfer_id (err e) files s = (refl, inl refl)
  finish_download-outcome file_model transfer_id (ok success) files s =
      settle_download-outcome transfer_id success files _

  -- What a download has done: it returned with the file in the output, or it raised and the output
  -- is as before, or already the file.
  abbrev pub Delivers : Option FileModel → Database → Output → Result Bool → Output → Type 0
  Delivers none db files r files' = (r ≡ err file_not_found) × (files' ≡ files)
  Delivers (some f) db files r files' =
      ((r ≡ ok true) × IsReconstructed env.sha256 f db files')
      ⊎ ((e : Error) × (r ≡ err e)
          × ((files'.out_p ≡ files.out_p) ⊎ IsReconstructed env.sha256 f db files'))

  run_download-Delivers :
      (f : FileModel) (transfer_id : Text) (encryptor : Option ChunkEncryptor) (files : Output)
      (s : State W)
      → let x = run_download env f transfer_id encryptor files s in
        Delivers (some f) s.db files x.0.0 x.0.1
  unfolding run_download
  run_download-Delivers f transfer_id encryptor files s =
      let chunks = get_chunks_for_file f.file_id s.db in
      let run =
        chunk_stream env encryptor (list_nodes s.db) transfer_id (length chunks) 0 chunks s in
      let a = assemble_file_from_stream env.sha256 run.0 f.overall_hash files in
      let (same, ended) = finish_download-outcome f transfer_id a.0 a.1 run.1 in
      elim ((assemble_integrity env.sha256 run.0 f.overall_hash files).2) [
        | inl (good, none_raised, hash, out) ↦
            (let final : IsReconstructed env.sha256 f s.db
                  (run_download env f transfer_id encryptor files s).0.1 =
                record {
                  parts = run.0.delivered;
                  matching =
                      chunk_stream-Matches encryptor (list_nodes s.db) transfer_id (length chunks) 0
                        chunks s none_raised;
                  whole = hash;
                  written = rw same out;
                } in
              elim ended [ inl e ↦ inl (e ∙ good, final) | inr (x, e) ↦ inr (x, e, inr final) ])
        | inr (x, bad, out) ↦
            (let kept : (run_download env f transfer_id encryptor files s).0.1.out_p ≡ files.out_p =
                rw same out in
              elim ended [ inl e ↦ inr (x, e ∙ bad, inl kept) | inr (y, e) ↦ inr (y, e, inl kept) ])
      ]

  -- A transfer row and the encryptor change no chunk.
  chunks-start_download :
      (f : FileModel) (transfer_id : Text) (s : State W)
      → (start_download env f transfer_id s).1.db.chunks ≡ s.db.chunks
  unfolding start_download create_transfer
  chunks-start_download f transfer_id s = ground arith

  Delivers-chunks :
      (f : FileModel) (a b : Database) (files : Output) (r : Result Bool) (files' : Output)
      → a.chunks ≡ b.chunks
      → Delivers (some f) a files r files'
      → Delivers (some f) b files r files'
  Delivers-chunks f a b files r files' e h =
      let same : get_chunks_for_file f.file_id a ≡ get_chunks_for_file f.file_id b =
        unfold get_chunks_for_file in (rw e) in
      let move : IsReconstructed env.sha256 f a files' → IsReconstructed env.sha256 f b files' =
        λ x. record {
          parts = x.parts;
          matching = subst (λ cs. Matches env.sha256 cs x.parts) same x.matching;
          whole = x.whole;
          written = x.written;
        } in
      elim h [
        | inl (good, done) ↦ inl (good, move done)
        | inr (x, bad, inl kept) ↦ inr (x, bad, inl kept)
        | inr (x, bad, inr done) ↦ inr (x, bad, inr (move done))
      ]

  download_model-Delivers :
      (found : Option FileModel) (files : Output) (s : State W)
      → let x = download_model env found files s in Delivers found s.db files x.0.0 x.0.1
  unfolding download_model
  download_model-Delivers none files s = (refl, refl)
  download_model-Delivers (some f) files s =
      let transfer_id = env.uuid s.uuids in
      let start = start_download env f transfer_id (record s { uuids = s.uuids + 1 }) in
      let same : start.1.db.chunks ≡ s.db.chunks =
        chunks-start_download f transfer_id (record s { uuids = s.uuids + 1 }) in
      elim (Result-cases start.0) [
        | inr (e, bad) ↦ rw (bad, download_model) (inr (e, refl, inl refl))
        | inl (encryptor, ready) ↦
            rw (ready, download_model)
              (Delivers-chunks f start.1.db s.db files _ _ same
                (run_download-Delivers f transfer_id encryptor files start.1))
      ]

  -- A download of a file id without a row raises `FileNotFoundError`. Of any other it returns only
  -- with the file in the output: its pieces match, in order and in number, the hashes of the chunks
  -- of the table, and the whole has the hash of the file row. When it raises, the output is as
  -- before, or already that file (the event log raised).
  pub stream_file_reconstruction-Delivers :
      (file_id : Text) (files : Output) (s : State W)
      → let x = stream_file_reconstruction env file_id files s in
        Delivers (get_file file_id s.db) s.db files x.0.0 x.0.1
  unfolding stream_file_reconstruction
  stream_file_reconstruction-Delivers file_id files s =
      download_model-Delivers (get_file file_id s.db) files s
