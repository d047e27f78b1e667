-- ===== src/Manager/Reports/Unbound.antt =====
-- airstore/manager/main.py: the names that the module does not import.
use air_store.Prelude.{
  ◌≡◌, refl, Text, text_eq, Option, none, some, List, [], ◌∷◌, All, find, arith,
}
use air_store.Core.Exec.{Result, ok, err}
use air_store.Core.Models.{FileModel, ChunkModel}
use air_store.Database.{Database, list_files, get_chunks_for_file, get_replicas_for_chunk}
use air_store.Manager.Reports.{any_stored, verified_chunk_ids, UploadCheck, check_upload_chunks}

-- The ids that are collected, if there are any, are none; and no chunk has a replica then.
verified_chunk_ids-eq-ok :
    (db : Database) (cs : List ChunkModel) {ids : List Text}
    → verified_chunk_ids db cs ≡ ok ids
    → (ids ≡ []) × All (λ c. get_replicas_for_chunk c.chunk_id db ≡ []) cs
unfolding verified_chunk_ids any_stored
verified_chunk_ids-eq-ok db [] h = (ground arith, tt)
verified_chunk_ids-eq-ok db (c ∷ cs) {ids} h =
    go (get_replicas_for_chunk c.chunk_id db) (verified_chunk_ids db cs) refl refl
      (λ found k. verified_chunk_ids-eq-ok db cs k)
  where
    go :
        (reps : List _) (rest : Result (List Text))
        → get_replicas_for_chunk c.chunk_id db ≡ reps
        → verified_chunk_ids db cs ≡ rest
        → ((found : List Text)
            → verified_chunk_ids db cs ≡ ok found
            → (found ≡ []) × All (λ c. get_replicas_for_chunk c.chunk_id db ≡ []) cs)
        → (ids ≡ []) × All (λ c. get_replicas_for_chunk c.chunk_id db ≡ []) (c ∷ cs)
    go (r ∷ rs) rest e k ih = absurd (ground arith)
    go [] (err x) e k ih = absurd (ground arith)
    go [] (ok ids') e k ih = let (empty, all) = ih ids' k in (ground (arith, empty), (e, all))

-- A pre-flight check that answers names no chunk as existing; and where it names a file, no chunk of
-- that file has a replica.
pub check_upload_chunks_empty :
    (filename : Text) (db : Database) {answer : UploadCheck}
    → check_upload_chunks filename db ≡ ok answer
    → (answer.existing_chunks ≡ [])
      × ((file_id : Text)
          → answer.file_id ≡ some file_id
          → All (λ c. get_replicas_for_chunk c.chunk_id db ≡ []) (get_chunks_for_file file_id db))
unfolding check_upload_chunks
check_upload_chunks_empty filename db {answer} h =
    go (find (λ f. text_eq f.filename filename) (list_files db)) refl
  where
    go :
        (found : Option FileModel)
        → find (λ f. text_eq f.filename filename) (list_files db) ≡ found
        → (answer.existing_chunks ≡ [])
          × ((file_id : Text)
              → answer.file_id ≡ some file_id
              → All
                  (λ c. get_replicas_for_chunk c.chunk_id db ≡ [])
                  (get_chunks_for_file file_id db))
    go none e = (ground arith, λ file_id k. absurd (ground arith))
    go (some f) e = go2 (verified_chunk_ids db (get_chunks_for_file f.file_id db)) refl
      where
        go2 :
            (r : Result (List Text))
            → verified_chunk_ids db (get_chunks_for_file f.file_id db) ≡ r
            → (answer.existing_chunks ≡ [])
              × ((file_id : Text)
                  → answer.file_id ≡ some file_id
                  → All
                      (λ c. get_replicas_for_chunk c.chunk_id db ≡ [])
                      (get_chunks_for_file file_id db))
        go2 (err x) k = absurd (ground arith)
        go2 (ok ids) k =
            let (empty, all) = verified_chunk_ids-eq-ok db (get_chunks_for_file f.file_id db) k in
            (
              ground (arith, empty),
              λ file_id q. let same : f.file_id ≡ file_id = ground arith in rw (← same) all,
            )
