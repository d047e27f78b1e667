-- ===== src/Manager/Download/Deletion.antt =====
-- services/storage_manager.py, `delete_file`: what a deletion leaves in the tables.
use air_store.Prelude.{
  ◌≡◌, ◌∙◌, ◌⊎◌, refl, ap, inl, inr, Text, Bool, false, none, some, List, [], ◌∷◌, find, Bool-cases,
  Option-cases, arith,
}
use air_store.Core.Exec.{ok}
use air_store.Core.Models.{FileModel, EventType}
use air_store.Database.{Database, has_file_id, get_file, list_nodes, get_chunks_for_file}
use air_store.Database
use air_store.Database.Rows.{delete_where}
use air_store.Manager.Env.{Env, State, log_event}
use air_store.Manager.Env.Laws.{log_event-SameTables}
use air_store.Manager.Messages.{deleted_message, deleted_details}
use air_store.Manager.Download.{delete_chunks, delete_model, delete_file}

find-delete_where :
    {A : Type 0} (p : A → Bool) (rows : List A) → find p (delete_where p rows) ≡ none
find-delete_where p [] = refl
find-delete_where p (r ∷ rows) = elim (Bool-cases (p r)) [
  | inl here ↦ rw here (find-delete_where p rows)
  | inr apart ↦ rw apart (rw apart (find-delete_where p rows))
]

-- Deleting an unknown file returns False and changes nothing. Otherwise, also if the event log
-- raises, the file is gone afterwards, while the rows of chunks and of replicas are all still there.
pub delete_file_outcomes :
    {W : Type 0} (env : Env W) (file_id : Text) (s : State W)
    → let (r, s') = delete_file env file_id s in
      ((get_file file_id s.db ≡ none) × (r ≡ ok false) × (s' ≡ s))
      ⊎ ((f : FileModel) × (get_file file_id s.db ≡ some f)
          × (get_file file_id s'.db ≡ none)
          × (s'.db.chunks ≡ s.db.chunks)
          × (s'.db.chunk_replicas ≡ s.db.chunk_replicas))
unfolding delete_file delete_model Database.delete_file
delete_file_outcomes env file_id s = elim (Option-cases (get_file file_id s.db)) [
  | inl absent ↦ inl (
    absent,
    rw (absent, delete_file, delete_model) refl,
    rw (absent, delete_file, delete_model) refl,
  )
  | inr (f, found) ↦
      (let net =
          delete_chunks env s.db (list_nodes s.db) (get_chunks_for_file file_id s.db) s.net in
        let s1 = record s { net = net; db = (Database.delete_file file_id s.db).1 } in
        let same =
          log_event-SameTables env EventType.file_deleted (deleted_message f.filename)
            (deleted_details file_id) s1 in
        let log =
          log_event env EventType.file_deleted (deleted_message f.filename)
            (deleted_details file_id) s1 in
        let left : (delete_file env file_id s).1 ≡ log.1 =
          rw (found, delete_file, delete_model) (ground arith) in
        let gone : get_file file_id log.1.db ≡ none =
          unfold get_file in
          (ap (find (has_file_id file_id)) same.files
            ∙ find-delete_where (has_file_id file_id) s.db.files) in
        inr (f, found, rw left gone, rw left same.chunks, rw left same.chunk_replicas))
]
