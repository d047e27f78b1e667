-- ===== src/Database/Files.antt =====
-- db.py, "File Operations" and the chunks.
pub mod Inserted
pub mod Listed
use air_store.Prelude.{
  Text, text_eq, Bool, ltb, List, [], ◌∷◌, Option, none, some, any, find, select,
}
use air_store.Prelude.Sort.{order_by}
use air_store.Core.Models.{FileModel, ChunkModel, FileStatus}
use air_store.Database.Rows.{Database, update_where, delete_where, insert_row}

-- `file_id = ?`
abbrev pub has_file_id : Text → FileModel → Bool
has_file_id file_id f = text_eq f.file_id file_id

-- `chunk_id = ?`
abbrev pub is_chunk : Text → ChunkModel → Bool
is_chunk chunk_id c = text_eq c.chunk_id chunk_id

-- `none` is `sqlite3.IntegrityError`; the transaction is rolled back.
unfoldable pub create_file : FileModel → Database → Option Database
create_file file_model db = elim (insert_row (has_file_id file_model.file_id) file_model db.files) [
  | none ↦ none
  | some rows ↦ some (record db { files = rows })
]

unfoldable pub update_file_status : Text → FileStatus → Database → Database
update_file_status file_id status db = record db {
  files = update_where (has_file_id file_id) (λ f. record f { status = status }) db.files;
}

unfoldable pub get_file : Text → Database → Option FileModel
get_file file_id db = find (has_file_id file_id) db.files

-- `ORDER BY created_at DESC`
unfoldable pub list_files : Database → List FileModel
list_files db = order_by (λ a b. ltb b.created_at a.created_at) db.files

-- The Boolean is `cursor.rowcount > 0`. Only the row of the file goes.
unfoldable pub delete_file : Text → Database → Bool × Database
delete_file file_id db = (
  any (has_file_id file_id) db.files,
  record db { files = delete_where (has_file_id file_id) db.files },
)

-- `executemany`: one transaction, so a conflict on one chunk inserts none.
unfoldable pub insert_chunks : List ChunkModel → List ChunkModel → Option (List ChunkModel)
insert_chunks [] rows = some rows
insert_chunks (c ∷ cs) rows = elim (insert_row (is_chunk c.chunk_id) c rows) [
  | none ↦ none
  | some rows' ↦ insert_chunks cs rows'
]

unfoldable pub create_chunks : List ChunkModel → Database → Option Database
unfolding insert_chunks
create_chunks chunks db = elim (insert_chunks chunks db.chunks) [
  | none ↦ none
  | some rows ↦ some (record db { chunks = rows })
]

-- `ORDER BY sequence_number ASC`
unfoldable pub get_chunks_for_file : Text → Database → List ChunkModel
get_chunks_for_file file_id db =
    order_by (λ a b. ltb a.sequence_number b.sequence_number)
      (select (λ c. text_eq c.file_id file_id) db.chunks)

-- `SELECT … FROM chunks WHERE chunk_id = ?`, as recovery_service.py writes it.
unfoldable pub get_chunk : Text → Database → Option ChunkModel
get_chunk chunk_id db = find (is_chunk chunk_id) db.chunks
