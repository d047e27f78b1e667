-- ===== src/Node/Engine.antt =====
-- airstore/node/storage.py: the chunks on the disk of one storage node.
-- `str.isalnum` and SHA-256 are parameters. Every write to the disk succeeds.
pub mod Laws
use air_store.Prelude.{
  ℕ, Text, text_eq, codes, Bytes, Bool, true, false, ◌||◌, Option, none, some, [], ◌∷◌, ◌++◌,
  length, select, is_some, ◌==◌, ◌*◌, if◌then◌else◌,
}
use air_store.Core.Exec.{Result, ok, err, file_not_found, integrity}
use air_store.Core.Hashing.{calculate_bytes_hash, calculate_file_hash}
use air_store.Node.Disk.{Disk, read_file, write_file, remove_file, rename_file}

pub record Platform : Type 0 where
  pub is_alnum : ℕ → Bool
  pub sha256 : Bytes → Text

-- `c.isalnum() or c in ("-", "_")`
unfoldable pub is_safe : Platform → ℕ → Bool
is_safe p c = p.is_alnum c || (c == b'-' || c == b'_')

unfoldable pub safe_id : Platform → Text → Text
unfolding is_safe
safe_id p chunk_id = select (is_safe p) chunk_id

-- The name of the file in `chunks_dir`.
unfoldable pub get_chunk_path : Platform → Text → Text
get_chunk_path p chunk_id = safe_id p chunk_id ++ codes ".chunk"

-- `path.with_suffix(".tmp")`: a name that begins with its only dot has no suffix.
abbrev with_tmp_suffix : Text → Text
with_tmp_suffix [] = codes ".chunk.tmp"
with_tmp_suffix (c ∷ cs) = (c ∷ cs) ++ codes ".tmp"

unfoldable pub get_temp_path : Platform → Text → Text
get_temp_path p chunk_id = with_tmp_suffix (safe_id p chunk_id)

unfoldable pub chunk_exists : Platform → Text → Disk → Bool
chunk_exists p chunk_id disk = is_some (read_file (get_chunk_path p chunk_id) disk)

-- `if expected_sha256:` is false of `None` and of the empty text.
unfoldable pub hash_agrees : Platform → Bytes → Option Text → Bool
hash_agrees p bytes none = true
hash_agrees p bytes (some []) = true
hash_agrees p bytes (some (c ∷ cs)) = text_eq (calculate_bytes_hash p.sha256 bytes) (c ∷ cs)

-- Write the temporary file, remove the old chunk, rename.
unfoldable pub replace_chunk : Text → Text → Bytes → Disk → Disk
replace_chunk path temp_path bytes disk =
    let disk' = write_file temp_path bytes disk in
    rename_file temp_path path
      (if is_some (read_file path disk') then remove_file path disk' else disk')

unfoldable pub store_chunk : Platform → Text → Bytes → Option Text → Disk → Result ℕ × Disk
store_chunk p chunk_id bytes expected_sha256 disk =
    if hash_agrees p bytes expected_sha256
    then (
      ok (length bytes),
      replace_chunk (get_chunk_path p chunk_id) (get_temp_path p chunk_id) bytes disk,
    )
    else (err integrity, disk)

unfoldable pub retrieve_chunk : Platform → Text → Disk → Result Bytes
retrieve_chunk p chunk_id disk = elim (read_file (get_chunk_path p chunk_id) disk) [
  | none ↦ err file_not_found
  | some bytes ↦ ok bytes
]

unfoldable pub delete_chunk : Platform → Text → Disk → Bool × Disk
delete_chunk p chunk_id disk =
    let path = get_chunk_path p chunk_id in
    if is_some (read_file path disk) then (true, remove_file path disk) else (false, disk)

abbrev pub buffer_size : ℕ
buffer_size = 64 * 1024

unfoldable pub verify_chunk : Platform → Text → Text → Disk → Bool
verify_chunk p chunk_id expected_sha256 disk = elim (read_file (get_chunk_path p chunk_id) disk) [
  | none ↦ false
  | some content ↦ text_eq (calculate_file_hash p.sha256 buffer_size content) expected_sha256
]
