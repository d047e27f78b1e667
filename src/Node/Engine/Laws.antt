-- ===== src/Node/Engine/Laws.antt =====
-- node/storage.py: storing, reading, checking and deleting a chunk on the disk of a node.
use air_store.Prelude.{
  ℕ, ◌≡◌, ◌≢◌, refl, ◌↔◌, inl, inr, Bool-cases, Option-cases, Text, text_eq, text_eq_refl,
  text_eq_iff, codes, Bytes, true, false, Option, some, [], ◌∷◌, ◌++◌, length, is_some, arith,
  if◌then◌else◌,
}
use air_store.Core.Exec.{ok, err, integrity, file_not_found}
use air_store.Core.Hashing.{calculate_bytes_hash}
use air_store.Core.Hashing.Streaming.{calculate_file_hash-eq}
use air_store.Node.Disk.{
  Disk, read_file, write_file, remove_file, rename_file, read-write, read-remove,
}
use air_store.Node.Engine.{
  Platform, safe_id, get_chunk_path, get_temp_path, hash_agrees, replace_chunk, store_chunk,
  retrieve_chunk, delete_chunk, verify_chunk, chunk_exists, with_tmp_suffix, buffer_size,
}

unfoldable pub last_or : ℕ → Text → ℕ
last_or d [] = d
last_or d (x ∷ xs) = last_or x xs

pub last_or-append :
    (d : ℕ) (xs : Text) (y : ℕ) (ys : Text) → last_or d (xs ++ (y ∷ ys)) ≡ last_or y ys
unfolding last_or
last_or-append d [] y ys = refl
last_or-append d (x ∷ xs) y ys = last_or-append x xs y ys

last_or-with_tmp_suffix : (xs : Text) → last_or 0 (with_tmp_suffix xs) ≡ b'p'
unfolding last_or
last_or-with_tmp_suffix [] = refl
last_or-with_tmp_suffix (x ∷ xs) = last_or-append x xs b'.' (codes "tmp")

pub last_or-get_temp_path :
    (p : Platform) (chunk_id : Text) → last_or 0 (get_temp_path p chunk_id) ≡ b'p'
unfolding get_temp_path
last_or-get_temp_path p chunk_id = last_or-with_tmp_suffix (safe_id p chunk_id)

-- A temporary file never has the name of a chunk.
pub temp-ne-path :
    (p : Platform) (a b : Text) → text_eq (get_temp_path p a) (get_chunk_path p b) ≡ false
unfolding get_temp_path get_chunk_path last_or
temp-ne-path p a b = ground (
  arith,
  text_eq_iff (get_temp_path p a) (get_chunk_path p b),
  last_or-with_tmp_suffix (safe_id p a),
  last_or-append 0 (safe_id p b) b'.' (codes "chunk"),
)

module _ (path temp : Text) (apart : text_eq temp path ≡ false) (bytes : Bytes) where
  -- After the temporary file is written, and the old chunk removed if there was one, the rename
  -- puts the bytes under the name of the chunk.
  read-replace_chunk :
      (other : Text) (disk : Disk)
      → text_eq temp other ≡ false
      → read_file other (replace_chunk path temp bytes disk)
        ≡ (if text_eq path other then some bytes else read_file other disk)
  unfolding replace_chunk rename_file
  read-replace_chunk other disk h =
      let d = write_file temp bytes disk in
      elim (Bool-cases (is_some (read_file path d))) [
        | inl there ↦ rw there (
            ground (
              arith,
              text_eq_iff temp path,
              text_eq_iff path temp,
              text_eq_refl temp,
              read-write temp temp bytes disk,
              read-remove path temp d,
              read-write path other bytes (remove_file temp (remove_file path d)),
              read-remove temp other (remove_file path d),
              read-remove path other d,
              read-write temp other bytes disk,
            ))
        | inr absent ↦ rw absent (
            ground (
              arith,
              text_eq_refl temp,
              read-write temp temp bytes disk,
              read-write path other bytes (remove_file temp d),
              read-remove temp other d,
              read-write temp other bytes disk,
            ))
      ]

-- Storing a chunk whose bytes agree with the expected hash returns their number and the chunk
-- reads back.
pub store_chunk_agrees :
    (p : Platform) (chunk_id : Text) (bytes : Bytes) (expected : Option Text) (disk : Disk)
    → hash_agrees p bytes expected ≡ true
    → ((store_chunk p chunk_id bytes expected disk).0 ≡ ok (length bytes))
      × (retrieve_chunk p chunk_id (store_chunk p chunk_id bytes expected disk).1 ≡ ok bytes)
unfolding store_chunk retrieve_chunk
store_chunk_agrees p chunk_id bytes expected disk agrees =
    let path = get_chunk_path p chunk_id in
    let apart = temp-ne-path p chunk_id chunk_id in
    ground (
      arith,
      read-replace_chunk path (get_temp_path p chunk_id) apart bytes path disk apart,
      text_eq_refl path,
    )

pub store_chunk_differs :
    (p : Platform) (chunk_id : Text) (bytes : Bytes) (expected : Option Text) (disk : Disk)
    → hash_agrees p bytes expected ≡ false
    → store_chunk p chunk_id bytes expected disk ≡ (err integrity, disk)
unfolding store_chunk
store_chunk_differs p chunk_id bytes expected disk h = ground arith

-- What a chunk's store does to the other chunks: each chunk with another file name reads as before.
pub retrieve-store_chunk_ne :
    (p : Platform) (chunk_id : Text) (bytes : Bytes) (expected : Option Text) (disk : Disk)
    (other : Text)
    → get_chunk_path p chunk_id ≢ get_chunk_path p other
    → retrieve_chunk p other (store_chunk p chunk_id bytes expected disk).1
      ≡ retrieve_chunk p other disk
unfolding store_chunk retrieve_chunk
retrieve-store_chunk_ne p chunk_id bytes expected disk other ne =
    let path = get_chunk_path p chunk_id in
    ground (
      arith,
      read-replace_chunk path (get_temp_path p chunk_id) (temp-ne-path p chunk_id chunk_id) bytes
          (get_chunk_path p other) disk (temp-ne-path p chunk_id other),
      text_eq_iff path (get_chunk_path p other),
    )

-- Storing a chunk whose bytes have the expected hash returns their number; the chunk then reads
-- back as those bytes, and every chunk with another file name reads as before.
pub retrieve-store_chunk :
    (p : Platform) (chunk_id : Text) (bytes : Bytes) (expected : Option Text) (disk : Disk)
    (other : Text)
    → hash_agrees p bytes expected ≡ true
    → get_chunk_path p chunk_id ≢ get_chunk_path p other
    → let (r, disk') = store_chunk p chunk_id bytes expected disk in
      (r ≡ ok (length bytes))
      × (retrieve_chunk p chunk_id disk' ≡ ok bytes)
      × (retrieve_chunk p other disk' ≡ retrieve_chunk p other disk)
retrieve-store_chunk p chunk_id bytes expected disk other agrees ne =
    let here = store_chunk_agrees p chunk_id bytes expected disk agrees in
    (here.0, here.1, retrieve-store_chunk_ne p chunk_id bytes expected disk other ne)

-- A chunk is valid under a hash exactly if the node has it and its bytes have that hash.
pub verify_chunk_iff :
    (p : Platform) (chunk_id expected : Text) (disk : Disk)
    → (verify_chunk p chunk_id expected disk ≡ true) ↔ (
        (bytes : Bytes) × (retrieve_chunk p chunk_id disk ≡ ok bytes) × (p.sha256 bytes ≡ expected))
unfolding verify_chunk retrieve_chunk calculate_bytes_hash
verify_chunk_iff p chunk_id expected disk =
    let hash =
      λ (content : Bytes). calculate_file_hash-eq p.sha256 buffer_size content (omega arith) in
    (
      (λ h. elim (Option-cases (read_file (get_chunk_path p chunk_id) disk)) [
        | inl absent ↦ absurd (ground arith)
        | inr (content, there) ↦ (
          content,
          ground arith,
          ground (arith, hash content, text_eq_iff (p.sha256 content) expected),
        )
      ]),
      (λ h. ground (arith, hash h.0, text_eq_iff (p.sha256 h.0) expected)),
    )

-- Deleting a chunk says whether it was there, and then it is gone; deleting it again says no.
pub delete_chunk_twice :
    (p : Platform) (chunk_id : Text) (disk : Disk)
    → let (deleted, disk') = delete_chunk p chunk_id disk in
      (deleted ≡ chunk_exists p chunk_id disk)
      × (retrieve_chunk p chunk_id disk' ≡ err file_not_found)
      × (delete_chunk p chunk_id disk' ≡ (false, disk'))
unfolding delete_chunk retrieve_chunk chunk_exists
delete_chunk_twice p chunk_id disk =
    let path = get_chunk_path p chunk_id in
    ground (arith, read-remove path path disk, text_eq_refl path)
