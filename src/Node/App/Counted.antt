-- ===== src/Node/App/Counted.antt =====
-- node/storage.py: what `get_stats` reports after a chunk was stored.
use air_store.Prelude.{
  ℕ, ◌+◌, ◌-◌, ◌≡◌, refl, sym, ap, ◌∙◌, Text, text_eq, text_eq_iff, text_eq_refl, codes, Bytes,
  true, false, Option, some, [], ◌∷◌, ◌++◌, length, take, drop, take-append-drop, is_some,
  length-append, drop-append, Bool-cases, inl, inr, arith,
}
use air_store.Node.Disk.{
  Disk, read_file, write_file, remove_file, rename_file, read-write, read-remove,
}
use air_store.Node.Engine.{
  Platform, safe_id, get_chunk_path, get_temp_path, hash_agrees, chunk_exists, replace_chunk,
  store_chunk,
}
use air_store.Node.Engine.Laws.{temp-ne-path, last_or, last_or-append, last_or-get_temp_path}
use air_store.Node.App.{Usage, is_chunk_name, chunk_files, sum_of_sizes, get_stats}

-- The number and the bytes of the chunk files.
abbrev count : Disk → ℕ
count disk = length (chunk_files disk)

abbrev bytes_of : Disk → ℕ
bytes_of disk = sum_of_sizes (chunk_files disk)

-- A file that is no chunk is not counted.
write-other :
    (name : Text) (content : Bytes) (disk : Disk)
    → is_chunk_name name ≡ false
    → (count (write_file name content disk) ≡ count disk)
      × (bytes_of (write_file name content disk) ≡ bytes_of disk)
unfolding write_file sum_of_sizes
write-other name content [] other = (ground arith, ground arith)
write-other name content ((n, c) ∷ disk) other =
    let (counted, sized) = write-other name content disk other in
    (ground (arith, text_eq_iff n name, counted), ground (arith, text_eq_iff n name, sized))

remove-other :
    (name : Text) (disk : Disk)
    → is_chunk_name name ≡ false
    → (count (remove_file name disk) ≡ count disk)
      × (bytes_of (remove_file name disk) ≡ bytes_of disk)
unfolding remove_file sum_of_sizes
remove-other name [] other = (refl, refl)
remove-other name ((n, c) ∷ disk) other =
    let (counted, sized) = remove-other name disk other in
    (ground (arith, text_eq_iff n name, counted), ground (arith, text_eq_iff n name, sized))

write-chunk :
    (name : Text) (content : Bytes) (disk : Disk)
    → is_chunk_name name ≡ true
    → is_some (read_file name disk) ≡ false
    → (count (write_file name content disk) ≡ count disk + 1)
      × (bytes_of (write_file name content disk) ≡ bytes_of disk + length content)
unfolding write_file read_file sum_of_sizes
write-chunk name content [] chunk absent = (ground arith, ground arith)
write-chunk name content ((n, c) ∷ disk) chunk absent = elim (Bool-cases (text_eq n name)) [
  | inl same ↦ absurd (ground arith)
  | inr apart ↦
      (let (counted, sized) = write-chunk name content disk chunk (ground arith) in
        (ground (arith, counted), ground (arith, sized)))
]

is_chunk_name-get_chunk_path :
    (p : Platform) (chunk_id : Text) → is_chunk_name (get_chunk_path p chunk_id) ≡ true
unfolding is_chunk_name get_chunk_path text_eq
is_chunk_name-get_chunk_path p chunk_id =
    let safe = safe_id p chunk_id in
    let size : length (safe ++ codes ".chunk") - 6 ≡ length safe =
      omega (arith, length-append safe (codes ".chunk")) in
    rw (size, drop-append safe (codes ".chunk")) refl

is_chunk_name-get_temp_path :
    (p : Platform) (chunk_id : Text) → is_chunk_name (get_temp_path p chunk_id) ≡ false
unfolding is_chunk_name last_or
is_chunk_name-get_temp_path p chunk_id =
    let name = get_temp_path p chunk_id in
    let k = length name - 6 in
    elim (Bool-cases (text_eq (drop k name) (codes ".chunk"))) [
      | inr other ↦ other
      | inl chunk ↦
          (let suffix : drop k name ≡ codes ".chunk" =
              ground (arith, text_eq_iff (drop k name) (codes ".chunk")) in
            let split : name ≡ take k name ++ codes ".chunk" =
              sym (take-append-drop k name) ∙ ap (λ xs. take k name ++ xs) suffix in
            let last : last_or 0 name ≡ b'k' =
              ap (last_or 0) split ∙ last_or-append 0 (take k name) b'.' (codes "chunk") in
            absurd (ground (arith, last, last_or-get_temp_path p chunk_id)))
    ]

-- The numbers that a node reports grow with each new chunk: after a chunk is stored that agrees
-- with its hash and was not there before, there is one chunk more and its bytes more, the
-- temporary file is not counted, and the numbers of the disk are those that psutil gives.
pub get_stats-store_chunk :
    (p : Platform) (usage : Usage) (chunk_id : Text) (bytes : Bytes) (expected : Option Text)
    (disk : Disk)
    → hash_agrees p bytes expected ≡ true
    → chunk_exists p chunk_id disk ≡ false
    → get_stats usage (store_chunk p chunk_id bytes expected disk).1
      ≡ record (get_stats usage disk) {
        airstore_chunk_bytes = (get_stats usage disk).airstore_chunk_bytes + length bytes;
        chunk_count = (get_stats usage disk).chunk_count + 1;
      }
unfolding get_stats chunk_exists store_chunk replace_chunk rename_file
get_stats-store_chunk p usage chunk_id bytes expected disk agrees absent =
    let path = get_chunk_path p chunk_id in
    let temp = get_temp_path p chunk_id in
    let apart = temp-ne-path p chunk_id chunk_id in
    let d = write_file temp bytes disk in
    let e = remove_file temp d in
    let written = write-other temp bytes disk (is_chunk_name-get_temp_path p chunk_id) in
    let removed = remove-other temp d (is_chunk_name-get_temp_path p chunk_id) in
    let none_d : read_file path d ≡ read_file path disk =
      ground (arith, read-write temp path bytes disk) in
    let none_e : read_file path e ≡ read_file path disk = ground (arith, read-remove temp path d) in
    let in_temp : read_file temp d ≡ some bytes =
      ground (arith, read-write temp temp bytes disk, text_eq_refl temp) in
    let (counted, sized) =
      write-chunk path bytes e (is_chunk_name-get_chunk_path p chunk_id) (ground arith) in
    ground (arith, counted, sized, written, removed)
