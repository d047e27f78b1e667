-- ===== src/Core/Chunking.antt =====
-- airstore/core/chunking.py: cutting a file into chunks, and putting one together again.
pub mod Pieces
pub mod Bounds
use air_store.Prelude.{
  ℕ, zero, suc, ◌+◌, Text, text_eq, Bytes, Bool, true, Option, none, some, List, [], ◌∷◌, ◌++◌,
  length, take, drop, map, if◌then◌else◌,
}
use air_store.Core.Exec.{Error, Result, ok, err, file_not_found, integrity}
use air_store.Core.Models.{ChunkModel}
use air_store.Core.Formatting.{chunk_id_of}
use air_store.Core.Hashing.{IncrementalHasher, new_hasher, update, hexdigest, calculate_bytes_hash}

-- The `while True` over `f.read(chunk_size)`; the fuel is the length of the file.
unfoldable pub read_chunks : ℕ → ℕ → Bytes → List Bytes
read_chunks zero chunk_size rest = []
read_chunks (suc fuel) chunk_size rest = elim (take chunk_size rest) [
  | [] ↦ []
  | b ∷ bs ↦ (b ∷ bs) ∷ read_chunks fuel chunk_size (drop chunk_size rest)
]

-- A file is its bytes, and `none` is a path where there is none.
abbrev pub Source : Type 0
Source = Option Bytes

module _ (sha256 : Bytes → Text) where
  -- The `ChunkModel` of one chunk.
  unfoldable pub chunk_model : Text → ℕ → Bytes → ChunkModel
  chunk_model file_id sequence chunk_bytes = record {
    chunk_id = chunk_id_of file_id sequence;
    file_id = file_id;
    sequence_number = sequence;
    size = length chunk_bytes;
    sha256 = calculate_bytes_hash sha256 chunk_bytes;
  }

  -- The chunks from one sequence number on, each with its bytes.
  unfoldable pub number_chunks : Text → ℕ → List Bytes → List (ChunkModel × Bytes)
  number_chunks file_id sequence [] = []
  number_chunks file_id sequence (c ∷ cs) =
      (chunk_model file_id sequence c, c) ∷ number_chunks file_id (sequence + 1) cs

  -- All that the generator yields.
  unfoldable pub stream_chunks : Source → Text → ℕ → Result (List (ChunkModel × Bytes))
  stream_chunks none file_id chunk_size = err file_not_found
  stream_chunks (some content) file_id chunk_size =
      ok (number_chunks file_id 0 (read_chunks (length content) chunk_size content))

  -- The hasher is fed chunk by chunk.
  unfoldable pub feed : List Bytes → IncrementalHasher → IncrementalHasher
  feed [] h = h
  feed (c ∷ cs) h = feed cs (update c h)

  -- The overall hash, the size of the file and the chunks.
  unfoldable pub get_file_info_and_chunks : Source → Text → ℕ → Result (Text × ℕ × List ChunkModel)
  get_file_info_and_chunks none file_id chunk_size = err file_not_found
  get_file_info_and_chunks (some content) file_id chunk_size =
      let pieces = read_chunks (length content) chunk_size content in
      ok (
        hexdigest sha256 (feed pieces new_hasher),
        length content,
        map (λ c. c.0) (number_chunks file_id 0 pieces),
      )

-- The output path and its temporary file.
pub record Output : Type 0 where
  pub out_p : Option Bytes
  pub temp_path : Option Bytes

-- What a generator of chunks delivered, and the exception that ended it, if one did.
pub record ChunkStream : Type 0 where
  pub delivered : List Bytes
  pub raised : Option Error

-- `f.write` for every chunk.
unfoldable pub write_all : List Bytes → Bytes → Bytes
write_all [] written = written
write_all (c ∷ cs) written = write_all cs (written ++ c)

module _ (sha256 : Bytes → Text) where
  unfoldable pub assemble_file_from_stream : ChunkStream → Text → Output → Result Bool × Output
  unfolding feed hexdigest write_all
  assemble_file_from_stream stream expected_overall_hash files = elim (stream.raised) [
    | some e ↦ (err e, record files { temp_path = none })
    | none ↦
        if text_eq (hexdigest sha256 (feed sha256 stream.delivered new_hasher))
          expected_overall_hash
        then (ok true, record { out_p = some (write_all stream.delivered []); temp_path = none })
        else (err integrity, record files { temp_path = none })
  ]
