-- ===== src/Tests/CoreTests.antt =====
-- Chunks, hashes, ciphertexts and placement at concrete inputs.
use air_store.Prelude.{
  ℕ, ◌*◌, ◌-◌, ◌<◌, min, ◌≡◌, ◌⊎◌, ◌↔◌, refl, Text, text_eq, codes, Bytes, true, false, ◌++◌, none,
  some, List, [], ◌∷◌, length, length-append, take, take-append, drop, map, replicate, select, All,
  Elem, get_elem?, arith,
}
use air_store.Prelude.Sort.{order_by}
use air_store.Core.Exec.{Error, ok, err, insufficient_nodes}
use air_store.Core.Hashing.{calculate_bytes_hash, calculate_file_hash, hexdigest, update}
use air_store.Core.Hashing.Streaming.{calculate_file_hash-eq}
use air_store.Core.Models.{ChunkModel, NodeModel}
use air_store.Core.Encryption.{ChunkEncryptor, encrypt_chunk, decrypt_chunk}
use air_store.Core.Encryption.Roundtrip.{IsAesGcm, decrypt_chunk-encrypt_chunk}
use air_store.Core.Chunking.{
  ChunkStream, stream_chunks, read_chunks, number_chunks, chunk_model, feed,
  get_file_info_and_chunks, assemble_file_from_stream,
}
use air_store.Core.Chunking.Pieces.{
  Describes, stream_chunks_slices, assemble-stream_chunks, assemble_integrity,
}
use Prim.Native.Nat.{bit_xor}
use air_store.Core.Erasure.{
  split_data, reconstruct_data, shard_length, ljust, cut, parity, secondary_parity, xor_bytes,
}
use air_store.Core.Erasure.Intact.{all_there, reconstruct_data-split_data}
use air_store.Placement.{
  select_nodes_for_chunk, choose_nodes, is_candidate, sort_by_score, compute_node_score, or_empty,
}
use air_store.Placement.Laws.{
  IsEligible, select_nodes_for_chunk_sound, select_nodes_for_chunk_error,
}
use air_store.Tests.Fixtures.{
  whole_float, tag_cipher, marked_hash, content_abc, no_output, file_f, node_a, small_chunk,
  small_node, small_nodes,
}

-- The file "abc" in chunks of two.
abbrev two_pieces : List (ChunkModel × Bytes)
two_pieces = number_chunks marked_hash file_f 0 (codes "ab" ∷ (codes "c" ∷ []))

abbrev abc_info : Text × ℕ × List ChunkModel
abc_info = (marked_hash content_abc, 3, map (λ p. p.0) two_pieces)

streamed : stream_chunks marked_hash (some content_abc) file_f 2 ≡ ok two_pieces
unfolding stream_chunks read_chunks
streamed = refl

informed : get_file_info_and_chunks marked_hash (some content_abc) file_f 2 ≡ ok abc_info
unfolding get_file_info_and_chunks read_chunks feed hexdigest update
informed = refl

second_piece :
    get_elem? two_pieces 1 ≡ some (chunk_model marked_hash file_f 1 (codes "c"), codes "c")
unfolding number_chunks
second_piece = refl

stream_chunks_slices_example :
    Describes marked_hash file_f 1 (chunk_model marked_hash file_f 1 (codes "c")) (codes "c")
    × (codes "c" ≡ take 2 (drop (1 * 2) content_abc))
    × (0 < length (codes "c"))
stream_chunks_slices_example =
    stream_chunks_slices marked_hash content_abc file_f 2 1 streamed second_piece

assemble-stream_chunks_example :
    assemble_file_from_stream marked_hash
      (record { delivered = map (λ p. p.1) two_pieces; raised = none })
      abc_info.0
      no_output
    ≡ (ok true, record { out_p = some content_abc; temp_path = none })
assemble-stream_chunks_example =
    assemble-stream_chunks marked_hash content_abc file_f 2 no_output (omega arith) streamed
      informed

abbrev abc_stream : ChunkStream
abc_stream = record { delivered = codes "ab" ∷ (codes "c" ∷ []); raised = none }

assemble_integrity_example :
    let (r, files') =
      assemble_file_from_stream marked_hash abc_stream (marked_hash content_abc) no_output in
    (files'.temp_path ≡ none)
    × ((r ≡ ok true)
        ↔ ((abc_stream.raised ≡ none) × (marked_hash content_abc ≡ marked_hash content_abc)))
    × ((r ≡ ok true)
          × (abc_stream.raised ≡ none)
          × (marked_hash content_abc ≡ marked_hash content_abc)
          × (files'.out_p ≡ some content_abc)
        ⊎ ((e : Error) × (r ≡ err e) × (files'.out_p ≡ none)))
assemble_integrity_example =
    assemble_integrity marked_hash abc_stream (marked_hash content_abc) no_output

calculate_file_hash-eq_example :
    calculate_file_hash marked_hash 2 content_abc ≡ calculate_bytes_hash marked_hash content_abc
calculate_file_hash-eq_example = calculate_file_hash-eq marked_hash 2 content_abc (omega arith)

pub tag_cipher-IsAesGcm : IsAesGcm tag_cipher
tag_cipher-IsAesGcm = record {
  decrypt-encrypt = λ key nonce plaintext aad.
      (let size : length (plaintext ++ replicate 16 0) - 16 ≡ length plaintext =
          omega (arith, length-append plaintext (replicate 16 0)) in
        rw (size, take-append plaintext (replicate 16 0)) refl);
  length-encrypt = λ key nonce plaintext aad. length-append plaintext (replicate 16 0);
}

abbrev small_encryptor : ChunkEncryptor
small_encryptor = record { key = replicate 16 1 }

decrypt_chunk-encrypt_chunk_example :
    decrypt_chunk tag_cipher small_encryptor
      (encrypt_chunk tag_cipher small_encryptor (replicate 12 5) content_abc none)
      none
    ≡ ok content_abc
decrypt_chunk-encrypt_chunk_example =
    decrypt_chunk-encrypt_chunk tag_cipher small_encryptor (replicate 12 5) content_abc none
      tag_cipher-IsAesGcm refl

-- One more replica, beside the one on node a.
abbrev one_selected : List NodeModel
one_selected = small_node (codes "b") 95 ∷ []

selects_b :
    select_nodes_for_chunk whole_float small_chunk small_nodes 1 (some (node_a ∷ []))
    ≡ ok one_selected
unfolding select_nodes_for_chunk choose_nodes is_candidate sort_by_score compute_node_score order_by
    text_eq
selects_b = refl

select_nodes_for_chunk_sound_example :
    All (λ n. IsEligible small_chunk (node_a ∷ []) n × Elem n small_nodes) one_selected
    × (length one_selected
        ≡ min 1 (
            length (select (is_candidate small_chunk (or_empty (some (node_a ∷ [])))) small_nodes)))
select_nodes_for_chunk_sound_example =
    select_nodes_for_chunk_sound whole_float small_chunk small_nodes 1 (some (node_a ∷ []))
      selects_b

select_nodes_for_chunk_error_example :
    (select_nodes_for_chunk whole_float small_chunk small_nodes 2 none ≡ err insufficient_nodes)
    ↔ All (λ n. is_candidate small_chunk (or_empty none) n ≡ false) small_nodes
select_nodes_for_chunk_error_example =
    select_nodes_for_chunk_error whole_float small_chunk small_nodes 2 none

-- The shards of "abc", with one parity shard.
abbrev abc_shards : List Bytes
abc_shards = codes "ab" ∷ ((b'c' ∷ (0 ∷ [])) ∷ ((bit_xor b'a' b'c' ∷ (b'b' ∷ [])) ∷ []))

split_abc : split_data content_abc 2 1 ≡ ok abc_shards
unfolding split_data shard_length ljust cut parity secondary_parity xor_bytes
split_abc = refl

reconstruct_data-split_data_example :
    reconstruct_data (all_there (take 2 abc_shards) ++ (none ∷ [])) (length content_abc) 2 1
    ≡ ok content_abc
reconstruct_data-split_data_example =
    reconstruct_data-split_data content_abc 2 1 (none ∷ []) split_abc refl
