-- ===== src/Core/Chunking/Pieces.antt =====
-- core/chunking.py: what the read loop cuts, and what assembling the pieces gives.
use mathlib.Core.List.{append_assoc, append-nil}
use air_store.Prelude.{
  ℕ, zero, suc, ◌+◌, ◌*◌, ◌≤◌, ◌<◌, ◌≡◌, refl, Text, text_eq_iff, Bytes, true, none, some, List, [],
  ◌∷◌, ◌++◌, map, length, take, drop, flatten, get_elem?, take-append-drop, length-drop, arith, ap,
  sym, ◌∙◌, ◌⊎◌, ◌↔◌,
}
use air_store.Core.Exec.{Error, ok, err}
use air_store.Core.Models.{ChunkModel}
use air_store.Core.Hashing.{IncrementalHasher, new_hasher, update, hexdigest, calculate_bytes_hash}
use air_store.Core.Chunking.{
  read_chunks, number_chunks, chunk_model, stream_chunks, feed, get_file_info_and_chunks, Output,
  ChunkStream, write_all, assemble_file_from_stream,
}

flatten-read_chunks :
    (fuel n : ℕ) (rest : Bytes)
    → 0 < n
    → length rest ≤ fuel
    → flatten (read_chunks fuel n rest) ≡ rest
unfolding read_chunks
flatten-read_chunks zero n [] p h = refl
flatten-read_chunks zero n (x ∷ xs) p h = absurd (omega arith)
flatten-read_chunks (suc fuel) zero rest p h = absurd (omega arith)
flatten-read_chunks (suc fuel) (suc m) [] p h = refl
flatten-read_chunks (suc fuel) (suc m) (x ∷ xs) p h =
    rw (flatten-read_chunks fuel (suc m) (drop m xs) p (omega (arith, length-drop m xs)))
      (ap (λ ys. x ∷ ys) (take-append-drop m xs))

drop-drop : (m n k : ℕ) (xs : Bytes) → m + n ≡ k → drop n (drop m xs) ≡ drop k xs
drop-drop zero n k xs e = let e' : n ≡ k = omega arith in rw e'
drop-drop (suc m) zero zero xs e = absurd (omega arith)
drop-drop (suc m) (suc n) zero xs e = absurd (omega arith)
drop-drop (suc m) zero (suc k) [] e = refl
drop-drop (suc m) (suc n) (suc k) [] e = refl
drop-drop (suc m) n (suc k) (x ∷ xs) e = drop-drop m n k xs (omega arith)

-- A piece is the slice of `n` bytes at its index, and it is not empty.
read_chunks_slice :
    (fuel n i k : ℕ) (rest : Bytes) {c : Bytes}
    → i * n ≡ k
    → get_elem? (read_chunks fuel n rest) i ≡ some c
    → (c ≡ take n (drop k rest)) × (0 < length c)
unfolding read_chunks
read_chunks_slice zero n i k rest e h = cc
read_chunks_slice (suc fuel) zero i k rest e h = cc
read_chunks_slice (suc fuel) (suc m) i k [] e h = cc
read_chunks_slice (suc fuel) (suc m) zero k (x ∷ xs) {c} e h =
    let z : k ≡ 0 = omega arith in
    let same : c ≡ x ∷ take m xs = cc in (rw z same, rw same (omega arith))
read_chunks_slice (suc fuel) (suc m) (suc i) k (x ∷ xs) {c} e h =
    let ih = read_chunks_slice fuel (suc m) i (i * suc m) (drop m xs) {c = c} refl h in
    (ih.0 ∙ ap (take (suc m)) (drop-drop (suc m) (i * suc m) k (x ∷ xs) (grind arith)), ih.1)

write_all-eq-append : (cs : List Bytes) (w : Bytes) → write_all cs w ≡ w ++ flatten cs
unfolding write_all
write_all-eq-append [] w = sym (append-nil w)
write_all-eq-append (c ∷ cs) w = write_all-eq-append cs (w ++ c) ∙ append_assoc w c (flatten cs)

fed-feed :
    (sha256 : Bytes → Text) (cs : List Bytes) (h : IncrementalHasher)
    → (feed sha256 cs h).fed ≡ h.fed ++ flatten cs
unfolding feed update
fed-feed sha256 [] h = sym (append-nil h.fed)
fed-feed sha256 (c ∷ cs) h = fed-feed sha256 cs (update c h) ∙ append_assoc h.fed c (flatten cs)

hexdigest-feed :
    (sha256 : Bytes → Text) (cs : List Bytes)
    → hexdigest sha256 (feed sha256 cs new_hasher) ≡ sha256 (flatten cs)
unfolding hexdigest
hexdigest-feed sha256 cs = ap sha256 (fed-feed sha256 cs new_hasher)

-- The entry of the stream with index `i`: its model describes its bytes.
abbrev pub Describes : (Bytes → Text) → Text → ℕ → ChunkModel → Bytes → Type 0
Describes sha256 file_id i m c =
    (m.sequence_number ≡ i) × (m.file_id ≡ file_id) × (m.size ≡ length c) × (m.sha256 ≡ sha256 c)

number_chunks_entry :
    (sha256 : Bytes → Text) (file_id : Text) (cs : List Bytes) (k i j : ℕ) {m : ChunkModel}
    {c : Bytes}
    → k + i ≡ j
    → get_elem? (number_chunks sha256 file_id k cs) i ≡ some (m, c)
    → Describes sha256 file_id j m c × (get_elem? cs i ≡ some c)
unfolding number_chunks chunk_model calculate_bytes_hash
number_chunks_entry sha256 file_id [] k i j e h = cc
number_chunks_entry sha256 file_id (x ∷ cs) k zero j e h = ground arith
number_chunks_entry sha256 file_id (x ∷ cs) k (suc i) j e h =
    number_chunks_entry sha256 file_id cs (k + 1) i j (omega arith) h

map-number_chunks :
    (sha256 : Bytes → Text) (file_id : Text) (k : ℕ) (cs : List Bytes)
    → map (λ q. q.1) (number_chunks sha256 file_id k cs) ≡ cs
unfolding number_chunks
map-number_chunks sha256 file_id k [] = refl
map-number_chunks sha256 file_id k (c ∷ cs) =
    ap (λ ys. c ∷ ys) (map-number_chunks sha256 file_id (k + 1) cs)

-- With every index of the stream comes the slice of `chunk_size` bytes of the file at that place:
-- not empty, and with a model that carries the index as its sequence number, the file's id, and
-- the length and the hash of those bytes.
pub stream_chunks_slices :
    (sha256 : Bytes → Text) (content : Bytes) (file_id : Text) (n i : ℕ)
    {pieces : List (ChunkModel × Bytes)} {m : ChunkModel} {c : Bytes}
    → stream_chunks sha256 (some content) file_id n ≡ ok pieces
    → get_elem? pieces i ≡ some (m, c)
    → Describes sha256 file_id i m c × (c ≡ take n (drop (i * n) content)) × (0 < length c)
unfolding stream_chunks
stream_chunks_slices sha256 content file_id n i {pieces} {m} {c} e h =
    let parts = read_chunks (length content) n content in
    let cut : pieces ≡ number_chunks sha256 file_id 0 parts = cc in
    let entry =
      number_chunks_entry sha256 file_id parts 0 i i {m = m} {c = c} (omega arith) (rw (← cut) h) in
    let slice = read_chunks_slice (length content) n i (i * n) content {c = c} refl entry.1 in
    (entry.0, slice.0, slice.1)

-- The chunks of a stream, read in order, are the file: with a chunk size above 0 the stream's
-- bytes, assembled under the overall hash that `get_file_info_and_chunks` computes, write exactly
-- the content of the source, and leave no temporary file.
pub assemble-stream_chunks :
    (sha256 : Bytes → Text) (content : Bytes) (file_id : Text) (n : ℕ) (files : Output)
    {pieces : List (ChunkModel × Bytes)} {info : Text × ℕ × List ChunkModel}
    → 0 < n
    → stream_chunks sha256 (some content) file_id n ≡ ok pieces
    → get_file_info_and_chunks sha256 (some content) file_id n ≡ ok info
    → assemble_file_from_stream sha256
        (record { delivered = map (λ p. p.1) pieces; raised = none })
        info.0
        files
      ≡ (ok true, record { out_p = some content; temp_path = none })
unfolding stream_chunks get_file_info_and_chunks assemble_file_from_stream
assemble-stream_chunks sha256 content file_id n files {pieces} {info} p e f =
    let parts = read_chunks (length content) n content in
    let whole : flatten parts ≡ content =
      flatten-read_chunks (length content) n content p (omega arith) in
    let cut : pieces ≡ number_chunks sha256 file_id 0 parts = cc in
    let same : map (λ q. q.1) pieces ≡ parts = rw cut (map-number_chunks sha256 file_id 0 parts) in
    let digest = hexdigest-feed sha256 parts in
    let hash : info.0 ≡ sha256 content = ground (arith, digest, whole) in
    rw same (
      ground (
        arith,
        digest,
        whole,
        hash,
        write_all-eq-append parts [],
        text_eq_iff (hexdigest sha256 (feed sha256 parts new_hasher)) info.0,
      ))

-- However the stream ends, assembling returns true exactly if no chunk raised and the bytes have the
-- expected hash. It then has written those bytes to the output path; otherwise it raises, and the
-- output path is as before. The temporary file is gone in every case.
pub assemble_integrity :
    (sha256 : Bytes → Text) (stream : ChunkStream) (expected : Text) (files : Output)
    → let (r, files') = assemble_file_from_stream sha256 stream expected files in
      (files'.temp_path ≡ none)
      × ((r ≡ ok true) ↔ ((stream.raised ≡ none) × (sha256 (flatten stream.delivered) ≡ expected)))
      × ((r ≡ ok true)
            × (stream.raised ≡ none)
            × (sha256 (flatten stream.delivered) ≡ expected)
            × (files'.out_p ≡ some (flatten stream.delivered))
          ⊎ ((e : Error) × (r ≡ err e) × (files'.out_p ≡ files.out_p)))
unfolding assemble_file_from_stream
assemble_integrity sha256 stream expected files = ground (
  arith,
  hexdigest-feed sha256 stream.delivered,
  write_all-eq-append stream.delivered [],
  text_eq_iff (hexdigest sha256 (feed sha256 stream.delivered new_hasher)) expected,
)
