-- ===== src/Core/Chunking/Bounds.antt =====
-- core/chunking.py: how many chunks a file has, and how large they are.
use air_store.Prelude.{
  ℕ, zero, suc, ◌+◌, ◌*◌, ◌-◌, ◌≤◌, ◌<◌, ◌≡◌, refl, ap, Text, Bytes, some, List, [], ◌∷◌, length,
  drop, length-take, length-drop, All, arith,
}
use air_store.Core.Exec.{ok}
use air_store.Core.Models.{ChunkModel}
use air_store.Core.Chunking.{read_chunks, number_chunks, chunk_model, stream_chunks}

-- The rounds of the loop: each takes at least one byte and at most `n`, and only the last fewer.
length-read_chunks :
    (fuel n : ℕ) (rest : Bytes)
    → 0 < n
    → length rest ≤ fuel
    → let k = length (read_chunks fuel n rest) in
      (length rest ≤ k * n) × (k ≤ length rest) × (k * n < length rest + n)
unfolding read_chunks
length-read_chunks zero n [] p h = (omega arith, omega arith, omega arith)
length-read_chunks zero n (x ∷ xs) p h = absurd (omega arith)
length-read_chunks (suc fuel) zero rest p h = absurd (omega arith)
length-read_chunks (suc fuel) (suc m) [] p h = (omega arith, omega arith, omega arith)
length-read_chunks (suc fuel) (suc m) (x ∷ xs) p h =
    let (enough, few, tight) =
      length-read_chunks fuel (suc m) (drop m xs) p (omega (arith, length-drop m xs)) in
    rounds (length (read_chunks fuel (suc m) (drop m xs))) (length xs) (length (drop m xs))
      (length-drop m xs) enough few tight
  where
    rounds :
        (k l d : ℕ)
        → d ≡ l - m
        → d ≤ k * suc m
        → k ≤ d
        → k * suc m < d + suc m
        → (suc l ≤ suc k * suc m) × (suc k ≤ suc l) × (suc k * suc m < suc l + suc m)
    rounds zero l d e a b c = (omega arith, omega arith, omega arith)
    rounds (suc k) l d e a b c = (omega arith, omega arith, omega arith)

sizes-read_chunks :
    (fuel n : ℕ) (rest : Bytes)
    → All (λ c. (0 < length c) × (length c ≤ n)) (read_chunks fuel n rest)
unfolding read_chunks
sizes-read_chunks zero n rest = tt
sizes-read_chunks (suc fuel) zero rest = tt
sizes-read_chunks (suc fuel) (suc m) [] = tt
sizes-read_chunks (suc fuel) (suc m) (x ∷ xs) =
    ((omega arith, omega (arith, length-take m xs)), sizes-read_chunks fuel (suc m) (drop m xs))

number_chunks-sizes :
    (sha256 : Bytes → Text) (file_id : Text) (i n : ℕ) (parts : List Bytes)
    → All (λ c. (0 < length c) × (length c ≤ n)) parts
    → All (λ p. (0 < p.0.size) × (p.0.size ≤ n)) (number_chunks sha256 file_id i parts)
      × (length (number_chunks sha256 file_id i parts) ≡ length parts)
unfolding number_chunks chunk_model
number_chunks-sizes sha256 file_id i n [] h = (tt, refl)
number_chunks-sizes sha256 file_id i n (c ∷ cs) h =
    let (sizes, count) = number_chunks-sizes sha256 file_id (i + 1) n cs h.1 in
    ((h.0, sizes), ap suc count)

-- A file is cut into as many chunks as its length takes, rounded up: with a chunk size above 0 the
-- chunks are enough for all bytes, one chunk fewer would not be, and every chunk has at least one
-- byte and at most the chunk size.
pub stream_chunks_bounds :
    (sha256 : Bytes → Text) (content : Bytes) (file_id : Text) (n : ℕ)
    {pieces : List (ChunkModel × Bytes)}
    → 0 < n
    → stream_chunks sha256 (some content) file_id n ≡ ok pieces
    → (length content ≤ length pieces * n)
      × (length pieces * n < length content + n)
      × All (λ p. (0 < p.0.size) × (p.0.size ≤ n)) pieces
unfolding stream_chunks
stream_chunks_bounds sha256 content file_id n {pieces} p h =
    let parts = read_chunks (length content) n content in
    let cut : number_chunks sha256 file_id 0 parts ≡ pieces = cc in
    let (enough, few, tight) = length-read_chunks (length content) n content p (omega arith) in
    let (sizes, count) =
      number_chunks-sizes sha256 file_id 0 n parts (sizes-read_chunks (length content) n content) in
    rw (← cut, count) (enough, tight, sizes)
