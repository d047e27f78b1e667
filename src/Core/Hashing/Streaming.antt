-- ===== src/Core/Hashing/Streaming.antt =====
-- core/hashing.py: hashing a file by parts.
use mathlib.Core.List.{append_assoc, append-nil}
use air_store.Prelude.{
  ℕ, zero, suc, ◌≤◌, ◌<◌, ◌≡◌, sym, ap, ◌∙◌, Text, Bytes, [], ◌∷◌, ◌++◌, length, take, drop,
  length-drop, take-append-drop, arith,
}
use air_store.Core.Hashing.{
  IncrementalHasher, new_hasher, update, calculate_bytes_hash, hash_loop, calculate_file_hash,
}

fed-hash_loop :
    (sha256 : Bytes → Text) (fuel n : ℕ) (rest : Bytes) (h : IncrementalHasher)
    → 0 < n
    → length rest ≤ fuel
    → (hash_loop sha256 fuel n rest h).fed ≡ h.fed ++ rest
unfolding hash_loop update
fed-hash_loop sha256 zero n [] h p q = sym (append-nil h.fed)
fed-hash_loop sha256 zero n (x ∷ xs) h p q = absurd (omega arith)
fed-hash_loop sha256 (suc fuel) zero rest h p q = absurd (omega arith)
fed-hash_loop sha256 (suc fuel) (suc m) [] h p q = sym (append-nil h.fed)
fed-hash_loop sha256 (suc fuel) (suc m) (x ∷ xs) h p q =
    fed-hash_loop sha256 fuel (suc m) (drop m xs) (update (x ∷ take m xs) h) p
      (omega (arith, length-drop m xs))
    ∙ append_assoc h.fed (x ∷ take m xs) (drop m xs)
    ∙ ap (λ ys. h.fed ++ (x ∷ ys)) (take-append-drop m xs)

-- With any buffer of at least one byte, the hash of a file that is read by parts is the hash of
-- its whole content.
pub calculate_file_hash-eq :
    (sha256 : Bytes → Text) (buffer_size : ℕ) (content : Bytes)
    → 0 < buffer_size
    → calculate_file_hash sha256 buffer_size content ≡ calculate_bytes_hash sha256 content
unfolding calculate_file_hash calculate_bytes_hash
calculate_file_hash-eq sha256 n content p =
    ap sha256 (fed-hash_loop sha256 (length content) n content new_hasher p (omega arith))
