-- ===== src/Core/Hashing.antt =====
-- airstore/core/hashing.py. SHA-256 is hashlib's, a parameter.
pub mod Streaming
use air_store.Prelude.{ℕ, zero, suc, ◌+◌, Text, Bytes, [], ◌∷◌, ◌++◌, length, take, drop}

-- `hasher.update` a number of times and then `hexdigest` is the digest of all that was fed.
pub record IncrementalHasher : Type 0 where
  pub fed : Bytes
  pub bytes_processed : ℕ

abbrev pub new_hasher : IncrementalHasher
new_hasher = record { fed = []; bytes_processed = 0 }

unfoldable pub update : Bytes → IncrementalHasher → IncrementalHasher
update bytes h = record { fed = h.fed ++ bytes; bytes_processed = h.bytes_processed + length bytes }

module _ (sha256 : Bytes → Text) where
  unfoldable pub hexdigest : IncrementalHasher → Text
  hexdigest h = sha256 h.fed

  unfoldable pub calculate_bytes_hash : Bytes → Text
  unfolding hexdigest update
  calculate_bytes_hash bytes = hexdigest (update bytes new_hasher)

  -- `f.read(buffer_size)` until it returns nothing; the fuel is the length of the file.
  hash_loop : ℕ → ℕ → Bytes → IncrementalHasher → IncrementalHasher
  hash_loop zero buffer_size rest h = h
  hash_loop (suc fuel) buffer_size rest h = elim (take buffer_size rest) [
    | [] ↦ h
    | b ∷ bs ↦ hash_loop fuel buffer_size (drop buffer_size rest) (update (b ∷ bs) h)
  ]

  unfoldable pub calculate_file_hash : ℕ → Bytes → Text
  unfolding hexdigest hash_loop
  calculate_file_hash buffer_size content =
      hexdigest (hash_loop (length content) buffer_size content new_hasher)
