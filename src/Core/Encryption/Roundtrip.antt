-- ===== src/Core/Encryption/Roundtrip.antt =====
-- core/encryption.py: decrypting what was encrypted.
use air_store.Prelude.{
  ◌+◌, ◌≡◌, Bytes, Option, some, ◌++◌, length, take, drop, take-append, drop-append, length-append,
  arith,
}
use air_store.Core.Exec.{ok}
use air_store.Core.Encryption.{AesGcm, ChunkEncryptor, nonce_size, encrypt_chunk, decrypt_chunk}

-- What AES-GCM promises: decryption under the same key, nonce and associated data gives the
-- plaintext back, and the ciphertext carries a tag of 16 bytes.
pub record IsAesGcm (aesgcm : AesGcm) : Type 0 where
  pub decrypt-encrypt :
      (key nonce plaintext : Bytes) (aad : Option Bytes)
      → aesgcm.decrypt key nonce (aesgcm.encrypt key nonce plaintext aad) aad ≡ some plaintext
  pub length-encrypt :
      (key nonce plaintext : Bytes) (aad : Option Bytes)
      → length (aesgcm.encrypt key nonce plaintext aad) ≡ length plaintext + 16

-- With a nonce of 12 bytes, decrypting an encrypted chunk returns the chunk.
pub decrypt_chunk-encrypt_chunk :
    (aesgcm : AesGcm) (e : ChunkEncryptor) (nonce plaintext : Bytes) (aad : Option Bytes)
    → IsAesGcm aesgcm
    → length nonce ≡ nonce_size
    → decrypt_chunk aesgcm e (encrypt_chunk aesgcm e nonce plaintext aad) aad ≡ ok plaintext
unfolding decrypt_chunk encrypt_chunk
decrypt_chunk-encrypt_chunk aesgcm e nonce plaintext aad law h =
    let c = aesgcm.encrypt e.key nonce plaintext aad in
    let front : take 12 (nonce ++ c) ≡ nonce = rw (← h) (take-append nonce c) in
    let back : drop 12 (nonce ++ c) ≡ c = rw (← h) (drop-append nonce c) in
    ground (
      arith,
      front,
      back,
      length-append nonce c,
      law.decrypt-encrypt e.key nonce plaintext aad,
      law.length-encrypt e.key nonce plaintext aad,
    )
