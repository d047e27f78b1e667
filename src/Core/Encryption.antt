-- ===== src/Core/Encryption.antt =====
-- airstore/core/encryption.py. AES-GCM is the cryptography package's, a parameter.
pub mod Roundtrip
use air_store.Prelude.{
  ℕ, ◌+◌, Bytes, ◌||◌, Option, none, some, ◌++◌, length, take, drop, ltb, ◌==◌, if◌then◌else◌,
}
use air_store.Core.Exec.{Result, ok, err, value_error, encryption}

-- `AESGCM(key)`: `none` of `decrypt` is `InvalidTag` or another exception.
pub record AesGcm : Type 0 where
  pub encrypt : Bytes → Bytes → Bytes → Option Bytes → Bytes
  pub decrypt : Bytes → Bytes → Bytes → Option Bytes → Option Bytes

abbrev pub nonce_size : ℕ
nonce_size = 12

pub record ChunkEncryptor : Type 0 where
  pub key : Bytes

-- `ChunkEncryptor(key)`
unfoldable pub new_encryptor : Bytes → Result ChunkEncryptor
new_encryptor key =
    if length key == 16 || (length key == 24 || length key == 32)
    then ok (record { key = key })
    else err value_error

module _ (aesgcm : AesGcm) where
  -- The nonce is `os.urandom(NONCE_SIZE)`.
  unfoldable pub encrypt_chunk : ChunkEncryptor → Bytes → Bytes → Option Bytes → Bytes
  encrypt_chunk e nonce chunk_data associated_data =
      nonce ++ aesgcm.encrypt e.key nonce chunk_data associated_data

  unfoldable pub decrypt_chunk : ChunkEncryptor → Bytes → Option Bytes → Result Bytes
  decrypt_chunk e encrypted_data associated_data =
      let nonce = take nonce_size encrypted_data in
      let ciphertext = drop nonce_size encrypted_data in
      if ltb (length encrypted_data) (nonce_size + 16)
      then err encryption
      else elim (aesgcm.decrypt e.key nonce ciphertext associated_data) [
        | none ↦ err encryption
        | some plaintext ↦ ok plaintext
      ]
