-- ===== src/Core/Erasure/Shards.antt =====
-- Shards of equal length: cutting, XOR by bytes, and the XOR parity of all of them.
use Prim.Native.Nat.{bit_xor}
use air_store.Prelude.{ℕ, zero, suc, Bytes, List, [], ◌∷◌, take, drop}

-- `a[i] ^= b[i]` for every index of `a`.
unfoldable pub xor_bytes : Bytes → Bytes → Bytes
xor_bytes [] b = []
xor_bytes (x ∷ a) [] = x ∷ a
xor_bytes (x ∷ a) (y ∷ b) = bit_xor x y ∷ xor_bytes a b

-- `padded_data[i * shard_len : (i + 1) * shard_len]` for each `i`.
unfoldable pub cut : ℕ → ℕ → Bytes → List Bytes
cut zero shard_len padded = []
cut (suc n) shard_len padded = take shard_len padded ∷ cut n shard_len (drop shard_len padded)

-- `parity_0` after the loop over the shards.
unfoldable pub parity : List Bytes → Bytes → Bytes
parity [] parity_0 = parity_0
parity (shard ∷ shards) parity_0 = parity shards (xor_bytes parity_0 shard)
