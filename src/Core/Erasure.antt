-- ===== src/Core/Erasure.antt =====
-- airstore/core/erasure_coding.py: data shards with XOR parity. A byte is a number below 256.
mod Shards
pub mod Intact
use Prim.Native.Nat.{bit_or, bit_and}
unfoldable pub use Shards.*
use air_store.Prelude.{
  ℕ, zero, suc, ◌+◌, ◌-◌, ◌*◌, ◌/◌, ◌%◌, ◌^◌, Bytes, ◌||◌, Option, none, some, List, [], ◌∷◌, ◌++◌,
  length, take, set, replicate, get_elem?, ◌==◌, ltb, if◌then◌else◌,
}
use air_store.Core.Exec.{Result, ok, err, value_error, erasure_coding}

-- `((b_val << shift) | (b_val >> (8 - shift))) & 0xFF if shift else b_val`
unfoldable pub rotate_byte : ℕ → ℕ → ℕ
rotate_byte shift b_val =
    if shift == 0
    then b_val
    else bit_and (bit_or (b_val * 2 ^ shift) (b_val / 2 ^ (8 - shift))) 0xff

rotate_shard : ℕ → Bytes → Bytes
rotate_shard shift [] = []
rotate_shard shift (b ∷ bs) = rotate_byte shift b ∷ rotate_shard shift bs

-- `parity_buf` over the data shards from number `d_idx` on.
unfoldable pub rotated_parity : ℕ → List Bytes → Bytes → Bytes
unfolding rotate_byte rotate_shard
rotated_parity d_idx [] parity_buf = parity_buf
rotated_parity d_idx (shard ∷ shards) parity_buf =
    rotated_parity (d_idx + 1) shards (xor_bytes parity_buf (rotate_shard (d_idx % 8) shard))

-- The parity shards after the first: one for each `p` in `range(1, parity_shards)`.
unfoldable pub secondary_parity : ℕ → ℕ → List Bytes → List Bytes
unfolding rotated_parity
secondary_parity zero shard_len shards = []
secondary_parity (suc n) shard_len shards =
    rotated_parity 0 shards (replicate shard_len 0) ∷ secondary_parity n shard_len shards

-- `(len(data) + data_shards - 1) // data_shards`
unfoldable pub shard_length : ℕ → ℕ → ℕ
shard_length size data_shards = (size + data_shards - 1) / data_shards

-- `data.ljust(total_len, b"\x00")`
unfoldable pub ljust : ℕ → Bytes → Bytes
ljust total bytes = bytes ++ replicate (total - length bytes) 0

unfoldable pub split_data : Bytes → ℕ → ℕ → Result (List Bytes)
unfolding shard_length ljust
split_data bytes data_shards parity_shards =
    let shard_len = shard_length (length bytes) data_shards in
    let shards = cut data_shards shard_len (ljust (shard_len * data_shards) bytes) in
    if data_shards == 0 || parity_shards == 0
    then err value_error
    else ok (
        shards
        ++ (parity shards (replicate shard_len 0)
            ∷ secondary_parity (parity_shards - 1) shard_len shards))

-- `sum(1 for s in shards if s is not None)`
abbrev pub available_count : List (Option Bytes) → ℕ
available_count [] = 0
available_count (none ∷ shards) = available_count shards
available_count (some s ∷ shards) = suc (available_count shards)

-- `b"".join` of shards that are all there; `none` where one is missing.
abbrev pub join_all : List (Option Bytes) → Option Bytes
join_all [] = some []
join_all (none ∷ shards) = none
join_all (some s ∷ shards) = elim (join_all shards) [ none ↦ none | some rest ↦ some (s ++ rest) ]

-- The indices of the missing shards, from `i` on.
abbrev pub missing_indices : ℕ → List (Option Bytes) → List ℕ
missing_indices i [] = []
missing_indices i (none ∷ shards) = i ∷ missing_indices (i + 1) shards
missing_indices i (some s ∷ shards) = missing_indices (i + 1) shards

-- The XOR of `acc` with every data shard that is there.
unfoldable pub xor_present : List (Option Bytes) → Bytes → Bytes
xor_present [] acc = acc
xor_present (none ∷ shards) acc = xor_present shards acc
xor_present (some s ∷ shards) acc = xor_present shards (xor_bytes acc s)

-- One data shard is missing, and the first parity shard may stand in for it.
unfoldable pub rebuild : List (Option Bytes) → List ℕ → Option (Option Bytes) → ℕ → Result Bytes
unfolding xor_present
rebuild data_part (missing_idx ∷ []) (some (some p0)) original_size =
    elim (join_all (set data_part missing_idx (some (xor_present data_part p0)))) [
      | none ↦ err erasure_coding
      | some joined ↦ ok (take original_size joined)
    ]
rebuild data_part _ _ original_size = err erasure_coding

unfoldable pub reconstruct_data : List (Option Bytes) → ℕ → ℕ → ℕ → Result Bytes
unfolding rebuild
reconstruct_data shards original_size data_shards parity_shards =
    let data_part = take data_shards shards in
    if length shards == data_shards + parity_shards
    then if ltb (available_count shards) data_shards
      then err erasure_coding
      else elim (join_all data_part) [
        | some joined ↦ ok (take original_size joined)
        | none ↦
            rebuild data_part (missing_indices 0 data_part) (get_elem? shards data_shards)
              original_size
      ]
    else err erasure_coding
