-- ===== src/Core/Formatting.antt =====
-- What the f-strings of the program compute: decimal numbers, and the `:06d` of a chunk id.
pub mod Digits
use air_store.Prelude.{
  ℕ, zero, suc, ◌+◌, ◌-◌, ◌/◌, ◌%◌, Text, codes, [], ◌∷◌, ◌++◌, length, replicate, ltb,
  if◌then◌else◌,
}

-- The digits of `n` before `rest`. The fuel is above the number of digits.
decimal_from : ℕ → ℕ → Text → Text
decimal_from zero n rest = rest
decimal_from (suc fuel) n rest =
    let more = decimal_from fuel (n / 10) ((b'0' + n % 10) ∷ rest) in
    if ltb n 10 then (b'0' + n) ∷ rest else more

-- `str(n)`
unfoldable pub decimal : ℕ → Text
unfolding decimal_from
decimal n = decimal_from (suc n) n []

-- `f"{n:06d}"`
unfoldable pub zero_padded : ℕ → Text
unfolding decimal
zero_padded n = replicate (6 - length (decimal n)) b'0' ++ decimal n

-- `f"{file_id}_chunk_{sequence:06d}"`
unfoldable pub chunk_id_of : Text → ℕ → Text
unfolding zero_padded
chunk_id_of file_id sequence = file_id ++ (codes "_chunk_" ++ zero_padded sequence)
