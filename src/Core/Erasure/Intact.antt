-- ===== src/Core/Erasure/Intact.antt =====
-- airstore/core/erasure_coding.py: reconstruction while the data shards are all there.
use air_store.Prelude.{
  ℕ, zero, suc, ◌+◌, ◌-◌, ◌*◌, ◌≤◌, ◌<◌, ◌≡◌, ◌∙◌, ap, refl, Bytes, false, Option, some, List, [],
  ◌∷◌, ◌++◌, length, length-append, length-drop, length-replicate, take, take-append,
  take-append-drop, drop, flatten, map, replicate, ◌==◌, arith,
}
use air_store.Core.Exec.{ok}
use air_store.Core.Erasure.{
  cut, parity, secondary_parity, shard_length, ljust, split_data, available_count, join_all,
  reconstruct_data,
}

-- No shard is missing.
abbrev pub all_there : List Bytes → List (Option Bytes)
all_there shards = map some shards

take-front : {A : Type 0} (n : ℕ) (xs ys : List A) → length xs ≡ n → take n (xs ++ ys) ≡ xs
take-front n xs ys h = rw (← h) (take-append xs ys)

length-cut : (n len : ℕ) (xs : Bytes) → length (cut n len xs) ≡ n
unfolding cut
length-cut zero len xs = refl
length-cut (suc n) len xs = ap suc (length-cut n len (drop len xs))

-- Shards of bytes that fill them exactly.
flatten-cut : (n len : ℕ) (xs : Bytes) → length xs ≡ n * len → flatten (cut n len xs) ≡ xs
unfolding cut
flatten-cut zero len [] h = refl
flatten-cut zero len (x ∷ xs) h = absurd (omega (arith, h))
flatten-cut (suc n) len xs h =
    let rest : length (drop len xs) ≡ n * len = omega (arith, h, length-drop len xs) in
    ap (λ ys. take len xs ++ ys) (flatten-cut n len (drop len xs) rest) ∙ take-append-drop len xs

join_all-map : (shards : List Bytes) → join_all (all_there shards) ≡ some (flatten shards)
join_all-map [] = refl
join_all-map (s ∷ shards) = ground (arith, join_all-map shards)

available_count-append :
    (shards : List Bytes) (more : List (Option Bytes))
    → length shards ≤ available_count (all_there shards ++ more)
available_count-append [] more = omega arith
available_count-append (s ∷ shards) more = omega (arith, available_count-append shards more)

length-map_some : (shards : List Bytes) → length (all_there shards) ≡ length shards
length-map_some [] = refl
length-map_some (s ∷ shards) = ap suc (length-map_some shards)

-- The shards have room for the data.
shard_length-bound : (size n : ℕ) → 0 < n → size ≤ shard_length size n * n
unfolding shard_length
shard_length-bound size n h = omega (arith, h)

reconstruct_data-eq-ok :
    (slots : List (Option Bytes)) (size n p : ℕ) (joined : Bytes)
    → length slots ≡ n + p
    → n ≤ available_count slots
    → join_all (take n slots) ≡ some joined
    → reconstruct_data slots size n p ≡ ok (take size joined)
unfolding reconstruct_data
reconstruct_data-eq-ok slots size n p joined total enough there = ground arith

-- Whatever became of the parity shards, the data shards of a split give the data back.
pub reconstruct_data-split_data :
    (data_bytes : Bytes) (data_shards parity_shards : ℕ) (parities : List (Option Bytes))
    {shards : List Bytes}
    → split_data data_bytes data_shards parity_shards ≡ ok shards
    → length parities ≡ parity_shards
    → reconstruct_data
        (all_there (take data_shards shards) ++ parities)
        (length data_bytes)
        data_shards
        parity_shards
      ≡ ok data_bytes
unfolding split_data ljust
reconstruct_data-split_data data_bytes zero p parities h k = absurd (ground arith)
reconstruct_data-split_data data_bytes (suc n) p parities {shards} h k =
    let len = shard_length (length data_bytes) (suc n) in
    let padded = ljust (len * suc n) data_bytes in
    let own = cut (suc n) len padded in
    let more = parity own (replicate len 0) ∷ secondary_parity (p - 1) len own in
    let positive : (p == 0) ≡ false = ground arith in
    let made : own ++ more ≡ shards = ground (arith, positive) in
    let counted = length-cut (suc n) len padded in
    let front : take (suc n) shards ≡ own = rw (← made) (take-front (suc n) own more counted) in
    let slots = all_there own in
    let slot_count : length slots ≡ suc n = length-map_some own ∙ counted in
    let total : length (slots ++ parities) ≡ suc n + p =
      omega (arith, length-append slots parities, slot_count, k) in
    let enough : suc n ≤ available_count (slots ++ parities) =
      omega (arith, available_count-append own parities, counted) in
    let data_part : take (suc n) (slots ++ parities) ≡ slots =
      take-front (suc n) slots parities slot_count in
    let room = shard_length-bound (length data_bytes) (suc n) (omega arith) in
    let zeros : Bytes = replicate (len * suc n - length data_bytes) 0 in
    let zero_count : length zeros ≡ len * suc n - length data_bytes =
      length-replicate {A = ℕ} (len * suc n - length data_bytes) 0 in
    let filled : length padded ≡ suc n * len =
      omega (arith, room, length-append data_bytes zeros, zero_count) in
    let whole : flatten own ≡ padded = flatten-cut (suc n) len padded filled in
    let there : join_all (take (suc n) (slots ++ parities)) ≡ some padded =
      rw (data_part) (join_all-map own ∙ ap some whole) in
    rw front (
      reconstruct_data-eq-ok (slots ++ parities) (length data_bytes) (suc n) p padded total enough
        there
      ∙ ap ok (take-append data_bytes zeros))
