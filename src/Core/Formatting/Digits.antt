-- ===== src/Core/Formatting/Digits.antt =====
-- The decimal numbers of the f-strings: reading the digits back.
use air_store.Prelude.{
  ℕ, zero, suc, ◌+◌, ◌-◌, ◌*◌, ◌/◌, ◌%◌, ◌≤◌, ◌<◌, ◌≡◌, refl, sym, ap, ◌∙◌, Text, codes, [], ◌∷◌,
  ◌++◌, length, replicate, All, ltb, Bool-cases, inl, inr, arith,
}
use air_store.Core.Formatting.{decimal_from, decimal, zero_padded, chunk_id_of}

-- `int(digits)`, after `acc`
abbrev value : ℕ → Text → ℕ
value acc [] = acc
value acc (c ∷ cs) = value (acc * 10 + (c - b'0')) cs

value-decimal_from :
    (fuel n : ℕ) (rest : Text) → n < fuel → value 0 (decimal_from fuel n rest) ≡ value n rest
unfolding decimal_from
value-decimal_from zero n rest h = absurd (omega arith)
value-decimal_from (suc fuel) n rest h = elim (Bool-cases (ltb n 10)) [
  | inl last ↦
      (let digit : 0 * 10 + ((b'0' + n) - b'0') ≡ n = omega arith in
        rw last (ap (λ k. value k rest) digit))
  | inr more ↦
      (let ten : 10 ≤ n = ground arith in
        let digit : (n / 10) * 10 + ((b'0' + n % 10) - b'0') ≡ n = omega arith in
        rw (more, value-decimal_from fuel (n / 10) ((b'0' + n % 10) ∷ rest) (omega arith))
          (ap (λ k. value k rest) digit))
]

value-replicate : (k : ℕ) (xs : Text) → value 0 (replicate k b'0' ++ xs) ≡ value 0 xs
value-replicate zero xs = refl
value-replicate (suc k) xs = value-replicate k xs

value-zero_padded : (n : ℕ) → value 0 (zero_padded n) ≡ n
unfolding zero_padded decimal
value-zero_padded n =
    value-replicate (6 - length (decimal n)) (decimal n)
    ∙ value-decimal_from (suc n) n [] (omega arith)

append-cancel : (xs ys zs : Text) → xs ++ ys ≡ xs ++ zs → ys ≡ zs
append-cancel [] ys zs h = h
append-cancel (x ∷ xs) ys zs h = append-cancel xs ys zs cc

-- Two chunks of a file with different sequence numbers have different ids.
pub chunk_id_of-injective :
    (file_id : Text) (i j : ℕ) → chunk_id_of file_id i ≡ chunk_id_of file_id j → i ≡ j
unfolding chunk_id_of
chunk_id_of-injective file_id i j h =
    let padded = append-cancel (codes "_chunk_") _ _ (append-cancel file_id _ _ h) in
    sym (value-zero_padded i) ∙ ap (value 0) padded ∙ value-zero_padded j

module _ (P : ℕ → Type 0) where
  -- A property of all digits holds of all of a number.
  abbrev OfDigits : Type 0
  OfDigits = (d : ℕ) → d < 10 → P (b'0' + d)

  All-decimal_from :
      (fuel n : ℕ) (rest : Text) → OfDigits → All P rest → All P (decimal_from fuel n rest)
  unfolding decimal_from
  All-decimal_from zero n rest digits h = h
  All-decimal_from (suc fuel) n rest digits h = elim (Bool-cases (ltb n 10)) [
    | inl last ↦ rw last (digits n (ground arith), h)
    | inr more ↦ rw more (
        All-decimal_from fuel (n / 10) ((b'0' + n % 10) ∷ rest) digits
          (digits (n % 10) (omega arith), h))
  ]

  All-append : (xs ys : Text) → All P xs → All P ys → All P (xs ++ ys)
  All-append [] ys h k = k
  All-append (x ∷ xs) ys h k = (h.0, All-append xs ys h.1 k)

  All-replicate : (c k : ℕ) → P c → All P (replicate k c)
  All-replicate c zero h = tt
  All-replicate c (suc k) h = (h, All-replicate c k h)

  -- A property of the characters of the file id, of the digits and of the infix holds of all.
  pub All-chunk_id_of :
      (file_id : Text) (i : ℕ)
      → OfDigits
      → All P (codes "_chunk_")
      → All P file_id
      → All P (chunk_id_of file_id i)
  unfolding chunk_id_of zero_padded decimal
  All-chunk_id_of file_id i digits middle h = All-append file_id _ h (
      All-append (codes "_chunk_") _ middle (
        All-append _ (decimal i) (All-replicate b'0' _ (digits 0 (omega arith)))
          (All-decimal_from (suc i) i [] digits tt)))
