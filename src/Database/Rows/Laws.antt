-- ===== src/Database/Rows/Laws.antt =====
-- What the statements on a table keep of each row.
use air_store.Prelude.{◌≡◌, inl, inr, Bool, true, false, List, [], ◌∷◌, All, any, arith, Bool-cases}
use air_store.Database.Rows.{update_where, upsert_row}

any_tail :
    {A : Type 0} (q : A → Bool) (x : A) (xs : List A) → any q xs ≡ true → any q (x ∷ xs) ≡ true
any_tail q x xs h = elim (Bool-cases (q x)) [ inl e ↦ rw e | inr e ↦ rw e h ]

module _ {A : Type 0} (p : A → Bool) (f : A → A) where
  pub All-update_where :
      (P Q : A → Type 0) (rows : List A)
      → ((r : A) → P r → p r ≡ true → Q (f r))
      → ((r : A) → P r → p r ≡ false → Q r)
      → All P rows
      → All Q (update_where p f rows)
  All-update_where P Q [] hit miss h = tt
  All-update_where P Q (r ∷ rows) hit miss h = elim (Bool-cases (p r)) [
    | inl e ↦ rw e (hit r h.0 e, All-update_where P Q rows hit miss h.1)
    | inr e ↦ rw e (miss r h.0 e, All-update_where P Q rows hit miss h.1)
  ]

  pub All-upsert_row :
      (P : A → Type 0) (x : A) (rows : List A)
      → ((r : A) → P r → p r ≡ true → P (f r))
      → P x
      → All P rows
      → All P (upsert_row p f x rows)
  All-upsert_row P x [] hit new h = (new, tt)
  All-upsert_row P x (r ∷ rows) hit new h = elim (Bool-cases (p r)) [
    | inl e ↦ rw e (hit r h.0 e, h.1)
    | inr e ↦ rw e (h.0, All-upsert_row P x rows hit new h.1)
  ]

  -- A row with a property stays, if the write keeps the property.
  pub any-update_where :
      (q : A → Bool) (rows : List A)
      → ((r : A) → q r ≡ true → p r ≡ true → q (f r) ≡ true)
      → any q rows ≡ true
      → any q (update_where p f rows) ≡ true
  any-update_where q [] keep h = h
  any-update_where q (r ∷ rows) keep h = elim (Bool-cases (q r)) [
    | inl e ↦ elim (Bool-cases (p r)) [
      | inl t ↦ (let k = keep r e t in ground arith)
      | inr t ↦ ground arith
    ]
    | inr e ↦ (let ih = any-update_where q rows keep (ground arith) in any_tail q _ _ ih)
  ]

  pub any-upsert_row :
      (q : A → Bool) (x : A) (rows : List A)
      → ((r : A) → q r ≡ true → p r ≡ true → q (f r) ≡ true)
      → any q rows ≡ true
      → any q (upsert_row p f x rows) ≡ true
  any-upsert_row q x [] keep h = absurd (ground arith)
  any-upsert_row q x (r ∷ rows) keep h = elim (Bool-cases (p r)) [
    | inl t ↦ elim (Bool-cases (q r)) [
      | inl e ↦ (let k = keep r e t in ground arith)
      | inr e ↦ ground arith
    ]
    | inr t ↦ elim (Bool-cases (q r)) [
      | inl e ↦ ground arith
      | inr e ↦ (let ih = any-upsert_row q x rows keep (ground arith) in ground arith)
    ]
  ]

  -- After the upsert there is a row with the key, as the write or the insert leaves it.
  pub any-upsert_row_self :
      (q : A → Bool) (x : A) (rows : List A)
      → ((r : A) → p r ≡ true → q (f r) ≡ true)
      → q x ≡ true
      → any q (upsert_row p f x rows) ≡ true
  any-upsert_row_self q x [] hit new = ground arith
  any-upsert_row_self q x (r ∷ rows) hit new = elim (Bool-cases (p r)) [
    | inl t ↦ (let k = hit r t in ground arith)
    | inr t ↦ (let ih = any-upsert_row_self q x rows hit new in rw t (any_tail q _ _ ih))
  ]
