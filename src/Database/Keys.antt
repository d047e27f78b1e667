-- ===== src/Database/Keys.antt =====
-- The primary keys of the tables of db.py, and what the statements on a table do to them.
pub mod Steps
pub mod Grows
pub mod Tables
pub mod Valid
pub mod Kept
use air_store.Prelude.{
  ◌≡◌, refl, sym, ap, ◌∙◌, ◌⊎◌, inl, inr, Bool, true, false, List, [], ◌∷◌, ◌++◌, map, any, Elem,
  Bool-cases, arith,
}
use air_store.Database.Rows.{update_where, delete_where, upsert_row}

module _ {K : Type 0} where
  -- No key stands twice.
  abbrev pub IsDistinct : List K → Type 0
  IsDistinct [] = Unit
  IsDistinct (k ∷ ks) = ¬ Elem k ks × IsDistinct ks

  Elem-append : (k j : K) (ks : List K) → Elem k (ks ++ (j ∷ [])) → Elem k ks ⊎ (k ≡ j)
  Elem-append k j [] (inl e) = inr e
  Elem-append k j [] (inr e) = absurd e
  Elem-append k j (x ∷ ks) (inl e) = inl (inl e)
  Elem-append k j (x ∷ ks) (inr e) = elim (Elem-append k j ks e) [
    | inl a ↦ inl (inr a)
    | inr b ↦ inr b
  ]

  pub Elem-append_left : (k : K) (ks js : List K) → Elem k ks → Elem k (ks ++ js)
  Elem-append_left k [] js e = absurd e
  Elem-append_left k (x ∷ ks) js (inl e) = inl e
  Elem-append_left k (x ∷ ks) js (inr e) = inr (Elem-append_left k ks js e)

  pub Elem-append_right : (k : K) (ks js : List K) → Elem k js → Elem k (ks ++ js)
  Elem-append_right k [] js e = e
  Elem-append_right k (x ∷ ks) js e = inr (Elem-append_right k ks js e)

  pub IsDistinct-append :
      (k : K) (ks : List K) → ¬ Elem k ks → IsDistinct ks → IsDistinct (ks ++ (k ∷ []))
  IsDistinct-append k [] absent h = ((λ e. e), tt)
  IsDistinct-append k (x ∷ ks) absent h = (
    (λ e. elim (Elem-append x k ks e) [ inl a ↦ h.0 a | inr b ↦ absent (inl (sym b)) ]),
    IsDistinct-append k ks (λ e. absent (inr e)) h.1,
  )

module _ {A K : Type 0} (key : A → K) where
  pub map-update_where :
      (p : A → Bool) (f : A → A) (rows : List A)
      → ((r : A) → key (f r) ≡ key r)
      → map key (update_where p f rows) ≡ map key rows
  map-update_where p f [] same = refl
  map-update_where p f (r ∷ rows) same = elim (Bool-cases (p r)) [
    | inl hit ↦ rw (hit, map-update_where p f rows same, same r) refl
    | inr miss ↦ rw (miss, map-update_where p f rows same) refl
  ]

  Elem-delete_where :
      (p : A → Bool) (k : K) (rows : List A)
      → Elem k (map key (delete_where p rows))
      → Elem k (map key rows)
  Elem-delete_where p k [] e = e
  Elem-delete_where p k (r ∷ rows) e = elim (Bool-cases (p r)) [
    | inl gone ↦ inr (Elem-delete_where p k rows (rw gone at e))
    | inr stays ↦ (elim (rw stays at e) [
      | inl here ↦ inl here
      | inr later ↦ inr (Elem-delete_where p k rows later)
    ])
  ]

  pub IsDistinct-delete_where :
      (p : A → Bool) (rows : List A)
      → IsDistinct (map key rows)
      → IsDistinct (map key (delete_where p rows))
  IsDistinct-delete_where p [] h = tt
  IsDistinct-delete_where p (r ∷ rows) h = elim (Bool-cases (p r)) [
    | inl gone ↦ rw gone (IsDistinct-delete_where p rows h.1)
    | inr stays ↦
        rw stays
          ((λ e. h.0 (Elem-delete_where p (key r) rows e)), IsDistinct-delete_where p rows h.1)
  ]

  pub absent-map :
      (same : A → Bool) (k : K) (rows : List A)
      → ((r : A) → k ≡ key r → same r ≡ true)
      → any same rows ≡ false
      → ¬ Elem k (map key rows)
  absent-map same k [] law h e = e
  absent-map same k (r ∷ rows) law h (inl here) = absurd (ground (arith, law r here))
  absent-map same k (r ∷ rows) law h (inr later) = absent-map same k rows law (ground arith) later

  pub map-append_one :
      (rows : List A) (r : A) → map key (rows ++ (r ∷ [])) ≡ map key rows ++ (key r ∷ [])
  map-append_one [] r = refl
  map-append_one (x ∷ rows) r = ap (λ ks. key x ∷ ks) (map-append_one rows r)

  -- An upsert updates the row with the key, or appends the new row where there is none.
  pub map-upsert_row :
      (same : A → Bool) (f : A → A) (r : A) (rows : List A)
      → ((x : A) → key (f x) ≡ key x)
      → ((x : A) → key r ≡ key x → same x ≡ true)
      → (map key (upsert_row same f r rows) ≡ map key rows)
        ⊎ ((¬ Elem (key r) (map key rows))
            × (map key (upsert_row same f r rows) ≡ map key rows ++ (key r ∷ [])))
  map-upsert_row same f r [] kept law = inr ((λ e. e), refl)
  map-upsert_row same f r (x ∷ rows) kept law = elim (Bool-cases (same x)) [
    | inl hit ↦ inl (rw (hit, kept x) refl)
    | inr miss ↦ elim (map-upsert_row same f r rows kept law) [
      | inl e ↦ inl (rw (miss, e) refl)
      | inr (absent, e) ↦ inr (
        (λ k. elim k [
          | inl here ↦ absurd (ground (arith, miss, law x here))
          | inr later ↦ absent later
        ]),
        rw (miss, e) refl,
      )
    ]
  ]

  pub Elem-map : (a : A) (rows : List A) → Elem a rows → Elem (key a) (map key rows)
  Elem-map a [] e = absurd e
  Elem-map a (r ∷ rows) (inl e) = inl (ap key e)
  Elem-map a (r ∷ rows) (inr e) = inr (Elem-map a rows e)

  -- Where the keys are distinct, a row is known by its key.
  pub IsDistinct-same :
      (a b : A) (rows : List A)
      → IsDistinct (map key rows)
      → Elem a rows
      → Elem b rows
      → key a ≡ key b
      → a ≡ b
  IsDistinct-same a b [] h e k same = absurd e
  IsDistinct-same a b (r ∷ rows) h (inl e) (inl k) same = e ∙ sym k
  IsDistinct-same a b (r ∷ rows) h (inl e) (inr k) same =
      absurd (h.0 (rw (sym (ap key e) ∙ same) (Elem-map b rows k)))
  IsDistinct-same a b (r ∷ rows) h (inr e) (inl k) same =
      absurd (h.0 (rw (sym (ap key k) ∙ sym same) (Elem-map a rows e)))
  IsDistinct-same a b (r ∷ rows) h (inr e) (inr k) same = IsDistinct-same a b rows h.1 e k same
