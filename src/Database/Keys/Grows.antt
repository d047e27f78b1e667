-- ===== src/Database/Keys/Grows.antt =====
-- What a statement of db.py may do to the primary keys of one table.
use air_store.Prelude.{
  ◌≡◌, refl, ap, ◌∙◌, inl, inr, Text, text_eq_iff, Bool, true, false, some, List, [], ◌∷◌, ◌++◌,
  map, any, All, Elem, Option-cases, arith,
}
use air_store.Core.Models.{ChunkModel}
use air_store.Database.Rows.{insert_row, upsert_row}
use air_store.Database.Files.{insert_chunks, is_chunk}
use air_store.Database.Keys.{
  IsDistinct, Elem-append_left, Elem-append_right, IsDistinct-append, absent-map, map-append_one,
  map-upsert_row,
}

-- What a statement may do to the keys of a table.
pub data Grows {K : Type 0} : List K → List K → Type 0 where
  same_keys : {a b : List K} → b ≡ a → Grows a b
  one_more : {a b : List K} (k : K) → ¬ Elem k a → b ≡ a ++ (k ∷ []) → Grows a b

pub Grows-IsDistinct : {K : Type 0} {a b : List K} → Grows a b → IsDistinct a → IsDistinct b
Grows-IsDistinct (same_keys e) h = rw e h
Grows-IsDistinct {K} {a} (one_more k absent e) h = rw e (IsDistinct-append k a absent h)

pub Grows-Elem : {K : Type 0} {a b : List K} (k : K) → Grows a b → Elem k a → Elem k b
Grows-Elem k (same_keys e) h = rw e h
Grows-Elem {K} {a} k (one_more j absent e) h = rw e (Elem-append_left k a (j ∷ []) h)

pub insert_row-Grows :
    {A : Type 0} (key : A → Text) (same : A → Bool) (r : A) (rows : List A) {rows' : List A}
    → ((x : A) → key r ≡ key x → same x ≡ true)
    → insert_row same r rows ≡ some rows'
    → Grows (map key rows) (map key rows')
insert_row-Grows key same r rows {rows'} law h =
    let fresh : any same rows ≡ false = ground arith in
    let all : rows' ≡ rows ++ (r ∷ []) = ground arith in
    one_more (key r) (absent-map key same (key r) rows law fresh)
      (ap (map key) all ∙ map-append_one key rows r)

pub upsert_row-Grows :
    {A K : Type 0} (key : A → K) (same : A → Bool) (f : A → A) (r : A) (rows : List A)
    → ((x : A) → key (f x) ≡ key x)
    → ((x : A) → key r ≡ key x → same x ≡ true)
    → Grows (map key rows) (map key (upsert_row same f r rows))
upsert_row-Grows key same f r rows kept law = elim (map-upsert_row key same f r rows kept law) [
  | inl e ↦ same_keys e
  | inr (absent, e) ↦ one_more (key r) absent e
]

pub insert_chunks-Distinct :
    (cs rows : List ChunkModel) {rows' : List ChunkModel}
    → insert_chunks cs rows ≡ some rows'
    → IsDistinct (map (λ c. c.chunk_id) rows)
    → IsDistinct (map (λ c. c.chunk_id) rows')
      × ((k : Text) → Elem k (map (λ c. c.chunk_id) rows) → Elem k (map (λ c. c.chunk_id) rows'))
      × All (λ c. Elem c.chunk_id (map (λ d. d.chunk_id) rows')) cs
unfolding insert_chunks
insert_chunks-Distinct [] rows {rows'} h distinct =
    let same : rows ≡ rows' = ground arith in rw (← same) (distinct, (λ k e. e), tt)
insert_chunks-Distinct (c ∷ cs) rows {rows'} h distinct =
    elim (Option-cases (insert_row (is_chunk c.chunk_id) c rows)) [
      | inl taken ↦ absurd (ground arith)
      | inr (rows1, e) ↦
          (let law : (x : ChunkModel) → c.chunk_id ≡ x.chunk_id → is_chunk c.chunk_id x ≡ true =
              λ x q. ground (arith, text_eq_iff x.chunk_id c.chunk_id) in
            let grows = insert_row-Grows (λ d. d.chunk_id) (is_chunk c.chunk_id) c rows law e in
            let all : rows1 ≡ rows ++ (c ∷ []) = ground arith in
            let here : Elem c.chunk_id (map (λ d. d.chunk_id) rows1) =
              rw (all, map-append_one (λ (d : ChunkModel). d.chunk_id) rows c)
                (Elem-append_right c.chunk_id (map (λ d. d.chunk_id) rows) (c.chunk_id ∷ [])
                  (inl refl)) in
            let rest : insert_chunks cs rows1 ≡ some rows' = rw (e, insert_chunks) at h in
            let (distinct', keeps, inserted) =
              insert_chunks-Distinct cs rows1 rest (Grows-IsDistinct grows distinct) in
            (distinct', (λ k q. keeps k (Grows-Elem k grows q)), (keeps c.chunk_id here, inserted)))
    ]
