-- ===== src/Database/Files/Inserted.antt =====
-- db.py: the tables after a file and its chunks were inserted.
use air_store.Prelude.{
  ℕ, ◌+◌, ◌≤◌, ◌≡◌, refl, sym, ap, ◌∙◌, inl, inr, Text, text_eq, text_eq_refl, Bytes, Bool, true,
  false, ltb, some, List, [], ◌∷◌, ◌++◌, map, any, find, select, All, Option-cases, arith,
}
use air_store.Prelude.Sort.Laws.{IsOrdered, order_by-eq_self}
use air_store.Core.Models.{FileModel, ChunkModel}
use air_store.Core.Chunking.{chunk_model, number_chunks}
use air_store.Database.Rows.{Database, insert_row, update_where}
use air_store.Database.Files.{
  has_file_id, is_chunk, create_file, create_chunks, insert_chunks, get_chunks_for_file, get_file,
  update_file_status,
}

append_nil : {A : Type 0} (xs : List A) → xs ++ [] ≡ xs
append_nil [] = refl
append_nil (x ∷ xs) = ap (λ ys. x ∷ ys) (append_nil xs)

append_assoc : {A : Type 0} (xs ys zs : List A) → (xs ++ ys) ++ zs ≡ xs ++ (ys ++ zs)
append_assoc [] ys zs = refl
append_assoc (x ∷ xs) ys zs = ap (λ ws. x ∷ ws) (append_assoc xs ys zs)

insert_row-eq-some :
    {A : Type 0} (same : A → Bool) (r : A) (rows : List A) {rows' : List A}
    → insert_row same r rows ≡ some rows'
    → (any same rows ≡ false) × (rows ++ (r ∷ []) ≡ rows')
insert_row-eq-some same r rows h = ground arith

insert_chunks-eq-some :
    (cs rows : List ChunkModel) {rows' : List ChunkModel}
    → insert_chunks cs rows ≡ some rows'
    → rows ++ cs ≡ rows'
unfolding insert_chunks
insert_chunks-eq-some [] rows h = append_nil rows ∙ ground arith
insert_chunks-eq-some (c ∷ cs) rows h =
    elim (Option-cases (insert_row (is_chunk c.chunk_id) c rows)) [
      | inl taken ↦ absurd (ground arith)
      | inr (rows1, e) ↦
          sym (append_assoc rows (c ∷ []) cs)
          ∙ ap (λ ys. ys ++ cs) (insert_row-eq-some (is_chunk c.chunk_id) c rows e).1
          ∙ insert_chunks-eq-some cs rows1 (rw (e, insert_chunks) at h)
    ]

pub create_chunks-eq-some :
    (cs : List ChunkModel) (db : Database) {db' : Database}
    → create_chunks cs db ≡ some db'
    → record db { chunks = db.chunks ++ cs } ≡ db'
unfolding create_chunks
create_chunks-eq-some cs db h = elim (Option-cases (insert_chunks cs db.chunks)) [
  | inl taken ↦ absurd (ground arith)
  | inr (rows, e) ↦ (let all = insert_chunks-eq-some cs db.chunks e in ground (arith, all))
]

pub create_file-eq-some :
    (f : FileModel) (db : Database) {db' : Database}
    → create_file f db ≡ some db'
    → (any (has_file_id f.file_id) db.files ≡ false)
      × (record db { files = db.files ++ (f ∷ []) } ≡ db')
unfolding create_file
create_file-eq-some f db h = ground arith

find-update_where_append :
    {A : Type 0} (p : A → Bool) (f : A → A) (r : A) (rows : List A)
    → any p rows ≡ false
    → p r ≡ true
    → p (f r) ≡ true
    → find p (update_where p f (rows ++ (r ∷ []))) ≡ some (f r)
find-update_where_append p f r [] fresh here there = ground (arith, here, there)
find-update_where_append p f r (x ∷ rows) fresh here there =
    ground (arith, find-update_where_append p f r rows (ground arith) here there)

-- The row of a file that was just inserted, after its status changed.
pub get_file-update_file_status :
    (f : FileModel) (status : _) (db db' : Database)
    → any (has_file_id f.file_id) db.files ≡ false
    → db'.files ≡ db.files ++ (f ∷ [])
    → get_file f.file_id (update_file_status f.file_id status db')
      ≡ some (record f { status = status })
unfolding get_file update_file_status
get_file-update_file_status f status db db' fresh rows = rw rows (
    find-update_where_append (has_file_id f.file_id) (λ r. record r { status = status }) f db.files
      fresh (text_eq_refl f.file_id) (text_eq_refl f.file_id))

select_append :
    {A : Type 0} (p : A → Bool) (xs ys : List A)
    → any p xs ≡ false
    → All (λ y. p y ≡ true) ys
    → select p (xs ++ ys) ≡ ys
select_append p [] [] h k = refl
select_append p [] (y ∷ ys) h k = ground (arith, k.0, select_append p [] ys refl k.1)
select_append p (x ∷ xs) ys h k = ground (arith, select_append p xs ys (ground arith) k)

module _ (sha256 : Bytes → Text) (file_id : Text) where
  number_chunks-file_id :
      (sequence : ℕ) (parts : List Bytes)
      → All
          (λ c. text_eq c.file_id file_id ≡ true)
          (map (λ p. p.0) (number_chunks sha256 file_id sequence parts))
  unfolding number_chunks chunk_model
  number_chunks-file_id sequence [] = tt
  number_chunks-file_id sequence (b ∷ bs) =
      (text_eq_refl file_id, number_chunks-file_id (sequence + 1) bs)

  number_chunks-after :
      (from sequence : ℕ) (parts : List Bytes)
      → from ≤ sequence
      → All
          (λ c. ltb c.sequence_number from ≡ false)
          (map (λ p. p.0) (number_chunks sha256 file_id sequence parts))
  unfolding number_chunks chunk_model
  number_chunks-after from sequence [] h = tt
  number_chunks-after from sequence (b ∷ bs) h =
      (ground arith, number_chunks-after from (sequence + 1) bs (omega arith))

  number_chunks-IsOrdered :
      (sequence : ℕ) (parts : List Bytes)
      → IsOrdered
          (λ a b. ltb a.sequence_number b.sequence_number)
          (map (λ p. p.0) (number_chunks sha256 file_id sequence parts))
  unfolding number_chunks chunk_model
  number_chunks-IsOrdered sequence [] = tt
  number_chunks-IsOrdered sequence (b ∷ bs) = (
    number_chunks-after sequence (sequence + 1) bs (omega arith),
    number_chunks-IsOrdered (sequence + 1) bs,
  )

  -- The chunks of a new file read back in the order of the file.
  pub get_chunks_for_file-eq-number_chunks :
      (parts : List Bytes) (rows : List ChunkModel) (db : Database)
      → any (λ c. text_eq c.file_id file_id) rows ≡ false
      → db.chunks ≡ rows ++ map (λ p. p.0) (number_chunks sha256 file_id 0 parts)
      → get_chunks_for_file file_id db ≡ map (λ p. p.0) (number_chunks sha256 file_id 0 parts)
  unfolding get_chunks_for_file
  get_chunks_for_file-eq-number_chunks parts rows db fresh h =
      let mine =
        select_append (λ c. text_eq c.file_id file_id) rows
          (map (λ p. p.0) (number_chunks sha256 file_id 0 parts)) fresh
          (number_chunks-file_id 0 parts) in
      rw (h, mine)
        (order_by-eq_self (λ a b. ltb a.sequence_number b.sequence_number)
          (map (λ p. p.0) (number_chunks sha256 file_id 0 parts)) (number_chunks-IsOrdered 0 parts))
