-- ===== src/Database/Files/Listed.antt =====
-- db.py: the chunks of a file, as a query returns them.
use air_store.Prelude.{
  ◌≡◌, ◌≤◌, Text, text_eq, text_eq_iff, ltb, true, List, [], ◌∷◌, select, All, Elem, All-Elem,
  All-of-Elem, All-select, Elem-of_select, Elem-select, arith,
}
use air_store.Prelude.Sort.{order_by}
use air_store.Prelude.Sort.Laws.{All-order_by, Elem-order_by, IsOrdered, order_by-IsOrdered}
use air_store.Core.Models.{ChunkModel}
use air_store.Database.Rows.{Database}
use air_store.Database.Files.{get_chunks_for_file}

-- The sequence numbers do not fall.
abbrev pub IsAscending : List ChunkModel → Type 0
IsAscending [] = Unit
IsAscending (c ∷ cs) = All (λ d. c.sequence_number ≤ d.sequence_number) cs × IsAscending cs

All-map :
    {P Q : ChunkModel → Type 0} (cs : List ChunkModel)
    → ((c : ChunkModel) → P c → Q c)
    → All P cs
    → All Q cs
All-map [] f h = tt
All-map (c ∷ cs) f h = (f c h.0, All-map cs f h.1)

IsAscending-IsOrdered :
    (cs : List ChunkModel)
    → IsOrdered (λ a b. ltb a.sequence_number b.sequence_number) cs
    → IsAscending cs
IsAscending-IsOrdered [] h = tt
IsAscending-IsOrdered (c ∷ cs) h =
    (All-map cs (λ d k. ground arith) h.0, IsAscending-IsOrdered cs h.1)

-- The chunks of a file are rows of the table with its id, every row of the table with its id is
-- among them, and they are in the order of their sequence numbers.
pub get_chunks_for_file_lists :
    (file_id : Text) (db : Database)
    → let cs = get_chunks_for_file file_id db in
      All (λ c. (c.file_id ≡ file_id) × Elem c db.chunks) cs
      × All (λ c. c.file_id ≡ file_id → Elem c cs) db.chunks
      × IsAscending cs
unfolding get_chunks_for_file
get_chunks_for_file_lists file_id db =
    let before = λ (a : ChunkModel) (b : ChunkModel). ltb a.sequence_number b.sequence_number in
    let mine = λ (c : ChunkModel). text_eq c.file_id file_id in
    let found = select mine db.chunks in
    (
      All-order_by before (λ c. (c.file_id ≡ file_id) × Elem c db.chunks) found
          (All-of-Elem _ found (λ c e. (
            (text_eq_iff c.file_id file_id).0
                (All-Elem (λ d. mine d ≡ true) c found (All-select mine db.chunks) e),
            Elem-of_select mine c db.chunks e,
          ))),
      All-of-Elem _ db.chunks (λ c e same.
          Elem-order_by before c found
            (Elem-select mine c db.chunks e ((text_eq_iff c.file_id file_id).1 same))),
      IsAscending-IsOrdered (order_by before found)
          (order_by-IsOrdered before (λ x y h. ground arith) (λ x y z h k. ground arith) found),
    )
