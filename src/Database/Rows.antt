-- ===== src/Database/Rows.antt =====
-- The tables, and what the SQL statements of db.py do to the rows of one.
pub mod Laws
use air_store.Prelude.{Bool, List, [], ◌∷◌, ◌++◌, any, Option, none, some, if◌then◌else◌}
use air_store.Core.Models.{
  NodeModel, FileModel, ChunkModel, ChunkReplicaModel, TransferModel, EventModel,
}

pub record Database : Type 0 where
  pub nodes : List NodeModel
  pub files : List FileModel
  pub chunks : List ChunkModel
  pub chunk_replicas : List ChunkReplicaModel
  pub transfers : List TransferModel
  pub events : List EventModel

module _ {A : Type 0} where
  -- `UPDATE … SET … WHERE`
  abbrev pub update_where : (A → Bool) → (A → A) → List A → List A
  update_where p f [] = []
  update_where p f (r ∷ rows) = (if p r then f r else r) ∷ update_where p f rows

  -- `DELETE … WHERE`
  abbrev pub delete_where : (A → Bool) → List A → List A
  delete_where p [] = []
  delete_where p (r ∷ rows) = if p r then delete_where p rows else r ∷ delete_where p rows

  -- `INSERT`, where `same` compares the primary key of a row with that of the new one.
  abbrev pub insert_row : (A → Bool) → A → List A → Option (List A)
  insert_row same r rows = if any same rows then none else some (rows ++ (r ∷ []))

  -- `INSERT … ON CONFLICT … DO UPDATE`
  abbrev pub upsert_row : (A → Bool) → (A → A) → A → List A → List A
  upsert_row same f r [] = r ∷ []
  upsert_row same f r (x ∷ rows) = if same x then f x ∷ rows else x ∷ upsert_row same f r rows
