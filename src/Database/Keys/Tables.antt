-- ===== src/Database/Keys/Tables.antt =====
-- A well-formed database, and the writes to each of its tables.
use air_store.Prelude.{
  ◌≡◌, refl, ap, inl, inr, Text, text_eq, text_eq_iff, true, some, List, [], ◌∷◌, ◌++◌, map, All,
  Elem, Option-cases, arith,
}
use air_store.Core.Models.{
  NodeModel, FileModel, ChunkModel, ChunkReplicaModel, TransferModel, EventModel,
}
use air_store.Database.Rows.{Database, insert_row, upsert_row}
use air_store.Database.Files.{create_file, create_chunks, insert_chunks, has_file_id}
use air_store.Database.Replicas.{add_replica, is_replica}
use air_store.Database.Journal.{create_transfer, add_event, has_transfer_id}
use air_store.Database.Keys.{IsDistinct, IsDistinct-append, map-upsert_row}
use air_store.Database.Keys.Steps.{
  node_ids, file_ids, chunk_ids, replica_key, replica_ids, transfer_ids, event_ids,
}
use air_store.Database.Keys.Grows.{
  Grows, Grows-IsDistinct, Grows-Elem, insert_row-Grows, insert_chunks-Distinct,
}

-- A well-formed database: the keys of every table are distinct, and every replica is of a chunk
-- and on a node that have rows.
pub record IsValid (db : Database) : Type 0 where
  pub nodes : IsDistinct (node_ids db)
  pub files : IsDistinct (file_ids db)
  pub chunks : IsDistinct (chunk_ids db)
  pub chunk_replicas : IsDistinct (replica_ids db)
  pub transfers : IsDistinct (transfer_ids db)
  pub events : IsDistinct (event_ids db)
  pub refers : All (λ k. Elem k.0 (chunk_ids db) × Elem k.1 (node_ids db)) (replica_ids db)

-- The references of the replicas, of which chunks and nodes never go.
abbrev Refers : List Text → List Text → List (Text × Text) → Type 0
Refers chunks nodes replicas = All (λ k. Elem k.0 chunks × Elem k.1 nodes) replicas

Refers-keep :
    (a b c d : List Text) (replicas : List (Text × Text))
    → ((k : Text) → Elem k a → Elem k b)
    → ((k : Text) → Elem k c → Elem k d)
    → Refers a c replicas
    → Refers b d replicas
Refers-keep a b c d [] p q h = tt
Refers-keep a b c d (k ∷ ks) p q h = ((p k.0 h.0.0, q k.1 h.0.1), Refers-keep a b c d ks p q h.1)

Refers-append :
    (chunks nodes : List Text) (a : List (Text × Text)) (k : Text × Text)
    → Elem k.0 chunks
    → Elem k.1 nodes
    → Refers chunks nodes a
    → Refers chunks nodes (a ++ (k ∷ []))
Refers-append chunks nodes [] k chunk node h = ((chunk, node), tt)
Refers-append chunks nodes (x ∷ a) k chunk node h =
    (h.0, Refers-append chunks nodes a k chunk node h.1)

module _ (db : Database) (h : IsValid db) where
  pub nodes_lem :
      (rows : List NodeModel)
      → Grows (node_ids db) (map (λ n. n.node_id) rows)
      → IsValid (record db { nodes = rows })
  nodes_lem rows grows = record {
    nodes = Grows-IsDistinct grows h.nodes;
    files = h.files;
    chunks = h.chunks;
    chunk_replicas = h.chunk_replicas;
    transfers = h.transfers;
    events = h.events;
    refers = Refers-keep _ _ _ _ (replica_ids db) (λ k e. e) (λ k e. Grows-Elem k grows e) h.refers;
  }

  pub files_lem :
      (rows : List FileModel)
      → IsDistinct (map (λ f. f.file_id) rows)
      → IsValid (record db { files = rows })
  files_lem rows distinct = record {
    nodes = h.nodes;
    files = distinct;
    chunks = h.chunks;
    chunk_replicas = h.chunk_replicas;
    transfers = h.transfers;
    events = h.events;
    refers = h.refers;
  }

  pub chunks_lem :
      (rows : List ChunkModel)
      → IsDistinct (map (λ c. c.chunk_id) rows)
      → ((k : Text) → Elem k (chunk_ids db) → Elem k (map (λ c. c.chunk_id) rows))
      → IsValid (record db { chunks = rows })
  chunks_lem rows distinct keeps = record {
    nodes = h.nodes;
    files = h.files;
    chunks = distinct;
    chunk_replicas = h.chunk_replicas;
    transfers = h.transfers;
    events = h.events;
    refers = Refers-keep _ _ _ _ (replica_ids db) keeps (λ k e. e) h.refers;
  }

  pub replicas_lem :
      (rows : List ChunkReplicaModel)
      → IsDistinct (map replica_key rows)
      → Refers (chunk_ids db) (node_ids db) (map replica_key rows)
      → IsValid (record db { chunk_replicas = rows })
  replicas_lem rows distinct refers = record {
    nodes = h.nodes;
    files = h.files;
    chunks = h.chunks;
    chunk_replicas = distinct;
    transfers = h.transfers;
    events = h.events;
    refers = refers;
  }

  pub transfers_lem :
      (rows : List TransferModel)
      → IsDistinct (map (λ t. t.transfer_id) rows)
      → IsValid (record db { transfers = rows })
  transfers_lem rows distinct = record {
    nodes = h.nodes;
    files = h.files;
    chunks = h.chunks;
    chunk_replicas = h.chunk_replicas;
    transfers = distinct;
    events = h.events;
    refers = h.refers;
  }

  pub events_lem :
      (rows : List EventModel)
      → IsDistinct (map (λ e. e.event_id) rows)
      → IsValid (record db { events = rows })
  events_lem rows distinct = record {
    nodes = h.nodes;
    files = h.files;
    chunks = h.chunks;
    chunk_replicas = h.chunk_replicas;
    transfers = h.transfers;
    events = distinct;
    refers = h.refers;
  }

  pub add_replica-IsValid :
      (r : ChunkReplicaModel)
      → Elem r.chunk_id (chunk_ids db)
      → Elem r.node_id (node_ids db)
      → IsValid (add_replica r db)
  unfolding add_replica
  add_replica-IsValid r chunk node =
      let same = is_replica r.chunk_id r.node_id in
      let f = λ (x : ChunkReplicaModel). record x {
        status = r.status;
        replica_number = r.replica_number;
      } in
      let law : (x : ChunkReplicaModel) → replica_key r ≡ replica_key x → same x ≡ true = λ x q.
        ground (
          arith,
          text_eq_iff x.chunk_id r.chunk_id,
          text_eq_iff x.node_id r.node_id,
          ap (λ (k : Text × Text). k.0) q,
          ap (λ (k : Text × Text). k.1) q,
        ) in
      elim (map-upsert_row replica_key same f r db.chunk_replicas (λ x. refl) law) [
        | inl e ↦
            replicas_lem (upsert_row same f r db.chunk_replicas) (rw e h.chunk_replicas)
              (rw e h.refers)
        | inr (absent, e) ↦
            replicas_lem (upsert_row same f r db.chunk_replicas)
              (rw e (
                IsDistinct-append (r.chunk_id, r.node_id) (replica_ids db) absent h.chunk_replicas))
              (rw e (
                Refers-append (chunk_ids db) (node_ids db) (replica_ids db) (r.chunk_id, r.node_id)
                  chunk node h.refers))
      ]

  pub create_file-IsValid : (f : FileModel) {b : Database} → create_file f db ≡ some b → IsValid b
  unfolding create_file
  create_file-IsValid f {b} e =
      elim (Option-cases (insert_row (has_file_id f.file_id) f db.files)) [
        | inl taken ↦ absurd (ground arith)
        | inr (rows, q) ↦
            (let same : record db { files = rows } ≡ b = ground arith in
              let law : (x : FileModel) → f.file_id ≡ x.file_id → has_file_id f.file_id x ≡ true =
                λ x k. ground (arith, text_eq_iff x.file_id f.file_id) in
              let grows =
                insert_row-Grows (λ x. x.file_id) (has_file_id f.file_id) f db.files law q in
              rw (← same) (files_lem rows (Grows-IsDistinct grows h.files)))
      ]

  pub create_transfer-IsValid :
      (t : TransferModel) {b : Database} → create_transfer t db ≡ some b → IsValid b
  unfolding create_transfer
  create_transfer-IsValid t {b} e =
      elim (Option-cases (insert_row (has_transfer_id t.transfer_id) t db.transfers)) [
        | inl taken ↦ absurd (ground arith)
        | inr (rows, q) ↦
            (let same : record db { transfers = rows } ≡ b = ground arith in
              let law : (x : TransferModel)
                  → t.transfer_id ≡ x.transfer_id
                  → has_transfer_id t.transfer_id x ≡ true =
                λ x k. ground (arith, text_eq_iff x.transfer_id t.transfer_id) in
              let grows =
                insert_row-Grows (λ x. x.transfer_id) (has_transfer_id t.transfer_id) t db.transfers
                  law q in
              rw (← same) (transfers_lem rows (Grows-IsDistinct grows h.transfers)))
      ]

  pub add_event-IsValid : (v : EventModel) {b : Database} → add_event v db ≡ some b → IsValid b
  unfolding add_event
  add_event-IsValid v {b} e =
      elim (Option-cases (insert_row (λ x. text_eq x.event_id v.event_id) v db.events)) [
        | inl taken ↦ absurd (ground arith)
        | inr (rows, q) ↦
            (let same : record db { events = rows } ≡ b = ground arith in
              let law : (x : EventModel)
                  → v.event_id ≡ x.event_id
                  → text_eq x.event_id v.event_id ≡ true =
                λ x k. ground (arith, text_eq_iff x.event_id v.event_id) in
              let grows =
                insert_row-Grows (λ x. x.event_id) (λ x. text_eq x.event_id v.event_id) v db.events
                  law q in
              rw (← same) (events_lem rows (Grows-IsDistinct grows h.events)))
      ]

  pub create_chunks-IsValid :
      (cs : List ChunkModel) {b : Database} → create_chunks cs db ≡ some b → IsValid b
  unfolding create_chunks
  create_chunks-IsValid cs {b} e = elim (Option-cases (insert_chunks cs db.chunks)) [
    | inl taken ↦ absurd (ground arith)
    | inr (rows, q) ↦
        (let same : record db { chunks = rows } ≡ b = ground arith in
          let (distinct, keeps, inserted) = insert_chunks-Distinct cs db.chunks q h.chunks in
          rw (← same) (chunks_lem rows distinct keeps))
  ]
