-- ===== src/Database/Keys/Kept.antt =====
-- The rows of chunks and of nodes under the statements of the manager.
use air_store.Prelude.{
  ◌≡◌, refl, sym, ap, inl, inr, Text, text_eq_iff, some, List, [], ◌∷◌, ◌++◌, map, Elem, arith,
}
use air_store.Core.Models.{NodeModel, FileModel, ChunkModel, TransferModel, EventModel}
use air_store.Database.Rows.{Database}
use air_store.Database.Nodes.{
  register_or_update_node, update_node_heartbeat, update_node_status, has_node_id,
}
use air_store.Database.Files.{create_file, update_file_status, delete_file}
use air_store.Database.Files.Inserted.{create_chunks-eq-some}
use air_store.Database.Replicas.{add_replica, update_replica_status}
use air_store.Database.Journal.{create_transfer, update_transfer, add_event}
use air_store.Database.Keys.{Elem-append_left, map-update_where, map-upsert_row}
use air_store.Database.Keys.Steps.{
  node_ids, chunk_ids, Step, node_registered, heartbeat_written, node_status_written, file_inserted,
  file_status_written, file_deleted, chunks_inserted, replica_recorded, replica_status_written,
  transfer_inserted, transfer_written, event_inserted, Steps, stay, then_step,
}

chunks-create_file :
    (f : FileModel) (a : Database) {b : Database}
    → create_file f a ≡ some b
    → (b.chunks ≡ a.chunks) × (b.nodes ≡ a.nodes)
unfolding create_file
chunks-create_file f a h = (ground arith, ground arith)

chunks-create_transfer :
    (t : TransferModel) (a : Database) {b : Database}
    → create_transfer t a ≡ some b
    → (b.chunks ≡ a.chunks) × (b.nodes ≡ a.nodes)
unfolding create_transfer
chunks-create_transfer t a h = (ground arith, ground arith)

chunks-add_event :
    (e : EventModel) (a : Database) {b : Database}
    → add_event e a ≡ some b
    → (b.chunks ≡ a.chunks) × (b.nodes ≡ a.nodes)
unfolding add_event
chunks-add_event e a h = (ground arith, ground arith)

pub map-append :
    {A K : Type 0} (key : A → K) (xs ys : List A) → map key (xs ++ ys) ≡ map key xs ++ map key ys
map-append key [] ys = refl
map-append key (x ∷ xs) ys = ap (λ ks. key x ∷ ks) (map-append key xs ys)

-- What a statement keeps of the keys of the chunks and of the nodes.
abbrev pub Keeps : Database → Database → Type 0
Keeps a b =
    ((k : Text) → Elem k (chunk_ids a) → Elem k (chunk_ids b))
    × ((k : Text) → Elem k (node_ids a) → Elem k (node_ids b))

Keeps-same : (a b : Database) → (b.chunks ≡ a.chunks) × (b.nodes ≡ a.nodes) → Keeps a b
Keeps-same a b h = ((λ k e. rw h.0 e), (λ k e. rw h.1 e))

Keeps-nodes :
    (a : Database) (rows : List NodeModel)
    → map (λ n. n.node_id) rows ≡ node_ids a
    → Keeps a (record a { nodes = rows })
Keeps-nodes a rows h = ((λ k e. e), (λ k e. rw h e))

Step-Keeps : {a b : Database} → Step a b → Keeps a b
unfolding register_or_update_node update_node_heartbeat update_node_status update_file_status
    delete_file update_replica_status update_transfer add_replica
Step-Keeps {a} (node_registered n) = (
  (λ k e. e),
  (λ k e.
      elim (map-upsert_row (λ x. x.node_id) (has_node_id n.node_id)
        (λ x. record x {
          hostname = n.hostname;
          ip = n.ip;
          port = n.port;
          total_storage = n.total_storage;
          available_storage = n.available_storage;
          status = n.status;
          last_heartbeat = n.last_heartbeat;
        })
        n a.nodes (λ x. refl) (λ x q. ground (arith, text_eq_iff x.node_id n.node_id))) [
          | inl same ↦ rw same e
          | inr (absent, more) ↦ rw more (Elem-append_left k (node_ids a) (n.node_id ∷ []) e)
        ]),
)
Step-Keeps {a} (heartbeat_written node_id available total status now) =
    Keeps-nodes a _ (map-update_where (λ x. x.node_id) (has_node_id node_id) _ a.nodes (λ x. refl))
Step-Keeps {a} (node_status_written node_id status) =
    Keeps-nodes a _ (map-update_where (λ x. x.node_id) (has_node_id node_id) _ a.nodes (λ x. refl))
Step-Keeps {a} {b} (file_inserted f h) = Keeps-same a b (chunks-create_file f a h)
Step-Keeps (file_status_written file_id status) = ((λ k e. e), (λ k e. e))
Step-Keeps (file_deleted file_id) = ((λ k e. e), (λ k e. e))
Step-Keeps {a} {b} (chunks_inserted cs h) =
    let all = create_chunks-eq-some cs a h in
    let chunks : b.chunks ≡ a.chunks ++ cs = ap (λ (d : Database). d.chunks) (sym all) in
    let nodes : b.nodes ≡ a.nodes = ap (λ (d : Database). d.nodes) (sym all) in
    (
      (λ k e.
          rw (chunks, map-append (λ (c : ChunkModel). c.chunk_id) a.chunks cs)
            (Elem-append_left k (chunk_ids a) _ e)),
      (λ k e. rw nodes e),
    )
Step-Keeps (replica_recorded r chunk node) = ((λ k e. e), (λ k e. e))
Step-Keeps (replica_status_written chunk_id node_id status) = ((λ k e. e), (λ k e. e))
Step-Keeps {a} {b} (transfer_inserted t h) = Keeps-same a b (chunks-create_transfer t a h)
Step-Keeps (transfer_written transfer_id progress speed status message now) =
    ((λ k e. e), (λ k e. e))
Step-Keeps {a} {b} (event_inserted v h) = Keeps-same a b (chunks-add_event v a h)

pub Steps-Keeps : {a b : Database} → Steps a b → Keeps a b
Steps-Keeps stay = ((λ k e. e), (λ k e. e))
Steps-Keeps (then_step p s) =
    let first = Steps-Keeps p in
    let last = Step-Keeps s in ((λ k e. last.0 k (first.0 k e)), (λ k e. last.1 k (first.1 k e)))
