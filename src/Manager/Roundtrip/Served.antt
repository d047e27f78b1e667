-- ===== src/Manager/Roundtrip/Served.antt =====
-- services/storage_manager.py: where the chunks of an upload can be fetched afterwards.
use air_store.Prelude.{
  ℕ, ◌+◌, ◌≡◌, ◌≤◌, refl, ap, text_eq_iff, text_lt, Bytes, Bool, true, Option, none, some, List, [],
  ◌∷◌, length, find, select, All, Elem, All-Elem, All-of-Elem, Elem-of_select, Bool-cases, inl, inr,
  arith,
}
use air_store.Prelude.Sort.Laws.{All-order_by}
use air_store.Core.Exec.{ok}
use air_store.Core.Models.{NodeModel, ChunkModel, is_online}
use air_store.Core.Encryption.{ChunkEncryptor, nonce_size}
use air_store.Core.Encryption.Roundtrip.{IsAesGcm, decrypt_chunk-encrypt_chunk}
use air_store.Database.{Database, list_nodes}
use air_store.Placement.{select_nodes_for_chunk}
use air_store.Placement.Laws.{select_nodes_for_chunk_sound, select_nodes_for_chunk-nonempty}
use air_store.Manager.Env.{Env, State}
use air_store.Database.{has_node_id}
use air_store.Manager.Recovery.{node_of}
use air_store.Manager.Store.{StoreView, IsStore}
use air_store.Manager.Store.Put.{HoldsOnly, AreHeld}
use air_store.Manager.Store.Chunks.{ArePut}
use air_store.Manager.Upload.{payload_of}
use air_store.Manager.Upload.Replicas.{IsPlaced, ArePlaced}
use air_store.Manager.Download.{plaintext_of}
use air_store.Manager.Download.Fetch.{IsServed}
use air_store.Manager.Download.Streams.{AreServed}

-- The primary key of the table of nodes.
abbrev pub HaveOwnIds : List NodeModel → Type 0
HaveOwnIds nodes = (a b : NodeModel) → Elem a nodes → Elem b nodes → a.node_id ≡ b.node_id → a ≡ b

find-HaveOwnIds :
    (n : NodeModel) (rows nodes : List NodeModel)
    → All (λ m. m.node_id ≡ n.node_id → m ≡ n) rows
    → Elem n rows
    → find (has_node_id n.node_id) rows ≡ some n
find-HaveOwnIds n [] nodes own e = absurd e
find-HaveOwnIds n (m ∷ rows) nodes own e = elim (Bool-cases (has_node_id n.node_id m)) [
  | inl here ↦
      (let same : m ≡ n = own.0 (ground (arith, text_eq_iff m.node_id n.node_id)) in
        rw here (ap some same))
  | inr apart ↦ rw apart (
      find-HaveOwnIds n rows nodes own.1 (elim e [
        | inl same ↦ absurd (
            ground (arith, text_eq_iff m.node_id n.node_id, ap (λ (x : NodeModel). x.node_id) same))
        | inr later ↦ later
      ]))
]

-- The node that a download looks up under an id is the one of the table.
pub node_of-list_nodes :
    (n : NodeModel) (db : Database)
    → HaveOwnIds db.nodes
    → Elem n (list_nodes db)
    → node_of (list_nodes db) n.node_id ≡ some n
unfolding node_of list_nodes
node_of-list_nodes n db own e =
    let before = λ (a : NodeModel) (b : NodeModel). text_lt a.node_id b.node_id in
    let inside : All (λ m. Elem m db.nodes) (list_nodes db) =
      All-order_by before (λ m. Elem m db.nodes) db.nodes (All-of-Elem _ db.nodes (λ m k. k)) in
    let known = All-Elem (λ m. Elem m db.nodes) n (list_nodes db) inside e in
    find-HaveOwnIds n (list_nodes db) db.nodes
      (All-order_by before (λ m. m.node_id ≡ n.node_id → m ≡ n) db.nodes
        (All-of-Elem _ db.nodes (λ m k same. own m n k known same)))
      e

module _ {W : Type 0} (env : Env W) where
  plaintext_of-payload_of :
      (encryptor : Option ChunkEncryptor) (index : ℕ) (bytes : Bytes)
      → IsAesGcm env.aesgcm
      → ((i : ℕ) → length (env.nonce i) ≡ nonce_size)
      → plaintext_of env encryptor (payload_of env encryptor index bytes) ≡ ok bytes
  unfolding plaintext_of payload_of
  plaintext_of-payload_of none index bytes law nonces = refl
  plaintext_of-payload_of (some e) index bytes law nonces =
      decrypt_chunk-encrypt_chunk env.aesgcm e (env.nonce index) bytes none law (nonces index)

  module _ {contract : StoreView W} (store : IsStore contract env.client env.sha256)
      (aes : IsAesGcm env.aesgcm) (nonces : (i : ℕ) → length (env.nonce i) ≡ nonce_size)
      (encrypted : Bool) (encryptor : Option ChunkEncryptor) (replication_factor : ℕ)
      (db : Database) where
    abbrev active : List NodeModel
    active = select (λ n. is_online n.status) (list_nodes db)

    piece-IsServed :
        (index : ℕ) (p : ChunkModel × Bytes) (targets : List NodeModel) (s : State W)
        → HaveOwnIds db.nodes
        → 1 ≤ replication_factor
        → contract.accepts p.0.chunk_id ≡ true
        → select_nodes_for_chunk env.float p.0 active replication_factor none ≡ ok targets
        → HoldsOnly env store p.0.chunk_id (payload_of env encryptor index p.1) s.net
        → AreHeld env store p.0.chunk_id (payload_of env encryptor index p.1) targets s.net
        → IsPlaced p.0 targets s.db
        → IsServed env store encryptor (list_nodes db) p.0 p.1 s
    piece-IsServed index p [] s own positive accepted selected only held placed =
        absurd (
          select_nodes_for_chunk-nonempty env.float p.0 active replication_factor positive selected)
    piece-IsServed index p (n ∷ ns) s own positive accepted selected only held placed =
        let (sound, size) =
          select_nodes_for_chunk_sound env.float p.0 active replication_factor none selected in
        let ((online, free, room), among) = sound.0 in
        let known = Elem-of_select (λ m. is_online m.status) n (list_nodes db) among in
        (
          record {
            node = n;
            payload = payload_of env encryptor index p.1;
            found = node_of-list_nodes n db own known;
            online = online;
            held = held.0;
            plain = plaintext_of-payload_of encryptor index p.1 aes nonces;
            accepted = accepted;
            only = only;
          },
          placed.0,
        )

    pub AreServed-of_upload :
        (index : ℕ) (pieces : List (ChunkModel × Bytes)) (s : State W)
        → HaveOwnIds db.nodes
        → 1 ≤ replication_factor
        → All (λ p. contract.accepts p.0.chunk_id ≡ true) pieces
        → ArePut env store encrypted encryptor active replication_factor index pieces s.net
        → ArePlaced env active replication_factor pieces s.db
        → AreServed env store encryptor (list_nodes db) pieces s
    AreServed-of_upload index [] s own positive accepted put placed = tt
    AreServed-of_upload index (p ∷ ps) s own positive accepted put placed =
        let ((targets, selected, only, held), puts) = put in
        let ((targets', selected', on_each), places) = placed in
        let same : targets' ≡ targets = cc (selected, selected') in
        (
          piece-IsServed index p targets s own positive accepted.0 selected only held
              (rw same at on_each),
          AreServed-of_upload (index + 1) ps s own positive accepted.1 puts places,
        )
