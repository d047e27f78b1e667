-- ===== src/Manager/Download/Streams.antt =====
-- services/storage_manager.py: the chunks of a download, one after the other.
use air_store.Prelude.{
  ℕ, ◌+◌, ◌*◌, ◌≡◌, ◌≢◌, refl, sym, ap, ◌∙◌, Text, Bytes, Option, none, some, List, [], ◌∷◌, map,
  select, All, Elem, Option-cases, inl, inr, arith,
}
use air_store.Core.Models.{NodeModel, ChunkModel, ChunkReplicaModel, is_stored}
use air_store.Core.Encryption.{ChunkEncryptor}
use air_store.Database.{update_transfer, get_replicas_for_chunk}
use air_store.Manager.Env.{Env, State, on_db_now}
use air_store.Manager.Recovery.{node_of}
use air_store.Manager.Store.{StoreView, IsStore}
use air_store.Manager.Store.Chunks.{AreApart, AreHashed}
use air_store.Manager.Upload.{progress_of, speed_of}
use air_store.Manager.Download.{fetch_replica, fetch_chunk, chunk_stream}
use air_store.Manager.Download.Fetch.{
  IsQuiet, IsQuiet-refl, IsQuiet-trans, IsReadable, IsReadable-net, IsServed, IsServed-IsQuiet,
  holds-Elem, fetch_replica-IsQuiet, fetch_replica-delivers, fetch_replica-delivered,
}

module _ {W : Type 0} (env : Env W) {contract : StoreView W}
    (store : IsStore contract env.client env.sha256) (encryptor : Option ChunkEncryptor)
    (nodes : List NodeModel) where
  fetch_chunk-IsQuiet :
      (chunk : ChunkModel) (reps : List ChunkReplicaModel) (s : State W)
      → IsQuiet chunk.chunk_id s (fetch_chunk env encryptor nodes chunk reps s).1
  unfolding fetch_chunk
  fetch_chunk-IsQuiet chunk [] s = IsQuiet-refl chunk.chunk_id s
  fetch_chunk-IsQuiet chunk (r ∷ rs) s =
      let x = fetch_replica env encryptor chunk (node_of nodes r.node_id) s in
      let first =
        fetch_replica-IsQuiet env store encryptor nodes chunk (node_of nodes r.node_id) s in
      elim (Option-cases x.0) [
        | inr (bytes, e) ↦ rw (e, fetch_chunk) first
        | inl e ↦
            rw (e, fetch_chunk)
              (IsQuiet-trans chunk.chunk_id s x.1 _ first (fetch_chunk-IsQuiet chunk rs x.1))
      ]

  fetch_chunk-delivers :
      (chunk : ChunkModel) (bytes : Bytes) (reps : List ChunkReplicaModel) (r0 : ChunkReplicaModel)
      (s : State W)
      → chunk.sha256 ≡ env.sha256 bytes
      → (h : IsReadable env store encryptor nodes chunk bytes s.net) → Elem r0 reps
      → r0.node_id ≡ h.node.node_id
      → (fetch_chunk env encryptor nodes chunk reps s).0 ≡ some bytes
  unfolding fetch_chunk
  fetch_chunk-delivers chunk bytes [] r0 s hashed h e at_node = absurd e
  fetch_chunk-delivers chunk bytes (r ∷ rs) r0 s hashed h e at_node =
      let x = fetch_replica env encryptor chunk (node_of nodes r.node_id) s in
      elim (Option-cases x.0) [
        | inr (other, got) ↦
            (let same =
                fetch_replica-delivered env store encryptor nodes chunk bytes
                  (node_of nodes r.node_id) s h got in
              rw (got, fetch_chunk) (ap some same))
        | inl missed ↦ elim e [
          | inl here ↦
              (let at_head : node_of nodes r.node_id ≡ some h.node =
                  rw (ap (λ (q : ChunkReplicaModel). q.node_id) (sym here) ∙ at_node) h.found in
                let hit : x.0 ≡ some bytes =
                  rw at_head
                    (fetch_replica-delivers env store encryptor nodes chunk bytes s hashed h) in
                absurd (ground (arith, missed, hit)))
          | inr later ↦
              (let quiet =
                  fetch_replica-IsQuiet env store encryptor nodes chunk (node_of nodes r.node_id)
                    s in
                let (k, same) =
                  IsReadable-net env store encryptor nodes chunk bytes s.net x.1.net quiet.net h in
                rw (missed, fetch_chunk)
                  (fetch_chunk-delivers chunk bytes rs r0 x.1 hashed k later
                    (at_node ∙ ap (λ (n : NodeModel). n.node_id) (sym same))))
        ]
      ]

  update_transfer-IsQuiet :
      (chunk_id transfer_id : Text) (progress speed : _) (status : _) (message : _) (s : State W)
      → IsQuiet chunk_id s (on_db_now (update_transfer transfer_id progress speed status message) s)
  unfolding update_transfer
  update_transfer-IsQuiet chunk_id transfer_id progress speed status message s = record {
    net = refl;
    events = refl;
    uuids = refl;
    others = λ other node_id ne h. h;
  }

  -- Each piece has its own node to read it from.
  abbrev pub AreServed : List (ChunkModel × Bytes) → State W → Type 0
  AreServed pieces s = All (λ p. IsServed env store encryptor nodes p.0 p.1 s) pieces

  AreServed-IsQuiet :
      (chunk_id : Text) (pieces : List (ChunkModel × Bytes)) (s t : State W)
      → All (λ p. contract.name chunk_id ≢ contract.name p.0.chunk_id) pieces
      → IsQuiet chunk_id s t
      → AreServed pieces s
      → AreServed pieces t
  AreServed-IsQuiet chunk_id [] s t apart quiet served = tt
  AreServed-IsQuiet chunk_id (p ∷ ps) s t apart quiet served = (
    IsServed-IsQuiet env store encryptor nodes p.0 p.1 chunk_id s t
        (λ same. apart.0 (ap contract.name (sym same))) quiet served.0,
    AreServed-IsQuiet chunk_id ps s t apart.1 quiet served.1,
  )

  -- What the stream leaves as it was.
  abbrev SameLog : State W → State W → Type 0
  SameLog s t = (t.db.events ≡ s.db.events) × (t.uuids ≡ s.uuids)

  fetch_served :
      (chunk : ChunkModel) (bytes : Bytes) (s : State W)
      → chunk.sha256 ≡ env.sha256 bytes
      → IsServed env store encryptor nodes chunk bytes s
      → (fetch_chunk env encryptor nodes chunk
          (select (λ r. is_stored r.status) (get_replicas_for_chunk chunk.chunk_id s.db))
          s).0
        ≡ some bytes
  fetch_served chunk bytes s hashed (h, stored) =
      let (r, e, at_node) = holds-Elem chunk.chunk_id h.node.node_id s.db stored in
      fetch_chunk-delivers chunk bytes _ r s hashed h e at_node

  pub chunk_stream-delivers :
      (transfer_id : Text) (total_chunks idx : ℕ) (pieces : List (ChunkModel × Bytes)) (s : State W)
      → AreHashed env store pieces
      → AreApart env store pieces
      → AreServed pieces s
      → let out =
          chunk_stream env encryptor nodes transfer_id total_chunks idx (map (λ p. p.0) pieces) s in
        (out.0 ≡ record { delivered = map (λ p. p.1) pieces; raised = none }) × SameLog s out.1
  unfolding chunk_stream
  chunk_stream-delivers transfer_id total_chunks idx [] s hashed apart served = (refl, (refl, refl))
  chunk_stream-delivers transfer_id total_chunks idx (p ∷ ps) s hashed apart served =
      let reps = select (λ r. is_stored r.status) (get_replicas_for_chunk p.0.chunk_id s.db) in
      let got = fetch_served p.0 p.1 s hashed.0 served.0 in
      let t = (fetch_chunk env encryptor nodes p.0 reps s).1 in
      let u =
        on_db_now
          (update_transfer transfer_id (progress_of env idx total_chunks)
            (speed_of env idx ((idx + 1) * p.0.size)) none none)
          t in
      let quiet =
        IsQuiet-trans p.0.chunk_id s t u (fetch_chunk-IsQuiet p.0 reps s)
          (update_transfer-IsQuiet p.0.chunk_id transfer_id _ _ none none t) in
      let (rest, same) =
        chunk_stream-delivers transfer_id total_chunks (idx + 1) ps u hashed.1 apart.1
          (AreServed-IsQuiet p.0.chunk_id ps s u apart.0 quiet served.1) in
      rw (got, rest, chunk_stream) (refl, (same.0 ∙ quiet.events, same.1 ∙ quiet.uuids))
