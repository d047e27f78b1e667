-- ===== src/Manager/Store/Chunks.antt =====
-- services/storage_manager.py: the nodes after the loop over the chunks of an upload.
use air_store.Prelude.{
  ℕ, ◌+◌, ◌≡◌, ◌≢◌, refl, sym, Option-cases, inl, inr, Text, Bytes, Bool, Option, none, some, List,
  [], ◌∷◌, All, arith,
}
use air_store.Core.Exec.{Result, ok, err}
use air_store.Core.Exec.Laws.{>>=-eq-ok}
use air_store.Core.Models.{NodeModel, ChunkModel}
use air_store.Core.Encryption.{ChunkEncryptor}
use air_store.Placement.{select_nodes_for_chunk}
use air_store.Manager.Env.{Env, State, Address, address_of}
use air_store.Manager.Store.{StoreView, IsStore}
use air_store.Manager.Store.Put.{Writes, HoldsOnly, AreHeld, upload_replicas-AreHeld}
use air_store.Manager.Upload.{payload_of, upload_chunk, upload_chunks}

module _ {W : Type 0} (env : Env W) {contract : StoreView W}
    (store : IsStore contract env.client env.sha256) where
  -- The chunks have file names of their own.
  abbrev pub AreApart : List (ChunkModel × Bytes) → Type 0
  AreApart [] = Unit
  AreApart (p ∷ ps) =
      All (λ q. contract.name p.0.chunk_id ≢ contract.name q.0.chunk_id) ps × AreApart ps

  -- Each chunk carries the hash of its bytes.
  abbrev pub AreHashed : List (ChunkModel × Bytes) → Type 0
  AreHashed pieces = All (λ p. p.0.sha256 ≡ env.sha256 p.1) pieces

  -- No node has anything under the ids of the chunks.
  abbrev pub AreUnheld : List (ChunkModel × Bytes) → W → Type 0
  AreUnheld pieces net =
      All (λ p. (node : Address) → contract.view net node p.0.chunk_id ≡ none) pieces

  -- What the nodes hold under file names of none of the chunks, they still hold, and nothing more.
  abbrev KeepsOthers : List (ChunkModel × Bytes) → W → W → Type 0
  KeepsOthers pieces a b =
      (node : Address) (other_id : Text) (bytes : Bytes)
      → All (λ q. contract.name other_id ≢ contract.name q.0.chunk_id) pieces
      → (contract.view a node other_id ≡ some bytes → contract.view b node other_id ≡ some bytes)
        × (contract.view b node other_id ≡ some bytes → contract.view a node other_id ≡ some bytes)

  HoldsOnly-unheld :
      (chunk_id : Text) (payload : Bytes) (net : W)
      → ((node : Address) → contract.view net node chunk_id ≡ none)
      → HoldsOnly env store chunk_id payload net
  HoldsOnly-unheld chunk_id payload net h node bytes held = absurd (ground (arith, h node, held))

  AreUnheld-Writes :
      (chunk_id : Text) (payload : Bytes) (pieces : List (ChunkModel × Bytes)) (a b : W)
      → Writes env store chunk_id payload a b
      → All (λ q. contract.name chunk_id ≢ contract.name q.0.chunk_id) pieces
      → AreUnheld pieces a
      → AreUnheld pieces b
  AreUnheld-Writes chunk_id payload [] a b writes apart h = tt
  AreUnheld-Writes chunk_id payload (p ∷ ps) a b writes apart h = (
    (λ node. elim (Option-cases (contract.view b node p.0.chunk_id)) [
      | inl nothing ↦ nothing
      | inr (bytes, held) ↦ elim (writes.1 node p.0.chunk_id bytes held) [
        | inl before ↦ absurd (ground (arith, h.0 node, before))
        | inr (same, equal) ↦ absurd (apart.0 (sym same))
      ]
    ]),
    AreUnheld-Writes chunk_id payload ps a b writes apart.1 h.1,
  )

  module _ (encrypted : Bool) (encryptor : Option ChunkEncryptor) (active_nodes : List NodeModel)
      (replication_factor : ℕ) where
    -- The nodes that the placement selects for a chunk hold its payload, and no node has anything
    -- else under its id.
    abbrev pub ArePut : ℕ → List (ChunkModel × Bytes) → W → Type 0
    ArePut index [] net = Unit
    ArePut index (p ∷ ps) net =
        ((targets : List NodeModel) × (select_nodes_for_chunk env.float p.0 active_nodes
              replication_factor none
            ≡ ok targets)
          × HoldsOnly env store p.0.chunk_id (payload_of env encryptor index p.1) net
          × AreHeld env store p.0.chunk_id (payload_of env encryptor index p.1) targets net)
        × ArePut (index + 1) ps net

    -- What the transfer of one chunk has done.
    abbrev IsSent : Text → Bytes → ChunkModel → W → W → Type 0
    IsSent chunk_id payload chunk a b =
        Writes env store chunk_id payload a b
        × ((targets : List NodeModel) × (select_nodes_for_chunk env.float chunk active_nodes
                replication_factor none
              ≡ ok targets)
            × HoldsOnly env store chunk_id payload b
            × AreHeld env store chunk_id payload targets b)

    upload_chunk-AreHeld :
        (index : ℕ) (chunk : ChunkModel) (bytes : Bytes) (s : State W) {x : Unit {0}} {s' : State W}
        → HoldsOnly env store chunk.chunk_id (payload_of env encryptor index bytes) s.net
        → upload_chunk env encrypted encryptor active_nodes replication_factor index
            (chunk, bytes)
            s
          ≡ (ok x, s')
        → IsSent chunk.chunk_id (payload_of env encryptor index bytes) chunk s.net s'.net
    unfolding upload_chunk
    upload_chunk-AreHeld index chunk bytes s {x} {s'} only h =
        go (select_nodes_for_chunk env.float chunk active_nodes replication_factor none) refl
      where
        go :
            (r : Result (List NodeModel))
            → select_nodes_for_chunk env.float chunk active_nodes replication_factor none ≡ r
            → IsSent chunk.chunk_id (payload_of env encryptor index bytes) chunk s.net s'.net
        go (err e) k = absurd (ground arith)
        go (ok targets) k =
            let (writes, only', held) =
              upload_replicas-AreHeld env store encrypted chunk
                (payload_of env encryptor index bytes) 1 targets s only
                (rw (k, upload_chunk) at h) in
            (writes, (targets, k, only', held))

    AreHeld-KeepsOthers :
        (chunk_id : Text) (payload : Bytes) (targets : List NodeModel)
        (pieces : List (ChunkModel × Bytes)) (a b : W)
        → KeepsOthers pieces a b
        → All (λ q. contract.name chunk_id ≢ contract.name q.0.chunk_id) pieces
        → AreHeld env store chunk_id payload targets a
        → AreHeld env store chunk_id payload targets b
    AreHeld-KeepsOthers chunk_id payload [] pieces a b keeps apart h = tt
    AreHeld-KeepsOthers chunk_id payload (n ∷ ns) pieces a b keeps apart h = (
      (keeps (address_of n) chunk_id payload apart).0 h.0,
      AreHeld-KeepsOthers chunk_id payload ns pieces a b keeps apart h.1,
    )

    -- A loop over the chunks of an upload that returns, where no node had anything under their ids.
    pub upload_chunks-ArePut :
        (index : ℕ) (pieces : List (ChunkModel × Bytes)) (s : State W) {x : Unit {0}} {s' : State W}
        → AreUnheld pieces s.net
        → AreApart pieces
        → upload_chunks env encrypted encryptor active_nodes replication_factor index pieces s
          ≡ (ok x, s')
        → KeepsOthers pieces s.net s'.net × ArePut index pieces s'.net
    unfolding upload_chunks
    upload_chunks-ArePut index [] s {x} {s'} unheld apart h =
        let same : s ≡ s' = cc h in rw (← same) ((λ other other_id b q. ((λ k. k), (λ k. k))), tt)
    upload_chunks-ArePut index (p ∷ ps) s {x} {s'} unheld apart h =
        let payload = payload_of env encryptor index p.1 in
        let (u, t, e, k) =
          >>=-eq-ok (upload_chunk env encrypted encryptor active_nodes replication_factor index p)
            (λ u.
              upload_chunks env encrypted encryptor active_nodes replication_factor (index + 1) ps)
            s h in
        let (writes, (targets, selected, only, held)) =
          upload_chunk-AreHeld index p.0 p.1 s
            (HoldsOnly-unheld p.0.chunk_id payload s.net unheld.0) e in
        let (keeps, rest) =
          upload_chunks-ArePut (index + 1) ps t
            (AreUnheld-Writes p.0.chunk_id payload ps s.net t.net writes apart.0 unheld.1) apart.1
            k in
        (
          (λ other other_id b q. (
            (λ before.
                (keeps other other_id b q.1).0
                  (writes.0 other other_id b before (λ same. absurd (q.0 same)))),
            (λ after. elim (writes.1 other other_id b ((keeps other other_id b q.1).1 after)) [
              | inl before ↦ before
              | inr (same, equal) ↦ absurd (q.0 same)
            ]),
          )),
          (
            (
              targets,
              selected,
              (λ node bytes after.
                  only node bytes ((keeps node p.0.chunk_id bytes apart.0).1 after)),
              AreHeld-KeepsOthers p.0.chunk_id payload targets ps t.net s'.net keeps apart.0 held,
            ),
            rest,
          ),
        )
