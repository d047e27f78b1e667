-- ===== src/Manager/Reconcile/Verified.antt =====
-- services/recovery_service.py: which replicas of a returning node become STORED again.
use air_store.Prelude.{
  ℕ, ◌+◌, ◌≡◌, refl, sym, ap, ◌∙◌, ◌⊎◌, inl, inr, Text, text_eq_iff, Bool, true, some, List, [],
  ◌∷◌, any, find, select, Bool-cases, Option-cases, arith, if◌then◌else◌,
}
use air_store.Core.Models.{NodeModel, ChunkModel, ChunkReplicaModel, ReplicaStatus, is_missing}
use air_store.Database.{
  Database, is_replica, get_node, get_chunk, is_chunk, update_replica_status, get_replicas_for_node,
}
use air_store.Database.Rows.{update_where}
use air_store.Manager.Env.{Env, State, address_of}
use air_store.Manager.Recovery.Keep.{holds}
use air_store.Manager.Reconcile.{
  is_verified, reconcile_replica, reconcile_replicas, reconcile_returning_node,
}

-- A row that passes after an UPDATE passed before, or the UPDATE wrote it.
any-update_where_back :
    {A : Type 0} (p : A → Bool) (f : A → A) (q : A → Bool) (rows : List A)
    → any q (update_where p f rows) ≡ true
    → (any q rows ≡ true) ⊎ ((r : A) × (p r ≡ true) × (q (f r) ≡ true))
any-update_where_back p f q [] h = inl h
any-update_where_back p f q (r ∷ rows) h = elim (Bool-cases (q (if p r then f r else r))) [
  | inl here ↦ elim (Bool-cases (p r)) [
    | inl hit ↦ inr (r, hit, rw hit at here)
    | inr miss ↦ (let same : q r ≡ true = rw miss at here in inl (ground arith))
  ]
  | inr other ↦ elim (any-update_where_back p f q rows (ground arith)) [
    | inl before ↦ inl (ground arith)
    | inr written ↦ inr written
  ]
]

module _ {W : Type 0} (env : Env W) (node_id : Text) (node : NodeModel) where
  -- The node answered that it has the chunk with the hash of the chunk's row.
  pub record IsVerifiedOn (chunk_id : Text) (chunks : List ChunkModel) : Type 0 where
    pub chunk : ChunkModel
    pub net : W
    pub known : find (is_chunk chunk_id) chunks ≡ some chunk
    pub answered :
        is_verified (env.client.verify (address_of node) chunk_id chunk.sha256 net).0 ≡ true

  -- What is STORED in `b` was STORED in `a`, or stands on the node, which verified it.
  abbrev pub IsSound : Database → Database → Type 0
  IsSound a b =
      (chunk_id other : Text)
      → holds chunk_id other b ≡ true
      → (holds chunk_id other a ≡ true) ⊎ ((other ≡ node_id) × IsVerifiedOn chunk_id a.chunks)

  update_replica_status-IsSound :
      (chunk_id : Text) (db : Database)
      → IsVerifiedOn chunk_id db.chunks
      → IsSound db (update_replica_status chunk_id node_id ReplicaStatus.stored db)
  unfolding update_replica_status
  update_replica_status-IsSound chunk_id db verified c other h =
      elim (any-update_where_back (is_replica chunk_id node_id) _ _ db.chunk_replicas h) [
        | inl before ↦ inl before
        | inr (r, hit, stands) ↦
            (let at_node : other ≡ node_id =
                ground (arith, text_eq_iff r.node_id node_id, text_eq_iff r.node_id other) in
              let same : chunk_id ≡ c =
                ground (arith, text_eq_iff r.chunk_id chunk_id, text_eq_iff r.chunk_id c) in
              inr (at_node, rw (← same) verified))
      ]

  -- One round leaves the tables, or writes one verified replica.
  abbrev IsStep : ChunkReplicaModel → Database → Database → Type 0
  IsStep rep a b =
      (a ≡ b)
      ⊎ (IsVerifiedOn rep.chunk_id a.chunks
          × (update_replica_status rep.chunk_id node_id ReplicaStatus.stored a ≡ b))

  reconcile_replica-IsStep :
      (rep : ChunkReplicaModel) (s : State W)
      → IsStep rep s.db (reconcile_replica env node_id node rep s).1.db
  unfolding reconcile_replica get_chunk
  reconcile_replica-IsStep rep s = elim (Option-cases (find (is_chunk rep.chunk_id) s.db.chunks)) [
    | inl absent ↦ inl (ground (arith, absent))
    | inr (chunk, found) ↦
        (let reply = (env.client.verify (address_of node) rep.chunk_id chunk.sha256 s.net).0 in
          elim (Bool-cases (is_verified reply)) [
            | inl good ↦ inr (
              record { chunk = chunk; net = s.net; known = found; answered = good },
              ground (arith, found, good),
            )
            | inr bad ↦ inl (ground (arith, found, bad))
          ])
  ]

  reconcile_replicas-IsSound :
      (reps : List ChunkReplicaModel) (count : ℕ) (s : State W)
      → IsSound s.db (reconcile_replicas env node_id node reps count s).1.db
  unfolding reconcile_replicas update_replica_status
  reconcile_replicas-IsSound [] count s c other h = inl h
  reconcile_replicas-IsSound (rep ∷ reps) count s c other h =
      let step = reconcile_replica env node_id node rep s in
      let later =
        reconcile_replicas-IsSound reps (if step.0 then count + 1 else count) step.1 c other h in
      elim (reconcile_replica-IsStep rep s) [
        | inl same ↦ rw same later
        | inr (verified, written) ↦
            (let chunks : step.1.db.chunks ≡ s.db.chunks =
                ap (λ (d : Database). d.chunks) (sym written) in
              elim later [
                | inl before ↦
                    update_replica_status-IsSound rep.chunk_id s.db verified c other
                      (rw (← written) at before)
                | inr (there, answered) ↦ inr (there, rw chunks at answered)
              ])
      ]

module _ {W : Type 0} (env : Env W) where
  nodes-reconcile_replicas :
      (node_id : Text) (node : NodeModel) (reps : List ChunkReplicaModel) (count : ℕ) (s : State W)
      → (reconcile_replicas env node_id node reps count s).1.db.nodes ≡ s.db.nodes
  unfolding reconcile_replicas update_replica_status
  nodes-reconcile_replicas node_id node [] count s = refl
  nodes-reconcile_replicas node_id node (rep ∷ reps) count s =
      let step = reconcile_replica env node_id node rep s in
      nodes-reconcile_replicas node_id node reps (if step.0 then count + 1 else count) step.1
      ∙ elim (reconcile_replica-IsStep env node_id node rep s) [
        | inl same ↦ ap (λ (d : Database). d.nodes) (sym same)
        | inr (verified, written) ↦ ap (λ (d : Database). d.nodes) (sym written)
      ]

  pub nodes-reconcile_returning_node :
      (node_id : Text) (s : State W)
      → (reconcile_returning_node env node_id s).1.db.nodes ≡ s.db.nodes
  unfolding reconcile_returning_node
  nodes-reconcile_returning_node node_id s = elim (Option-cases (get_node node_id s.db)) [
    | inl absent ↦ rw (absent, reconcile_returning_node) refl
    | inr (node, known) ↦
        rw (known, reconcile_returning_node)
          (nodes-reconcile_replicas node_id node
            (select (λ r. is_missing r.status) (get_replicas_for_node node_id s.db)) 0 s)
  ]

  -- Reconciling a returning node makes only replicas on that node STORED, each of a chunk with a row,
  -- and only after the node has answered that it has the chunk with the hash of that row.
  pub reconcile_returning_node-IsSound :
      (node_id : Text) (node : NodeModel) (s : State W)
      → get_node node_id s.db ≡ some node
      → IsSound env node_id node s.db (reconcile_returning_node env node_id s).1.db
  unfolding reconcile_returning_node
  reconcile_returning_node-IsSound node_id node s known =
      rw (known, reconcile_returning_node)
        (reconcile_replicas-IsSound env node_id node
          (select (λ r. is_missing r.status) (get_replicas_for_node node_id s.db)) 0 s)
