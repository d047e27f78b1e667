-- ===== src/Manager/Recovery/Copies.antt =====
-- services/recovery_service.py: what a replica that counts as recovered stands for.
use air_store.Prelude.{
  ◌≡◌, ◌≢◌, refl, Text, text_eq_refl, true, Option, none, some, List, [], ◌∷◌, select, Elem,
  Bool-cases, Option-cases, inl, inr, arith,
}
use air_store.Core.Exec.{Result, ok, err}
use air_store.Core.Models.{NodeModel, ChunkModel, ChunkReplicaModel}
use air_store.Database.{add_replica, get_replicas_for_chunk, get_chunk}
use air_store.Database.Rows.Laws.{any-upsert_row_self}
use air_store.Placement.{select_nodes_for_chunk}
use air_store.Placement.Laws.{IsEligible, select_nodes_for_chunk_sound}
use air_store.Node.Handlers.{Reply, no_reply, response, is_success}
use air_store.Manager.Env.{Env, State, address_of}
use air_store.Manager.Recovery.{
  counted_recovered, not_counted, is_surviving, node_of, existing_node_ids, record_new_replica,
  replicate_to, copy_from, recover_replica,
}
use air_store.Manager.Recovery.Keep.{holds}
use air_store.Manager.Store.{succeeds}

module _ {W : Type 0} (env : Env W) (online nodes : List NodeModel) where
  -- A copy that counts: of a chunk of the table, on one of the online nodes that may take it and
  -- had no replica of it that is not MISSING. That node answered with a 2xx when it was asked to
  -- fetch the chunk with its hash from a node that survived with a STORED replica, the request was
  -- the only one, and the copy is recorded as stored there.
  pub record IsCopied (chunk_id : Text) (replicas : List ChunkReplicaModel) (s s' : State W)
      : Type 0 where
    pub chunk : ChunkModel
    pub target : NodeModel
    pub known : get_chunk chunk_id s.db ≡ some chunk
    pub source_replica : ChunkReplicaModel
    pub survived : Elem source_replica (select (is_surviving nodes) replicas)
    pub source : NodeModel
    pub source_node : node_of nodes source_replica.node_id ≡ some source
    pub is_online_node : Elem target online
    pub eligible : IsEligible chunk (existing_node_ids replicas) target
    pub answered :
        succeeds
          (env.client.replicate
            (address_of target)
            chunk_id
            (address_of source)
            chunk.sha256
            s.net).0
        ≡ true
    pub asked :
        s'.net
        ≡ (env.client.replicate
            (address_of target)
            chunk_id
            (address_of source)
            chunk.sha256
            s.net).1
    pub recorded : holds chunk_id target.node_id s'.db ≡ true

  record_new_replica-holds :
      (chunk_id : Text) (target : NodeModel) (replicas : List ChunkReplicaModel)
      (reply : Reply Unit) (s : State W)
      → (record_new_replica env chunk_id target replicas reply s).0 ≡ counted_recovered
      → holds chunk_id target.node_id (record_new_replica env chunk_id target replicas reply s).1.db
        ≡ true
  unfolding record_new_replica add_replica
  record_new_replica-holds chunk_id target replicas no_reply s h = absurd (ground arith)
  record_new_replica-holds chunk_id target replicas (response code body) s h =
      elim (Bool-cases (is_success code)) [
        | inl good ↦ rw good (
            any-upsert_row_self _ _ _ _ s.db.chunk_replicas (λ r p. ground arith)
              (ground (arith, text_eq_refl chunk_id, text_eq_refl target.node_id)))
        | inr bad ↦ absurd (ground arith)
      ]

  -- Only a 2xx counts, and recording it sends nothing.
  record_new_replica-succeeds :
      (chunk_id : Text) (target : NodeModel) (replicas : List ChunkReplicaModel)
      (reply : Reply Unit) (s : State W)
      → (record_new_replica env chunk_id target replicas reply s).0 ≡ counted_recovered
      → (succeeds reply ≡ true)
        × ((record_new_replica env chunk_id target replicas reply s).1.net ≡ s.net)
  unfolding record_new_replica
  record_new_replica-succeeds chunk_id target replicas no_reply s h = absurd (ground arith)
  record_new_replica-succeeds chunk_id target replicas (response code body) s h =
      elim (Bool-cases (is_success code)) [
        | inl good ↦ (good, ground arith)
        | inr bad ↦ absurd (ground arith)
      ]

  replicate_to-IsCopied :
      (chunk_id : Text) (chunk : ChunkModel) (rep : ChunkReplicaModel) (source : NodeModel)
      (replicas : List ChunkReplicaModel) (selected : Result (List NodeModel)) (s : State W)
      → get_chunk chunk_id s.db ≡ some chunk
      → Elem rep (select (is_surviving nodes) replicas)
      → node_of nodes rep.node_id ≡ some source
      → select_nodes_for_chunk env.float chunk online 1 (some (existing_node_ids replicas))
        ≡ selected
      → (replicate_to env chunk_id chunk source replicas selected s).0 ≡ counted_recovered
      → IsCopied chunk_id replicas s (replicate_to env chunk_id chunk source replicas selected s).1
  unfolding replicate_to
  replicate_to-IsCopied chunk_id chunk rep source replicas (err x) s known survived found e h =
      absurd (ground arith)
  replicate_to-IsCopied chunk_id chunk rep source replicas (ok []) s known survived found e h =
      absurd (ground arith)
  replicate_to-IsCopied chunk_id chunk rep source replicas (ok (target ∷ rest)) s known survived
        found e h =
      let sound =
        select_nodes_for_chunk_sound env.float chunk online 1 (some (existing_node_ids replicas))
          e in
      let sent =
        env.client.replicate (address_of target) chunk_id (address_of source) chunk.sha256 s.net in
      let t = record s { net = sent.1 } in
      let (good, silent) = record_new_replica-succeeds chunk_id target replicas sent.0 t h in
      record {
        chunk = chunk;
        target = target;
        known = known;
        source_replica = rep;
        survived = survived;
        source = source;
        source_node = found;
        is_online_node = sound.0.0.1;
        eligible = sound.0.0.0;
        answered = good;
        asked = silent;
        recorded = record_new_replica-holds chunk_id target replicas sent.0 t h;
      }

  copy_from-IsCopied :
      (chunk_id : Text) (rep : ChunkReplicaModel) (replicas : List ChunkReplicaModel)
      (source : Option NodeModel) (s : State W)
      → Elem rep (select (is_surviving nodes) replicas)
      → node_of nodes rep.node_id ≡ source
      → (copy_from env online chunk_id replicas source s).0 ≡ counted_recovered
      → IsCopied chunk_id replicas s (copy_from env online chunk_id replicas source s).1
  unfolding copy_from
  copy_from-IsCopied chunk_id rep replicas none s survived found h = absurd (ground arith)
  copy_from-IsCopied chunk_id rep replicas (some source) s survived found h =
      elim (Option-cases (get_chunk chunk_id s.db)) [
        | inl absent ↦ absurd (ground arith)
        | inr (chunk, known) ↦
            rw (known, copy_from)
              (replicate_to-IsCopied chunk_id chunk rep source replicas _ s known survived found
                refl (rw (known, copy_from) at h))
      ]

  -- A replica that counts as recovered has a new copy: an online node with room for the chunk, which
  -- held no replica of it that is not MISSING, answered with a 2xx to the request to fetch the chunk
  -- with its hash from a node with a surviving STORED replica, and is recorded as STORED. No other
  -- request was sent.
  pub recover_replica-IsCopied :
      (rep : ChunkReplicaModel) (s : State W)
      → (recover_replica env online nodes rep s).0 ≡ counted_recovered
      → IsCopied rep.chunk_id
          (get_replicas_for_chunk rep.chunk_id s.db)
          s
          (recover_replica env online nodes rep s).1
  unfolding recover_replica
  recover_replica-IsCopied rep s h =
      go (select (is_surviving nodes) (get_replicas_for_chunk rep.chunk_id s.db)) refl
    where
      go :
          (surviving : List ChunkReplicaModel)
          → select (is_surviving nodes) (get_replicas_for_chunk rep.chunk_id s.db) ≡ surviving
          → IsCopied rep.chunk_id
              (get_replicas_for_chunk rep.chunk_id s.db)
              s
              (recover_replica env online nodes rep s).1
      go [] e = absurd (ground arith)
      go (source ∷ others) e =
          let survived : Elem source
              (select (is_surviving nodes) (get_replicas_for_chunk rep.chunk_id s.db)) =
            rw e (inl refl) in
          rw (e, recover_replica)
            (copy_from-IsCopied rep.chunk_id source _ (node_of nodes source.node_id) s survived refl
              (rw (e, recover_replica) at h))

  -- A round counts, unless the chunk has no row.
  pub recover_replica-counted :
      (rep : ChunkReplicaModel) (s : State W)
      → get_chunk rep.chunk_id s.db ≢ none
      → (recover_replica env online nodes rep s).0 ≢ not_counted
  unfolding recover_replica copy_from replicate_to record_new_replica
  recover_replica-counted rep s known h = known (ground arith)
