-- ===== src/Manager/Recovery/Rounds.antt =====
-- What one round of the recovery loop, and so the whole loop, can do to the database.
use air_store.Prelude.{
  ℕ, ◌≡◌, refl, Text, Option, none, some, List, [], ◌∷◌, select, Elem, Bool-cases, Option-cases,
  inl, inr,
}
use air_store.Core.Exec.{Result, ok, err}
use air_store.Core.Models.{NodeModel, ChunkModel, ChunkReplicaModel, ReplicaStatus}
use air_store.Database.{Database, get_chunk, add_replica, get_replicas_for_chunk}
use air_store.Placement.{select_nodes_for_chunk}
use air_store.Placement.Laws.{select_nodes_for_chunk_sound}
use air_store.Node.Handlers.{Reply, no_reply, response, is_success}
use air_store.Manager.Env.{Env, State, address_of}
use air_store.Manager.Recovery.{
  is_surviving, node_of, mark_file_corrupted, record_new_replica, replicate_to, copy_from,
  recover_replica, recover_replicas,
}

-- A round keeps the database, marks a file CORRUPTED, or records a STORED replica on one of the
-- online nodes.
pub data Round (online : List NodeModel) : Database → Database → Type 0 where
  kept : {db : Database} → Round online db db
  marked : {db : Database} (chunk_id : Text) → Round online db (mark_file_corrupted chunk_id db)
  added :
      {db : Database} (target : NodeModel) (replica : ChunkReplicaModel)
      → Elem target online
      → replica.node_id ≡ target.node_id
      → replica.status ≡ ReplicaStatus.stored
      → Round online db (add_replica replica db)

pub data Rounds (online : List NodeModel) : Database → Database → Type 0 where
  done : {db : Database} → Rounds online db db
  more : {a b c : Database} → Round online a b → Rounds online b c → Rounds online a c

module _ {W : Type 0} (env : Env W) (online nodes : List NodeModel) where
  record_new_replica-Round :
      (chunk_id : Text) (target : NodeModel) (replicas : List ChunkReplicaModel)
      (reply : Reply Unit) (s : State W)
      → Elem target online
      → Round online s.db (record_new_replica env chunk_id target replicas reply s).1.db
  unfolding record_new_replica
  record_new_replica-Round chunk_id target replicas no_reply s e = kept
  record_new_replica-Round chunk_id target replicas (response code body) s e =
      elim (Bool-cases (is_success code)) [
        | inl good ↦ rw good (added target _ e refl refl)
        | inr bad ↦ rw bad kept
      ]

  replicate_to-Round :
      (chunk_id : Text) (chunk : ChunkModel) (source : NodeModel)
      (replicas : List ChunkReplicaModel) (existing : Option (List Text))
      (selected : Result (List NodeModel)) (s : State W)
      → select_nodes_for_chunk env.float chunk online 1 existing ≡ selected
      → Round online s.db (replicate_to env chunk_id chunk source replicas selected s).1.db
  unfolding replicate_to
  replicate_to-Round chunk_id chunk source replicas existing (err x) s h = kept
  replicate_to-Round chunk_id chunk source replicas existing (ok []) s h = kept
  replicate_to-Round chunk_id chunk source replicas existing (ok (target ∷ rest)) s h =
      let sound = select_nodes_for_chunk_sound env.float chunk online 1 existing h in
      let sent =
        env.client.replicate (address_of target) chunk_id (address_of source) chunk.sha256 s.net in
      record_new_replica-Round chunk_id target replicas sent.0 (record s { net = sent.1 })
        sound.0.0.1

  copy_from-Round :
      (chunk_id : Text) (replicas : List ChunkReplicaModel) (source : Option NodeModel)
      (s : State W)
      → Round online s.db (copy_from env online chunk_id replicas source s).1.db
  unfolding copy_from
  copy_from-Round chunk_id replicas none s = kept
  copy_from-Round chunk_id replicas (some source) s =
      elim (Option-cases (get_chunk chunk_id s.db)) [
        | inl absent ↦ rw (absent, copy_from) kept
        | inr (chunk, found) ↦
            rw (found, copy_from) (replicate_to-Round chunk_id chunk source replicas _ _ s refl)
      ]

  pub recover_replica-Round :
      (rep : ChunkReplicaModel) (s : State W)
      → Round online s.db (recover_replica env online nodes rep s).1.db
  unfolding recover_replica
  recover_replica-Round rep s =
      go (select (is_surviving nodes) (get_replicas_for_chunk rep.chunk_id s.db)) refl
    where
      go :
          (surviving : List ChunkReplicaModel)
          → select (is_surviving nodes) (get_replicas_for_chunk rep.chunk_id s.db) ≡ surviving
          → Round online s.db (recover_replica env online nodes rep s).1.db
      go [] e = rw (e, recover_replica) (marked rep.chunk_id)
      go (source ∷ others) e =
          rw (e, recover_replica) (copy_from-Round rep.chunk_id _ (node_of nodes source.node_id) s)

  pub recover_replicas-Rounds :
      (reps : List ChunkReplicaModel) (counts : ℕ × ℕ) (s : State W)
      → Rounds online s.db (recover_replicas env online nodes reps counts s).1.db
  unfolding recover_replicas
  recover_replicas-Rounds [] counts s = done
  recover_replicas-Rounds (rep ∷ reps) counts s =
      more (recover_replica-Round rep s)
        (recover_replicas-Rounds reps _ (recover_replica env online nodes rep s).1)
