-- ===== src/Manager/Steps/Recoveries.antt =====
-- services/recovery_service.py and the heartbeat monitor as sequences of statements.
use air_store.Prelude.{
  ℕ, ◌≡◌, ◌==◌, refl, Text, text_eq_iff, Bool, Option, none, some, List, [], ◌∷◌, map, select, find,
  All, Elem, Elem-of_select, All-of-Elem, All-Elem, Option-cases, Bool-cases, inl, inr, arith,
}
use air_store.Prelude.Sort.Laws.{All-order_by}
use air_store.Core.Exec.{Result, ok, err, pure}
use air_store.Core.Models.{
  NodeModel, NodeStatus, ChunkModel, ChunkReplicaModel, ReplicaStatus, EventType, is_online,
}
use air_store.Database.{
  Database, list_nodes, get_chunk, is_chunk, update_node_status, get_replicas_for_chunk,
  get_replicas_for_node,
}
use air_store.Database.Keys.{Elem-map}
use air_store.Database.Keys.Steps.{
  Steps, stay, one-Step, Steps-trans, node_ids, chunk_ids, node_status_written, file_status_written,
  replica_recorded, replica_status_written,
}
use air_store.Database.Keys.Kept.{Steps-Keeps}
use air_store.Node.Handlers.{Reply, no_reply, response, is_success}
use air_store.Placement.{select_nodes_for_chunk}
use air_store.Placement.Laws.{select_nodes_for_chunk_sound}
use air_store.Manager.Env.{Env, State, on_db, address_of, log_event}
use air_store.Manager.Recovery.{
  is_surviving, node_of, mark_missing, mark_file_corrupted, record_new_replica, replicate_to,
  copy_from, recover_replica, recover_replicas, finish_recovery, recover_affected, recover_chunks,
  log_and_recover, recover_node_failure, end_event,
}
use air_store.Manager.Messages.{
  offline_message, recovery_start_message, node_details, recovery_end_message, recovery_end_details,
}
use air_store.Manager.Steps.{bind-Steps, log_event-Steps}

-- The nodes have rows.
abbrev pub AreRegistered : List NodeModel → Database → Type 0
AreRegistered nodes db = All (λ n. Elem n.node_id (node_ids db)) nodes

pub AreRegistered-Steps :
    {a b : Database} (nodes : List NodeModel)
    → Steps a b
    → AreRegistered nodes a
    → AreRegistered nodes b
AreRegistered-Steps [] p h = tt
AreRegistered-Steps (n ∷ ns) p h = ((Steps-Keeps p).1 n.node_id h.0, AreRegistered-Steps ns p h.1)

pub list_nodes-AreRegistered : (db : Database) → AreRegistered (list_nodes db) db
unfolding list_nodes
list_nodes-AreRegistered db =
    All-order_by _ (λ n. Elem n.node_id (node_ids db)) db.nodes
      (All-of-Elem _ db.nodes (λ n e. Elem-map (λ (m : NodeModel). m.node_id) n db.nodes e))

pub select-AreRegistered :
    (p : NodeModel → Bool) (nodes : List NodeModel) (db : Database)
    → AreRegistered nodes db
    → AreRegistered (select p nodes) db
select-AreRegistered p nodes db h =
    All-of-Elem _ (select p nodes)
      (λ n e. All-Elem (λ m. Elem m.node_id (node_ids db)) n nodes h (Elem-of_select p n nodes e))

get_chunk-Elem :
    (chunk_id : Text) (db : Database) {c : ChunkModel}
    → get_chunk chunk_id db ≡ some c
    → Elem chunk_id (chunk_ids db)
unfolding get_chunk
get_chunk-Elem chunk_id db {c} h = go db.chunks h
  where
    go :
        (rows : List ChunkModel)
        → find (is_chunk chunk_id) rows ≡ some c
        → Elem chunk_id (map (λ d. d.chunk_id) rows)
    go [] h = absurd (ground arith)
    go (x ∷ rows) h = elim (Bool-cases (is_chunk chunk_id x)) [
      | inl here ↦ inl (ground (arith, text_eq_iff x.chunk_id chunk_id))
      | inr apart ↦ inr (go rows (ground arith))
    ]

mark_missing-Steps :
    (failed : Text) (reps : List ChunkReplicaModel) (db : Database)
    → Steps db (mark_missing failed reps db)
unfolding mark_missing
mark_missing-Steps failed [] db = stay
mark_missing-Steps failed (r ∷ rs) db =
    Steps-trans (one-Step (replica_status_written r.chunk_id failed ReplicaStatus.missing))
      (mark_missing-Steps failed rs _)

mark_file_corrupted-Steps :
    (chunk_id : Text) (db : Database) → Steps db (mark_file_corrupted chunk_id db)
unfolding mark_file_corrupted
mark_file_corrupted-Steps chunk_id db = elim (Option-cases (get_chunk chunk_id db)) [
  | inl none_found ↦ rw (none_found, mark_file_corrupted) stay
  | inr (c, e) ↦ rw (e, mark_file_corrupted) (one-Step (file_status_written c.file_id _))
]

module _ {W : Type 0} (env : Env W) where
  record_new_replica-Steps :
      (chunk_id : Text) (target : NodeModel) (replicas : List ChunkReplicaModel)
      (reply : Reply Unit) (s : State W)
      → Elem chunk_id (chunk_ids s.db)
      → Elem target.node_id (node_ids s.db)
      → Steps s.db (record_new_replica env chunk_id target replicas reply s).1.db
  unfolding record_new_replica
  record_new_replica-Steps chunk_id target replicas no_reply s chunk node = stay
  record_new_replica-Steps chunk_id target replicas (response code body) s chunk node =
      elim (Bool-cases (is_success code)) [
        | inl good ↦ rw good (one-Step (replica_recorded _ chunk node))
        | inr bad ↦ rw bad stay
      ]

  replicate_to-Steps :
      (online : List NodeModel) (chunk_id : Text) (chunk : ChunkModel) (source : NodeModel)
      (replicas : List ChunkReplicaModel) (existing : Option (List Text))
      (selected : Result (List NodeModel)) (s : State W)
      → select_nodes_for_chunk env.float chunk online 1 existing ≡ selected
      → Elem chunk_id (chunk_ids s.db)
      → AreRegistered online s.db
      → Steps s.db (replicate_to env chunk_id chunk source replicas selected s).1.db
  unfolding replicate_to
  replicate_to-Steps online chunk_id chunk source replicas existing (err x) s h known nodes = stay
  replicate_to-Steps online chunk_id chunk source replicas existing (ok []) s h known nodes = stay
  replicate_to-Steps online chunk_id chunk source replicas existing (ok (target ∷ rest)) s h known
        nodes =
      let sound = select_nodes_for_chunk_sound env.float chunk online 1 existing h in
      let node = All-Elem (λ m. Elem m.node_id (node_ids s.db)) target online nodes sound.0.0.1 in
      let sent =
        env.client.replicate (address_of target) chunk_id (address_of source) chunk.sha256 s.net in
      record_new_replica-Steps chunk_id target replicas sent.0 (record s { net = sent.1 }) known
        node

  copy_from-Steps :
      (online : List NodeModel) (chunk_id : Text) (replicas : List ChunkReplicaModel)
      (source : Option NodeModel) (s : State W)
      → AreRegistered online s.db
      → Steps s.db (copy_from env online chunk_id replicas source s).1.db
  unfolding copy_from
  copy_from-Steps online chunk_id replicas none s nodes = stay
  copy_from-Steps online chunk_id replicas (some source) s nodes =
      elim (Option-cases (get_chunk chunk_id s.db)) [
        | inl absent ↦ rw (absent, copy_from) stay
        | inr (chunk, found) ↦
            rw (found, copy_from)
              (replicate_to-Steps online chunk_id chunk source replicas _ _ s refl
                (get_chunk-Elem chunk_id s.db found) nodes)
      ]

  recover_replica-Steps :
      (online nodes : List NodeModel) (rep : ChunkReplicaModel) (s : State W)
      → AreRegistered online s.db
      → Steps s.db (recover_replica env online nodes rep s).1.db
  unfolding recover_replica
  recover_replica-Steps online nodes rep s known =
      go (select (is_surviving nodes) (get_replicas_for_chunk rep.chunk_id s.db)) refl
    where
      go :
          (surviving : List ChunkReplicaModel)
          → select (is_surviving nodes) (get_replicas_for_chunk rep.chunk_id s.db) ≡ surviving
          → Steps s.db (recover_replica env online nodes rep s).1.db
      go [] e = rw (e, recover_replica) (mark_file_corrupted-Steps rep.chunk_id s.db)
      go (source ∷ others) e =
          rw (e, recover_replica)
            (copy_from-Steps online rep.chunk_id _ (node_of nodes source.node_id) s known)

  recover_replicas-Steps :
      (online nodes : List NodeModel) (reps : List ChunkReplicaModel) (counts : ℕ × ℕ) (s : State W)
      → AreRegistered online s.db
      → Steps s.db (recover_replicas env online nodes reps counts s).1.db
  unfolding recover_replicas
  recover_replicas-Steps online nodes [] counts s known = stay
  recover_replicas-Steps online nodes (rep ∷ reps) counts s known =
      let first = recover_replica-Steps online nodes rep s known in
      Steps-trans first (
        recover_replicas-Steps online nodes reps _ (recover_replica env online nodes rep s).1
          (AreRegistered-Steps online first known))

  finish_recovery-Steps :
      (failed : Text) (counts : ℕ × ℕ) (s : State W)
      → Steps s.db (finish_recovery env failed (counts, s)).1.db
  unfolding finish_recovery
  finish_recovery-Steps failed (recovered, lost) s =
      let message = recovery_end_message failed recovered lost in
      let details = recovery_end_details failed recovered lost in
      bind-Steps (log_event env (end_event lost) message details)
        (λ u.
          pure (record {
            is_complete = lost == 0;
            recovered_chunks = recovered;
            failed_chunks = lost;
          }))
        s (log_event-Steps env (end_event lost) message details s) (λ u e. stay)

  recover_affected-Steps :
      (failed : Text) (reps : List ChunkReplicaModel) (s : State W)
      → Steps s.db (recover_affected env failed reps s).1.db
  unfolding recover_affected
  recover_affected-Steps failed [] s = stay
  recover_affected-Steps failed (r ∷ rs) s =
      let t = on_db (mark_missing failed (r ∷ rs)) s in
      let nodes = list_nodes t.db in
      let online = select (λ n. is_online n.status) nodes in
      let u = recover_replicas env online nodes (r ∷ rs) (0, 0) t in
      Steps-trans (mark_missing-Steps failed (r ∷ rs) s.db) (
        Steps-trans
          (recover_replicas-Steps online nodes (r ∷ rs) (0, 0) t
            (select-AreRegistered (λ n. is_online n.status) nodes t.db
              (list_nodes-AreRegistered t.db)))
          (finish_recovery-Steps failed u.0 u.1))

  pub recover_node_failure-Steps :
      (failed : Text) (s : State W) → Steps s.db (recover_node_failure env failed s).1.db
  unfolding recover_node_failure log_and_recover recover_chunks
  recover_node_failure-Steps failed s =
      let t = on_db (update_node_status failed NodeStatus.offline) s in
      let log_offline =
        log_event env EventType.node_offline (offline_message failed) (node_details failed) in
      let log_start =
        log_event env EventType.recovery_started (recovery_start_message failed)
          (node_details failed) in
      let u = (log_offline t).1 in
      let v = (log_start u).1 in
      Steps-trans (one-Step (node_status_written failed NodeStatus.offline)) (
        bind-Steps log_offline (λ x. log_and_recover env failed) t
          (log_event-Steps env EventType.node_offline (offline_message failed) (node_details failed)
            t)
          (λ x e.
            bind-Steps log_start (λ y. recover_chunks env failed) u
              (log_event-Steps env EventType.recovery_started (recovery_start_message failed)
                (node_details failed) u)
              (λ y k. recover_affected-Steps failed (get_replicas_for_node failed v.db) v)))
