-- ===== src/Manager/Download/Fetch.antt =====
-- services/storage_manager.py: how a download fetches one chunk from the nodes that hold it.
use air_store.Prelude.{
  ◌≡◌, ◌≢◌, refl, ap, ◌∙◌, Text, text_eq, text_eq_iff, text_lt, Bytes, Bool, true, ◌&&◌, Option,
  none, some, List, [], ◌∷◌, any, select, Elem, Elem-select, ◌==◌, Bool-cases, inl, inr, arith,
}
use air_store.Prelude.Sort.Laws.{Elem-order_by}
use air_store.Core.Exec.{Result, ok, err}
use air_store.Core.Hashing.{calculate_bytes_hash}
use air_store.Core.Models.{
  NodeModel, ChunkModel, ChunkReplicaModel, ReplicaStatus, is_online, is_stored,
}
use air_store.Core.Encryption.{ChunkEncryptor}
use air_store.Database.{Database, is_replica, update_replica_status, get_replicas_for_chunk}
use air_store.Database.Rows.Laws.{any-update_where}
use air_store.Node.Handlers.{Reply, no_reply, response}
use air_store.Manager.Env.{Env, State, address_of, on_db}
use air_store.Manager.Recovery.{node_of}
use air_store.Manager.Recovery.Keep.{holds}
use air_store.Manager.Store.{StoreView, IsStore}
use air_store.Manager.Store.Put.{HoldsOnly}
use air_store.Manager.Download.{plaintext_of, check_bytes, check_reply, fetch_replica}

Elem-of_any :
    {A : Type 0} (p : A → Bool) (xs : List A) → any p xs ≡ true → (a : A) × Elem a xs × (p a ≡ true)
Elem-of_any p [] h = absurd (ground arith)
Elem-of_any p (x ∷ xs) h = elim (Bool-cases (p x)) [
  | inl here ↦ (x, inl refl, here)
  | inr apart ↦ (let (a, e, q) = Elem-of_any p xs (ground arith) in (a, inr e, q))
]

-- A node that holds a chunk is among the stored replicas that a download goes through.
pub holds-Elem :
    (chunk_id node_id : Text) (db : Database)
    → holds chunk_id node_id db ≡ true
    → (r : ChunkReplicaModel) × Elem r
        (select (λ r. is_stored r.status) (get_replicas_for_chunk chunk_id db))
      × (r.node_id ≡ node_id)
unfolding get_replicas_for_chunk
holds-Elem chunk_id node_id db h =
    let (r, e, q) =
      Elem-of_any (λ r. is_replica chunk_id node_id r && is_stored r.status) db.chunk_replicas h in
    (
      r,
      Elem-select (λ r. is_stored r.status) r _
          (Elem-order_by (λ a b. text_lt a.node_id b.node_id) r
            (select (λ r. text_eq r.chunk_id chunk_id) db.chunk_replicas)
            (Elem-select (λ r. text_eq r.chunk_id chunk_id) r db.chunk_replicas e (ground arith)))
          (ground arith),
      ground (arith, text_eq_iff r.node_id node_id),
    )

module _ {W : Type 0} where
  -- What fetching one chunk may change: only the status of its own replicas.
  pub record IsQuiet (chunk_id : Text) (s t : State W) : Type 0 where
    pub net : t.net ≡ s.net
    pub events : t.db.events ≡ s.db.events
    pub uuids : t.uuids ≡ s.uuids
    pub others :
        (other node_id : Text)
        → other ≢ chunk_id
        → holds other node_id s.db ≡ true
        → holds other node_id t.db ≡ true

  pub IsQuiet-refl : (chunk_id : Text) (s : State W) → IsQuiet chunk_id s s
  IsQuiet-refl chunk_id s = record {
    net = refl;
    events = refl;
    uuids = refl;
    others = λ other node_id ne h. h;
  }

  pub IsQuiet-trans :
      (chunk_id : Text) (s t u : State W)
      → IsQuiet chunk_id s t
      → IsQuiet chunk_id t u
      → IsQuiet chunk_id s u
  IsQuiet-trans chunk_id s t u p q = record {
    net = q.net ∙ p.net;
    events = q.events ∙ p.events;
    uuids = q.uuids ∙ p.uuids;
    others = λ other node_id ne h. q.others other node_id ne (p.others other node_id ne h);
  }

  update_replica_status-IsQuiet :
      (chunk_id node_id : Text) (status : ReplicaStatus) (s : State W)
      → IsQuiet chunk_id s (on_db (update_replica_status chunk_id node_id status) s)
  unfolding update_replica_status
  update_replica_status-IsQuiet chunk_id node_id status s = record {
    net = refl;
    events = refl;
    uuids = refl;
    others = λ other n ne h.
        any-update_where (is_replica chunk_id node_id) _ _ s.db.chunk_replicas
          (λ r here there.
            absurd
              (ne (ground (arith, text_eq_iff r.chunk_id chunk_id, text_eq_iff r.chunk_id other))))
          h;
  }

module _ {W : Type 0} (env : Env W) {contract : StoreView W}
    (store : IsStore contract env.client env.sha256) (encryptor : Option ChunkEncryptor)
    (nodes : List NodeModel) where
  -- One of the nodes is ONLINE and holds a payload of these bytes, and no node holds another one.
  pub record IsReadable (chunk : ChunkModel) (bytes : Bytes) (net : W) : Type 0 where
    pub node : NodeModel
    pub payload : Bytes
    pub found : node_of nodes node.node_id ≡ some node
    pub online : is_online node.status ≡ true
    pub held : contract.view net (address_of node) chunk.chunk_id ≡ some payload
    pub plain : plaintext_of env encryptor payload ≡ ok bytes
    pub accepted : contract.accepts chunk.chunk_id ≡ true
    pub only : HoldsOnly env store chunk.chunk_id payload net

  pub IsReadable-net :
      (chunk : ChunkModel) (bytes : Bytes) (a b : W)
      → b ≡ a
      → (h : IsReadable chunk bytes a) → (k : IsReadable chunk bytes b) × (k.node ≡ h.node)
  IsReadable-net chunk bytes a b same h = (
    record {
      node = h.node;
      payload = h.payload;
      found = h.found;
      online = h.online;
      held = rw same h.held;
      plain = h.plain;
      accepted = h.accepted;
      only = rw same h.only;
    },
    refl,
  )

  -- That node is recorded with the chunk, too.
  abbrev pub IsServed : ChunkModel → Bytes → State W → Type 0
  IsServed chunk bytes s =
      (h : IsReadable chunk bytes s.net) × (holds chunk.chunk_id h.node.node_id s.db ≡ true)

  pub IsServed-IsQuiet :
      (chunk : ChunkModel) (bytes : Bytes) (chunk_id : Text) (s t : State W)
      → chunk.chunk_id ≢ chunk_id
      → IsQuiet chunk_id s t
      → IsServed chunk bytes s
      → IsServed chunk bytes t
  IsServed-IsQuiet chunk bytes chunk_id s t ne quiet (h, stored) =
      let (k, same) = IsReadable-net chunk bytes s.net t.net quiet.net h in
      (k, quiet.others chunk.chunk_id k.node.node_id ne (rw same stored))

  check_reply-IsQuiet :
      (chunk : ChunkModel) (node : NodeModel) (reply : Reply Bytes) (s : State W)
      → IsQuiet chunk.chunk_id s (check_reply env encryptor chunk node reply s).1
  unfolding check_reply check_bytes
  check_reply-IsQuiet chunk node no_reply s = IsQuiet-refl chunk.chunk_id s
  check_reply-IsQuiet chunk node (response code raw) s = elim (Bool-cases (code == 200)) [
    | inr bad ↦ rw bad (IsQuiet-refl chunk.chunk_id s)
    | inl good ↦ rw good (go (plaintext_of env encryptor raw))
  ]
    where
      go : (r : Result Bytes) → IsQuiet chunk.chunk_id s (check_bytes env chunk node r s).1
      go (err e) = IsQuiet-refl chunk.chunk_id s
      go (ok plain) =
          elim (Bool-cases (text_eq (calculate_bytes_hash env.sha256 plain) chunk.sha256)) [
            | inl same ↦ rw same (IsQuiet-refl chunk.chunk_id s)
            | inr differs ↦ rw differs (
                update_replica_status-IsQuiet chunk.chunk_id node.node_id ReplicaStatus.corrupted s)
          ]

  pub fetch_replica-IsQuiet :
      (chunk : ChunkModel) (node : Option NodeModel) (s : State W)
      → IsQuiet chunk.chunk_id s (fetch_replica env encryptor chunk node s).1
  unfolding fetch_replica
  fetch_replica-IsQuiet chunk none s = IsQuiet-refl chunk.chunk_id s
  fetch_replica-IsQuiet chunk (some node) s =
      let answer = env.client.get (address_of node) chunk.chunk_id s.net in
      let s1 = record s { net = answer.1 } in
      let asked : IsQuiet chunk.chunk_id s s1 = record {
        net = store.get-keeps (address_of node) chunk.chunk_id s.net;
        events = refl;
        uuids = refl;
        others = λ other n ne h. h;
      } in
      elim (Bool-cases (is_online node.status)) [
        | inl up ↦
            rw up (
              IsQuiet-trans chunk.chunk_id s s1 _ asked
                (check_reply-IsQuiet chunk node answer.0 s1))
        | inr down ↦ rw down (IsQuiet-refl chunk.chunk_id s)
      ]

  pub fetch_replica-delivers :
      (chunk : ChunkModel) (bytes : Bytes) (s : State W)
      → chunk.sha256 ≡ env.sha256 bytes
      → (h : IsReadable chunk bytes s.net)
      → (fetch_replica env encryptor chunk (some h.node) s).0 ≡ some bytes
  unfolding fetch_replica check_reply check_bytes calculate_bytes_hash
  fetch_replica-delivers chunk bytes s hashed h =
      let reads =
        store.get-reads (address_of h.node) chunk.chunk_id s.net h.payload h.accepted h.held in
      ground (arith, reads, h.online, h.plain, text_eq_iff (env.sha256 bytes) chunk.sha256, hashed)

  -- What any node delivers for such a chunk is its bytes.
  check_reply-delivered :
      (chunk : ChunkModel) (bytes payload : Bytes) (node : NodeModel) (reply : Reply Bytes)
      (s : State W) {other : Bytes}
      → ((raw : Bytes) → reply ≡ response 200 raw → raw ≡ payload)
      → plaintext_of env encryptor payload ≡ ok bytes
      → (check_reply env encryptor chunk node reply s).0 ≡ some other
      → other ≡ bytes
  unfolding check_reply check_bytes
  check_reply-delivered chunk bytes payload node no_reply s sent plain h = absurd (ground arith)
  check_reply-delivered chunk bytes payload node (response code raw) s {other} sent plain h =
      elim (Bool-cases (code == 200)) [
        | inr bad ↦ absurd (ground arith)
        | inl good ↦
            (let status : code ≡ 200 = ground arith in
              let same : raw ≡ payload = sent raw (ap (λ c. response c raw) status) in
              go (plaintext_of env encryptor raw) (rw same plain) (rw (good, check_reply) at h))
      ]
    where
      go :
          (r : Result Bytes)
          → r ≡ ok bytes
          → (check_bytes env chunk node r s).0 ≡ some other
          → other ≡ bytes
      go (err e) k q = absurd (ground arith)
      go (ok plain) k q =
          elim (Bool-cases (text_eq (calculate_bytes_hash env.sha256 plain) chunk.sha256)) [
            | inl same ↦ ground arith
            | inr differs ↦ absurd (ground arith)
          ]

  pub fetch_replica-delivered :
      (chunk : ChunkModel) (bytes : Bytes) (node : Option NodeModel) (s : State W) {other : Bytes}
      → IsReadable chunk bytes s.net
      → (fetch_replica env encryptor chunk node s).0 ≡ some other
      → other ≡ bytes
  unfolding fetch_replica
  fetch_replica-delivered chunk bytes none s h k = absurd (ground arith)
  fetch_replica-delivered chunk bytes (some node) s h k =
      let answer = env.client.get (address_of node) chunk.chunk_id s.net in
      elim (Bool-cases (is_online node.status)) [
        | inr down ↦ absurd (ground arith)
        | inl up ↦
            check_reply-delivered chunk bytes h.payload node answer.0 (record s { net = answer.1 })
              (λ raw e.
                h.only (address_of node) raw
                  (store.get-sound (address_of node) chunk.chunk_id s.net raw e))
              h.plain (rw (up, fetch_replica) at k)
      ]
