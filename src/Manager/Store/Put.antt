-- ===== src/Manager/Store/Put.antt =====
-- services/storage_manager.py: the nodes after one chunk of an upload.
use air_store.Prelude.{
  ℕ, ◌+◌, ◌≡◌, ◌⊎◌, refl, sym, ap, ◌∙◌, Text, Bytes, Bool, true, false, Option, some, List, [], ◌∷◌,
  All, Bool-cases, inl, inr, arith,
}
use mathlib.Core.Path.{subst}
use air_store.Core.Exec.{ok, Exec, ◌>>◌, modify}
use air_store.Core.Exec.Laws.{>>=-eq-ok}
use air_store.Core.Models.{NodeModel, ChunkModel, ReplicaStatus}
use air_store.Node.Handlers.{Reply, no_reply, response, is_success}
use air_store.Database.{add_replica}
use air_store.Manager.Env.{Env, State, address_of, on_db}
use air_store.Manager.Reconcile.{is_verified}
use air_store.Manager.Store.{StoreView, IsStore, succeeds}
use air_store.Manager.Upload.{
  raise_for_status, already_exists, put_payload, hash_parameter, upload_replica, upload_replicas,
}

module _ {W : Type 0} (env : Env W) {contract : StoreView W}
    (store : IsStore contract env.client env.sha256) where
  -- What the nodes hold under other file names, or with the same payload, they still hold.
  abbrev pub Keeps : Text → Bytes → W → W → Type 0
  Keeps chunk_id payload a b =
      (node : _) (other_id : Text) (bytes : Bytes)
      → contract.view a node other_id ≡ some bytes
      → (contract.name other_id ≡ contract.name chunk_id → bytes ≡ payload)
      → contract.view b node other_id ≡ some bytes

  -- What the nodes hold that they did not hold before is the payload, under its file name.
  abbrev pub Adds : Text → Bytes → W → W → Type 0
  Adds chunk_id payload a b =
      (node : _) (other_id : Text) (bytes : Bytes)
      → contract.view b node other_id ≡ some bytes
      → (contract.view a node other_id ≡ some bytes)
        ⊎ ((contract.name other_id ≡ contract.name chunk_id) × (bytes ≡ payload))

  abbrev pub Writes : Text → Bytes → W → W → Type 0
  Writes chunk_id payload a b = Keeps chunk_id payload a b × Adds chunk_id payload a b

  -- A node that has anything under the id has the payload.
  abbrev pub HoldsOnly : Text → Bytes → W → Type 0
  HoldsOnly chunk_id payload net =
      (node : _) (bytes : Bytes) → contract.view net node chunk_id ≡ some bytes → bytes ≡ payload

  -- A node that took the payload holds it, and nothing else was lost or put anywhere.
  abbrev pub IsHeld : Text → Bytes → NodeModel → W → W → Type 0
  IsHeld chunk_id payload node a b =
      Writes chunk_id payload a b × (contract.view b (address_of node) chunk_id ≡ some payload)

  Writes-refl : (chunk_id : Text) (payload : Bytes) (a : W) → Writes chunk_id payload a a
  Writes-refl chunk_id payload a = ((λ node other b h q. h), (λ node other b h. inl h))

  Writes-trans :
      (chunk_id : Text) (payload : Bytes) (a b c : W)
      → Writes chunk_id payload a b
      → Writes chunk_id payload b c
      → Writes chunk_id payload a c
  Writes-trans chunk_id payload a b c p q = (
    (λ node other bytes h same. q.0 node other bytes (p.0 node other bytes h same) same),
    (λ node other bytes h. elim (q.1 node other bytes h) [
      | inl before ↦ p.1 node other bytes before
      | inr new ↦ inr new
    ]),
  )

  HoldsOnly-Adds :
      (chunk_id : Text) (payload : Bytes) (a b : W)
      → Adds chunk_id payload a b
      → HoldsOnly chunk_id payload a
      → HoldsOnly chunk_id payload b
  HoldsOnly-Adds chunk_id payload a b adds only node bytes h = elim (adds node chunk_id bytes h) [
    | inl before ↦ only node bytes before
    | inr (name, same) ↦ same
  ]

  some-injective : (a b : Bytes) → some a ≡ some b → a ≡ b
  some-injective a b h = cc h

  put-IsHeld :
      (chunk_id : Text) (payload : Bytes) (hash : Option Text) (node : NodeModel) (net : W)
      → let answer = env.client.put (address_of node) chunk_id payload hash net in
        succeeds answer.0 ≡ true → IsHeld chunk_id payload node net answer.1
  put-IsHeld chunk_id payload hash node net good = (
    (
      (λ other other_id bytes held same.
          elim (store.put-keeps (address_of node) chunk_id payload hash net other other_id) [
            | inl kept ↦ kept ∙ held
            | inr (named, written) ↦ written ∙ ap some (sym (same named))
          ]),
      (λ other other_id bytes held.
          elim (store.put-keeps (address_of node) chunk_id payload hash net other other_id) [
            | inl kept ↦ inl (sym kept ∙ held)
            | inr (named, written) ↦ inr (named, some-injective bytes payload (sym held ∙ written))
          ]),
    ),
    store.put-stores (address_of node) chunk_id payload hash net good,
  )

  raise_for_status-eq-ok :
      {A : Type 0} (reply : Reply A) (t : State W) {x : Unit {0}} {s' : State W}
      → raise_for_status reply t ≡ (ok x, s')
      → (succeeds reply ≡ true) × (t ≡ s')
  raise_for_status-eq-ok no_reply t h = absurd (ground arith)
  raise_for_status-eq-ok (response code body) t h = elim (Bool-cases (is_success code)) [
    | inl good ↦ (good, ground arith)
    | inr bad ↦ absurd (ground arith)
  ]

  put_payload-IsHeld :
      (encrypted : Bool) (chunk : ChunkModel) (payload : Bytes) (node : NodeModel) (s : State W)
      {x : Unit {0}} {s' : State W}
      → put_payload env encrypted chunk payload node false s ≡ (ok x, s')
      → IsHeld chunk.chunk_id payload node s.net s'.net
  unfolding put_payload
  put_payload-IsHeld encrypted chunk payload node s {x} {s'} h =
      let answer =
        env.client.put (address_of node) chunk.chunk_id payload (hash_parameter env encrypted chunk)
          s.net in
      let (good, same) = raise_for_status-eq-ok answer.0 (record s { net = answer.1 }) h in
      subst (λ (u : State W). IsHeld chunk.chunk_id payload node s.net u.net) same
        (put-IsHeld chunk.chunk_id payload (hash_parameter env encrypted chunk) node s.net good)

  -- A node that verified the chunk holds something under its id, so the payload.
  verified-IsHeld :
      (chunk : ChunkModel) (payload : Bytes) (node : NodeModel) (net : W)
      → HoldsOnly chunk.chunk_id payload net
      → is_verified (env.client.verify (address_of node) chunk.chunk_id chunk.sha256 net).0 ≡ true
      → IsHeld chunk.chunk_id payload node net
          (env.client.verify (address_of node) chunk.chunk_id chunk.sha256 net).1
  verified-IsHeld chunk payload node net only valid =
      let (bytes, held, hash) =
        store.verify-sound (address_of node) chunk.chunk_id chunk.sha256 net valid in
      let same : bytes ≡ payload = only (address_of node) bytes held in
      rw (store.verify-keeps (address_of node) chunk.chunk_id chunk.sha256 net)
        (Writes-refl chunk.chunk_id payload net, held ∙ ap some same)

  already_exists-IsHeld :
      (encrypted : Bool) (chunk : ChunkModel) (payload : Bytes) (node : NodeModel) (s : State W)
      {found : Bool} {t : State W}
      → HoldsOnly chunk.chunk_id payload s.net
      → already_exists env encrypted chunk node s ≡ (ok found, t)
      → Writes chunk.chunk_id payload s.net t.net
        × (found ≡ true → contract.view t.net (address_of node) chunk.chunk_id ≡ some payload)
  unfolding already_exists
  already_exists-IsHeld true chunk payload node s {found} {t} only h =
      let same : s ≡ t = ground arith in
      let none_found : false ≡ found = ground arith in
      rw (← same) (Writes-refl chunk.chunk_id payload s.net, λ e. absurd (ground (arith, e)))
  already_exists-IsHeld false chunk payload node s {found} {t} only h =
      let answer = env.client.verify (address_of node) chunk.chunk_id chunk.sha256 s.net in
      let same : answer.1 ≡ t.net = ground arith in
      let outcome : is_verified answer.0 ≡ found = ground arith in
      let untouched : s.net ≡ t.net =
        sym (store.verify-keeps (address_of node) chunk.chunk_id chunk.sha256 s.net) ∙ same in
      (
        rw (← untouched) (Writes-refl chunk.chunk_id payload s.net),
        λ e. rw (← same) (verified-IsHeld chunk payload node s.net only (outcome ∙ e)).1,
      )

  put_if_needed-IsHeld :
      (encrypted : Bool) (chunk : ChunkModel) (payload : Bytes) (node : NodeModel) (found : Bool)
      (s : State W) {x : Unit {0}} {s' : State W}
      → (found ≡ true → contract.view s.net (address_of node) chunk.chunk_id ≡ some payload)
      → put_payload env encrypted chunk payload node found s ≡ (ok x, s')
      → IsHeld chunk.chunk_id payload node s.net s'.net
  unfolding put_payload
  put_if_needed-IsHeld encrypted chunk payload node true s {x} {s'} there h =
      let same : s ≡ s' = ground arith in
      rw (← same) (Writes-refl chunk.chunk_id payload s.net, there refl)
  put_if_needed-IsHeld encrypted chunk payload node false s there h =
      put_payload-IsHeld encrypted chunk payload node s h

  upload_replica-IsHeld :
      (encrypted : Bool) (chunk : ChunkModel) (payload : Bytes) (num : ℕ) (node : NodeModel)
      (s : State W) {x : Unit {0}} {s' : State W}
      → HoldsOnly chunk.chunk_id payload s.net
      → upload_replica env encrypted chunk payload num node s ≡ (ok x, s')
      → IsHeld chunk.chunk_id payload node s.net s'.net
  unfolding upload_replica
  upload_replica-IsHeld encrypted chunk payload num node s {x} {s'} only h =
      let record_it : Exec (State W) (Unit {0}) = modify (λ s.
        on_db
          (add_replica (record {
            chunk_id = chunk.chunk_id;
            node_id = node.node_id;
            replica_number = num;
            status = ReplicaStatus.stored;
            created_at = s.now;
          }))
          s) in
      let (found, t, e, k) =
        >>=-eq-ok (already_exists env encrypted chunk node)
          (λ found. put_payload env encrypted chunk payload node found >> record_it) s h in
      let (writes, there) = already_exists-IsHeld encrypted chunk payload node s only e in
      let (u, t', e', k') =
        >>=-eq-ok (put_payload env encrypted chunk payload node found) (λ u. record_it) t k in
      let last : t'.net ≡ s'.net = ground arith in
      let (writes', held) = put_if_needed-IsHeld encrypted chunk payload node found t there e' in
      rw (← last) (Writes-trans chunk.chunk_id payload s.net t.net t'.net writes writes', held)

  -- Every target holds the payload.
  abbrev pub AreHeld : Text → Bytes → List NodeModel → W → Type 0
  AreHeld chunk_id payload targets net =
      All (λ n. contract.view net (address_of n) chunk_id ≡ some payload) targets

  AreHeld-Keeps :
      (chunk_id other_id : Text) (payload other : Bytes) (targets : List NodeModel) (a b : W)
      → Keeps other_id other a b
      → (contract.name chunk_id ≡ contract.name other_id → payload ≡ other)
      → AreHeld chunk_id payload targets a
      → AreHeld chunk_id payload targets b
  AreHeld-Keeps chunk_id other_id payload other [] a b keeps same h = tt
  AreHeld-Keeps chunk_id other_id payload other (n ∷ ns) a b keeps same h = (
    keeps (address_of n) chunk_id payload h.0 same,
    AreHeld-Keeps chunk_id other_id payload other ns a b keeps same h.1,
  )

  pub upload_replicas-AreHeld :
      (encrypted : Bool) (chunk : ChunkModel) (payload : Bytes) (num : ℕ) (nodes : List NodeModel)
      (s : State W) {x : Unit {0}} {s' : State W}
      → HoldsOnly chunk.chunk_id payload s.net
      → upload_replicas env encrypted chunk payload num nodes s ≡ (ok x, s')
      → Writes chunk.chunk_id payload s.net s'.net
        × HoldsOnly chunk.chunk_id payload s'.net
        × AreHeld chunk.chunk_id payload nodes s'.net
  unfolding upload_replicas
  upload_replicas-AreHeld encrypted chunk payload num [] s {x} {s'} only h =
      let same : s ≡ s' = cc h in rw (← same) (Writes-refl chunk.chunk_id payload s.net, only, tt)
  upload_replicas-AreHeld encrypted chunk payload num (node ∷ nodes) s {x} {s'} only h =
      let (u, t, e, k) =
        >>=-eq-ok (upload_replica env encrypted chunk payload num node)
          (λ u. upload_replicas env encrypted chunk payload (num + 1) nodes) s h in
      let (writes, held) = upload_replica-IsHeld encrypted chunk payload num node s only e in
      let (writes', only', rest) =
        upload_replicas-AreHeld encrypted chunk payload (num + 1) nodes t
          (HoldsOnly-Adds chunk.chunk_id payload s.net t.net writes.1 only) k in
      (
        Writes-trans chunk.chunk_id payload s.net t.net s'.net writes writes',
        only',
        (writes'.0 (address_of node) chunk.chunk_id payload held (λ e. refl), rest),
      )
