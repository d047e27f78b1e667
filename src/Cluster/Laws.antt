-- ===== src/Cluster/Laws.antt =====
-- The handlers of the nodes, against what the manager relies on.
use air_store.Prelude.{
  ◌≡◌, ◌≢◌, refl, ap, ◌∙◌, ◌⊎◌, inl, inr, Text, text_eq, text_eq_iff, text_eq_refl, Bytes, Bool,
  true, negb, ◌||◌, Bool-cases, Option, none, some, if◌then◌else◌, arith,
}
use air_store.Core.Exec.{Result, ok, err}
use air_store.Node.Disk.{Disk}
use air_store.Node.Engine.{Platform, get_chunk_path, hash_agrees, retrieve_chunk}
use air_store.Node.Engine
use air_store.Node.Engine.Laws.{verify_chunk_iff, retrieve-store_chunk_ne}
use air_store.Node.Handlers.{response, is_traversal, store_chunk, get_chunk, verify_chunk}
use air_store.Node.Handlers.Safety.{store_chunk_outcomes}
use air_store.Manager.Env.{Address}
use air_store.Manager.Store.{StoreView, IsStore, succeeds}
use air_store.Manager.Reconcile.{is_verified}
use air_store.Cluster.{Disks, same_address, status_of, get_from, put_on, verify_on, client}

-- The chunk on a disk.
abbrev pub found : Result Bytes → Option Bytes
found (ok bytes) = some bytes
found (err e) = none

same_address-eq : (a b : Address) → same_address a b ≡ true → a ≡ b
same_address-eq (x, m) (y, n) h =
    let texts : x ≡ y = ground (arith, text_eq_iff x y) in
    let ports : m ≡ n = ground arith in rw (texts, ports) refl

same_address_refl : (a : Address) → same_address a a ≡ true
same_address_refl (x, m) = ground (arith, text_eq_refl x)

-- What a PUT does to the chunks of its node: it stores the body, or refuses it.
stored_lem :
    (p : Platform) (chunk_id : Text) (body : Bytes) (sha256 : Option Text) (disk : Disk)
    → let (r, disk') = store_chunk p chunk_id body sha256 disk in
      ((status_of r ≡ 400) × (disk' ≡ disk))
      ⊎ ((status_of r ≡ 200) × (retrieve_chunk p chunk_id disk' ≡ ok body))
stored_lem p chunk_id body sha256 disk =
    let outcome = store_chunk_outcomes p chunk_id body sha256 disk in
    elim (Bool-cases (is_traversal chunk_id || negb (hash_agrees p body sha256))) [
      | inl refused ↦ (let answer = rw refused at outcome in inl (ap status_of answer.0, answer.1))
      | inr taken ↦ (let answer = rw taken at outcome in inr (ap status_of answer.0, answer.1))
    ]

-- The other chunks of the node are as they were, unless they have the same file name.
others_lem :
    (p : Platform) (chunk_id other : Text) (body : Bytes) (sha256 : Option Text) (disk : Disk)
    → get_chunk_path p chunk_id ≢ get_chunk_path p other
    → retrieve_chunk p other (store_chunk p chunk_id body sha256 disk).1
      ≡ retrieve_chunk p other disk
unfolding store_chunk
others_lem p chunk_id other body sha256 disk ne =
    ground (arith, retrieve-store_chunk_ne p chunk_id body sha256 disk other ne)

retrieve-same_path :
    (p : Platform) (a b : Text) (disk : Disk)
    → get_chunk_path p a ≡ get_chunk_path p b
    → retrieve_chunk p a disk ≡ retrieve_chunk p b disk
unfolding retrieve_chunk
retrieve-same_path p a b disk same = rw (same, retrieve_chunk) refl

-- What a PUT of one chunk does to any chunk of the node.
put_lem :
    (p : Platform) (chunk_id other : Text) (body : Bytes) (sha256 : Option Text) (disk : Disk)
    → let disk' = (store_chunk p chunk_id body sha256 disk).1 in
      (found (retrieve_chunk p other disk') ≡ found (retrieve_chunk p other disk))
      ⊎ ((get_chunk_path p other ≡ get_chunk_path p chunk_id)
          × (found (retrieve_chunk p other disk') ≡ some body))
put_lem p chunk_id other body sha256 disk =
    let disk' = (store_chunk p chunk_id body sha256 disk).1 in
    elim (Bool-cases (text_eq (get_chunk_path p chunk_id) (get_chunk_path p other))) [
      | inr apart ↦ inl (
          ap found (
            others_lem p chunk_id other body sha256 disk (λ same.
              absurd (
                ground (arith, text_eq_iff (get_chunk_path p chunk_id) (get_chunk_path p other))))))
      | inl same ↦
          (let path : get_chunk_path p other ≡ get_chunk_path p chunk_id =
              ground (arith, text_eq_iff (get_chunk_path p chunk_id) (get_chunk_path p other)) in
            elim (stored_lem p chunk_id body sha256 disk) [
              | inl (code, kept) ↦ inl (ap (λ d. found (retrieve_chunk p other d)) kept)
              | inr (code, reads) ↦
                  inr (path, ap found (retrieve-same_path p other chunk_id disk' path ∙ reads))
            ])
    ]

module _ (p : Platform) (up : Address → Bool) where
  abbrev view : Disks → Address → Text → Option Bytes
  view disks node chunk_id =
      if up node then found (retrieve_chunk p chunk_id (disks node)) else none

  client-verify_sound :
      (node : Address) (chunk_id hash : Text) (disks : Disks)
      → is_verified (verify_on p up node chunk_id hash disks) ≡ true
      → (bytes : Bytes) × (view disks node chunk_id ≡ some bytes) × (p.sha256 bytes ≡ hash)
  unfolding verify_on verify_chunk
  client-verify_sound node chunk_id hash disks h = elim (Bool-cases (up node)) [
    | inr down ↦ absurd (ground arith)
    | inl answers ↦
        (let valid : Engine.verify_chunk p chunk_id hash (disks node) ≡ true = ground arith in
          let (bytes, there, digest) = (verify_chunk_iff p chunk_id hash (disks node)).0 valid in
          (bytes, ground arith, digest))
  ]

  client-put-stores :
      (node : Address) (chunk_id : Text) (payload : Bytes) (hash : Option Text) (disks : Disks)
      → succeeds (put_on p up node chunk_id payload hash disks).0 ≡ true
      → view (put_on p up node chunk_id payload hash disks).1 node chunk_id ≡ some payload
  unfolding put_on
  client-put-stores node chunk_id payload hash disks h = elim (Bool-cases (up node)) [
    | inr down ↦ absurd (ground arith)
    | inl answers ↦ elim (stored_lem p chunk_id payload hash (disks node)) [
      | inl (refused, same) ↦ absurd (ground arith)
      | inr (code, reads) ↦ ground (arith, same_address_refl node, reads)
    ]
  ]

  client-put-keeps :
      (node : Address) (chunk_id : Text) (payload : Bytes) (hash : Option Text) (disks : Disks)
      (other : Address) (other_id : Text)
      → let disks' = (put_on p up node chunk_id payload hash disks).1 in
        (view disks' other other_id ≡ view disks other other_id)
        ⊎ ((get_chunk_path p other_id ≡ get_chunk_path p chunk_id)
            × (view disks' other other_id ≡ some payload))
  unfolding put_on
  client-put-keeps node chunk_id payload hash disks other other_id = elim (Bool-cases (up node)) [
    | inr down ↦ inl (ground arith)
    | inl answers ↦ elim (Bool-cases (same_address node other)) [
      | inr apart ↦ inl (ground arith)
      | inl here ↦
          (let at_node = same_address-eq node other here in
            let ups : up node ≡ up other = ap up at_node in
            let disk : disks node ≡ disks other = ap disks at_node in
            elim (put_lem p chunk_id other_id payload hash (disks node)) [
              | inl same ↦
                  inl
                    (ground (arith, same, ups, ap (λ d. found (retrieve_chunk p other_id d)) disk))
              | inr (path, reads) ↦ inr (path, ground (arith, reads, ups))
            ])
    ]
  ]

  client-get-reads :
      (node : Address) (chunk_id : Text) (disks : Disks) (bytes : Bytes)
      → negb (is_traversal chunk_id) ≡ true
      → view disks node chunk_id ≡ some bytes
      → get_from p up node chunk_id disks ≡ response 200 bytes
  unfolding get_from get_chunk
  client-get-reads node chunk_id disks bytes accepted held = elim (Bool-cases (up node)) [
    | inr down ↦ absurd (ground arith)
    | inl answers ↦ go (retrieve_chunk p chunk_id (disks node)) refl
  ]
    where
      go :
          (r : Result Bytes)
          → retrieve_chunk p chunk_id (disks node) ≡ r
          → get_from p up node chunk_id disks ≡ response 200 bytes
      go (ok b) k = ground arith
      go (err e) k = absurd (ground arith)

  client-get_sound :
      (node : Address) (chunk_id : Text) (disks : Disks) (bytes : Bytes)
      → get_from p up node chunk_id disks ≡ response 200 bytes
      → view disks node chunk_id ≡ some bytes
  unfolding get_from get_chunk
  client-get_sound node chunk_id disks bytes h = elim (Bool-cases (up node)) [
    | inr down ↦ absurd (ground arith)
    | inl answers ↦ go (retrieve_chunk p chunk_id (disks node)) refl
  ]
    where
      go :
          (r : Result Bytes)
          → retrieve_chunk p chunk_id (disks node) ≡ r
          → view disks node chunk_id ≡ some bytes
      go (ok b) k = ground arith
      go (err e) k = absurd (ground arith)

  -- What the nodes that answer hold on their disks.
  abbrev pub disk_view : StoreView Disks
  disk_view = record {
    view = view;
    name = get_chunk_path p;
    accepts = λ chunk_id. negb (is_traversal chunk_id);
  }

  -- The handlers of the nodes, as a client reaches them, keep what the manager relies on: an
  -- accepted PUT leaves its payload on the disk, and changes no chunk with another file name; a
  -- chunk that a node verifies is on its disk with that hash; a GET of an id without a path
  -- traversal returns what is on the disk, and what a GET returns is there; and neither a GET nor a
  -- verification changes anything.
  pub client-IsStore : IsStore disk_view (client p up) p.sha256
  unfolding client
  client-IsStore = record {
    verify-keeps = λ node chunk_id hash net. refl;
    verify-sound = client-verify_sound;
    put-stores = client-put-stores;
    put-keeps = client-put-keeps;
    get-keeps = λ node chunk_id net. refl;
    get-reads = client-get-reads;
    get-sound = client-get_sound;
  }
