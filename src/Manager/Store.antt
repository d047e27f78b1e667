-- ===== src/Manager/Store.antt =====
-- What the manager relies on of the storage nodes behind their HTTP interface: a chunk that a node
-- accepted is what the node answers with, until something is put under the same file name.
pub mod Put
pub mod Chunks
use air_store.Prelude.{◌≡◌, ◌⊎◌, Text, Bytes, Bool, true, false, Option, some}
use air_store.Node.Handlers.{Reply, no_reply, response, is_success}
use air_store.Manager.Env.{NodeClient, Address}
use air_store.Manager.Reconcile.{is_verified}

-- The answer has a status that `raise_for_status` lets through.
abbrev pub succeeds : {A : Type 0} → Reply A → Bool
succeeds no_reply = false
succeeds (response code body) = is_success code

-- `view` is what a reachable node holds under a chunk id, `name` the name of the file of a chunk,
-- and `accepts` says whether the routes take the id.
pub record StoreView (W : Type 0) : Type 0 where
  pub view : W → Address → Text → Option Bytes
  pub name : Text → Text
  pub accepts : Text → Bool

pub record IsStore {W : Type 0} (contract : StoreView W) (client : NodeClient W)
    (sha256 : Bytes → Text) : Type 0 where
  pub verify-keeps :
      (node : Address) (chunk_id hash : Text) (net : W)
      → (client.verify node chunk_id hash net).1 ≡ net
  pub verify-sound :
      (node : Address) (chunk_id hash : Text) (net : W)
      → is_verified (client.verify node chunk_id hash net).0 ≡ true
      → (bytes : Bytes) × (contract.view net node chunk_id ≡ some bytes) × (sha256 bytes ≡ hash)
  pub put-stores :
      (node : Address) (chunk_id : Text) (payload : Bytes) (hash : Option Text) (net : W)
      → succeeds (client.put node chunk_id payload hash net).0 ≡ true
      → contract.view (client.put node chunk_id payload hash net).1 node chunk_id ≡ some payload
  pub put-keeps :
      (node : Address) (chunk_id : Text) (payload : Bytes) (hash : Option Text) (net : W)
      (other : Address) (other_id : Text)
      → let net' = (client.put node chunk_id payload hash net).1 in
        (contract.view net' other other_id ≡ contract.view net other other_id)
        ⊎ ((contract.name other_id ≡ contract.name chunk_id)
            × (contract.view net' other other_id ≡ some payload))
  pub get-keeps :
      (node : Address) (chunk_id : Text) (net : W) → (client.get node chunk_id net).1 ≡ net
  pub get-reads :
      (node : Address) (chunk_id : Text) (net : W) (bytes : Bytes)
      → contract.accepts chunk_id ≡ true
      → contract.view net node chunk_id ≡ some bytes
      → (client.get node chunk_id net).0 ≡ response 200 bytes
  pub get-sound :
      (node : Address) (chunk_id : Text) (net : W) (bytes : Bytes)
      → (client.get node chunk_id net).0 ≡ response 200 bytes
      → contract.view net node chunk_id ≡ some bytes
