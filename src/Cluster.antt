-- ===== src/Cluster.antt =====
-- The storage nodes of airstore/node/main.py behind the requests of the manager: every address has
-- a disk, and a request that reaches a node runs its handler. Which nodes answer is a parameter.
pub mod Names
pub mod Laws
use air_store.Prelude.{
  ℕ, Text, text_eq, codes, Bytes, Bool, ◌&&◌, Option, [], ◌++◌, ◌==◌, if◌then◌else◌,
}
use air_store.Core.Exec.{Result, ok, err, http_status}
use air_store.Core.Formatting.{decimal}
use air_store.Node.Disk.{Disk}
use air_store.Node.Engine.{Platform}
use air_store.Node.Handlers.{Reply, no_reply, response}
use air_store.Node.Handlers
use air_store.Manager.Env.{Address, NodeClient}

abbrev pub Disks : Type 0
Disks = Address → Disk

abbrev pub same_address : Address → Address → Bool
same_address a b = text_eq a.0 b.0 && a.1 == b.1

-- What the disks are after the one at `node` has changed.
abbrev pub with_disk : Address → Disk → Disks → Disks
with_disk node disk disks other = if same_address node other then disk else disks other

-- The status that FastAPI sends for what a handler returned or raised.
abbrev pub status_of : {A : Type 0} → Result A → ℕ
status_of (ok a) = 200
status_of (err (http_status code)) = code
status_of (err e) = 500

abbrev pub body_of : Result Bytes → Bytes
body_of (ok bytes) = bytes
body_of (err e) = []

-- The URL of a node in the manager's requests.
abbrev pub url_of : Address → Text
url_of node = codes "http://" ++ (node.0 ++ (codes ":" ++ decimal node.1))

module _ (p : Platform) (up : Address → Bool) where
  unfoldable pub get_from : Address → Text → Disks → Reply Bytes
  get_from node chunk_id disks =
      let r = Handlers.get_chunk p chunk_id (disks node) in
      if up node then response (status_of r) (body_of r) else no_reply

  unfoldable pub put_on : Address → Text → Bytes → Option Text → Disks → Reply Unit × Disks
  put_on node chunk_id payload sha256 disks =
      let (r, disk) = Handlers.store_chunk p chunk_id payload sha256 (disks node) in
      if up node then (response (status_of r) tt, with_disk node disk disks) else (no_reply, disks)

  unfoldable pub verify_on : Address → Text → Text → Disks → Reply Bool
  verify_on node chunk_id sha256 disks =
      if up node
      then response 200 (Handlers.verify_chunk p chunk_id sha256 (disks node))
      else no_reply

  unfoldable pub delete_on : Address → Text → Disks → Reply Unit × Disks
  delete_on node chunk_id disks =
      let (r, disk) = Handlers.delete_chunk p chunk_id (disks node) in
      if up node then (response (status_of r) tt, with_disk node disk disks) else (no_reply, disks)

  -- The node that is asked to replicate fetches the chunk from the source node itself.
  unfoldable pub replicate_on : Address → Text → Address → Text → Disks → Reply Unit × Disks
  replicate_on node chunk_id source sha256 disks =
      let (r, disk) =
        Handlers.replicate_chunk p chunk_id (url_of source) sha256 (get_from source chunk_id disks)
          (disks node) in
      if up node then (response (status_of r) tt, with_disk node disk disks) else (no_reply, disks)

  unfoldable pub client : NodeClient Disks
  client = record {
    verify = λ node chunk_id sha256 disks. (verify_on node chunk_id sha256 disks, disks);
    put = put_on;
    get = λ node chunk_id disks. (get_from node chunk_id disks, disks);
    delete = delete_on;
    replicate = replicate_on;
  }
