-- ===== src/Node/Handlers.antt =====
-- airstore/node/main.py: the HTTP handlers of a storage node. An `HTTPException` is `http_status`.
pub mod Safety
use air_store.Prelude.{
  ℕ, Text, Bytes, Bool, true, false, ◌&&◌, ◌||◌, Option, some, [], ◌∷◌, any, leb, ltb, ◌==◌,
  if◌then◌else◌,
}
use air_store.Core.Exec.{Result, ok, err, http_status, file_not_found}
use air_store.Node.Disk.{Disk}
use air_store.Node.Engine.{Platform}
use air_store.Node.Engine

-- `".." in chunk_id`
unfoldable pub has_double_dot : Text → Bool
has_double_dot [] = false
has_double_dot (c ∷ []) = false
has_double_dot (c ∷ (d ∷ cs)) = (c == b'.' && d == b'.') || has_double_dot (d ∷ cs)

-- `".." in chunk_id or "/" in chunk_id or "\\" in chunk_id`
unfoldable pub is_traversal : Text → Bool
unfolding has_double_dot
is_traversal chunk_id =
    has_double_dot chunk_id || (any (λ c. c == b'/') chunk_id || any (λ c. c == 92) chunk_id)

-- `except Exception as e: raise HTTPException(status_code=status)`
abbrev pub or_http {ℓ} : {A : Type ℓ} → ℕ → Result A → Result A
or_http code (ok a) = ok a
or_http code (err e) = err (http_status code)

-- PUT /chunks/{chunk_id}
unfoldable pub store_chunk : Platform → Text → Bytes → Option Text → Disk → Result ℕ × Disk
store_chunk p chunk_id body sha256 disk =
    if is_traversal chunk_id
    then (err (http_status 400), disk)
    else let (r, disk') = Engine.store_chunk p chunk_id body sha256 disk in (or_http 400 r, disk')

-- GET /chunks/{chunk_id}
abbrev missing_is_404 : Result Bytes → Result Bytes
missing_is_404 (ok bytes) = ok bytes
missing_is_404 (err file_not_found) = err (http_status 404)
missing_is_404 (err _) = err (http_status 500)

unfoldable pub get_chunk : Platform → Text → Disk → Result Bytes
get_chunk p chunk_id disk =
    if is_traversal chunk_id
    then err (http_status 400)
    else missing_is_404 (Engine.retrieve_chunk p chunk_id disk)

-- DELETE /chunks/{chunk_id}
unfoldable pub delete_chunk : Platform → Text → Disk → Result Bool × Disk
delete_chunk p chunk_id disk =
    let (deleted, disk') = Engine.delete_chunk p chunk_id disk in
    (if deleted then ok true else err (http_status 404), disk')

-- GET /chunks/{chunk_id}/verify
unfoldable pub verify_chunk : Platform → Text → Text → Disk → Bool
verify_chunk p chunk_id sha256 disk = Engine.verify_chunk p chunk_id sha256 disk

-- What a call of httpx returns: a status with a body, or it raises.
pub data Reply (A : Type 0) : Type 0 where
  no_reply : Reply A
  response : ℕ → A → Reply A

-- `raise_for_status` lets the 2xx through.
abbrev pub is_success : ℕ → Bool
is_success code = leb 200 code && ltb code 300

-- POST /replicate. `fetched` is the GET of the chunk from the source node.
unfoldable pub replicate_chunk :
    Platform → Text → Text → Text → Reply Bytes → Disk → Result ℕ × Disk
replicate_chunk p [] source_node_url expected_sha256 fetched disk = (err (http_status 400), disk)
replicate_chunk p (c ∷ cs) [] expected_sha256 fetched disk = (err (http_status 400), disk)
replicate_chunk p (c ∷ cs) (u ∷ us) expected_sha256 no_reply disk = (err (http_status 500), disk)
replicate_chunk p (c ∷ cs) (u ∷ us) expected_sha256 (response code chunk_data) disk =
    if is_success code
    then (let (r, disk') = Engine.store_chunk p (c ∷ cs) chunk_data (some expected_sha256) disk in
        (or_http 500 r, disk'))
    else (err (http_status 500), disk)
