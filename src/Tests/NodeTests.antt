-- ===== src/Tests/NodeTests.antt =====
-- One storage node at concrete inputs.
use air_store.Prelude.{
  ℕ, ◌≡◌, ◌≢◌, ◌⊎◌, ◌↔◌, refl, Text, text_eq, codes, Bytes, Bool, true, false, Option, ◌||◌, negb,
  none, some, [], ◌∷◌, length, if◌then◌else◌, ◌==◌, arith,
}
use air_store.Core.Exec.{Error, ok, err, file_not_found, http_status}
use air_store.Core.Hashing.{calculate_bytes_hash, hexdigest, update}
use air_store.Node.Disk.{Disk}
use air_store.Node.Engine.{
  get_chunk_path, safe_id, is_safe, hash_agrees, retrieve_chunk, store_chunk, verify_chunk,
  delete_chunk, chunk_exists,
}
use air_store.Node.Engine.Laws.{retrieve-store_chunk, verify_chunk_iff, delete_chunk_twice}
use air_store.Node.Handlers.{Reply, response, is_traversal, replicate_chunk, is_success}
use air_store.Node.Handlers
use air_store.Node.Handlers.Safety.{
  IsPlatform, get_chunk_path_confined, store_chunk_outcomes, replicate_chunk_verified,
}
use air_store.Node.Agent.{register}
use air_store.Node.Agent.Attempts.{IsDecided, register-IsDecided}
use air_store.Tests.Fixtures.{ascii_platform, content_abc}

abbrev k1 : Text
k1 = codes "k1"

abbrev k2 : Text
k2 = codes "k2"

-- A disk with the chunk k2.
abbrev small_disk : Disk
small_disk = (codes "k2.chunk", codes "xyz") ∷ []

abc_agrees : hash_agrees ascii_platform content_abc (some (codes "habc")) ≡ true
unfolding hash_agrees calculate_bytes_hash hexdigest update text_eq
abc_agrees = refl

paths_apart : get_chunk_path ascii_platform k1 ≢ get_chunk_path ascii_platform k2
unfolding get_chunk_path safe_id is_safe
paths_apart h = absurd (ground arith)

retrieve-store_chunk_example :
    let (r, disk') = store_chunk ascii_platform k1 content_abc (some (codes "habc")) small_disk in
    (r ≡ ok (length content_abc))
    × (retrieve_chunk ascii_platform k1 disk' ≡ ok content_abc)
    × (retrieve_chunk ascii_platform k2 disk' ≡ retrieve_chunk ascii_platform k2 small_disk)
retrieve-store_chunk_example =
    retrieve-store_chunk ascii_platform k1 content_abc (some (codes "habc")) small_disk k2
      abc_agrees paths_apart

verify_chunk_iff_example : (verify_chunk ascii_platform k2 (codes "hxyz") small_disk ≡ true) ↔ (
    (bytes : Bytes) × (retrieve_chunk ascii_platform k2 small_disk ≡ ok bytes)
    × (ascii_platform.sha256 bytes ≡ codes "hxyz"))
verify_chunk_iff_example = verify_chunk_iff ascii_platform k2 (codes "hxyz") small_disk

delete_chunk_twice_example :
    let (deleted, disk') = delete_chunk ascii_platform k2 small_disk in
    (deleted ≡ chunk_exists ascii_platform k2 small_disk)
    × (retrieve_chunk ascii_platform k2 disk' ≡ err file_not_found)
    × (delete_chunk ascii_platform k2 disk' ≡ (false, disk'))
delete_chunk_twice_example = delete_chunk_twice ascii_platform k2 small_disk

ascii_platform-IsPlatform : IsPlatform ascii_platform
ascii_platform-IsPlatform = record { dot = refl; slash = refl; backslash = refl }

get_chunk_path_confined_example :
    is_traversal (get_chunk_path ascii_platform (codes "../k")) ≡ false
get_chunk_path_confined_example =
    get_chunk_path_confined ascii_platform (codes "../k") ascii_platform-IsPlatform

store_chunk_outcomes_example :
    let (r, disk') = Handlers.store_chunk ascii_platform k1 content_abc none small_disk in
    if is_traversal k1 || negb (hash_agrees ascii_platform content_abc none)
    then (r ≡ err (http_status 400)) × (disk' ≡ small_disk)
    else (r ≡ ok (length content_abc)) × (retrieve_chunk ascii_platform k1 disk' ≡ ok content_abc)
store_chunk_outcomes_example = store_chunk_outcomes ascii_platform k1 content_abc none small_disk

hash_given : codes "habc" ≢ []
hash_given h = absurd (ground arith)

replicate_chunk_verified_example :
    let (r, disk') =
      replicate_chunk ascii_platform k1
        (codes "http://b")
        (codes "habc")
        (response 200 content_abc)
        small_disk in
    ((code : ℕ) × (bytes : Bytes) × (response 200 content_abc ≡ response code bytes)
      × (is_success code ≡ true)
      × (ascii_platform.sha256 bytes ≡ codes "habc")
      × (r ≡ ok (length bytes))
      × (retrieve_chunk ascii_platform k1 disk' ≡ ok bytes))
    ⊎ ((e : Error) × (r ≡ err e) × (disk' ≡ small_disk))
replicate_chunk_verified_example =
    replicate_chunk_verified ascii_platform k1 (codes "http://b") (codes "habc")
      (response 200 content_abc) small_disk hash_given

-- The first answer is no JSON, the second is accepted.
abbrev second_accepted : ℕ → Reply (Option Bool)
second_accepted attempt = if attempt == 2 then response 200 (some true) else response 200 none

register-IsDecided_example : IsDecided second_accepted 1 3 (register 3 second_accepted)
register-IsDecided_example = register-IsDecided 3 second_accepted
