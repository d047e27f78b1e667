-- ===== src/Node/Handlers/Safety.antt =====
-- node/main.py: what reaches the disk of a node, whatever the id that a request carries.
use air_store.Prelude.{
  ℕ, ◌≡◌, ◌≢◌, refl, Text, Bytes, true, false, Option, some, [], ◌∷◌, ◌++◌, select, any, All, negb,
  ap, ◌||◌, ◌==◌, arith, All-select, Bool-cases, inl, inr, ◌⊎◌, if◌then◌else◌, codes, text_eq_iff,
  length,
}
use air_store.Core.Exec.{Error, ok, err, http_status}
use air_store.Core.Hashing.{calculate_bytes_hash}
use air_store.Node.Disk.{Disk}
use air_store.Node.Engine.{Platform, is_safe, safe_id, get_chunk_path, hash_agrees, retrieve_chunk}
use air_store.Node.Engine.Laws.{store_chunk_agrees, store_chunk_differs}
use air_store.Node.Handlers.{
  has_double_dot, is_traversal, store_chunk, Reply, no_reply, response, replicate_chunk, is_success,
}

-- `str.isalnum` is false of the dot and of both slashes.
pub record IsPlatform (p : Platform) : Type 0 where
  pub dot : p.is_alnum b'.' ≡ false
  pub slash : p.is_alnum b'/' ≡ false
  pub backslash : p.is_alnum 92 ≡ false

-- Without dots there are no two dots, also before the suffix.
no_double_dot :
    (xs : Text) → All (λ c. (c == b'.') ≡ false) xs → has_double_dot (xs ++ codes ".chunk") ≡ false
unfolding has_double_dot
no_double_dot [] h = refl
no_double_dot (x ∷ []) h = ground arith
no_double_dot (x ∷ (y ∷ ys)) h = ground (arith, no_double_dot (y ∷ ys) h.1)

no_char :
    (c : ℕ) (xs ys : Text)
    → All (λ d. (d == c) ≡ false) xs
    → any (λ d. d == c) ys ≡ false
    → any (λ d. d == c) (xs ++ ys) ≡ false
no_char c [] ys h k = k
no_char c (x ∷ xs) ys h k = ground (arith, no_char c xs ys h.1)

pub safe-ne :
    (p : Platform) (c : ℕ)
    → p.is_alnum c ≡ false
    → (c == b'-') ≡ false
    → (c == b'_') ≡ false
    → (xs : Text) → All (λ d. is_safe p d ≡ true) xs
    → All (λ d. (d == c) ≡ false) xs
unfolding is_safe
safe-ne p c a b e [] h = tt
safe-ne p c a b e (x ∷ xs) h = (
  elim (Bool-cases (x == c)) [
    | inl same ↦ (let eq : x ≡ c = ground arith in absurd (ground (arith, ap p.is_alnum eq)))
    | inr other ↦ other
  ],
  safe-ne p c a b e xs h.1,
)

-- Whatever id a request carries, and also on the routes that do not test it, the name of the file
-- that a node touches contains no "/", no "\" and no "..".
pub get_chunk_path_confined :
    (p : Platform) (chunk_id : Text)
    → IsPlatform p
    → is_traversal (get_chunk_path p chunk_id) ≡ false
unfolding get_chunk_path safe_id is_traversal
get_chunk_path_confined p chunk_id law =
    let safe = All-select (is_safe p) chunk_id in
    let xs = select (is_safe p) chunk_id in
    ground (
      arith,
      no_double_dot xs (safe-ne p b'.' law.dot refl refl xs safe),
      no_char b'/' xs (codes ".chunk") (safe-ne p b'/' law.slash refl refl xs safe) refl,
      no_char 92 xs (codes ".chunk") (safe-ne p 92 law.backslash refl refl xs safe) refl,
    )

-- PUT: an id with a path traversal, or a body that does not have the hash that was asked for, is
-- answered by 400 and leaves the disk as it was; otherwise the body is stored, its length is
-- returned, and it is what the node reads back.
pub store_chunk_outcomes :
    (p : Platform) (chunk_id : Text) (body : Bytes) (sha256 : Option Text) (disk : Disk)
    → let (r, disk') = store_chunk p chunk_id body sha256 disk in
      if is_traversal chunk_id || negb (hash_agrees p body sha256)
      then (r ≡ err (http_status 400)) × (disk' ≡ disk)
      else (r ≡ ok (length body)) × (retrieve_chunk p chunk_id disk' ≡ ok body)
unfolding store_chunk
store_chunk_outcomes p chunk_id body sha256 disk = elim (Bool-cases (is_traversal chunk_id)) [
  | inl bad ↦ rw bad (refl, refl)
  | inr fine ↦ elim (Bool-cases (hash_agrees p body sha256)) [
    | inl agrees ↦
        rw (fine, agrees) (ground (arith, store_chunk_agrees p chunk_id body sha256 disk))
    | inr differs ↦
        rw (fine, differs) (ground (arith, store_chunk_differs p chunk_id body sha256 disk))
  ]
]

-- POST /replicate: if it returns, then the source node answered with a 2xx, the bytes that it sent
-- have the hash of the request, and they are what the node now holds; if it raises, the disk is as
-- before. The request carries a hash.
pub replicate_chunk_verified :
    (p : Platform) (chunk_id source_node_url sha256 : Text) (fetched : Reply Bytes) (disk : Disk)
    → sha256 ≢ []
    → let (r, disk') = replicate_chunk p chunk_id source_node_url sha256 fetched disk in
      ((code : ℕ) × (bytes : Bytes) × (fetched ≡ response code bytes)
        × (is_success code ≡ true)
        × (p.sha256 bytes ≡ sha256)
        × (r ≡ ok (length bytes))
        × (retrieve_chunk p chunk_id disk' ≡ ok bytes))
      ⊎ ((e : Error) × (r ≡ err e) × (disk' ≡ disk))
unfolding replicate_chunk
replicate_chunk_verified p [] url [] fetched disk ne = absurd (ne refl)
replicate_chunk_verified p [] url (h ∷ hs) fetched disk ne = inr (http_status 400, refl, refl)
replicate_chunk_verified p (c ∷ cs) [] sha256 fetched disk ne = inr (http_status 400, refl, refl)
replicate_chunk_verified p (c ∷ cs) (u ∷ us) sha256 no_reply disk ne =
    inr (http_status 500, refl, refl)
replicate_chunk_verified p (c ∷ cs) (u ∷ us) [] (response code bytes) disk ne = absurd (ne refl)
replicate_chunk_verified p (c ∷ cs) (u ∷ us) (h ∷ hs) (response code bytes) disk ne =
    elim (Bool-cases (is_success code)) [
      | inr bad ↦ inr (http_status 500, ground arith, ground arith)
      | inl good ↦ elim (Bool-cases (hash_agrees p bytes (some (h ∷ hs)))) [
        | inl agrees ↦
            (let here = store_chunk_agrees p (c ∷ cs) bytes (some (h ∷ hs)) disk agrees in
              inl (
                code,
                bytes,
                refl,
                good,
                unfold hash_agrees calculate_bytes_hash in
                    ground (arith, text_eq_iff (p.sha256 bytes) (h ∷ hs)),
                ground (arith, here.0),
                ground (arith, here.1),
              ))
        | inr differs ↦
            (let same = store_chunk_differs p (c ∷ cs) bytes (some (h ∷ hs)) disk differs in
              inr (http_status 500, ground (arith, same), ground (arith, same)))
      ]
    ]
