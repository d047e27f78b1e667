-- ===== src/Cluster/Names.antt =====
-- core/chunking.py and node/storage.py: the file names of the chunks of a file on a node.
use air_store.Prelude.{
  ℕ, ◌+◌, ◌<◌, ◌≡◌, ◌≢◌, refl, sym, ap, ◌∙◌, Text, codes, Bool, true, false, negb, [], ◌∷◌, ◌++◌,
  length, length-append, any, All, ◌==◌, arith,
}
use air_store.Core.Encryption.{nonce_size}
use air_store.Core.Encryption.Roundtrip.{IsAesGcm}
use air_store.Core.Formatting.{chunk_id_of}
use air_store.Core.Formatting.Digits.{chunk_id_of-injective, All-chunk_id_of}
use air_store.Node.Engine.{Platform, is_safe, safe_id, get_chunk_path}
use air_store.Node.Handlers.{has_double_dot, is_traversal}
use air_store.Node.Handlers.Safety.{IsPlatform, safe-ne}
use air_store.Manager.Env.{Address, Env}
use air_store.Manager.Roundtrip.{IsCluster}
use air_store.Cluster.{Disks, client}
use air_store.Cluster.Laws.{disk_view, client-IsStore}

-- `str.isalnum` is true of the digits and of the letters of "chunk".
pub record IsAscii (p : Platform) : Type 0 where
  pub digits : (d : ℕ) → d < 10 → p.is_alnum (b'0' + d) ≡ true
  pub letters : All (λ c. p.is_alnum c ≡ true) (codes "chunk")

module _ (p : Platform) where
  -- An id that the node keeps whole in the name of the file.
  abbrev pub IsSafeId : Text → Type 0
  IsSafeId id = All (λ c. is_safe p c ≡ true) id

  chunk_id_of-IsSafeId :
      (file_id : Text) (i : ℕ) → IsAscii p → IsSafeId file_id → IsSafeId (chunk_id_of file_id i)
  unfolding is_safe
  chunk_id_of-IsSafeId file_id i ascii safe =
      let (c, (h, (u, (n, (k, end))))) = ascii.letters in
      All-chunk_id_of (λ x. is_safe p x ≡ true) file_id i
        (λ d less. ground (arith, ascii.digits d less))
        (
          ground arith,
          (
            ground arith,
            (ground arith, (ground arith, (ground arith, (ground arith, (ground arith, tt))))),
          ),
        )
        safe

  safe_id-eq_self : (id : Text) → IsSafeId id → safe_id p id ≡ id
  unfolding safe_id
  safe_id-eq_self [] h = refl
  safe_id-eq_self (c ∷ cs) h = rw h.0 (ap (λ xs. c ∷ xs) (safe_id-eq_self cs h.1))

append-cancel_right : (xs ys zs : Text) → xs ++ zs ≡ ys ++ zs → xs ≡ ys
append-cancel_right [] [] zs h = refl
append-cancel_right [] (y ∷ ys) zs h = absurd (omega (arith, length-append ys zs, ap length h))
append-cancel_right (x ∷ xs) [] zs h = absurd (omega (arith, length-append xs zs, ap length h))
append-cancel_right (x ∷ xs) (y ∷ ys) zs h =
    let heads : x ≡ y = cc in let tails = append-cancel_right xs ys zs cc in cc

no_dots : (xs : Text) → All (λ c. (c == b'.') ≡ false) xs → has_double_dot xs ≡ false
unfolding has_double_dot
no_dots [] h = refl
no_dots (x ∷ []) h = refl
no_dots (x ∷ (y ∷ ys)) h = ground (arith, no_dots (y ∷ ys) h.1)

no_such : (c : ℕ) (xs : Text) → All (λ d. (d == c) ≡ false) xs → any (λ d. d == c) xs ≡ false
no_such c [] h = refl
no_such c (x ∷ xs) h = ground (arith, no_such c xs h.1)

is_traversal-of_safe :
    (p : Platform) (id : Text) → IsPlatform p → IsSafeId p id → is_traversal id ≡ false
unfolding is_traversal
is_traversal-of_safe p id law safe = ground (
  arith,
  no_dots id (safe-ne p b'.' law.dot refl refl id safe),
  no_such b'/' id (safe-ne p b'/' law.slash refl refl id safe),
  no_such 92 id (safe-ne p 92 law.backslash refl refl id safe),
)

get_chunk_path-ne :
    (p : Platform) (file_id : Text) (i j : ℕ)
    → IsAscii p
    → IsSafeId p file_id
    → i < j
    → get_chunk_path p (chunk_id_of file_id i) ≢ get_chunk_path p (chunk_id_of file_id j)
unfolding get_chunk_path
get_chunk_path-ne p file_id i j ascii safe less h =
    let same =
      append-cancel_right (safe_id p (chunk_id_of file_id i)) (safe_id p (chunk_id_of file_id j))
        (codes ".chunk") h in
    let ids =
      sym (safe_id-eq_self p _ (chunk_id_of-IsSafeId p file_id i ascii safe))
      ∙ same
      ∙ safe_id-eq_self p _ (chunk_id_of-IsSafeId p file_id j ascii safe) in
    let equal = chunk_id_of-injective file_id i j ids in absurd (omega arith)

-- The manager's environment, with the nodes of a cluster.
abbrev pub clustered : Platform → (Address → Bool) → Env Disks → Env Disks
clustered p up env = record env { client = client p up; sha256 = p.sha256 }

-- A cluster of the nodes takes the chunks of a file with a safe id, such as a UUID.
pub clustered-IsCluster :
    (p : Platform) (up : Address → Bool) (env : Env Disks) (file_id : Text)
    → IsPlatform p
    → IsAscii p
    → IsSafeId p file_id
    → IsAesGcm env.aesgcm
    → ((i : ℕ) → length (env.nonce i) ≡ nonce_size)
    → IsCluster (clustered p up env) (disk_view p up) file_id
clustered-IsCluster p up env file_id law ascii safe aes nonces = record {
  store = client-IsStore p up;
  aes = aes;
  nonces = nonces;
  accepted = λ i. ap negb (
      is_traversal-of_safe p (chunk_id_of file_id i) law
        (chunk_id_of-IsSafeId p file_id i ascii safe));
  named = λ i j less. get_chunk_path-ne p file_id i j ascii safe less;
}
