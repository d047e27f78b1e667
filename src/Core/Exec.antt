-- ===== src/Core/Exec.antt =====
-- Methods that write to a database or a disk and may raise: what was written before the raise
-- stays written, so the state comes back beside the error too.
pub mod Laws
use air_store.Prelude.{ℕ}

-- The exceptions of the program, and those of the libraries that it lets through.
pub data Error : Type 0 where
  file_not_found : Error
  -- `InsufficientNodesError`, `PlacementError`
  insufficient_nodes placement : Error
  -- `IntegrityError` of core/chunking.py
  integrity : Error
  -- `EncryptionError`, and the `ValueError` of a bad key or a bad shard count
  encryption value_error : Error
  -- `sqlite3.IntegrityError`: a primary key is taken
  key_conflict : Error
  -- `NameError` and its subclass `UnboundLocalError`
  name_error : Error
  -- `HTTPException` of a handler, with its status code
  http_status : ℕ → Error
  -- a call of httpx that raised, or a status that `raise_for_status` refused
  transport : Error
  -- `KeyError` and `TypeError`: a JSON answer without a field, or with another type in it
  key_error type_error : Error
  erasure_coding : Error

pub data Result {ℓ} (A : Type ℓ) : Type ℓ where
  ok : A → Result A
  err : Error → Result A

abbrev pub Exec : Type 0 → Type 0 → Type 0
Exec S A = S → Result A × S

module _ {S A : Type 0} where
  abbrev pub pure : A → Exec S A
  pure a s = (ok a, s)

  abbrev pub raise : Error → Exec S A
  raise e s = (err e, s)

  abbrev pub gets : (S → A) → Exec S A
  gets f s = (ok (f s), s)

infixl 5 ◌>>=◌ ◌>>◌
abbrev pub ◌>>=◌ : {S A B : Type 0} → Exec S A → (A → Exec S B) → Exec S B
◌>>=◌ m f s = let (r, s') = m s in elim r [ ok a ↦ f a s' | err e ↦ (err e, s') ]

abbrev pub ◌>>◌ : {S A B : Type 0} → Exec S A → Exec S B → Exec S B
m >> k = m >>= λ _. k

module _ {S : Type 0} where
  abbrev pub modify : (S → S) → Exec S (Unit {0})
  modify f s = (ok tt, f s)
