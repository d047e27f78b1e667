-- ===== src/Manager/Upload/Present.antt =====
-- services/storage_manager.py: the rows of a file and of a transfer under the statements of an
-- upload.
use air_store.Prelude.{
  ℕ, ◌≡◌, refl, inl, inr, Text, text_eq_refl, Bool, true, Bool-cases, Option, none, some, List, [],
  ◌∷◌, ◌++◌, any, arith,
}
use air_store.Core.Models.{FileModel, TransferModel, TransferStatus}
use air_store.Database.{
  Database, has_file_id, has_transfer_id, create_file, create_chunks, create_transfer, add_replica,
  add_event, update_transfer, write_transfer, update_file_status,
}
use air_store.Database.Rows.Laws.{any-update_where}
use air_store.Manager.Upload.Kept.{IsKept}

-- There is a row of the file, or of the transfer.
abbrev pub HasFile : Text → Database → Type 0
HasFile file_id db = any (has_file_id file_id) db.files ≡ true

abbrev pub HasTransfer : Text → Database → Type 0
HasTransfer transfer_id db = any (has_transfer_id transfer_id) db.transfers ≡ true

any_append :
    {A : Type 0} (p : A → Bool) (xs ys : List A) → any p xs ≡ true → any p (xs ++ ys) ≡ true
any_append p [] ys h = absurd (ground arith)
any_append p (x ∷ xs) ys h = elim (Bool-cases (p x)) [
  | inl here ↦ rw here refl
  | inr apart ↦ rw apart (any_append p xs ys (ground arith))
]

any_last :
    {A : Type 0} (p : A → Bool) (xs : List A) (x : A) → p x ≡ true → any p (xs ++ (x ∷ [])) ≡ true
any_last p [] x h = ground (arith, h)
any_last p (y ∷ ys) x h = ground (arith, any_last p ys x h)

pub HasFile-IsKept : (file_id : Text) → IsKept (HasFile file_id)
unfolding create_file create_chunks add_replica update_transfer update_file_status add_event
HasFile-IsKept file_id = record {
  file = λ f {a} {b} e h.
      let all : b.files ≡ a.files ++ (f ∷ []) = ground arith in
      rw all (any_append (has_file_id file_id) a.files (f ∷ []) h);
  chunks = λ cs {a} {b} e h. let same : b.files ≡ a.files = ground arith in rw same h;
  replica = λ r a h. h;
  transfer = λ id progress speed status message now a h. h;
  status = λ id status a h.
      any-update_where (has_file_id id) _ (has_file_id file_id) a.files (λ r q p. q) h;
  event = λ v {a} {b} e h. let same : b.files ≡ a.files = ground arith in rw same h;
}

write_transfer-key :
    (transfer_id : Text) (progress speed : ℕ) (status : Option TransferStatus)
    (message : Option Text) (now : ℕ) (t : TransferModel)
    → has_transfer_id transfer_id t ≡ true
    → has_transfer_id transfer_id (write_transfer progress speed status message now t) ≡ true
write_transfer-key transfer_id progress speed none message now t h = h
write_transfer-key transfer_id progress speed (some status) message now t h = h

pub HasTransfer-IsKept : (transfer_id : Text) → IsKept (HasTransfer transfer_id)
unfolding create_file create_chunks add_replica update_transfer update_file_status add_event
HasTransfer-IsKept transfer_id = record {
  file = λ f {a} {b} e h. let same : b.transfers ≡ a.transfers = ground arith in rw same h;
  chunks = λ cs {a} {b} e h. let same : b.transfers ≡ a.transfers = ground arith in rw same h;
  replica = λ r a h. h;
  transfer = λ id progress speed status message now a h.
      any-update_where (has_transfer_id id) (write_transfer progress speed status message now)
        (has_transfer_id transfer_id) a.transfers
        (λ r q p. write_transfer-key transfer_id progress speed status message now r q) h;
  status = λ id status a h. h;
  event = λ v {a} {b} e h. let same : b.transfers ≡ a.transfers = ground arith in rw same h;
}

pub create_file-HasFile :
    (f : FileModel) (a : Database) {b : Database} → create_file f a ≡ some b → HasFile f.file_id b
unfolding create_file
create_file-HasFile f a {b} e =
    let all : b.files ≡ a.files ++ (f ∷ []) = ground arith in
    rw all (any_last (has_file_id f.file_id) a.files f (text_eq_refl f.file_id))

pub create_file-taken :
    (f : FileModel) (a : Database) → create_file f a ≡ none → HasFile f.file_id a
unfolding create_file
create_file-taken f a e = ground arith

pub create_transfer-HasTransfer :
    (t : TransferModel) (a : Database) {b : Database}
    → create_transfer t a ≡ some b
    → HasTransfer t.transfer_id b
unfolding create_transfer
create_transfer-HasTransfer t a {b} e =
    let all : b.transfers ≡ a.transfers ++ (t ∷ []) = ground arith in
    rw all (any_last (has_transfer_id t.transfer_id) a.transfers t (text_eq_refl t.transfer_id))
