-- ===== src/Cli/Commands/Outcomes.antt =====
-- airstore/cli/main.py: what the exit status of a download says.
use air_store.Prelude.{
  ℕ, ◌≡◌, refl, ap, ◌∙◌, ◌⊎◌, inl, inr, Text, text_eq_refl, codes, Bytes, true, Option, none, some,
  List, [], ◌∷◌, ◌++◌, flatten, Bool-cases, arith,
}
use mathlib.Core.List.{append_assoc, append-nil}
use air_store.Core.Exec.{Error, Result, ok, err}
use air_store.Node.Disk.{read_file, read-write}
use air_store.Node.Handlers.{Reply, no_reply, response, is_success}
use air_store.Cli.{Api, Library, Console, or_report}
use air_store.Cli.Commands.{
  write_pieces, save_stream, output_path, hash_line, receive, cmd_download,
}

module _ {W : Type 0} (l : Library) (api : Api W) (base : Text) where
  read-write_pieces :
      (path : Text) (pieces : List Bytes) (written : Bytes) (c : Console W)
      → read_file path (write_pieces l api base path pieces written c).files
        ≡ some (written ++ flatten pieces)
  unfolding write_pieces
  read-write_pieces path [] written c =
      ground (arith, read-write path path written c.files, text_eq_refl path, append-nil written)
  read-write_pieces path (p ∷ ps) written c =
      read-write_pieces path ps (written ++ p) c ∙ ap some (append_assoc written p (flatten ps))

  -- The manager answered with a 2xx and all pieces, and they are what the output file holds.
  abbrev pub IsSaved :
      Option Text → (Text → Text) → Reply (Text × List Bytes × Option Error) → Console W → Type 0
  IsSaved output or_else reply c =
      (code : ℕ) × (cd : Text) × (pieces : List Bytes) × (reply ≡ response code (cd, pieces, none))
      × (is_success code ≡ true)
      × (read_file (output_path l api base output or_else cd) c.files ≡ some (flatten pieces))

  report_lem :
      (P : Console W → Type 0) (prefix : Text) (x : Result (Unit {0}) × Console W)
      → ((u : Unit {0}) → x.0 ≡ ok u → P x.1)
      → let (code, c) = or_report l prefix 1 x in ((code ≡ 0) × P c) ⊎ (code ≡ 1)
  unfolding or_report
  report_lem P prefix (ok u, c) h = inl (refl, h u refl)
  report_lem P prefix (err e, c) h = inr refl

  receive-IsSaved :
      (output : Option Text) (or_else : Text → Text)
      (reply : Reply (Text × List Bytes × Option Error)) (c : Console W) {u : Unit {0}}
      → (receive l api base output or_else reply c).0 ≡ ok u
      → IsSaved output or_else reply (receive l api base output or_else reply c).1
  unfolding receive save_stream hash_line
  receive-IsSaved output or_else no_reply c h = absurd (ground arith)
  receive-IsSaved output or_else (response code (cd, pieces, some e)) c h =
      elim (Bool-cases (is_success code)) [
        | inl good ↦ absurd (ground arith)
        | inr bad ↦ absurd (ground arith)
      ]
  receive-IsSaved output or_else (response code (cd, pieces, none)) c h =
      elim (Bool-cases (is_success code)) [
        | inr bad ↦ absurd (ground arith)
        | inl good ↦
            (let path = output_path l api base output or_else cd in
              let line = codes "[*] Streaming reconstructed bytes to " ++ (path ++ codes "...") in
              let c1 = record c { printed = c.printed ++ (line ∷ []) } in
              let stored = read-write_pieces path pieces [] c1 in
              (code, cd, pieces, refl, good, rw good (ground (arith, stored))))
      ]

  -- A download that exits with the status 0 got a 2xx and the whole body from the manager, and the
  -- output file holds exactly the bytes of that body; in every other case, also where the body
  -- broke off half way, the exit status is 1.
  pub cmd_download-IsSaved :
      (file_id : Text) (output : Option Text) (or_else : Text → Text) (c : Console W)
      → let reply =
          (api.stream (base ++ (codes "/api/files/" ++ (file_id ++ codes "/download"))) c.net).0 in
        let (code, c') = cmd_download l api base file_id output or_else c in
        ((code ≡ 0) × IsSaved output or_else reply c') ⊎ (code ≡ 1)
  unfolding cmd_download
  cmd_download-IsSaved file_id output or_else c =
      let answer =
        api.stream (base ++ (codes "/api/files/" ++ (file_id ++ codes "/download"))) c.net in
      let line = codes "[*] Requesting reconstruction of file ID '" ++ (file_id ++ codes "'...") in
      let c1 = record c { net = answer.1; printed = c.printed ++ (line ∷ []) } in
      report_lem (λ d. IsSaved output or_else answer.0 d) (codes "[-] Download failed: ")
        (receive l api base output or_else answer.0 c1)
        (λ u e. receive-IsSaved output or_else answer.0 c1 e)
