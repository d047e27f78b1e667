-- ===== src/Cli/Commands.antt =====
-- The commands of airstore/cli/main.py. `base` is `args.manager_url.rstrip('/')`.
pub mod Outcomes
pub mod Listings
use air_store.Prelude.{
  ℕ, Text, codes, Bytes, Bool, true, false, ◌&&◌, Option, none, some, List, [], ◌∷◌, ◌++◌, length,
  drop, ◌==◌, if◌then◌else◌,
}
use air_store.Core.Exec.{Error, ok, err, Exec, ◌>>=◌, ◌>>◌, raise, file_not_found, transport}
use air_store.Core.Formatting.{decimal}
use air_store.Node.Disk.{read_file, write_file}
use air_store.Node.Handlers.{Reply, no_reply, response, is_success}
use air_store.Cli.{
  Object, Api, Library, Console, format_bytes, print, ask, or_report, print_field, print_size,
}

-- `cd.startswith(prefix)`
unfoldable pub starts_with : Text → Text → Bool
starts_with [] t = true
starts_with (p ∷ ps) [] = false
starts_with (p ∷ ps) (c ∷ cs) = p == c && starts_with ps cs

-- The text behind the last `filename=`, if there is one.
unfoldable pub after_last : Text → Text → Option Text
unfolding starts_with
after_last mark [] = none
after_last mark (c ∷ cs) = elim (after_last mark cs) [
  | some t ↦ some t
  | none ↦ if starts_with mark (c ∷ cs) then some (drop (length mark) (c ∷ cs)) else none
]

-- `strip('"')`, on the left and on the right
unfoldable pub strip_left : Text → Text
strip_left [] = []
strip_left (c ∷ cs) = let rest = strip_left cs in if c == 34 then rest else c ∷ cs

unfoldable pub strip_right : Text → Text
strip_right [] = []
strip_right (c ∷ cs) = elim (strip_right cs) [
  | [] ↦ (if c == 34 then [] else c ∷ [])
  | d ∷ ds ↦ c ∷ (d ∷ ds)
]

unfoldable pub filename_of : Text → Text
unfolding after_last strip_left strip_right
filename_of cd = elim (after_last (codes "filename=") cd) [
  | none ↦ codes "downloaded_file"
  | some t ↦ strip_right (strip_left t)
]

module _ {W : Type 0} (l : Library) (api : Api W) (base : Text) where
  -- `cmd_upload`, on the resolved path with its last part
  unfoldable pub upload_lines : Object → Exec (Console W) (Unit {0})
  upload_lines res = do
    print (codes "[+] SUCCESS! File uploaded successfully.")
    print_field res (codes "    File ID:     ") (codes "file_id")
    print_field res (codes "    Filename:    ") (codes "filename")
    print_size l res (codes "    Size:        ") (codes "size")
    print_field res (codes "    SHA-256:     ") (codes "overall_hash")
    print_field res (codes "    Replicas:    ") (codes "replication_factor")

  unfoldable pub upload_found : Text → Bytes → ℕ → ℕ → Console W → ℕ × Console W
  unfolding upload_lines
  upload_found name content chunk_size replication c = or_report l (codes "[-] Upload failed: ") 1 (
      (print (
            codes "[*] Uploading file '"
            ++ (name
                ++ (codes "' (" ++ (format_bytes l (length content) ++ codes ") to AirStore..."))))
          >> (ask (
                api.post_file (base ++ codes "/api/files/upload") name content (decimal chunk_size)
                  (decimal replication))
              >>= upload_lines))
        c)

  unfoldable pub cmd_upload : Text → Text → ℕ → ℕ → Console W → ℕ × Console W
  unfolding upload_found
  cmd_upload path name chunk_size replication c = elim (read_file path c.files) [
    | none ↦ (
      1,
      record c { printed = c.printed ++ ((codes "[-] Error: File not found at " ++ path) ∷ []) },
    )
    | some content ↦ upload_found name content chunk_size replication c
  ]

  -- The loop over `iter_bytes`: the file has what was written before a raise.
  unfoldable pub write_pieces : Text → List Bytes → Bytes → Console W → Console W
  write_pieces path [] written c = record c { files = write_file path written c.files }
  write_pieces path (p ∷ ps) written c = write_pieces path ps (written ++ p) c

  -- `ended` is what the stream or a write raises after the pieces.
  unfoldable pub save_stream : Text → List Bytes → Option Error → Exec (Console W) (Unit {0})
  unfolding write_pieces
  save_stream path pieces ended c = elim (l.open_failure path) [
    | some e ↦ (err e, c)
    | none ↦ (elim ended [ some e ↦ err e | none ↦ ok tt ], write_pieces path pieces [] c)
  ]

  -- `or_else` is `Path.cwd() / filename`
  unfoldable pub output_path : Option Text → (Text → Text) → Text → Text
  output_path none or_else cd = or_else (filename_of cd)
  output_path (some []) or_else cd = or_else (filename_of cd)
  output_path (some (c ∷ cs)) or_else cd = c ∷ cs

  unfoldable pub hash_line : Text → Exec (Console W) (Unit {0})
  hash_line path c = elim (read_file path c.files) [
    | none ↦ (err file_not_found, c)
    | some content ↦ print (codes "    Reconstructed SHA-256: " ++ l.file_hash content) c
  ]

  unfoldable pub receive :
      Option Text
      → (Text → Text)
      → Reply (Text × List Bytes × Option Error)
      → Exec (Console W) (Unit {0})
  unfolding save_stream output_path hash_line
  receive output or_else no_reply = raise transport
  receive output or_else (response code (cd, pieces, ended)) =
      let path = output_path output or_else cd in
      if is_success code
      then (print (codes "[*] Streaming reconstructed bytes to " ++ (path ++ codes "..."))
          >> (save_stream path pieces ended
              >> (print
                    (codes "[+] SUCCESS! File downloaded and reconstructed at " ++ l.resolve path)
                  >> hash_line path)))
      else raise transport

  unfoldable pub cmd_download : Text → Option Text → (Text → Text) → Console W → ℕ × Console W
  unfolding receive
  cmd_download file_id output or_else c =
      let (reply, net) =
        api.stream (base ++ (codes "/api/files/" ++ (file_id ++ codes "/download"))) c.net in
      or_report l (codes "[-] Download failed: ") 1 (
        (print (codes "[*] Requesting reconstruction of file ID '" ++ (file_id ++ codes "'..."))
            >> receive output or_else reply)
          (record c { net = net }))
