-- ===== src/Cli/Commands/Listings.antt =====
-- airstore/cli/main.py: the commands that print what the manager answers. They exit with the status
-- 0 also where the request failed.
use air_store.Prelude.{ℕ, Text, codes, none, some, List, [], ◌∷◌, ◌++◌, take, replicate}
use air_store.Core.Exec.{Exec, ◌>>=◌, ◌>>◌, pure, raise, type_error}
use air_store.Node.Disk.{read_file}
use air_store.Cli.{
  Value, text, number, Object, Api, Library, Console, show, left, find_key, print, field, size_of,
  ask, or_report, print_field, print_size,
}

-- `str(res.get(name))`
unfoldable pub get_or_none : Object → Text → Text
unfolding find_key
get_or_none o name = elim (find_key name o) [ none ↦ codes "None" | some v ↦ show v ]

-- `value[:19]`, which raises for a number
unfoldable pub first_19 : {S : Type 0} → Value → Exec S Text
first_19 (text t) = pure (take 19 t)
first_19 (number n) = raise type_error

module _ {W : Type 0} (l : Library) (api : Api W) (base : Text) where
  -- One line of `cmd_nodes`.
  unfoldable pub node_line : Object → Exec (Console W) (Unit {0})
  unfolding left
  node_line n = do
    node_id ← field n (codes "node_id")
    status ← field n (codes "status")
    ip ← field n (codes "ip")
    port ← field n (codes "port")
    available ← field n (codes "available_storage")
    available_text ← size_of l available
    total ← field n (codes "total_storage")
    total_text ← size_of l total
    print (
        left 15 (show node_id)
        ++ (codes " "
            ++ (left 10 (show status)
                ++ (codes " "
                    ++ (left 20 (show ip)
                        ++ (codes " "
                            ++ (left 6 (show port)
                                ++ (codes " "
                                    ++ (left 18 available_text
                                        ++ (codes " " ++ left 18 total_text))))))))))

  unfoldable pub node_lines : List Object → Exec (Console W) (Unit {0})
  unfolding node_line
  node_lines [] = print []
  node_lines (n ∷ ns) = node_line n >> node_lines ns

  unfoldable pub node_table : List Object → Exec (Console W) (Unit {0})
  unfolding node_lines left
  node_table nodes = do
    print (10 ∷ codes "=== AirStore Node Registry ===")
    print (
        left 15 (codes "Node ID")
        ++ (codes " "
            ++ (left 10 (codes "Status")
                ++ (codes " "
                    ++ (left 20 (codes "Host/IP")
                        ++ (codes " "
                            ++ (left 6 (codes "Port")
                                ++ (codes " "
                                    ++ (left 18 (codes "Available Storage")
                                        ++ (codes " " ++ left 18 (codes "Total Storage")))))))))))
    print (replicate 85 b'-')
    node_lines nodes

  unfoldable pub cmd_nodes : Console W → ℕ × Console W
  unfolding node_table
  cmd_nodes c =
      or_report l (codes "[-] Failed to fetch nodes: ") 0
        ((ask (api.get_list (base ++ codes "/api/nodes")) >>= node_table) c)

  -- One line of `cmd_files`.
  unfoldable pub file_line : Object → Exec (Console W) (Unit {0})
  unfolding left first_19
  file_line f = do
    file_id ← field f (codes "file_id")
    filename ← field f (codes "filename")
    size ← field f (codes "size")
    size_text ← size_of l size
    status ← field f (codes "status")
    created ← field f (codes "created_at")
    created_text ← first_19 created
    print (
        left 38 (show file_id)
        ++ (codes " "
            ++ (left 25 (show filename)
                ++ (codes " "
                    ++ (left 12 size_text
                        ++ (codes " "
                            ++ (left 10 (show status) ++ (codes " " ++ left 22 created_text))))))))

  unfoldable pub file_lines : List Object → Exec (Console W) (Unit {0})
  unfolding file_line
  file_lines [] = print []
  file_lines (f ∷ fs) = file_line f >> file_lines fs

  unfoldable pub file_table : List Object → Exec (Console W) (Unit {0})
  unfolding file_lines left
  file_table files = do
    print (10 ∷ codes "=== Stored Files ===")
    print (
        left 38 (codes "File ID")
        ++ (codes " "
            ++ (left 25 (codes "Filename")
                ++ (codes " "
                    ++ (left 12 (codes "Size")
                        ++ (codes " "
                            ++ (left 10 (codes "Status")
                                ++ (codes " " ++ left 22 (codes "Created At")))))))))
    print (replicate 110 b'-')
    file_lines files

  unfoldable pub cmd_files : Console W → ℕ × Console W
  unfolding file_table
  cmd_files c =
      or_report l (codes "[-] Failed to fetch files: ") 0
        ((ask (api.get_list (base ++ codes "/api/files")) >>= file_table) c)

  unfoldable pub status_lines : Object → Exec (Console W) (Unit {0})
  status_lines st = do
    print (10 ∷ codes "=== AirStore Cluster Status ===")
    total ← field st (codes "total_nodes")
    online ← field st (codes "online_nodes")
    offline ← field st (codes "offline_nodes")
    print (
        codes "  Total Nodes:       "
        ++ (show total
            ++ (codes " (Online: "
                ++ (show online ++ (codes ", Offline: " ++ (show offline ++ codes ")"))))))
    print_field st (codes "  Total Files:       ") (codes "total_files")
    print_size l st (codes "  Total Storage:     ") (codes "total_storage")
    print_size l st (codes "  Used Storage:      ") (codes "used_storage")
    print_size l st (codes "  Available Storage: ") (codes "available_storage")
    factor ← field st (codes "replication_factor")
    print (codes "  Replication:       " ++ (show factor ++ codes "x"))
    print []

  unfoldable pub cmd_status : Console W → ℕ × Console W
  unfolding status_lines
  cmd_status c =
      or_report l (codes "[-] Failed to fetch cluster status: ") 0
        ((ask (api.get_object (base ++ codes "/api/stats")) >>= status_lines) c)

  unfoldable pub recovery_lines : Object → Exec (Console W) (Unit {0})
  unfolding get_or_none
  recovery_lines res = do
    print (codes "[+] Recovery finished!")
    print (codes "    Status:           " ++ get_or_none res (codes "status"))
    print (codes "    Recovered Chunks: " ++ get_or_none res (codes "recovered_chunks"))
    print (codes "    Failed Chunks:    " ++ get_or_none res (codes "failed_chunks"))

  unfoldable pub cmd_recover : Text → Console W → ℕ × Console W
  unfolding recovery_lines
  cmd_recover node_id c = or_report l (codes "[-] Recovery trigger failed: ") 0 (
      (print (codes "[*] Initiating failure recovery for node '" ++ (node_id ++ codes "'..."))
          >> (ask (api.post (base ++ (codes "/api/nodes/" ++ (node_id ++ codes "/recover"))))
              >>= recovery_lines))
        c)

  unfoldable pub detail_lines : Object → Exec (Console W) (Unit {0})
  detail_lines f = do
    print_field f (codes "[*] File ID:        ") (codes "file_id")
    print_field f (codes "[*] Filename:       ") (codes "filename")
    print_field f (codes "[*] Expected Hash:  ") (codes "overall_hash")
    print_field f (codes "[*] Status:         ") (codes "status")

  -- A local file is hashed; anything else is the id of a stored file.
  unfoldable pub cmd_verify : Text → Console W → ℕ × Console W
  unfolding detail_lines
  cmd_verify target c = elim (read_file target c.files) [
    | some content ↦ (
      0,
      record c {
        printed =
            c.printed
            ++ ((codes "[*] Local File Path: " ++ target)
                ∷ ((codes "[*] Computed SHA-256: " ++ l.file_hash content) ∷ []));
      },
    )
    | none ↦
        or_report l (codes "[-] Verification query failed: ") 0
          ((ask (api.get_details (base ++ (codes "/api/files/" ++ target))) >>= detail_lines) c)
  ]
