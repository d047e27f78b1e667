-- ===== src/Manager/Messages.antt =====
-- The texts and details of the events.
use air_store.Prelude.{ℕ, Text, codes, List, [], ◌∷◌, ◌++◌}
use air_store.Core.Formatting.{decimal}
use air_store.Core.Models.{Detail, text, number, FileModel}

abbrev pub Details : Type 0
Details = List (Text × Detail)

unfoldable pub offline_message : Text → Text
offline_message node_id = codes "Node '" ++ (node_id ++ codes "' detected OFFLINE.")

unfoldable pub recovery_start_message : Text → Text
recovery_start_message node_id =
    codes "Auto-recovery process started for node '" ++ (node_id ++ codes "'.")

unfoldable pub node_details : Text → Details
node_details node_id = (codes "node_id", text node_id) ∷ []

unfoldable pub recovery_end_message : Text → ℕ → ℕ → Text
recovery_end_message node_id recovered failed =
    codes "Recovery finished for node '"
    ++ (node_id
        ++ (codes "'. Recovered: "
            ++ (decimal recovered ++ (codes ", Failed: " ++ (decimal failed ++ codes ".")))))

unfoldable pub recovery_end_details : Text → ℕ → ℕ → Details
recovery_end_details node_id recovered failed =
    (codes "failed_node_id", text node_id)
    ∷ ((codes "recovered", number recovered) ∷ ((codes "failed", number failed) ∷ []))

unfoldable pub uploaded_message : Text → ℕ → ℕ → Text
uploaded_message fname file_size total_chunks =
    codes "File '"
    ++ (fname
        ++ (codes "' ("
            ++ (decimal file_size
                ++ (codes " bytes, "
                    ++ (decimal total_chunks ++ codes " chunks) uploaded successfully.")))))

unfoldable pub uploaded_details : Text → Text → ℕ → ℕ → Details
uploaded_details file_id fname file_size total_chunks =
    (codes "file_id", text file_id)
    ∷ ((codes "filename", text fname)
        ∷ ((codes "size", number file_size) ∷ ((codes "chunks", number total_chunks) ∷ [])))

unfoldable pub downloaded_message : Text → Text
downloaded_message filename =
    codes "File '" ++ (filename ++ codes "' successfully reconstructed and verified.")

unfoldable pub downloaded_details : FileModel → Details
downloaded_details f =
    (codes "file_id", text f.file_id) ∷ ((codes "filename", text f.filename) ∷ [])

unfoldable pub deleted_message : Text → Text
deleted_message filename = codes "File '" ++ (filename ++ codes "' and its chunks deleted.")

unfoldable pub deleted_details : Text → Details
deleted_details file_id = (codes "file_id", text file_id) ∷ []

unfoldable pub joined_message : Text → Text → ℕ → Text
joined_message node_id ip port =
    codes "Node '"
    ++ (node_id
        ++ (codes "' (" ++ (ip ++ (codes ":" ++ (decimal port ++ codes ") joined the network.")))))

unfoldable pub joined_details : Text → Text → ℕ → Details
joined_details node_id ip port =
    (codes "node_id", text node_id) ∷ ((codes "ip", text ip) ∷ ((codes "port", number port) ∷ []))
