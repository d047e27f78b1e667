-- ===== src/Database/Journal.antt =====
-- db.py, "Transfers & Events".
use air_store.Prelude.{ℕ, Text, text_eq, Bool, ltb, List, Option, none, some, take, if◌then◌else◌}
use air_store.Prelude.Sort.{order_by}
use air_store.Core.Models.{TransferModel, EventModel, TransferStatus, is_finished}
use air_store.Database.Rows.{Database, update_where, insert_row}

-- `transfer_id = ?`
abbrev pub has_transfer_id : Text → TransferModel → Bool
has_transfer_id transfer_id t = text_eq t.transfer_id transfer_id

unfoldable pub create_transfer : TransferModel → Database → Option Database
create_transfer transfer db =
    elim (insert_row (has_transfer_id transfer.transfer_id) transfer db.transfers) [
      | none ↦ none
      | some rows ↦ some (record db { transfers = rows })
    ]

-- `COALESCE(completed_at, ?)`
abbrev pub coalesce : Option ℕ → Option ℕ → Option ℕ
coalesce none b = b
coalesce (some a) b = some a

-- The two UPDATE statements: without a status only the two measures are written.
abbrev pub write_transfer :
    ℕ → ℕ → Option TransferStatus → Option Text → ℕ → TransferModel → TransferModel
write_transfer progress speed_mbps none error_message now t = record t {
  progress = progress;
  speed_mbps = speed_mbps;
}
write_transfer progress speed_mbps (some status) error_message now t = record t {
  progress = progress;
  speed_mbps = speed_mbps;
  status = status;
  error_message = error_message;
  completed_at = coalesce t.completed_at (if is_finished status then some now else none);
}

unfoldable pub update_transfer :
    Text → ℕ → ℕ → Option TransferStatus → Option Text → ℕ → Database → Database
update_transfer transfer_id progress speed_mbps status error_message now db = record db {
  transfers =
      update_where (has_transfer_id transfer_id)
        (write_transfer progress speed_mbps status error_message now) db.transfers;
}

-- `ORDER BY started_at DESC LIMIT ?`
unfoldable pub list_transfers : ℕ → Database → List TransferModel
list_transfers limit db = take limit (order_by (λ a b. ltb b.started_at a.started_at) db.transfers)

-- `none` is a conflict on the event id.
unfoldable pub add_event : EventModel → Database → Option Database
add_event event db = elim (insert_row (λ e. text_eq e.event_id event.event_id) event db.events) [
  | none ↦ none
  | some rows ↦ some (record db { events = rows })
]

-- `ORDER BY timestamp DESC LIMIT ?`
unfoldable pub list_events : ℕ → Database → List EventModel
list_events limit db = take limit (order_by (λ a b. ltb b.timestamp a.timestamp) db.events)
