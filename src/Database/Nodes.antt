-- ===== src/Database/Nodes.antt =====
-- db.py, "Node Operations".
use air_store.Prelude.{ℕ, Text, text_eq, text_lt, Bool, List, Option, any, find}
use air_store.Prelude.Sort.{order_by}
use air_store.Core.Models.{NodeModel, NodeStatus}
use air_store.Database.Rows.{Database, update_where, upsert_row}

-- `node_id = ?`
abbrev pub has_node_id : Text → NodeModel → Bool
has_node_id node_id n = text_eq n.node_id node_id

unfoldable pub register_or_update_node : NodeModel → Database → Database
register_or_update_node node db = record db {
  nodes =
      upsert_row (has_node_id node.node_id)
        (λ n. record n {
          hostname = node.hostname;
          ip = node.ip;
          port = node.port;
          total_storage = node.total_storage;
          available_storage = node.available_storage;
          status = node.status;
          last_heartbeat = node.last_heartbeat;
        })
        node db.nodes;
}

-- The Boolean is `cursor.rowcount > 0`.
unfoldable pub update_node_heartbeat : Text → ℕ → ℕ → NodeStatus → ℕ → Database → Bool × Database
update_node_heartbeat node_id available_storage total_storage status now db = (
  any (has_node_id node_id) db.nodes,
  record db {
    nodes =
        update_where (has_node_id node_id)
          (λ n. record n {
            available_storage = available_storage;
            total_storage = total_storage;
            status = status;
            last_heartbeat = now;
          })
          db.nodes;
  },
)

unfoldable pub update_node_status : Text → NodeStatus → Database → Database
update_node_status node_id status db = record db {
  nodes = update_where (has_node_id node_id) (λ n. record n { status = status }) db.nodes;
}

unfoldable pub get_node : Text → Database → Option NodeModel
get_node node_id db = find (has_node_id node_id) db.nodes

-- `ORDER BY node_id`
unfoldable pub list_nodes : Database → List NodeModel
list_nodes db = order_by (λ a b. text_lt a.node_id b.node_id) db.nodes
