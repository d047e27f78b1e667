-- ===== src/Database/Replicas.antt =====
-- db.py, "Chunk & Replica Operations": the rows that say which node holds which chunk.
use air_store.Prelude.{Text, text_eq, text_lt, Bool, ◌&&◌, List, [], ◌∷◌, ◌++◌, map, any, select}
use air_store.Prelude.Sort.{order_by}
use air_store.Core.Models.{ChunkModel, ChunkReplicaModel, ReplicaStatus}
use air_store.Database.Rows.{Database, update_where, delete_where, upsert_row}

-- `chunk_id = ? AND node_id = ?`, the primary key.
abbrev pub is_replica : Text → Text → ChunkReplicaModel → Bool
is_replica chunk_id node_id r = text_eq r.chunk_id chunk_id && text_eq r.node_id node_id

unfoldable pub add_replica : ChunkReplicaModel → Database → Database
add_replica replica db = record db {
  chunk_replicas =
      upsert_row (is_replica replica.chunk_id replica.node_id)
        (λ r. record r { status = replica.status; replica_number = replica.replica_number }) replica
        db.chunk_replicas;
}

unfoldable pub update_replica_status : Text → Text → ReplicaStatus → Database → Database
update_replica_status chunk_id node_id status db = record db {
  chunk_replicas =
      update_where (is_replica chunk_id node_id) (λ r. record r { status = status })
        db.chunk_replicas;
}

-- The Boolean is `cursor.rowcount > 0`.
unfoldable pub delete_replica : Text → Text → Database → Bool × Database
delete_replica chunk_id node_id db = (
  any (is_replica chunk_id node_id) db.chunk_replicas,
  record db { chunk_replicas = delete_where (is_replica chunk_id node_id) db.chunk_replicas },
)

-- SQLite answers from the index of the primary key, so in the order of the node ids.
unfoldable pub get_replicas_for_chunk : Text → Database → List ChunkReplicaModel
get_replicas_for_chunk chunk_id db =
    order_by (λ a b. text_lt a.node_id b.node_id)
      (select (λ r. text_eq r.chunk_id chunk_id) db.chunk_replicas)

-- No index begins with the node, so the table is scanned.
unfoldable pub get_replicas_for_node : Text → Database → List ChunkReplicaModel
get_replicas_for_node node_id db = select (λ r. text_eq r.node_id node_id) db.chunk_replicas

-- The join of the replicas with the chunks of one file; its order is the query planner's choice.
join_replicas : Text → List ChunkModel → List ChunkReplicaModel → List ChunkReplicaModel
join_replicas file_id chunks [] = []
join_replicas file_id chunks (r ∷ replicas) =
    map (λ c. r) (select (λ c. text_eq r.chunk_id c.chunk_id && text_eq c.file_id file_id) chunks)
    ++ join_replicas file_id chunks replicas

unfoldable pub get_all_replicas_for_file : Text → Database → List ChunkReplicaModel
unfolding join_replicas
get_all_replicas_for_file file_id db = join_replicas file_id db.chunks db.chunk_replicas
