-- ===== src/Database.antt =====
-- airstore/manager/database/db.py: the SQLite metadata database of the manager.
-- A table is the list of its rows in the order of their insertion, in which a query with no ORDER BY
-- scans it, unless the condition is on the first column of a primary key: then the rows come in the
-- order of its index, as in `get_replicas_for_chunk`. The connection does not set `PRAGMA foreign_keys`, so SQLite enforces
-- no foreign key and runs no ON DELETE CASCADE.
pub mod Rows
pub mod Keys
pub mod Nodes
pub mod Files
pub mod Replicas
pub mod Journal
pub use Rows.{Database}
unfoldable pub use Nodes.*
unfoldable pub use Files.*
unfoldable pub use Replicas.*
unfoldable pub use Journal.*
