-- ===== src/Lib.antt =====
-- AirStore: a distributed file store. A manager keeps metadata in a database and directs storage
-- nodes; a file is cut into chunks, and each chunk is stored on several nodes.
--
-- The parts, and the files that model them:
--
-- - airstore/core: Core/Models (models.py), Core/Chunking (chunking.py), Core/Hashing (hashing.py),
--   Core/Encryption (encryption.py), Core/Erasure (erasure_coding.py). Core/Exec has the exceptions as
--   values and the actions `S → Result A × S`: what was written before an exception stays written.
--   Core/Formatting has the number formats of the f-strings, Core/Float the arithmetic of floats.
-- - airstore/manager/database/db.py: Database and its children. A table is the list of its rows in
--   the order of insertion; a method is a function on the tables; a query without ORDER BY returns the
--   rows in that order, or in the order of the primary key where its condition is on the first column
--   of that. Rows has the SQL statements, then one module per group of methods.
-- - airstore/manager/placement.py: Placement.
-- - airstore/node: Node/Engine (storage.py) over the directory of Node/Disk, Node/Handlers (main.py),
--   Node/Agent (registration.py and heartbeat.py), Node/App (get_stats of storage.py, the start-up and
--   the health route of main.py, the start and stop of heartbeat.py, get_lan_ip of core/config.py).
-- - airstore/manager/services/storage_manager.py: Manager/Upload (process_file_upload) and
--   Manager/Download (stream_file_reconstruction, delete_file).
-- - airstore/manager/services/recovery_service.py: Manager/Recovery, Manager/Reconcile, Manager/Audit.
-- - airstore/manager/scheduler/heartbeat_monitor.py: Manager/Monitor.
-- - airstore/manager/main.py: Manager/Handlers (handlers that write), Manager/Reports (that read).
-- - Manager/Env has what the services run on: the state (database, nodes, number of ids drawn, time)
--   and the environment. The record NodeClient is the interface between the manager and the nodes: one
--   operation per HTTP request, on a state of all nodes that the manager does not see.
-- - Manager/Store states what the manager relies on of the nodes, as laws of a NodeClient. Cluster
--   builds a NodeClient from the handlers of Node/Handlers, with a disk per address, and Cluster/Laws
--   is about those laws; Cluster/Names is about the file names of the chunks of a file.
-- - Manager/Roundtrip composes Manager/Upload with Manager/Download over such nodes. It assumes nothing
--   of SHA-256: that no node holds anything under the ids of a new file, which contain a fresh uuid, is
--   what makes a verified chunk the right one.
-- - Database/Keys has the primary keys, and the statements of the manager as a step relation; in
--   Manager/Steps each request is a sequence of such steps, and Manager/Steps/Requests has the
--   relation of the requests.
-- - airstore/cli/main.py: Cli, Cli/Commands and Cli/Commands/Listings. A command is what it prints,
--   the local files and an exit status; the manager behind httpx, the float format `:.2f`, the current
--   directory, what `open` raises, `resolve` and `str(e)` are parameters, and a value in a JSON answer
--   is a text or a natural number.
--
-- A function of the source that is long is several definitions, named for its parts, and the
-- definition with the name of the function composes them in the order of the code. Theorems stand in
-- child modules of the module they are about; Tests has runs at concrete inputs.
--
-- Numbers, texts and loops: sizes, counts and times are natural numbers, also chunk sizes and
-- replication factors, which the source takes as int and never checks, so that negative ones are not
-- modelled; a time is a number of units
-- since an epoch and a difference that would be negative is 0, which a timeout treats alike. A text is
-- the list of its code points, bytes are a list of numbers. A float is known by its bit pattern, with
-- the operations of a parameter. The loops that read a file have its length as fuel, which is enough as
-- each round reads a byte at least; decimal numbers have the number as fuel, which is above the number
-- of its digits. All other loops run over a list, or count their rounds down.
--
-- Parameters: SHA-256, AES-GCM, `str.isalnum`, uuids, nonces, elapsed times, `str(e)`, the settings,
-- and the answers of other processes. An answer to a registration has a body that is
-- valid or is not. One request sees one value of the clock. A uuid may repeat; then
-- an INSERT raises, as in the source. Foreign keys are not enforced, as SQLite does not without its
-- pragma. Shards of one call have one length.
--
-- Not modelled: disk and connection failures of the manager's own database, writes of a node to a full
-- disk, threads (the lock of the recovery service makes its methods steps, requests are handled one
-- after another), the asyncio loops between two heartbeats or two rounds of the monitor, logging, the
-- defaults of airstore/core/config.py, the argument parser and the two server commands of
-- airstore/cli/main.py, the web pages under airstore/frontend and demo, scripts, research and tests.
pub mod Prelude
pub mod Core
pub mod Database
pub mod Placement
pub mod Node
pub mod Manager
pub mod Cluster
pub mod Cli
pub mod Tests
