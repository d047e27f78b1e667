-- ===== src/Manager/Env.antt =====
-- What the manager's services run on: the database, the storage nodes behind their HTTP
-- interface, the clock and the random ids.
pub mod Laws
use air_store.Prelude.{ℕ, ◌+◌, Text, Bytes, Bool, Option, none, some, List}
use air_store.Core.Exec.{Error, ok, err, Exec, key_conflict}
use air_store.Core.Float.{Float}
use air_store.Core.Encryption.{AesGcm}
use air_store.Core.Models.{EventType, Detail, NodeModel}
use air_store.Database.{Database, add_event}
use air_store.Node.Handlers.{Reply}

-- The host and port of a URL `http://{node.ip}:{node.port}`.
abbrev pub Address : Type 0
Address = Text × ℕ

abbrev pub address_of : NodeModel → Address
address_of n = (n.ip, n.port)

-- The requests that the services send to a storage node; `W` is the state of all nodes and of the
-- network between them.
pub record NodeClient (W : Type 0) : Type 0 where
  -- GET /chunks/{id}/verify, with the field `valid` of the answer
  pub verify : Address → Text → Text → W → Reply Bool × W
  -- PUT /chunks/{id}, with the payload and the `sha256` parameter
  pub put : Address → Text → Bytes → Option Text → W → Reply Unit × W
  -- GET /chunks/{id}
  pub get : Address → Text → W → Reply Bytes × W
  -- DELETE /chunks/{id}
  pub delete : Address → Text → W → Reply Unit × W
  -- POST /replicate, with the chunk id, the source node and the hash
  pub replicate : Address → Text → Address → Text → W → Reply Unit × W

-- Settings, libraries and the values that the environment chooses.
pub record Env (W : Type 0) : Type 0 where
  pub client : NodeClient W
  pub float : Float
  pub aesgcm : AesGcm
  pub sha256 : Bytes → Text
  -- the n-th `uuid.uuid4()`, and the nonce of the n-th chunk of an upload
  pub uuid : ℕ → Text
  pub nonce : ℕ → Bytes
  -- `time.time() - start_time` after the n-th chunk of a transfer, a float
  pub elapsed : ℕ → ℕ
  -- `str(e)`
  pub describe : Error → Text
  pub encryption_key : Bytes
  pub auth_secret : Text

-- `uuids` counts the ids that were drawn; `now` is the time at which a request is handled.
pub record State (W : Type 0) : Type 0 where
  pub db : Database
  pub net : W
  pub uuids : ℕ
  pub now : ℕ

module _ {W : Type 0} where
  abbrev pub with_db : Database → State W → State W
  with_db db s = record s { db = db }

  abbrev pub on_db : (Database → Database) → State W → State W
  on_db f s = record s { db = f s.db }

  abbrev pub on_db_now : (ℕ → Database → Database) → State W → State W
  on_db_now f s = record s { db = f s.now s.db }

  -- An INSERT, which raises where the primary key is taken.
  abbrev pub insert_or_raise : (State W → Option Database) → Exec (State W) (Unit {0})
  insert_or_raise f s = elim (f s) [
    | none ↦ (err key_conflict, s)
    | some db ↦ (ok tt, record s { db = db })
  ]

  -- `str(uuid.uuid4())`
  unfoldable pub fresh_uuid : Env W → Exec (State W) Text
  fresh_uuid env s = (ok (env.uuid s.uuids), record s { uuids = s.uuids + 1 })

  -- `self.db.add_event(EventModel(event_id=str(uuid.uuid4()), …))`
  unfoldable pub log_event :
      Env W → EventType → Text → List (Text × Detail) → Exec (State W) (Unit {0})
  log_event env event_type message details s =
      insert_or_raise
        (λ t.
          add_event
            (record {
              event_id = env.uuid s.uuids;
              event_type = event_type;
              message = message;
              details = details;
              timestamp = t.now;
            })
            t.db)
        (record s { uuids = s.uuids + 1 })
