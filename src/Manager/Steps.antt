-- ===== src/Manager/Steps.antt =====
-- The manager's requests as sequences of statements on the database.
pub mod Recoveries
pub mod Monitors
pub mod Uploads
pub mod Requests
use air_store.Prelude.{◌+◌, ◌≡◌, refl, inl, inr, Text, Option, some, List, Option-cases}
use air_store.Core.Exec.{Result, ok, err, Exec, ◌>>=◌}
use air_store.Core.Models.{EventType, Detail, EventModel}
use air_store.Database.{Database, add_event}
use air_store.Database.Keys.Steps.{Step, Steps, stay, one-Step, Steps-trans, event_inserted}
use air_store.Manager.Env.{Env, State, insert_or_raise, log_event}

module _ {W : Type 0} where
  pub bind-Steps :
      {A B : Type 0} (m : Exec (State W) A) (f : A → Exec (State W) B) (s : State W)
      → Steps s.db (m s).1.db
      → ((a : A) → (m s).0 ≡ ok a → Steps (m s).1.db (f a (m s).1).1.db)
      → Steps s.db ((m >>= f) s).1.db
  bind-Steps {A} {B} m f s first rest = go (m s).0 (m s).1 first rest
    where
      after : Result A → State W → Result B × State W
      after r t = elim r [ ok a ↦ f a t | err x ↦ (err x, t) ]

      go :
          (r : Result A) (t : State W)
          → Steps s.db t.db
          → ((a : A) → r ≡ ok a → Steps t.db (f a t).1.db)
          → Steps s.db (after r t).1.db
      go (ok a) t first rest = Steps-trans first (rest a refl)
      go (err x) t first rest = first

  pub insert-Steps :
      (f : State W → Option Database) (s : State W)
      → ((db : Database) → f s ≡ some db → Step s.db db)
      → Steps s.db (insert_or_raise f s).1.db
  insert-Steps f s h = elim (Option-cases (f s)) [
    | inl taken ↦ rw (taken, insert_or_raise) stay
    | inr (db, e) ↦ rw (e, insert_or_raise) (one-Step (h db e))
  ]

  pub log_event-Steps :
      (env : Env W) (kind : EventType) (message : Text) (details : List (Text × Detail))
      (s : State W)
      → Steps s.db (log_event env kind message details s).1.db
  unfolding log_event
  log_event-Steps env kind message details s =
      insert-Steps (λ t. add_event (event t) t.db) (record s { uuids = s.uuids + 1 })
        (λ db e. event_inserted (event s) e)
    where
      event : State W → EventModel
      event t = record {
        event_id = env.uuid s.uuids;
        event_type = kind;
        message = message;
        details = details;
        timestamp = t.now;
      }
