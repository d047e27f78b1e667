-- ===== src/Manager/Env/Laws.antt =====
-- What logging an event changes.
use air_store.Prelude.{◌≡◌, ◌∙◌, Text, List, arith}
use air_store.Core.Models.{EventType, Detail}
use air_store.Database.{Database, add_event}
use air_store.Manager.Env.{Env, State, log_event}

-- Two databases that differ in their events only.
pub record SameTables (a b : Database) : Type 0 where
  pub nodes : a.nodes ≡ b.nodes
  pub files : a.files ≡ b.files
  pub chunks : a.chunks ≡ b.chunks
  pub chunk_replicas : a.chunk_replicas ≡ b.chunk_replicas
  pub transfers : a.transfers ≡ b.transfers

pub log_event-SameTables :
    {W : Type 0} (env : Env W) (kind : EventType) (message : Text) (details : List (Text × Detail))
    (s : State W)
    → SameTables (log_event env kind message details s).1.db s.db
unfolding log_event add_event
log_event-SameTables env kind message details s = ground arith

pub SameTables-trans : {a b c : Database} → SameTables a b → SameTables b c → SameTables a c
SameTables-trans p q = record {
  nodes = p.nodes ∙ q.nodes;
  files = p.files ∙ q.files;
  chunks = p.chunks ∙ q.chunks;
  chunk_replicas = p.chunk_replicas ∙ q.chunk_replicas;
  transfers = p.transfers ∙ q.transfers;
}

pub net-log_event :
    {W : Type 0} (env : Env W) (kind : EventType) (message : Text) (details : List (Text × Detail))
    (s : State W)
    → (log_event env kind message details s).1.net ≡ s.net
unfolding log_event add_event
net-log_event env kind message details s = ground arith
