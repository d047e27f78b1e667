-- ===== src/Manager/Monitor.antt =====
-- airstore/manager/scheduler/heartbeat_monitor.py: one round of the monitor.
-- `timeout` is `timeout_seconds` in the unit of the clock; a heartbeat after `now` has not timed out.
pub mod Timeouts
use air_store.Prelude.{ℕ, ◌-◌, Bool, ◌&&◌, List, [], ◌∷◌, ltb, if◌then◌else◌}
use air_store.Core.Exec.{Exec, ◌>>◌, pure}
use air_store.Core.Models.{NodeModel, is_online}
use air_store.Database.{list_nodes}
use air_store.Manager.Env.{Env, State}
use air_store.Manager.Recovery.{recover_node_failure}

-- ONLINE, and `elapsed > self.timeout_seconds`
unfoldable pub has_timed_out : ℕ → ℕ → NodeModel → Bool
has_timed_out timeout now node = is_online node.status && ltb timeout (now - node.last_heartbeat)

module _ {W : Type 0} (env : Env W) (timeout : ℕ) where
  unfoldable pub check_node : ℕ → NodeModel → Exec (State W) (Unit {0})
  unfolding has_timed_out
  check_node now node =
      if has_timed_out timeout now node
      then recover_node_failure env node.node_id >> pure tt
      else pure tt

  unfoldable pub check_nodes : ℕ → List NodeModel → Exec (State W) (Unit {0})
  unfolding check_node
  check_nodes now [] = pure tt
  check_nodes now (node ∷ nodes) = check_node now node >> check_nodes now nodes

  unfoldable pub check_nodes_now : Exec (State W) (Unit {0})
  unfolding check_nodes
  check_nodes_now s = check_nodes s.now (list_nodes s.db) s

  -- One round of `_monitor_loop`, which passes over what was raised.
  unfoldable pub monitor_round : State W → State W
  unfolding check_nodes_now
  monitor_round s = (check_nodes_now s).1
