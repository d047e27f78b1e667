-- ===== src/Manager/Handlers/Heartbeats.antt =====
-- airstore/manager/main.py: what a heartbeat does, and what the monitor makes of it.
use air_store.Prelude.{
  ℕ, ◌≡◌, refl, ap, inl, inr, Bool, true, false, List, [], ◌∷◌, any, All, All-of-Elem, Bool-cases,
  arith, if◌then◌else◌,
}
use air_store.Core.Exec.{ok, err, http_status}
use air_store.Core.Models.{NodeModel}
use air_store.Database.{has_node_id, update_node_heartbeat}
use air_store.Database.Rows.{update_where}
use air_store.Database.Rows.Laws.{All-update_where}
use air_store.Manager.Env.{State}
use air_store.Manager.Monitor.{has_timed_out}
use air_store.Manager.Handlers.{HeartbeatRequest, handle_heartbeat}

-- The row of a node says what its heartbeat reported, at that time.
abbrev pub IsReported : HeartbeatRequest → ℕ → NodeModel → Type 0
IsReported req now n =
    (n.status ≡ req.status)
    × (n.available_storage ≡ req.available_storage)
    × (n.total_storage ≡ req.total_storage)
    × (n.last_heartbeat ≡ now)

-- An UPDATE that meets no row.
update_where-eq_self :
    {A : Type 0} (p : A → Bool) (f : A → A) (rows : List A)
    → any p rows ≡ false
    → update_where p f rows ≡ rows
update_where-eq_self p f [] h = refl
update_where-eq_self p f (r ∷ rows) h =
    let rest = update_where-eq_self p f rows (ground arith) in ground (arith, rest)

-- A heartbeat of a registered node writes what it reports into the row of the node, which a monitor
-- does not count as timed out at that time, whatever its timeout; a heartbeat of any other node is
-- answered by 444 and leaves the state as it is.
pub handle_heartbeat_outcomes :
    {W : Type 0} (req : HeartbeatRequest) (timeout : ℕ) (s : State W)
    → let (r, s') = handle_heartbeat req s in
      if any (has_node_id req.node_id) s.db.nodes
      then (r ≡ ok tt)
        × All
            (λ n.
              has_node_id req.node_id n ≡ true
              → IsReported req s.now n × (has_timed_out timeout s.now n ≡ false))
            s'.db.nodes
      else (r ≡ err (http_status 444)) × (s' ≡ s)
unfolding handle_heartbeat update_node_heartbeat has_timed_out
handle_heartbeat_outcomes req timeout s =
    elim (Bool-cases (any (has_node_id req.node_id) s.db.nodes)) [
      | inl known ↦ rw known (
        refl,
        All-update_where (has_node_id req.node_id) _ (λ n. Unit {0})
            (λ n.
              has_node_id req.node_id n ≡ true
              → IsReported req s.now n × (has_timed_out timeout s.now n ≡ false))
            s.db.nodes (λ n u key k. ((refl, refl, refl, refl), ground arith))
            (λ n u key k. absurd (ground arith)) (All-of-Elem _ s.db.nodes (λ a e. tt)),
      )
      | inr unknown ↦ rw unknown (
        refl,
        ap (λ rows. record s { db = record s.db { nodes = rows } })
            (update_where-eq_self (has_node_id req.node_id) _ s.db.nodes unknown),
      )
    ]
