-- ===== src/Manager/Handlers/Registration.antt =====
-- airstore/manager/main.py: what a registration leaves in the table of nodes.
use air_store.Prelude.{
  ℕ, ◌≡◌, refl, ap, ◌∙◌, inl, inr, text_eq, text_eq_refl, text_eq_iff, Bool, true, some, List, [],
  ◌∷◌, find, Bool-cases, arith, if◌then◌else◌,
}
use air_store.Core.Exec.{err, http_status}
use air_store.Core.Models.{NodeModel, NodeStatus, EventType}
use air_store.Database.{Database, has_node_id, get_node, register_or_update_node}
use air_store.Database.Rows.{upsert_row}
use air_store.Manager.Env.{Env, State, on_db_now}
use air_store.Manager.Env.Laws.{log_event-SameTables}
use air_store.Manager.Messages.{joined_message, joined_details}
use air_store.Manager.Reconcile.{reconcile_returning_node}
use air_store.Manager.Reconcile.Verified.{nodes-reconcile_returning_node}
use air_store.Manager.Handlers.{NodeRegistrationRequest, registered_node, register_node}

-- The first row that passes after an upsert, where it rewrites such a row to the new one.
find-upsert_row :
    {A : Type 0} (p : A → Bool) (f : A → A) (x : A) (rows : List A)
    → ((r : A) → p r ≡ true → f r ≡ x)
    → p x ≡ true
    → find p (upsert_row p f x rows) ≡ some x
find-upsert_row p f x [] hit new = ground (arith, new)
find-upsert_row p f x (r ∷ rows) hit new = elim (Bool-cases (p r)) [
  | inl here ↦ rw (here, hit r here) (ground (arith, new))
  | inr apart ↦ rw apart (rw apart (find-upsert_row p f x rows hit new))
]

register_or_update_node-get_node :
    (node : NodeModel) (db : Database)
    → get_node node.node_id (register_or_update_node node db) ≡ some node
unfolding register_or_update_node get_node
register_or_update_node-get_node node db =
    find-upsert_row (has_node_id node.node_id) _ node db.nodes
      (λ r h.
        let same = (text_eq_iff r.node_id node.node_id).0 h in
        ap (λ id. record node { node_id = id }) same)
      (text_eq_refl node.node_id)

-- The row of a node that has just registered.
abbrev pub IsRegistered : NodeRegistrationRequest → ℕ → NodeModel → Type 0
IsRegistered req now n =
    (n.node_id ≡ req.node_id)
    × (n.hostname ≡ req.hostname)
    × (n.ip ≡ req.ip)
    × (n.port ≡ req.port)
    × (n.total_storage ≡ req.total_storage)
    × (n.available_storage ≡ req.available_storage)
    × (n.status ≡ NodeStatus.online)
    × (n.last_heartbeat ≡ now)

-- A registration with the right secret leaves a row under the node's id with the host name, the
-- address and the storage of the request, ONLINE and with a heartbeat now, also if what follows
-- raises; with a wrong secret it is answered by 403 and the state is as before.
pub register_node_outcomes :
    {W : Type 0} (env : Env W) (req : NodeRegistrationRequest) (s : State W)
    → if text_eq req.auth_secret env.auth_secret
      then ((n : NodeModel) × (get_node req.node_id (register_node env req s).1.db ≡ some n)
          × IsRegistered req s.now n)
      else register_node env req s ≡ (err (http_status 403), s)
unfolding register_node registered_node
register_node_outcomes env req s = elim (Bool-cases (text_eq req.auth_secret env.auth_secret)) [
  | inl right ↦
      (let s1 = on_db_now (λ now. register_or_update_node (registered_node req now)) s in
        let s2 = (reconcile_returning_node env req.node_id s1).1 in
        let same =
          log_event-SameTables env EventType.node_joined
            (joined_message req.node_id req.ip req.port)
            (joined_details req.node_id req.ip req.port) s2 in
        let nodes = same.nodes ∙ nodes-reconcile_returning_node env req.node_id s1 in
        rw (right, register_node)
          (
            registered_node req s.now,
            unfold get_node in
                (ap (find (has_node_id req.node_id)) nodes
                  ∙ unfold get_node in
                    register_or_update_node-get_node (registered_node req s.now) s.db),
            (refl, refl, refl, refl, refl, refl, refl, refl),
          ))
  | inr wrong ↦ rw (wrong, register_node) refl
]
