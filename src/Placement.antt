-- ===== src/Placement.antt =====
-- airstore/manager/placement.py: which nodes get the replicas of a chunk.
pub mod Laws
use air_store.Prelude.{
  ℕ, ltb, leb, Text, text_eq, Bool, ◌&&◌, negb, Option, none, some, List, [], ◌∷◌, length, take,
  any, select, if◌then◌else◌,
}
use air_store.Prelude.Sort.{order_by}
use air_store.Core.Exec.{Result, ok, err, insufficient_nodes}
use air_store.Core.Models.{ChunkModel, NodeModel, is_online}
use air_store.Core.Float.{Float}

-- `existing_replica_node_ids or []`
abbrev pub or_empty : Option (List Text) → List Text
or_empty none = []
or_empty (some ids) = ids

-- The three conditions of the comprehension.
unfoldable pub is_candidate : ChunkModel → List Text → NodeModel → Bool
is_candidate chunk existing_ids node =
    is_online node.status
    && (negb (any (text_eq node.node_id) existing_ids) && leb chunk.size node.available_storage)

module _ (fl : Float) where
  unfoldable pub compute_node_score : NodeModel → ℕ
  compute_node_score n =
      let free_ratio =
        if ltb 0 n.total_storage
        then fl.ratio n.available_storage n.total_storage
        else fl.literal 10 1 in
      fl.add (fl.mul (fl.div (fl.ratio n.available_storage 1024) (fl.of_int 1024)) (fl.literal 7 1))
        (fl.mul (fl.mul free_ratio (fl.literal 1000 1)) (fl.literal 3 1))

  -- `sorted(candidates, key=compute_node_score, reverse=True)`
  unfoldable pub sort_by_score : List NodeModel → List NodeModel
  sort_by_score = order_by (λ a b. fl.lt (compute_node_score b) (compute_node_score a))

  -- All candidates where they are too few, otherwise the best of them.
  unfoldable pub choose_nodes : ℕ → List NodeModel → Result (List NodeModel)
  choose_nodes replication_factor [] = err insufficient_nodes
  choose_nodes replication_factor (c ∷ cs) =
      if ltb (length (c ∷ cs)) replication_factor
      then ok (c ∷ cs)
      else ok (take replication_factor (sort_by_score (c ∷ cs)))

  -- `RuleBasedPlacementStrategy`
  unfoldable pub select_nodes_for_chunk :
      ChunkModel → List NodeModel → ℕ → Option (List Text) → Result (List NodeModel)
  unfolding choose_nodes
  select_nodes_for_chunk chunk available_nodes replication_factor existing_replica_node_ids =
      choose_nodes replication_factor
        (select (is_candidate chunk (or_empty existing_replica_node_ids)) available_nodes)

  -- `AIPlacementStrategy`, which falls back to the rules.
  unfoldable pub ai_select_nodes_for_chunk :
      ChunkModel → List NodeModel → ℕ → Option (List Text) → Result (List NodeModel)
  unfolding select_nodes_for_chunk
  ai_select_nodes_for_chunk = select_nodes_for_chunk
