-- ===== src/Placement/Laws.antt =====
-- manager/placement.py: which nodes are chosen, and when none can be.
use air_store.Prelude.{
  ℕ, ◌≤◌, ◌≡◌, ◌≢◌, refl, min, Text, text_eq, Bool, true, false, Option, none, List, [], ◌∷◌,
  length, take, any, select, All, Elem, All-Elem, All-take, All-of-Elem, All-select, Elem-of_select,
  length-take, inl, inr, ◌↔◌, arith, Bool-cases, ltb,
}
use air_store.Prelude.Sort.{order_by}
use air_store.Prelude.Sort.Laws.{length-order_by, All-order_by}
use air_store.Core.Exec.{ok, err, insufficient_nodes}
use air_store.Core.Float.{Float}
use air_store.Core.Models.{ChunkModel, NodeModel, is_online}
use air_store.Placement.{
  or_empty, is_candidate, compute_node_score, sort_by_score, choose_nodes, select_nodes_for_chunk,
}

-- A node that may take a replica: ONLINE, not one that has the chunk, and with room for it.
abbrev pub IsEligible : ChunkModel → List Text → NodeModel → Type 0
IsEligible chunk existing_ids n =
    (is_online n.status ≡ true)
    × (any (text_eq n.node_id) existing_ids ≡ false)
    × (chunk.size ≤ n.available_storage)

candidate-IsEligible :
    (chunk : ChunkModel) (ids : List Text) (n : NodeModel)
    → is_candidate chunk ids n ≡ true
    → IsEligible chunk ids n
unfolding is_candidate
candidate-IsEligible chunk ids n h = ground arith

All-choose_nodes :
    (fl : Float) (P : NodeModel → Type 0) (k : ℕ) (cs : List NodeModel) {selected : List NodeModel}
    → All P cs
    → choose_nodes fl k cs ≡ ok selected
    → All P selected × (length selected ≡ min k (length cs))
unfolding choose_nodes sort_by_score
All-choose_nodes fl P k [] h e = cc
All-choose_nodes fl P k (c ∷ cs) {selected} h e =
    let before = λ (a : NodeModel) (b : NodeModel).
      fl.lt (compute_node_score fl b) (compute_node_score fl a) in
    elim (Bool-cases (ltb (length (c ∷ cs)) k)) [
      | inl few ↦ (let same : selected ≡ c ∷ cs = ground arith in rw same (h, ground arith))
      | inr many ↦
          (let same : selected ≡ take k (order_by before (c ∷ cs)) = ground arith in
            rw same (
              All-take P k (order_by before (c ∷ cs)) (All-order_by before P (c ∷ cs) h),
              ground (
                arith,
                length-take k (order_by before (c ∷ cs)),
                length-order_by before (c ∷ cs),
              ),
            ))
    ]

choose_nodes-nonempty :
    (fl : Float) (k : ℕ) (cs : List NodeModel) → 1 ≤ k → choose_nodes fl k cs ≢ ok []
unfolding choose_nodes
choose_nodes-nonempty fl k [] positive h = cc
choose_nodes-nonempty fl k (c ∷ cs) positive h =
    let (chosen, size) =
      All-choose_nodes fl (λ n. Elem n (c ∷ cs)) k (c ∷ cs)
        (All-of-Elem (λ n. Elem n (c ∷ cs)) (c ∷ cs) (λ n e. e)) h in
    absurd (ground arith)

-- Placement never selects an empty list of nodes when a replica is wanted.
pub select_nodes_for_chunk-nonempty :
    (fl : Float) (chunk : ChunkModel) (nodes : List NodeModel) (k : ℕ)
    → 1 ≤ k
    → select_nodes_for_chunk fl chunk nodes k none ≢ ok []
unfolding select_nodes_for_chunk
select_nodes_for_chunk-nonempty fl chunk nodes k positive h =
    choose_nodes-nonempty fl k (select (is_candidate chunk (or_empty none)) nodes) positive h

-- Every node that placement selects is one of the available nodes, is ONLINE, holds no replica of
-- the chunk yet and has room for it; and as many nodes are selected as were asked for, or all
-- candidates where there are fewer.
pub select_nodes_for_chunk_sound :
    (fl : Float) (chunk : ChunkModel) (nodes : List NodeModel) (k : ℕ)
    (existing : Option (List Text)) {selected : List NodeModel}
    → select_nodes_for_chunk fl chunk nodes k existing ≡ ok selected
    → All (λ n. IsEligible chunk (or_empty existing) n × Elem n nodes) selected
      × (length selected ≡ min k (length (select (is_candidate chunk (or_empty existing)) nodes)))
unfolding select_nodes_for_chunk
select_nodes_for_chunk_sound fl chunk nodes k existing h =
    let p = is_candidate chunk (or_empty existing) in
    All-choose_nodes fl (λ n. IsEligible chunk (or_empty existing) n × Elem n nodes) k
      (select p nodes)
      (All-of-Elem _ (select p nodes) (λ n e. (
        candidate-IsEligible chunk (or_empty existing) n
            (All-Elem (λ x. p x ≡ true) n (select p nodes) (All-select p nodes) e),
        Elem-of_select p n nodes e,
      )))
      h

choose_nodes_error :
    (fl : Float) (k : ℕ) (cs : List NodeModel)
    → (choose_nodes fl k cs ≡ err insufficient_nodes) ↔ (cs ≡ [])
unfolding choose_nodes
choose_nodes_error fl k [] = ((λ h. refl), (λ h. refl))
choose_nodes_error fl k (c ∷ cs) = ((λ h. absurd (ground arith)), (λ h. absurd (ground arith)))

select-eq-nil :
    (p : NodeModel → Bool) (xs : List NodeModel) → (select p xs ≡ []) ↔ All (λ n. p n ≡ false) xs
select-eq-nil p [] = ((λ h. tt), (λ h. refl))
select-eq-nil p (x ∷ xs) =
    let rest = select-eq-nil p xs in
    (
      (λ h. elim (Bool-cases (p x)) [
        | inl t ↦ absurd (ground arith)
        | inr f ↦ (f, rest.0 (ground arith))
      ]),
      (λ h. rw h.0 (rest.1 h.1)),
    )

-- Placement raises `InsufficientNodesError` exactly if no available node passes the three tests.
pub select_nodes_for_chunk_error :
    (fl : Float) (chunk : ChunkModel) (nodes : List NodeModel) (k : ℕ)
    (existing : Option (List Text))
    → (select_nodes_for_chunk fl chunk nodes k existing ≡ err insufficient_nodes)
      ↔ All (λ n. is_candidate chunk (or_empty existing) n ≡ false) nodes
unfolding select_nodes_for_chunk
select_nodes_for_chunk_error fl chunk nodes k existing =
    let p = is_candidate chunk (or_empty existing) in
    let a = choose_nodes_error fl k (select p nodes) in
    let b = select-eq-nil p nodes in ((λ h. b.0 (a.0 h)), (λ h. a.1 (b.1 h)))
