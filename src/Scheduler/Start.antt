-- ===== src/Scheduler/Start.antt =====
-- The state from which the threads of a node set out.
use icsa_artifact.Base.{
  ℕ, ◌<◌, ◌≡◌, refl, ◌∙◌, false, Option, some, List, [], arith, length, get_or, length-replicate,
}
use icsa_artifact.Base.Int.{pos, negsuc, ◌-ℤ◌}
use icsa_artifact.Text.{Text}
use icsa_artifact.Dag.{DagModule, createfollower}
use icsa_artifact.Dag.Grid.{get_or-replicate}
use icsa_artifact.Dag.Follower.{same_matrix, follower-IsSquare}
use icsa_artifact.Workers.Sum.{sum, sum-le}
use icsa_artifact.Workers.{start}
use icsa_artifact.Workers.Block.{edges}
use icsa_artifact.Scheduler.{
  Component, Scheduler, column_sum, process_indegree, is_in, extract_components, extract_block,
}
use icsa_artifact.Scheduler.Ids.{mark, DistinctBelow, sum-is_in}
use icsa_artifact.Scheduler.Share.{
  own_ids, FreshIds, take_components-dag, process_indegree-completed, process_indegree-in_degree,
  column_sum-sum,
}

module _ (parse : Text → Option (List Text × List Text)) (order : List ℕ) (headers : List Text)
    (threads : ℕ) (dag : DagModule) where
  abbrev fresh_dag : DagModule
  fresh_dag = createfollower parse order headers threads dag

  column_sum-follower :
      (i : ℕ)
      → dag.adjacency_matrix ≡ []
      → column_sum fresh_dag.adjacency_matrix i
        ≡ sum (λ p. edges parse order headers threads dag p i) (length headers)
  column_sum-follower i no_matrix =
      column_sum-sum fresh_dag.adjacency_matrix i
      ∙ rw (
        (follower-IsSquare parse order headers threads dag no_matrix).height,
        same_matrix parse order headers threads dag,
      )

  length-in_degree : length fresh_dag.in_degree ≡ length headers
  unfolding createfollower
  length-in_degree = length-replicate (length headers) (negsuc 0)

  in_degree-follower :
      (i : ℕ) → i < length headers → get_or fresh_dag.in_degree i (negsuc 0) ≡ negsuc 0
  unfolding createfollower
  in_degree-follower i h = get_or-replicate (length headers) i (negsuc 0) (negsuc 0) h

  completed-follower : fresh_dag.completed_txns ≡ pos (length headers)
  unfolding createfollower
  completed-follower = refl

  -- The ids `ids` of `n` transactions are taken.
  module _ (ids : List ℕ) where
    taken_in_degree :
        (i : ℕ)
        → dag.adjacency_matrix ≡ []
        → i < length headers
        → get_or (process_indegree ids fresh_dag).in_degree i (negsuc 0)
          ≡ (start (length headers) (edges parse order headers threads dag) (is_in ids)).in_degree i
    unfolding start
    taken_in_degree i no_matrix h =
        process_indegree-in_degree ids fresh_dag i (negsuc 0) (omega (arith, length-in_degree))
        ∙ rw (column_sum-follower i no_matrix, in_degree-follower i h)

    taken_completed :
        DistinctBelow (length headers) ids
        → (process_indegree ids fresh_dag).completed_txns
          ≡ pos
              (start (length headers) (edges parse order headers threads dag) (is_in ids)).completed
    unfolding start ◌-ℤ◌
    taken_completed distinct =
        process_indegree-completed ids fresh_dag
        ∙ rw completed-follower (
            ground (
              arith,
              sum-is_in (length headers) ids distinct,
              sum-le (λ i. mark (is_in ids i)) (length headers) (λ i. ground arith),
            ))

-- On a scheduler whose module has no matrix, if the ids of the components in the table differ from
-- each other and from those already processed, and the transactions assigned to this node are
-- different positions of the block, then `extract_block` followed by `extract_components` leaves the
-- in-degrees and the count of completed transactions from which the threads set out (`start`), for
-- the matrix that `create` fills.
pub components_start :
    (parse : Text → Option (List Text × List Text)) (order : List ℕ) (headers : List Text)
    (table : List Component) (node_id : ℕ) (s : Scheduler)
    → s.dag.adjacency_matrix ≡ []
    → FreshIds s.processed_components table
    → DistinctBelow (length headers) (own_ids node_id table)
    → let n = length headers in
      let s' =
        extract_components (some table) node_id (extract_block parse order (some headers) s) in
      let first =
        start n (edges parse order headers s.thread_count s.dag) (is_in (own_ids node_id table)) in
      ((i : ℕ) → i < n → get_or s'.dag.in_degree i (negsuc 0) ≡ first.in_degree i)
      × (s'.dag.completed_txns ≡ pos first.completed)
unfolding extract_components extract_block
components_start parse order headers table node_id s no_matrix fresh distinct =
    rw (take_components-dag false node_id table (extract_block parse order (some headers) s) fresh)
      (
        λ i h.
            taken_in_degree parse order headers s.thread_count s.dag (own_ids node_id table) i
              no_matrix h,
        taken_completed parse order headers s.thread_count s.dag (own_ids node_id table) distinct,
      )
