-- ===== src/Parallel/Graph.antt =====
-- singleNode-parallel/dagModule/DAGmodule.h: the dependency graph of the single node, whose threads
-- fill the matrix and count the in-degrees together. The fields, `extractTransaction`, the tests on
-- two transactions and the ranges of the threads are those of the distributed node's module.
use icsa_artifact.Base.{
  ℕ, zero, suc, ◌-◌, Option, List, [], ◌∷◌, if◌then◌else◌, length, replicate, get_or, set, ltb,
}
use icsa_artifact.Base.Int.{ℤ, pos, negsuc, ◌+ℤ◌, ◌-ℤ◌}
use icsa_artifact.Text.{Text}
use icsa_artifact.Dag.{
  TransactionStruct, DagModule, linked, zero_row, extract_all, first_row, past_row,
}
use icsa_artifact.Serial.{Graph, add_edge, scan, release}

module _ (txns : List TransactionStruct) where
  -- The inner loop of `dependencyMatrix`: columns `j`, `j + 1`, … of row `i`, `left` of them.
  unfoldable pub fill_row : (i j left : ℕ) → Graph → Graph
  fill_row i j zero g = g
  fill_row i j (suc left) g =
      fill_row i (suc j) left (if linked txns i j then add_edge i j g else g)

  -- The outer loop: rows `i`, `i + 1`, …, `left` of them.
  unfoldable pub fill_rows : (total i left : ℕ) → Graph → Graph
  unfolding fill_row
  fill_rows total i zero g = g
  fill_rows total i (suc left) g =
      fill_rows total (suc i) left (fill_row i (suc i) (total - suc i) g)

  -- `dependencyMatrix(PID)`
  unfoldable pub dependency_matrix : (total threads pid : ℕ) → Graph → Graph
  unfolding fill_rows
  dependency_matrix total threads pid g =
      fill_rows total (first_row total threads pid)
        (past_row total threads pid - first_row total threads pid) g

  -- The threads, one after the other in the order of the list.
  unfoldable pub run_threads : (total threads : ℕ) → List ℕ → Graph → Graph
  unfolding dependency_matrix
  run_threads total threads [] g = g
  run_threads total threads (pid ∷ pids) g =
      run_threads total threads pids (dependency_matrix total threads pid g)

-- `create`, of a block given by the headers of its transactions.
unfoldable pub create :
    (Text → Option (List Text × List Text))
    → (order : List ℕ) → List Text
    → (thread_count : ℕ) → DagModule
    → DagModule
unfolding extract_all run_threads
create parse order headers thread_count dag =
    let txns = extract_all parse headers 0 in
    let total = length headers in
    let (m, degrees) =
      run_threads txns total thread_count order
        (replicate total (zero_row total), replicate total (pos 0)) in
    record dag {
      current_transactions = txns;
      total_txns = total;
      thread_count = thread_count;
      adjacency_matrix = m;
      in_degree = degrees;
    }

-- `selectTxn`, with no other thread in between; the answer -1 is `none`.
unfoldable pub select_txn : DagModule → Option ℕ × DagModule
unfolding scan
select_txn dag = scan 0 dag.total_txns dag

-- `complete`, with no other thread in between.
unfoldable pub complete : ℤ → DagModule → DagModule
unfolding release
complete (negsuc k) dag = dag
complete (pos txn_id) dag =
    if ltb txn_id dag.total_txns
    then record dag {
      in_degree =
          release dag.adjacency_matrix txn_id (suc txn_id) (dag.total_txns - suc txn_id)
            (set dag.in_degree txn_id (get_or dag.in_degree txn_id (pos 0) -ℤ pos 1));
      completed_txns = dag.completed_txns +ℤ pos 1;
    }
    else dag
