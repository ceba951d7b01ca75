-- ===== src/Serial.antt =====
-- singleNode-serial/dagModule/DAGmodule.h: the dependency graph of the serial node. The fields and
-- `extractTransaction` are those of the distributed node's module.
pub mod Compare
pub mod Degrees
pub mod Build
pub mod Step
pub mod Run
pub mod Order
pub mod Spin
pub mod Nft
use icsa_artifact.Base.{
  ℕ, zero, suc, ◌+◌, ◌-◌, ◌==◌, Bool, true, false, ◌||◌, Option, none, some, List, [], ◌∷◌, ◌++◌,
  ltb, if◌then◌else◌, length, get_elem?, get_or, set, replicate,
}
use icsa_artifact.Base.Int.{ℤ, pos, negsuc, ◌+ℤ◌, ◌-ℤ◌}
use icsa_artifact.Text.{Text, text_eq}
use icsa_artifact.Dag.{
  Matrix, TransactionStruct, DagModule, no_addresses, entry, set_entry, zero_row, resize,
  extract_all,
}

-- The loop over `ys[k]`, …, `left` of them, against `xs[j]`. Reading past an end is undefined:
-- `none`.
pub seek : List Text → ℕ → List Text → (k left : ℕ) → Bool → Option Bool
seek xs j ys k zero flag = some flag
seek xs j ys k (suc left) flag = elim (get_elem? xs j) [
  | none ↦ none
  | some x ↦ elim (get_elem? ys k) [
    | none ↦ none
    | some y ↦ seek xs j ys (suc k) left (flag || text_eq x y)
  ]
]

-- The loop over `xs[j]`, …, `left` of them, against the first `count` of `ys`; an uninitialised
-- count is undefined.
pub compare : List Text → (j left : ℕ) → Option ℕ → List Text → Bool → Option Bool
unfolding seek
compare xs j zero count ys flag = some flag
compare xs j (suc left) count ys flag = elim count [
  | none ↦ none
  | some n ↦ elim (seek xs j ys 0 n flag) [
    | none ↦ none
    | some flag' ↦ compare xs (suc j) left (some n) ys flag'
  ]
]

abbrev pub compare_all : Option ℕ → List Text → Option ℕ → List Text → Option Bool
compare_all none xs count ys = none
compare_all (some n) xs count ys = compare xs 0 n count ys false

-- The next test, if the one before left the flag unset.
abbrev pub or_else : Option Bool → Option Bool → Option Bool
or_else none next = none
or_else (some true) next = some true
or_else (some false) next = next

-- The three tests of `dependencyMatrix` on an earlier and a later transaction.
pub flag_of : TransactionStruct → TransactionStruct → Option Bool
unfolding compare
flag_of t u = or_else (compare_all t.inputscount t.inputs u.outputcount u.outputs) (
    or_else (compare_all t.outputcount t.outputs u.inputscount u.inputs)
      (compare_all t.outputcount t.outputs u.outputcount u.outputs))

-- `adjacencyMatrix` and `inDegree`
abbrev pub Graph : Type 0
Graph = Matrix × List ℤ

-- `adjacencyMatrix[i][j] = 1; inDegree[j].fetch_add(1);`
abbrev pub add_edge : ℕ → ℕ → Graph → Graph
add_edge i j (m, degrees) = (set_entry m i j 1, set degrees j (get_or degrees j (pos 0) +ℤ pos 1))

module _ (txns : List TransactionStruct) where
  abbrev pub flag_at : ℕ → ℕ → Option Bool
  flag_at i j = flag_of (get_or txns i (no_addresses 0)) (get_or txns j (no_addresses 0))

  -- The inner loop of `dependencyMatrix`: columns `j`, `j + 1`, … of row `i`, `left` of them.
  pub fill_row : (i j left : ℕ) → Graph → Option Graph
  unfolding flag_of
  fill_row i j zero g = some g
  fill_row i j (suc left) g = elim (flag_at i j) [
    | none ↦ none
    | some flag ↦ fill_row i (suc j) left (if flag then add_edge i j g else g)
  ]

  -- The outer loop: rows `i`, `i + 1`, …, `left` of them.
  pub fill_rows : (total i left : ℕ) → Graph → Option Graph
  unfolding fill_row
  fill_rows total i zero g = some g
  fill_rows total i (suc left) g = elim (fill_row i (suc i) (total - suc i) g) [
    | none ↦ none
    | some g' ↦ fill_rows total (suc i) left g'
  ]

-- `dependencyMatrix` on the transactions, the resized matrix and zero in-degrees.
pub fill : List TransactionStruct → ℕ → Matrix → DagModule → Option DagModule
unfolding fill_rows
fill txns total m dag = elim (fill_rows txns total 0 total (m, replicate total (pos 0))) [
  | none ↦ none
  | some (m', degrees) ↦ some (record dag {
    current_transactions = txns;
    total_txns = total;
    adjacency_matrix = m';
    in_degree = degrees;
  })
]

-- `create`, of a block given by the headers of its transactions.
unfoldable pub create :
    (Text → Option (List Text × List Text)) → List Text → DagModule → Option DagModule
unfolding fill extract_all resize
create parse headers dag =
    fill (dag.current_transactions ++ extract_all parse headers 0) (length headers)
      (resize (length headers) (zero_row (length headers)) dag.adjacency_matrix) dag

-- `inDegree[i].load() == 0`; the array has `totalTxns` elements.
abbrev pub is_free : List ℤ → ℕ → Bool
is_free degrees i = elim (get_or degrees i (negsuc 0)) [ pos d ↦ d == 0 | negsuc d ↦ false ]

-- One loop of `selectTxn`, from index `i` on.
unfoldable pub scan : (i left : ℕ) → DagModule → Option ℕ × DagModule
scan i zero dag = (none, dag)
scan i (suc left) dag =
    let rest = scan (suc i) left dag in
    if is_free dag.in_degree i
    then (some i, record dag { in_degree = set dag.in_degree i (negsuc 0); last_txn = i })
    else rest

-- The second loop of `selectTxn`, which starts at 0 again.
pub second_loop : Option ℕ × DagModule → Option ℕ × DagModule
unfolding scan
second_loop (some i, dag) = (some i, dag)
second_loop (none, dag) = scan 0 dag.total_txns dag

-- `selectTxn`; the answer -1 is `none`.
unfoldable pub select_txn : DagModule → Option ℕ × DagModule
unfolding second_loop
select_txn dag = second_loop (scan 0 dag.total_txns dag)

-- The loop of `complete`: indices `i`, `i + 1`, …, `left` of them.
unfoldable pub release : Matrix → ℕ → (i left : ℕ) → List ℤ → List ℤ
release m txn_id i zero degrees = degrees
release m txn_id i (suc left) degrees =
    release m txn_id (suc i) left
      (if entry m txn_id i == 1 then set degrees i (get_or degrees i (pos 0) -ℤ pos 1) else degrees)

-- `complete`
unfoldable pub complete : ℕ → DagModule → DagModule
unfolding release
complete txn_id dag =
    if ltb txn_id dag.total_txns
    then record dag {
      in_degree =
          release dag.adjacency_matrix txn_id (suc txn_id) (dag.total_txns - suc txn_id)
            (set dag.in_degree txn_id (get_or dag.in_degree txn_id (pos 0) -ℤ pos 1));
      completed_txns = dag.completed_txns +ℤ pos 1;
    }
    else dag
