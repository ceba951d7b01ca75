-- ===== src/Dag.antt =====
-- BlockRAFT-distributed_node/dagModule/DAGmodule.h: the transactions of a block and their
-- dependency matrix, filled by one thread for each range of rows.
pub mod Conflict
pub mod Grid
pub mod Rows
pub mod Partition
pub mod Create
pub mod Follower
use icsa_artifact.Base.{
  ℕ, zero, suc, ◌+◌, ◌-◌, ◌*◌, ◌/◌, ◌%◌, min, Bool, true, false, ◌||◌, Option, none, some, List, [],
  ◌∷◌, ◌++◌, ltb, if◌then◌else◌, length, get_or, set, take, replicate,
}
use icsa_artifact.Base.Int.{ℤ, pos, negsuc}
use icsa_artifact.Text.{Text, text_eq}

-- `struct TransactionStruct`. A count that the code leaves uninitialised is `none`.
pub record TransactionStruct : Type 0 where
  pub txn_no : ℕ
  pub inputscount : Option ℕ
  pub inputs : List Text
  pub outputcount : Option ℕ
  pub outputs : List Text
  pub comp_id : ℤ

abbrev pub Matrix : Type 0
Matrix = List (List ℕ)

-- `class DAGmodule`; `in_degree` is the array of atomics (`[]` before it is allocated).
pub record DagModule : Type 0 where
  pub current_transactions : List TransactionStruct
  pub adjacency_matrix : Matrix
  pub in_degree : List ℤ
  pub completed_txns : ℤ
  pub last_txn : ℕ
  pub total_txns : ℕ
  pub thread_count : ℕ

-- A transaction that does not parse: no addresses, and counts that are never set.
abbrev pub no_addresses : ℕ → TransactionStruct
no_addresses position = record {
  txn_no = position;
  inputscount = none;
  inputs = [];
  outputcount = none;
  outputs = [];
  comp_id = negsuc 0;
}

-- `extractTransaction`; `parse` is the protobuf parser of a transaction's header: its input and
-- output addresses.
unfoldable pub extract_transaction :
    (Text → Option (List Text × List Text)) → Text → ℕ → TransactionStruct
extract_transaction parse header position = elim (parse header) [
  | none ↦ no_addresses position
  | some (ins, outs) ↦ record {
    txn_no = position;
    inputscount = some (length ins);
    inputs = ins;
    outputcount = some (length outs);
    outputs = outs;
    comp_id = negsuc 0;
  }
]

-- `std::find(ys.begin(), ys.end(), x) != ys.end()`
unfoldable pub contains : List Text → Text → Bool
contains [] x = false
contains (y ∷ ys) x = text_eq y x || contains ys x

-- A loop over `xs` that stops at the first address in `ys`.
unfoldable pub meets : List Text → List Text → Bool
unfolding contains
meets [] ys = false
meets (x ∷ xs) ys = contains ys x || meets xs ys

-- The three tests of `dependencyMatrix` on an earlier and a later transaction.
unfoldable pub depends : TransactionStruct → TransactionStruct → Bool
unfolding meets
depends t u = meets t.inputs u.outputs || (meets t.outputs u.inputs || meets t.outputs u.outputs)

-- `m[i][j]`; out of range it is 0.
abbrev pub entry : Matrix → ℕ → ℕ → ℕ
entry m i j = get_or (get_or m i []) j 0

-- `m[i][j] = v`
abbrev pub set_entry : Matrix → ℕ → ℕ → ℕ → Matrix
set_entry m i j v = set m i (set (get_or m i []) j v)

-- `vector<int>(n, 0)`
abbrev pub zero_row : ℕ → List ℕ
zero_row n = replicate n 0

-- The rows `[first_row, past_row)` of thread `pid`; `past_row` is the code's `end + 1`.
unfoldable pub first_row : ℕ → ℕ → ℕ → ℕ
first_row total threads pid = pid * (total / threads) + min pid (total % threads)

unfoldable pub past_row : ℕ → ℕ → ℕ → ℕ
unfolding first_row
past_row total threads pid =
    first_row total threads pid + total / threads + (if ltb pid (total % threads) then 1 else 0)

-- Whether transaction `i` conflicts with the later transaction `j`.
abbrev pub linked : List TransactionStruct → ℕ → ℕ → Bool
linked txns i j = depends (get_or txns i (no_addresses 0)) (get_or txns j (no_addresses 0))

module _ (txns : List TransactionStruct) where
  -- The inner loop: columns `j`, `j + 1`, … of row `i`, `left` of them.
  unfoldable pub fill_row : (i j left : ℕ) → Matrix → Matrix
  fill_row i j zero m = m
  fill_row i j (suc left) m =
      fill_row i (j + 1) left (if linked txns i j then set_entry m i j 1 else m)

  -- The outer loop: rows `i`, `i + 1`, …, `left` of them at most, below `total`.
  unfoldable pub fill_rows : (total i left : ℕ) → Matrix → Matrix
  unfolding fill_row
  fill_rows total i zero m = m
  fill_rows total i (suc left) m =
      let rest = fill_rows total (i + 1) left (fill_row i (i + 1) (total - (i + 1)) m) in
      if ltb i total then rest else m

  -- `dependencyMatrix(PID)`
  unfoldable pub dependency_matrix : (total threads pid : ℕ) → Matrix → Matrix
  unfolding fill_rows past_row first_row
  dependency_matrix total threads pid m =
      fill_rows total (first_row total threads pid)
        (past_row total threads pid - first_row total threads pid) m

  -- The threads of a block, one after the other in the order in which the list has them.
  unfoldable pub run_threads : (total threads : ℕ) → List ℕ → Matrix → Matrix
  unfolding dependency_matrix
  run_threads total threads [] m = m
  run_threads total threads (pid ∷ pids) m =
      run_threads total threads pids (dependency_matrix total threads pid m)

-- `vector::resize`
unfoldable pub resize {ℓ} : {A : Type ℓ} → ℕ → A → List A → List A
resize n a xs = take n xs ++ replicate (n - length xs) a

-- The loop over the transactions of a block.
unfoldable pub extract_all :
    (Text → Option (List Text × List Text)) → List Text → ℕ → List TransactionStruct
unfolding extract_transaction
extract_all parse [] position = []
extract_all parse (header ∷ headers) position =
    extract_transaction parse header position ∷ extract_all parse headers (position + 1)

-- `create`, of a block given by the headers of its transactions. `order` is the order in which the
-- threads do their work.
unfoldable pub create :
    (Text → Option (List Text × List Text))
    → (order : List ℕ) → List Text
    → (thread_count : ℕ) → DagModule
    → DagModule
unfolding extract_all resize run_threads
create parse order headers thread_count dag =
    let txns = dag.current_transactions ++ extract_all parse headers 0 in
    let total = length headers in
    record dag {
      current_transactions = txns;
      total_txns = total;
      thread_count = thread_count;
      adjacency_matrix =
          run_threads txns total thread_count order
            (resize total (zero_row total) dag.adjacency_matrix);
    }

-- `createfollower`: as `create`, with every in-degree at -1 and every transaction counted as done.
unfoldable pub createfollower :
    (Text → Option (List Text × List Text))
    → (order : List ℕ) → List Text
    → (thread_count : ℕ) → DagModule
    → DagModule
unfolding extract_all resize run_threads
createfollower parse order headers thread_count dag =
    let txns = dag.current_transactions ++ extract_all parse headers 0 in
    let total = length headers in
    record dag {
      current_transactions = txns;
      total_txns = total;
      completed_txns = pos total;
      thread_count = thread_count;
      in_degree = replicate total (negsuc 0);
      adjacency_matrix =
          run_threads txns total thread_count order
            (resize total (zero_row total) dag.adjacency_matrix);
    }

-- `dagClean`
unfoldable pub dag_clean : DagModule → DagModule
dag_clean dag = record dag {
  current_transactions = [];
  adjacency_matrix = [];
  in_degree = [];
  completed_txns = pos 0;
  last_txn = 0;
  total_txns = 0;
}
