-- ===== src/Scheduler.antt =====
-- BlockRAFT-distributed_node/scheduler/scheduler.h: how a node sets up the dependency graph of a
-- block and takes the components that the leader assigned to it.
pub mod Ids
pub mod Share
pub mod Start
pub mod Wire
pub mod Carry
use icsa_artifact.Base.{
  ℕ, ◌+◌, Bool, true, false, not, ◌||◌, ◌==◌, Option, none, some, List, [], ◌∷◌, if◌then◌else◌,
  get_or, set,
}
use icsa_artifact.Base.Int.{pos, ◌-ℤ◌}
use icsa_artifact.Text.{Text}
use icsa_artifact.Dag.{Matrix, DagModule, createfollower}

-- `components::componentsTable::component`. The leader numbers components, followers and
-- transactions from 0 on.
pub record Component : Type 0 where
  pub transaction_list : List ℕ
  pub assigned_follower : ℕ
  pub comp_id : ℕ

-- The fields of `scheduler` that the functions below read or write. A transaction is its header.
pub record Scheduler : Type 0 where
  pub dag : DagModule
  pub processed_components : List ℕ
  pub thread_count : ℕ  -- not initialised when `extractBlock` reads it: whatever number is there
  pub transactions : List Text
  pub update_flag : Bool

-- `columnSum`: the rows that have the column.
pub column_sum : Matrix → ℕ → ℕ
column_sum [] col = 0
column_sum (row ∷ rows) col = get_or row col 0 + column_sum rows col

-- `ProcessIndegree`, of the transactions of a component.
pub process_indegree : List ℕ → DagModule → DagModule
unfolding column_sum
process_indegree [] dag = dag
process_indegree (col ∷ cols) dag = process_indegree cols (record dag {
  in_degree = set dag.in_degree col (pos (column_sum dag.adjacency_matrix col));
  completed_txns = dag.completed_txns -ℤ pos 1;
})

-- `processed_components.find(id) != processed_components.end()`
unfoldable pub is_in : List ℕ → ℕ → Bool
is_in [] x = false
is_in (y ∷ ys) x = y == x || is_in ys x

-- `CheckForNewComponents`
pub check_for_new_components : Component → Scheduler → Bool × Scheduler
check_for_new_components c s =
    if is_in s.processed_components c.comp_id
    then (false, s)
    else (true, record s { processed_components = c.comp_id ∷ s.processed_components })

-- The body of the loops below. `marks_update` is the `updateFlag.store(true)` of the second one.
pub take_component : (marks_update : Bool) → ℕ → Component → Scheduler → Scheduler
unfolding check_for_new_components process_indegree
take_component marks_update node_id c s =
    if node_id == c.assigned_follower
    then (let (new, s') = check_for_new_components c s in
        if new
        then record s' {
          dag = process_indegree c.transaction_list s'.dag;
          update_flag = marks_update || s'.update_flag;
        }
        else s')
    else s

pub take_components : Bool → ℕ → List Component → Scheduler → Scheduler
unfolding take_component
take_components marks_update node_id [] s = s
take_components marks_update node_id (c ∷ cs) s =
    take_components marks_update node_id cs (take_component marks_update node_id c s)

-- `ExtractComponents`, of what the serialized table parses to.
unfoldable pub extract_components : Option (List Component) → ℕ → Scheduler → Scheduler
unfolding take_components
extract_components table node_id s = elim table [
  | none ↦ s
  | some cs ↦ record (take_components false node_id cs s) { update_flag = true }
]

-- `ExtractNewComponents`
unfoldable pub extract_new_components : Option (List Component) → ℕ → Scheduler → Scheduler
unfolding take_components
extract_new_components table node_id s = elim table [
  | none ↦ s
  | some cs ↦ take_components true node_id cs s
]

-- `extractBlock`, of the headers of the transactions that the block parses to.
unfoldable pub extract_block :
    (Text → Option (List Text × List Text))
    → (order : List ℕ) → Option (List Text)
    → Scheduler
    → Scheduler
extract_block parse order block s = elim block [
  | none ↦ s
  | some headers ↦ record s {
    transactions = headers;
    dag = createfollower parse order headers s.thread_count s.dag;
  }
]
