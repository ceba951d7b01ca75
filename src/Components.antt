-- ===== src/Components.antt =====
-- BlockRAFT-distributed_node/dagModule/DAGmodule.h, `connectedComponents`: the transactions of a
-- block in components that no edge joins, by a disjoint-set forest.
pub mod Roots
pub mod Unite
pub mod Loops
pub mod Groups
pub mod Closed
pub mod Partition
pub mod Node
use icsa_artifact.Base.{
  ℕ, zero, suc, ◌+◌, ◌-◌, ◌*◌, Bool, true, false, not, ◌||◌, ◌==◌, ltb, List, [], ◌∷◌, ◌++◌,
  if◌then◌else◌, length,
}
use icsa_artifact.Dag.{Matrix, entry}
use icsa_artifact.Workers.{update}
use icsa_artifact.Scheduler.{Component}

-- `parent` and `rank`. Both are vectors with an entry for each transaction; beyond them they stand
-- at their first values.
pub record Forest : Type 0 where
  pub parent : ℕ → ℕ
  pub rank : ℕ → ℕ

-- `parent[x] = root`, after the recursive call.
abbrev pub compress : ℕ → ℕ × (ℕ → ℕ) → ℕ × (ℕ → ℕ)
compress x (root, parent) = (root, update parent x root)

-- `find`, with path compression: the root, and the parents afterwards.
pub find_root : (fuel : ℕ) → ℕ → (ℕ → ℕ) → ℕ × (ℕ → ℕ)
find_root zero x parent = (x, parent)
find_root (suc fuel) x parent =
    let rest = find_root fuel (parent x) parent in
    if parent x == x then (x, parent) else compress x rest

-- `unite` of two roots.
pub link : ℕ → ℕ → Forest → Forest
link root_x root_y d =
    if root_x == root_y
    then d
    else if ltb (d.rank root_x) (d.rank root_y)
    then record d { parent = update d.parent root_x root_y }
    else if ltb (d.rank root_y) (d.rank root_x)
    then record d { parent = update d.parent root_y root_x }
    else record d {
      parent = update d.parent root_y root_x;
      rank = update d.rank root_x (d.rank root_x + 1);
    }

pub unite : (fuel : ℕ) → ℕ → ℕ → Forest → Forest
unfolding find_root link
unite fuel x y d =
    let (root_x, parent1) = find_root fuel x d.parent in
    let (root_y, parent2) = find_root fuel y parent1 in
    link root_x root_y (record d { parent = parent2 })

module _ (m : Matrix) (fuel : ℕ) where
  -- The inner loop: columns `j`, `j + 1`, … of row `i`, `left` of them.
  pub unite_row : (i j left : ℕ) → Forest → Forest
  unfolding unite
  unite_row i j zero d = d
  unite_row i j (suc left) d =
      unite_row i (j + 1) left
        (if not (entry m i j == 0) || not (entry m j i == 0) then unite fuel i j d else d)

  -- The outer loop: rows `i`, `i + 1`, …, `left` of them, of `n`.
  pub unite_rows : (n i left : ℕ) → Forest → Forest
  unfolding unite_row
  unite_rows n i zero d = d
  unite_rows n i (suc left) d = unite_rows n (i + 1) left (unite_row i (i + 1) (n - (i + 1)) d)

-- `componentsMap[root].push_back(i)`
pub add_to : ℕ → ℕ → List (ℕ × List ℕ) → List (ℕ × List ℕ)
add_to root i [] = (root, i ∷ []) ∷ []
add_to root i ((k, xs) ∷ groups) =
    if k == root then (k, xs ++ (i ∷ [])) ∷ groups else (k, xs) ∷ add_to root i groups

-- Transactions `i`, `i + 1`, …, `left` of them, put into the group of their root.
pub group_all : (fuel i left : ℕ) → (ℕ → ℕ) → List (ℕ × List ℕ) → List (ℕ × List ℕ)
unfolding find_root add_to
group_all fuel i zero parent groups = groups
group_all fuel i (suc left) parent groups =
    let (root, parent') = find_root fuel i parent in
    group_all fuel (i + 1) left parent' (add_to root i groups)

-- The loop that fills the table. No follower is assigned yet: the field has the default of protobuf.
pub number_components : (comp_id : ℕ) → List (ℕ × List ℕ) → List Component
number_components comp_id [] = []
number_components comp_id ((root, txns) ∷ groups) =
    record { transaction_list = txns; assigned_follower = 0; comp_id = comp_id }
    ∷ number_components (comp_id + 1) groups

-- `parent[i] = i`, every rank 0.
abbrev pub singles : Forest
singles = record { parent = λ x. x; rank = λ x. 0 }

-- One more than the number of pairs of transactions: `find` does not need more calls than that.
abbrev pub enough : Matrix → ℕ
enough m = length m * length m + 1

-- The forest after the loops over the matrix.
pub joined : Matrix → Forest
unfolding unite_rows
joined m = unite_rows m (enough m) (length m) 0 (length m) singles

-- `connectedComponents`. The groups stand in the order of their first transactions, where the
-- order of an `unordered_map` is unspecified.
unfoldable pub connected_components : Matrix → List Component
unfolding joined group_all number_components
connected_components m =
    number_components 0 (group_all (enough m) 0 (length m) (joined m).parent [])
