-- ===== src/Tests/Wires.antt =====
-- A matrix sent to another node.
use icsa_artifact.Base.{
  ℕ, zero, suc, get_or, ◌<◌, ◌≡◌, refl, ap, Option, none, some, [], ◌∷◌, arith, replicate, length,
}
use icsa_artifact.Base.Int.{negsuc}
use icsa_artifact.Text.{Text}
use icsa_artifact.Dag.{DagModule, entry}
use icsa_artifact.Dag.Grid.{IsSquare}
use icsa_artifact.Scheduler.Wire.{DirectedGraph, GraphCodec, serialize_dag, extract_dag}
use icsa_artifact.Scheduler.Carry.{extract-serialize}
use icsa_artifact.Tests.Blocks.{clean}
use icsa_artifact.Tests.Tokens.{read_array, write_array, world-ReadsBack}

read_graph : Text → Option DirectedGraph
read_graph [] = none
read_graph (n ∷ cs) = elim (read_array cs) [
  | none ↦ none
  | some rows ↦ some (record { num_nodes = n; adjacency_matrix = rows })
]

write_graph : DirectedGraph → Option Text
write_graph g = some (g.num_nodes ∷ write_array g.adjacency_matrix)

some_inj : {s t : Text} → some s ≡ some t → s ≡ t
some_inj {s} h = ap (λ o. elim o as (λ _. Text) [ none ↦ s | some x ↦ x ]) h

read-write :
    (g : DirectedGraph) (text : Text) → write_graph g ≡ some text → read_graph text ≡ some g
unfolding read_graph write_graph
read-write g text e = rw (← some_inj e) (rw (read_graph, world-ReadsBack g.adjacency_matrix) refl)

abbrev codec : GraphCodec
codec = record { serialize = write_graph; parse = read_graph; parse-serialize = read-write }

-- Two transactions with an edge.
abbrev linked_dag : DagModule
linked_dag = record clean { adjacency_matrix = (0 ∷ 1 ∷ []) ∷ (0 ∷ 0 ∷ []) ∷ [] }

width_two : (i : ℕ) → i < 2 → length (get_or linked_dag.adjacency_matrix i []) ≡ 2
width_two zero h = refl
width_two (suc zero) h = refl
width_two (suc (suc i)) h = absurd (omega arith)

linked-IsSquare : IsSquare 2 linked_dag.adjacency_matrix
linked-IsSquare = record { height = refl; width = width_two }

extract-serialize_example :
    let dag' = extract_dag codec (serialize_dag codec linked_dag) clean in
    (dag'.total_txns ≡ 2)
    × (dag'.in_degree ≡ replicate 2 (negsuc 0))
    × ((a b : ℕ)
        → a < 2
        → b < 2
        → entry dag'.adjacency_matrix a b ≡ entry linked_dag.adjacency_matrix a b)
unfolding write_graph
extract-serialize_example =
    extract-serialize codec 2 linked_dag clean (2 ∷ write_array ((0 ∷ 1 ∷ []) ∷ (0 ∷ 0 ∷ []) ∷ []))
      linked-IsSquare refl refl
