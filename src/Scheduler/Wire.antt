-- ===== src/Scheduler/Wire.antt =====
-- `serializeDAG` of BlockRAFT-distributed_node/dagModule/DAGmodule.h and `extractDAG` of
-- scheduler/scheduler.h: the matrix as a protobuf message.
use icsa_artifact.Base.{
  ℕ, suc, ◌≡◌, Option, none, some, List, [], ◌∷◌, ltb, if◌then◌else◌, length, get_or, replicate,
}
use icsa_artifact.Base.Int.{pos, negsuc}
use icsa_artifact.Text.{Text}
use icsa_artifact.Dag.{Matrix, DagModule, set_entry, zero_row, resize}

-- `matrix::DirectedGraph`
pub record DirectedGraph : Type 0 where
  pub num_nodes : ℕ
  pub adjacency_matrix : List (List ℕ)

-- What the code asks of protobuf for this message: `SerializeToString` and `ParseFromString`. A text
-- that was written is read back.
pub record GraphCodec : Type 0 where
  pub serialize : DirectedGraph → Option Text
  pub parse : Text → Option DirectedGraph
  pub parse-serialize :
      (g : DirectedGraph) (text : Text) → serialize g ≡ some text → parse text ≡ some g

-- The inner loop of `extractDAG`: the edges of row `i` from column `j` on.
unfoldable pub copy_edges : ℕ → ℕ → List ℕ → Matrix → Matrix
copy_edges i j [] m = m
copy_edges i j (edge ∷ edges) m =
    copy_edges i (suc j) edges (if ltb j (length (get_or m i [])) then set_entry m i j edge else m)

-- The outer loop: the rows from `i` on; a row past the end of the matrix is left out.
unfoldable pub copy_rows : ℕ → List (List ℕ) → Matrix → Matrix
unfolding copy_edges
copy_rows i [] m = m
copy_rows i (row ∷ rows) m =
    copy_rows (suc i) rows (if ltb i (length m) then copy_edges i 0 row m else m)

module _ (codec : GraphCodec) where
  -- `serializeDAG`
  unfoldable pub serialize_dag : DagModule → Text
  serialize_dag dag =
      elim (codec.serialize (record {
        num_nodes = length dag.adjacency_matrix;
        adjacency_matrix = dag.adjacency_matrix;
      })) [ none ↦ [] | some text ↦ text ]

  -- `extractDAG`
  unfoldable pub extract_dag : Text → DagModule → DagModule
  unfolding copy_rows resize
  extract_dag text dag = elim (codec.parse text) [
    | none ↦ dag
    | some g ↦ record dag {
      total_txns = g.num_nodes;
      completed_txns = pos g.num_nodes;
      in_degree = replicate g.num_nodes (negsuc 0);
      adjacency_matrix =
          copy_rows 0 g.adjacency_matrix
            (resize g.num_nodes (zero_row g.num_nodes) dag.adjacency_matrix);
    }
  ]
