-- ===== src/Dag/Follower.antt =====
-- What `createfollower` leaves, beside `create`.
use icsa_artifact.Base.{ℕ, ◌≡◌, refl, sym, ap, ◌∙◌, Option, List, [], ◌∷◌, length}
use icsa_artifact.Text.{Text}
use icsa_artifact.Dag.{
  TransactionStruct, Matrix, DagModule, zero_row, run_threads, create, createfollower,
}
use icsa_artifact.Dag.Grid.{IsSquare, zeros-IsSquare}
use icsa_artifact.Dag.Create.{thread-IsSquare, resize-nil}

run_threads-IsSquare :
    (txns : List TransactionStruct) (n threads : ℕ) (pids : List ℕ) (m : Matrix)
    → IsSquare n m
    → IsSquare n (run_threads txns n threads pids m)
unfolding run_threads
run_threads-IsSquare txns n threads [] m s = s
run_threads-IsSquare txns n threads (pid ∷ pids) m s =
    run_threads-IsSquare txns n threads pids _ (thread-IsSquare txns n threads pid m s)

module _ (parse : Text → Option (List Text × List Text)) (order : List ℕ) (headers : List Text)
    (threads : ℕ) (dag : DagModule) where
  pub same_matrix :
      (createfollower parse order headers threads dag).adjacency_matrix
      ≡ (create parse order headers threads dag).adjacency_matrix
  unfolding create createfollower
  same_matrix = refl

  pub follower-IsSquare :
      dag.adjacency_matrix ≡ []
      → IsSquare (length headers) (createfollower parse order headers threads dag).adjacency_matrix
  unfolding createfollower
  follower-IsSquare no_matrix =
      rw (no_matrix, resize-nil (length headers) (zero_row (length headers)))
        (run_threads-IsSquare _ (length headers) threads order _ (zeros-IsSquare (length headers)))

  pub length-create :
      dag.adjacency_matrix ≡ []
      → length (create parse order headers threads dag).adjacency_matrix ≡ length headers
  length-create no_matrix = ap length (sym same_matrix) ∙ (follower-IsSquare no_matrix).height
