-- ===== src/Workers/Block.antt =====
-- The steps of Workers over the matrix that `create` of the distributed node fills for a block.
use icsa_artifact.Base.{ℕ, ◌≤◌, ◌<◌, ◌≡◌, Bool, Option, List, [], arith, length, ◌↔◌}
use icsa_artifact.Text.{Text}
use icsa_artifact.Dag.{DagModule, entry, create}
use icsa_artifact.Dag.Conflict.{Conflict}
use icsa_artifact.Dag.Create.{AllListed, txn_at, create_matrix}
use icsa_artifact.Workers.Inv.{IsDag}
use icsa_artifact.Workers.Safety.{no_conflict_runs}
use icsa_artifact.Workers.{running, System, Reach}

-- The matrix of the block.
abbrev pub edges :
    (Text → Option (List Text × List Text)) → List ℕ → List Text → ℕ → DagModule → ℕ → ℕ → ℕ
edges parse order headers threads dag a b =
    entry (create parse order headers threads dag).adjacency_matrix a b

module _ (parse : Text → Option (List Text × List Text)) (order : List ℕ) (headers : List Text)
    (threads : ℕ) (dag : DagModule) (no_txns : dag.current_transactions ≡ [])
    (no_matrix : dag.adjacency_matrix ≡ []) (some_thread : 0 < threads)
    (all : AllListed threads order) where
  facts :
      (a b : ℕ)
      → (edges parse order headers threads dag a b ≤ 1)
        × ((edges parse order headers threads dag a b ≡ 1) ↔ (
            (a < b)
            × (b < length headers)
            × Conflict (txn_at parse headers a) (txn_at parse headers b)))
  facts = create_matrix parse order headers threads dag no_txns no_matrix some_thread all

  pub block-IsDag :
      (assigned : ℕ → Bool)
      → ((p i : ℕ) → edges parse order headers threads dag p i ≡ 1 → assigned p ≡ assigned i)
      → IsDag (edges parse order headers threads dag) assigned
  block-IsDag assigned closed = record {
    binary = λ p i. (facts p i).0;
    upper = λ p i e. ((facts p i).1.0 e).0;
    closed = closed;
  }

  Conflict-edge :
      (p i : ℕ)
      → p < i
      → i < length headers
      → Conflict (txn_at parse headers p) (txn_at parse headers i)
      → edges parse order headers threads dag p i ≡ 1
  Conflict-edge p i lt inside c = (facts p i).1.1 (lt, inside, c)

-- In a state that the steps reach over a matrix that `create` filled, for a share of the block that
-- is closed under the edges of the matrix, no two transactions in the phase `running` conflict.
pub block_runs_apart :
    (parse : Text → Option (List Text × List Text)) (order : List ℕ) (headers : List Text)
    (threads : ℕ) (dag : DagModule)
    → dag.current_transactions ≡ []
    → dag.adjacency_matrix ≡ []
    → 0 < threads
    → AllListed threads order
    → (assigned : ℕ → Bool)
    → ((p i : ℕ) → edges parse order headers threads dag p i ≡ 1 → assigned p ≡ assigned i)
    → {s : System} → Reach (length headers) (edges parse order headers threads dag) assigned s
    → (p i : ℕ) → p < i
    → i < length headers
    → s.phase p ≡ running
    → s.phase i ≡ running
    → ¬ Conflict (txn_at parse headers p) (txn_at parse headers i)
block_runs_apart parse order headers threads dag no_txns no_matrix some_thread all assigned closed r
      p i lt inside run_p run_i conflict =
    (no_conflict_runs (length headers) _ assigned
        (block-IsDag parse order headers threads dag no_txns no_matrix some_thread all assigned
          closed)
        r p i (omega arith) inside run_p run_i).0
      (Conflict-edge parse order headers threads dag no_txns no_matrix some_thread all p i lt inside
        conflict)
