-- ===== src/Tests/Blocks.antt =====
-- A block of three transactions, the first and the last on one address.
use icsa_artifact.Base.{◌<◌, ◌≤◌, ◌≡◌, ◌↔◌, refl, Option, some, List, [], ◌∷◌, arith, length}
use icsa_artifact.Base.Int.{pos}
use icsa_artifact.Text.{Text, bytes, text_eq}
use icsa_artifact.Dag.{DagModule, depends, entry, create}
use icsa_artifact.Dag.Conflict.{Conflict}
use icsa_artifact.Dag.Create.{txn_at, create_matrix}

-- A header that is the one address read and written.
abbrev pub own_address : Text → Option (List Text × List Text)
own_address header = some (header ∷ [], header ∷ [])

abbrev pub clean : DagModule
clean = record {
  current_transactions = [];
  adjacency_matrix = [];
  in_degree = [];
  completed_txns = pos 0;
  last_txn = 0;
  total_txns = 0;
  thread_count = 0;
}

abbrev block : List Text
block = bytes "a" ∷ bytes "b" ∷ bytes "a" ∷ []

create_matrix_example :
    let e = entry (create own_address (1 ∷ 0 ∷ []) block 2 clean).adjacency_matrix 0 2 in
    (e ≤ 1)
    × ((e ≡ 1) ↔ (
        (0 < 2)
        × (2 < length block)
        × Conflict (txn_at own_address block 0) (txn_at own_address block 2)))
create_matrix_example =
    create_matrix own_address (1 ∷ 0 ∷ []) block 2 clean refl refl (omega arith)
      (λ pid h. omega arith) 0 2

block_matrix :
    (create own_address (1 ∷ 0 ∷ []) block 2 clean).adjacency_matrix
    ≡ (0 ∷ 0 ∷ 1 ∷ []) ∷ (0 ∷ 0 ∷ 0 ∷ []) ∷ (0 ∷ 0 ∷ 0 ∷ []) ∷ []
unfolding create depends text_eq
block_matrix = refl
