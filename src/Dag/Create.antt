-- ===== src/Dag/Create.antt =====
-- The matrix that `create` leaves, for any number of threads and any order of their work.
use icsa_artifact.Base.{
  ℕ, zero, suc, ◌≤◌, ◌<◌, ◌≡◌, refl, ◌∙◌, subst, Bool, true, false, ◌&&◌, ◌||◌, Option, List, [],
  ◌∷◌, arith, ltb, leb, ltb→lt, if◌then◌else◌, length, replicate, Bool-cases, inl, inr, ◌⊎◌, ◌↔◌,
  get_or,
}
use icsa_artifact.Text.{Text}
use icsa_artifact.Dag.{
  Matrix, no_addresses, entry, zero_row, linked, dependency_matrix, run_threads, first_row,
  past_row, resize, extract_all, TransactionStruct, DagModule, create,
}
use icsa_artifact.Dag.Conflict.{Conflict, depends_iff}
use icsa_artifact.Dag.Grid.{IsSquare, zeros-IsSquare, entry-zeros}
use icsa_artifact.Dag.Rows.{is_set, entry-fill_rows, fill_rows-IsSquare}
use icsa_artifact.Dag.Partition.{first_row-le, rows_partitioned}

-- Whether one of the threads listed has the row.
abbrev pub covered : (total threads : ℕ) → List ℕ → ℕ → Bool
covered total threads [] a = false
covered total threads (pid ∷ pids) a =
    (leb (first_row total threads pid) a && ltb a (past_row total threads pid))
    || covered total threads pids a

abbrev pub Listed : ℕ → List ℕ → Type 0
Listed pid [] = ⊥
Listed pid (p ∷ pids) = (pid ≡ p) ⊎ Listed pid pids

covered_of_Listed :
    (total threads pid a : ℕ) (pids : List ℕ)
    → Listed pid pids
    → first_row total threads pid ≤ a
    → a < past_row total threads pid
    → covered total threads pids a ≡ true
covered_of_Listed total threads pid a [] l lo hi = absurd l
covered_of_Listed total threads pid a (p ∷ pids) (inl e) lo hi =
    subst (λ q. covered total threads (q ∷ pids) a ≡ true) e (ground arith)
covered_of_Listed total threads pid a (p ∷ pids) (inr l) lo hi =
    ground (arith, covered_of_Listed total threads pid a pids l lo hi)

module _ (txns : List TransactionStruct) (n threads : ℕ) where
  pub thread-IsSquare :
      (pid : ℕ) (m : Matrix) → IsSquare n m → IsSquare n (dependency_matrix txns n threads pid m)
  unfolding dependency_matrix
  thread-IsSquare pid m s = fill_rows-IsSquare txns n _ _ m s

  entry-thread :
      (pid a b : ℕ) (m : Matrix)
      → IsSquare n m
      → entry (dependency_matrix txns n threads pid m) a b ≡ (
          if (leb (first_row n threads pid) a && ltb a (past_row n threads pid))
            && is_set txns n a b
          then 1
          else entry m a b)
  unfolding dependency_matrix
  entry-thread pid a b m s =
      entry-fill_rows txns n _ _ a b m s ∙ ground (arith, first_row-le n threads pid)

  entry-run_threads :
      (pids : List ℕ) (a b : ℕ) (m : Matrix)
      → IsSquare n m
      → entry (run_threads txns n threads pids m) a b
        ≡ (if covered n threads pids a && is_set txns n a b then 1 else entry m a b)
  unfolding run_threads
  entry-run_threads [] a b m s = refl
  entry-run_threads (pid ∷ pids) a b m s =
      entry-run_threads pids a b _ (thread-IsSquare pid m s)
      ∙ rw (entry-thread pid a b m s) (ground arith)

-- Every thread is in the list.
abbrev pub AllListed : ℕ → List ℕ → Type 0
AllListed threads order = (pid : ℕ) → pid < threads → Listed pid order

-- What the matrix of a block of `n` transactions has to say: 1 for an earlier transaction `a` and a
-- later one `b` where one reads or writes what the other writes, and 0 elsewhere.
abbrev pub conflict_entry : List TransactionStruct → ℕ → ℕ → ℕ → ℕ
conflict_entry txns n a b = if ltb a b && (ltb b n && linked txns a b) then 1 else 0

conflict_entry_test :
    (txns : List TransactionStruct) (n a b : ℕ)
    → (conflict_entry txns n a b ≡ 1) ↔ ((a < b) × (b < n) × (linked txns a b ≡ true))
conflict_entry_test txns n a b = elim (Bool-cases (linked txns a b)) [
  | inl linked_ab ↦ rw linked_ab (ground arith)
  | inr free ↦ rw free (ground arith)
]

pub conflict_entry_iff :
    (txns : List TransactionStruct) (n a b : ℕ)
    → (conflict_entry txns n a b ≡ 1) ↔ (
        (a < b)
        × (b < n)
        × Conflict (get_or txns a (no_addresses 0)) (get_or txns b (no_addresses 0)))
conflict_entry_iff txns n a b =
    let (to, from) = conflict_entry_test txns n a b in
    let (found, back) =
      depends_iff (get_or txns a (no_addresses 0)) (get_or txns b (no_addresses 0)) in
    (λ e. ((to e).0, (to e).1, found (to e).2), λ c. from (c.0, c.1, back c.2))

pub filled :
    (txns : List TransactionStruct) (n threads : ℕ) (order : List ℕ) (a b : ℕ)
    → 0 < threads
    → AllListed threads order
    → entry (run_threads txns n threads order (replicate n (zero_row n))) a b
      ≡ conflict_entry txns n a b
filled txns n threads order a b some_thread all =
    entry-run_threads txns n threads order a b _ (zeros-IsSquare n)
    ∙ rw (entry-zeros n n a b) (elim (Bool-cases (ltb a n)) [
      | inl row ↦
          let (pid, below, lo, hi, _) = rows_partitioned n threads a some_thread (ltb→lt a n row) in
          rw (covered_of_Listed n threads pid a order (all pid below) lo hi) (ground arith)
      | inr out ↦ ground arith
    ])

pub resize-nil {ℓ} : {A : Type ℓ} (n : ℕ) (a : A) → resize n a [] ≡ replicate n a
unfolding resize
resize-nil zero a = refl
resize-nil (suc n) a = ground arith

pub entry-create :
    (parse : Text → Option (List Text × List Text)) (order : List ℕ) (headers : List Text)
    (threads : ℕ) (dag : DagModule)
    → dag.current_transactions ≡ []
    → dag.adjacency_matrix ≡ []
    → 0 < threads
    → AllListed threads order
    → (a b : ℕ)
    → entry (create parse order headers threads dag).adjacency_matrix a b
      ≡ conflict_entry (extract_all parse headers 0) (length headers) a b
unfolding create
entry-create parse order headers threads dag no_txns no_matrix some_thread all a b =
    rw (no_txns, no_matrix, resize-nil (length headers) (zero_row (length headers)))
      (filled _ (length headers) threads order a b some_thread all)

-- The transaction at a position of a block.
abbrev pub txn_at : (Text → Option (List Text × List Text)) → List Text → ℕ → TransactionStruct
txn_at parse headers a = get_or (extract_all parse headers 0) a (no_addresses 0)

-- On a clean module, with one thread at least and every thread run once or more, in any order,
-- every entry of the matrix that `create` leaves is 0 or 1, and it is 1 exactly if the row's
-- transaction is an earlier one of the block than the column's and the two conflict.
pub create_matrix :
    (parse : Text → Option (List Text × List Text)) (order : List ℕ) (headers : List Text)
    (threads : ℕ) (dag : DagModule)
    → dag.current_transactions ≡ []
    → dag.adjacency_matrix ≡ []
    → 0 < threads
    → AllListed threads order
    → (a b : ℕ)
    → let e = entry (create parse order headers threads dag).adjacency_matrix a b in
      (e ≤ 1)
      × ((e ≡ 1) ↔ (
          (a < b)
          × (b < length headers)
          × Conflict (txn_at parse headers a) (txn_at parse headers b)))
create_matrix parse order headers threads dag no_txns no_matrix some_thread all a b =
    rw (entry-create parse order headers threads dag no_txns no_matrix some_thread all a b)
      (ground arith, conflict_entry_iff (extract_all parse headers 0) (length headers) a b)
