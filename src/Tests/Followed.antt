-- ===== src/Tests/Followed.antt =====
-- The parallel node on two transactions of one account.
use icsa_artifact.Base.{ℕ, ◌≡◌, refl, true, List, [], ◌∷◌, arith}
use mathlib.Core.List.Perm
use icsa_artifact.Base.Int.{◌-ℤ◌}
use icsa_artifact.Text.{Text, bytes, text_eq}
use icsa_artifact.Contract.{ok}
use icsa_artifact.Dag.{
  past_row, first_row, extract_all, extract_transaction, depends, meets, contains,
}
use icsa_artifact.Dag.Conflict.{first, write_write}
use icsa_artifact.Workers.{running, start, claim, count, release}
use icsa_artifact.Workers.Safety.{HasReleased}
use icsa_artifact.Parallel.{Call, ended, State, Runs, begin_calls, begin, next, answer, other}
use icsa_artifact.Parallel.Equal.{all_of}
use icsa_artifact.Parallel.Block.{edges}
use icsa_artifact.Parallel.Graph.{create, run_threads, dependency_matrix, fill_rows, fill_row}
use icsa_artifact.Parallel.Apart.{parallel_predecessors}
use icsa_artifact.Tests.Blocks.{own_address, clean}

abbrev same_account : List Text
same_account = bytes "a" ∷ bytes "a" ∷ []

abbrev linked : ℕ → ℕ → ℕ
linked = edges own_address (1 ∷ 0 ∷ []) same_account 2 clean

abbrev accepts : ℕ → Call
accepts i = ended (ok true)

-- The first is processed, and its thread has released the second, which is then taken.
followed : (s : State) × Runs 2 linked all_of accepts [] s × (s.system.phase 1 ≡ running)
unfolding start ◌-ℤ◌ begin_calls create run_threads dependency_matrix fill_rows fill_row past_row
    first_row extract_all extract_transaction depends meets contains text_eq
followed = (
  _,
  next
      (next
        (next
          (next (next begin (other (claim 0 (omega arith) refl) tt))
            (answer 0 true (omega arith) refl refl))
          (other (count 0 (omega arith) refl) tt))
        (other (release 0 1 (omega arith) refl (omega arith) refl) tt))
      (other (claim 1 (omega arith) refl) tt),
  refl,
)

parallel_predecessors_example : HasReleased (followed.0.system.phase 0) 1
unfolding extract_all extract_transaction text_eq
parallel_predecessors_example =
    parallel_predecessors own_address (1 ∷ 0 ∷ []) same_account 2 clean (omega arith) (Perm.refl _)
      accepts [] followed.0 followed.1 0 1 (omega arith) (omega arith)
      (rw followed.2 (ground arith)) (write_write (bytes "a") (first refl) (first refl))
