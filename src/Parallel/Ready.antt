-- ===== src/Parallel/Ready.antt =====
-- singleNode-parallel/scheduler/scheduler.h, `clear` and `extractBlock`: what the scheduler does
-- between two blocks.
use icsa_artifact.Base.{
  ℕ, ◌<◌, ◌≡◌, refl, ap, Bool, true, Option, List, [], arith, length, Perm, zero, suc,
}
use icsa_artifact.Base.Int.{pos}
use icsa_artifact.Text.{Text}
use icsa_artifact.Contract.{Map}
use icsa_artifact.Dag.{DagModule, entry, dag_clean}
use icsa_artifact.Serial.Run.{Transaction}
use icsa_artifact.Workers.{start}
use icsa_artifact.Workers.Sum.{sum}
use icsa_artifact.Parallel.Block.{headers_of}
use icsa_artifact.Parallel.Equal.{all_of}
use icsa_artifact.Parallel.Filled.{create-Built}
use icsa_artifact.Parallel.Graph.{create}
use icsa_artifact.Parallel.Refine.{Shows}
use icsa_artifact.Parallel.Threads.{countdown}

-- The fields of `scheduler` between two blocks.
pub record Scheduler : Type 0 where
  pub dag : DagModule
  pub transactions : List Transaction
  pub my_map : Map
  pub flag : Bool

-- `clear`
unfoldable pub clear : Scheduler → Scheduler
unfolding dag_clean
clear s = record s { dag = dag_clean s.dag; my_map = []; flag = true }

-- `extractBlock`
unfoldable pub extract_block :
    (Text → Option (List Text × List Text))
    → (order : List ℕ) (threads : ℕ) → List Transaction
    → Scheduler
    → Scheduler
unfolding create
extract_block parse order threads txns s = record s {
  transactions = txns;
  dag = create parse order (headers_of txns) threads s.dag;
}

sum_ones : (n : ℕ) → sum (λ i. 1) n ≡ n
sum_ones zero = refl
sum_ones (suc n) = omega (arith, sum_ones n)

-- After `clear`, whatever the scheduler did before, `extractBlock` with every thread of `create`, of
-- which there is one at least, run once in any order, leaves a module that has the matrix, the
-- in-degrees and the count of the state from which the threads set out, with the transactions of the
-- block, an empty map and the flag up.
pub clear-ready :
    (parse : Text → Option (List Text × List Text)) (order : List ℕ) (threads : ℕ)
    (txns : List Transaction) (s : Scheduler)
    → 0 < threads
    → Perm order (countdown threads)
    → let s' = extract_block parse order threads txns (clear s) in
      let n = length (headers_of txns) in
      let adj = entry s'.dag.adjacency_matrix in
      Shows n adj s'.dag (start n adj all_of)
      × (s'.transactions ≡ txns)
      × (s'.my_map ≡ [])
      × (s'.flag ≡ true)
unfolding clear extract_block start dag_clean create
clear-ready parse order threads txns s some_thread each_once =
    let built =
      create-Built parse order (headers_of txns) threads (dag_clean s.dag) some_thread each_once in
    (
      record {
        total = refl;
        edges = λ a b. refl;
        degrees = record { size = built.degrees.size; at = built.degrees.at };
        completed = ap pos (omega (arith, sum_ones (length (headers_of txns))));
      },
      refl,
      refl,
      refl,
    )
