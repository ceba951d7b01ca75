-- ===== src/Parallel/Apart.antt =====
-- singleNode-parallel: transactions that conflict, while the threads of `executeTxns` run.
use icsa_artifact.Base.{ℕ, ◌<◌, ◌≡◌, ◌≢◌, refl, Option, List, arith, length, Perm}
use icsa_artifact.Text.{Text}
use icsa_artifact.Contract.{Map}
use icsa_artifact.Dag.{DagModule}
use icsa_artifact.Dag.Conflict.{Conflict}
use icsa_artifact.Dag.Create.{txn_at}
use icsa_artifact.Workers.{waiting, running}
use icsa_artifact.Workers.Safety.{HasReleased, predecessors_first, no_conflict_runs}
use icsa_artifact.Parallel.{Call, State, Runs, Reach-of_Runs}
use icsa_artifact.Parallel.Equal.{all_of}
use icsa_artifact.Parallel.Threads.{countdown}
use icsa_artifact.Parallel.Block.{edges, edges-IsDag, Conflict-edge}

-- On the graph that `create` leaves for a block with every one of its threads, of which there is one
-- at least, run once in any order, and whatever the calls of the contracts do: in every state that
-- the threads of the parallel node can reach, two transactions that are both being processed do not
-- conflict.
pub parallel_runs_apart :
    (parse : Text → Option (List Text × List Text)) (order : List ℕ) (headers : List Text)
    (threads : ℕ) (dag : DagModule)
    → 0 < threads
    → Perm order (countdown threads)
    → (call : ℕ → Call) (m : Map) (s : State)
    → Runs (length headers) (edges parse order headers threads dag) all_of call m s
    → (p i : ℕ) → p < i
    → i < length headers
    → s.system.phase p ≡ running
    → s.system.phase i ≡ running
    → ¬ Conflict (txn_at parse headers p) (txn_at parse headers i)
parallel_runs_apart parse order headers threads dag some_thread each_once call m s r p i lt inside
      run_p run_i conflict =
    (no_conflict_runs (length headers) _ all_of
        (edges-IsDag parse order headers threads dag some_thread each_once) (Reach-of_Runs _ _ r) p
        i (omega arith) inside run_p run_i).0
      (Conflict-edge parse order headers threads dag some_thread each_once p i lt inside conflict)

-- On the graph that `create` leaves for a block with every one of its threads, of which there is one
-- at least, run once in any order, and whatever the calls of the contracts do: in every state that
-- the threads of the parallel node can reach, a transaction that a thread has taken has every earlier
-- transaction that conflicts with it behind it: that one has been processed, and its thread has
-- decremented the in-degree of the later one.
pub parallel_predecessors :
    (parse : Text → Option (List Text × List Text)) (order : List ℕ) (headers : List Text)
    (threads : ℕ) (dag : DagModule)
    → 0 < threads
    → Perm order (countdown threads)
    → (call : ℕ → Call) (m : Map) (s : State)
    → Runs (length headers) (edges parse order headers threads dag) all_of call m s
    → (p i : ℕ) → p < i
    → i < length headers
    → s.system.phase i ≢ waiting
    → Conflict (txn_at parse headers p) (txn_at parse headers i)
    → HasReleased (s.system.phase p) i
parallel_predecessors parse order headers threads dag some_thread each_once call m s r p i lt inside
      taken conflict =
    predecessors_first (length headers) _ all_of
      (edges-IsDag parse order headers threads dag some_thread each_once) (Reach-of_Runs _ _ r) p i
      inside refl taken
      (Conflict-edge parse order headers threads dag some_thread each_once p i lt inside conflict)
