-- ===== src/Components/Node.antt =====
-- From the leader's matrix to the threads of a node: `create`, `connectedComponents`,
-- `extractBlock`, `ExtractComponents`, `executeTxns`.
use icsa_artifact.Base.{ℕ, ◌<◌, ◌≡◌, inl, Option, some, List, [], arith, length, get_or, subst}
use icsa_artifact.Base.Int.{pos, negsuc}
use icsa_artifact.Text.{Text}
use icsa_artifact.Dag.{DagModule, create}
use icsa_artifact.Dag.Conflict.{Conflict}
use icsa_artifact.Dag.Create.{AllListed, txn_at, create_matrix}
use icsa_artifact.Dag.Follower.{length-create}
use icsa_artifact.Workers.{start}
use icsa_artifact.Workers.Block.{edges, block-IsDag, block_runs_apart}
use icsa_artifact.Takers.{Threads, processing, IsFresh}
use icsa_artifact.Takers
use icsa_artifact.Takers.Safe.{Reach-Image, processes}
use icsa_artifact.Scheduler.{Component, Scheduler, is_in, extract_block, extract_components}
use icsa_artifact.Scheduler.Ids.{DistinctBelow}
use icsa_artifact.Scheduler.Share.{own_ids}
use icsa_artifact.Scheduler.Start.{components_start}
use icsa_artifact.Components.{connected_components}
use icsa_artifact.Components.Closed.{set_followers, components_closed}
use icsa_artifact.Components.Partition.{components-FreshIds, components-DistinctBelow}

-- The table of the leader: the components of the block's matrix, with their followers.
abbrev pub leader_table :
    (Text → Option (List Text × List Text))
    → List ℕ
    → List Text
    → ℕ
    → DagModule
    → (ℕ → ℕ)
    → List Component
leader_table parse order headers threads dag follower =
    set_followers follower
      (connected_components (create parse order headers threads dag).adjacency_matrix)

module _ (parse : Text → Option (List Text × List Text)) (order : List ℕ) (headers : List Text)
    (threads : ℕ) (dag : DagModule) (no_txns : dag.current_transactions ≡ [])
    (no_matrix : dag.adjacency_matrix ≡ []) (some_thread : 0 < threads)
    (all : AllListed threads order) (follower : ℕ → ℕ) (node_id : ℕ) where
  abbrev own : List ℕ
  own = own_ids node_id (leader_table parse order headers threads dag follower)

  -- An edge of the node's matrix is one of the leader's, whose ends are in one component.
  pub own-closed :
      (order' : List ℕ) (threads' : ℕ) (dag' : DagModule)
      → dag'.current_transactions ≡ []
      → dag'.adjacency_matrix ≡ []
      → 0 < threads'
      → AllListed threads' order'
      → (p i : ℕ) → edges parse order' headers threads' dag' p i ≡ 1
      → is_in own p ≡ is_in own i
  own-closed order' threads' dag' no_txns' no_matrix' some_thread' all' p i edge =
      let c =
        (create_matrix parse order' headers threads' dag' no_txns' no_matrix' some_thread' all' p
            i).1.0
          edge in
      let e =
        (create_matrix parse order headers threads dag no_txns no_matrix some_thread all p i).1.1
          c in
      components_closed (create parse order headers threads dag).adjacency_matrix follower node_id p
        i c.0 (omega (arith, c.1, length-create parse order headers threads dag no_matrix))
        (inl (omega (arith, e)))

-- A leader fills the matrix of a block, makes components of it, and assigns followers to them in any
-- way; a node that has processed no component takes the block and the table. The modules of both have
-- no matrix before. Then the in-degrees and the count of completed transactions of the node are those
-- from which the model of its threads sets out (`start`).
pub node_starts :
    (parse : Text → Option (List Text × List Text)) (headers : List Text) (order : List ℕ)
    (threads : ℕ) (dag : DagModule)
    → dag.adjacency_matrix ≡ []
    → (follower : ℕ → ℕ) (node_id : ℕ) (order' : List ℕ) (s : Scheduler)
    → s.dag.adjacency_matrix ≡ []
    → s.processed_components ≡ []
    → let n = length headers in
      let table = leader_table parse order headers threads dag follower in
      let s' =
        extract_components (some table) node_id (extract_block parse order' (some headers) s) in
      let first =
        start n (edges parse order' headers s.thread_count s.dag) (is_in (own_ids node_id table)) in
      ((i : ℕ) → i < n → get_or s'.dag.in_degree i (negsuc 0) ≡ first.in_degree i)
      × (s'.dag.completed_txns ≡ pos first.completed)
node_starts parse headers order threads dag no_matrix follower node_id order' s no_matrix'
      none_yet =
    components_start parse order' headers (leader_table parse order headers threads dag follower)
      node_id s no_matrix'
      (rw none_yet (
        components-FreshIds (create parse order headers threads dag).adjacency_matrix node_id
          follower))
      (subst
        (λ k.
          DistinctBelow k (own_ids node_id (leader_table parse order headers threads dag follower)))
        (length-create parse order headers threads dag no_matrix)
        (components-DistinctBelow (create parse order headers threads dag).adjacency_matrix node_id
          follower))

-- A leader fills the matrix of a block, makes components of it, and assigns followers to them in any
-- way; a node fills the matrix of the same block. Both start from a clean module, have one thread at
-- least, and let every thread of theirs do its rows, in any order. Any number of threads of the node
-- then execute its share of the block. In every state that they reach by a run in which each
-- successful exchange of the second loop of `selectTxn` has 0 in `var_zero`, two transactions that
-- threads are processing do not conflict.
pub node_runs_apart :
    (parse : Text → Option (List Text × List Text)) (headers : List Text) (order : List ℕ)
    (threads : ℕ) (dag : DagModule)
    → dag.current_transactions ≡ []
    → dag.adjacency_matrix ≡ []
    → 0 < threads
    → AllListed threads order
    → (follower : ℕ → ℕ) (node_id : ℕ) (order' : List ℕ) (threads' : ℕ) (dag' : DagModule)
    → dag'.current_transactions ≡ []
    → dag'.adjacency_matrix ≡ []
    → 0 < threads'
    → AllListed threads' order'
    → {last_txn : ℕ} {s : Threads}
    → let adj = edges parse order' headers threads' dag' in
      let assigned =
        is_in (own_ids node_id (leader_table parse order headers threads dag follower)) in
      (r : Takers.Reach (length headers) adj assigned last_txn s)
      → IsFresh (length headers) adj r
      → (t u p i : ℕ) → p < i
      → i < length headers
      → s.place t ≡ processing p
      → s.place u ≡ processing i
      → ¬ Conflict (txn_at parse headers p) (txn_at parse headers i)
node_runs_apart parse headers order threads dag no_txns no_matrix some_thread all follower node_id
      order' threads' dag' no_txns' no_matrix' some_thread' all' r fresh t u p i lt inside at_p
      at_i =
    let closed =
      own-closed parse order headers threads dag no_txns no_matrix some_thread all follower node_id
        order' threads' dag' no_txns' no_matrix' some_thread' all' in
    let is_dag =
      block-IsDag parse order' headers threads' dag' no_txns' no_matrix' some_thread' all' _
        closed in
    let n = length headers in
    block_runs_apart parse order' headers threads' dag' no_txns' no_matrix' some_thread' all' _
      closed (Reach-Image n _ _ is_dag r fresh).reach p i lt inside
      (processes n _ _ is_dag r fresh t p at_p) (processes n _ _ is_dag r fresh u i at_i)
