-- ===== src/Parallel/Block.antt =====
-- The threads of the single node on a block, over the graph that its `create` leaves.
use icsa_artifact.Base.{
  ℕ, ◌<◌, ◌≡◌, ◌≢◌, refl, sym, ◌∙◌, ap, true, false, Option, List, [], arith, length, map,
  length-map, Perm,
}
use icsa_artifact.Text.{Text}
use icsa_artifact.Contract.{Map, ok}
use icsa_artifact.Contract.Atomic.{Same}
use icsa_artifact.Dag.{DagModule, entry, extract_all}
use icsa_artifact.Dag.Conflict.{Conflict}
use icsa_artifact.Dag.Create.{conflict_entry_iff, txn_at}
use icsa_artifact.Serial.Run.{Transaction}
use icsa_artifact.Serial.Build.{Built}
use icsa_artifact.Serial.Order.{in_order, Families}
use icsa_artifact.Workers.Inv.{IsDag}
use icsa_artifact.Workers.{running}
use icsa_artifact.Parallel.{Call, run, Processors, call_at, State, Runs}
use icsa_artifact.Parallel.Graph.{create}
use icsa_artifact.Parallel.Filled.{create-Built}
use icsa_artifact.Parallel.Threads.{countdown}
use icsa_artifact.Parallel.Footprint.{Within}
use icsa_artifact.Parallel.Turns.{in_turn}
use icsa_artifact.Parallel.Keep.{Runs-InOrder, taken_in, runs_in}
use icsa_artifact.Parallel.Ordered.{Ordered, effects, answer_of}
use icsa_artifact.Parallel.Share.{answer-taken, final_maps, taken-assigned, none_runs}
use icsa_artifact.Parallel.Equal.{alone, all_of, before, true_of_in_order, in_order-of_true}

-- The matrix of the block, the headers of its transactions, and the addresses of each.
abbrev pub edges :
    (Text → Option (List Text × List Text)) → List ℕ → List Text → ℕ → DagModule → ℕ → ℕ → ℕ
edges parse order headers threads dag a b =
    entry (create parse order headers threads dag).adjacency_matrix a b

abbrev pub headers_of : List Transaction → List Text
headers_of txns = map (λ (t : Transaction). t.header) txns

abbrev pub unnamed : List (Text × Transaction) → List Transaction
unnamed named = map (λ (p : Text × Transaction). p.1) named

module _ (parse : Text → Option (List Text × List Text)) (order : List ℕ) (headers : List Text)
    (threads : ℕ) (dag : DagModule) (some_thread : 0 < threads)
    (each_once : Perm order (countdown threads)) where
  built :
      Built (extract_all parse headers 0) (length headers) (create parse order headers threads dag)
  built = create-Built parse order headers threads dag some_thread each_once

  pub edges-IsDag : IsDag (edges parse order headers threads dag) all_of
  edges-IsDag = record {
    binary = λ p i. ground (arith, built.edges p i);
    upper = λ p i e. ground (arith, built.edges p i);
    closed = λ p i e. refl;
  }

  pub Conflict-edge :
      (p i : ℕ)
      → p < i
      → i < length headers
      → Conflict (txn_at parse headers p) (txn_at parse headers i)
      → edges parse order headers threads dag p i ≡ 1
  Conflict-edge p i lt hi c =
      built.edges p i
      ∙ (conflict_entry_iff (extract_all parse headers 0) (length headers) p i).1 (lt, hi, c)

module _ (pro : Processors) (parse : Text → Option (List Text × List Text))
    (family : Text → Option Text) (named : List (Text × Transaction)) (order : List ℕ) (threads : ℕ)
    (dag : DagModule) {V : Type 0} (view : Text → Map → V) (m : Map) (some_thread : 0 < threads)
    (each_once : Perm order (countdown threads)) (parsed : Families (alone pro) family named)
    (w : (i : ℕ)
      → Within view
          (txn_at parse (headers_of (unnamed named)) i)
          (call_at pro family (unnamed named) i)) where
  abbrev headers : List Text
  headers = headers_of (unnamed named)

  abbrev adj : ℕ → ℕ → ℕ
  adj = edges parse order headers threads dag

  abbrev call : ℕ → Call
  call = call_at pro family (unnamed named)

  IsDag-here : IsDag adj all_of
  IsDag-here = edges-IsDag parse order headers threads dag some_thread each_once

  edge_here :
      (p i : ℕ)
      → p < i
      → i < length headers
      → Conflict (txn_at parse headers p) (txn_at parse headers i)
      → adj p i ≡ 1
  edge_here = Conflict-edge parse order headers threads dag some_thread each_once

  count : length headers ≡ length named
  count = omega (
    arith,
    length-map (unnamed named) (λ (t : Transaction). t.header),
    length-map named (λ (p : Text × Transaction). p.1),
  )

  module _ {s : State} (r : Runs (length headers) adj all_of call m s) where
    in_order_here :
        Ordered view
          (length headers)
          (txn_at parse headers)
          call
          m
          (taken_in s.system.phase)
          (runs_in s.system.phase)
          s.left
          s.my_map
          s.flag
    in_order_here =
        Runs-InOrder view (length headers) adj all_of IsDag-here (txn_at parse headers) edge_here
          call m w r

    answer_here :
        (i : ℕ)
        → i < length headers
        → taken_in s.system.phase i ≡ true
        → (run (call i) (in_turn all_of (effects call) i m)).0
          ≡ answer_of view
              (length headers)
              (txn_at parse headers)
              call
              m
              (taken_in s.system.phase)
              i
    answer_here =
        answer-taken view (length headers) adj all_of IsDag-here (txn_at parse headers) edge_here
          call m w r

    -- If all answer `true` one after the other, so will the calls that are under way.
    pub running_answer :
        (in_order (alone pro) named m).0 ≡ ok true
        → (i : ℕ) → i < length headers
        → s.system.phase i ≡ running
        → (run (s.left i) s.my_map).0 ≡ ok true
    unfolding in_turn
    running_answer good i hi p =
        in_order_here.answers i hi (ground arith)
        ∙ sym (answer_here i hi (ground arith))
        ∙ true_of_in_order pro family m (unnamed named) [] named 0 refl refl parsed good i
            (omega arith) (omega (arith, count))

    lowered_refuses : s.flag ≡ false → (in_order (alone pro) named m).0 ≢ ok true
    unfolding in_turn
    lowered_refuses off good =
        let (j, hj, t, _, e) = in_order_here.lowered off in
        let yes' =
          true_of_in_order pro family m (unnamed named) [] named 0 refl refl parsed good j
            (omega arith) (omega (arith, count)) in
        ground (arith, answer_here j hj t)

    raised_agrees :
        s.system.completed ≡ length headers
        → s.flag ≡ true
        → (m' : Map) × (in_order (alone pro) named m ≡ (ok true, m')) × Same view m' s.my_map
    unfolding in_turn
    raised_agrees all_done on =
        let taken : (i : ℕ) → i < length headers → taken_in s.system.phase i ≡ true =
          taken-assigned view (length headers) adj all_of IsDag-here (txn_at parse headers)
            edge_here call m w r all_done in
        let idle =
          none_runs view (length headers) adj all_of IsDag-here (txn_at parse headers) edge_here
            call m w r all_done in
        let good : (i : ℕ)
            → i < length headers
            → (run (call i) (before pro family m (unnamed named) i)).0 ≡ ok true =
          λ i hi.
            answer_here i hi (taken i hi) ∙ in_order_here.raised on i hi (taken i hi) (idle i hi) in
        (
          before pro family m (unnamed named) (length headers),
          in_order-of_true pro family m (unnamed named) [] named 0 refl refl parsed
                (λ i lo hi. good i (omega (arith, count)))
              ∙ ap (λ k. (ok true, before pro family m (unnamed named) k)) (omega (arith, count)),
          final_maps view (length headers) adj all_of IsDag-here (txn_at parse headers) edge_here
              call m w r all_done,
        )

-- A block whose headers parse, to the families given, on the graph that `create` leaves with every
-- one of its threads, of which there is one at least, run once in any order; each call reads and
-- writes only what the header of its transaction lists. Then in every state that the threads of
-- `executeTxns` can reach, whatever the order of their accesses to the map: where the flag is
-- lowered, the transactions one after the other do not all answer `true`; and where all are completed
-- and the flag is up, they all answer `true`, and leave a map of the same view.
pub parallel_is_serial :
    (pro : Processors) (parse : Text → Option (List Text × List Text)) (family : Text → Option Text)
    (named : List (Text × Transaction)) (order : List ℕ) (threads : ℕ) (dag : DagModule)
    {V : Type 0} (view : Text → Map → V) (m : Map)
    → 0 < threads
    → Perm order (countdown threads)
    → Families (alone pro) family named
    → let txns = unnamed named in
      let headers = headers_of txns in
      ((i : ℕ) → Within view (txn_at parse headers i) (call_at pro family txns i))
      → (s : State)
      → Runs
          (length headers)
          (edges parse order headers threads dag)
          all_of
          (call_at pro family txns)
          m
          s
      → (s.flag ≡ false → (in_order (alone pro) named m).0 ≢ ok true)
        × (s.system.completed ≡ length headers
            → s.flag ≡ true
            → (m' : Map) × (in_order (alone pro) named m ≡ (ok true, m')) × Same view m' s.my_map)
parallel_is_serial pro parse family named order threads dag view m some_thread each_once parsed w s
      r =
    (
      lowered_refuses pro parse family named order threads dag view m some_thread each_once parsed w
          r,
      raised_agrees pro parse family named order threads dag view m some_thread each_once parsed w
          r,
    )
