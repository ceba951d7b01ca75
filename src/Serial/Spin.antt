-- ===== src/Serial/Spin.antt =====
-- A block of one transaction whose header does not parse.
use icsa_artifact.Base.{
  ℕ, zero, suc, ◌≡◌, refl, ◌∙◌, ap, true, false, Option, none, some, List, [], ◌∷◌, arith, ap₂,
  ◌++◌,
}
use icsa_artifact.Base.Int.{pos, negsuc}
use icsa_artifact.Text.{Text}
use icsa_artifact.Dag.{DagModule, no_addresses, zero_row, extract_all, extract_transaction, resize}
use icsa_artifact.Serial.{select_txn, second_loop, is_free, scan, create, fill, fill_rows, fill_row}
use icsa_artifact.Serial.Run.{
  Transaction, Processors, Scheduler, out_of_fuel, execute, turn, goes_on, execute_txns,
  extract_block,
}

-- The one transaction is claimed, and not completed.
record Claimed (s : Scheduler) : Type 0 where
  total : s.dag.total_txns ≡ 1
  completed : s.dag.completed_txns ≡ pos 0
  claimed : s.dag.in_degree ≡ negsuc 0 ∷ []
  on : s.flag ≡ true

scan-claimed : (dag : DagModule) → is_free dag.in_degree 0 ≡ false → scan 0 1 dag ≡ (none, dag)
unfolding scan
scan-claimed dag e = rw (scan, e) refl

select-none :
    (dag : DagModule)
    → dag.total_txns ≡ 1
    → dag.in_degree ≡ negsuc 0 ∷ []
    → select_txn dag ≡ (none, dag)
unfolding select_txn second_loop
select-none dag t c =
    let once : scan 0 dag.total_txns dag ≡ (none, dag) =
      ap (λ n. scan 0 n dag) t ∙ scan-claimed dag (rw c refl) in
    ap second_loop once ∙ once

spins :
    (pro : Processors) (family : Text → Option Text) (fuel : ℕ) (s : Scheduler)
    → Claimed s
    → execute_txns pro family fuel s ≡ out_of_fuel s
unfolding execute_txns turn
spins pro family zero s c = refl
spins pro family (suc fuel) s c =
    let runs : goes_on pro family s ≡ true = ground (arith, c.total, c.completed, c.on) in
    let e = select-none s.dag c.total c.claimed in
    let again : turn pro family s ≡ some s =
      rw (turn, e) (ap (λ r. some (record s { dag = r.1 })) e) in
    rw (execute_txns, runs, again) (spins pro family fuel s c)

first_turn :
    (pro : Processors) (family : Text → Option Text) (fuel : ℕ) (s last : Scheduler)
    → goes_on pro family s ≡ true
    → turn pro family s ≡ some last
    → Claimed last
    → (r : Scheduler) × (execute_txns pro family fuel s ≡ out_of_fuel r)
unfolding execute_txns
first_turn pro family zero s last g e c = (s, refl)
first_turn pro family (suc fuel) s last g e c =
    (last, rw (execute_txns, g, e) (spins pro family fuel last c))

-- The graph of one transaction that does not parse.
abbrev one_dag : DagModule → DagModule
one_dag dag = record dag {
  current_transactions = no_addresses 0 ∷ [];
  total_txns = 1;
  adjacency_matrix = (0 ∷ []) ∷ [];
  in_degree = pos 0 ∷ [];
}

create_one :
    (parse : Text → Option (List Text × List Text)) (header : Text) (dag : DagModule)
    → dag.current_transactions ≡ []
    → dag.adjacency_matrix ≡ []
    → parse header ≡ none
    → create parse (header ∷ []) dag ≡ some (one_dag dag)
unfolding create fill fill_rows fill_row extract_all extract_transaction resize
create_one parse header dag t m p =
    ap₂ (λ ts m'. fill (ts ++ extract_all parse (header ∷ []) 0) 1 (resize 1 (zero_row 1) m') dag) t
      m
    ∙ rw (extract_all, extract_transaction, p, fill, fill_rows, fill_row) refl

-- A block of one transaction whose header does not parse is accepted by `extractBlock` on a clean
-- graph, and `executeTxns` never returns: it is still running whatever the fuel.
pub unparsed_spins :
    (pro : Processors) (parse : Text → Option (List Text × List Text)) (family : Text → Option Text)
    (txn : Transaction) (s : Scheduler)
    → s.dag.current_transactions ≡ []
    → s.dag.adjacency_matrix ≡ []
    → s.dag.completed_txns ≡ pos 0
    → s.flag ≡ true
    → parse txn.header ≡ none
    → family txn.header ≡ none
    → (s' : Scheduler) × (extract_block parse (txn ∷ []) s ≡ some s')
      × ((fuel : ℕ) → (last : Scheduler) × (execute_txns pro family fuel s' ≡ out_of_fuel last))
unfolding extract_block turn execute select_txn scan second_loop
unparsed_spins pro parse family txn s t m zero' on p f =
    let dag' = one_dag s.dag in
    let made = create_one parse txn.header s.dag t m p in
    let last : Scheduler = record s {
      transactions = txn ∷ [];
      dag = record dag' { in_degree = negsuc 0 ∷ []; last_txn = 0 };
    } in
    (
      record s { transactions = txn ∷ []; dag = dag' },
      rw (extract_block, made) refl,
      λ fuel.
          first_turn pro family fuel (record s { transactions = txn ∷ []; dag = dag' }) last
            (ground (arith, zero', on)) (rw f refl)
            (record { total = refl; completed = zero'; claimed = refl; on = on }),
    )
