-- ===== src/Serial/Order.antt =====
-- The serial scheduler against the execution of the transactions one after the other, in the order
-- of the block.
use icsa_artifact.Base.{
  ℕ, zero, suc, ◌+◌, ◌<◌, ◌≡◌, refl, sym, ◌∙◌, ap, ap₂, subst, Bool, true, false, Option, none,
  some, List, [], ◌∷◌, ◌++◌, arith, if◌then◌else◌, length, get_elem?, set, map, length-map,
  length-append,
}
use icsa_artifact.Base.Int.{pos, negsuc}
use icsa_artifact.Text.{Text}
use icsa_artifact.Contract.{Map, Outcome, ok, threw, undefined, M, ◌>>=◌, return, bind}
use icsa_artifact.Dag.{DagModule, TransactionStruct, extract_all}
use icsa_artifact.Dag.Create.{conflict_entry}
use icsa_artifact.Serial.Build.{Built, Built-create, Parses}
use icsa_artifact.Workers.Sum.{sum_same}
use icsa_artifact.Serial.{complete}
use icsa_artifact.Serial.Run.{
  Transaction, Processors, Scheduler, Run, returned, broken, out_of_fuel, process, execute, turn,
  goes_on, execute_txns, extract_block, finish,
}
use icsa_artifact.Serial.Step.{Done, Forward, select-next, Done-next}

pub element_at :
    (done rest : List (Text × Transaction)) (p : Text × Transaction)
    → get_elem? (map (λ (q : Text × Transaction). q.1) (done ++ (p ∷ rest))) (length done)
      ≡ some p.1
element_at [] rest p = refl
element_at (q ∷ done) rest p = element_at done rest p

pub append_one :
    (done rest : List (Text × Transaction)) (p : Text × Transaction)
    → (done ++ (p ∷ [])) ++ rest ≡ done ++ (p ∷ rest)
append_one [] rest p = refl
append_one (q ∷ done) rest p = ap (λ l. q ∷ l) (append_one done rest p)

module _ (pro : Processors) where
  -- The transactions one after the other, up to the first one that answers `false`; each comes with
  -- its family.
  unfoldable pub in_order : List (Text × Transaction) → M Bool
  in_order [] = return true
  in_order ((name, txn) ∷ txns) =
      process pro name txn >>= λ answer. if answer then in_order txns else return false

  -- An execution ends as the reference does: with its answer for the flag and its map, or not by a
  -- return.
  abbrev pub Agrees : Outcome Bool × Map → Run → Type 0
  Agrees (ok answer, m) (returned s) = (s.flag ≡ answer) × (s.my_map ≡ m)
  Agrees (ok answer, m) broken = ⊥
  Agrees (ok answer, m) (out_of_fuel s) = ⊥
  Agrees (threw, m) broken = Unit
  Agrees (threw, m) (returned s) = ⊥
  Agrees (threw, m) (out_of_fuel s) = ⊥
  Agrees (undefined, m) broken = Unit
  Agrees (undefined, m) (returned s) = ⊥
  Agrees (undefined, m) (out_of_fuel s) = ⊥

  module _ (family : Text → Option Text) where
    -- The headers parse, to these families.
    abbrev pub Families : List (Text × Transaction) → Type 0
    Families [] = Unit
    Families ((name, txn) ∷ txns) = (family txn.header ≡ some name) × Families txns

    stops :
        (fuel : ℕ) (s : Scheduler)
        → 0 < fuel
        → goes_on pro family s ≡ false
        → execute_txns pro family fuel s ≡ returned s
    unfolding execute_txns
    stops zero s some_fuel e = absurd (omega arith)
    stops (suc fuel) s some_fuel e = rw (execute_txns, e) refl

    module _ (adj : ℕ → ℕ → ℕ) (forward : Forward adj) where
      turn-next :
          (n k : ℕ) (s : Scheduler) (name : Text) (txn : Transaction) (d : Done adj n k s.dag)
          (k_lt : k < n)
          → get_elem? s.transactions k ≡ some txn
          → family txn.header ≡ some name
          → turn pro family s
            ≡ finish pro family k
                (record s {
                  dag = record s.dag { in_degree = set s.dag.in_degree k (negsuc 0); last_txn = k };
                })
                (process pro name txn s.my_map)
      unfolding turn execute
      turn-next n k s name txn d k_lt at parsed =
          let e = select-next adj forward n k k_lt s.dag d in
          rw (turn, e, execute, at, parsed)
            (ap (λ r. finish pro family k (record s { dag = r.1 }) (process pro name txn s.my_map))
              e)

      -- What follows the processor's call.
      after_call :
          (n k fuel : ℕ) (s : Scheduler) (rest : List (Text × Transaction)) (r : Outcome Bool × Map)
          → 0 < fuel
          → ((m : Map) (s' : Scheduler)
              → s' ≡ record s { my_map = m; flag = true; dag = complete k s.dag }
              → Agrees (in_order rest m) (execute_txns pro family fuel s'))
          → Agrees
              (bind r (λ answer. if answer then in_order rest else return false))
              (elim (finish pro family k s r) [
                | none ↦ broken
                | some s' ↦ execute_txns pro family fuel s'
              ])
      unfolding finish return
      after_call n k fuel s rest (ok true, m) some_fuel continue = continue m _ refl
      after_call n k fuel s rest (ok false, m) some_fuel continue =
          rw
            (stops fuel (record s { my_map = m; flag = false; dag = complete k s.dag }) some_fuel
              (ground arith))
            (refl, refl)
      after_call n k fuel s rest (threw, m) some_fuel continue = tt
      after_call n k fuel s rest (undefined, m) some_fuel continue = tt

      -- The rest of the transactions, from index `k` on.
      pub in_order-from :
          (done rest : List (Text × Transaction)) (n k fuel : ℕ) (s : Scheduler)
          → s.transactions ≡ map (λ (p : Text × Transaction). p.1) (done ++ rest)
          → length done ≡ k
          → k + length rest ≡ n
          → Done adj n k s.dag
          → Families rest
          → s.flag ≡ true
          → length rest < fuel
          → Agrees (in_order rest s.my_map) (execute_txns pro family fuel s)
      unfolding in_order execute_txns ◌>>=◌ return
      in_order-from done [] n k zero s t dk kn d f on enough = absurd (omega arith)
      in_order-from done [] n k (suc fuel) s t dk kn d f on enough =
          rw
            (
              in_order,
              return,
              stops (suc fuel) s (omega arith) (ground (arith, d.completed, d.total)),
            )
            (on, refl)
      in_order-from done ((name, txn) ∷ rest) n k zero s t dk kn d f on enough =
          absurd (omega arith)
      in_order-from done ((name, txn) ∷ rest) n k (suc fuel) s t dk kn d f on enough =
          let k_lt : k < n = omega arith in
          let at : get_elem? s.transactions k ≡ some txn =
            ap₂ get_elem? t (sym dk) ∙ element_at done rest (name, txn) in
          let s₁ : Scheduler = record s {
            dag = record s.dag { in_degree = set s.dag.in_degree k (negsuc 0); last_txn = k };
          } in
          let runs : goes_on pro family s ≡ true = ground (arith, d.completed, d.total) in
          rw (in_order, ◌>>=◌, execute_txns, runs, turn-next n k s name txn d k_lt at f.0)
            (after_call n k fuel s₁ rest (process pro name txn s.my_map) (omega arith) (λ m s' e.
              subst (λ u. Agrees (in_order rest m) (execute_txns pro family fuel u)) (sym e)
                (in_order-from (done ++ ((name, txn) ∷ [])) rest n (suc k) fuel
                  (record s₁ { my_map = m; flag = true; dag = complete k s₁.dag })
                  (t
                    ∙ ap (map (λ (p : Text × Transaction). p.1))
                        (sym (append_one done rest (name, txn))))
                  (omega (arith, length-append done ((name, txn) ∷ []))) (omega arith)
                  (Done-next adj forward n k k_lt s.dag d) f.1 refl (omega arith))))

conflict_entry-Forward : (txns : List TransactionStruct) (n : ℕ) → Forward (conflict_entry txns n)
conflict_entry-Forward txns n = record { later = λ a b h. ground arith; once = λ a b. ground arith }

Done-create :
    (txns : List TransactionStruct) (n : ℕ) (dag : DagModule)
    → Built txns n dag
    → dag.completed_txns ≡ pos 0
    → Done (conflict_entry txns n) n 0 dag
Done-create txns n dag b zero' = record {
  total = b.total;
  completed = zero';
  edges = b.edges;
  size = b.degrees.size;
  past = λ i h. absurd (omega arith);
  ahead =
      λ i lo hi. b.degrees.at i hi ∙ ap pos (sum_same _ _ n (λ a ha. ground (arith, b.edges a i)));
}

-- A block on a clean graph, with every header parsing and the families given, is executed as the
-- reference does it: `extractBlock` returns, and with fuel above the number of transactions
-- `executeTxns` returns with the reference's answer in the flag and the reference's map, or is ended
-- by an exception or by undefined behaviour where the reference is.
pub serial_order :
    (pro : Processors) (parse : Text → Option (List Text × List Text)) (family : Text → Option Text)
    (named : List (Text × Transaction)) (s : Scheduler) (fuel : ℕ)
    → s.dag.current_transactions ≡ []
    → s.dag.adjacency_matrix ≡ []
    → s.dag.completed_txns ≡ pos 0
    → s.flag ≡ true
    → let txns = map (λ (p : Text × Transaction). p.1) named in
      Parses parse (map (λ (t : Transaction). t.header) txns)
      → Families pro family named
      → length named < fuel
      → (s' : Scheduler) × (extract_block parse txns s ≡ some s')
        × Agrees pro (in_order pro named s.my_map) (execute_txns pro family fuel s')
unfolding extract_block
serial_order pro parse family named s fuel t m zero' on p f enough =
    let txns : List Transaction = map (λ (p : Text × Transaction). p.1) named in
    let headers : List Text = map (λ (t : Transaction). t.header) txns in
    let (dag', runs, kept, built) = Built-create parse headers s.dag t m p in
    let n = length headers in
    let size : length named ≡ n = omega (
      arith,
      length-map txns (λ (t : Transaction). t.header),
      length-map named (λ (p : Text × Transaction). p.1),
    ) in
    (
      record s { transactions = txns; dag = dag' },
      rw (extract_block, runs) refl,
      in_order-from pro family (conflict_entry (extract_all parse headers 0) n)
          (conflict_entry-Forward _ n) [] named n 0 fuel
          (record s { transactions = txns; dag = dag' }) refl refl (omega (arith, size))
          (Done-create _ n dag' built (kept ∙ zero')) f on enough,
    )
