-- ===== src/Parallel/Nodes.antt =====
-- The single nodes: the parallel scheduler against the serial one.
use icsa_artifact.Base.{
  ℕ, ◌<◌, ◌≡◌, sym, ◌∙◌, ap, ap₂, subst, Bool, true, false, if◌then◌else◌, refl, Option, some, List,
  [], ◌∷◌, length, Perm, Bool-cases, inl, inr,
}
use icsa_artifact.Base.Int.{pos}
use icsa_artifact.Text.{Text}
use icsa_artifact.Contract.{Map, Outcome, ok, threw, undefined, M, ◌>>=◌, bind, return}
use icsa_artifact.Contract.Atomic.{Same}
use icsa_artifact.Dag.{DagModule}
use icsa_artifact.Dag.Create.{txn_at}
use icsa_artifact.Serial.Build.{Parses}
use icsa_artifact.Serial.Order.{in_order, Families, Agrees, serial_order}
use icsa_artifact.Serial.Run.{
  Transaction, Scheduler, process, returned, execute_txns, extract_block,
}
use icsa_artifact.Serial.Run
use icsa_artifact.Parallel.{Processors, call_at, State, Runs}
use icsa_artifact.Parallel.Equal.{alone, all_of}
use icsa_artifact.Parallel.Threads.{countdown}
use icsa_artifact.Parallel.Footprint.{Within}
use icsa_artifact.Parallel.Block.{edges, headers_of, unnamed, parallel_is_serial}
use icsa_artifact.Parallel.Settled.{CanGo, parallel_settles}

-- What a returned execution says of the reference.
reference_of :
    (pro : Run.Processors) (r : Outcome Bool × Map) (u : Scheduler)
    → Agrees pro r (returned u)
    → u.flag ≡ true
    → r ≡ (ok true, u.my_map)
reference_of pro (ok answer, m) u a on = ap₂ (λ b m'. (ok b, m')) (sym a.0 ∙ on) (sym a.1)
reference_of pro (threw, m) u a on = absurd a
reference_of pro (undefined, m) u a on = absurd a

-- What the contracts of the two nodes do for the transactions of the block is the same, if no other
-- thread comes in between.
abbrev pub SameContracts : Run.Processors → Processors → List (Text × Transaction) → Type 0
SameContracts serial_pro pro [] = Unit
SameContracts serial_pro pro ((name, txn) ∷ txns) =
    ((m : Map) → process serial_pro name txn m ≡ process (alone pro) name txn m)
    × SameContracts serial_pro pro txns

bind-same :
    (f g : M Bool) (r r' : Outcome Bool × Map)
    → r ≡ r'
    → ((m : Map) → f m ≡ g m)
    → bind r (λ answer. if answer then f else return false)
      ≡ bind r' (λ answer. if answer then g else return false)
bind-same f g (ok true, m) r' e h = rw (sym e) (h m)
bind-same f g (ok false, m) r' e h = rw (sym e)
bind-same f g (threw, m) r' e h = rw (sym e)
bind-same f g (undefined, m) r' e h = rw (sym e)

in_order-same :
    (serial_pro : Run.Processors) (pro : Processors) (named : List (Text × Transaction)) (m : Map)
    → SameContracts serial_pro pro named
    → in_order serial_pro named m ≡ in_order (alone pro) named m
unfolding in_order ◌>>=◌
in_order-same serial_pro pro [] m same = refl
in_order-same serial_pro pro ((name, txn) ∷ txns) m (same, rest) =
    bind-same (in_order serial_pro txns) (in_order (alone pro) txns) _ _ (same m)
      (λ m'. in_order-same serial_pro pro txns m' rest)

Families-any :
    (serial_pro : Run.Processors) (pro : Processors) (family : Text → Option Text)
    (named : List (Text × Transaction))
    → Families (alone pro) family named
    → Families serial_pro family named
Families-any serial_pro pro family [] f = tt
Families-any serial_pro pro family ((name, txn) ∷ txns) f =
    (f.0, Families-any serial_pro pro family txns f.1)

module _ (contracts : Run.Processors) (pro : Processors)
    (parse : Text → Option (List Text × List Text)) (family : Text → Option Text)
    (named : List (Text × Transaction)) (serial : Scheduler) (fuel : ℕ)
    (no_txns : serial.dag.current_transactions ≡ []) (no_matrix : serial.dag.adjacency_matrix ≡ [])
    (none_done : serial.dag.completed_txns ≡ pos 0) (up : serial.flag ≡ true)
    (parses : Parses parse (headers_of (unnamed named)))
    (families : Families (alone pro) family named)
    (same_contracts : SameContracts contracts pro named) (enough : length named < fuel)
    (ready last : Scheduler) (taken : extract_block parse (unnamed named) serial ≡ some ready)
    (ran : execute_txns contracts family fuel ready ≡ returned last) where
  serial-Agrees : Agrees contracts (in_order contracts named serial.my_map) (returned last)
  serial-Agrees =
      let (s', made, agrees) =
        serial_order contracts parse family named serial fuel no_txns no_matrix none_done up parses
          (Families-any contracts pro family named families) enough in
      let same : s' ≡ ready = cc in
      subst (Agrees contracts (in_order contracts named serial.my_map))
        (ap (execute_txns contracts family fuel) same ∙ ran) agrees

  reference : in_order contracts named serial.my_map ≡ in_order (alone pro) named serial.my_map
  reference = in_order-same contracts pro named serial.my_map same_contracts

  pub serial_true :
      last.flag ≡ true → in_order (alone pro) named serial.my_map ≡ (ok true, last.my_map)
  serial_true on =
      sym reference
      ∙ reference_of contracts (in_order contracts named serial.my_map) last serial-Agrees on

  pub serial_flag :
      (m' : Map) → in_order (alone pro) named serial.my_map ≡ (ok true, m') → last.flag ≡ true
  serial_flag m' e =
      (subst (λ r. Agrees contracts r (returned last)) (reference ∙ e) serial-Agrees).0

-- A block whose headers parse, to the families given, and whose transactions the contracts of the
-- serial node and those of the parallel node treat alike: to every map they do the same, if no
-- other thread comes in between. A serial node with a clean graph and a raised flag takes it, and
-- with fuel above the number of its transactions `executeTxns` returns there. The
-- parallel node sets out with the same map, on the graph that its `create` leaves with every one of
-- its threads, of which there is one at least, run once in any order; each call reads and writes only
-- what the header of its transaction lists; and its threads come to a state from which there is no
-- step. If the serial node then has its flag up, the parallel node has completed every transaction
-- with its flag up, and its map shows the same; and if the parallel node has completed every
-- transaction, the two flags are the same.
pub nodes_agree :
    (contracts : Run.Processors) (pro : Processors) (parse : Text → Option (List Text × List Text))
    (family : Text → Option Text) (named : List (Text × Transaction)) (serial : Scheduler)
    (fuel : ℕ)
    → serial.dag.current_transactions ≡ []
    → serial.dag.adjacency_matrix ≡ []
    → serial.dag.completed_txns ≡ pos 0
    → serial.flag ≡ true
    → let txns = unnamed named in
      let headers = headers_of txns in
      Parses parse headers
      → Families (alone pro) family named
      → SameContracts contracts pro named
      → length named < fuel
      → (ready last : Scheduler) → extract_block parse txns serial ≡ some ready
      → execute_txns contracts family fuel ready ≡ returned last
      → (order : List ℕ) (threads : ℕ) (dag : DagModule) → 0 < threads
      → Perm order (countdown threads)
      → (V : Type 0) (view : Text → Map → V)
      → ((i : ℕ) → Within view (txn_at parse headers i) (call_at pro family txns i))
      → let adj = edges parse order headers threads dag in
        (s : State)
        → Runs (length headers) adj all_of (call_at pro family txns) serial.my_map s
        → ¬ CanGo (length headers) adj s
        → (last.flag ≡ true
            → (s.system.completed ≡ length headers)
              × (s.flag ≡ true)
              × Same view last.my_map s.my_map)
          × (s.system.completed ≡ length headers → s.flag ≡ last.flag)
nodes_agree contracts pro parse family named serial fuel no_txns no_matrix none_done up parses
      families same enough ready last taken ran order threads dag some_thread each_once V view w s r
      stuck =
    let good =
      serial_true contracts pro parse family named serial fuel no_txns no_matrix none_done up parses
        families same enough ready last taken ran in
    let flag =
      serial_flag contracts pro parse family named serial fuel no_txns no_matrix none_done up parses
        families same enough ready last taken ran in
    let (refused, agrees) =
      parallel_is_serial pro parse family named order threads dag view serial.my_map some_thread
        each_once families w s r in
    (
      λ on.
          parallel_settles pro parse family named order threads dag view serial.my_map last.my_map
            some_thread each_once families w s r (good on) stuck,
      λ all_done. elim (Bool-cases s.flag) [
        | inl raised ↦ let (m', e, _) = agrees all_done raised in raised ∙ sym (flag m' e)
        | inr lowered ↦ elim (Bool-cases last.flag) [
          | inl on ↦ absurd (refused lowered (ap (λ q. q.0) (good on)))
          | inr off ↦ lowered ∙ sym off
        ]
      ],
    )
