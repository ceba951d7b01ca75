-- ===== src/Serial/Run.antt =====
-- singleNode-serial/scheduler/scheduler.h: the scheduler that executes the transactions of a block.
use icsa_artifact.Base.{
  ℕ, zero, suc, Bool, true, false, ◌&&◌, Option, none, some, List, [], ◌∷◌, map, if◌then◌else◌,
  get_elem?,
}
use icsa_artifact.Base.Int.{pos, ltb_ℤ}
use icsa_artifact.Text.{Text, bytes, text_eq}
use icsa_artifact.Contract.{Map, Outcome, ok, threw, undefined, M, return}
use icsa_artifact.Dag.{DagModule}
use icsa_artifact.Serial.{create, select_txn, complete}

-- `transaction::Transaction`
pub record Transaction : Type 0 where
  pub header : Text
  pub payload : Text

-- `walletPro`, `eCommPro`, `nftPro` and `votePro`: the `ProcessTxn` of each.
pub record Processors : Type 0 where
  pub wallet_pro : Transaction → M Bool
  pub e_comm_pro : Transaction → M Bool
  pub nft_pro : Transaction → M Bool
  pub vote_pro : Transaction → M Bool

-- The call that `executeTxns` makes for a family; it answers `false` for an unknown one.
unfoldable pub process : Processors → Text → Transaction → M Bool
process pro family txn =
    if text_eq family (bytes "wallet")
    then pro.wallet_pro txn
    else if text_eq family (bytes "eComm")
    then pro.e_comm_pro txn
    else if text_eq family (bytes "nft")
    then pro.nft_pro txn
    else if text_eq family (bytes "voting")
    then pro.vote_pro txn
    else return false

-- The fields of `scheduler` that execution uses.
pub record Scheduler : Type 0 where
  pub dag : DagModule
  pub transactions : List Transaction
  pub my_map : Map
  pub flag : Bool

-- How a loop ends: it returned, an exception or undefined behaviour ended it, or it is still
-- running when the fuel is gone.
pub data Run : Type 0 where
  returned : Scheduler → Run
  broken : Run
  out_of_fuel : Scheduler → Run

-- `family` gives the family of a transaction's header; `none` if the header does not parse.
module _ (pro : Processors) (family : Text → Option Text) where
  -- What follows the call of a processor; the map is written by the call.
  unfoldable pub finish : ℕ → Scheduler → Outcome Bool × Map → Option Scheduler
  finish id s (ok answer, m) =
      some (record s { my_map = m; flag = answer; dag = complete id s.dag })
  finish id s (threw, m) = none
  finish id s (undefined, m) = none

  -- The body of the loop for a selected transaction.
  unfoldable pub execute : ℕ → Scheduler → Option Scheduler
  unfolding process finish
  execute id s = elim (get_elem? s.transactions id) [
    | none ↦ none
    | some txn ↦ elim (family txn.header) [
      | none ↦ some s
      | some name ↦ finish id s (process pro name txn s.my_map)
    ]
  ]

  -- The body of the loop of `executeTxns`.
  unfoldable pub turn : Scheduler → Option Scheduler
  unfolding execute
  turn s =
      let (taken, dag') = select_txn s.dag in
      elim taken [
        | none ↦ some (record s { dag = dag' })
        | some id ↦ execute id (record s { dag = dag' })
      ]

  -- `dag.completedTxns < dag.totalTxns && flag == true`
  abbrev pub goes_on : Scheduler → Bool
  goes_on s = ltb_ℤ s.dag.completed_txns (pos s.dag.total_txns) && s.flag

  -- `executeTxns`
  unfoldable pub execute_txns : (fuel : ℕ) → Scheduler → Run
  unfolding turn
  execute_txns zero s = out_of_fuel s
  execute_txns (suc fuel) s = elim (goes_on s) [
    | false ↦ returned s
    | true ↦ elim (turn s) [ none ↦ broken | some s' ↦ execute_txns fuel s' ]
  ]

-- `flushMapToState`, of what `insert` and `updateParentHashes` do to the global state.
module _ {S : Type 0} (insert : Text → Text → S → S) (update_parent_hashes : Text → S → S) where
  unfoldable pub insert_all : Map → S → S
  insert_all [] state = state
  insert_all ((key, value) ∷ entries) state = insert_all entries (insert key value state)

  unfoldable pub update_all : Map → S → S
  update_all [] state = state
  update_all ((key, value) ∷ entries) state = update_all entries (update_parent_hashes key state)

  unfoldable pub flush_map_to_state : Map → S → S
  unfolding insert_all update_all
  flush_map_to_state entries state = update_all entries (insert_all entries state)

  -- What `schedulTxns` does after the execution: the state is written if the flag is set.
  conclude : Run → S → Option (Bool × S)
  unfolding flush_map_to_state
  conclude (returned s) state =
      some (s.flag, if s.flag then flush_map_to_state s.my_map state else state)
  conclude broken state = none
  conclude (out_of_fuel s) state = none

  -- `schedulTxns`; `none` if it does not return.
  unfoldable pub schedul_txns :
      Processors → (Text → Option Text) → (fuel : ℕ) → Scheduler → S → Option (Bool × S)
  unfolding conclude
  schedul_txns pro family fuel s state =
      conclude (execute_txns pro family fuel (record s { flag = true })) state

-- `extractBlock`; `none` if `create` is undefined.
unfoldable pub extract_block :
    (Text → Option (List Text × List Text)) → List Transaction → Scheduler → Option Scheduler
extract_block parse txns s = elim (create parse (map (λ (t : Transaction). t.header) txns) s.dag) [
  | none ↦ none
  | some dag' ↦ some (record s { transactions = txns; dag = dag' })
]
