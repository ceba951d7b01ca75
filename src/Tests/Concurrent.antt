-- ===== src/Tests/Concurrent.antt =====
-- The theorems on the parallel node, at the run of two deposits.
use icsa_artifact.Base.{
  ℕ, zero, suc, ◌+◌, ◌≡◌, ◌≢◌, refl, true, false, Option, none, some, [], ◌∷◌, arith, ap, sym, ◌∙◌,
}
use mathlib.Core.List.Perm
use mathlib.Core.List.{Permᴰ}
use icsa_artifact.Base.Int.{ℤ, ◌+ℤ◌, ◌-ℤ◌}
use icsa_artifact.Text.{Text, bytes, text_eq}
use icsa_artifact.Text.Decimal.{stoi, to_string}
use icsa_artifact.Contract.{Map, Outcome, ok, find, put, load_int, int, write, ◌>>=◌, return}
use icsa_artifact.Contract.Number.{value}
use icsa_artifact.Contract.Atomic.{Same}
use icsa_artifact.Dag.{extract_all, extract_transaction}
use icsa_artifact.Dag.Conflict.{Conflict, first}
use icsa_artifact.Dag.Create.{txn_at}
use icsa_artifact.Serial.Build.{Built}
use icsa_artifact.Serial.Order.{in_order}
use icsa_artifact.Serial
use icsa_artifact.Serial.Run
use icsa_artifact.Serial.Run.{Scheduler, extract_block, execute_txns, returned}
use icsa_artifact.Tests.SerialBlocks.{idle}
use icsa_artifact.Wallet
use icsa_artifact.Parallel.{call_at, process_txn, run, require, require_int}
use icsa_artifact.Parallel.Wallet as Calls
use icsa_artifact.Parallel.Wallet.Addresses.{ListsAccounts, wallet-Within}
use icsa_artifact.Parallel.Wallet.Alone.{wallet_alone}
use icsa_artifact.Workers.{start}
use icsa_artifact.Parallel.Footprint.{Within}
use icsa_artifact.Parallel.Equal.{alone}
use icsa_artifact.Parallel.Block.{headers_of, unnamed, parallel_is_serial}
use icsa_artifact.Parallel.Apart.{parallel_runs_apart}
use icsa_artifact.Parallel.Graph.{create}
use icsa_artifact.Parallel.Filled.{create-Built}
use icsa_artifact.Parallel.Nodes.{SameContracts, nodes_agree}
use icsa_artifact.Parallel.Settled.{CanGo, parallel_settles}
use icsa_artifact.Tests.Blocks.{own_address, clean}
use icsa_artifact.Tests.Contracts.{stored}
use icsa_artifact.Tests.Interleaved.{
  a_deposit, depositors, two_deposits, wallet_family, none_linked, deposit_calls, stored_both,
  finished, finished-AtEnd, no_step,
}

member : Text → Option (Text → Option Text) → Option Text
member key o = elim o [ none ↦ none | some field ↦ field key ]

-- What the parser makes of a deposit names one account.
lists :
    (payload : Text) (k : ℕ) (field : Text → Option Text)
    → a_deposit payload ≡ some field
    → ListsAccounts stored (extract_transaction own_address payload k) field
unfolding extract_transaction text_eq member
lists payload k field e =
    let at : (key : Text) → member key (a_deposit payload) ≡ field key = λ key. ap (member key) e in
    record {
      name = λ x h. let same = at (bytes "Name") ∙ h in first cc;
      name1 = λ x h. let same = at (bytes "Name1") ∙ h in cc;
      name2 = λ x h. let same = at (bytes "Name2") ∙ h in cc;
    }

wallet-Within_example :
    Within
      (value stored)
      (extract_transaction own_address (bytes "bob") 0)
      (Calls.process_txn stored (λ h. true) a_deposit (bytes "bob") (bytes "bob"))
wallet-Within_example =
    wallet-Within stored (λ h. true) a_deposit (bytes "bob") (bytes "bob")
      (extract_transaction own_address (bytes "bob") 0) (lists (bytes "bob") 0)

wallet_alone_example :
    run (Calls.process_txn stored (λ h. true) a_deposit (bytes "ann") (bytes "ann")) []
    ≡ Wallet.process_txn stored (λ h. true) a_deposit (bytes "ann") (bytes "ann") []
wallet_alone_example = wallet_alone stored (λ h. true) a_deposit (bytes "ann") (bytes "ann") []

confined :
    (i : ℕ)
    → Within
        (value stored)
        (txn_at own_address (headers_of (unnamed two_deposits)) i)
        (deposit_calls i)
unfolding call_at process_txn text_eq extract_all
confined zero =
    wallet-Within stored (λ h. true) a_deposit (bytes "ann") (bytes "ann") _ (lists (bytes "ann") 0)
confined (suc zero) =
    wallet-Within stored (λ h. true) a_deposit (bytes "bob") (bytes "bob") _
      (lists (bytes "bob") (0 + 1))
confined (suc (suc i)) = tt

parallel_is_serial_example :
    let s = finished.0 in
    (s.flag ≡ false → (in_order (alone depositors) two_deposits []).0 ≢ ok true)
    × (s.system.completed ≡ 2
        → s.flag ≡ true
        → (m' : Map) × (in_order (alone depositors) two_deposits [] ≡ (ok true, m'))
          × Same (value stored) m' s.my_map)
parallel_is_serial_example =
    parallel_is_serial depositors own_address wallet_family two_deposits (1 ∷ 0 ∷ []) 2 clean
      (value stored) [] (omega arith) (Perm.refl _) (refl, (refl, tt)) confined finished.0
      finished.1

parallel_runs_apart_example :
    ¬ Conflict
      (txn_at own_address (headers_of (unnamed two_deposits)) 0)
      (txn_at own_address (headers_of (unnamed two_deposits)) 1)
unfolding stored_both start
parallel_runs_apart_example =
    parallel_runs_apart own_address (1 ∷ 0 ∷ []) (headers_of (unnamed two_deposits)) 2 clean
      (omega arith) (Perm.refl _) deposit_calls [] stored_both.0 stored_both.1 0 1 (omega arith)
      (omega arith) refl refl

-- The wallet of the serial node, and of its other contracts an answer.
abbrev serial_contracts : Run.Processors
serial_contracts = record {
  wallet_pro = λ t. Wallet.process_txn stored (λ h. true) a_deposit t.header t.payload;
  e_comm_pro = λ t. return true;
  nft_pro = λ t. return true;
  vote_pro = λ t. return false;
}

create-Built_example :
    Built
      (extract_all own_address (bytes "a" ∷ bytes "b" ∷ bytes "a" ∷ []) 0)
      3
      (create own_address (0 ∷ 1 ∷ []) (bytes "a" ∷ bytes "b" ∷ bytes "a" ∷ []) 2 clean)
create-Built_example =
    create-Built own_address (0 ∷ 1 ∷ []) (bytes "a" ∷ bytes "b" ∷ bytes "a" ∷ []) 2 clean
      (omega arith) ∣ Permᴰ.swap refl refl ∣₁

stuck : ¬ CanGo 2 none_linked finished.0
stuck can = no_step finished-AtEnd can.step

-- The two deposits one after the other, as the serial node does them.
in_order_true : (m' : Map) × (in_order (alone depositors) two_deposits [] ≡ (ok true, m'))
unfolding in_order ◌>>=◌ return Run.process Calls.process_txn Calls.by_verb Calls.deposit require
    require_int load_int write find put text_eq stoi to_string ◌+ℤ◌
in_order_true = (_, refl)

parallel_settles_example :
    let s = finished.0 in
    (s.system.completed ≡ 2) × (s.flag ≡ true) × Same (value stored) in_order_true.0 s.my_map
parallel_settles_example =
    parallel_settles depositors own_address wallet_family two_deposits (1 ∷ 0 ∷ []) 2 clean
      (value stored) [] in_order_true.0 (omega arith) (Perm.refl _) (refl, (refl, tt)) confined
      finished.0 finished.1 in_order_true.1 stuck

taken : (ready : Scheduler) × (extract_block own_address (unnamed two_deposits) idle ≡ some ready)
unfolding extract_block Serial.create text_eq
taken = (_, refl)

ran : (last : Scheduler) × (execute_txns serial_contracts wallet_family 3 taken.0 ≡ returned last)
unfolding taken extract_block Serial.create text_eq execute_txns Run.turn Run.execute
    Serial.select_txn Serial.complete Run.process ◌>>=◌ return Wallet.process_txn Wallet.by_verb
    Wallet.deposit int load_int write find put stoi to_string ◌+ℤ◌ ◌-ℤ◌
ran = (_, refl)

-- The wallets of the two nodes do the same to a map.
same_wallets : SameContracts serial_contracts depositors two_deposits
unfolding Run.process text_eq
same_wallets = (
  λ m. sym (wallet_alone stored (λ h. true) a_deposit (bytes "ann") (bytes "ann") m),
  (λ m. sym (wallet_alone stored (λ h. true) a_deposit (bytes "bob") (bytes "bob") m), tt),
)

nodes_agree_example :
    let s = finished.0 in
    (ran.0.flag ≡ true
      → (s.system.completed ≡ 2) × (s.flag ≡ true) × Same (value stored) ran.0.my_map s.my_map)
    × (s.system.completed ≡ 2 → s.flag ≡ ran.0.flag)
nodes_agree_example =
    nodes_agree serial_contracts depositors own_address wallet_family two_deposits idle 3 refl refl
      refl refl ((_, refl), ((_, refl), tt)) (refl, (refl, tt)) same_wallets (omega arith) taken.0
      ran.0 taken.1 ran.1 (1 ∷ 0 ∷ []) 2 clean (omega arith) (Perm.refl _) (Outcome ℤ)
      (value stored) confined finished.0 finished.1 stuck
