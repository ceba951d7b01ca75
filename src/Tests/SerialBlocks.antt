-- ===== src/Tests/SerialBlocks.antt =====
-- The serial node on a small block.
use icsa_artifact.Base.{ℕ, ◌<◌, ◌≡◌, refl, true, none, some, List, [], ◌∷◌, map, arith, get_or}
use icsa_artifact.Base.Int.{pos}
use icsa_artifact.Text.{Text, bytes}
use icsa_artifact.Dag.{DagModule, entry}
use icsa_artifact.Dag
use icsa_artifact.Serial.{create}
use icsa_artifact.Serial.Run.{
  Transaction, Processors, Scheduler, out_of_fuel, execute_txns, extract_block,
}
use icsa_artifact.Serial.Build.{same_graph}
use icsa_artifact.Serial.Order.{in_order, Agrees, serial_order}
use icsa_artifact.Serial.Spin.{unparsed_spins}
use icsa_artifact.Serial.Nft
use icsa_artifact.Serial
use icsa_artifact.Commerce
use icsa_artifact.Voting
use icsa_artifact.Wallet
use icsa_artifact.Workers.Sum.{sum}
use icsa_artifact.Tests.Blocks.{own_address, clean}
use icsa_artifact.Tests.Contracts.{stored, withdrawal}
use icsa_artifact.Tests.Tokens.{world}

abbrev processors : Processors
processors = record {
  wallet_pro = λ t. Wallet.process_txn stored (λ h. true) withdrawal t.header t.payload;
  e_comm_pro = λ t. Commerce.process_txn stored (λ h. true) withdrawal t.header t.payload;
  nft_pro = λ t. Serial.Nft.process_txn world (λ h. true) withdrawal t.header t.payload;
  vote_pro = λ t. Voting.process_txn stored (λ h. true) withdrawal t.header t.payload;
}

abbrev pub idle : Scheduler
idle = record { dag = clean; transactions = []; my_map = []; flag = true }

abbrev wallets : List (Text × Transaction)
wallets =
    (bytes "wallet", record { header = bytes "ann"; payload = [] })
    ∷ (bytes "wallet", record { header = bytes "ann"; payload = [] })
    ∷ []

serial_order_example :
    (s' : Scheduler) × (extract_block own_address
        (map (λ (p : Text × Transaction). p.1) wallets)
        idle
      ≡ some s')
    × Agrees processors
        (in_order processors wallets [])
        (execute_txns processors (λ h. some (bytes "wallet")) 3 s')
serial_order_example =
    serial_order processors own_address (λ h. some (bytes "wallet")) wallets idle 3 refl refl refl
      refl ((_, refl), ((_, refl), tt)) (refl, (refl, tt)) (omega arith)

abbrev two_headers : List Text
two_headers = bytes "a" ∷ bytes "a" ∷ []

same_graph_example :
    (dag' : DagModule) × (create own_address two_headers clean ≡ some dag')
    × ((a b : ℕ)
        → entry dag'.adjacency_matrix a b
          ≡ entry (Dag.create own_address (1 ∷ 0 ∷ []) two_headers 2 clean).adjacency_matrix a b)
    × ((b : ℕ)
        → b < 2
        → get_or dag'.in_degree b (pos 0) ≡ pos (sum (λ a. entry dag'.adjacency_matrix a b) 2))
same_graph_example =
    same_graph own_address two_headers clean clean (1 ∷ 0 ∷ []) 2 refl refl refl refl (omega arith)
      (λ pid h. omega arith) ((_, refl), ((_, refl), tt))

unparsed_spins_example :
    (s' : Scheduler) × (extract_block (λ h. none) (record { header = []; payload = [] } ∷ []) idle
      ≡ some s')
    × ((fuel : ℕ)
        → (last : Scheduler) × (execute_txns processors (λ h. none) fuel s' ≡ out_of_fuel last))
unparsed_spins_example =
    unparsed_spins processors (λ h. none) (λ h. none) (record { header = []; payload = [] }) idle
      refl refl refl refl refl refl
