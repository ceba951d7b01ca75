-- ===== src/Tests/Contracts.antt =====
-- The wallet and the voting contract on small maps.
use icsa_artifact.Base.{
  ◌≡◌, ◌≢◌, refl, true, false, Option, none, some, [], ◌∷◌, arith, if◌then◌else◌,
}
use icsa_artifact.Base.Int.{pos, negsuc, ◌+ℤ◌, ◌-ℤ◌}
use icsa_artifact.Text.{Text, bytes, text_eq}
use icsa_artifact.Text.Decimal.{stoi, to_string}
use icsa_artifact.Contract.{Map, ok, threw, find, put, load_int, ◌>>=◌, attempt, return}
use icsa_artifact.Contract.Number.{value}
use icsa_artifact.Wallet
use icsa_artifact.Wallet.Transfer.{transfer_moves, transfer_to_self}
use icsa_artifact.Wallet.Safety.{wallet_txn_atomic}
use icsa_artifact.Voting
use icsa_artifact.Voting.Safety.{voting_txn_atomic}

-- The global state knows Bob alone.
abbrev pub stored : Text → Text
stored name = if text_eq name (bytes "bob") then bytes "5" else []

abbrev accounts : Map
accounts = (bytes "ann", bytes "30") ∷ []

stoi_reads :
    (stoi (bytes " -12x") ≡ some (negsuc 11))
    × (stoi (bytes "2147483648") ≡ none)
    × (stoi (bytes "x1") ≡ none)
unfolding stoi
stoi_reads = (refl, refl, refl)

transfer_moves_example :
    let r = Wallet.transfer stored (bytes "ann") (bytes "bob") (bytes "20") accounts in
    (r.0 ≡ ok true)
    × (value stored (bytes "ann") r.1 ≡ ok (pos 30 -ℤ pos 20))
    × (value stored (bytes "bob") r.1 ≡ ok (pos 5 +ℤ pos 20))
    × ((c : Text)
        → c ≢ bytes "ann"
        → c ≢ bytes "bob"
        → value stored c r.1 ≡ value stored c accounts)
unfolding load_int stoi find put text_eq to_string ◌+ℤ◌ ◌-ℤ◌
transfer_moves_example =
    transfer_moves stored (bytes "ann") (bytes "bob") (bytes "20") accounts refl refl refl
      (ground arith) (omega arith) (omega arith) (omega arith)

transfer_to_self_example :
    let r = Wallet.transfer stored (bytes "ann") (bytes "ann") (bytes "20") accounts in
    (r.0 ≡ ok true) × (value stored (bytes "ann") r.1 ≡ ok (pos 30 +ℤ pos 20))
unfolding load_int stoi find put text_eq to_string ◌+ℤ◌ ◌-ℤ◌
transfer_to_self_example =
    transfer_to_self stored (bytes "ann") (bytes "20") accounts refl refl (omega arith)
      (omega arith) (omega arith)

-- A payload that is read as a withdrawal of 40 from Ann.
abbrev pub withdrawal : Text → Option (Text → Option Text)
withdrawal payload = some (λ key.
    if text_eq key (bytes "Verb")
    then some (bytes "withdraw")
    else if text_eq key (bytes "Name")
    then some (bytes "ann")
    else if text_eq key (bytes "Value")
    then some (bytes "40")
    else none)

wallet_txn_atomic_example :
    let r = Wallet.process_txn stored (λ h. true) withdrawal [] [] accounts in
    (r.0 ≢ threw) × (r.0 ≡ ok false → (c : Text) → value stored c r.1 ≡ value stored c accounts)
wallet_txn_atomic_example = wallet_txn_atomic stored (λ h. true) withdrawal [] [] accounts

withdrawal_fails : (Wallet.process_txn stored (λ h. true) withdrawal [] [] accounts).0 ≡ ok false
unfolding Wallet.process_txn Wallet.withdraw load_int stoi find text_eq ◌>>=◌ attempt return
withdrawal_fails = refl

voting_txn_atomic_example :
    let r = Voting.process_txn stored (λ h. true) withdrawal [] [] accounts in
    (r.0 ≢ threw) × (r.0 ≡ ok false → (c : Text) → value stored c r.1 ≡ value stored c accounts)
voting_txn_atomic_example = voting_txn_atomic stored (λ h. true) withdrawal [] [] accounts
