-- ===== src/Parallel/Wallet.antt =====
-- singleNode-parallel/smartContracts/wallet/walletProcessor.h: balances in `int`, kept as decimal
-- text in the map that the threads share. An access is one load or one store of a balance.
pub mod Alone
pub mod Addresses
use icsa_artifact.Base.{Bool, true, false, Option, if◌then◌else◌}
use icsa_artifact.Base.Int.{ℤ, ◌+ℤ◌, ◌-ℤ◌, leb_ℤ}
use icsa_artifact.Text.{Text, bytes, text_eq}
use icsa_artifact.Text.Decimal.{stoi, to_string}
use icsa_artifact.Contract.{ok, load_int, write}
use icsa_artifact.Parallel.{Call, ended, perform, require, require_int, caught}

module _ (get_value : Text → Text) where
  -- `getOrLoadBalance`, and what follows
  abbrev pub get_or_load_balance : Text → (ℤ → Call) → Call
  get_or_load_balance name = perform (load_int get_value name)

  abbrev pub store_balance : Text → ℤ → Call → Call
  store_balance name balance rest = perform (write name (to_string balance)) (λ _. rest)

  unfoldable pub deposit : Text → Text → Call
  deposit name value = get_or_load_balance name (λ current_balance. require (stoi value) (λ amount.
      require_int (current_balance +ℤ amount)
        (λ new_balance. store_balance name new_balance (ended (ok true)))))

  unfoldable pub withdraw : Text → Text → Call
  withdraw name value = get_or_load_balance name (λ current_balance. require (stoi value) (λ amount.
      if leb_ℤ amount current_balance
      then require_int (current_balance -ℤ amount)
          (λ new_balance. store_balance name new_balance (ended (ok true)))
      else ended (ok false)))

  unfoldable pub transfer : Text → Text → Text → Call
  transfer name1 name2 value = require (stoi value) (λ amount.
      get_or_load_balance name1 (λ balance1. get_or_load_balance name2 (λ balance2.
        if leb_ℤ amount balance1
        then require_int (balance1 -ℤ amount) (λ new_balance1.
          require_int (balance2 +ℤ amount) (λ new_balance2.
            store_balance name1 new_balance1 (store_balance name2 new_balance2 (ended (ok true)))))
        else ended (ok false))))

  -- The calls by the payload's verb; `field` gives the payload's string members.
  unfoldable pub by_verb : (Text → Option Text) → Call
  unfolding deposit withdraw transfer
  by_verb field = require (field (bytes "Verb")) (λ verb.
      if text_eq verb (bytes "deposit")
      then require (field (bytes "Name"))
          (λ name. require (field (bytes "Value")) (λ value. deposit name value))
      else if text_eq verb (bytes "withdraw")
      then require (field (bytes "Name"))
          (λ name. require (field (bytes "Value")) (λ value. withdraw name value))
      else if text_eq verb (bytes "transfer")
      then require (field (bytes "Name1")) (λ name1.
        require (field (bytes "Name2"))
          (λ name2. require (field (bytes "Value")) (λ value. transfer name1 name2 value)))
      else ended (ok false))

  -- `ProcessTxn`; `parse_header` and `parse_payload` are the protobuf and JSON libraries.
  unfoldable pub process_txn :
      (Text → Bool) → (Text → Option (Text → Option Text)) → Text → Text → Call
  unfolding by_verb
  process_txn parse_header parse_payload header payload =
      if parse_header header
      then caught (require (parse_payload payload) by_verb)
      else ended (ok false)
