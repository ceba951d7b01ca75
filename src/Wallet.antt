-- ===== src/Wallet.antt =====
-- BlockRAFT-distributed_node/smartContracts/wallet/walletProcessor.h: balances in `int`, kept as
-- decimal text in the shared map.
pub mod Transfer
pub mod Safety
use icsa_artifact.Base.{Bool, true, false, Option, none, some, [], ◌∷◌, if◌then◌else◌}
use icsa_artifact.Base.Int.{ℤ, ◌+ℤ◌, ◌-ℤ◌, leb_ℤ}
use icsa_artifact.Text.{Text, bytes, text_eq}
use icsa_artifact.Text.Decimal.{stoi, to_string}
use icsa_artifact.Contract.{
  Map, Outcome, ok, M, ◌>>=◌, ◌>>◌, return, attempt, int, write, catch_false, load_int,
}

module _ (get_value : Text → Text) where
  -- `getOrLoadBalance`
  abbrev pub get_or_load_balance : Text → M ℤ
  get_or_load_balance = load_int get_value

  unfoldable pub deposit : Text → Text → M Bool
  deposit name value = do
    current ← get_or_load_balance name
    amount ← attempt (stoi value)
    balance ← int (current +ℤ amount)
    write name (to_string balance)
    return true

  -- `getBalance` reads the global state and not the map.
  pub get_balance : Text → Text
  get_balance name = elim (get_value name) [ [] ↦ bytes "0" | c ∷ cs ↦ c ∷ cs ]

  spend : Text → ℤ → M Bool
  spend name balance = do write name (to_string balance); return true

  unfoldable pub withdraw : Text → Text → M Bool
  unfolding spend
  withdraw name value = do
    current ← get_or_load_balance name
    amount ← attempt (stoi value)
    if leb_ℤ amount current
        then (do balance ← int (current -ℤ amount); spend name balance)
        else return false

  -- The branch of `transfer` with enough in the first account.
  settle : Text → Text → ℤ → ℤ → ℤ → M Bool
  settle name1 name2 balance1 balance2 amount = do
    balance1' ← int (balance1 -ℤ amount)
    balance2' ← int (balance2 +ℤ amount)
    write name1 (to_string balance1')
    write name2 (to_string balance2')
    return true

  unfoldable pub transfer : Text → Text → Text → M Bool
  unfolding settle
  transfer name1 name2 value = do
    amount ← attempt (stoi value)
    balance1 ← get_or_load_balance name1
    balance2 ← get_or_load_balance name2
    if leb_ℤ amount balance1 then settle name1 name2 balance1 balance2 amount else return false

  -- What the protobuf and JSON libraries make of a transaction: whether its header parses, and, if
  -- its payload parses, the string members of the payload (`none`: no such string, an exception).
  module _ (parse_header : Text → Bool) (parse_payload : Text → Option (Text → Option Text)) where
    -- The calls by the payload's verb.
    unfoldable pub by_verb : (Text → Option Text) → M Bool
    by_verb field = do
      verb ← attempt (field (bytes "Verb"))
      if text_eq verb (bytes "deposit")
          then (do
            name ← attempt (field (bytes "Name"))
            value ← attempt (field (bytes "Value"))
            deposit name value)
          else if text_eq verb (bytes "withdraw")
          then (do
            name ← attempt (field (bytes "Name"))
            value ← attempt (field (bytes "Value"))
            withdraw name value)
          else if text_eq verb (bytes "transfer")
          then (do
            name1 ← attempt (field (bytes "Name1"))
            name2 ← attempt (field (bytes "Name2"))
            value ← attempt (field (bytes "Value"))
            transfer name1 name2 value)
          else return false

    unfoldable pub process_txn : Text → Text → M Bool
    unfolding by_verb
    process_txn header payload m =
        if parse_header header
        then catch_false ((attempt (parse_payload payload) >>= by_verb) m)
        else (ok false, m)
