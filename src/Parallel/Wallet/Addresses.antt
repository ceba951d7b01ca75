-- ===== src/Parallel/Wallet/Addresses.antt =====
-- The addresses that a wallet transaction needs in its header.
use icsa_artifact.Base.{◌≡◌, Bool, true, false, Option, some, inr}
use icsa_artifact.Base.Int.{◌+ℤ◌, ◌-ℤ◌, leb_ℤ}
use icsa_artifact.Text.{Text, bytes, text_eq}
use icsa_artifact.Contract.{ok}
use icsa_artifact.Contract.Number.{value}
use icsa_artifact.Dag.{TransactionStruct}
use icsa_artifact.Dag.Conflict.{Has}
use icsa_artifact.Parallel.Rules.{
  Confined, Confined-ended, Confined-require, Confined-int, Confined-branch, Confined-caught,
  Confined-load, Confined-store, Within-of,
}
use icsa_artifact.Parallel.Footprint.{Within}
use icsa_artifact.Parallel.Wallet.{deposit, withdraw, transfer, by_verb, process_txn}

module _ (get_value : Text → Text) (t : TransactionStruct) where
  Confined-deposit :
      (name amount : Text)
      → Has name t.outputs
      → Confined (value get_value) t (deposit get_value name amount)
  unfolding deposit
  Confined-deposit name amount out = Confined-load get_value t name (inr out) (λ current.
      Confined-require _ t _ (λ a e. Confined-int _ t (current +ℤ a) _ (λ fits.
        Confined-store get_value t name (current +ℤ a) out fits (Confined-ended _ t (ok true)))))

  Confined-withdraw :
      (name amount : Text)
      → Has name t.outputs
      → Confined (value get_value) t (withdraw get_value name amount)
  unfolding withdraw
  Confined-withdraw name amount out = Confined-load get_value t name (inr out) (λ current.
      Confined-require _ t _ (λ a e.
        Confined-branch _ t (leb_ℤ a current)
          (Confined-int _ t (current -ℤ a) _ (λ fits.
            Confined-store get_value t name (current -ℤ a) out fits (Confined-ended _ t (ok true))))
          (Confined-ended _ t (ok false))))

  Confined-transfer :
      (name1 name2 amount : Text)
      → Has name1 t.outputs
      → Has name2 t.outputs
      → Confined (value get_value) t (transfer get_value name1 name2 amount)
  unfolding transfer
  Confined-transfer name1 name2 amount out1 out2 = Confined-require _ t _ (λ a e.
      Confined-load get_value t name1 (inr out1) (λ balance1.
        Confined-load get_value t name2 (inr out2) (λ balance2.
          Confined-branch _ t (leb_ℤ a balance1)
            (Confined-int _ t (balance1 -ℤ a) _ (λ fits1.
              Confined-int _ t (balance2 +ℤ a) _ (λ fits2.
                Confined-store get_value t name1 (balance1 -ℤ a) out1 fits1 (
                  Confined-store get_value t name2 (balance2 +ℤ a) out2 fits2
                    (Confined-ended _ t (ok true))))))
            (Confined-ended _ t (ok false)))))

  -- The accounts of a payload are among the outputs of its transaction.
  pub record ListsAccounts (field : Text → Option Text) : Type 0 where
    pub name : (x : Text) → field (bytes "Name") ≡ some x → Has x t.outputs
    pub name1 : (x : Text) → field (bytes "Name1") ≡ some x → Has x t.outputs
    pub name2 : (x : Text) → field (bytes "Name2") ≡ some x → Has x t.outputs

  Confined-by_verb :
      (field : Text → Option Text)
      → ListsAccounts field
      → Confined (value get_value) t (by_verb get_value field)
  unfolding by_verb
  Confined-by_verb field lists = Confined-require _ t _ (λ verb e.
      Confined-branch _ t (text_eq verb (bytes "deposit"))
        (Confined-require _ t _ (λ name at.
          Confined-require _ t _ (λ amount e'. Confined-deposit name amount (lists.name name at))))
        (Confined-branch _ t (text_eq verb (bytes "withdraw"))
          (Confined-require _ t _ (λ name at.
            Confined-require _ t _
              (λ amount e'. Confined-withdraw name amount (lists.name name at))))
          (Confined-branch _ t (text_eq verb (bytes "transfer"))
            (Confined-require _ t _ (λ name1 at1. Confined-require _ t _ (λ name2 at2.
              Confined-require _ t _ (λ amount e'.
                Confined-transfer name1 name2 amount (lists.name1 name1 at1)
                  (lists.name2 name2 at2)))))
            (Confined-ended _ t (ok false)))))

-- If the accounts that the payload of a wallet transaction names are among the outputs in its header,
-- every access of `ProcessTxn` to the map is to an address of the header, and what it does next
-- depends on the balances under those addresses alone.
pub wallet-Within :
    (get_value : Text → Text) (parse_header : Text → Bool)
    (parse_payload : Text → Option (Text → Option Text)) (header payload : Text)
    (t : TransactionStruct)
    → ((field : Text → Option Text)
        → parse_payload payload ≡ some field
        → ListsAccounts get_value t field)
    → Within (value get_value) t (process_txn get_value parse_header parse_payload header payload)
unfolding process_txn
wallet-Within get_value parse_header parse_payload header payload t lists = Within-of _ t (
    Confined-branch _ t (parse_header header)
      (Confined-caught _ t
        (Confined-require _ t _ (λ field e. Confined-by_verb get_value t field (lists field e))))
      (Confined-ended _ t (ok false)))
