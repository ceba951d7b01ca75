-- ===== src/Parallel/Wallet/Alone.antt =====
-- The wallet of the parallel node against that of the distributed node.
use icsa_artifact.Base.{◌≡◌, ◌∙◌, ap, Bool, true, false, Option, Bool-cases, inl, inr}
use icsa_artifact.Base.Int.{leb_ℤ}
use icsa_artifact.Text.{Text, bytes, text_eq}
use icsa_artifact.Contract.{Map, catch_false}
use icsa_artifact.Wallet
use icsa_artifact.Parallel.{run, require}
use icsa_artifact.Parallel.Rules.{
  Means, run-Means, Means-perform, Means-require, Means-int, Means-branch, Means-ended, run-caught,
}
use icsa_artifact.Parallel.Wallet.{deposit, withdraw, transfer, by_verb, process_txn}

module _ (get_value : Text → Text) where
  Means-deposit :
      (name amount : Text)
      → Means (deposit get_value name amount) (Wallet.deposit get_value name amount)
  unfolding deposit Wallet.deposit
  Means-deposit name amount = Means-perform _ (λ current.
      Means-require _ (λ a. Means-int _ (λ balance. Means-perform _ (λ u. Means-ended true))))

  Means-withdraw :
      (name amount : Text)
      → Means (withdraw get_value name amount) (Wallet.withdraw get_value name amount)
  unfolding withdraw Wallet.withdraw
  Means-withdraw name amount = Means-perform _ (λ current. Means-require _ (λ a.
      Means-branch (leb_ℤ a current)
        (Means-int _ (λ balance. Means-perform _ (λ u. Means-ended true))) (Means-ended false)))

  Means-transfer :
      (name1 name2 amount : Text)
      → Means (transfer get_value name1 name2 amount) (Wallet.transfer get_value name1 name2 amount)
  unfolding transfer Wallet.transfer
  Means-transfer name1 name2 amount = Means-require _ (λ a. Means-perform _ (λ balance1.
      Means-perform _ (λ balance2.
        Means-branch (leb_ℤ a balance1)
          (Means-int _ (λ new1.
            Means-int _ (λ new2. Means-perform _ (λ u. Means-perform _ (λ u'. Means-ended true)))))
          (Means-ended false))))

  Means-by_verb :
      (parse_header : Text → Bool) (parse_payload : Text → Option (Text → Option Text))
      (field : Text → Option Text)
      → Means (by_verb get_value field) (Wallet.by_verb get_value parse_header parse_payload field)
  unfolding by_verb Wallet.by_verb
  Means-by_verb parse_header parse_payload field = Means-require _ (λ verb.
      Means-branch (text_eq verb (bytes "deposit"))
        (Means-require _ (λ name. Means-require _ (λ amount. Means-deposit name amount)))
        (Means-branch (text_eq verb (bytes "withdraw"))
          (Means-require _ (λ name. Means-require _ (λ amount. Means-withdraw name amount)))
          (Means-branch (text_eq verb (bytes "transfer"))
            (Means-require _ (λ name1.
              Means-require _
                (λ name2. Means-require _ (λ amount. Means-transfer name1 name2 amount))))
            (Means-ended false))))

-- `ProcessTxn` of the parallel node's wallet does to the map what the distributed node's does, if no
-- other thread comes in between.
pub wallet_alone :
    (get_value : Text → Text) (parse_header : Text → Bool)
    (parse_payload : Text → Option (Text → Option Text)) (header payload : Text) (m : Map)
    → run (process_txn get_value parse_header parse_payload header payload) m
      ≡ Wallet.process_txn get_value parse_header parse_payload header payload m
unfolding process_txn Wallet.process_txn
wallet_alone get_value parse_header parse_payload header payload m =
    elim (Bool-cases (parse_header header)) [
      | inl parses ↦
          rw (parses, process_txn, Wallet.process_txn)
            (run-caught (require (parse_payload payload) (by_verb get_value)) m
              ∙ ap catch_false (
                  run-Means (Means-require _ (Means-by_verb get_value parse_header parse_payload))
                    m))
      | inr fails ↦ rw (fails, process_txn, Wallet.process_txn)
    ]
