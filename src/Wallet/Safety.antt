-- ===== src/Wallet/Safety.antt =====
-- `ProcessTxn` of the wallet: its exceptions, and what a refused transaction leaves.
use icsa_artifact.Base.{◌≡◌, refl, ◌≢◌, Bool, false, Option, arith, Bool-cases, inl, inr}
use icsa_artifact.Text.{Text, bytes, text_eq}
use icsa_artifact.Contract.{Map, ok, threw, M, attempt, ◌>>=◌}
use icsa_artifact.Contract.Number.{value}
use icsa_artifact.Contract.Atomic.{
  Same, Unchanged, Atomic, run-Atomic, Quiet-load, Quiet-attempt, Quiet-int, Atomic-bind,
  Atomic-branch, Atomic-return, Sure-return, Sure-write, Atomic-Sure, catch_false-Unchanged,
  catch_false-ne-threw,
}
use icsa_artifact.Wallet.{deposit, withdraw, transfer, by_verb, process_txn}

module _ (get_value : Text → Text) where
  deposit-Atomic : (name v : Text) → Atomic (value get_value) (deposit get_value name v)
  unfolding deposit
  deposit-Atomic name v = Atomic-bind (value get_value) (Quiet-load get_value name) λ x.
      Atomic-bind (value get_value) (Quiet-attempt (value get_value) _) λ n.
        Atomic-bind (value get_value) (Quiet-int (value get_value) _) λ y.
          Atomic-Sure (value get_value)
            (Sure-write (value get_value) _ _ (Sure-return (value get_value)))

  withdraw-Atomic : (name v : Text) → Atomic (value get_value) (withdraw get_value name v)
  unfolding withdraw
  withdraw-Atomic name v = Atomic-bind (value get_value) (Quiet-load get_value name) λ x.
      Atomic-bind (value get_value) (Quiet-attempt (value get_value) _) λ n.
        Atomic-branch (value get_value) _
          (Atomic-bind (value get_value) (Quiet-int (value get_value) _) λ y.
            Atomic-Sure (value get_value)
              (Sure-write (value get_value) _ _ (Sure-return (value get_value))))
          (Atomic-return (value get_value) false)

  transfer-Atomic : (a b v : Text) → Atomic (value get_value) (transfer get_value a b v)
  unfolding transfer
  transfer-Atomic a b v = Atomic-bind (value get_value) (Quiet-attempt (value get_value) _) λ n.
      Atomic-bind (value get_value) (Quiet-load get_value a) λ x.
        Atomic-bind (value get_value) (Quiet-load get_value b) λ y.
          Atomic-branch (value get_value) _
            (Atomic-bind (value get_value) (Quiet-int (value get_value) _) λ x'.
              Atomic-bind (value get_value) (Quiet-int (value get_value) _) λ y'.
                Atomic-Sure (value get_value) (
                  Sure-write (value get_value) _ _
                    (Sure-write (value get_value) _ _ (Sure-return (value get_value)))))
            (Atomic-return (value get_value) false)

  by_verb-Atomic :
      (parse_header : Text → Bool) (parse_payload : Text → Option (Text → Option Text))
      (field : Text → Option Text)
      → Atomic (value get_value) (by_verb get_value parse_header parse_payload field)
  unfolding by_verb
  by_verb-Atomic parse_header parse_payload field = try (field (bytes "Verb")) λ verb.
      Atomic-branch (value get_value) (text_eq verb (bytes "deposit"))
        (try (field (bytes "Name")) λ a. try (field (bytes "Value")) λ v. deposit-Atomic a v)
        (Atomic-branch (value get_value) (text_eq verb (bytes "withdraw"))
          (try (field (bytes "Name")) λ a. try (field (bytes "Value")) λ v. withdraw-Atomic a v)
          (Atomic-branch (value get_value) (text_eq verb (bytes "transfer"))
            (try (field (bytes "Name1")) λ a.
              try (field (bytes "Name2"))
                λ b. try (field (bytes "Value")) λ v. transfer-Atomic a b v)
            (Atomic-return (value get_value) false)))
    where
      try :
          (o : Option Text) {f : Text → M Bool}
          → ((a : Text) → Atomic (value get_value) (f a))
          → Atomic (value get_value) (attempt o >>= f)
      try o h = Atomic-bind (value get_value) (Quiet-attempt (value get_value) o) h

-- No exception leaves `process_txn`, and a wallet transaction that answers `false` (header or
-- payload not parsed, a member missing, a number that is no `int`, an unknown verb, or too little
-- balance) leaves the balance of every account as it was.
pub wallet_txn_atomic :
    (get_value : Text → Text) (parse_header : Text → Bool)
    (parse_payload : Text → Option (Text → Option Text)) (header payload : Text) (m : Map)
    → let r = process_txn get_value parse_header parse_payload header payload m in
      (r.0 ≢ threw) × (r.0 ≡ ok false → (c : Text) → value get_value c r.1 ≡ value get_value c m)
unfolding process_txn
wallet_txn_atomic get_value parse_header parse_payload header payload m =
    elim (Bool-cases (parse_header header)) [
      | inl parsed ↦
          rw (parsed, process_txn)
            (
              catch_false-ne-threw _,
              catch_false-Unchanged (value get_value) m _ (handled m m (λ c. refl)),
            )
      | inr bad ↦ rw (bad, process_txn) (ground arith, λ e c. refl)
    ]
  where
    handled :
        (m m' : Map)
        → Same (value get_value) m m'
        → Unchanged
            (value get_value)
            m
            ((attempt (parse_payload payload) >>= by_verb get_value parse_header parse_payload) m')
    handled = run-Atomic (value get_value) (
        Atomic-bind (value get_value) (Quiet-attempt (value get_value) _)
          (by_verb-Atomic get_value parse_header parse_payload))
