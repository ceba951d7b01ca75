-- ===== src/Parallel/Answer.antt =====
-- What it keeps that a call ends.
use icsa_artifact.Base.{
  ◌==◌, subst, ℕ, ◌<◌, ◌≡◌, refl, sym, ◌∙◌, ap, Bool, true, false, arith, Bool-cases, inl, inr,
  ℕ_discrete, if◌then◌else◌,
}
use icsa_artifact.Text.{Text}
use icsa_artifact.Contract.{Map, ok}
use icsa_artifact.Dag.{TransactionStruct}
use icsa_artifact.Parallel.{Call, ended, run}
use icsa_artifact.Parallel.Footprint.{Within}
use icsa_artifact.Parallel.Turns.{turn, in_turn-cong}
use icsa_artifact.Workers.{update}
use icsa_artifact.Parallel.Ordered.{effects, answer_of, Ordered}

module _ {V : Type 0} (view : Text → Map → V) (n : ℕ) (txn : ℕ → TransactionStruct)
    (call : ℕ → Call) (start : Map) where
  module _ (taken runs : ℕ → Bool) (left : ℕ → Call) (m : Map) (flag : Bool)
      (o : Ordered view n txn call start taken runs left m flag)
      (w : (i : ℕ) → Within view (txn i) (call i)) where
    -- The call of `i` has ended.
    module _ (i : ℕ) (b : Bool) (lt : i < n) (here : runs i ≡ true) (claimed : taken i ≡ true)
        (at : left i ≡ ended (ok b)) where
      answered : answer_of view n txn call start taken i ≡ ok b
      answered = sym (o.answers i lt here) ∙ ap (λ p. (run p m).0) at

      nothing_left :
          (k : ℕ) (m' : Map)
          → turn (update runs i false) (effects left) k m' ≡ turn runs (effects left) k m'
      nothing_left k m' = elim (Bool-cases (i == k)) [
        | inl same ↦
            let e : i ≡ k = ground (arith, same) in
            rw (same, ← e, here) (sym (ap (λ p. (run p m').1) at))
        | inr other ↦ rw other refl
      ]

      raised_after :
          (if b then flag else false) ≡ true
          → (j : ℕ) → j < n
          → taken j ≡ true
          → update runs i false j ≡ false
          → answer_of view n txn call start taken j ≡ ok true
      raised_after on j hj t r = elim (ℕ_discrete i j) [
        | yes same ↦
            subst (λ k. answer_of view n txn call start taken k ≡ ok true) same
              (answered ∙ ap ok (ground arith))
        | no other ↦ o.raised (ground arith) j hj t (ground arith)
      ]

      lowered_after :
          (if b then flag else false) ≡ false
          → (j : ℕ) × (j < n)
            × (taken j ≡ true)
            × (update runs i false j ≡ false)
            × (answer_of view n txn call start taken j ≡ ok false)
      lowered_after off = elim (Bool-cases b) [
        | inl yes' ↦ let (j, hj, t, r, e) = o.lowered (ground arith) in (j, hj, t, ground arith, e)
        | inr no' ↦ (i, lt, claimed, ground arith, answered ∙ ap ok no')
      ]

      pub answer-Ordered :
          Ordered view n txn call start taken
            (update runs i false)
            left
            m
            (if b then flag else false)
      answer-Ordered = record {
        within = o.within;
        fresh = o.fresh;
        maps = λ x.
            ap (view x) (
              in_turn-cong runs (update runs i false) (effects left) (effects left) n m
                (λ k hk. nothing_left k))
            ∙ o.maps x;
        answers = λ j hj e. o.answers j hj (ground arith);
        raised = λ on j hj t r. raised_after on j hj t r;
        lowered = λ off. lowered_after off;
      }
