-- ===== src/Parallel/Claim.antt =====
-- What it keeps that a thread takes a transaction.
use icsa_artifact.Base.{
  subst, ℕ, ◌<◌, ◌≤◌, ◌≡◌, sym, ◌∙◌, ap, Bool, true, false, arith, dec_lt, ℕ_discrete,
}
use icsa_artifact.Text.{Text}
use icsa_artifact.Contract.{Map}
use icsa_artifact.Contract.Atomic.{Same}
use icsa_artifact.Dag.{TransactionStruct}
use icsa_artifact.Dag.Conflict.{Conflict}
use icsa_artifact.Parallel.{Call, run}
use icsa_artifact.Parallel.Footprint.{Touches, Alike, Within, run-Alike, run-unseen, Conflict-comm}
use icsa_artifact.Parallel.Turns.{in_turn, in_turn-cong, in_turn-unseen, Joins, join_last}
use icsa_artifact.Workers.{update}
use icsa_artifact.Parallel.Ordered.{effects, answer_of, Ordered, respects, commute}

module _ {V : Type 0} (view : Text → Map → V) (n : ℕ) (txn : ℕ → TransactionStruct)
    (call : ℕ → Call) (start : Map) where
  module _ (taken runs : ℕ → Bool) (left : ℕ → Call) (m : Map) (flag : Bool)
      (o : Ordered view n txn call start taken runs left m flag)
      (w : (i : ℕ) → Within view (txn i) (call i)) where
    -- A thread takes `i`.
    module _ (i : ℕ) (lt : i < n) (new : taken i ≡ false) (idle : runs i ≡ false)
        (later : (j : ℕ) → i < j → j < n → taken j ≡ true → ¬ Conflict (txn i) (txn j))
        (apart : (j : ℕ) → j < n → runs j ≡ true → ¬ Conflict (txn i) (txn j)) where
      Joins-taken : Joins taken (update taken i true) i
      Joins-taken = record { fresh = new; there = ground arith; rest = λ j ne. ground arith }

      Joins-runs : Joins runs (update runs i true) i
      Joins-runs = record { fresh = idle; there = ground arith; rest = λ j ne. ground arith }

      last_taken :
          (k : ℕ)
          → i < k
          → k ≤ n
          → Same view
              (in_turn (update taken i true) (effects call) k start)
              (effects call i (in_turn taken (effects call) k start))
      last_taken k lo hi =
          join_last view taken (update taken i true) (effects call) i Joins-taken
            (respects view n txn call start call w) k start lo
            (λ j above below e.
              commute view n txn call start call w i j (later j above (omega arith) e))

      last_runs :
          Same view
            (in_turn (update runs i true) (effects left) n m)
            (effects left i (in_turn runs (effects left) n m))
      last_runs =
          join_last view runs (update runs i true) (effects left) i Joins-runs
            (respects view n txn call start left o.within) n m lt
            (λ j above below e. commute view n txn call start left o.within i j (apart j below e))

      above_new : (j : ℕ) → i ≤ j → taken j ≡ true → i < j
      above_new j le e = elim (dec_lt i j) [
        | yes above ↦ above
        | no at ↦ let at : i ≡ j = omega arith in ground (arith, new)
      ]

      -- What the call of `i` will see is what it sees in the order of the block.
      seen : Alike view (txn i) (in_turn taken (effects call) i start) m
      unfolding in_turn
      seen x touched =
          sym (
            in_turn-unseen view (Touches view (txn i)) runs (effects left) 0 n m (omega arith)
              (λ j lo hi e m'.
                run-unseen view (txn i) (txn j) (apart j hi e) (left j) (o.within j) m')
              x touched)
          ∙ o.maps x
          ∙ in_turn-unseen view (Touches view (txn i)) taken (effects call) i n start (omega arith)
              (λ j lo hi e m'.
                run-unseen view (txn i) (txn j) (later j (above_new j lo e) hi e) (call j) (w j) m')
              x touched

      same_answer :
          (j : ℕ)
          → j < n
          → (i < j → ¬ Conflict (txn i) (txn j))
          → answer_of view n txn call start (update taken i true) j
            ≡ answer_of view n txn call start taken j
      same_answer j hj free = elim (dec_lt i j) [
        | yes above ↦
            (run-Alike view (txn j) (call j) (w j) _ _ (λ x touched.
              sym (last_taken j above (omega arith) x)
              ∙ run-unseen view (txn j) (txn i) (λ c. free above (Conflict-comm c)) (call i) (w i)
                  (in_turn taken (effects call) j start) x touched)).0
        | no below ↦
            ap (λ m'. (run (call j) m').0)
              (in_turn-cong taken (update taken i true) (effects call) (effects call) j start
                (λ k hk m'. ground arith))
      ]

      new_answer : (run (left i) m).0 ≡ answer_of view n txn call start taken i
      new_answer =
          ap (λ p. (run p m).0) (o.fresh i new) ∙ (run-Alike view (txn i) (call i) (w i) _ _ seen).0

      claim_answers :
          (j : ℕ)
          → j < n
          → update runs i true j ≡ true
          → (run (left j) m).0 ≡ answer_of view n txn call start (update taken i true) j
      claim_answers j hj e = elim (ℕ_discrete i j) [
        | yes same ↦
            subst
              (λ k. (run (left k) m).0 ≡ answer_of view n txn call start (update taken i true) k)
              same (new_answer ∙ sym (same_answer i lt (λ above. absurd (omega arith))))
        | no other ↦
            let r : runs j ≡ true = ground arith in
            o.answers j hj r ∙ sym (same_answer j hj (λ above. apart j hj r))
      ]

      pub claim-Ordered :
          Ordered view n txn call start (update taken i true) (update runs i true) left m flag
      claim-Ordered = record {
        within = o.within;
        fresh = λ j e. o.fresh j (ground arith);
        maps = λ x.
            sym (last_runs x)
            ∙ ap (λ p. view x (run p (in_turn runs (effects left) n m)).1) (o.fresh i new)
            ∙ respects view n txn call start call w i _ _ o.maps x
            ∙ last_taken n lt (omega arith) x;
        answers = λ j hj e. claim_answers j hj e;
        raised = λ on j hj t r.
            same_answer j hj (λ above. later j above hj (ground arith))
            ∙ o.raised on j hj (ground arith) (ground arith);
        lowered = λ off.
            let (j, hj, t, r, e) = o.lowered off in
            (j, hj, ground arith, ground arith, same_answer j hj (λ above. later j above hj t) ∙ e);
      }
