-- ===== src/Parallel/Access.antt =====
-- What an access to the map keeps, which the call of one transaction makes.
use icsa_artifact.Base.{
  ◌==◌, subst, ℕ, ◌<◌, ◌≡◌, ◌≢◌, refl, sym, ◌∙◌, ap, Bool, true, false, arith, Bool-cases, inl, inr,
  ℕ_discrete,
}
use icsa_artifact.Text.{Text}
use icsa_artifact.Contract.{Map}
use icsa_artifact.Contract.Atomic.{Same}
use icsa_artifact.Dag.{TransactionStruct}
use icsa_artifact.Dag.Conflict.{Conflict}
use icsa_artifact.Parallel.{Call, access, run}
use icsa_artifact.Parallel.Footprint.{Within, untouched, run-Alike, Conflict-comm}
use icsa_artifact.Parallel.Turns.{in_turn, in_turn-cong, Joins, join_first}
use icsa_artifact.Workers.{update}
use icsa_artifact.Parallel.Ordered.{effects, answer_of, Ordered, respects, commute}

module _ {V : Type 0} (view : Text → Map → V) (n : ℕ) (txn : ℕ → TransactionStruct)
    (call : ℕ → Call) (start : Map) where
  module _ (taken runs : ℕ → Bool) (left : ℕ → Call) (m : Map) (flag : Bool)
      (o : Ordered view n txn call start taken runs left m flag)
      (w : (i : ℕ) → Within view (txn i) (call i)) where
    -- The call of `i` makes one access.
    module _ (i : ℕ) (lt : i < n) (here : runs i ≡ true) (claimed : taken i ≡ true)
        (apart : (j : ℕ) → j < n → runs j ≡ true → i ≢ j → ¬ Conflict (txn i) (txn j))
        (next : Map → Call) (change : Map → Map) (at : left i ≡ access next change) where
      abbrev others : ℕ → Bool
      others = update runs i false

      abbrev after : ℕ → Call
      after = update left i (next m)

      Within-access : Within view (txn i) (access next change)
      Within-access = subst (Within view (txn i)) at (o.within i)

      Within-after : (j : ℕ) → Within view (txn j) (after j)
      Within-after j = elim (Bool-cases (i == j)) [
        | inl same ↦
            rw same
              (subst (λ k. Within view (txn k) (next m)) (ground (arith, same)) (Within-access.2 m))
        | inr other ↦ rw other (o.within j)
      ]

      after_self : (j : ℕ) → i ≡ j → after j ≡ next m
      after_self j e = ground arith

      after_other : (j : ℕ) → i ≢ j → after j ≡ left j
      after_other j ne = ground arith

      Joins-others : Joins others runs i
      Joins-others = record { fresh = ground arith; there = here; rest = λ j ne. ground arith }

      apart_others : (j : ℕ) → j < n → others j ≡ true → ¬ Conflict (txn i) (txn j)
      apart_others j hj e = apart j hj (ground arith) (ground arith)

      -- The access and what is left of the call, before the others.
      first_after :
          Same view
            (in_turn others (effects left) n (effects left i m))
            (in_turn runs (effects after) n (change m))
      first_after x =
          join_first view others runs (effects after) i Joins-others
            (respects view n txn call start after Within-after) n (change m) lt
            (λ j lo e.
              commute view n txn call start after Within-after i j (apart_others j (omega arith) e))
            x
          ∙ ap (view x) (
              in_turn-cong others others (effects left) (effects after) n
                (effects after i (change m)) (λ k hk m'. ground arith)
              ∙ ap (in_turn others (effects left) n) (
                  ap (λ p. (run p (change m)).1) (after_self i refl)
                  ∙ sym (ap (λ p. (run p m).1) at)))

      after_answers :
          (j : ℕ)
          → j < n
          → runs j ≡ true
          → (run (after j) (change m)).0 ≡ answer_of view n txn call start taken j
      after_answers j hj e = elim (ℕ_discrete i j) [
        | yes same ↦
            ap (λ p. (run p (change m)).0) (after_self j same)
            ∙ sym (ap (λ p. (run p m).0) at)
            ∙ rw same (o.answers j hj e)
        | no other ↦
            ap (λ p. (run p (change m)).0) (after_other j other)
            ∙ (run-Alike view (txn j) (left j) (o.within j) m (change m) (λ x touched.
                Within-access.0 m x (
                  untouched view (txn j) (txn i) (λ c. apart j hj e other (Conflict-comm c)) x
                    touched))).0
            ∙ o.answers j hj e
      ]

      pub access-Ordered :
          Ordered view n txn call start taken runs (update left i (next m)) (change m) flag
      access-Ordered = record {
        within = Within-after;
        fresh = λ j e. ground (arith, o.fresh j e);
        maps = λ x.
            first_after x
            ∙ sym (
                join_first view others runs (effects left) i Joins-others
                  (respects view n txn call start left o.within) n m lt
                  (λ j lo e.
                    commute view n txn call start left o.within i j
                      (apart_others j (omega arith) e))
                  x)
            ∙ o.maps x;
        answers = λ j hj e. after_answers j hj e;
        raised = o.raised;
        lowered = o.lowered;
      }
