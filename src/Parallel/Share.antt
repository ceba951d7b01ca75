-- ===== src/Parallel/Share.antt =====
-- The answers of the calls, against those of a node's whole share of the block in its order.
use icsa_artifact.Base.{
  ℕ, zero, suc, ◌≤◌, ◌<◌, ◌≡◌, refl, sym, ◌∙◌, ap, Bool, true, false, arith, inl, inr, Bool-cases,
}
use icsa_artifact.Text.{Text}
use icsa_artifact.Contract.{Map}
use icsa_artifact.Contract.Atomic.{Same}
use icsa_artifact.Dag.{TransactionStruct}
use icsa_artifact.Dag.Conflict.{Conflict}
use icsa_artifact.Workers.{waiting}
use icsa_artifact.Workers.Inv.{IsDag, Inv, outstanding}
use icsa_artifact.Workers.Keep.{Reach-Inv}
use icsa_artifact.Workers.Safety.{completed_iff}
use icsa_artifact.Parallel.{Call, State, Runs, Reach-of_Runs}
use icsa_artifact.Parallel.Footprint.{
  Alike, Within, Conflict-comm, Has-cases, run-Alike, run-kept, run-unseen,
}
use icsa_artifact.Parallel.Turns.{in_turn, in_turn-cong, in_turn-none}
use icsa_artifact.Parallel.Ordered.{effects, answer_of}
use icsa_artifact.Parallel.Keep.{taken_in, runs_in, later_apart, Runs-InOrder}

module _ {V : Type 0} (view : Text → Map → V) (n : ℕ) (txn : ℕ → TransactionStruct)
    (call : ℕ → Call) (m : Map) (w : (i : ℕ) → Within view (txn i) (call i)) where
  -- A call keeps alike what is alike for it and for another one.
  run-Alike-both :
      (k j : ℕ) (a b : Map)
      → Alike view (txn k) a b
      → Alike view (txn j) a b
      → Alike view (txn j) (effects call k a) (effects call k b)
  run-Alike-both k j a b own other x touched = elim (Has-cases x (txn k).outputs) [
    | inl out ↦ (run-Alike view (txn k) (call k) (w k) a b own).1 x (inr out)
    | inr not_out ↦
        run-kept view (txn k) (call k) (w k) b x not_out
        ∙ other x touched
        ∙ sym (run-kept view (txn k) (call k) (w k) a x not_out)
  ]

  -- What `taken` leaves out of `all` conflicts with nothing later of `taken`.
  module _ (taken all : ℕ → Bool) (within : (i : ℕ) → i < n → taken i ≡ true → all i ≡ true)
      (closed : (k j : ℕ)
        → k < j
        → j < n
        → taken k ≡ false
        → taken j ≡ true
        → all k ≡ true
        → ¬ Conflict (txn k) (txn j)) where
    Alike-share :
        (k j : ℕ)
        → k ≤ j
        → j < n
        → taken j ≡ true
        → Alike view (txn j) (in_turn taken (effects call) k m) (in_turn all (effects call) k m)
    unfolding in_turn
    Alike-share zero j le hj t = λ x touched. refl
    Alike-share (suc k) j le hj t = elim (Bool-cases (taken k)) [
      | inl here ↦
          rw (here, within k (omega arith) here)
            (run-Alike-both k j _ _ (Alike-share k k (omega arith) (omega arith) here)
              (Alike-share k j (omega arith) hj t))
      | inr off ↦ rw off (elim (Bool-cases (all k)) [
        | inl there ↦ rw there (λ x touched.
            run-unseen view (txn j) (txn k)
              (λ c. closed k j (omega arith) hj off t there (Conflict-comm c)) (call k) (w k)
              (in_turn all (effects call) k m) x touched
            ∙ Alike-share k j (omega arith) hj t x touched)
        | inr absent ↦ rw absent (Alike-share k j (omega arith) hj t)
      ])
    ]

    pub answer-share :
        (i : ℕ)
        → i < n
        → taken i ≡ true
        → answer_of view n txn call m all i ≡ answer_of view n txn call m taken i
    answer-share i lt t =
        (run-Alike view (txn i) (call i) (w i) _ _ (Alike-share i i (omega arith) lt t)).0

module _ {V : Type 0} (view : Text → Map → V) (n : ℕ) (adj : ℕ → ℕ → ℕ) (assigned : ℕ → Bool)
    (dag : IsDag adj assigned) (txn : ℕ → TransactionStruct)
    (edge : (p i : ℕ) → p < i → i < n → Conflict (txn p) (txn i) → adj p i ≡ 1) (call : ℕ → Call)
    (m : Map) (w : (i : ℕ) → Within view (txn i) (call i)) {s : State}
    (r : Runs n adj assigned call m s) where
  inv : Inv n adj assigned s.system
  inv = Reach-Inv n adj assigned dag (Reach-of_Runs n adj r)

  assigned-of_taken : (i : ℕ) → taken_in s.system.phase i ≡ true → assigned i ≡ true
  assigned-of_taken i t = ground (arith, inv.others i)

  waiting-of_free :
      (i : ℕ) → assigned i ≡ true → taken_in s.system.phase i ≡ false → s.system.phase i ≡ waiting
  waiting-of_free i mine free = ground (arith, inv.own i)

  -- The answer of a call that has begun is the one of the whole share in order.
  pub answer-taken :
      (i : ℕ)
      → i < n
      → taken_in s.system.phase i ≡ true
      → answer_of view n txn call m assigned i
        ≡ answer_of view n txn call m (taken_in s.system.phase) i
  answer-taken i lt t =
      answer-share view n txn call m w (taken_in s.system.phase) assigned
        (λ k hk tk. assigned-of_taken k tk)
        (λ k j lo hj off tj mine.
          later_apart view n adj assigned dag txn edge (Reach-of_Runs n adj r) k j lo hj mine
            (waiting-of_free k mine off) tj)
        i lt t

  module _ (all_done : s.system.completed ≡ n) where
    none_outstanding : (i : ℕ) → i < n → outstanding (s.system.phase i) ≡ 0
    none_outstanding = (completed_iff n adj assigned dag (Reach-of_Runs n adj r)).0 all_done

    pub taken-assigned : (i : ℕ) → i < n → taken_in s.system.phase i ≡ assigned i
    taken-assigned i lt = ground (arith, none_outstanding i lt, inv.own i, inv.others i)

    pub none_runs : (i : ℕ) → i < n → runs_in s.system.phase i ≡ false
    none_runs i lt = ground (arith, none_outstanding i lt)

    pub final_maps : Same view (in_turn assigned (effects call) n m) s.my_map
    final_maps x =
        ap (view x)
          (sym (in_turn-none (runs_in s.system.phase) (effects s.left) n s.my_map none_runs))
        ∙ (Runs-InOrder view n adj assigned dag txn edge call m w r).maps x
        ∙ ap (view x) (
            sym (
              in_turn-cong (taken_in s.system.phase) assigned (effects call) (effects call) n m
                (λ k lt m'. rw (taken-assigned k lt) refl)))
