-- ===== src/Parallel/Keep.antt =====
-- The steps of the threads, and the order of the block.
use icsa_artifact.Base.{
  ℕ, ◌<◌, ◌≡◌, ◌≢◌, refl, sym, ◌∙◌, subst, Bool, true, false, arith, dec_lt, fun_ext,
}
use icsa_artifact.Text.{Text}
use icsa_artifact.Contract.{Map}
use icsa_artifact.Dag.{TransactionStruct}
use icsa_artifact.Dag.Conflict.{Conflict}
use icsa_artifact.Workers.{
  Phase, foreign, waiting, running, executed, releasing, done, update, System, Reach,
}
use icsa_artifact.Workers
use icsa_artifact.Workers.Inv.{IsDag}
use icsa_artifact.Workers.Keep.{Reach-Inv, claimed}
use icsa_artifact.Workers.Safety.{HasReleased, predecessors_first, no_conflict_runs}
use icsa_artifact.Parallel.{
  Call, State, Step, process, answer, other, EndsNone, begin_calls, Runs, begin, next,
  Reach-of_Runs,
}
use icsa_artifact.Parallel.Footprint.{Within, Conflict-comm}
use icsa_artifact.Parallel.Ordered.{Ordered, start-Ordered}
use icsa_artifact.Parallel.Access.{access-Ordered}
use icsa_artifact.Parallel.Claim.{claim-Ordered}
use icsa_artifact.Parallel.Answer.{answer-Ordered}

abbrev pub is_running : Phase → Bool
is_running running = true
is_running _ = false

abbrev pub is_taken : Phase → Bool
is_taken foreign = false
is_taken waiting = false
is_taken _ = true

abbrev pub taken_in : (ℕ → Phase) → ℕ → Bool
taken_in phase i = is_taken (phase i)

abbrev pub runs_in : (ℕ → Phase) → ℕ → Bool
runs_in phase i = is_running (phase i)

module _ {V : Type 0} (view : Text → Map → V) (n : ℕ) (adj : ℕ → ℕ → ℕ) (assigned : ℕ → Bool)
    (dag : IsDag adj assigned) (txn : ℕ → TransactionStruct)
    (edge : (p i : ℕ) → p < i → i < n → Conflict (txn p) (txn i) → adj p i ≡ 1) where
  -- Two calls that are under way do not conflict.
  running_apart :
      {s : System}
      → Reach n adj assigned s
      → (i j : ℕ) → i < n
      → j < n
      → s.phase i ≡ running
      → s.phase j ≡ running
      → i ≢ j
      → ¬ Conflict (txn i) (txn j)
  running_apart r i j hi hj run_i run_j ne c = elim (dec_lt i j) [
    | yes lt ↦ (no_conflict_runs n adj assigned dag r i j hi hj run_i run_j).0 (edge i j lt hj c)
    | no ge ↦
        (no_conflict_runs n adj assigned dag r j i hj hi run_j run_i).0
          (edge j i (omega arith) hi (Conflict-comm c))
  ]

  -- A later transaction that conflicts with one that waits has not been taken.
  pub later_apart :
      {s : System}
      → Reach n adj assigned s
      → (i j : ℕ) → i < j
      → j < n
      → assigned i ≡ true
      → s.phase i ≡ waiting
      → taken_in s.phase j ≡ true
      → ¬ Conflict (txn i) (txn j)
  later_apart {s} r i j lt hj mine waits taken c =
      let e = edge i j lt hj c in
      subst (λ phase. HasReleased phase j) waits
        (predecessors_first n adj assigned dag r i j hj (sym (dag.closed i j e) ∙ mine)
          (ground arith) e)

  module _ (call : ℕ → Call) (m : Map) (w : (i : ℕ) → Within view (txn i) (call i)) where
    abbrev pub InOrder : State → Type 0
    InOrder s =
        Ordered view n txn call m (taken_in s.system.phase) (runs_in s.system.phase) s.left s.my_map
          s.flag

    -- The same sets, said otherwise.
    moved :
        {taken taken' runs runs' : ℕ → Bool} {left : ℕ → Call} {m' : Map} {flag : Bool}
        → ((i : ℕ) → taken i ≡ taken' i)
        → ((i : ℕ) → runs i ≡ runs' i)
        → Ordered view n txn call m taken runs left m' flag
        → Ordered view n txn call m taken' runs' left m' flag
    moved {taken} {taken'} {runs} {runs'} {left} {m'} {flag} t r o =
        subst (λ f. Ordered view n txn call m f runs' left m' flag) (fun_ext t)
          (subst (λ f. Ordered view n txn call m taken f left m' flag) (fun_ext r) o)

    begin-InOrder : InOrder (begin_calls n adj assigned call m)
    unfolding begin_calls Workers.start
    begin-InOrder =
        moved {taken = λ i. false} {runs = λ i. false} (λ i. ground arith) (λ i. ground arith)
          (start-Ordered view n txn call m (λ i. false) (λ i. refl) w)

    module _ {s : State} (r : Reach n adj assigned s.system) (o : InOrder s) where
      other-InOrder :
          {system : System} (step : Workers.Step n adj s.system system)
          → EndsNone step
          → InOrder (record s { system = system })
      other-InOrder (Workers.claim i h z) e =
          let (mine, waits, _) =
            claimed n adj assigned dag (Reach-Inv n adj assigned dag r) i h z in
          moved (λ j. ground arith) (λ j. ground arith)
            (claim-Ordered view n txn call m (taken_in s.system.phase) (runs_in s.system.phase)
              s.left s.my_map s.flag o w i h (ground arith) (ground arith)
              (λ j lt hj t. later_apart r i j lt hj mine waits t)
              (λ j hj t.
                running_apart (Workers.next r (Workers.claim i h z)) i j h hj (ground arith)
                  (ground arith) (ground arith)))
      other-InOrder (Workers.execute i h p) e = absurd e
      other-InOrder (Workers.count i h p) e = moved (λ j. ground arith) (λ j. ground arith) o
      other-InOrder (Workers.release i k h p lt a) e =
          moved (λ j. ground arith) (λ j. ground arith) o
      other-InOrder (Workers.skip i k h p lt a) e = moved (λ j. ground arith) (λ j. ground arith) o
      other-InOrder (Workers.stop i k h p le) e = moved (λ j. ground arith) (λ j. ground arith) o

      Step-InOrder : {t : State} → Step n adj s t → InOrder t
      Step-InOrder (process i next' change h p e) =
          access-Ordered view n txn call m (taken_in s.system.phase) (runs_in s.system.phase) s.left
            s.my_map s.flag o w i h (ground arith) (ground arith)
            (λ j hj t ne. running_apart r i j h hj p (ground arith) ne) next' change e
      Step-InOrder (answer i b h p e) =
          moved (λ j. ground arith) (λ j. ground arith)
            (answer-Ordered view n txn call m (taken_in s.system.phase) (runs_in s.system.phase)
              s.left s.my_map s.flag o w i b h (ground arith) (ground arith) e)
      Step-InOrder (other step none_ends) = other-InOrder step none_ends

    pub Runs-InOrder : {s : State} → Runs n adj assigned call m s → InOrder s
    Runs-InOrder begin = begin-InOrder
    Runs-InOrder (next r st) = Step-InOrder (Reach-of_Runs n adj r) (Runs-InOrder r) st
